-- ===== src/Net/TcpServer/Deleting.antt =====
-- What becomes of a connection that closes.
use lars_study.Prelude.{
  ℕ, ◌≡◌, inl, inr, refl, Bool, true, false, List, [], ◌∷◌, ◌++◌, All, ◌==◌, if◌then◌else◌, arith,
  ok, Bool-cases, subst, contains, bind_ok, ap,
}
use lars_study.Net.ThreadPool.{ThreadPool, get_next_loop}
use lars_study.Net.TcpConn.{ConnState, connected, disconnected, is_connected}
use lars_study.Net.TcpServer.{
  TcpServer, add_conn, place, delete_conn, delete_conn_inloop, run_deletions, run_deletion,
}

-- Each of the descriptors is of a connection, and none is there twice.
abbrev pub AllDistinct : (ℕ → Bool) → List ℕ → Type 0
AllDistinct conns [] = Unit {0}
AllDistinct conns (fd ∷ fds) = (conns fd ≡ true) × (contains fd fds ≡ false) × AllDistinct conns fds

AllDistinct-add :
    (conns : ℕ → Bool) (k : ℕ) (fds : List ℕ)
    → AllDistinct conns fds
    → AllDistinct (λ i. if i == k then true else conns i) fds
AllDistinct-add conns k [] h = tt
AllDistinct-add conns k (fd ∷ fds) (h, d, rest) = (
  elim (Bool-cases (fd == k)) [ inl same ↦ rw same | inr other ↦ rw other h ],
  d,
  AllDistinct-add conns k fds rest,
)

AllDistinct-remove :
    (conns : ℕ → Bool) (k : ℕ) (fds : List ℕ)
    → contains k fds ≡ false
    → AllDistinct conns fds
    → AllDistinct (λ i. if i == k then false else conns i) fds
unfolding contains
AllDistinct-remove conns k [] n h = tt
AllDistinct-remove conns k (fd ∷ fds) n (h, d, rest) =
    let other : (fd == k) ≡ false = ground arith in
    (rw other h, d, AllDistinct-remove conns k fds (ground arith) rest)

contains-append_one :
    (x y : ℕ) (l : List ℕ)
    → (x == y) ≡ false
    → contains x l ≡ false
    → contains x (l ++ y ∷ []) ≡ false
unfolding contains
contains-append_one x y [] h k = rw h
contains-append_one x y (z ∷ l) h k =
    let other : (x == z) ≡ false = ground arith in
    rw other (contains-append_one x y l h (ground arith))

AllDistinct-append_one :
    (conns : ℕ → Bool) (fd : ℕ) (fds : List ℕ)
    → conns fd ≡ true
    → contains fd fds ≡ false
    → AllDistinct conns fds
    → AllDistinct conns (fds ++ fd ∷ [])
unfolding contains
AllDistinct-append_one conns fd [] h n v = (h, refl, tt)
AllDistinct-append_one conns fd (k ∷ fds) h n (kept, d, rest) = (
  kept,
  contains-append_one k fd fds (ground arith) d,
  AllDistinct-append_one conns fd fds h (ground arith) rest,
)

abbrev AllThere : List (ℕ × Bool) → Type 0
AllThere calls = All (λ c. c.1 ≡ true) calls

AllThere-append_one :
    (calls : List (ℕ × Bool)) (fd : ℕ) (there : Bool)
    → AllThere calls
    → there ≡ true
    → AllThere (calls ++ (fd, there) ∷ [])
AllThere-append_one [] fd there h k = (k, tt)
AllThere-append_one (c ∷ calls) fd there h k = (h.0, AllThere-append_one calls fd there h.1 k)

AllThere-if :
    (b : Bool) (calls : List (ℕ × Bool)) (fd : ℕ) (there : Bool)
    → AllThere calls
    → there ≡ true
    → AllThere (if b then calls ++ (fd, there) ∷ [] else calls)
AllThere-if true calls fd there h k = AllThere-append_one calls fd there h k
AllThere-if false calls fd there h k = h

eq_of : (a b : ℕ) → (a == b) ≡ true → a ≡ b
eq_of a b h = ground arith

closed_now : is_connected disconnected ≡ true → ⊥
closed_now e = cc

-- Only connections that are kept wait.
not_there :
    (conns : ℕ → Bool) (k : ℕ) (fds : List ℕ)
    → conns k ≡ false
    → AllDistinct conns fds
    → contains k fds ≡ false
unfolding contains
not_there conns k [] new v = refl
not_there conns k (fd ∷ fds) new (there, _, rest) = elim (Bool-cases (k == fd)) [
  | inl same ↦ absurd (let e = ap conns (eq_of k fd same) in cc)
  | inr other ↦ rw other (not_there conns k fds new rest)
]

-- The server, and the `m_state` of the connection that each descriptor was last given to.
pub record Served (L : Type 0) : Type 0 where
  pub server : TcpServer L
  pub state : ℕ → ConnState

abbrev set_state : (ℕ → ConnState) → ℕ → ConnState → ℕ → ConnState
set_state f fd state i = if i == fd then state else f i

module _ {L : Type 0} where
  -- tcp_conn::close with delete_conn as its callback, as far as the server sees it: the second call does
  -- nothing.
  unfoldable pub close_conn : ℕ → Served L → Served L
  close_conn fd s =
      if is_connected (s.state fd)
      then record { server = delete_conn fd s.server; state = set_state s.state fd disconnected }
      else s

  -- A connection is added, under a descriptor that `accept` returns; the descriptor is of no connection
  -- that is still kept, since that holds it open. Any code may close any connection, any number of times;
  -- the destructor does, too. Deletions run in the main loop.
  pub data Step : Served L → Served L → Type 0 where
    adds :
        (s : Served L) (server' : TcpServer L) (connfd : ℕ)
        → s.server.conns connfd ≡ false
        → add_conn connfd s.server ≡ ok server'
        → Step s (record { server = server'; state = set_state s.state connfd connected })
    closes : (s : Served L) (fd : ℕ) → Step s (close_conn fd s)
    deletes : (s : Served L) → Step s (record s { server = run_deletion s.server })

  pub data Reach (s : Served L) : Served L → Type 0 where
    here : Reach s s
    next : {t u : Served L} → Reach s t → Step t u → Reach s u

  -- The deletions that wait are of connections, each of another; a connection that is open is kept, and
  -- no deletion of it waits; and the user's close callback has always got a connection.
  pub record IsKept (s : Served L) : Type 0 where
    pub waiting : AllDistinct s.server.conns s.server.deletions
    pub kept : (fd : ℕ) → is_connected (s.state fd) ≡ true → s.server.conns fd ≡ true
    pub not_waiting :
        (fd : ℕ) → is_connected (s.state fd) ≡ true → contains fd s.server.deletions ≡ false
    pub called : AllThere s.server.close_calls

  run_deletions-IsKept :
      (fds : List ℕ) (s : Served L)
      → s.server.deletions ≡ fds
      → IsKept s
      → IsKept (record s { server = run_deletions fds s.server })
  unfolding run_deletions delete_conn_inloop contains
  run_deletions-IsKept [] s e v = v
  run_deletions-IsKept (fd ∷ rest) s e v =
      let (there, apart, others) : AllDistinct s.server.conns (fd ∷ rest) =
        subst (AllDistinct s.server.conns) e v.waiting in
      record {
        waiting = AllDistinct-remove s.server.conns fd rest apart others;
        kept = λ i h.
            let waits : contains i (fd ∷ rest) ≡ false =
              subst (λ l. contains i l ≡ false) e (v.not_waiting i h) in
            let other : (i == fd) ≡ false = ground arith in rw other (v.kept i h);
        not_waiting = λ i h.
            let waits : contains i (fd ∷ rest) ≡ false =
              subst (λ l. contains i l ≡ false) e (v.not_waiting i h) in
            ground arith;
        called =
            AllThere-if s.server.has_on_close s.server.close_calls fd (s.server.conns fd) v.called
              there;
      }

  added-IsKept :
      (s : Served L) (connfd : ℕ) (r : L × ThreadPool L)
      → s.server.conns connfd ≡ false
      → IsKept s
      → IsKept
          (record { server = place connfd s.server r; state = set_state s.state connfd connected })
  unfolding place
  added-IsKept s connfd r new v = record {
    waiting = AllDistinct-add s.server.conns connfd s.server.deletions v.waiting;
    kept = λ i h. elim (Bool-cases (i == connfd)) [
      | inl same ↦ rw same
      | inr other ↦ rw other (v.kept i (rw other at h))
    ];
    not_waiting = λ i h. elim (Bool-cases (i == connfd)) [
      | inl same ↦
          not_there s.server.conns i s.server.deletions (rw (eq_of i connfd same) new) v.waiting
      | inr other ↦ v.not_waiting i (rw other at h)
    ];
    called = v.called;
  }

  closed-IsKept :
      (s : Served L) (fd : ℕ)
      → is_connected (s.state fd) ≡ true
      → IsKept s
      → IsKept
          (record { server = delete_conn fd s.server; state = set_state s.state fd disconnected })
  unfolding delete_conn
  closed-IsKept s fd is_open v = record {
    waiting =
        AllDistinct-append_one s.server.conns fd s.server.deletions (v.kept fd is_open)
          (v.not_waiting fd is_open) v.waiting;
    kept = λ i h. elim (Bool-cases (i == fd)) [
      | inl same ↦ absurd (closed_now (rw same at h))
      | inr other ↦ v.kept i (rw other at h)
    ];
    not_waiting = λ i h. elim (Bool-cases (i == fd)) [
      | inl same ↦ absurd (closed_now (rw same at h))
      | inr other ↦
          contains-append_one i fd s.server.deletions other (v.not_waiting i (rw other at h))
    ];
    called = v.called;
  }

  Step-IsKept : {s t : Served L} → Step s t → IsKept s → IsKept t
  unfolding add_conn close_conn run_deletion
  Step-IsKept (adds s server' connfd new e) v =
      let (r, _, same) =
        bind_ok (get_next_loop s.server.thread_pool) (place connfd s.server) server' e in
      subst (λ x. IsKept (record { server = x; state = set_state s.state connfd connected })) same
        (added-IsKept s connfd r new v)
  Step-IsKept (closes s fd) v = elim (Bool-cases (is_connected (s.state fd))) [
    | inl is_open ↦ rw (close_conn, is_open) (closed-IsKept s fd is_open v)
    | inr done ↦ rw (close_conn, done) v
  ]
  Step-IsKept (deletes s) v = run_deletions-IsKept s.server.deletions s refl v

  -- However connections are added, are closed, any number of times each, and are deleted in the main loop:
  -- each deletion finds its connection, so that the user's close callback never gets a null pointer, no
  -- two deletions of one connection wait, and an open connection is kept and has none waiting, if it was
  -- so at the start. A new connection's descriptor is assumed to be of no connection that is kept.
  pub Reach-IsKept : {s t : Served L} → IsKept s → Reach s t → IsKept t
  Reach-IsKept v here = v
  Reach-IsKept v (next r step) = Step-IsKept step (Reach-IsKept v r)
