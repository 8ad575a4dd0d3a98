-- ===== src/Net/TcpServer/Accepting.antt =====
-- The limit on connections.
use lars_study.Prelude.{
  false, Outcome, ℕ, ◌+◌, ◌≤◌, ◌≡◌, inl, inr, List, [], ◌∷◌, ◌++◌, ltb_ℤ, ℤ, pos, negsuc, natural,
  arith, ok, Bool-cases, subst, bind_ok,
}
use lars_study.Net.Socket.{
  Errno, eintr, emfile, eagain, econnaborted, eproto, eperm, ebadf, efault, einval, enfile, enobufs,
  enomem, enotsock, eopnotsupp, unknown, Accept4, AcceptResult, accepted, failed, accept,
}
use lars_study.Net.ThreadPool.{get_next_loop}
use lars_study.Net.TcpServer.{
  TcpServer, add_conn, after_error, after_accept, place, accept_callback, delete_conn_inloop,
  delete_conn, run_deletions, run_deletion, conn_destroyed,
}

room_lem : (max : ℤ) (n : ℕ) → ltb_ℤ max (pos n) ≡ false → n ≤ natural max
room_lem (pos m) n h = ground arith
room_lem (negsuc m) n h = absurd (cc)

module _ {L : Type 0} where
  -- Accepting connections, and closing them.
  pub data Step : TcpServer L → TcpServer L → Type 0 where
    accepts : (s s' : TcpServer L) (rs : List Accept4) → accept_callback rs s ≡ ok s' → Step s s'
    closing : (s : TcpServer L) (fd : ℕ) → Step s (delete_conn fd s)
    deleted : (s : TcpServer L) → Step s (run_deletion s)
    destroyed : (s : TcpServer L) → Step s (conn_destroyed s)

  pub data Reach (s : TcpServer L) : TcpServer L → Type 0 where
    here : Reach s s
    next : {t u : TcpServer L} → Reach s t → Step t u → Reach s u

  -- One connection more than the limit says, and no other.
  abbrev pub IsBounded : TcpServer L → Type 0
  IsBounded s = s.conn_nums ≤ natural s.max_conn_nums + 1

  add_conn-IsBounded :
      (connfd : ℕ) (s s' : TcpServer L)
      → s.conn_nums ≤ natural s.max_conn_nums
      → add_conn connfd s ≡ ok s'
      → IsBounded s'
  unfolding add_conn place
  add_conn-IsBounded connfd s s' h e =
      let (r, _, same) = bind_ok (get_next_loop s.thread_pool) (place connfd s) s' e in
      subst IsBounded same (omega arith)

  after_error-IsBounded :
      (error : Errno) (rest : Outcome (TcpServer L)) (s s' : TcpServer L)
      → IsBounded s
      → (rest ≡ ok s' → IsBounded s')
      → after_error error rest s ≡ ok s'
      → IsBounded s'
  unfolding after_error
  after_error-IsBounded eintr rest s s' v h e = h e
  after_error-IsBounded emfile rest s s' v h e = h e
  after_error-IsBounded eagain rest s s' v h e = let same : s ≡ s' = cc in subst IsBounded same v
  after_error-IsBounded econnaborted rest s s' v h e = absurd (cc)
  after_error-IsBounded eproto rest s s' v h e = absurd (cc)
  after_error-IsBounded eperm rest s s' v h e = absurd (cc)
  after_error-IsBounded ebadf rest s s' v h e = absurd (cc)
  after_error-IsBounded efault rest s s' v h e = absurd (cc)
  after_error-IsBounded einval rest s s' v h e = absurd (cc)
  after_error-IsBounded enfile rest s s' v h e = absurd (cc)
  after_error-IsBounded enobufs rest s s' v h e = absurd (cc)
  after_error-IsBounded enomem rest s s' v h e = absurd (cc)
  after_error-IsBounded enotsock rest s s' v h e = absurd (cc)
  after_error-IsBounded eopnotsupp rest s s' v h e = absurd (cc)
  after_error-IsBounded (unknown n) rest s s' v h e = absurd (cc)

  after_accept-IsBounded :
      (r : AcceptResult) (rest : Outcome (TcpServer L)) (s s' : TcpServer L)
      → IsBounded s
      → (rest ≡ ok s' → IsBounded s')
      → after_accept r rest s ≡ ok s'
      → IsBounded s'
  unfolding after_accept
  after_accept-IsBounded (accepted connfd) rest s s' v h e =
      elim (Bool-cases (ltb_ℤ s.max_conn_nums (pos s.conn_nums))) [
        | inl full ↦
            let same : record s { closed = s.closed ++ connfd ∷ [] } ≡ s' = cc (rw full at e) in
            subst IsBounded same v
        | inr room ↦
            add_conn-IsBounded connfd s s' (room_lem s.max_conn_nums s.conn_nums room)
              (rw room at e)
      ]
  after_accept-IsBounded (failed error) rest s s' v h e =
      after_error-IsBounded error rest s s' v h e

  accept_callback-IsBounded :
      (rs : List Accept4) (s s' : TcpServer L)
      → IsBounded s
      → accept_callback rs s ≡ ok s'
      → IsBounded s'
  unfolding accept_callback
  accept_callback-IsBounded [] s s' v e = let same : s ≡ s' = cc in subst IsBounded same v
  accept_callback-IsBounded (a ∷ rs) s s' v e =
      after_accept-IsBounded (accept a) (accept_callback rs s) s s' v
        (accept_callback-IsBounded rs s s' v) e

  run_deletions-IsBounded :
      (fds : List ℕ) (s : TcpServer L) → IsBounded s → IsBounded (run_deletions fds s)
  unfolding run_deletions delete_conn_inloop
  run_deletions-IsBounded [] s v = v
  run_deletions-IsBounded (fd ∷ rest) s v = v

  Step-IsBounded : {s t : TcpServer L} → Step s t → IsBounded s → IsBounded t
  unfolding delete_conn run_deletion conn_destroyed
  Step-IsBounded (accepts s s' rs e) v = accept_callback-IsBounded rs s s' v e
  Step-IsBounded (closing s fd) v = v
  Step-IsBounded (deleted s) v = run_deletions-IsBounded s.deletions s v
  Step-IsBounded (destroyed s) v = omega arith

  -- However connections are accepted and closed, their number never passes the limit by more than one,
  -- if it did not at the start.
  pub Reach-IsBounded : {s t : TcpServer L} → IsBounded s → Reach s t → IsBounded t
  Reach-IsBounded v here = v
  Reach-IsBounded v (next r step) = Step-IsBounded step (Reach-IsBounded v r)
