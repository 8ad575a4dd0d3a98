-- ===== src/Net/EventLoop/Dispatch.antt =====
-- One round of event_loop::loop: the callbacks for what epoll_wait reported.
use lars_study.Prelude.{
  ℕ, Bool, true, false, ◌&&◌, List, [], ◌∷◌, Option, none, some, if◌then◌else◌, Outcome, ok, stop,
  exit_failure, ◌>>=◌,
}
use lars_study.Net.EventLoop.{IoEvent}

-- What is reported for a descriptor; `hangup` stands for EPOLLHUP or EPOLLERR.
pub record Reported : Type 0 where
  pub fd : ℕ
  pub epollin : Bool
  pub epollout : Bool
  pub hangup : Bool

abbrev pub is_null {ℓ} : {A : Type ℓ} → Option A → Bool
is_null none = true
is_null (some a) = false

-- `S` is all that callbacks can reach, `registered` reads `m_io_evs_map` in it, `run` runs a callback,
-- and `del` is del_io_event.
module _ {S C : Type 0} (registered : S → ℕ → Option (IoEvent C)) (run : C → S → Outcome S)
    (del : ℕ → S → S) where
  unfoldable pub run_if : Bool → Option C → S → Outcome S
  run_if b none s = ok s
  run_if b (some callback) s = if b then run callback s else ok s

  unfoldable pub on_hangup : ℕ → IoEvent C → S → Outcome S
  unfolding run_if
  on_hangup fd ev s = do
    s' ←
        run_if true ev.read_callback
          (if is_null ev.read_callback && is_null ev.write_callback then del fd s else s)
    run_if true ev.write_callback s'

  -- The body of the inner loop, on a copy of the entry.
  unfoldable pub dispatch_entry : Reported → IoEvent C → S → Outcome S
  unfolding on_hangup
  dispatch_entry r ev s = do
    s' ← run_if r.epollin ev.read_callback s
    s'' ← run_if r.epollout ev.write_callback s'
    if r.hangup then on_hangup r.fd ev s'' else ok s''

  unfoldable pub dispatch : Reported → S → Outcome S
  dispatch r s = elim (registered s r.fd) [ none ↦ ok s | some ev ↦ dispatch_entry r ev s ]

  pub dispatch_all : List Reported → S → Outcome S
  dispatch_all [] s = ok s
  dispatch_all (r ∷ rs) s = do s' ← dispatch r s; dispatch_all rs s'

  -- event_loop::loop, with what epoll_wait answers: an error, or what is reported. Where the list ends
  -- the loop waits.
  pub loop : List (Option (List Reported)) → S → Outcome S
  loop [] s = ok s
  loop (none ∷ rest) s = stop exit_failure
  loop (some reported ∷ rest) s = do s' ← dispatch_all reported s; loop rest s'
