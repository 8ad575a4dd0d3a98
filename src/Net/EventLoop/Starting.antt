-- ===== src/Net/EventLoop/Starting.antt =====
-- The constructor of event_loop, with that of its task_queue and set_loop
-- (lars_reactor/src/event_loop.cc, lars_reactor/src/task_queue.cc).
use lars_study.Prelude.{
  ℕ, ◌≡◌, refl, Bool, true, false, Option, none, some, Outcome, ok, stop, exit_failure, ◌>>=◌,
  ==_refl,
}
use lars_study.Net.EventLoop.{EventLoop, event_loop, epollin_only, add_io_event, IsConsistent}
use lars_study.Net.EventLoop.Dispatch.{dispatch, dispatch_entry, run_if}
use lars_study.Net.EventLoop.Registration.{added, here, next, Reach-IsConsistent}

-- A call that is followed by nothing.
followed_ok : {S : Type 0} (m : Outcome S) → (m >>= λ s. ok s) ≡ m
followed_ok (ok s) = refl
followed_ok (stop e) = refl

-- The eventfd of a task queue, or -1.
pub open_queue : Option ℕ → Outcome ℕ
open_queue none = stop exit_failure
open_queue (some efd) = ok efd

module _ {C : Type 0} where
  -- task_queue::set_loop. `deal_task` is the callback, and `ctl` what epoll_ctl returns.
  pub set_loop : ℕ → C → Bool → EventLoop C → EventLoop C
  set_loop efd deal_task ctl l = add_io_event l efd epollin_only deal_task ctl

  -- event_loop::event_loop. `created` is whether epoll_create1 succeeds.
  pub new_loop : Bool → Option ℕ → C → Bool → Outcome (EventLoop C)
  new_loop false queue deal_task ctl = stop exit_failure
  new_loop true queue deal_task ctl = do
    efd ← open_queue queue
    ok (set_loop efd deal_task ctl event_loop)

  -- Where the kernel gives both descriptors, the loop is consistent from the start.
  pub new_loop-IsConsistent :
      (efd : ℕ) (deal_task : C) (ctl : Bool)
      → (l : EventLoop C) × (new_loop true (some efd) deal_task ctl ≡ ok l) × IsConsistent l
  unfolding new_loop open_queue set_loop
  new_loop-IsConsistent efd deal_task ctl = (
    set_loop efd deal_task ctl event_loop,
    refl,
    Reach-IsConsistent (next here (added event_loop efd epollin_only deal_task ctl refl)),
  )

  -- What a new loop does when the queue's descriptor is readable is to run the queue's tasks.
  pub dispatch-set_loop :
      {S : Type 0} (run : C → S → Outcome S) (del : ℕ → S → S) (efd : ℕ) (deal_task : C)
      (ctl : Bool) (s : S)
      → dispatch
          (λ s fd. (set_loop efd deal_task ctl event_loop).io_evs_map fd)
          run
          del
          (record { fd = efd; epollin = true; epollout = false; hangup = false })
          s
        ≡ run deal_task s
  unfolding set_loop add_io_event dispatch dispatch_entry run_if
  dispatch-set_loop run del efd deal_task ctl s =
      rw (dispatch, ==_refl efd) (followed_ok (run deal_task s))
