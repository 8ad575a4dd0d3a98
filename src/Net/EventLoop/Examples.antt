-- ===== src/Net/EventLoop/Examples.antt =====
-- Runs of the event loop's registration.
use lars_study.Prelude.{ℕ, refl, true}
use lars_study.Net.EventLoop.{
  EventLoop, IsConsistent, event_loop, add_io_event, del_event, epollin_only,
}
use lars_study.Net.EventLoop.Registration.{added, taken_off, here, next, Reach-IsConsistent}

abbrev reading : EventLoop ℕ
reading = add_io_event event_loop 4 epollin_only 0 true

Reach-IsConsistent_example : IsConsistent (del_event reading 4 epollin_only)
Reach-IsConsistent_example = Reach-IsConsistent (
    next (next here (added event_loop 4 epollin_only 0 true refl))
      (taken_off reading 4 epollin_only))
