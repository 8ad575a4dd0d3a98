-- ===== src/Net/TaskQueue.antt =====
-- task_queue (lars_reactor/include/task_queue.h, lars_reactor/src/task_queue.cc): the tasks that other
-- threads hand to a loop's thread, and the eventfd that wakes it.
pub mod Delivery
mod Examples
use lars_study.Prelude.{
  ℕ, zero, suc, ◌+◌, ◌-◌, ◌≤◌, ◌<◌, ◌≡◌, Bool, true, false, List, [], ◌∷◌, ◌++◌,
}

-- Where the loop's thread stands: waiting in epoll_wait, in `get` between `read` and the lock, or running
-- the tasks it has taken.
pub data Phase (T : Type 0) : Type 0 where
  waiting : Phase T
  woken : Phase T
  running : List T → Phase T

-- `event_count` is the eventfd's counter. `unsignalled` counts the threads in `add` that have pushed a
-- task and not yet written to the eventfd. `done` lists the tasks that were run.
pub record TaskQueue (T : Type 0) : Type 0 where
  pub queue : List T
  pub event_count : ℕ
  pub unsignalled : ℕ
  pub phase : Phase T
  pub done : List T

module _ {T : Type 0} where
  abbrev pub task_queue : TaskQueue T
  task_queue = record { queue = []; event_count = 0; unsignalled = 0; phase = waiting; done = [] }

  -- The first half of `add`, under the lock.
  pub push : T → TaskQueue T → TaskQueue T
  push task q = record q { queue = q.queue ++ task ∷ []; unsignalled = suc q.unsignalled }

  -- The second half: `write` adds 1 to the eventfd's counter.
  pub signal : TaskQueue T → TaskQueue T
  signal q = record q { event_count = suc q.event_count; unsignalled = q.unsignalled - 1 }

  -- The first half of `get`: `read` sets the counter to 0.
  pub read_event : TaskQueue T → TaskQueue T
  read_event q = record q { event_count = 0; phase = woken }

  -- The second half, under the lock: the two queues are exchanged.
  pub take : TaskQueue T → TaskQueue T
  take q = record q { queue = []; phase = running q.queue }

  run_phase : TaskQueue T → Phase T → TaskQueue T
  run_phase q waiting = q
  run_phase q woken = q
  run_phase q (running []) = record q { phase = waiting }
  run_phase q (running (task ∷ tasks)) = record q {
    phase = running tasks;
    done = q.done ++ task ∷ [];
  }

  -- One round of the loop of `deal_task`, and its end. A task may itself add tasks; these are pushed
  -- like those of other threads.
  pub run_front : TaskQueue T → TaskQueue T
  unfolding run_phase
  run_front q = run_phase q q.phase
