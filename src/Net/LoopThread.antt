-- ===== src/Net/LoopThread.antt =====
-- event_loop_thread (lars_reactor/include/event_loop_thread.h, lars_reactor/src/event_loop_thread.cc): a
-- thread with a loop of its own, and the caller that waits for it. `start` holds the lock except where
-- it is blocked; the thread takes no lock, so its steps come between any two of the caller's.
pub mod Waiting
pub mod Waking
mod Examples
use lars_study.Prelude.{ℕ, ◌≡◌, Option, none, some}

-- Where `start` is: before its test of `m_loop`, between the test and the wait, blocked, or done.
pub data Caller : Type 0 where
  testing deciding waiting : Caller
  returned : ℕ → Caller

-- Where thread_func is: before it sets `m_loop`, before it notifies, or in its loop.
pub data Thread : Type 0 where
  created stored running : Thread

pub record LoopThread : Type 0 where
  pub m_loop : Option ℕ
  pub caller : Caller
  pub thread : Thread

-- The thread has been made, and runs beside the caller.
abbrev pub started : LoopThread
started = record { m_loop = none; caller = testing; thread = created }

-- `while (m_loop == nullptr)`, and the return.
pub test : LoopThread → LoopThread
test s = elim s.m_loop [
  | none ↦ record s { caller = deciding }
  | some loop ↦ record s { caller = returned loop }
]

-- `m_cond.wait(lock)` begins.
pub block : LoopThread → LoopThread
block s = record s { caller = waiting }

-- `m_loop = &loop`
pub store : ℕ → LoopThread → LoopThread
store loop s = record s { m_loop = some loop; thread = stored }

-- notify_one wakes a caller that is blocked.
abbrev woken : Caller → Caller
woken waiting = testing
woken c = c

pub notify : LoopThread → LoopThread
notify s = record s { caller = woken s.caller; thread = running }

-- What can happen next, where no wake-up is spurious. `loop` is the address of the thread's loop.
module _ (loop : ℕ) where
  pub data Step : LoopThread → LoopThread → Type 0 where
    tests : (s : LoopThread) → s.caller ≡ testing → Step s (test s)
    blocks : (s : LoopThread) → s.caller ≡ deciding → Step s (block s)
    stores : (s : LoopThread) → s.thread ≡ created → Step s (store loop s)
    notifies : (s : LoopThread) → s.thread ≡ stored → Step s (notify s)

  pub data Reach (s : LoopThread) : LoopThread → Type 0 where
    here : Reach s s
    next : {t u : LoopThread} → Reach s t → Step t u → Reach s u
