-- ===== src/Net/ThreadPool.antt =====
-- event_loop_thread_pool (lars_reactor/include/event_loop_thread_pool.h,
-- lars_reactor/src/event_loop_thread_pool.cc): the loops that connections and tasks are spread over.
pub mod RoundRobin
use lars_study.Prelude.{
  ℕ, zero, suc, ◌+◌, Bool, List, [], ◌∷◌, ◌++◌, Option, none, some, leb, if◌then◌else◌, get_elem?,
  Outcome, ok, stop, undefined, ◌>>=◌,
}

-- `L` is the type of references to loops. A thread number of 0 stands for every number that is not
-- positive.
pub record ThreadPool (L : Type 0) : Type 0 where
  pub main_loop : L
  pub thread_num : ℕ
  pub loops : List L
  pub next : ℕ

module _ {L : Type 0} where
  abbrev pub thread_pool : L → ThreadPool L
  thread_pool loop = record { main_loop = loop; thread_num = 0; loops = []; next = 0 }

  unfoldable pub set_thread_num : ℕ → ThreadPool L → ThreadPool L
  set_thread_num thread_num p = record p { thread_num = thread_num }

  -- `started i` is the loop that the thread `i` returns from its start.
  started_loops : (ℕ → L) → ℕ → List L
  started_loops started zero = []
  started_loops started (suc n) = started_loops started n ++ started n ∷ []

  pub start : (ℕ → L) → ThreadPool L → ThreadPool L
  unfolding started_loops
  start started p = record p { loops = p.loops ++ started_loops started p.thread_num }

  abbrev pick : Option L → ThreadPool L → Outcome (L × ThreadPool L)
  pick none p = stop undefined
  pick (some loop) p = ok (loop, record p { next = suc p.next })

  -- `m_loops[m_next++]`: undefined where the loops are not there.
  unfoldable pub get_next_loop : ThreadPool L → Outcome (L × ThreadPool L)
  get_next_loop p =
      if leb p.thread_num 0
      then ok (p.main_loop, p)
      else let p' = if leb p.thread_num p.next then record p { next = 0 } else p in
        pick (get_elem? p'.loops p'.next) p'
