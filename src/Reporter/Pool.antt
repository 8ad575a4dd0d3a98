-- ===== src/Reporter/Pool.antt =====
-- store_thread_pool and get_report_status (lars_reporter/src/store_thread_pool.cc,
-- lars_reporter/src/reporter_server.cc): reports are handed to threads that write them.
pub mod Handing
use lars_study.Prelude.{
  ℕ, suc, List, [], ◌∷◌, ◌++◌, Option, none, some, ℤ, natural, to_int, Str, codes, Outcome, ok,
  ◌>>=◌,
}
use lars_study.Config.Load.{ConfigFile}
use lars_study.Config.Values.{get_number}
use lars_study.Net.ThreadPool.{ThreadPool, thread_pool, set_thread_num, start, get_next_loop}
use lars_study.Reporter.Store.{ReportStatusRequest}

-- A loop is a pointer, which may be null. `tasks` lists what was handed to each loop; a task writes the
-- report that it holds.
pub record StorePool : Type 0 where
  pub loop_pool : ThreadPool (Option ℕ)
  pub tasks : List (ℕ × ReportStatusRequest)

-- store_thread_pool::store_thread_pool
pub store_thread_pool : ConfigFile → StorePool
store_thread_pool c =
    let thread_num = to_int (get_number c (codes "repoter") (codes "db_thread_cnt") 3) in
    record { loop_pool = set_thread_num (natural thread_num) (thread_pool none); tasks = [] }

-- store_thread_pool::start, where the thread `i` runs the loop `started i`.
pub start_pool : (ℕ → ℕ) → StorePool → StorePool
start_pool started s = record s { loop_pool = start (λ i. some (started i)) s.loop_pool }

-- store_thread_pool::add_task
pub add_task : ReportStatusRequest → StorePool → Outcome StorePool
add_task task s = do
  (loop, pool) ← get_next_loop s.loop_pool
  ok (elim loop [
    | none ↦ record s { loop_pool = pool }
    | some l ↦ record { loop_pool = pool; tasks = s.tasks ++ (l, task) ∷ [] }
  ])

-- get_report_status. protobuf's ParseFromArray is an argument.
pub get_report_status : (Str → ReportStatusRequest) → Str → StorePool → Outcome StorePool
get_report_status parse body s = let req = parse body in add_task req s
