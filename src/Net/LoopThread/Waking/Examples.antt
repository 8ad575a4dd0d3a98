-- ===== src/Net/LoopThread/Waking/Examples.antt =====
-- The caller waits, wakes without a notification, and finds the loop at address 4096.
use lars_study.Prelude.{ℕ, ◌+◌, ◌*◌, ◌≤◌, ◌≡◌, refl}
use lars_study.Net.LoopThread.{
  LoopThread, returned, started, test, block, store, tests, blocks, stores,
}
use lars_study.Net.LoopThread.Waiting.{IsStuck, Ends}
use lars_study.Net.LoopThread.Waking.{wake, Run, start, step, wakes, Run-Ends}

abbrev found : LoopThread
found = test (store 4096 (wake (block (test started))))

woken_early : Run 4096 started 4 1 found
unfolding wake store block test
woken_early =
    step
      (step (wakes (step (step start (tests started refl)) (blocks (test started) refl)) refl)
        (stores (wake (block (test started))) refl))
      (tests (store 4096 (wake (block (test started)))) refl)

Run-Ends_example :
    (4 ≤ 7 + 2 * 1)
    × ((l : ℕ) → found.caller ≡ returned l → l ≡ 4096)
    × (IsStuck 4096 found → Ends 4096 found)
Run-Ends_example = Run-Ends 4096 woken_early
