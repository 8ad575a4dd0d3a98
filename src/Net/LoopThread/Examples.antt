-- ===== src/Net/LoopThread/Examples.antt =====
-- A thread whose loop is at address 4096.
use lars_study.Prelude.{◌≡◌, some}
use lars_study.Net.LoopThread.{LoopThread, started, Reach, waiting}
use lars_study.Net.LoopThread.Waiting.{IsStuck, start_loses_wakeup}

start_loses_wakeup_example :
    (s : LoopThread) × (Reach 4096 started s)
    × (s.m_loop ≡ some 4096)
    × (s.caller ≡ waiting)
    × IsStuck 4096 s
start_loses_wakeup_example = start_loses_wakeup 4096
