-- ===== src/Net/LoopThread/Waking.antt =====
-- The same where a wait may end without a notification, as condition_variable::wait may: the reason
-- for the loop around it.
mod Examples
use lars_study.Prelude.{ℕ, suc, ◌+◌, ◌*◌, ◌≡◌, ◌≤◌, ◌<◌, refl, arith}
use lars_study.Net.LoopThread.{
  Caller, testing, waiting, LoopThread, started, Step, Reach, here, next,
}
use lars_study.Net.LoopThread.Waiting.{
  IsSound, Step-IsSound, Step-steps_left, steps_left, caller_steps, thread_steps, IsStuck, Ends,
  stuck-Ends,
}

-- The wait ends, and the caller tests again.
pub wake : LoopThread → LoopThread
wake s = record s { caller = testing }

module _ (loop : ℕ) where
  -- A run with `steps` steps and `wakes` spurious wake-ups.
  pub data Run (s : LoopThread) : ℕ → ℕ → LoopThread → Type 0 where
    start : Run s 0 0 s
    step : {m n : ℕ} {t u : LoopThread} → Run s m n t → Step loop t u → Run s (suc m) n u
    wakes : {m n : ℕ} {t : LoopThread} → Run s m n t → t.caller ≡ waiting → Run s m (suc n) (wake t)

  Run-IsSound : {s t : LoopThread} {m n : ℕ} → IsSound loop s → Run s m n t → IsSound loop t
  unfolding wake
  Run-IsSound v start = v
  Run-IsSound v (step r e) = Step-IsSound loop e (Run-IsSound v r)
  Run-IsSound v (wakes r e) = let w = Run-IsSound v r in record { set = w.set; given = tt }

  Run-le :
      {s t : LoopThread} {m n : ℕ} → Run s m n t → m + steps_left loop t ≤ steps_left loop s + 2 * n
  unfolding wake
  Run-le start = omega arith
  Run-le (step r e) = omega (arith, Run-le r, Step-steps_left loop e)
  Run-le (wakes r e) = let l = rw e at (Run-le r) in omega (arith, l)

  -- However the steps of the caller and of the thread interleave, and whenever a wait ends without a
  -- notification: with `n` such wake-ups, 7 + 2 n other steps at most are made. A caller that returns has
  -- the thread's loop. Where no step is left but such a wake-up, the thread has set its loop, and the
  -- caller has either returned this loop or is blocked.
  pub Run-Ends :
      {m n : ℕ} {s : LoopThread}
      → Run started m n s
      → (m ≤ 7 + 2 * n)
        × ((l : ℕ) → s.caller ≡ Caller.returned l → l ≡ loop)
        × (IsStuck loop s → Ends loop s)
  Run-Ends {s} r =
      let v = Run-IsSound (record { set = refl; given = tt }) r in
      (omega (arith, Run-le r), λ l e. rw e at v.given, stuck-Ends loop s s.thread refl v)
