-- ===== src/Net/TaskQueue/Examples.antt =====
-- Two tasks, the second pushed while the first is taken.
use lars_study.Prelude.{ℕ, refl, [], ◌∷◌, arith}
use lars_study.Net.TaskQueue.{TaskQueue, task_queue, push, signal, read_event, take, run_front}
use lars_study.Net.TaskQueue.Delivery.{
  pushed, signalled, woke, took, ran, here, next, IsSound, Reach-IsSound,
}

abbrev one_pushed : TaskQueue ℕ
one_pushed = signal (push 10 task_queue)

abbrev taken : TaskQueue ℕ
taken = take (push 20 (read_event one_pushed))

Reach-IsSound_example : IsSound (10 ∷ 20 ∷ []) (run_front taken)
unfolding push signal read_event take
Reach-IsSound_example = Reach-IsSound (
    next
      (next
        (next
          (next
            (next (next here (pushed [] task_queue 10))
              (signalled (10 ∷ []) (push 10 task_queue) (omega arith)))
            (woke (10 ∷ []) one_pushed refl (omega arith)))
          (pushed (10 ∷ []) (read_event one_pushed) 20))
        (took (10 ∷ 20 ∷ []) (push 20 (read_event one_pushed)) refl))
      (ran (10 ∷ 20 ∷ []) taken))
