-- ===== src/Net/TaskQueue/Delivery.antt =====
-- Every task is run, once and in order, and none waits without the loop's thread being woken for it.
use lars_study.Prelude.{
  ◌+◌, ◌<◌, ◌≡◌, ◌⊎◌, inl, inr, refl, ap, sym, ◌∙◌, List, [], ◌∷◌, ◌++◌, append_assoc, append-nil,
  arith,
}
use lars_study.Net.TaskQueue.{
  Phase, waiting, woken, running, TaskQueue, task_queue, push, signal, read_event, take, run_phase,
  run_front,
}

module _ {T : Type 0} where
  -- Any thread may push or signal at any time; the loop's thread goes through its phases, and wakes
  -- only where the counter is not 0. The list holds the tasks in the order in which they were pushed.
  pub data Step : List T × TaskQueue T → List T × TaskQueue T → Type 0 where
    pushed :
        (ts : List T) (q : TaskQueue T) (task : T) → Step (ts, q) (ts ++ task ∷ [], push task q)
    signalled : (ts : List T) (q : TaskQueue T) → 0 < q.unsignalled → Step (ts, q) (ts, signal q)
    woke :
        (ts : List T) (q : TaskQueue T)
        → q.phase ≡ waiting
        → 0 < q.event_count
        → Step (ts, q) (ts, read_event q)
    took : (ts : List T) (q : TaskQueue T) → q.phase ≡ woken → Step (ts, q) (ts, take q)
    ran : (ts : List T) (q : TaskQueue T) → Step (ts, q) (ts, run_front q)

  pub data Reach (s : List T × TaskQueue T) : List T × TaskQueue T → Type 0 where
    here : Reach s s
    next : {t u : List T × TaskQueue T} → Reach s t → Step t u → Reach s u

  -- The tasks in the hands of the loop's thread.
  abbrev pub in_hand : Phase T → List T
  in_hand waiting = []
  in_hand woken = []
  in_hand (running tasks) = tasks

  -- Where tasks wait, the counter is not 0, or a thread is about to signal, or the loop's thread is about
  -- to take them.
  pub record IsSound (ts : List T) (q : TaskQueue T) : Type 0 where
    pub in_order : q.done ++ (in_hand q.phase ++ q.queue) ≡ ts
    pub announced : (q.queue ≡ []) ⊎ (0 < q.event_count + q.unsignalled) ⊎ (q.phase ≡ woken)

  ran_lem :
      (ts : List T) (q : TaskQueue T) (p : Phase T)
      → q.phase ≡ p
      → IsSound ts q
      → IsSound ts (run_phase q p)
  unfolding run_phase
  ran_lem ts q waiting e v = v
  ran_lem ts q woken e v = v
  ran_lem ts q (running []) e v = record {
    in_order = rw e at v.in_order;
    announced = elim v.announced [
      | inl none_waits ↦ inl none_waits
      | inr (inl some_event) ↦ inr (inl some_event)
      | inr (inr at_lock) ↦ absurd (cc)
    ];
  }
  ran_lem ts q (running (task ∷ tasks)) e v = record {
    in_order = append_assoc q.done (task ∷ []) (tasks ++ q.queue) ∙ (rw e at v.in_order);
    announced = elim v.announced [
      | inl none_waits ↦ inl none_waits
      | inr (inl some_event) ↦ inr (inl some_event)
      | inr (inr at_lock) ↦ absurd (cc)
    ];
  }

  Step-IsSound : {s t : List T × TaskQueue T} → Step s t → IsSound s.0 s.1 → IsSound t.0 t.1
  unfolding push signal read_event take run_front
  Step-IsSound (pushed ts q task) v = record {
    in_order =
        ap (λ l. q.done ++ l) (sym (append_assoc (in_hand q.phase) q.queue (task ∷ [])))
        ∙ sym (append_assoc q.done (in_hand q.phase ++ q.queue) (task ∷ []))
        ∙ ap (λ l. l ++ task ∷ []) v.in_order;
    announced = inr (inl (omega arith));
  }
  Step-IsSound (signalled ts q some_left) v = record {
    in_order = v.in_order;
    announced = inr (inl (omega arith));
  }
  Step-IsSound (woke ts q waits woken_up) v = record {
    in_order = rw waits at v.in_order;
    announced = inr (inr refl);
  }
  Step-IsSound (took ts q at_lock) v = record {
    in_order = rw append-nil (rw at_lock at v.in_order);
    announced = inl refl;
  }
  Step-IsSound (ran ts q) v = ran_lem ts q q.phase refl v

  -- From an empty queue on, whatever the threads do and in whatever order: the tasks run, the tasks in
  -- hand and the tasks that wait are together the tasks pushed, each once and in the order of pushing;
  -- and whenever tasks wait, the loop's thread is woken for them or takes them anyway.
  pub Reach-IsSound : {s : List T × TaskQueue T} → Reach ([], task_queue) s → IsSound s.0 s.1
  Reach-IsSound here = record { in_order = refl; announced = inl refl }
  Reach-IsSound (next r step) = Step-IsSound step (Reach-IsSound r)
