-- ===== src/Net/LoopThread/Waiting.antt =====
-- Whether the caller gets the loop.
use lars_study.Prelude.{
  ℕ, ◌+◌, ◌≡◌, ◌≤◌, ◌<◌, refl, sym, ap, ◌∙◌, ◌⊎◌, inl, inr, Option, none, some, arith, Option-cases,
}
use lars_study.Net.LoopThread.{
  Caller, testing, deciding, waiting, returned, Thread, created, stored, running, LoopThread,
  started, test, block, store, woken, notify, Step, tests, blocks, stores, notifies, Reach, here,
  next,
}

module _ (loop : ℕ) where
  -- What `m_loop` is by the time.
  abbrev pub shown : Thread → Option ℕ
  shown created = none
  shown stored = some loop
  shown running = some loop

  abbrev pub IsGiven : Caller → Type 0
  IsGiven (returned l) = l ≡ loop
  IsGiven c = Unit {0}

  pub record IsSound (s : LoopThread) : Type 0 where
    pub set : s.m_loop ≡ shown s.thread
    pub given : IsGiven s.caller

  woken-IsGiven : (c : Caller) → IsGiven c → IsGiven (woken c)
  woken-IsGiven testing h = h
  woken-IsGiven deciding h = h
  woken-IsGiven waiting h = tt
  woken-IsGiven (returned l) h = h

  shown-eq : (t : Thread) (l : ℕ) → some l ≡ shown t → l ≡ loop
  shown-eq created l e = absurd (cc)
  shown-eq stored l e = cc
  shown-eq running l e = cc

  pub Step-IsSound : {s t : LoopThread} → Step loop s t → IsSound s → IsSound t
  unfolding test block store notify
  Step-IsSound (tests s e) v = elim (Option-cases s.m_loop) [
    | inl unset ↦ rw (test, unset) (record { set = v.set; given = tt })
    | inr (l, found) ↦
        rw (test, found) (record { set = v.set; given = shown-eq s.thread l (sym found ∙ v.set) })
  ]
  Step-IsSound (blocks s e) v = record { set = v.set; given = tt }
  Step-IsSound (stores s e) v = record { set = refl; given = v.given }
  Step-IsSound (notifies s e) v = record {
    set = v.set ∙ ap shown e;
    given = woken-IsGiven s.caller v.given;
  }

  Reach-IsSound : {s t : LoopThread} → IsSound s → Reach loop s t → IsSound t
  Reach-IsSound v here = v
  Reach-IsSound v (next r step) = Step-IsSound step (Reach-IsSound v r)

  -- Nothing can happen any more.
  abbrev pub IsStuck : LoopThread → Type 0
  IsStuck s = (t : LoopThread) → ¬ (Step loop s t)

  abbrev pub Ends : LoopThread → Type 0
  Ends s = (s.m_loop ≡ some loop) × ((s.caller ≡ returned loop) ⊎ (s.caller ≡ waiting))

  running-Ends :
      (s : LoopThread) (c : Caller)
      → s.caller ≡ c
      → IsGiven c
      → s.m_loop ≡ some loop
      → IsStuck s
      → Ends s
  running-Ends s testing e g set stuck = absurd (stuck (test s) (tests s e))
  running-Ends s deciding e g set stuck = absurd (stuck (block s) (blocks s e))
  running-Ends s waiting e g set stuck = (set, inr e)
  running-Ends s (returned l) e g set stuck = (set, inl (e ∙ ap returned g))

  pub stuck-Ends : (s : LoopThread) (t : Thread) → s.thread ≡ t → IsSound s → IsStuck s → Ends s
  stuck-Ends s created e v stuck = absurd (stuck (store loop s) (stores s e))
  stuck-Ends s stored e v stuck = absurd (stuck (notify s) (notifies s e))
  stuck-Ends s running e v stuck = running-Ends s s.caller refl v.given (v.set ∙ ap shown e) stuck

  abbrev pub caller_steps : Caller → ℕ
  caller_steps testing = 3
  caller_steps deciding = 2
  caller_steps waiting = 1
  caller_steps (returned l) = 0

  abbrev pub thread_steps : Thread → ℕ
  thread_steps created = 4
  thread_steps stored = 3
  thread_steps running = 0

  -- At most so many steps are left.
  abbrev pub steps_left : LoopThread → ℕ
  steps_left s = caller_steps s.caller + thread_steps s.thread

  woken_steps : (c : Caller) → caller_steps (woken c) ≤ caller_steps c + 2
  woken_steps testing = omega arith
  woken_steps deciding = omega arith
  woken_steps waiting = omega arith
  woken_steps (returned l) = omega arith

  pub Step-steps_left : {s t : LoopThread} → Step loop s t → steps_left t < steps_left s
  unfolding test block store notify
  Step-steps_left (tests s e) = elim (Option-cases s.m_loop) [
    | inl unset ↦ rw (test, unset, e) (omega arith)
    | inr (l, found) ↦ rw (test, found, e) (omega arith)
  ]
  Step-steps_left (blocks s e) = rw e (omega arith)
  Step-steps_left (stores s e) = rw e (omega arith)
  Step-steps_left (notifies s e) = rw e (omega (arith, woken_steps s.caller))

  lost : LoopThread
  lost = record { m_loop = some loop; caller = waiting; thread = running }

  blocked-IsStuck : {s t : LoopThread} → s.caller ≡ waiting → s.thread ≡ running → ¬ (Step loop s t)
  blocked-IsStuck c d (tests s f) = cc
  blocked-IsStuck c d (blocks s f) = cc
  blocked-IsStuck c d (stores s f) = cc
  blocked-IsStuck c d (notifies s f) = cc

  -- There is a run from the start in which the thread sets its loop and notifies between the caller's test
  -- and its wait: no step is left then, the loop is there, and the caller is blocked.
  pub start_loses_wakeup :
      (s : LoopThread) × (Reach loop started s)
      × (s.m_loop ≡ some loop)
      × (s.caller ≡ waiting)
      × IsStuck s
  unfolding lost test block store notify
  start_loses_wakeup = (
    lost,
    next
        (next (next (next here (tests started refl)) (stores (test started) refl))
          (notifies (store loop (test started)) refl))
        (blocks (notify (store loop (test started))) refl),
    refl,
    refl,
    λ t. blocked-IsStuck refl refl,
  )
