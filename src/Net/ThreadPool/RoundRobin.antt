-- ===== src/Net/ThreadPool/RoundRobin.antt =====
-- The loops take turns.
use lars_study.Prelude.{
  ℕ, zero, suc, ◌+◌, ◌≡◌, ◌⊎◌, inl, inr, refl, ap, sym, ◌∙◌, List, [], ◌∷◌, ◌++◌, All, append_assoc,
  arith, length, length-append, get_elem?-append, Outcome, ok, ◌>>=◌, le→leb, lt→leb,
}
use lars_study.Net.ThreadPool.{
  ThreadPool, thread_pool, set_thread_num, started_loops, start, get_next_loop,
}

module _ {L : Type 0} where
  -- `k` calls, and the loops that they return.
  pub calls : ℕ → ThreadPool L → Outcome (List L × ThreadPool L)
  calls zero p = ok ([], p)
  calls (suc k) p = do
    (loop, p') ← get_next_loop p
    (rest, last) ← calls k p'
    ok (loop ∷ rest, last)

  next_lem :
      (p : ThreadPool L) (xs : List L) (y : L) (ys : List L)
      → p.loops ≡ xs ++ y ∷ ys
      → p.thread_num ≡ length p.loops
      → p.next ≡ length xs
      → get_next_loop p ≡ ok (y, record p { next = suc p.next })
  unfolding get_next_loop
  next_lem p xs y ys e n f =
      let l = length-append xs (y ∷ ys) in
      let m : length p.loops ≡ length xs + suc (length ys) = ap length e ∙ l in
      rw (
        lt→leb p.thread_num 0 (omega (arith, m, n)),
        lt→leb p.thread_num p.next (omega (arith, m, n, f)),
        e,
        f,
        get_elem?-append xs y ys,
      )

  calls_lem :
      (p : ThreadPool L) (xs ys : List L)
      → p.loops ≡ xs ++ ys
      → p.thread_num ≡ length p.loops
      → p.next ≡ length xs
      → calls (length ys) p ≡ ok (ys, record p { next = length xs + length ys })
  unfolding calls
  calls_lem p xs [] e n f = let z : length xs + 0 ≡ length xs = omega arith in rw (z, ← f)
  calls_lem p xs (y ∷ ys) e n f =
      let p' : ThreadPool L = record p { next = suc p.next } in
      let g : p'.next ≡ length (xs ++ y ∷ []) = omega (arith, f, length-append xs (y ∷ [])) in
      let rest = calls_lem p' (xs ++ y ∷ []) ys (e ∙ sym (append_assoc xs (y ∷ []) ys)) n g in
      let o : length (xs ++ y ∷ []) + length ys ≡ length xs + suc (length ys) =
        omega (arith, length-append xs (y ∷ [])) in
      rw (next_lem p xs y ys e n f, rest, o)

  -- After the last loop comes the first.
  wrap_lem :
      (p : ThreadPool L) (y : L) (ys : List L)
      → p.loops ≡ y ∷ ys
      → p.thread_num ≡ length p.loops
      → p.next ≡ length p.loops
      → get_next_loop p ≡ get_next_loop (record p { next = 0 })
  unfolding get_next_loop
  wrap_lem p y ys e n f = rw (
    lt→leb p.thread_num 0 (omega (arith, ap length e, n)),
    le→leb p.thread_num p.next (omega (arith, n, f)),
  )

  wrap-calls :
      (p : ThreadPool L) (y : L) (ys : List L)
      → p.loops ≡ y ∷ ys
      → p.thread_num ≡ length p.loops
      → p.next ≡ length p.loops
      → calls (length p.loops) p ≡ calls (length p.loops) (record p { next = 0 })
  wrap-calls p y ys e n f =
      let m : length p.loops ≡ suc (length ys) = ap length e in
      let same : calls (suc (length ys)) p ≡ calls (suc (length ys)) (record p { next = 0 }) =
        unfold calls in rw (wrap_lem p y ys e n f) in
      ap (λ k. calls k p) m ∙ same ∙ ap (λ k. calls k (record p { next = 0 })) (sym m)

  -- With one loop for each thread and at the end of a turn, or before the first, as many calls as there
  -- are threads return each loop once and in order, and end a turn.
  pub calls_turn :
      (p : ThreadPool L) (y : L) (ys : List L)
      → p.loops ≡ y ∷ ys
      → p.thread_num ≡ length p.loops
      → (p.next ≡ 0) ⊎ (p.next ≡ length p.loops)
      → calls (length p.loops) p ≡ ok (p.loops, record p { next = length p.loops })
  calls_turn p y ys e n (inl f) =
      let z : 0 + length p.loops ≡ length p.loops = omega arith in
      calls_lem p [] p.loops refl n f ∙ rw z
  calls_turn p y ys e n (inr f) =
      let z : 0 + length p.loops ≡ length p.loops = omega arith in
      wrap-calls p y ys e n f ∙ calls_lem (record p { next = 0 }) [] p.loops refl n refl ∙ rw z

  -- `start` makes one loop for each thread.
  length-started_loops : (started : ℕ → L) (n : ℕ) → length (started_loops started n) ≡ n
  unfolding started_loops
  length-started_loops started zero = refl
  length-started_loops started (suc n) = omega (
    arith,
    length-append (started_loops started n) (started n ∷ []),
    length-started_loops started n,
  )

  -- A pool that is started has one loop for each thread, as `calls_turn` asks.
  pub start_lem :
      (loop : L) (started : ℕ → L) (thread_num : ℕ)
      → length (start started (set_thread_num thread_num (thread_pool loop))).loops ≡ thread_num
  unfolding start set_thread_num
  start_lem loop started thread_num = length-started_loops started thread_num

  All-append_one : (P : L → Type 0) (xs : List L) (x : L) → All P xs → P x → All P (xs ++ x ∷ [])
  All-append_one P [] x h k = (k, tt)
  All-append_one P (y ∷ xs) x h k = (h.0, All-append_one P xs x h.1 k)

  All-started_loops :
      (P : L → Type 0) (started : ℕ → L) (n : ℕ)
      → ((i : ℕ) → P (started i))
      → All P (started_loops started n)
  unfolding started_loops
  All-started_loops P started zero h = tt
  All-started_loops P started (suc n) h =
      All-append_one P (started_loops started n) (started n) (All-started_loops P started n h) (h n)

  -- Its loops are those that the threads returned.
  pub start-All :
      (P : L → Type 0) (loop : L) (started : ℕ → L) (thread_num : ℕ)
      → ((i : ℕ) → P (started i))
      → All P (start started (set_thread_num thread_num (thread_pool loop))).loops
  unfolding start set_thread_num
  start-All P loop started thread_num h = All-started_loops P started thread_num h

  pub start-thread_num :
      (loop : L) (started : ℕ → L) (thread_num : ℕ)
      → (start started (set_thread_num thread_num (thread_pool loop))).thread_num ≡ thread_num
  unfolding start set_thread_num
  start-thread_num loop started thread_num = refl

  -- A pool without threads gives the loop that it was made with.
  pub start-no_threads :
      (p : ThreadPool L) → p.thread_num ≡ 0 → get_next_loop p ≡ ok (p.main_loop, p)
  unfolding get_next_loop
  start-no_threads p h = rw h

  pub start-main_loop :
      (loop : L) (started : ℕ → L) (thread_num : ℕ)
      → (start started (set_thread_num thread_num (thread_pool loop))).main_loop ≡ loop
  unfolding start set_thread_num
  start-main_loop loop started thread_num = refl

  pub main_loop-start :
      (started : ℕ → L) (p : ThreadPool L) → (start started p).main_loop ≡ p.main_loop
  unfolding start
  main_loop-start started p = refl

  pub length-start :
      (started : ℕ → L) (p : ThreadPool L)
      → length (start started p).loops ≡ length p.loops + p.thread_num
  unfolding start
  length-start started p = omega (
    arith,
    length-append p.loops (started_loops started p.thread_num),
    length-started_loops started p.thread_num,
  )
