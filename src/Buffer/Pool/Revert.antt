-- ===== src/Buffer/Pool/Revert.antt =====
-- buf_pool::revert: what comes back.
use lars_study.Prelude.{
  ℕ, ◌≡◌, ◌<◌, refl, true, List, ◌∷◌, Option, some, ℤ, ok, arith, Option-cases, inl, inr, ap,
  fun_ext, to_int_small, to_size_pos, int_bound, ◌∙◌, ==_refl,
}
use lars_study.Buffer.IoBuf.{IoBuf, clear}
use lars_study.Buffer.Pool.{Pool, IsValid, IsFree, is_class, alloc_buf, revert, update, give_back}
use lars_study.Buffer.Pool.Alloc.{update-IsValid, alloc_buf-takes}

pub class_small : (k : ℕ) → is_class k ≡ true → k < int_bound
class_small k h = ground arith

-- The test on the class finds the list of the buffer's own capacity.
revert_step :
    (p : Pool) (b : IoBuf)
    → is_class b.capacity ≡ true
    → revert p b ≡ give_back p b.capacity (clear b) (p.free b.capacity)
unfolding revert
revert_step p b c =
    let s = class_small b.capacity c in rw (to_int_small b.capacity s, to_size_pos b.capacity s)

-- On a well-formed pool, a buffer of a class always finds its list: the assertion holds, and the
-- pool stays well-formed.
pub revert-IsValid :
    (p : Pool) (b : IoBuf)
    → IsValid p
    → is_class b.capacity ≡ true
    → (p' : Pool) × (revert p b ≡ ok p') × IsValid p'
revert-IsValid p b v c = elim (Option-cases (p.free b.capacity)) [
  | inl e ↦ absurd (v.has_class b.capacity c e)
  | inr (l, e) ↦ (
    record p { free = update p.free b.capacity (clear b ∷ l) },
    revert_step p b c ∙ ap (give_back p b.capacity (clear b)) e,
    update-IsValid p b.capacity (clear b ∷ l)
        (unfold clear in (refl, refl, refl), v.sorted b.capacity l e) v,
  )
]

clear_free : (k : ℕ) (b : IoBuf) → IsFree k b → clear b ≡ b
unfolding clear
clear_free k b f = ground arith

update_twice :
    (f : ℕ → Option (List IoBuf)) (k : ℕ) (l m : List IoBuf)
    → f k ≡ some m
    → update (update f k l) k m ≡ f
update_twice f k l m e = fun_ext λ i. ground arith

revert_head :
    (p : Pool) (k : ℕ) (l : List IoBuf) (b : IoBuf)
    → is_class k ≡ true
    → IsFree k b
    → p.free k ≡ some (b ∷ l)
    → revert (record p { free = update p.free k l }) b ≡ ok p
revert_head p k l b c f at_k =
    let q : Pool = record p { free = update p.free k l } in
    revert_step q b (rw f.0 c)
    ∙ ap (λ j. give_back q j (clear b) (q.free j)) f.0
    ∙ ap (λ x. give_back q k x (q.free k)) (clear_free k b f)
    ∙ rw (==_refl k) (ap (λ m. ok (record p { free = m })) (update_twice p.free k l (b ∷ l) at_k))

-- On a well-formed pool, giving a buffer back right after it was handed out restores the pool,
-- block for block.
pub revert-alloc_buf :
    (p p' : Pool) (z : ℤ) (b : IoBuf)
    → IsValid p
    → alloc_buf p z ≡ ok (some b, p')
    → revert p' b ≡ ok p
revert-alloc_buf p p' z b v h =
    let (k, l, c, _, at_k, after) = alloc_buf-takes p p' z b v h in
    rw after (revert_head p k l b c (v.sorted k (b ∷ l) at_k).0 at_k)
