-- ===== src/Buffer/Pool/Examples.antt =====
-- Runs of the pool.
use lars_study.Prelude.{◌≡◌, refl, [], ◌∷◌, some, pos, ok, All, subst}
use lars_study.Buffer.IoBuf.{io_buf}
use lars_study.Buffer.Pool.{Pool, IsValid, alloc_buf, IsFree, class_of, take_from, update}

-- A pool with one buffer in each class.
abbrev small_pool : Pool
small_pool = record { free = λ k. some (io_buf k ∷ []); total_mem = 0 }

small_pool-IsValid : IsValid small_pool
small_pool-IsValid = record {
  has_class = λ k c e. absurd (cc);
  sorted = λ k l e.
      let same : io_buf k ∷ [] ≡ l = cc in subst (All (IsFree k)) same ((refl, refl, refl), tt);
}

-- The same pool once its buffer of 64K is handed out.
abbrev used_pool : Pool
used_pool = record { free = update small_pool.free 65536 []; total_mem = 0 }

took_block : alloc_buf small_pool (pos 5000) ≡ ok (some (io_buf 65536), used_pool)
unfolding alloc_buf class_of take_from
took_block = refl
