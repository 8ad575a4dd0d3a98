-- ===== src/Buffer/Pool.antt =====
-- buf_pool (lars_reactor/include/buf_pool.h, lars_reactor/src/buf_pool.cc): free io_bufs by size
-- class. A chain of `m_next` links is a list; `free k` is the entry of `m_pool` at `k`, if any.
pub mod Alloc
pub mod Stock
pub mod Revert
pub mod Init
mod Examples
use lars_study.Prelude.{
  ℕ, ◌+◌, ◌*◌, ◌/◌, ◌≡◌, ◌≢◌, Bool, true, false, ◌||◌, List, [], ◌∷◌, Option, none, some, ltb, leb,
  ◌==◌, if◌then◌else◌, ℤ, pos, negsuc, to_int, to_size, add64, Outcome, ok, stop, exit_failure,
  assert_failed, replicate, All,
}
use lars_study.Buffer.IoBuf.{IoBuf, io_buf, clear}

-- enum MEM_CAP
abbrev pub m4k : ℕ
m4k = 4096

abbrev pub m16k : ℕ
m16k = 16384

abbrev pub m64k : ℕ
m64k = 65536

abbrev pub m256k : ℕ
m256k = 262144

abbrev pub m1m : ℕ
m1m = 1048576

abbrev pub m4m : ℕ
m4m = 4194304

abbrev pub m8m : ℕ
m8m = 8388608

-- In KB.
abbrev pub extra_mem_limit : ℕ
extra_mem_limit = 5242880

pub record Pool : Type 0 where
  pub free : ℕ → Option (List IoBuf)
  pub total_mem : ℕ

abbrev pub update : (ℕ → Option (List IoBuf)) → ℕ → List IoBuf → ℕ → Option (List IoBuf)
update f k l i = if i == k then some l else f i

-- One stage of the constructor: a first io_buf, `n` more behind it, and the memory that is counted.
fill : ℕ → ℕ → ℕ → Pool → Pool
fill cap n kb p = record {
  free = update p.free cap (io_buf cap ∷ replicate n (io_buf cap));
  total_mem = add64 p.total_mem kb;
}

-- The constructor. The memory counted is that of the source, which leaves the first io_buf of each
-- class out and counts 10 of the m8M class.
pub buf_pool : Pool
buf_pool = fill m8m 20 (10 * 8192) (
    fill m4m 20 (20 * 4096) (
      fill m1m 50 (50 * 1024) (
        fill m256k 200 (200 * 256) (
          fill m64k 500 (500 * 64) (
            fill m16k 1000 (1000 * 16)
              (fill m4k 5000 (5000 * 4) (record { free = λ k. none; total_mem = 0 })))))))

-- The class that serves a request: the m16K class never does.
pub class_of : ℕ → Option ℕ
class_of n =
    if leb n m4k
    then some m4k
    else if leb n m64k
    then some m64k
    else if leb n m256k
    then some m256k
    else if leb n m1m
    then some m1m
    else if leb n m4m
    then some m4m
    else if leb n m8m
    then some m8m
    else none

abbrev is_null : List IoBuf → Bool
is_null [] = true
is_null (b ∷ bs) = false

-- No free io_buf: create one. The test after `new` reads `ret_buf` where it means `new_buf`.
create : Pool → ℕ → List IoBuf → Outcome (Option IoBuf × Pool)
create p index ret_buf =
    if ltb extra_mem_limit (add64 p.total_mem (index / 1024))
    then stop exit_failure
    else let new_buf = io_buf index in
      if is_null ret_buf
      then stop exit_failure
      else ok (some new_buf, record p { total_mem = add64 p.total_mem (index / 1024) })

take_from : Pool → ℕ → List IoBuf → Outcome (Option IoBuf × Pool)
unfolding create
take_from p index [] = create p index []
take_from p index (b ∷ rest) = ok (some b, record p { free = update p.free index rest })

-- `m_pool[index]`: a missing key reads as a null pointer.
abbrev chain : Option (List IoBuf) → List IoBuf
chain none = []
chain (some l) = l

pub alloc_buf : Pool → ℤ → Outcome (Option IoBuf × Pool)
unfolding take_from class_of
alloc_buf p (negsuc n) = ok (none, p)
alloc_buf p (pos n) = elim (class_of n) [
  | none ↦ ok (none, p)
  | some index ↦ take_from p index (chain (p.free index))
]

abbrev give_back : Pool → ℕ → IoBuf → Option (List IoBuf) → Outcome Pool
give_back p index b none = stop assert_failed
give_back p index b (some l) = ok (record p { free = update p.free index (b ∷ l) })

pub revert : Pool → IoBuf → Outcome Pool
unfolding clear
revert p buf =
    let index = to_size (to_int buf.capacity) in give_back p index (clear buf) (p.free index)

abbrev pub is_class : ℕ → Bool
is_class k =
    k == m4k || (k == m16k || (k == m64k || (k == m256k || (k == m1m || (k == m4m || k == m8m)))))

-- A buffer as it lies in the list of its class.
abbrev pub IsFree : ℕ → IoBuf → Type 0
IsFree k b = (b.capacity ≡ k) × (b.length ≡ 0) × (b.head ≡ 0)

-- Every class has its list, and every list holds cleared buffers of its class.
pub record IsValid (p : Pool) : Type 0 where
  pub has_class : (k : ℕ) → is_class k ≡ true → p.free k ≢ none
  pub sorted : (k : ℕ) (l : List IoBuf) → p.free k ≡ some l → All (IsFree k) l
