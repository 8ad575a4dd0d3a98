-- ===== src/Buffer/ReactorBuf/Stock.antt =====
-- Appending with a pool that has free buffers: the process does not exit.
use lars_study.Prelude.{
  ℕ, suc, ◌+◌, ◌<◌, Bool, true, false, List, none, some, leb, ltb_ℤ, ℤ, pos, to_int, to_size, add64,
  sub64, not, length, arith, Bool-cases, inl, inr, Spares, Spares-bind, Returns-Spares, Yields,
  int_bound,
}
use lars_study.Buffer.IoBuf
use lars_study.Buffer.IoBuf.{IoBuf, is_avail}
use lars_study.Buffer.IoBuf.Contents.{copy-Spares}
use lars_study.Buffer.Pool
use lars_study.Buffer.Pool.{Pool, alloc_buf, revert}
use lars_study.Buffer.Pool.Stock.{IsStocked, IsStocked-le, alloc_buf-Spares, revert-Spares}
use lars_study.Buffer.ReactorBuf.{
  ReactorBuf, Ready, ensure, grow, replace, append, append_grown, write_ensured, write_data, settle,
  pop,
}
use lars_study.Buffer.ReactorBuf.Write.{Writes, write_data-Returns}

pub ensure-Spares :
    (n : ℕ) (m : ReactorBuf) (need : ℤ) (p : Pool)
    → IsStocked (suc n) p
    → Spares (ensure m need p) (λ r. IsStocked n r.1)
unfolding ensure
ensure-Spares n none need p s = alloc_buf-Spares n p need s
ensure-Spares n (some b) need p s = IsStocked-le n (suc n) p (omega arith) s

replace-Spares :
    (n : ℕ) (b : IoBuf) (r : ReactorBuf × Pool)
    → IsStocked n r.1
    → Spares (replace b r) (λ q. IsStocked n q.2)
unfolding replace
replace-Spares n b (none, p) s = s
replace-Spares n b (some c, p) s =
    Spares-bind (IoBuf.copy c b) _ _ _ (copy-Spares c b)
      λ d _. Spares-bind (revert p b) _ _ _ (revert-Spares n p b s) λ p' s'. s'

pub grow-Spares :
    (n : ℕ) (b : IoBuf) (need : ℤ) (p : Pool)
    → IsStocked (suc n) p
    → Spares (grow b need p) (λ q. IsStocked n q.2)
unfolding grow
grow-Spares n b need p s = elim (Bool-cases (ltb_ℤ (to_int (sub64 b.capacity b.length)) need)) [
  | inl full ↦ rw full (
      Spares-bind (alloc_buf p (to_int (add64 b.capacity (to_size need)))) _ _ _
        (alloc_buf-Spares n p (to_int (add64 b.capacity (to_size need))) s) (replace-Spares n b))
  | inr room ↦ rw room (IsStocked-le n (suc n) p (omega arith) s)
]

pub append-Spares : (b : IoBuf) (bs : List ℕ) → Spares (append b bs) (λ c. Unit {0})
unfolding append
append-Spares b bs = elim (Bool-cases (leb (b.length + length bs) b.capacity)) [
  | inl fits ↦ rw fits tt
  | inr large ↦ rw large tt
]

append_grown-Spares :
    (n : ℕ) (bs : List ℕ) (r : Bool × IoBuf × Pool)
    → IsStocked n r.2
    → Spares (append_grown bs r) (λ q. IsStocked n q.2)
unfolding append_grown
append_grown-Spares n bs (false, b, p) s = s
append_grown-Spares n bs (true, b, p) s =
    Spares-bind (append b bs) _ _ _ (append-Spares b bs) λ c _. s

write_ensured-Spares :
    (n : ℕ) (bs : List ℕ) (r : ReactorBuf × Pool)
    → IsStocked (suc n) r.1
    → Spares (write_ensured bs r) (λ q. IsStocked n q.2)
unfolding write_ensured
write_ensured-Spares n bs (none, p) s = IsStocked-le n (suc n) p (omega arith) s
write_ensured-Spares n bs (some b, p) s =
    Spares-bind (grow b (pos (length bs)) p) _ _ _ (grow-Spares n b (pos (length bs)) p s)
      (append_grown-Spares n bs)

pub write_data-Spares :
    (n : ℕ) (m : ReactorBuf) (bs : List ℕ) (p : Pool)
    → IsStocked (suc (suc n)) p
    → Spares (write_data m bs p) (λ q. IsStocked n q.2)
unfolding write_data
write_data-Spares n m bs p s =
    Spares-bind (ensure m (pos (length bs)) p) _ _ _ (ensure-Spares (suc n) m (pos (length bs)) p s)
      (write_ensured-Spares n bs)

settle-Spares :
    (n : ℕ) (b : IoBuf) (p : Pool) → IsStocked n p → Spares (settle b p) (λ r. IsStocked n r.1)
unfolding settle
settle-Spares n b p s = elim (Bool-cases (is_avail b)) [
  | inl more ↦ rw more s
  | inr nothing ↦ rw nothing (Spares-bind (revert p b) _ _ _ (revert-Spares n p b s) λ p' s'. s')
]

pub pop-Spares :
    (n : ℕ) (m : ReactorBuf) (len : ℤ) (p : Pool)
    → IsStocked n p
    → Spares (pop m len p) (λ r. IsStocked n r.1)
unfolding pop
pop-Spares n none len p s = tt
pop-Spares n (some b) len p s = elim (Bool-cases (not (ltb_ℤ (to_int b.length) len))) [
  | inl fits ↦ rw fits (settle-Spares n (IoBuf.pop b (to_size len)) p s)
  | inr large ↦ rw large tt
]

-- With a buffer in order and a well-formed pool that has two free buffers in each class, appending less
-- than 2^31 bytes returns, and never writes outside the block: it appends exactly the given bytes behind
-- those that wait, or it reports -1 and keeps what waits, and that only where the old block and the
-- new bytes together are past the largest class. Each class loses two buffers at most.
pub write_data-Yields :
    (m : ReactorBuf) (bs : List ℕ) (p : Pool) (stock : ℕ)
    → Ready m
    → Pool.IsValid p
    → IsStocked (suc (suc stock)) p
    → length bs < int_bound
    → Yields (write_data m bs p) (λ r. Writes m bs r × IsStocked stock r.2)
write_data-Yields m bs p stock r v s h =
    Returns-Spares (write_data m bs p) (Writes m bs) _ (write_data-Returns m bs p r v h)
      (write_data-Spares stock m bs p s)
