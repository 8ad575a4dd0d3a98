-- ===== src/Buffer/InputBuf/Stock.antt =====
-- Reading with a pool that has free buffers: the process does not exit.
use lars_study.Prelude.{
  ℕ, suc, ◌<◌, Bool, true, false, List, Option, none, some, ◌==◌, not, ◌&&◌, ℤ, pos, eqb_ℤ, length,
  arith, Bool-cases, inl, inr, Spares, Spares-bind, Returns-Spares, Yields, int_bound,
}
use lars_study.Buffer.IoBuf.{IoBuf}
use lars_study.Buffer.Pool
use lars_study.Buffer.Pool.{Pool}
use lars_study.Buffer.Pool.Stock.{IsStocked, IsStocked-le}
use lars_study.Buffer.ReactorBuf.{ReactorBuf, Ready, ensure, grow, append}
use lars_study.Buffer.ReactorBuf.Stock.{ensure-Spares, grow-Spares, append-Spares}
use lars_study.Buffer.InputBuf.{
  ReadResult, got, failed, interrupted, answer, received, read_loop, read_grown, read_ensured,
  read_data,
}
use lars_study.Buffer.InputBuf.Reading.{Reads, Announced, read_data-Returns}

received-Spares :
    (n : ℕ) (b : IoBuf) (need : ℤ) (p : Pool) (bs : List ℕ)
    → IsStocked n p
    → Spares (received b need p bs) (λ r. IsStocked n r.2)
unfolding received
received-Spares n b need p bs s = elim (Bool-cases (length bs == 0)) [
  | inl end ↦ rw end s
  | inr more ↦ elim (Bool-cases (not (eqb_ℤ need (pos 0)) && not (eqb_ℤ (pos (length bs)) need))) [
    | inl wrong ↦ rw (more, wrong) tt
    | inr fine ↦ rw (more, fine) (Spares-bind (append b bs) _ _ _ (append-Spares b bs) λ c _. s)
  ]
]

read_loop-Spares :
    (n : ℕ) (b : IoBuf) (need : ℤ) (p : Pool) (r : ReadResult)
    → IsStocked n p
    → Spares (read_loop b need p r) (λ q. IsStocked n q.2)
unfolding read_loop
read_loop-Spares n b need p (got bs) s = received-Spares n b need p bs s
read_loop-Spares n b need p failed s = s
read_loop-Spares n b need p (interrupted r) s = read_loop-Spares n b need p r s

read_grown-Spares :
    (n : ℕ) (need : ℤ) (r : ReadResult) (g : Bool × IoBuf × Pool)
    → IsStocked n g.2
    → Spares (read_grown need r g) (λ q. IsStocked n q.2)
unfolding read_grown
read_grown-Spares n need r (false, b, p) s = s
read_grown-Spares n need r (true, b, p) s = read_loop-Spares n b need p r s

read_ensured-Spares :
    (n : ℕ) (need : ℤ) (r : ReadResult) (e : ReactorBuf × Pool)
    → IsStocked (suc n) e.1
    → Spares (read_ensured need r e) (λ q. IsStocked n q.2)
unfolding read_ensured
read_ensured-Spares n need r (none, p) s = IsStocked-le n (suc n) p (omega arith) s
read_ensured-Spares n need r (some b, p) s = elim (Bool-cases (b.head == 0)) [
  | inl start ↦
      rw start
        (Spares-bind (grow b need p) _ _ _ (grow-Spares n b need p s) (read_grown-Spares n need r))
  | inr elsewhere ↦ rw elsewhere tt
]

pub read_data-Spares :
    (n : ℕ) (m : ReactorBuf) (avail : Option ℤ) (r : ReadResult) (p : Pool)
    → IsStocked (suc (suc n)) p
    → Spares (read_data m avail r p) (λ q. IsStocked n q.2)
unfolding read_data
read_data-Spares n m none r p s = IsStocked-le n (suc (suc n)) p (omega arith) s
read_data-Spares n m (some need) r p s =
    Spares-bind (ensure m need p) _ _ _ (ensure-Spares (suc n) m need p s)
      (read_ensured-Spares n need r)

-- With a buffer in order, a well-formed pool that has two free buffers in each class, and a kernel true to
-- FIONREAD, which announces less than 2^31 bytes, a read returns, however often it is interrupted, and
-- writes nothing outside the block: it appends what came in, or reports -1 and keeps what waited, and that
-- only on an error or where the block that is wanted is past the largest class. Each class loses two
-- buffers at most.
pub read_data-Yields :
    (m : ReactorBuf) (n : ℕ) (r : ReadResult) (p : Pool) (stock : ℕ)
    → n < int_bound
    → Announced n (answer r)
    → Ready m
    → Pool.IsValid p
    → IsStocked (suc (suc stock)) p
    → Yields (read_data m (some (pos n)) r p) (λ q. Reads m n (answer r) q × IsStocked stock q.2)
read_data-Yields m n r p stock h k rb v s =
    Returns-Spares (read_data m (some (pos n)) r p) (Reads m n (answer r)) _
      (read_data-Returns n r h k m p rb v) (read_data-Spares stock m (some (pos n)) r p s)
