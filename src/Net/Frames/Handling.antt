-- ===== src/Net/Frames/Handling.antt =====
-- What the read loops ask of the handlers.
use lars_study.Prelude.{ℕ, suc, ◌+◌, ◌*◌, List, [], ◌∷◌, ◌++◌, Yields, arith}
use lars_study.Buffer.Pool
use lars_study.Buffer.Pool.{Pool}
use lars_study.Buffer.Pool.Stock.{IsStocked, IsStocked-le}
use lars_study.Net.Message.{Message}
use lars_study.Net.Frames.{Handlers, call}

-- `I ds s` relates what was handled to what the handlers reach, and `P ds f` is what is asked of a
-- message that comes behind `ds`. A handler takes `h` buffers of each class at most.
pub record Handling {S : Type 0} (hs : Handlers S) (h : ℕ) (I : List Message → S → Type 0)
    (P : List Message → Message → Type 0) : Type 0 where
  pub handles :
      (ds : List Message) (f : Message) (p : Pool) (s : S) (stock : ℕ)
      → Pool.IsValid p
      → IsStocked (h + stock) p
      → I ds s
      → P ds f
      → Yields
          (call (hs f.id) f.id f.body p s)
          λ r. Pool.IsValid r.0 × IsStocked stock r.0 × I (ds ++ f ∷ []) r.1

-- What is asked of each of the messages that come behind `ds`.
abbrev pub Due : (List Message → Message → Type 0) → List Message → List Message → Type 0
Due P ds [] = Unit
Due P ds (f ∷ fs) = P ds f × Due P (ds ++ f ∷ []) fs

-- Buffers for one message, and for the others.
pub first_share :
    (h k n : ℕ) (p : Pool) → IsStocked (suc k * h + n) p → IsStocked (h + (k * h + n)) p
first_share h k n p s = IsStocked-le (h + (k * h + n)) (suc k * h + n) p (omega arith) s

pub last_share : (h n : ℕ) (p : Pool) → IsStocked (0 * h + n) p → IsStocked n p
last_share h n p s = IsStocked-le n (0 * h + n) p (omega arith) s
