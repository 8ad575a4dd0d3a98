-- ===== src/Buffer/ReactorBuf/Examples.antt =====
-- Runs of the buffers.
use lars_study.Prelude.{
  Yields, ◌≡◌, stop, undefined, refl, [], ◌∷◌, some, pos, arith, replicate, inr,
}
use lars_study.Buffer.Memory.{store}
use lars_study.Buffer.IoBuf.{IoBuf}
use lars_study.Buffer.Pool.{buf_pool}
use lars_study.Buffer.Pool.Init.{buf_pool-IsValid}
use lars_study.Buffer.ReactorBuf.{IsReady, write_data}
use lars_study.Buffer.ReactorBuf.Write.{Writes}
use lars_study.Buffer.ReactorBuf.Stock.{write_data-Yields}
use lars_study.Buffer.Pool.Stock.{IsStocked, buf_pool-IsStocked}
use lars_study.Buffer.InputBuf.Unannounced.{read_data-Appends, read_data_overruns}
use lars_study.Buffer.InputBuf.{got, interrupted, read_data}
use lars_study.Buffer.InputBuf.Reading.{Reads}

-- Three bytes wait in a block of 4K.
abbrev three_bytes : IoBuf
three_bytes = record {
  bytes = store (λ i. 0) 0 (7 ∷ 8 ∷ 9 ∷ []);
  capacity = 4096;
  length = 3;
  head = 0;
}

three_bytes-IsReady : IsReady three_bytes
three_bytes-IsReady = record {
  valid = record { within = omega arith; small = omega arith };
  class = refl;
  at_start = refl;
}

write_data-Yields_example :
    Yields
      (write_data (some three_bytes) (replicate 5000 1) buf_pool)
      λ r. Writes (some three_bytes) (replicate 5000 1) r × IsStocked 18 r.2
write_data-Yields_example =
    write_data-Yields (some three_bytes) (replicate 5000 1) buf_pool 18 three_bytes-IsReady
      buf_pool-IsValid buf_pool-IsStocked (omega arith)

-- Two bytes come that were not announced.
read_data-Appends_example :
    Yields
      (read_data (some three_bytes) (some (pos 0)) (interrupted (got (4 ∷ 5 ∷ []))) buf_pool)
      λ q. Reads (some three_bytes) 0 (some (4 ∷ 5 ∷ [])) q × IsStocked 18 q.2
read_data-Appends_example =
    read_data-Appends (some three_bytes) 0 (interrupted (got (4 ∷ 5 ∷ []))) buf_pool 18
      (omega arith) (inr (refl, omega arith)) three_bytes-IsReady buf_pool-IsValid
      buf_pool-IsStocked

-- A block with room for one byte, and two that were not announced.
abbrev full : IoBuf
full = record { bytes = λ i. 0; capacity = 4096; length = 4095; head = 0 }

read_data_overruns_example :
    read_data (some full) (some (pos 0)) (got (4 ∷ 5 ∷ [])) buf_pool ≡ stop undefined
read_data_overruns_example =
    read_data_overruns full buf_pool
      (record {
        valid = record { within = omega arith; small = omega arith };
        class = refl;
        at_start = refl;
      })
      (got (4 ∷ 5 ∷ [])) (4 ∷ 5 ∷ []) refl (omega arith) (omega arith)
