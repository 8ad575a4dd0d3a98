-- ===== src/Net/Socket/Flags.antt =====
-- csocket::set_nonblocking: one flag is set, and the others stay.
use lars_study.Prelude.{◌+◌, ◌*◌, ◌%◌, ◌/◌, ◌≡◌, refl, true, ◌==◌, arith, Bool-cases, inl, inr}
use lars_study.Net.Socket.{Options, o_nonblock, set_nonblocking}

-- The flags are those of before, but for O_NONBLOCK, which is set.
pub set_nonblocking_lem :
    (o : Options)
    → ((set_nonblocking true true o).flags / o_nonblock % 2 ≡ 1)
      × ((set_nonblocking true true o).flags % o_nonblock ≡ o.flags % o_nonblock)
      × ((set_nonblocking true true o).flags / (2 * o_nonblock) ≡ o.flags / (2 * o_nonblock))
unfolding set_nonblocking
set_nonblocking_lem o = elim (Bool-cases (o.flags / o_nonblock % 2 == 1)) [
  | inl nonblocking ↦ rw nonblocking (ground arith, refl, refl)
  | inr blocking ↦ rw blocking (ground arith, omega arith, ground arith)
]

pub set_nonblocking_twice :
    (o : Options)
    → set_nonblocking true true (set_nonblocking true true o) ≡ set_nonblocking true true o
unfolding set_nonblocking
set_nonblocking_twice o = elim (Bool-cases (o.flags / o_nonblock % 2 == 1)) [
  | inl nonblocking ↦ rw (nonblocking, nonblocking)
  | inr blocking ↦
      let now : ((o.flags + 2048) / 2048 % 2 == 1) ≡ true = ground arith in rw (blocking, now)
]
