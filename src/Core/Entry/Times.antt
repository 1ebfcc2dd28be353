-- ===== src/Core/Entry/Times.antt =====
-- entry.rs: the arithmetic on times saturates and is otherwise exact.
use clippo.Prelude.{ℕ, ◌≤◌, ◌-◌, ◌^◌, arith, min}
use clippo.Prelude.Int.{ℤ, pos, pos_part, ◌-ℤ◌, ◌≤ℤ◌, IsI64, clamp_i64, clamp_i64-IsI64, -ℤ_parts}
use clippo.Core.Entry.{Timestamp, Duration, millis_of, since, saturating_sub}

clamp-le : (a b : ℤ) → IsI64 b → a ≤ℤ b → clamp_i64 a ≤ℤ b
unfolding clamp_i64
clamp-le a b h le = ground arith

le-clamp : (a b : ℤ) → IsI64 b → b ≤ℤ a → b ≤ℤ clamp_i64 a
unfolding clamp_i64
le-clamp a b h le = ground arith

le-clamp_of_le : (a b : ℤ) → IsI64 b → a ≤ℤ b → a ≤ℤ clamp_i64 a
unfolding clamp_i64
le-clamp_of_le a b h le = ground arith

pos_part-clamp-le : (a : ℤ) (n : ℕ) → a ≤ℤ pos n → pos_part (clamp_i64 a) ≤ n
unfolding clamp_i64
pos_part-clamp-le a n le = ground arith

-- A time moved back by an age is in range, is not later than the time, and the distance between
-- the two is at most the age.
saturating_sub_bounds :
    (t : Timestamp) (age : Duration)
    → IsI64 t
    → IsI64 (saturating_sub t age)
      × (saturating_sub t age ≤ℤ t)
      × (since t (saturating_sub t age) ≤ age)
unfolding saturating_sub since millis_of
saturating_sub_bounds t age h =
    let n : ℕ = min age (2 ^ 63 - 1) in
    let back = t -ℤ pos n in
    let cut = clamp_i64 back in
    (
      clamp_i64-IsI64 back,
      clamp-le back t h (omega (arith, -ℤ_parts t (pos n))),
      pos_part-clamp-le (t -ℤ cut) age (
          omega (
            arith,
            -ℤ_parts t (pos n),
            -ℤ_parts t cut,
            le-clamp_of_le back t h (omega (arith, -ℤ_parts t (pos n))),
          )),
    )
