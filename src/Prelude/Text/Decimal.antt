-- ===== src/Prelude/Text/Decimal.antt =====
-- `to_string` on an integer.
use Prim.Native.Nat.{ℕ, zero, suc, ◌+◌, ◌/◌, ◌%◌}
use mathlib.Core.List.{[], ◌∷◌}
use clippo.Prelude.Tests.{ltb, if◌then◌else◌}
use clippo.Prelude.Int.{ℤ, pos, negsuc}
use clippo.Prelude.Text.Defs.{Text}

-- the digits of a number below 10 ^ 20, which every 64-bit one is
unfoldable digits_from : ℕ → ℕ → Text → Text
digits_from zero n acc = acc
digits_from (suc fuel) n acc =
    let rest = digits_from fuel (n / 10) ((b'0' + n % 10) ∷ acc) in
    if ltb n 10 then (b'0' + n) ∷ acc else rest

unfoldable pub decimal : ℕ → Text
unfolding digits_from
decimal n = digits_from 20 n []

unfoldable pub decimal_ℤ : ℤ → Text
decimal_ℤ (pos n) = decimal n
decimal_ℤ (negsuc n) = b'-' ∷ decimal (suc n)
