-- ===== src/Base/Decimal.antt =====
-- `u64::to_string` and the like: the decimal digits of a number, in ASCII.
use Prim.Native.Nat.{ℕ, zero, suc, ◌+◌, ◌/◌, ◌%◌}
use mathlib.Core.List.{[], ◌∷◌}
use beam_init.Base.Tests.{ltb, if◌then◌else◌}
use beam_init.Base.Text.{Text}

-- The digits before `rest`; a number below `fuel` has fewer than `fuel` digits.
unfoldable pub digits_onto : ℕ → ℕ → Text → Text
digits_onto zero n rest = rest
digits_onto (suc fuel) n rest =
    let more = digits_onto fuel (n / 10) ((48 + n % 10) ∷ rest) in
    if ltb n 10 then (48 + n) ∷ rest else more

unfoldable pub decimal : ℕ → Text
unfolding digits_onto
decimal n = digits_onto (suc n) n []
