-- ===== src/Base/Decimal.antt =====
-- `String(n)` of a whole number: its decimal digits.
use Prim.Native.Nat.{ℕ, zero, suc, ◌+◌, ◌/◌, ◌%◌}
use mathlib.Core.List.{[], ◌∷◌}
use yeah.Base.Tests.{ltb, if◌then◌else◌}
use yeah.Base.Strings.{Text}

-- One digit a round; the fuel `n + 1` is more than the number of digits of `n`.
unfoldable pub digits_from : ℕ → ℕ → Text → Text
digits_from zero n out = out
digits_from (suc fuel) n out =
    let next = (b'0' + n % 10) ∷ out in
    let rest = digits_from fuel (n / 10) next in if ltb n 10 then next else rest

unfoldable pub to_text : ℕ → Text
unfolding digits_from
to_text n = digits_from (suc n) n []
