-- ===== src/Base/Decimal.antt =====
-- A number in decimal digits.
use Prim.Native.Nat.{ℕ, zero, suc, ◌+◌, ◌/◌, ◌%◌}
use mathlib.Core.List.{[], ◌∷◌}
use portico_gateway.Base.Tests.{ltb, if◌then◌else◌}
use portico_gateway.Base.Text.{GoString}

decimal_from : ℕ → ℕ → GoString → GoString
decimal_from zero n out = out
decimal_from (suc f) n out =
    let more = decimal_from f (n / 10) ((48 + n % 10) ∷ out) in
    if ltb n 10 then (48 + n) ∷ out else more

-- `%d`
unfoldable pub decimal : ℕ → GoString
unfolding decimal_from
decimal n = decimal_from (suc n) n []
