-- ===== src/Daemon/Session/Decimal.antt =====
-- `fmt.Sprintf("%d", n)`.
use hauntty.Prelude.{ℕ, zero, suc, ◌+◌, ◌/◌, ◌%◌, [], ◌∷◌, Text, ltb, if◌then◌else◌}

-- One digit a round; n + 1 rounds are more than enough.
unfoldable pub decimal_digits : ℕ → ℕ → Text → Text
decimal_digits zero n rest = rest
decimal_digits (suc fuel) n rest =
    let digit = 48 + n % 10 in
    let more = decimal_digits fuel (n / 10) (digit ∷ rest) in
    if ltb n 10 then digit ∷ rest else more

unfoldable pub decimal : ℕ → Text
unfolding decimal_digits
decimal n = decimal_digits (suc n) n []
