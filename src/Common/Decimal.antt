-- ===== src/Common/Decimal.antt =====
-- The verb %d of fmt, for numbers that are not negative.
use sco.Common.{ℕ, zero, suc, ◌+◌, ◌/◌, ◌%◌, [], ◌∷◌, ◌++◌, ltb, if◌then◌else◌}
use sco.Common.Text.{Text}

unfoldable pub digits : ℕ → ℕ → Text
digits zero n = (n % 10 + 48) ∷ []
digits (suc fuel) n = if ltb n 10 then (n + 48) ∷ [] else digits fuel (n / 10) ++ (n % 10 + 48) ∷ []

-- A number has at most as many digits as it counts, and one more.
unfoldable pub decimal : ℕ → Text
unfolding digits
decimal n = digits n n
