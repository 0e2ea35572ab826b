-- ===== src/Go/Number.antt =====
-- Numbers in decimal notation, as fmt prints them.
use lok_lingo.Prelude.{ℕ, zero, suc, ◌+◌, ◌/◌, ◌%◌, [], ◌∷◌, ◌++◌, ltb, if◌then◌else◌}
use lok_lingo.Go.Text.{Text}

abbrev pub digit : ℕ → ℕ
digit d = 48 + d

-- The fuel bounds the number of digits.
unfoldable pub decimal_from : ℕ → ℕ → Text
decimal_from zero n = digit n ∷ []
decimal_from (suc fuel) n =
    let rest = decimal_from fuel (n / 10) in
    if ltb n 10 then digit n ∷ [] else rest ++ digit (n % 10) ∷ []

-- %d
abbrev pub decimal : ℕ → Text
decimal n = decimal_from n n
