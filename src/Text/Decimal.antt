-- ===== src/Text/Decimal.antt =====
-- Decimal numbers as the digit loops of src/HttpParser.cpp read them.
use webserer_core.Base.{ℕ, ◌+◌, ◌-◌, ◌*◌, ◌≤◌, ◌≡◌, true, [], ◌∷◌, arith, Bytes, within}

-- The number that a text of digits stands for, read on from `acc`.
unfoldable pub decimal : ℕ → Bytes → ℕ
decimal acc [] = acc
decimal acc (d ∷ ds) = decimal (acc * 10 + (d - b'0')) ds

abbrev pub Digits : Bytes → Type 0
Digits [] = Unit {0}
Digits (d ∷ ds) = (within b'0' b'9' d ≡ true) × Digits ds

pub decimal-ge : (acc : ℕ) (ds : Bytes) → acc ≤ decimal acc ds
unfolding decimal
decimal-ge acc [] = omega arith
decimal-ge acc (d ∷ ds) = omega (arith, decimal-ge (acc * 10 + (d - b'0')) ds)
