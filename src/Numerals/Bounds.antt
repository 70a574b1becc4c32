-- ===== src/Numerals/Bounds.antt =====
-- `safe_strtol` of conf/httpConfig.cpp, and the casts behind it.
use webserer_core.Base.{
  ℕ, ◌+◌, ◌-◌, ◌*◌, ◌%◌, ◌^◌, ◌≤◌, ◌≡◌, refl, true, inl, inr, [], ◌∷◌, arith, none, some, Bytes,
  leb, if◌then◌else◌, Bool-cases,
}
use webserer_core.Numerals.{max_long, all_digits, read_long, safe_strtol, as_int, int_within}
use webserer_core.Text.{is_digit}
use webserer_core.Text.Decimal.{decimal, Digits, decimal-ge}

read_long-decimal :
    (result : ℕ) (ds : Bytes)
    → result ≤ max_long
    → Digits ds
    → read_long result ds
      ≡ (if leb (decimal result ds) max_long then some (decimal result ds) else none)
unfolding read_long decimal
read_long-decimal result [] h g = ground arith
read_long-decimal result (d ∷ ds) h g =
    elim (Bool-cases (leb (result * 10 + (d - b'0')) max_long)) [
      | inl e ↦ ground (arith, read_long-decimal (result * 10 + (d - b'0')) ds (ground arith) g.1)
      | inr e ↦ ground (arith, decimal-ge (result * 10 + (d - b'0')) ds)
    ]

all_digits-Digits : (ds : Bytes) → Digits ds → all_digits ds ≡ true
unfolding all_digits is_digit
all_digits-Digits [] g = refl
all_digits-Digits (d ∷ ds) g = ground (arith, all_digits-Digits ds g.1)

-- A text of digits, at least one, is read as its value if that fits a `long`, and refused otherwise.
pub safe_strtol-decimal :
    (d : ℕ) (ds : Bytes)
    → Digits (d ∷ ds)
    → safe_strtol (d ∷ ds)
      ≡ (if leb (decimal 0 (d ∷ ds)) max_long then some (decimal 0 (d ∷ ds)) else none)
unfolding safe_strtol
safe_strtol-decimal d ds g =
    rw (all_digits-Digits (d ∷ ds) g) (read_long-decimal 0 (d ∷ ds) (omega arith) g)

pub int_within-bounds : (lo hi n : ℕ) {m : ℕ} → int_within lo hi n ≡ some m → (lo ≤ m) × (m ≤ hi)
unfolding int_within as_int
int_within-bounds lo hi n e = ground arith

-- A number of 64 bits is cut to 32 before its range is tested: 2 ^ 32 more is the same to the test.
pub int_within-wraps : (lo hi n : ℕ) → int_within lo hi (n + 2 ^ 32) ≡ int_within lo hi n
unfolding int_within as_int
int_within-wraps lo hi n =
    let e : (n + 2 ^ 32) % 2 ^ 32 ≡ n % 2 ^ 32 = omega arith in rw (int_within, as_int, e)
