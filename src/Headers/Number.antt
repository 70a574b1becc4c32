-- ===== src/Headers/Number.antt =====
-- The Content-Length that `_parseHeaders` of src/HttpParser.cpp reads.
use webserer_core.Base.{
  ℕ, ◌+◌, ◌-◌, ◌*◌, ◌%◌, ◌^◌, ◌≤◌, ◌≡◌, inl, inr, [], ◌∷◌, arith, Bytes, leb, if◌then◌else◌,
  Bool-cases, size_mod,
}
use webserer_core.Headers.{length_is, too_large, read_length}
use webserer_core.Text.Decimal.{decimal, Digits, decimal-ge}

-- Under a limit of at most 2 ^ 60, digits read on from a number within it are taken, with the value
-- they have, exactly when that is within the limit, and are too large otherwise: no sum wraps.
pub read_length-decimal :
    (max_body acc : ℕ) (ds : Bytes)
    → max_body ≤ 2 ^ 60
    → acc ≤ max_body
    → Digits ds
    → read_length max_body acc ds
      ≡ (if leb (decimal acc ds) max_body then length_is (decimal acc ds) else too_large)
unfolding read_length decimal
read_length-decimal max_body acc [] m h g = ground arith
read_length-decimal max_body acc (d ∷ ds) m h g =
    elim (Bool-cases (leb (acc * 10 + (d - b'0')) max_body)) [
      | inl e ↦
          ground
            (arith, read_length-decimal max_body (acc * 10 + (d - b'0')) ds m (ground arith) g.1)
      | inr e ↦ ground (arith, decimal-ge (acc * 10 + (d - b'0')) ds)
    ]

-- A text with a byte that is no digit is never taken.
pub read_length-Digits :
    (max_body acc n : ℕ) (text : Bytes) → read_length max_body acc text ≡ length_is n → Digits text
unfolding read_length
read_length-Digits max_body acc n [] e = tt
read_length-Digits max_body acc n (c ∷ cs) e =
    ground (arith, read_length-Digits max_body ((acc * 10 + (c - b'0')) % size_mod) n cs)
