-- ===== src/Chunked/Size.antt =====
-- The size line of a chunk, as `_parseChunked` of src/HttpParser.cpp reads it.
use webserer_core.Base.{
  ℕ, ◌+◌, ◌*◌, ◌≤◌, ◌≡◌, refl, Bool, true, false, not, ◌||◌, inl, inr, [], ◌∷◌, arith, Bytes, none,
  some, leb, ◌==◌, if◌then◌else◌, is_nil, Bool-cases, Option-cases,
}
use webserer_core.Chunked.{size_is, wrong, digit_of, read_size, max_allowed_chunk}

abbrev pub digit_value : ℕ → ℕ
digit_value c = elim (digit_of c) [ none ↦ 0 | some d ↦ d ]

abbrev is_hex : ℕ → Bool
is_hex c = elim (digit_of c) [ none ↦ false | some d ↦ true ]

abbrev pub HexDigits : Bytes → Type 0
HexDigits [] = Unit {0}
HexDigits (c ∷ cs) = (is_hex c ≡ true) × HexDigits cs

-- The number that a text of hexadecimal digits stands for, read on from `acc`.
unfoldable pub hex_number : ℕ → Bytes → ℕ
hex_number acc [] = acc
hex_number acc (c ∷ cs) = hex_number (acc * 16 + digit_value c) cs

hex_number-ge : (acc : ℕ) (cs : Bytes) → acc ≤ hex_number acc cs
unfolding hex_number
hex_number-ge acc [] = omega arith
hex_number-ge acc (c ∷ cs) = omega (arith, hex_number-ge (acc * 16 + digit_value c) cs)

digit_of-ne_semicolon : (c : ℕ) → is_hex c ≡ true → (c == b';') ≡ false
unfolding digit_of
digit_of-ne_semicolon c h = ground arith

-- A size line of hexadecimal digits, at least one, is taken exactly when its value is at most the
-- largest chunk allowed, and refused with 413 above it.
pub read_size-hex_number :
    (valid : Bool) (acc : ℕ) (cs : Bytes)
    → acc ≤ max_allowed_chunk
    → HexDigits cs
    → (valid || not (is_nil cs)) ≡ true
    → read_size valid acc cs ≡ (
        if leb (hex_number acc cs) max_allowed_chunk
        then size_is (hex_number acc cs)
        else wrong 413)
unfolding read_size hex_number
read_size-hex_number valid acc [] h g v = ground arith
read_size-hex_number valid acc (c ∷ cs) h g v = elim (Option-cases (digit_of c)) [
  | inl z ↦ absurd (ground arith)
  | inr (d, z) ↦
      rw (z, digit_of-ne_semicolon c g.0)
        (elim (Bool-cases (leb (acc * 16 + d) max_allowed_chunk)) [
          | inl e ↦
              ground (arith, read_size-hex_number true (acc * 16 + d) cs (ground arith) g.1 refl)
          | inr e ↦ ground (arith, hex_number-ge (acc * 16 + d) cs)
        ])
]
