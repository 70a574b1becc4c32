-- ===== src/Uri/Decode.antt =====
-- `pctDecode` of src/HttpParser.cpp: what it keeps, and which texts it can be given to yield another.
use webserer_core.Base.{
  ℕ, ◌+◌, ◌/◌, ◌%◌, ◌≤◌, ◌<◌, ◌≡◌, refl, true, false, inl, inr, [], ◌∷◌, ap, arith, Bytes, length,
  count, ltb, ◌==◌, if◌then◌else◌, Bool-cases, ◌≢◌, ◌∙◌,
}
use webserer_core.Text.{is_xdigit}
use webserer_core.Uri.{hex_value, escaped, decodes, pct_decode}

decodes_xdigit : (h : ℕ) → is_xdigit h ≡ true → h ≢ b'/'
unfolding is_xdigit
decodes_xdigit h e = ground arith

decodes_parts :
    (c h l : ℕ) → decodes c h l ≡ true → (c ≡ b'%') × (h ≢ b'/') × (l ≢ b'/') × (escaped h l ≢ b'/')
unfolding decodes
decodes_parts c h l e = ground (arith, decodes_xdigit h, decodes_xdigit l)

-- A text has as many slashes after decoding as before.
pub count-pct_decode : (s : Bytes) → count b'/' (pct_decode s) ≡ count b'/' s
unfolding pct_decode
count-pct_decode [] = refl
count-pct_decode (a ∷ []) = refl
count-pct_decode (a ∷ b ∷ []) = refl
count-pct_decode (c ∷ h ∷ l ∷ rest) = elim (Bool-cases (decodes c h l)) [
  | inl e ↦ rw e (ground (arith, count-pct_decode rest, decodes_parts c h l e))
  | inr e ↦ rw e (omega (arith, count-pct_decode (h ∷ l ∷ rest)))
]

-- Decoding never makes a text longer.
pub length-pct_decode : (s : Bytes) → length (pct_decode s) ≤ length s
unfolding pct_decode
length-pct_decode [] = omega arith
length-pct_decode (a ∷ []) = omega arith
length-pct_decode (a ∷ b ∷ []) = omega arith
length-pct_decode (c ∷ h ∷ l ∷ rest) = elim (Bool-cases (decodes c h l)) [
  | inl e ↦ rw e (omega (arith, length-pct_decode rest))
  | inr e ↦ rw e (omega (arith, length-pct_decode (h ∷ l ∷ rest)))
]

hex_digit : ℕ → ℕ
hex_digit n = if ltb n 10 then n + b'0' else n + 55

-- A percent-encoding of every byte but `/`.
pub pct_encode : Bytes → Bytes
unfolding hex_digit
pct_encode [] = []
pct_encode (c ∷ cs) =
    let rest = pct_encode cs in
    if c == b'/' then c ∷ rest else b'%' ∷ hex_digit (c / 16) ∷ hex_digit (c % 16) ∷ rest

abbrev pub AllBytes : Bytes → Type 0
AllBytes [] = Unit {0}
AllBytes (c ∷ cs) = (c < 256) × AllBytes cs

hex_digit_lem : (n : ℕ) → n < 16 → (is_xdigit (hex_digit n) ≡ true) × (hex_value (hex_digit n) ≡ n)
unfolding hex_digit hex_value is_xdigit
hex_digit_lem n h = ground arith

decodes_ne : (c h l : ℕ) → c ≢ b'%' → decodes c h l ≡ false
unfolding decodes
decodes_ne c h l n = ground arith

pct_decode_plain : (c : ℕ) (s : Bytes) → c ≢ b'%' → pct_decode (c ∷ s) ≡ c ∷ pct_decode s
unfolding pct_decode
pct_decode_plain c [] h = refl
pct_decode_plain c (a ∷ []) h = refl
pct_decode_plain c (a ∷ b ∷ s) h = rw (decodes_ne c a b h)

escaped_digits : (c : ℕ) → c < 256 → escaped (hex_digit (c / 16)) (hex_digit (c % 16)) ≡ c
escaped_digits c h =
    omega
      (arith, (hex_digit_lem (c / 16) (omega arith)).1, (hex_digit_lem (c % 16) (omega arith)).1)

decodes_digits :
    (c : ℕ) → c < 256 → c ≢ b'/' → decodes b'%' (hex_digit (c / 16)) (hex_digit (c % 16)) ≡ true
unfolding decodes
decodes_digits c h n =
    rw
      (
        (hex_digit_lem (c / 16) (omega arith)).0,
        (hex_digit_lem (c % 16) (omega arith)).0,
        escaped_digits c h,
      )
      (ground arith)

encoded_byte :
    (c : ℕ) (s : Bytes)
    → c < 256
    → c ≢ b'/'
    → pct_decode (b'%' ∷ hex_digit (c / 16) ∷ hex_digit (c % 16) ∷ s) ≡ c ∷ pct_decode s
unfolding pct_decode
encoded_byte c s h n = rw (decodes_digits c h n) (ap (λ v. v ∷ pct_decode s) (escaped_digits c h))

-- Every text of bytes can be sent: decoding takes its percent-encoding back to it.
pub pct_decode-pct_encode : (s : Bytes) → AllBytes s → pct_decode (pct_encode s) ≡ s
unfolding pct_encode
pct_decode-pct_encode [] h = unfold pct_decode in refl
pct_decode-pct_encode (c ∷ cs) h = elim (Bool-cases (c == b'/')) [
  | inl e ↦ rw e (
      pct_decode_plain c (pct_encode cs) (ground arith) ∙ ap (◌∷◌ c) (pct_decode-pct_encode cs h.1))
  | inr e ↦
      rw (e, encoded_byte c (pct_encode cs) h.0 (ground arith))
        (ap (◌∷◌ c) (pct_decode-pct_encode cs h.1))
]
