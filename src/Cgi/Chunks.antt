-- ===== src/Cgi/Chunks.antt =====
-- What src/EventLoop/EventLoop_helper_cgi.cpp writes of the output of a script, read as a chunked body.
use webserer_core.Base.{
  codes, returned, not, count, ℕ, zero, suc, ◌+◌, ◌*◌, ◌/◌, ◌%◌, ◌^◌, ◌≤◌, ◌<◌, ◌≡◌, refl, ap, ◌∙◌,
  true, false, List, [], ◌∷◌, ◌++◌, Bytes, ◌==◌, ltb, leb, length, inl, inr, Bool-cases, arith,
  is_nil,
}
use mathlib.Core.List.{append_assoc}
use mathlib.Core.Path.{subst}
use webserer_core.Config.Match.{All}
use webserer_core.Buffer.{Buffer}
use webserer_core.Request.{HttpRequest}
use webserer_core.Text.Crlf.{crlf}
use webserer_core.Handler.Replies.{concat}
use webserer_core.Chunked.Whole.{parse_chunked-Decoded}
use webserer_core.Cgi.Output.{hex_digit, hex_digits, print_hex, write_chunk}
use webserer_core.Chunked.{parse_chunked, digit_of, max_allowed_chunk, read_size}
use webserer_core.Chunked.Decode.{Announces, Piece, encoded, payload, AllAnnounced, Decoded, Due}
use webserer_core.Chunked.Size.{digit_value, HexDigits, hex_number, read_size-hex_number}

digit_value-hex_digit : (d : ℕ) → d < 16 → digit_value (hex_digit d) ≡ d
unfolding digit_of
digit_value-hex_digit d h = ground (arith, h)

hex_digit-HexDigits : (d : ℕ) → d < 16 → HexDigits (hex_digit d ∷ [])
unfolding digit_of
hex_digit-HexDigits d h = ground (arith, h)

hex_digits-HexDigits :
    (rounds n : ℕ) (behind : Bytes) → HexDigits behind → HexDigits (hex_digits rounds n behind)
unfolding hex_digits digit_of
hex_digits-HexDigits zero n behind h = h
hex_digits-HexDigits (suc rounds) n behind h =
    let k : HexDigits (hex_digit (n % 16) ∷ behind) =
      ((hex_digit-HexDigits (n % 16) (omega arith)).0, h) in
    elim (Bool-cases (ltb n 16)) [
      | inl e ↦ rw e k
      | inr e ↦ rw e (hex_digits-HexDigits rounds (n / 16) _ k)
    ]

nonzero : (rounds n : ℕ) → n < 16 ^ suc rounds → ltb n 16 ≡ false → 1 ≤ rounds
nonzero zero n h e = absurd (ground (arith, h))
nonzero (suc rounds) n h e = omega arith

hex_number-hex_digits :
    (rounds n : ℕ) (behind : Bytes)
    → n < 16 ^ rounds
    → 1 ≤ rounds
    → hex_number 0 (hex_digits rounds n behind) ≡ hex_number n behind
unfolding hex_digits hex_number
hex_number-hex_digits zero n behind h k = absurd (omega (arith, k))
hex_number-hex_digits (suc rounds) n behind h k = elim (Bool-cases (ltb n 16)) [
  | inl e ↦
      let l : n % 16 ≡ n = ground arith in
      let d = digit_value-hex_digit (n % 16) (omega arith) in
      rw e (ap (λ m. hex_number m behind) (omega (arith, d, l)))
  | inr e ↦
      let p : 16 ^ suc rounds ≡ 16 * 16 ^ rounds = omega arith in
      let l : n / 16 < 16 ^ rounds = omega (arith, p, h) in
      let r : 1 ≤ rounds = nonzero rounds n h e in
      let d = digit_value-hex_digit (n % 16) (omega arith) in
      rw e (
        hex_number-hex_digits rounds (n / 16) (hex_digit (n % 16) ∷ behind) l r
        ∙ ap (λ m. hex_number m behind) (omega (arith, d)))
]

pub hex_number-print_hex : (n : ℕ) → n < 16 ^ 16 → hex_number 0 (print_hex n) ≡ n
unfolding print_hex hex_number
hex_number-print_hex n h = hex_number-hex_digits 16 n [] h (omega arith)

no_return : (c : ℕ) → HexDigits (c ∷ []) → (c == b'\r') ≡ false
unfolding digit_of
no_return c h = ground (arith, h.0)

count-HexDigits : (cs : Bytes) → HexDigits cs → count b'\r' cs ≡ 0
count-HexDigits [] h = refl
count-HexDigits (c ∷ cs) h = rw (no_return c (h.0, tt), count-HexDigits cs h.1) refl

hex_digits-some :
    (rounds n : ℕ) (behind : Bytes)
    → is_nil behind ≡ false
    → is_nil (hex_digits rounds n behind) ≡ false
unfolding hex_digits
hex_digits-some zero n behind h = h
hex_digits-some (suc rounds) n behind h = elim (Bool-cases (ltb n 16)) [
  | inl e ↦ rw e refl
  | inr e ↦ rw e (hex_digits-some rounds (n / 16) _ refl)
]

print_hex-HexDigits : (n : ℕ) → HexDigits (print_hex n)
unfolding print_hex
print_hex-HexDigits n = hex_digits-HexDigits 16 n [] tt

first_digit : (rounds n : ℕ) → is_nil (hex_digits (suc rounds) n []) ≡ false
unfolding hex_digits
first_digit rounds n = elim (Bool-cases (ltb n 16)) [
  | inl e ↦ rw e refl
  | inr e ↦ rw e (hex_digits-some rounds (n / 16) _ refl)
]

print_hex-some : (n : ℕ) → is_nil (print_hex n) ≡ false
unfolding print_hex
print_hex-some n = first_digit 15 n

-- A size that is printed is one that a size line announces.
print_hex-Announces : (n : ℕ) → n ≤ max_allowed_chunk → Announces (print_hex n) n
print_hex-Announces n h =
    let value = hex_number-print_hex n (omega (arith, h)) in
    let small : leb n max_allowed_chunk ≡ true = ground (arith, h) in
    let some_digits : not (is_nil (print_hex n)) ≡ true = rw (print_hex-some n) refl in
    record {
      some_line = print_hex-some n;
      one_line = count-HexDigits (print_hex n) (print_hex-HexDigits n);
      size_read =
          read_size-hex_number false 0 (print_hex n) (omega arith) (print_hex-HexDigits n)
            some_digits
          ∙ rw (value, small) refl;
    }

-- The chunks that are written of some blocks of output.
abbrev pub chunks : List Bytes → Bytes
chunks [] = []
chunks (text ∷ texts) = concat (write_chunk text) ++ chunks texts

abbrev pub pieces : List Bytes → List Piece
pieces [] = []
pieces ([] ∷ texts) = pieces texts
pieces ((c ∷ cs) ∷ texts) =
    record { line = print_hex (length (c ∷ cs)); bytes = c ∷ cs } ∷ pieces texts

-- What ends the body.
abbrev pub last_chunk : Bytes
last_chunk = codes "0" ++ crlf ++ crlf

abbrev pub AllSmall : List Bytes → Type 0
AllSmall = All (λ text. length text ≤ max_allowed_chunk)

regroup :
    (digits text rest : Bytes)
    → ((digits ++ crlf) ++ (text ++ crlf)) ++ rest
      ≡ digits ++ (b'\r' ∷ b'\n' ∷ text ++ (b'\r' ∷ b'\n' ∷ rest))
regroup digits text rest = rw (append_assoc, append_assoc, append_assoc) refl

chunks-encoded :
    (texts : List Bytes) → chunks texts ++ last_chunk ≡ encoded (pieces texts) (codes "0") []
unfolding write_chunk encoded
chunks-encoded [] = refl
chunks-encoded ([] ∷ texts) = chunks-encoded texts
chunks-encoded ((c ∷ cs) ∷ texts) =
    rw (← chunks-encoded texts, append_assoc)
      (regroup (print_hex (length (c ∷ cs))) (c ∷ cs) (chunks texts ++ last_chunk))

payload-pieces : (texts : List Bytes) → payload (pieces texts) ≡ concat texts
unfolding payload
payload-pieces [] = refl
payload-pieces ([] ∷ texts) = payload-pieces texts
payload-pieces ((c ∷ cs) ∷ texts) = ap (λ t. c ∷ cs ++ t) (payload-pieces texts)

pieces-AllAnnounced : (texts : List Bytes) → AllSmall texts → AllAnnounced (pieces texts)
pieces-AllAnnounced [] h = tt
pieces-AllAnnounced ([] ∷ texts) h = pieces-AllAnnounced texts h.1
pieces-AllAnnounced ((c ∷ cs) ∷ texts) h =
    ((print_hex-Announces (length (c ∷ cs)) h.0, omega arith), pieces-AllAnnounced texts h.1)

zero-Announces : Announces (codes "0") 0
unfolding read_size digit_of
zero-Announces = record { some_line = refl; one_line = refl; size_read = refl }

-- The server reads the bodies that it writes: if the chunks written of some blocks of a script's
-- output, none larger than a chunk may be, and the chunk that ends them lie in a read buffer where a
-- size line is due, and the output is within the limit of the request, then `_parseChunked` adds the
-- output to the body, completes the request and leaves nothing behind.
pub parse_chunked-write_chunk :
    (texts : List Bytes) (buf : Buffer) (req : HttpRequest)
    → AllSmall texts
    → Due buf req (chunks texts ++ last_chunk)
    → req.written + length (concat texts) ≤ req.max_body_size
    → (b : Buffer) × (after : HttpRequest) × (parse_chunked buf req ≡ returned (b, after))
      × Decoded req (concat texts) [] b after
parse_chunked-write_chunk texts buf req small due w =
    let due_pieces = subst (Due buf req) (chunks-encoded texts) due in
    let (b, after, e, d) =
      parse_chunked-Decoded (codes "0") [] (pieces texts) buf req zero-Announces
        (pieces-AllAnnounced texts small) due_pieces (rw (payload-pieces texts) w) in
    (b, after, e, subst (λ t. Decoded req t [] b after) (payload-pieces texts) d)
