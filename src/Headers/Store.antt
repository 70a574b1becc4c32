-- ===== src/Headers/Store.antt =====
-- Header lines in `_parseHeaders` of src/HttpParser.cpp.
use webserer_core.Base.{
  ℕ, zero, suc, ◌+◌, ◌≤◌, ◌<◌, ◌≡◌, ◌≢◌, refl, true, inl, inr, ◌∷◌, ◌++◌, ap, arith, Bytes, codes,
  Option, none, some, length, take, if◌then◌else◌, equal, Option-cases, length-drop, length-append,
}
use webserer_core.Buffer
use webserer_core.Buffer.{Buffer}
use webserer_core.Buffer.Client.{Sound, consume-Sound}
use webserer_core.Buffer.Queue.{content-consume}
use webserer_core.Headers.{
  Stored, kept, failed, exhausted, store_header, store_line, is_singleton, header_lines,
}
use webserer_core.Request.{HttpRequest, find}
use webserer_core.Request.Map.{find-assign}
use webserer_core.Text.{find_crlf}
use webserer_core.Text.Crlf.{find_crlf-Finds}

-- The value that a header has once it is stored beside what was there.
abbrev pub joined : Option Bytes → Bytes → Bytes
joined none value = value
joined (some old) value = old ++ (codes ", " ++ value)

-- A header that is kept changes the map at its own name alone: it adds its value to the one that
-- was there, and if it may stand only once there was none.
pub store_header-kept :
    (name value key : Bytes) (req : HttpRequest) {after : HttpRequest}
    → store_header name value req ≡ kept after
    → (find key after.headers ≡ (
        if equal name key
        then some (joined (find name req.headers) value)
        else find key req.headers))
      × (is_singleton name ≡ true → find name req.headers ≡ none)
      × (after.body ≡ req.body)
unfolding store_header
store_header-kept name value key req {after} e = elim (Option-cases (find name req.headers)) [
  | inl z ↦ ground (arith, find-assign name key value req.headers)
  | inr (old, z) ↦ ground (arith, find-assign name key (old ++ (codes ", " ++ value)) req.headers)
]

find_crlf_within : (s : Bytes) {n : ℕ} → find_crlf s ≡ some n → n + 2 ≤ length s
find_crlf_within s {n} e =
    let f = rw e at (find_crlf-Finds s) in
    omega (arith, f.position, ap length f.splits, length-append f.line (b'\r' ∷ b'\n' ∷ f.rest))

-- Consuming a line with its CRLF leaves fewer bytes.
pub consume_line_shorter :
    (buf : Buffer) (pos : ℕ)
    → Sound buf
    → find_crlf (Buffer.content buf) ≡ some pos
    → length (Buffer.content (Buffer.consume (pos + 2) buf)) < length (Buffer.content buf)
consume_line_shorter buf pos s z = omega (
  arith,
  ap length (content-consume (pos + 2) buf s.valid s.small),
  length-drop (pos + 2) (Buffer.content buf),
  find_crlf_within (Buffer.content buf) z,
)

abbrev EndsFrom : ℕ → Type 0
EndsFrom rounds =
    (b : Buffer) (r : HttpRequest)
    → Sound b
    → length (Buffer.content b) < rounds
    → header_lines rounds b r ≢ exhausted

line_ends :
    (rounds pos : ℕ) (buf : Buffer) (req : HttpRequest) (r : Stored)
    → Sound buf
    → length (Buffer.content buf) ≤ rounds
    → find_crlf (Buffer.content buf) ≡ some pos
    → store_line (take pos (Buffer.content buf)) req ≡ r
    → EndsFrom rounds
    → header_lines (suc rounds) buf req ≢ exhausted
unfolding header_lines
line_ends rounds pos buf req (failed r) s h z e ih = ground arith
line_ends rounds pos buf req (kept r) s h z e ih = ground (
  arith,
  ih (Buffer.consume (pos + 2) buf) r (consume-Sound (pos + 2) buf s)
      (omega (arith, consume_line_shorter buf pos s z)),
)

ends_from : (rounds : ℕ) → EndsFrom rounds
ends_from zero buf req s h = absurd (omega arith)
ends_from (suc rounds) buf req s h = elim (Option-cases (find_crlf (Buffer.content buf))) [
  | inl z ↦ unfold header_lines in ground arith
  | inr (pos, z) ↦ line_ends rounds pos buf req _ s (omega arith) z refl (ends_from rounds)
]

-- On a well-formed buffer the loop over header lines ends within as many rounds as the buffer has bytes, and one.
pub header_lines-ne-exhausted :
    (rounds : ℕ) (buf : Buffer) (req : HttpRequest)
    → Sound buf
    → length (Buffer.content buf) < rounds
    → header_lines rounds buf req ≢ exhausted
header_lines-ne-exhausted rounds buf req s h = ends_from rounds buf req s h
