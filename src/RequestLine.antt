-- ===== src/RequestLine.antt =====
-- The request-line machine of `HttpParser::_parseRequestLine` in src/HttpParser.cpp: its loop over
-- the readable bytes and the checks behind it. A pointer is its distance from the cursor.
pub mod Scan
pub mod Version
use webserer_core.Base.{
  ℕ, zero, suc, ◌+◌, ◌-◌, ◌*◌, Bool, true, false, not, ◌&&◌, ◌||◌, [], ◌∷◌, Option, none, some, ltb,
  leb, ◌==◌, within, if◌then◌else◌, Bytes, take, drop,
}
use webserer_core.Text.{is_token_char, is_uri_char}

-- RL_START and so on.
pub data RlState : Type 0 where
  start method space_before_uri uri http1_1 http_h http_ht http_htt http_http : RlState
  first_major major first_minor minor space_after_version almost_done : RlState

-- `none` is a null pointer, and the version -1.
pub record LineScan : Type 0 where
  pub state : RlState
  pub method_start : Option ℕ
  pub method_end : Option ℕ
  pub uri_start : Option ℕ
  pub uri_end : Option ℕ
  pub http_major : Option ℕ
  pub http_minor : Option ℕ

-- One round of the loop: it goes on, ends with `done` set, or returns with an error code.
pub data Round : Type 0 where
  next : LineScan → Round
  last : LineScan → Round
  refuse : ℕ → Round

is_break : ℕ → Bool
is_break ch = ch == b'\r' || ch == b'\n'

expect : ℕ → RlState → LineScan → ℕ → Round
expect wanted then_state s ch =
    if ch == wanted then next (record s { state = then_state }) else refuse 400

-- `v > 9` and `v * 10 + d` on a version number that has been read.
over_nine : Option ℕ → Bool
over_nine none = false
over_nine (some v) = ltb 9 v

push_digit : Option ℕ → ℕ → Option ℕ
push_digit none ch = none
push_digit (some v) ch = some (v * 10 + (ch - b'0'))

-- The `switch`, at index `i`.
unfoldable pub rl_step : RlState → ℕ → LineScan → ℕ → Round
unfolding is_break expect over_nine push_digit
rl_step start i s ch =
    if is_break ch
    then next s
    else if not (is_token_char ch)
    then refuse 400
    else next (record s { method_start = some i; state = method })
rl_step method i s ch =
    if ch == b' '
    then next (record s { method_end = some i; state = space_before_uri })
    else if not (is_token_char ch)
    then refuse 400
    else next s
rl_step space_before_uri i s ch =
    if ch == b' '
    then next s
    else if is_uri_char ch
    then next (record s { uri_start = some i; state = uri })
    else refuse 400
rl_step uri i s ch =
    if ch == b' '
    then next (record s { uri_end = some i; state = http1_1 })
    else if is_break ch
    then refuse 400
    else if not (is_uri_char ch)
    then refuse 400
    else next s
rl_step http1_1 i s ch =
    if ch == b' ' then next s else if is_break ch then refuse 400 else expect b'H' http_h s ch
rl_step http_h i s ch = expect b'T' http_ht s ch
rl_step http_ht i s ch = expect b'T' http_htt s ch
rl_step http_htt i s ch = expect b'P' http_http s ch
rl_step http_http i s ch = expect b'/' first_major s ch
rl_step first_major i s ch =
    if not (within b'0' b'9' ch)
    then refuse 400
    else if not (ch == b'1')
    then refuse 505
    else next (record s { http_major = some (ch - b'0'); state = major })
rl_step major i s ch =
    if ch == b'.'
    then next (record s { state = first_minor })
    else if within b'0' b'9' ch
    then if over_nine s.http_major
      then refuse 400
      else next (record s { http_major = push_digit s.http_major ch })
    else refuse 400
rl_step first_minor i s ch =
    if not (within b'0' b'9' ch)
    then refuse 400
    else if not (ch == b'1')
    then refuse 505
    else next (record s { http_minor = some (ch - b'0'); state = minor })
rl_step minor i s ch =
    if within b'0' b'9' ch
    then if over_nine s.http_minor
      then refuse 400
      else next (record s { http_minor = push_digit s.http_minor ch })
    else if ch == b'\r'
    then next (record s { state = almost_done })
    else if ch == b'\n'
    then last s
    else if ch == b' '
    then next (record s { state = space_after_version })
    else refuse 400
rl_step space_after_version i s ch =
    if ch == b' '
    then next s
    else if ch == b'\r'
    then next (record s { state = almost_done })
    else if ch == b'\n'
    then last s
    else refuse 400
rl_step almost_done i s ch = if ch == b'\n' then last s else refuse 400

-- How the loop ends: out of bytes, at the end of the line with `p` behind it, or by a return.
pub data Scanned : Type 0 where
  pending : LineScan → Scanned
  done : ℕ → LineScan → Scanned
  rejected : ℕ → Scanned

unfoldable pub scan : ℕ → LineScan → Bytes → Scanned
scan i s [] = pending s
scan i s (ch ∷ rest) = elim (rl_step s.state i s ch) [
  | next t ↦ scan (suc i) t rest
  | last t ↦ done (suc i) t
  | refuse code ↦ rejected code
]

abbrev pub initial : LineScan
initial = record {
  state = start;
  method_start = none;
  method_end = none;
  uri_start = none;
  uri_end = none;
  http_major = none;
  http_minor = none;
}

-- The pieces of a line that passed the checks behind the loop.
pub record Line : Type 0 where
  pub method_start : ℕ
  pub method_end : ℕ
  pub uri_start : ℕ
  pub uri_end : ℕ
  pub http_major : ℕ
  pub http_minor : ℕ

pub data Check {ℓ} (A : Type ℓ) : Type ℓ where
  pass : A → Check A
  refused : ℕ → Check A

infixl 5 ◌>>=◌ ◌>>◌
abbrev ◌>>=◌ : {A B : Type 0} → Check A → (A → Check B) → Check B
pass a >>= f = f a
refused code >>= f = refused code

abbrev ◌>>◌ : {B : Type 0} → Check (Unit {0}) → Check B → Check B
m >> k = m >>= λ _. k

abbrev need : {A : Type 0} → Option A → Check A
need none = refused 400
need (some a) = pass a

abbrev ensure : Bool → ℕ → Check (Unit {0})
ensure true code = pass tt
ensure false code = refused code

abbrev or_else : Option ℕ → ℕ → ℕ
or_else none d = d
or_else (some n) d = n

-- `p` is the pointer behind the line.
unfoldable pub check_line : ℕ → LineScan → Check Line
check_line p s = do
  method_start ← need s.method_start
  method_end ← need s.method_end
  uri_start ← need s.uri_start
  let uri_end = or_else s.uri_end p
  ensure (not (ltb uri_end uri_start)) 400
  http_major ← need s.http_major
  http_minor ← need s.http_minor
  ensure (http_major == 1 && (http_minor == 0 || http_minor == 1)) 505
  ensure (leb (uri_end - uri_start) 8192) 414
  pass (record {
    method_start = method_start;
    method_end = method_end;
    uri_start = uri_start;
    uri_end = uri_end;
    http_major = http_major;
    http_minor = http_minor;
  })

-- `std::string(start, end - start)`
abbrev pub slice : ℕ → ℕ → Bytes → Bytes
slice from to text = take (to - from) (drop from text)
