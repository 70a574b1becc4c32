-- ===== src/Text.antt =====
-- The text helpers of src/HttpParser.cpp.
pub mod Trim
pub mod Crlf
pub mod Decimal
use webserer_core.Base.{
  ℕ, suc, ◌+◌, Bool, true, false, ◌&&◌, ◌||◌, List, [], ◌∷◌, Option, none, some, map, leb, ◌==◌,
  within, if◌then◌else◌, Bytes, is_nil,
}
use mathlib.Core.Option

-- `std::isdigit`, `std::isxdigit` and `std::tolower` in the C locale
unfoldable pub is_digit : ℕ → Bool
is_digit c = within b'0' b'9' c

unfoldable pub is_xdigit : ℕ → Bool
is_xdigit c = within b'0' b'9' c || within b'a' b'f' c || within b'A' b'F' c

unfoldable pub to_lower : ℕ → ℕ
to_lower c = if within b'A' b'Z' c then c + 32 else c

unfoldable pub is_token_char : ℕ → Bool
is_token_char ch =
    within b'A' b'Z' ch || within b'a' b'z' ch || within b'0' b'9' ch || ch == b'_' || ch == b'-'

unfoldable pub is_uri_char : ℕ → Bool
is_uri_char ch = leb 0x20 ch && (if ch == 0x7f then false else true)

unfoldable pub is_host_char : ℕ → Bool
is_host_char ch =
    within b'a' b'z' ch
    || within b'A' b'Z' ch
    || within b'0' b'9' ch
    || ch == b'-'
    || ch == b'.'
    || ch == b'_'
    || ch == b'~'
    || ch == b'!'
    || ch == b'$'
    || ch == b'&'
    || ch == 39
    || ch == b'('
    || ch == b')'
    || ch == b'*'
    || ch == b'+'
    || ch == b','
    || ch == b';'
    || ch == b'='
    || ch == b'%'

unfoldable pub str_tolower : Bytes → Bytes
unfolding to_lower
str_tolower = map to_lower

unfoldable pub is_blank : ℕ → Bool
is_blank c = c == b' ' || c == b'\t'

-- The loop over `start`.
unfoldable pub skip_blanks : Bytes → Bytes
unfolding is_blank
skip_blanks [] = []
skip_blanks (c ∷ cs) = if is_blank c then skip_blanks cs else c ∷ cs

-- The loop over `end`.
unfoldable pub cut_blanks : Bytes → Bytes
unfolding is_blank
cut_blanks [] = []
cut_blanks (c ∷ cs) = let rest = cut_blanks cs in if is_blank c && is_nil rest then [] else c ∷ rest

unfoldable pub str_trim : Bytes → Bytes
unfolding skip_blanks cut_blanks
str_trim s = cut_blanks (skip_blanks s)

-- The position of the first CRLF.
unfoldable pub find_crlf : Bytes → Option ℕ
find_crlf [] = none
find_crlf (a ∷ []) = none
find_crlf (a ∷ b ∷ rest) =
    let later = Option.map suc (find_crlf (b ∷ rest)) in
    if a == b'\r' && b == b'\n' then some 0 else later
