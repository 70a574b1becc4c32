-- ===== src/Numerals.antt =====
-- Numbers and addresses in configuration files: `safe_strtol` of conf/httpConfig.cpp,
-- `is_valid_octet` and `is_valid_host` of conf/server_parser.cpp.
pub mod Bounds
use webserer_core.Base.{
  ℕ, zero, suc, ◌+◌, ◌-◌, ◌*◌, ◌/◌, ◌%◌, ◌^◌, Bool, true, false, not, ◌&&◌, ◌||◌, [], ◌∷◌, ◌++◌,
  Option, none, some, ltb, leb, ◌==◌, within, if◌then◌else◌, Bytes, length, is_nil, char_at,
}
use webserer_core.Text.{is_digit}

-- LONG_MAX
abbrev pub max_long : ℕ
max_long = 9223372036854775807

unfoldable pub all_digits : Bytes → Bool
all_digits [] = true
all_digits (c ∷ cs) = is_digit c && all_digits cs

-- The second loop of `safe_strtol`.
unfoldable pub read_long : ℕ → Bytes → Option ℕ
read_long result [] = some result
read_long result (c ∷ cs) =
    let digit = c - b'0' in
    let further = read_long (result * 10 + digit) cs in
    if ltb ((max_long - digit) / 10) result then none else further

unfoldable pub safe_strtol : Bytes → Option ℕ
unfolding all_digits read_long
safe_strtol s = if is_nil s then none else if all_digits s then read_long 0 s else none

-- `static_cast<int>` of a `long` that is not negative; `none` where the result is.
unfoldable pub as_int : ℕ → Option ℕ
as_int n = let m = n % 2 ^ 32 in if ltb m 2147483648 then some m else none

-- `lo <= n && n <= hi` of the cast
unfoldable pub int_within : ℕ → ℕ → ℕ → Option ℕ
unfolding as_int
int_within lo hi n = elim (as_int n) [
  | none ↦ none
  | some m ↦ if within lo hi m then some m else none
]

unfoldable pub is_valid_octet : Bytes → Bool
is_valid_octet s =
    if is_nil s || ltb 3 (length s)
    then false
    else if char_at s 0 == b'0' && ltb 1 (length s)
    then false
    else elim (safe_strtol s) [ none ↦ false | some num ↦ leb num 255 ]

-- The loop of `is_valid_host`; `seg` is what it has read since the last dot.
unfoldable pub valid_octets : ℕ → Bytes → Bytes → Bool
valid_octets dots seg [] = is_valid_octet seg && dots == 3
valid_octets dots seg (c ∷ cs) =
    let next = valid_octets (suc dots) [] cs in
    let more = valid_octets dots (seg ++ c ∷ []) cs in
    if c == b'.'
    then if is_valid_octet seg then (if ltb 3 (suc dots) then false else next) else false
    else more

unfoldable pub is_valid_host : Bytes → Bool
unfolding valid_octets is_valid_octet
is_valid_host host = not (is_nil host) && valid_octets 0 [] host
