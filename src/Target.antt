-- ===== src/Target.antt =====
-- What `_parseRequestLine` of src/HttpParser.cpp makes of a request target, and `_validatePath`.
-- `stat` is an argument: what the file system says of a path.
pub mod Resolve
use webserer_core.Base.{
  ℕ, zero, suc, ◌+◌, Bool, true, false, not, ◌&&◌, ◌||◌, [], ◌∷◌, ◌++◌, Option, none, some, ◌==◌,
  if◌then◌else◌, Bytes, take, drop, length, codes, is_nil, equal,
}
use mathlib.Core.Option
use webserer_core.Uri.{pct_decode, clean_path}
use webserer_core.Config.{Location, Server, match_location, starts_with}

-- `s.find(c)`
unfoldable pub find_byte : ℕ → Bytes → Option ℕ
find_byte c [] = none
find_byte c (x ∷ xs) = if x == c then some 0 else Option.map suc (find_byte c xs)

-- `s.find(needle)` for a needle that is not empty
unfoldable pub find_text : Bytes → Bytes → Option ℕ
find_text needle [] = none
find_text needle (x ∷ xs) =
    if starts_with (x ∷ xs) needle then some 0 else Option.map suc (find_text needle xs)

-- `s.substr(s.rfind('/'))`, and `s` where there is no slash
unfoldable pub from_last_slash : Bytes → Bytes
from_last_slash [] = []
from_last_slash (x ∷ xs) =
    let later = from_last_slash xs in elim (find_byte b'/' xs) [ some n ↦ later | none ↦ x ∷ xs ]

or_zero : Option ℕ → ℕ
or_zero none = 0
or_zero (some n) = n

-- The target without scheme and authority.
unfoldable pub strip_authority : Bytes → Bytes
unfolding find_text find_byte or_zero
strip_authority raw_uri =
    if starts_with raw_uri (codes "http://") || starts_with raw_uri (codes "https://")
    then (let from = or_zero (find_text (codes "://") raw_uri) + 3 in
        elim (find_byte b'/' (drop from raw_uri)) [
          | none ↦ codes "/"
          | some n ↦ drop (from + n) raw_uri
        ])
    else raw_uri

pub record Target : Type 0 where
  pub path : Bytes
  pub query_string : Bytes

abbrev pub or_root : Bytes → Bytes
or_root path = if is_nil path then codes "/" else path

unfoldable pub split_target : Bytes → Target
split_target raw_uri = elim (find_byte b'?' raw_uri) [
  | none ↦ record { path = clean_path (or_root (pct_decode raw_uri)); query_string = [] }
  | some qmark ↦ record {
    path = clean_path (or_root (pct_decode (take qmark raw_uri)));
    query_string = drop (qmark + 1) raw_uri;
  }
]

-- `while (!root.empty() && root[root.size() - 1] == '/') root.erase(root.size() - 1);`
unfoldable pub cut_slashes : Bytes → Bytes
cut_slashes [] = []
cut_slashes (c ∷ cs) =
    let rest = cut_slashes cs in if c == b'/' && is_nil rest then [] else c ∷ rest

unfoldable pub starts_slash : Bytes → Bool
starts_slash [] = false
starts_slash (c ∷ cs) = c == b'/'

-- The part of `_validatePath` that a location with a root of its own adds before the root is cut.
unfoldable pub below_location : Bytes → Bytes → Bytes
unfolding starts_slash
below_location loc_path uri =
    let stripped = drop (length loc_path) uri in
    if not (starts_with uri loc_path) || is_nil stripped
    then uri
    else if starts_slash stripped
    then stripped
    else loc_path ++ stripped

-- A location that has a root of its own.
unfoldable pub rooted : Option Location → Option Location
rooted none = none
rooted (some loc) = if is_nil loc.root then none else some loc

unfoldable pub resolve : Option Location → Bytes → Bytes → Bytes
unfolding below_location cut_slashes from_last_slash
resolve none root uri = cut_slashes root ++ uri
resolve (some loc) root uri =
    let below = below_location loc.path uri in
    cut_slashes loc.root ++ (if equal below loc.path then from_last_slash below else below)

unfoldable pub validate_path : Server → Bytes → Bytes
unfolding rooted resolve
validate_path config uri = resolve (rooted (match_location config uri)) config.root uri

-- What `stat` answers: it succeeds, fails with EACCES, or fails otherwise.
pub data Stat : Type 0 where
  present no_access missing : Stat

-- `s.c_str()` ends at the first zero byte.
unfoldable pub c_str : Bytes → Bytes
c_str [] = []
c_str (c ∷ cs) = if c == 0 then [] else c ∷ c_str cs
