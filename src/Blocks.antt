-- ===== src/Blocks.antt =====
-- The blocks of a configuration file: `parsLocation` of conf/location_parser.cpp, `parsServer` of
-- conf/server_parser.cpp, `parsHTTP` of conf/parserConf.cpp, `parseEvents` of
-- conf/eventsConfig.cpp and `parsing_lexems` of conf/parsing.cpp.
-- The position in the stream of tokens only moves on, so a parser keeps the tokens from it on. Each
-- loop has one round more than it has tokens.
pub mod Nested
pub mod Top
pub mod Progress
pub mod Ready
pub mod Whole
use webserer_core.Base.{
  ℕ, zero, suc, ◌-◌, Bool, true, false, not, ◌&&◌, ◌||◌, List, [], ◌∷◌, ◌++◌, Option, none, some,
  ltb, ◌==◌, within, if◌then◌else◌, Bytes, codes, length, is_nil, equal, char_at, Outcome, returned,
  thrown, hung, ◌>>=◌, ◌>>◌, guard,
}
use webserer_core.Config.{Location, Server}
use webserer_core.Lexing.{
  TokenType, Token, context, directive, value, lbrace, rbrace, semicolon, end,
}
use webserer_core.Response.{from_last_dot}
use webserer_core.Settings.{member, set_server, set_location, set_http, set_events, Http, Events}
use webserer_core.Text.{is_digit, to_lower}
use webserer_core.Uri.{trim_slash}

abbrev pub Tokens : Type 0
Tokens = List Token

abbrev pub is_value : Token → Bool
is_value t = elim t.type [ value ↦ true | _ ↦ false ]

abbrev pub is_directive : Token → Bool
is_directive t = elim t.type [ directive ↦ true | _ ↦ false ]

abbrev pub is_lbrace : Token → Bool
is_lbrace t = elim t.type [ lbrace ↦ true | _ ↦ false ]

abbrev pub is_rbrace : Token → Bool
is_rbrace t = elim t.type [ rbrace ↦ true | _ ↦ false ]

abbrev pub is_semicolon : Token → Bool
is_semicolon t = elim t.type [ semicolon ↦ true | _ ↦ false ]

abbrev pub is_end : Token → Bool
is_end t = elim t.type [ end ↦ true | _ ↦ false ]

abbrev pub is_context : Bytes → Token → Bool
is_context name t = elim t.type [ context ↦ equal t.text name | _ ↦ false ]

-- `consumeValues` and `consumeValuesLenient`, from the token behind the directive on.
unfoldable pub consume_values : Tokens → Outcome (List Bytes × Tokens)
consume_values [] = thrown
consume_values (t ∷ ts) =
    let further = consume_values ts >>= λ (values, rest). returned (t.text ∷ values, rest) in
    if is_value t then further else if is_semicolon t then returned ([], ts) else thrown

unfoldable pub open_brace : Tokens → Outcome Tokens
open_brace [] = thrown
open_brace (t ∷ ts) = if is_lbrace t then returned ts else thrown

-- A directive that a block may have once.
unfoldable pub is_repeated : List Bytes → List Bytes → Bytes → Bool
unfolding member
is_repeated unique seen name = member name unique && member name seen

abbrev pub now_seen : List Bytes → List Bytes → Bytes → List Bytes
now_seen unique seen name = if member name unique then name ∷ seen else seen

unfoldable pub is_path_char : ℕ → Bool
unfolding is_digit to_lower
is_path_char c =
    within b'a' b'z' (to_lower c)
    || is_digit c
    || c == b'/'
    || c == b'-'
    || c == b'_'
    || c == b'.'
    || c == b'~'

unfoldable pub is_path : Bytes → Bool
is_path [] = true
is_path (c ∷ cs) = is_path_char c && is_path cs

-- The path behind `location`.
unfoldable pub location_path : Tokens → Outcome (Bytes × Tokens)
unfolding is_path
location_path [] = thrown
location_path (t ∷ ts) =
    if is_value t && not (is_nil t.text) && char_at t.text 0 == b'/' && is_path t.text
    then returned (t.text, ts)
    else thrown

abbrev pub location_unique : List Bytes
location_unique =
    codes "allowed_methods"
    ∷ codes "root"
    ∷ codes "index"
    ∷ codes "autoindex"
    ∷ codes "cgi_path"
    ∷ codes "cgi_ext"
    ∷ codes "upload_path"
    ∷ codes "client_max_body_size"
    ∷ codes "return"
    ∷ []

abbrev pub server_unique : List Bytes
server_unique =
    codes "listen"
    ∷ codes "root"
    ∷ codes "client_max_body_size"
    ∷ codes "timeout"
    ∷ codes "index"
    ∷ []

-- `validate_index_filenames`: a dot that is neither the first nor the last byte.
unfoldable pub has_extension : Bytes → Bool
unfolding from_last_dot
has_extension name = elim (from_last_dot name) [
  | none ↦ false
  | some ext ↦ not (length ext == length name) && not (length ext == 1)
]

unfoldable pub all_extensions : List Bytes → Bool
all_extensions [] = true
all_extensions (name ∷ names) = has_extension name && all_extensions names

-- `verifying_path_in_locations_inside_server`
unfoldable pub paths_differ : List Bytes → List Location → Bool
unfolding member
paths_differ unique_paths [] = true
paths_differ unique_paths (loc ∷ locs) =
    let path = trim_slash loc.path in
    not (member path unique_paths) && paths_differ (path ∷ unique_paths) locs
