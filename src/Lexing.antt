-- ===== src/Lexing.antt =====
-- The configuration file as text: conf/parsing.cpp, conf/LexerConfig.cpp and `API_conf`.
-- A `std::runtime_error` is `thrown`. `std::isspace` is that of the C locale.
pub mod OnePass
use webserer_core.Base.{
  ℕ, zero, suc, ◌-◌, Bool, true, false, not, ◌&&◌, ◌||◌, List, [], ◌∷◌, ◌++◌, map, Option, none,
  some, ltb, ◌==◌, within, if◌then◌else◌, Bytes, codes, is_nil, equal, length, drop, Outcome,
  returned, thrown, hung, ◌>>=◌, ◌>>◌, guard, outcome_map,
}

unfoldable pub is_space : ℕ → Bool
is_space c = within 9 13 c || c == b' '

-- The test of `check_valid_content`.
unfoldable pub is_valid : ℕ → Bool
is_valid c = c == 9 || c == 10 || c == 13 || within 32 126 c

unfoldable pub check_valid_content : Bytes → Outcome (Unit {0})
check_valid_content [] = returned tt
check_valid_content (c ∷ cs) = if is_valid c then check_valid_content cs else thrown

unfoldable pub is_quote : ℕ → Bool
is_quote c = c == 39 || c == 34

-- The loop of `remove_comments`: whether it is inside a comment, and whether the byte before starts
-- a token. The inner loop leaves the end of the line in place.
unfoldable pub strip_comments : Bool → Bool → Bytes → Outcome Bytes
strip_comments inside starts [] = returned []
strip_comments true starts (c ∷ cs) =
    let further = strip_comments true false cs in
    let after = outcome_map (◌∷◌ c) (strip_comments false true cs) in
    if c == b'\n' then after else further
strip_comments false starts (c ∷ cs) =
    let comment = strip_comments true false cs in
    let further = outcome_map (◌∷◌ c) (strip_comments false (is_space c) cs) in
    if is_quote c then thrown else if c == b'#' && starts then comment else further

unfoldable pub remove_comments : Bytes → Outcome Bytes
unfolding strip_comments
remove_comments str = strip_comments false true str

-- The loop of `refactoring_buffer`; the flag says that the byte before was a space.
unfoldable pub collapse : Bool → Bytes → Bytes
collapse after [] = []
collapse after (c ∷ cs) =
    let spaces = collapse true cs in
    let further = collapse false cs in
    if is_space c then (if after then spaces else b' ' ∷ spaces) else c ∷ further

unfoldable pub drop_last_space : Bytes → Bytes
drop_last_space [] = []
drop_last_space (c ∷ []) = if c == b' ' then [] else c ∷ []
drop_last_space (c ∷ d ∷ cs) = c ∷ drop_last_space (d ∷ cs)

unfoldable pub drop_first_space : Bytes → Bytes
drop_first_space [] = []
drop_first_space (c ∷ cs) = if c == b' ' then cs else c ∷ cs

unfoldable pub refactoring_buffer : Bytes → Bytes
refactoring_buffer str = drop_first_space (drop_last_space (collapse false str))

unfoldable pub is_mark : ℕ → Bool
is_mark c = c == b'{' || c == b'}' || c == b';'

unfoldable pub insert_space : Bytes → Bytes
insert_space [] = []
insert_space (c ∷ cs) =
    let rest = insert_space cs in if is_mark c then b' ' ∷ c ∷ b' ' ∷ rest else c ∷ rest

-- `if (!tmp.empty()) tokens.push_back(tmp);`
abbrev pub push_token : Bytes → List Bytes → List Bytes
push_token tmp tokens = if is_nil tmp then tokens else tmp ∷ tokens

-- The loop of `storing_in_vec`; `tmp` is what `std::getline` has read of the token.
unfoldable pub split_spaces : Bytes → Bytes → List Bytes
split_spaces tmp [] = push_token tmp []
split_spaces tmp (c ∷ cs) =
    let fresh = split_spaces [] cs in
    let more = split_spaces (tmp ++ c ∷ []) cs in if c == b' ' then push_token tmp fresh else more

unfoldable pub storing_in_vec : Bytes → List Bytes
unfolding split_spaces
storing_in_vec buff = split_spaces [] buff

-- TYPE_CONTEXT and so on.
pub data TokenType : Type 0 where
  context directive value lbrace rbrace semicolon error end : TokenType

-- `Lexer`
pub record Token : Type 0 where
  pub type : TokenType
  pub text : Bytes

-- `init_grammar`
abbrev pub grammar : List (Bytes × TokenType)
grammar =
    (codes "events", context)
    ∷ (codes "http", context)
    ∷ (codes "server", context)
    ∷ (codes "location", context)
    ∷ (codes "worker_connections", directive)
    ∷ (codes "event_model", directive)
    ∷ (codes "listen", directive)
    ∷ (codes "host", directive)
    ∷ (codes "server_name", directive)
    ∷ (codes "root", directive)
    ∷ (codes "index", directive)
    ∷ (codes "client_max_body_size", directive)
    ∷ (codes "error_page", directive)
    ∷ (codes "allowed_methods", directive)
    ∷ (codes "autoindex", directive)
    ∷ (codes "return", directive)
    ∷ (codes "upload_path", directive)
    ∷ (codes "timeout", directive)
    ∷ (codes "cgi_path", directive)
    ∷ (codes "cgi_ext", directive)
    ∷ (codes "{", lbrace)
    ∷ (codes "}", rbrace)
    ∷ (codes ";", semicolon)
    ∷ []

type_in : List (Bytes × TokenType) → Bytes → TokenType
type_in [] s = value
type_in ((key, type) ∷ table) s = if equal key s then type else type_in table s

unfoldable pub identify : Bytes → TokenType
unfolding type_in
identify s = type_in grammar s

unfoldable pub token : Bytes → Token
token s = record { type = identify s; text = s }

unfoldable pub token_stream : List Bytes → List Token
token_stream tokens = map token tokens ++ record { type = end; text = [] } ∷ []

-- `buff.str().find_first_not_of(" \t\r\n") == std::string::npos`
unfoldable pub is_blank_text : Bytes → Bool
is_blank_text [] = true
is_blank_text (c ∷ cs) = (c == b' ' || c == 9 || c == 13 || c == 10) && is_blank_text cs

-- `API_conf` from the text of the file to its tokens.
unfoldable pub lex : Bytes → Outcome (List Token)
unfolding check_valid_content remove_comments refactoring_buffer insert_space storing_in_vec
    token_stream
lex content = do
  guard (not (is_nil content))
  check_valid_content content
  let text = refactoring_buffer (← remove_comments (insert_space content))
  guard (not (is_blank_text text))
  returned (token_stream (storing_in_vec text))

-- `config_path.size() < 5 || config_path.substr(config_path.size() - 5) != ".conf"`
unfoldable pub has_conf_extension : Bytes → Bool
has_conf_extension config_path =
    not (ltb (length config_path) 5)
    && equal (drop (length config_path - 5) config_path) (codes ".conf")
