-- ===== src/Request.antt =====
-- `HttpRequest` of Headers/HttpRequest.hpp and src/HttpRequest.cpp.
-- `opened_file` is -1 in the source where it is `none` here. Calls of `close` and `remove` are
-- listed in the order in which they are made.
pub mod Map
use webserer_core.Base.{
  ℕ, zero, suc, Bool, true, false, not, ◌||◌, List, [], ◌∷◌, ◌++◌, Option, none, some, ltb,
  if◌then◌else◌, Bytes, codes, is_nil, equal, length,
}
use webserer_core.Text.{str_tolower}
use webserer_core.Buffer
use webserer_core.Buffer.{Buffer}

-- PSTATE_IDLE and so on.
pub data ParseState : Type 0 where
  idle request_line headers body complete error : ParseState

-- `std::map<std::string, std::string>`: each key stands once.
abbrev pub HeaderMap : Type 0
HeaderMap = List (Bytes × Bytes)

unfoldable pub find : Bytes → HeaderMap → Option Bytes
find key [] = none
find key ((k, v) ∷ m) = if equal k key then some v else find key m

-- `m[key] = value`
unfoldable pub assign : Bytes → Bytes → HeaderMap → HeaderMap
assign key value [] = (key, value) ∷ []
assign key value ((k, v) ∷ m) = if equal k key then (k, value) ∷ m else (k, v) ∷ assign key value m

abbrev pub contains : Bytes → HeaderMap → Bool
contains key m = elim (find key m) [ none ↦ false | some v ↦ true ]

pub record HttpRequest : Type 0 where
  pub method : Bytes
  pub path : Bytes
  pub query_string : Bytes
  pub version : Bytes
  pub headers : HeaderMap
  pub body : Buffer
  pub parse_state : ParseState
  pub content_length : ℕ
  pub chunked : Bool
  pub max_body_size : ℕ
  pub error_code : ℕ
  pub chunk_size : ℕ
  pub chunk_trailing : Bool
  pub chunk_done : Bool
  pub opened : Bool
  pub opened_file : Option ℕ
  pub tmp_body_path : Bytes
  pub written : ℕ
  pub body_file_written : ℕ

unfoldable pub create : ℕ → HttpRequest
unfolding Buffer.create
create client_max_body_size = record {
  method = [];
  path = [];
  query_string = [];
  version = [];
  headers = [];
  body = Buffer.create client_max_body_size;
  parse_state = ParseState.idle;
  content_length = 0;
  chunked = false;
  max_body_size = 0;
  error_code = 0;
  chunk_size = 0;
  chunk_trailing = false;
  chunk_done = false;
  opened = false;
  opened_file = none;
  tmp_body_path = [];
  written = 0;
  body_file_written = 0;
}

pub data FileCall : Type 0 where
  closes : ℕ → FileCall
  removes : Bytes → FileCall

close_if_open : Option ℕ → List FileCall
close_if_open none = []
close_if_open (some fd) = closes fd ∷ []

remove_if_named : Bytes → List FileCall
remove_if_named path = if is_nil path then [] else removes path ∷ []

unfoldable pub reset : HttpRequest → HttpRequest × List FileCall
unfolding close_if_open remove_if_named
reset req = (
  record {
    method = [];
    path = [];
    query_string = [];
    version = [];
    headers = [];
    body = Buffer.reset req.body;
    parse_state = ParseState.idle;
    content_length = 0;
    chunked = false;
    max_body_size = 0;
    error_code = 0;
    chunk_size = 0;
    chunk_trailing = false;
    chunk_done = false;
    opened = false;
    opened_file = none;
    tmp_body_path = [];
    written = 0;
    body_file_written = 0;
  },
  close_if_open req.opened_file ++ remove_if_named req.tmp_body_path,
)

unfoldable pub header : Bytes → HttpRequest → Bytes
header key req = elim (find key req.headers) [ none ↦ [] | some v ↦ v ]

unfoldable pub expects_body : HttpRequest → Bool
expects_body req = ltb 0 req.content_length || req.chunked || equal req.method (codes "POST")

unfoldable pub keep_alive : HttpRequest → Bool
unfolding header
keep_alive req =
    let conn = str_tolower (header (codes "connection") req) in
    if equal req.version (codes "HTTP/1.1")
    then not (equal conn (codes "close"))
    else equal conn (codes "keep-alive")
