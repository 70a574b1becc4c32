-- ===== src/Headers.antt =====
-- `HttpParser::_parseHeaders` of src/HttpParser.cpp: the loop over header lines, and what follows the
-- blank line. `override_host` is in Connection.
pub mod Store
pub mod Number
pub mod Framing
use webserer_core.Base.{
  ℕ, zero, suc, ◌+◌, ◌-◌, ◌*◌, ◌%◌, Bool, true, false, not, ◌&&◌, ◌||◌, List, [], ◌∷◌, ◌++◌, Option,
  none, some, ltb, ◌==◌, within, if◌then◌else◌, size_mod, Bytes, take, drop, length, codes, is_nil,
  equal,
}
use webserer_core.Buffer
use webserer_core.Buffer.{Buffer}
use webserer_core.Connection.{Connection, override_host}
use webserer_core.Host.{validate_host}
use webserer_core.Parser.{fail, with_request}
use webserer_core.Request.{HttpRequest, HeaderMap, ParseState, find, assign, contains}
use webserer_core.Target.{find_byte}
use webserer_core.Text.{find_crlf, str_tolower, str_trim}

abbrev pub host : Bytes
host = codes "host"

abbrev pub content_length_key : Bytes
content_length_key = codes "content-length"

abbrev pub transfer_encoding : Bytes
transfer_encoding = codes "transfer-encoding"

-- SINGLETON_HEADERS
abbrev singleton_headers : List Bytes
singleton_headers =
    host
    ∷ content_length_key
    ∷ transfer_encoding
    ∷ codes "content-type"
    ∷ codes "content-location"
    ∷ codes "authorization"
    ∷ codes "date"
    ∷ codes "location"
    ∷ codes "retry-after"
    ∷ codes "max-forwards"
    ∷ codes "if-modified-since"
    ∷ codes "if-unmodified-since"
    ∷ codes "if-range"
    ∷ []

one_of : List Bytes → Bytes → Bool
one_of [] name = false
one_of (s ∷ ss) name = equal s name || one_of ss name

unfoldable pub is_singleton : Bytes → Bool
unfolding one_of
is_singleton name = one_of singleton_headers name

-- A header line is stored, or the function returns with an error set.
pub data Stored : Type 0 where
  kept : HttpRequest → Stored
  failed : HttpRequest → Stored

-- `if (req.headers.size() > 100)`
unfoldable pub limit_headers : HttpRequest → Stored
limit_headers req = if ltb 100 (length req.headers) then failed (fail 431 req) else kept req

unfoldable pub store_header : Bytes → Bytes → HttpRequest → Stored
unfolding limit_headers
store_header name value req =
    if is_nil name then failed (fail 400 req) else elim (find name req.headers) [
      | none ↦ limit_headers (record req { headers = assign name value req.headers })
      | some old ↦
          if is_singleton name
          then failed (fail 400 req)
          else limit_headers
              (record req { headers = assign name (old ++ (codes ", " ++ value)) req.headers })
    ]

unfoldable pub store_line : Bytes → HttpRequest → Stored
store_line line req = elim (find_byte b':' line) [
  | none ↦ failed (fail 400 req)
  | some colon ↦
      store_header (str_tolower (str_trim (take colon line))) (str_trim (drop (colon + 1) line)) req
]

-- How the loop ends: it waits for more bytes, returns with an error, or meets the blank line.
-- `exhausted` belongs to the rounds that are counted here.
pub data Lines : Type 0 where
  waiting stopped finished : Buffer → HttpRequest → Lines
  exhausted : Lines

unfoldable pub header_lines : ℕ → Buffer → HttpRequest → Lines
header_lines zero buf req = exhausted
header_lines (suc rounds) buf req = elim (find_crlf (Buffer.content buf)) [
  | none ↦ waiting buf req
  | some pos ↦
      let line = take pos (Buffer.content buf) in
      let rest = Buffer.consume (pos + 2) buf in
      if ltb 8192 pos
      then stopped buf (fail 431 req)
      else if pos == 0
      then finished (Buffer.consume 2 buf) req
      else elim (store_line line req) [
        | failed r ↦ stopped rest r
        | kept r ↦ header_lines rounds rest r
      ]
]

-- What follows the blank line goes on with a connection or returns with an error set.
pub data Stage : Type 0 where
  go halt : Connection → Stage

infixl 5 ◌>>=◌
abbrev pub ◌>>=◌ : Stage → (Connection → Stage) → Stage
go conn >>= f = f conn
halt conn >>= f = halt conn

abbrev refuse : ℕ → Connection → Stage
refuse code conn = halt (with_request (fail code conn.request) conn)

unfoldable pub check_host : Connection → Stage
check_host conn =
    if equal (conn.request).version (codes "HTTP/1.1") && not (contains host (conn.request).headers)
    then refuse 400 conn
    else elim (find host (conn.request).headers) [
      | none ↦ go conn
      | some value ↦ elim (validate_host value) [
        | none ↦ refuse 400 conn
        | some (name, port) ↦
            let other = override_host name conn in
            go (
              with_request
                (record (other.request) { headers = assign host name (other.request).headers })
                other)
      ]
    ]

unfoldable pub check_framing : Connection → Stage
check_framing conn =
    if contains content_length_key (conn.request).headers
      && contains transfer_encoding (conn.request).headers
    then refuse 400 conn
    else go conn

-- The loop over the digits of a Content-Length.
pub data Length : Type 0 where
  length_is : ℕ → Length
  not_digits too_large : Length

unfoldable pub read_length : ℕ → ℕ → Bytes → Length
read_length max_body cl [] = length_is cl
read_length max_body cl (c ∷ cs) =
    let next = (cl * 10 + (c - b'0')) % size_mod in
    let rest = read_length max_body next cs in
    if not (within b'0' b'9' c) then not_digits else if ltb max_body next then too_large else rest

unfoldable pub take_length : Connection → Stage
take_length conn = elim (find content_length_key (conn.request).headers) [
  | none ↦ go conn
  | some text ↦
      if is_nil text
      then refuse 400 conn
      else elim (read_length (conn.config).client_max_body_size 0 text) [
        | not_digits ↦ refuse 400 conn
        | too_large ↦ refuse 413 conn
        | length_is n ↦ go (with_request (record (conn.request) { content_length = n }) conn)
      ]
]

unfoldable pub take_encoding : HttpRequest → HttpRequest
take_encoding req = elim (find transfer_encoding req.headers) [
  | none ↦ req
  | some text ↦
      if equal (str_tolower text) (codes "chunked")
      then record req { chunked = true; content_length = 0 }
      else req
]

unfoldable pub choose_state : HttpRequest → HttpRequest
choose_state req =
    if not req.chunked && req.content_length == 0
    then if equal req.method (codes "POST")
      then fail 411 req
      else record req { parse_state = ParseState.complete }
    else record req { parse_state = ParseState.body }

unfoldable pub settle : Connection → Connection
settle conn = with_request (choose_state (take_encoding conn.request)) conn

abbrev pub outcome : Stage → Connection
outcome (go conn) = settle conn
outcome (halt conn) = conn

unfoldable pub finish_headers : Connection → Connection
finish_headers conn = outcome (check_host conn >>= check_framing >>= take_length)

abbrev pub with_lines : Buffer → HttpRequest → Connection → Connection
with_lines buf req conn = record conn { read_buffer = buf; request = req }

unfoldable pub parse_headers : Connection → Connection
parse_headers conn =
    let rounds = suc (length (Buffer.content conn.read_buffer)) in
    elim (header_lines rounds conn.read_buffer conn.request) [
      | waiting buf req ↦ with_lines buf req conn
      | stopped buf req ↦ with_lines buf req conn
      | finished buf req ↦ finish_headers (with_lines buf req conn)
      | exhausted ↦ conn
    ]
