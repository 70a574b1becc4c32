-- ===== src/Feed.antt =====
-- `HttpParser::feed` and `_applyLocationBodyLimit` of src/HttpParser.cpp.
pub mod Chunks
pub mod Left
use webserer_core.Base.{
  ℕ, Bool, true, false, Option, none, some, ltb, ◌==◌, if◌then◌else◌, Bytes, is_nil, Outcome,
  returned, ◌>>=◌,
}
use webserer_core.Body.{parse_body}
use webserer_core.Buffer
use webserer_core.Buffer.{Buffer}
use webserer_core.Chunked.{parse_chunked}
use webserer_core.Config.{Location, match_location}
use webserer_core.Connection.{Connection}
use webserer_core.Headers.{parse_headers}
use webserer_core.Parser.{parse_request_line, with_request}
use webserer_core.Request.{HttpRequest, ParseState}
use webserer_core.Target.{Stat}

-- The limit that a location sets, or else the one of the server.
location_limit : Option Location → ℕ → ℕ
location_limit none server_limit = server_limit
location_limit (some loc) server_limit =
    if ltb 0 loc.client_max_body_size then loc.client_max_body_size else server_limit

abbrev or_default : ℕ → ℕ
or_default limit = if limit == 0 then 1048576 else limit

unfoldable pub apply_location_body_limit : Connection → Connection
unfolding location_limit
apply_location_body_limit conn =
    let req = conn.request in
    let server_limit = (conn.config).client_max_body_size in
    let limit = or_default (location_limit (match_location conn.config req.path) server_limit) in
    if is_nil req.path then conn else record conn {
      request = record req { max_body_size = limit; body = Buffer.set_max_size limit req.body };
      read_buffer = Buffer.set_max_size limit conn.read_buffer;
    }

-- Tests of a parse state.
abbrev pub is_idle : ParseState → Bool
is_idle ParseState.idle = true
is_idle _ = false

abbrev pub is_request_line : ParseState → Bool
is_request_line ParseState.request_line = true
is_request_line _ = false

abbrev pub is_headers : ParseState → Bool
is_headers ParseState.headers = true
is_headers _ = false

abbrev pub is_body : ParseState → Bool
is_body ParseState.body = true
is_body _ = false

abbrev pub is_over : ParseState → Bool
is_over ParseState.complete = true
is_over ParseState.error = true
is_over _ = false

unfoldable pub leave_idle : Connection → Connection
leave_idle conn =
    if is_idle (conn.request).parse_state
    then with_request (record (conn.request) { parse_state = ParseState.request_line }) conn
    else conn

unfoldable pub feed_line : (Bytes → Stat) → Connection → Connection
feed_line stat conn =
    if is_request_line (conn.request).parse_state
    then (let parsed = parse_request_line stat conn in
        if is_request_line (parsed.request).parse_state
        then parsed
        else apply_location_body_limit parsed)
    else conn

unfoldable pub feed_headers : Connection → Connection
feed_headers conn = if is_headers (conn.request).parse_state then parse_headers conn else conn

abbrev pub put_back : Connection → Buffer × HttpRequest → Connection
put_back conn (buf, req) = record conn { read_buffer = buf; request = req }

unfoldable pub feed_body : Connection → Outcome Connection
feed_body conn =
    if is_body (conn.request).parse_state
    then ((if (conn.request).chunked
          then parse_chunked conn.read_buffer conn.request
          else parse_body conn.read_buffer conn.request)
        >>= λ parsed. returned (put_back conn parsed))
    else returned conn

unfoldable pub feed : (Bytes → Stat) → Connection → Outcome Connection
unfolding leave_idle feed_line feed_headers feed_body
feed stat conn =
    if is_over (conn.request).parse_state
    then returned conn
    else feed_body (apply_location_body_limit (feed_headers (feed_line stat (leave_idle conn))))
