-- ===== src/Parser.antt =====
-- `HttpParser` of src/HttpParser.cpp: the request line. The other stages are in the modules below.
pub mod Start
pub mod Accept
use webserer_core.Base.{
  ℕ, zero, suc, ◌+◌, ◌-◌, Bool, true, false, not, ◌&&◌, ◌||◌, [], ◌∷◌, ◌++◌, Option, none, some,
  ◌==◌, if◌then◌else◌, Bytes, take, drop, length, codes, is_nil, equal,
}
use webserer_core.Buffer
use webserer_core.Connection.{Connection}
use webserer_core.Request.{HttpRequest, ParseState}
use webserer_core.RequestLine.{
  LineScan, Line, Scanned, Check, pending, done, rejected, pass, refused, scan, initial, check_line,
  slice,
}
use webserer_core.Target.{Stat, strip_authority, split_target, validate_path, c_str}

-- `req.parse_state = PSTATE_ERROR; req.error_code = code`
abbrev pub fail : ℕ → HttpRequest → HttpRequest
fail code req = record req { parse_state = ParseState.error; error_code = code }

abbrev pub with_request : HttpRequest → Connection → Connection
with_request req conn = record conn { request = req }

unfoldable pub known_method : Bytes → Bool
known_method m =
    equal m (codes "GET")
    || equal m (codes "HEAD")
    || equal m (codes "POST")
    || equal m (codes "DELETE")

-- `"HTTP/" major "." minor`
abbrev pub version_text : Line → Bytes
version_text l = codes "HTTP/" ++ ((b'0' + l.http_major) ∷ b'.' ∷ (b'0' + l.http_minor) ∷ [])

-- The state that the answer of `stat` leads to.
unfoldable pub after_stat : Stat → HttpRequest → HttpRequest
after_stat Stat.present req = record req { parse_state = ParseState.headers }
after_stat Stat.no_access req = fail 403 req
after_stat Stat.missing req = fail 404 req

-- The request with method, version, path and query of the line.
unfoldable pub with_line : Bytes → Line → HttpRequest → HttpRequest
with_line text l req =
    let target = split_target (strip_authority (slice l.uri_start l.uri_end text)) in
    record req {
      method = slice l.method_start l.method_end text;
      version = version_text l;
      path = target.path;
      query_string = target.query_string;
    }

module _ (stat : Bytes → Stat) where
  -- From `req.method = ...` on.
  unfoldable pub take_line : Bytes → ℕ → Line → Connection → Connection
  unfolding with_line after_stat known_method
  take_line text p l conn =
      let method = slice l.method_start l.method_end text in
      if known_method method
      then (let req = with_line text l conn.request in
          record conn {
            request = after_stat (stat (c_str (validate_path conn.config req.path))) req;
            read_buffer = Buffer.consume p conn.read_buffer;
          })
      else with_request (fail 501 (record (conn.request) { method = method })) conn

  unfoldable pub parse_request_line : Connection → Connection
  unfolding take_line
  parse_request_line conn =
      let text = Buffer.content conn.read_buffer in
      elim (scan 0 initial text) [
        | pending s ↦ conn
        | rejected code ↦ with_request (fail code conn.request) conn
        | done p s ↦ elim (check_line p s) [
          | refused code ↦ with_request (fail code conn.request) conn
          | pass l ↦ take_line text p l conn
        ]
      ]
