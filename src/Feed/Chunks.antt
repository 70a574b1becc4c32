-- ===== src/Feed/Chunks.antt =====
-- `feed` of src/HttpParser.cpp on a connection that is reading a chunked body.
use webserer_core.Base.{if◌then◌else◌, ◌≡◌, true, Outcome, returned, ◌>>=◌, Bytes, ap, ◌∙◌}
use webserer_core.Body.{parse_body}
use webserer_core.Buffer.{Buffer}
use webserer_core.Chunked.{parse_chunked}
use webserer_core.Headers.{parse_headers}
use webserer_core.Parser.{parse_request_line, with_request}
use webserer_core.Body.Progress.{Reading}
use webserer_core.Chunked.Total.{parse_chunked-returned}
use webserer_core.Connection.{Connection}
use webserer_core.Feed.{
  feed, feed_body, is_idle, is_request_line, is_headers, is_body, is_over, put_back, feed_headers,
  feed_line, leave_idle, apply_location_body_limit,
}
use webserer_core.Request.{HttpRequest, ParseState}
use webserer_core.Target.{Stat}

module _ (stat : Bytes → Stat) (conn : Connection)
    (b : conn.request.parse_state ≡ ParseState.body) where
  leave_idle-body : leave_idle conn ≡ conn
  unfolding leave_idle
  leave_idle-body =
      ap
        (λ s.
          if is_idle s
          then with_request (record (conn.request) { parse_state = ParseState.request_line }) conn
          else conn)
        b

  feed_line-body : feed_line stat conn ≡ conn
  unfolding feed_line
  feed_line-body =
      let parsed = parse_request_line stat conn in
      let limited =
        if is_request_line (parsed.request).parse_state
        then parsed
        else apply_location_body_limit parsed in
      ap (λ s. if is_request_line s then limited else conn) b

  feed_headers-body : feed_headers conn ≡ conn
  unfolding feed_headers
  feed_headers-body = ap (λ s. if is_headers s then parse_headers conn else conn) b

  -- The stages in front of the body do nothing.
  abbrev staged : Connection
  staged = apply_location_body_limit (feed_headers (feed_line stat (leave_idle conn)))

  feed_in_body : apply_location_body_limit conn ≡ conn → feed stat conn ≡ feed_body conn
  unfolding feed
  feed_in_body a =
      ap (λ s. if is_over s then returned conn else feed_body staged) b
      ∙ ap feed_body (
          ap apply_location_body_limit (
            ap feed_headers (ap (feed_line stat) leave_idle-body ∙ feed_line-body)
            ∙ feed_headers-body)
          ∙ a)

  feed_body-parse_chunked :
      conn.request.chunked ≡ true
      → feed_body conn ≡ (
          parse_chunked conn.read_buffer conn.request >>= λ parsed. returned (put_back conn parsed))
  unfolding feed_body
  feed_body-parse_chunked c =
      let chunks = parse_chunked conn.read_buffer conn.request in
      let counted = parse_body conn.read_buffer conn.request in
      let put =
        λ (o : Outcome (Buffer × HttpRequest)). o >>= (λ parsed. returned (put_back conn parsed)) in
      ap
        (λ s.
          if is_body s
          then put (if conn.request.chunked then chunks else counted)
          else returned conn)
        b
      ∙ ap (λ k. put (if k then chunks else counted)) c

  feed_body-returned :
      conn.request.chunked ≡ true
      → Reading conn.read_buffer conn.request
      → (after : Connection) × (feed_body conn ≡ returned after)
        × Reading after.read_buffer after.request
  feed_body-returned c r =
      let (buf, req, e, g) = parse_chunked-returned conn.read_buffer conn.request r in
      (
        record conn { read_buffer = buf; request = req },
        feed_body-parse_chunked c ∙ ap (λ o. o >>= (λ parsed. returned (put_back conn parsed))) e,
        g,
      )

-- Fed any bytes in the middle of a chunked body, with the limit of its location in force, the
-- parser ends without an exception and leaves the body within that limit, so it can be fed again.
pub feed-returned :
    (stat : Bytes → Stat) (conn : Connection)
    → conn.request.parse_state ≡ ParseState.body
    → conn.request.chunked ≡ true
    → apply_location_body_limit conn ≡ conn
    → Reading conn.read_buffer conn.request
    → (after : Connection) × (feed stat conn ≡ returned after)
      × Reading after.read_buffer after.request
feed-returned stat conn b c a r =
    let (after, e, g) = feed_body-returned stat conn b c r in
    (after, feed_in_body stat conn b a ∙ e, g)
