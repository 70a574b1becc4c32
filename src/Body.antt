-- ===== src/Body.antt =====
-- `HttpParser::_parseBody` of src/HttpParser.cpp.
pub mod Progress
use webserer_core.Base.{
  ℕ, ◌+◌, Bool, true, false, not, ◌&&◌, ltb, ◌==◌, if◌then◌else◌, add_size, sub_size, Bytes, take,
  Outcome, returned, thrown, hung, ◌>>=◌,
}
use webserer_core.Buffer
use webserer_core.Buffer.{Buffer}
use webserer_core.Parser.{fail}
use webserer_core.Request.{HttpRequest, ParseState}

-- `req.body.append(buf.data(), to_read); buf.consume(to_read); req.written += to_read;`
unfoldable pub move : ℕ → Buffer → HttpRequest → Outcome (Buffer × HttpRequest)
move to_read buf req = Buffer.append (take to_read (Buffer.content buf)) req.body >>= λ body.
    returned (
      Buffer.consume to_read buf,
      record req { body = body; written = add_size req.written to_read },
    )

-- What follows the move of a counted body.
unfoldable pub close_body : Buffer × HttpRequest → Buffer × HttpRequest
close_body (buf, req) =
    if req.written == req.content_length
    then (Buffer.earase buf, record req { parse_state = ParseState.complete })
    else (buf, req)

unfoldable pub parse_body : Buffer → HttpRequest → Outcome (Buffer × HttpRequest)
parse_body buf req =
    let available = Buffer.size buf in
    let needed = sub_size req.content_length req.written in
    let to_read = if ltb needed available then needed else available in
    if available == 0
    then returned (buf, req)
    else if req.content_length == 0 && not req.chunked
    then if ltb req.max_body_size (add_size req.written available)
      then returned (buf, fail 413 req)
      else move available buf req
    else if ltb req.max_body_size (add_size req.written to_read)
    then returned (buf, fail 413 req)
    else (move to_read buf req >>= λ moved. returned (close_body moved))
