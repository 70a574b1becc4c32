-- ===== src/Examples/Lines.antt =====
-- Runs on request lines and hosts.
use webserer_core.Base.{
  ℕ, ◌+◌, ◌≡◌, refl, ◌++◌, ◌∷◌, [], Bytes, codes, length, arith, some, none, Option, true,
  if◌then◌else◌, leb, ◌<◌, ◌≤◌, ◌^◌, ◌≢◌,
}
use webserer_core.Buffer
use webserer_core.Connection.{Connection}
use webserer_core.Host.{validate_host}
use webserer_core.Host.Port.{validate_host_port}
use webserer_core.Parser.{parse_request_line, after_stat}
use webserer_core.Parser.Accept.{parse_request_line-Taken, Taken}
use webserer_core.Parser.Start.{parse_request_line-request_line, asked}
use webserer_core.Request.{ParseState}
use webserer_core.RequestLine.{scan, initial, Scanned, done, pending, check_line, pass, Line}
use webserer_core.RequestLine.Scan.{ended}
use webserer_core.RequestLine.Version.{version_1_1}
use webserer_core.Target.{Stat, validate_path, c_str}
use webserer_core.Text.{str_tolower}
use webserer_core.Text.Decimal.{decimal}
use webserer_core.Examples.Data.{holding-IsValid, connection}

abbrev get_line : Bytes
get_line = codes "GET /a HTTP/1.1\r\n"

abbrev found : Bytes → Stat
found path = Stat.present

abbrev waiting : Connection
waiting = connection (get_line ++ codes "Host")

parse_request_line-request_line_example :
    (let after = parse_request_line found waiting in
      let req = asked (codes "GET") (codes "/a") waiting.request in
      (after.request ≡ after_stat (found (c_str (validate_path waiting.config req.path))) req)
      × (Buffer.content after.read_buffer ≡ codes "Host")
      × (after.config ≡ waiting.config))
unfolding Buffer.content webserer_core.Text.is_token_char webserer_core.Text.is_uri_char
    webserer_core.Parser.known_method webserer_core.Base.equal
parse_request_line-request_line_example =
    parse_request_line-request_line found waiting b'G' (codes "ET") b'/' (codes "a") (codes "Host")
      (holding-IsValid (get_line ++ codes "Host") (omega arith)) (omega arith) refl
      (refl, (refl, (refl, tt))) (refl, (refl, tt)) (omega arith) refl

waiting-ne-headers : waiting.request.parse_state ≢ ParseState.headers
unfolding webserer_core.Connection.create
waiting-ne-headers e = absurd (cc e)

parse_request_line-Taken_example : Taken (parse_request_line found waiting).request
unfolding parse_request_line scan Buffer.content webserer_core.RequestLine.rl_step
    webserer_core.Text.is_token_char webserer_core.Text.is_uri_char check_line
    webserer_core.Base.equal
parse_request_line-Taken_example = parse_request_line-Taken found waiting waiting-ne-headers refl

abbrev line : Line
line = record {
  method_start = 0;
  method_end = 3;
  uri_start = 4;
  uri_end = 6;
  http_major = 1;
  http_minor = 1;
}

version_1_1_example : (Line.http_major line ≡ 1) × (Line.http_minor line ≡ 1)
unfolding scan webserer_core.RequestLine.rl_step webserer_core.Text.is_token_char
    webserer_core.Text.is_uri_char check_line
version_1_1_example = version_1_1 get_line 17 (ended 3 4 6) line refl refl

validate_host_port_example : validate_host (codes "a-b:8080") ≡ some (codes "a-b", 8080)
unfolding decimal
validate_host_port_example =
    validate_host_port b'a' (codes "-b") (codes "8080") (refl, (refl, (refl, tt)))
      (refl, (refl, (refl, (refl, tt))))
