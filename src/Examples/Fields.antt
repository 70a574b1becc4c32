-- ===== src/Examples/Fields.antt =====
-- Runs on headers.
use webserer_core.Base.{◌≡◌, refl, ◌∷◌, [], codes, arith, ◌≢◌}
use webserer_core.Connection.{Connection}
use webserer_core.Headers.{length_is, read_length, finish_headers, header_lines, exhausted}
use webserer_core.Headers.Framing.{finish_headers-Settled, Settled}
use webserer_core.Headers.Number.{read_length-decimal}
use webserer_core.Headers.Store.{header_lines-ne-exhausted}
use webserer_core.Request.{HttpRequest, find, assign}
use webserer_core.Text.Decimal.{Digits}
use webserer_core.Examples.Data.{holding, holding-Sound, connection, request}

-- A POST behind its header lines.
abbrev announced : Connection
announced = record (connection (codes "body")) {
  request = record request {
    method = codes "POST";
    version = codes "HTTP/1.1";
    headers = (codes "host", codes "A.org:80") ∷ (codes "content-length", codes "4") ∷ [];
  };
}

finish_headers-Settled_example : Settled (finish_headers announced)
unfolding webserer_core.Request.create
finish_headers-Settled_example = finish_headers-Settled announced refl refl

read_length-decimal_example : read_length 100 0 (codes "042") ≡ length_is 42
unfolding webserer_core.Text.Decimal.decimal
read_length-decimal_example =
    read_length-decimal 100 0 (codes "042") (omega arith) (omega arith) (refl, (refl, (refl, tt)))

header_lines-ne-exhausted_example :
    header_lines 9 (holding (codes "a: b\r\n\r\n")) request ≢ exhausted
unfolding webserer_core.Buffer.content
header_lines-ne-exhausted_example =
    header_lines-ne-exhausted 9 (holding (codes "a: b\r\n\r\n")) request
      (holding-Sound (codes "a: b\r\n\r\n") (omega arith)) (omega arith)

abbrev stored : HttpRequest
stored = record request { headers = (codes "a", codes "1") ∷ [] }

abbrev stored_more : HttpRequest
stored_more = record request { headers = (codes "a", codes "1, 2") ∷ [] }
