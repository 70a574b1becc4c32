-- ===== src/Examples/Bodies.antt =====
-- Runs on bodies.
use webserer_core.Base.{
  [], ◌∷◌, ℕ, ◌+◌, ◌≡◌, ◌⊎◌, refl, Bytes, codes, length, arith, ◌<◌, ◌≤◌, returned,
}
use webserer_core.Body.{parse_body}
use webserer_core.Body.Progress.{parse_body-Progress, Progress, Reading, portion}
use webserer_core.Buffer
use webserer_core.Buffer.{Buffer}
use webserer_core.Buffer.Queue.{create-IsValid}
use webserer_core.Chunked.{parse_chunked, read_size, size_is}
use webserer_core.Chunked.Decode.{Announces, Due, Piece, encoded, payload, Decoded}
use webserer_core.Chunked.Whole.{parse_chunked-Decoded}
use webserer_core.Chunked.Total.{parse_chunked-returned}
use webserer_core.Parser.{fail}
use webserer_core.Request.{HttpRequest}
use webserer_core.Examples.Data.{holding, holding-Sound, posting}

pub posting-Reading :
    (n : ℕ) (bytes : Bytes) → length bytes ≤ 100 → Reading (holding bytes) (posting n)
unfolding webserer_core.Request.create Buffer.create
posting-Reading n bytes h = record {
  read_sound = holding-Sound bytes h;
  body_valid = create-IsValid 100;
  room = unfold Buffer.content in omega (arith, h);
  limit = refl;
  counted = unfold Buffer.content in omega arith;
  within = omega arith;
  small = omega arith;
}

parse_body-Progress_example :
    (((posting 3).max_body_size
        < (posting 3).written + portion (holding (codes "abcd")) (posting 3))
      × (parse_body (holding (codes "abcd")) (posting 3)
          ≡ returned (holding (codes "abcd"), fail 413 (posting 3))))
    ⊎ ((after_buf : Buffer) × (after : HttpRequest) × (parse_body
            (holding (codes "abcd"))
            (posting 3)
          ≡ returned (after_buf, after))
        × Progress
            (portion (holding (codes "abcd")) (posting 3))
            (holding (codes "abcd"))
            after_buf
            (posting 3)
            after)
unfolding webserer_core.Request.create
parse_body-Progress_example =
    parse_body-Progress (holding (codes "abcd")) (posting 3)
      (posting-Reading 3 (codes "abcd") (omega arith)) (unfold Buffer.content in omega arith)
      (omega arith) (omega arith)

parse_chunked-returned_example :
    (b : Buffer) × (after : HttpRequest) × (parse_chunked
        (holding (codes "2\r\nab\r\n"))
        (posting 0)
      ≡ returned (b, after))
    × Reading b after
parse_chunked-returned_example =
    parse_chunked-returned (holding (codes "2\r\nab\r\n")) (posting 0)
      (posting-Reading 0 (codes "2\r\nab\r\n") (omega arith))

abbrev ab_chunk : Piece
ab_chunk = record { line = codes "2"; bytes = codes "ab" }

abbrev sent : Buffer
sent = holding (codes "2\r\nab\r\n0\r\n\r\nGET")

zero-Announces : Announces (codes "0") 0
unfolding read_size webserer_core.Chunked.digit_of
zero-Announces = record { some_line = refl; one_line = refl; size_read = refl }

ab_chunk-Announces : Announces (codes "2") 2
unfolding read_size webserer_core.Chunked.digit_of
ab_chunk-Announces = record { some_line = refl; one_line = refl; size_read = refl }

sent-Due : Due sent (posting 0) (encoded (ab_chunk ∷ []) (codes "0") (codes "GET"))
unfolding encoded webserer_core.Request.create Buffer.content
sent-Due = record {
  reading = posting-Reading 0 (codes "2\r\nab\r\n0\r\n\r\nGET") (omega arith);
  no_chunk = refl;
  no_trailing = refl;
  holds = refl;
}

parse_chunked-Decoded_example :
    (b : Buffer) × (after : HttpRequest) × (parse_chunked sent (posting 0) ≡ returned (b, after))
    × Decoded (posting 0) (payload (ab_chunk ∷ [])) (codes "GET") b after
unfolding webserer_core.Request.create payload
parse_chunked-Decoded_example =
    parse_chunked-Decoded (codes "0") (codes "GET") (ab_chunk ∷ []) sent (posting 0) zero-Announces
      ((ab_chunk-Announces, omega arith), tt) sent-Due (omega arith)
