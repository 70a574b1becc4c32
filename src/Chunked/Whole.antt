-- ===== src/Chunked/Whole.antt =====
-- `_parseChunked` of src/HttpParser.cpp, from the first size line of a body to its end.
use mathlib.Core.List.{append_assoc, append-nil}
use webserer_core.Base.{
  ℕ, zero, suc, ◌+◌, ◌≤◌, ◌≡◌, refl, true, false, List, [], ◌∷◌, ◌++◌, ap, ◌∙◌, sym, arith, Bytes,
  length, ltb, ◌==◌, Outcome, returned, length-append, drop,
}
use webserer_core.Body.Progress.{Reading, consume-Reading}
use webserer_core.Buffer
use webserer_core.Buffer.{Buffer}
use webserer_core.Buffer.Queue.{content-consume, size-content}
use webserer_core.Chunked.{
  Part, leave, onward, again, skip_trailing, take_size, then_data, round, chunk_loop, parse_chunked,
}
use webserer_core.Chunked.Decode.{
  Due, Announces, with_crlf, past_line, take_size_announced, content-past_line, take_data-Moved,
  Piece, encoded, payload, AllAnnounced, Decoded, skip_trailing-Due, next_chunk, round-Moved,
  next_chunk-Due,
}
use webserer_core.Request.{HttpRequest, ParseState}

-- How the loop goes on behind a round.
abbrev go_on : ℕ → Part → Outcome (Buffer × HttpRequest)
go_on rounds (leave b r) = returned (b, r)
go_on rounds (onward b r) = chunk_loop rounds b r
go_on rounds (again b r) = chunk_loop rounds b r

chunk_loop-go_on :
    (rounds : ℕ) (buf : Buffer) (req : HttpRequest) (p : Part)
    → round buf req ≡ returned p
    → chunk_loop (suc rounds) buf req ≡ go_on rounds p
unfolding chunk_loop
chunk_loop-go_on rounds buf req (leave b r) e = rw e
chunk_loop-go_on rounds buf req (onward b r) e = rw e
chunk_loop-go_on rounds buf req (again b r) e = rw e

-- Where a size line is due, the rest of the round and of the loop decode the body.
abbrev Decodes : ℕ → Buffer → HttpRequest → Bytes → Bytes → Type 0
Decodes rounds buf req bytes rest =
    (p : Part) × (b : Buffer) × (after : HttpRequest) × (then_data (take_size buf req) ≡ returned p)
    × (go_on rounds p ≡ returned (b, after))
    × Decoded req bytes rest b after

length-with_crlf :
    (line rest : Bytes) → length (with_crlf line rest) ≡ length line + 2 + length rest
length-with_crlf line rest = omega (arith, length-append line (b'\r' ∷ b'\n' ∷ rest))

module _ (buf : Buffer) (req : HttpRequest) (rest : Bytes) (r : Reading buf req)
    (h : Buffer.content buf ≡ b'\r' ∷ b'\n' ∷ rest) where
  abbrev ending : HttpRequest
  ending = record req { chunk_done = true; chunk_trailing = true }

  abbrev ended : HttpRequest
  ended = record ending { chunk_trailing = false; parse_state = ParseState.complete }

  two_left : ltb (Buffer.size buf) 2 ≡ false
  two_left = ground (arith, size-content buf r.read_sound.valid, ap length h)

  round-ending : round buf ending ≡ returned (leave (Buffer.consume 2 buf) ended)
  unfolding round skip_trailing
  round-ending = rw (round, skip_trailing, two_left)

  content-ended : Buffer.content (Buffer.consume 2 buf) ≡ rest
  content-ended = content-consume 2 buf r.read_sound.valid r.read_sound.small ∙ ap (drop 2) h

module _ (last rest : Bytes) (a : Announces last 0) where
  decode_last :
      (rounds : ℕ) (buf : Buffer) (req : HttpRequest)
      → Due buf req (encoded [] last rest)
      → Decodes (suc rounds) buf req [] rest
  unfolding encoded
  decode_last rounds buf req d =
      let past = past_line buf req last (b'\r' ∷ b'\n' ∷ rest) 0 in
      let taken = take_size_announced buf req last (b'\r' ∷ b'\n' ∷ rest) 0 d a in
      let left = content-past_line buf req last (b'\r' ∷ b'\n' ∷ rest) 0 d in
      let reading = consume-Reading (length last + 2) buf req d.reading in
      (
        again past (ending past req rest reading left),
        Buffer.consume 2 past,
        ended past req rest reading left,
        ap then_data taken,
        chunk_loop-go_on rounds past (ending past req rest reading left)
            (leave (Buffer.consume 2 past) (ended past req rest reading left))
            (round-ending past req rest reading left),
        record {
          completed = refl;
          body_is = sym (append-nil (Buffer.content req.body));
          left_over = content-ended past req rest reading left;
        },
      )

  decode :
      (xs : List Piece) (rounds : ℕ) (buf : Buffer) (req : HttpRequest)
      → Due buf req (encoded xs last rest)
      → AllAnnounced xs
      → req.written + length (payload xs) ≤ req.max_body_size
      → length (Buffer.content buf) ≤ rounds
      → Decodes rounds buf req (payload xs) rest
  unfolding encoded payload
  decode [] zero buf req d told w h =
      absurd (omega (arith, h, ap length d.holds, length-with_crlf last (b'\r' ∷ b'\n' ∷ rest)))
  decode [] (suc rounds) buf req d told w h = decode_last rounds buf req d
  decode (x ∷ xs) zero buf req d told w h = absurd (
      omega (
        arith,
        h,
        ap length d.holds,
        length-with_crlf x.line (x.bytes ++ (b'\r' ∷ b'\n' ∷ encoded xs last rest)),
      ))
  decode (x ∷ xs) (suc rounds) buf req d told w h =
      let tail = b'\r' ∷ b'\n' ∷ encoded xs last rest in
      let k = length x.bytes in
      let past = past_line buf req x.line (x.bytes ++ tail) k in
      let sized = record req { chunk_size = k } in
      let some_bytes : (k == 0) ≡ false = ground (arith, told.0.1) in
      let taken : take_size buf req ≡ onward past sized =
        take_size_announced buf req x.line (x.bytes ++ tail) k d told.0.0 ∙ rw some_bytes in
      let left = content-past_line buf req x.line (x.bytes ++ tail) k d in
      let reading = consume-Reading (length x.line + 2) buf req d.reading in
      let sum = length-append x.bytes (payload xs) in
      let (b1, r1, moves, m) =
        take_data-Moved past sized x.bytes tail reading left refl told.0.1
          (omega (arith, w, sum)) in
      let due = next_chunk-Due sized r1 x.bytes (encoded xs last rest) b1 m in
      let shorter : length (Buffer.content (Buffer.consume 2 b1)) ≤ rounds = omega (
        arith,
        h,
        ap length d.holds,
        ap length due.holds,
        length-with_crlf x.line (x.bytes ++ tail),
        length-append x.bytes tail,
      ) in
      let (p, b, after, s, g, done) =
        decode xs rounds (Buffer.consume 2 b1) (next_chunk r1) due told.1
          (omega (arith, w, sum, m.written_grows, m.same_limit)) shorter in
      (
        again b1 r1,
        b,
        after,
        ap then_data taken ∙ moves,
        chunk_loop-go_on rounds b1 r1 p
              (round-Moved sized r1 x.bytes (encoded xs last rest) b1 m ∙ s)
            ∙ g,
        record {
          completed = done.completed;
          body_is =
              done.body_is
              ∙ ap (λ t. t ++ payload xs) m.body_grows
              ∙ append_assoc (Buffer.content req.body) x.bytes (payload xs);
          left_over = done.left_over;
        },
      )

-- A chunked body that lies whole in the read buffer, with the numbers in step, is decoded by one call of `_parseChunked`: if
-- each size line tells the number of bytes behind it and their sum is within the limit, the body
-- grows by the bytes of all chunks in order, the request is complete, and what follows the body
-- stays in the buffer.
pub parse_chunked-Decoded :
    (last rest : Bytes) (xs : List Piece) (buf : Buffer) (req : HttpRequest)
    → Announces last 0
    → AllAnnounced xs
    → Due buf req (encoded xs last rest)
    → req.written + length (payload xs) ≤ req.max_body_size
    → (b : Buffer) × (after : HttpRequest) × (parse_chunked buf req ≡ returned (b, after))
      × Decoded req (payload xs) rest b after
unfolding parse_chunked
parse_chunked-Decoded last rest xs buf req a told d w =
    let n = length (Buffer.content buf) in
    let (p, b, after, s, g, done) = decode last rest a xs n buf req d told w (omega arith) in
    (b, after, chunk_loop-go_on n buf req p (skip_trailing-Due buf req _ d ∙ s) ∙ g, done)
