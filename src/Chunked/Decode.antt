-- ===== src/Chunked/Decode.antt =====
-- `_parseChunked` of src/HttpParser.cpp on a body that has come in whole.
use webserer_core.Base.{
  ℕ, suc, ◌+◌, ◌≤◌, ◌<◌, ◌≡◌, refl, true, false, not, List, [], ◌∷◌, ◌++◌, ap, ◌∙◌, arith, Bytes,
  length, take, drop, count, ltb, ◌==◌, if◌then◌else◌, is_nil, returned, length-append, take_length,
  drop-length, add_size, sub_size,
}
use webserer_core.Body.Progress.{Reading, consume-Reading, move-returned, moved-Reading}
use webserer_core.Buffer
use webserer_core.Buffer.{Buffer}
use webserer_core.Buffer.Queue.{content-consume, size-content}
use webserer_core.Chunked.{
  size_is, onward, again, skip_trailing, take_size, take_data, then_data, round, read_size,
  close_data,
}
use webserer_core.Request.{HttpRequest, ParseState}
use webserer_core.Text.Crlf.{find_crlf_line}

-- The read buffer holds `text`, and a size line is due.
pub record Due (buf : Buffer) (req : HttpRequest) (text : Bytes) : Type 0 where
  pub reading : Reading buf req
  pub no_chunk : req.chunk_size ≡ 0
  pub no_trailing : req.chunk_trailing ≡ false
  pub holds : Buffer.content buf ≡ text

-- A size line that announces `size`, without a carriage return.
pub record Announces (line : Bytes) (size : ℕ) : Type 0 where
  pub some_line : is_nil line ≡ false
  pub one_line : count b'\r' line ≡ 0
  pub size_read : read_size false 0 line ≡ size_is size

abbrev pub with_crlf : Bytes → Bytes → Bytes
with_crlf line rest = line ++ (b'\r' ∷ b'\n' ∷ rest)

drop-with_crlf : (line rest : Bytes) → drop (length line + 2) (with_crlf line rest) ≡ rest
drop-with_crlf [] rest = refl
drop-with_crlf (c ∷ line) rest =
    let e : suc (length line) + 2 ≡ suc (length line + 2) = omega arith in
    rw e (drop-with_crlf line rest)

module _ (buf : Buffer) (req : HttpRequest) (line rest : Bytes) (size : ℕ) where
  abbrev pub past_line : Buffer
  past_line = Buffer.consume (length line + 2) buf

  pub take_size_announced :
      Due buf req (with_crlf line rest)
      → Announces line size
      → take_size buf req ≡ (
          if size == 0
          then again past_line (record req { chunk_done = true; chunk_trailing = true })
          else onward past_line (record req { chunk_size = size }))
  unfolding take_size
  take_size_announced d a =
      let none_left : (req.chunk_size == 0) ≡ true = rw d.no_chunk in
      rw (
        take_size,
        none_left,
        d.holds,
        find_crlf_line line rest a.one_line,
        d.holds,
        take_length line (b'\r' ∷ b'\n' ∷ rest),
        a.some_line,
        a.size_read,
      )

  pub content-past_line : Due buf req (with_crlf line rest) → Buffer.content past_line ≡ rest
  content-past_line d =
      content-consume (length line + 2) buf d.reading.read_sound.valid d.reading.read_sound.small
      ∙ ap (drop (length line + 2)) d.holds
      ∙ drop-with_crlf line rest

-- What the last round of a chunk with `bytes` leaves in front of `rest`.
pub record Moved (req : HttpRequest) (bytes rest : Bytes) (buf : Buffer) (after : HttpRequest)
    : Type 0 where
  pub reading : Reading buf after
  pub trailing : after.chunk_trailing ≡ true
  pub not_done : after.chunk_done ≡ false
  pub body_grows : Buffer.content after.body ≡ Buffer.content req.body ++ bytes
  pub written_grows : after.written ≡ req.written + length bytes
  pub same_limit : after.max_body_size ≡ req.max_body_size
  pub holds : Buffer.content buf ≡ rest

module _ (buf : Buffer) (req : HttpRequest) (bytes rest : Bytes) (r : Reading buf req)
    (h : Buffer.content buf ≡ bytes ++ rest) (c : req.chunk_size ≡ length bytes)
    (p : 0 < length bytes) (w : req.written + length bytes ≤ req.max_body_size) where
  enough : length bytes ≤ length (Buffer.content buf)
  enough = omega (arith, ap length h, length-append bytes rest)

  bytes_there : (Buffer.size buf == 0) ≡ false
  bytes_there = ground (arith, size-content buf r.read_sound.valid, enough)

  whole_data :
      (if ltb req.chunk_size (Buffer.size buf) then req.chunk_size else Buffer.size buf)
      ≡ length bytes
  whole_data = ground (arith, size-content buf r.read_sound.valid, enough)

  data_fits : ltb req.max_body_size (add_size req.written (length bytes)) ≡ false
  data_fits = ground (arith, r.small)

  pub take_data-Moved :
      (b : Buffer) × (after : HttpRequest) × (take_data buf req ≡ returned (again b after))
      × Moved req bytes rest b after
  unfolding take_data close_data
  take_data-Moved =
      let k = length bytes in
      let (body, moves, grows, v, l, g) = move-returned k buf req r enough w in
      let closed : (sub_size req.chunk_size k == 0) ≡ true = ground (arith, c) in
      (
        Buffer.consume k buf,
        record req {
          body = body;
          written = req.written + k;
          chunk_size = sub_size req.chunk_size k;
          chunk_trailing = true;
          chunk_done = false;
        },
        rw (take_data, whole_data, bytes_there, data_fits, moves, closed) refl,
        record {
          reading = moved-Reading k buf req body r enough w grows v l g;
          trailing = refl;
          not_done = refl;
          body_grows =
              grows
              ∙ ap (λ d. Buffer.content req.body ++ d) (ap (take k) h ∙ take_length bytes rest);
          written_grows = refl;
          same_limit = refl;
          holds =
              content-consume k buf r.read_sound.valid r.read_sound.small
              ∙ ap (drop k) h
              ∙ drop-length bytes rest;
        },
      )

-- One chunk: the digits of its size line, and its bytes.
pub record Piece : Type 0 where
  pub line : Bytes
  pub bytes : Bytes

-- A chunked body whose last size line is `last`, with `rest` behind it.
unfoldable pub encoded : List Piece → Bytes → Bytes → Bytes
encoded [] last rest = with_crlf last (b'\r' ∷ b'\n' ∷ rest)
encoded (x ∷ xs) last rest = with_crlf x.line (x.bytes ++ (b'\r' ∷ b'\n' ∷ encoded xs last rest))

unfoldable pub payload : List Piece → Bytes
payload [] = []
payload (x ∷ xs) = x.bytes ++ payload xs

-- Every size line tells the number of bytes behind it, and no chunk but the last is empty.
abbrev pub AllAnnounced : List Piece → Type 0
AllAnnounced [] = Unit {0}
AllAnnounced (x ∷ xs) = (Announces x.line (length x.bytes) × (0 < length x.bytes)) × AllAnnounced xs

-- The body is complete, and the bytes behind it are left.
pub record Decoded (req : HttpRequest) (bytes rest : Bytes) (buf : Buffer) (after : HttpRequest)
    : Type 0 where
  pub completed : after.parse_state ≡ ParseState.complete
  pub body_is : Buffer.content after.body ≡ Buffer.content req.body ++ bytes
  pub left_over : Buffer.content buf ≡ rest

pub skip_trailing-Due :
    (buf : Buffer) (req : HttpRequest) (text : Bytes)
    → Due buf req text
    → round buf req ≡ then_data (take_size buf req)
unfolding round skip_trailing
skip_trailing-Due buf req text d =
    let e : not req.chunk_trailing ≡ true = rw d.no_trailing in rw (round, skip_trailing, e)

-- The request behind the CRLF of a chunk.
abbrev pub next_chunk : HttpRequest → HttpRequest
next_chunk req = record req { chunk_trailing = false; chunk_size = 0 }

module _ (req after : HttpRequest) (bytes text : Bytes) (buf : Buffer)
    (m : Moved req bytes (b'\r' ∷ b'\n' ∷ text) buf after) where
  two_there : ltb (Buffer.size buf) 2 ≡ false
  two_there = ground (arith, size-content buf m.reading.read_sound.valid, ap length m.holds)

  pub round-Moved :
      round buf after ≡ then_data (take_size (Buffer.consume 2 buf) (next_chunk after))
  unfolding round skip_trailing
  round-Moved =
      let e : not after.chunk_trailing ≡ false = rw m.trailing in
      rw (round, skip_trailing, e, two_there, m.not_done)

  pub next_chunk-Due : Due (Buffer.consume 2 buf) (next_chunk after) text
  next_chunk-Due = record {
    reading = consume-Reading 2 buf after m.reading;
    no_chunk = refl;
    no_trailing = refl;
    holds =
        content-consume 2 buf m.reading.read_sound.valid m.reading.read_sound.small
        ∙ ap (drop 2) m.holds;
  }
