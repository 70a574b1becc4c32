-- ===== src/Chunked.antt =====
-- `HttpParser::_parseChunked` of src/HttpParser.cpp: one function for each part of a round.
pub mod Size
pub mod Total
pub mod Decode
pub mod Whole
use webserer_core.Base.{
  ℕ, zero, suc, ◌+◌, ◌-◌, ◌*◌, ◌/◌, Bool, true, false, not, ◌&&◌, ◌||◌, [], ◌∷◌, Option, none, some,
  ltb, ◌==◌, within, if◌then◌else◌, add_size, sub_size, Bytes, take, length, is_nil, Outcome,
  returned, thrown, hung, ◌>>=◌,
}
use webserer_core.Buffer
use webserer_core.Buffer.{Buffer}
use webserer_core.Body.{move}
use webserer_core.Parser.{fail}
use webserer_core.Request.{HttpRequest, ParseState}
use webserer_core.Text.{find_crlf}

-- MAX_ALLOWED_CHUNK
abbrev pub max_allowed_chunk : ℕ
max_allowed_chunk = 1073741824

-- `d`, for a hexadecimal digit
unfoldable pub digit_of : ℕ → Option ℕ
digit_of c =
    if within b'0' b'9' c
    then some (c - b'0')
    else if within b'a' b'f' c
    then some (c - b'a' + 10)
    else if within b'A' b'F' c
    then some (c - b'A' + 10)
    else none

pub data ChunkSize : Type 0 where
  size_is : ℕ → ChunkSize
  wrong : ℕ → ChunkSize

-- The loop over an extension, from the semicolon on.
unfoldable pub check_extension : ℕ → Bytes → ChunkSize
check_extension chunk_sz [] = size_is chunk_sz
check_extension chunk_sz (uc ∷ rest) =
    let later = check_extension chunk_sz rest in
    if ltb uc 0x20 && not (uc == 0x09) then wrong 400 else if uc == 0x7f then wrong 400 else later

-- The loop over the digits; `valid` is set by the first.
unfoldable pub read_size : Bool → ℕ → Bytes → ChunkSize
read_size valid chunk_sz [] = if valid then size_is chunk_sz else wrong 400
read_size valid chunk_sz (c ∷ rest) =
    if c == b';'
    then if valid then check_extension chunk_sz (c ∷ rest) else wrong 400
    else elim (digit_of c) [
      | none ↦ wrong 400
      | some d ↦
          let next_val = chunk_sz * 16 + d in
          let later = read_size true next_val rest in
          if ltb (max_allowed_chunk / 16) chunk_sz
          then wrong 413
          else if ltb max_allowed_chunk next_val
          then wrong 413
          else later
    ]

-- A part of a round returns from the function, goes on to the next part, or starts a new round.
pub data Part : Type 0 where
  leave onward again : Buffer → HttpRequest → Part

-- `if (req._chunk_trailing)`
unfoldable pub skip_trailing : Buffer → HttpRequest → Part
skip_trailing buf req =
    if not req.chunk_trailing
    then onward buf req
    else if ltb (Buffer.size buf) 2
    then leave buf req
    else (let rest = Buffer.consume 2 buf in
        let past = record req { chunk_trailing = false } in
        if req.chunk_done
        then leave rest (record past { parse_state = ParseState.complete })
        else onward rest (record past { chunk_size = 0 }))

-- `if (req._chunk_size == 0)`
unfoldable pub take_size : Buffer → HttpRequest → Part
take_size buf req =
    if not (req.chunk_size == 0) then onward buf req else elim (find_crlf (Buffer.content buf)) [
      | none ↦ leave buf req
      | some pos ↦
          let hex_line = take pos (Buffer.content buf) in
          let rest = Buffer.consume (pos + 2) buf in
          if is_nil hex_line then leave rest (fail 400 req) else elim (read_size false 0 hex_line) [
            | wrong code ↦ leave rest (fail code req)
            | size_is n ↦
                if n == 0
                then again rest (record req { chunk_done = true; chunk_trailing = true })
                else onward rest (record req { chunk_size = n })
          ]
    ]

-- What follows the move of chunk data: the round is over.
unfoldable pub close_data : ℕ → Buffer × HttpRequest → Part
close_data to_read (buf, req) =
    let left = sub_size req.chunk_size to_read in
    let shrunk = record req { chunk_size = left } in
    again buf
      (if left == 0 then record shrunk { chunk_trailing = true; chunk_done = false } else shrunk)

unfoldable pub take_data : Buffer → HttpRequest → Outcome Part
unfolding close_data
take_data buf req =
    let available = Buffer.size buf in
    let to_read = if ltb req.chunk_size available then req.chunk_size else available in
    if available == 0
    then returned (leave buf req)
    else if ltb req.max_body_size (add_size req.written to_read)
    then returned (leave buf (fail 413 req))
    else (move to_read buf req >>= λ moved. returned (close_data to_read moved))

abbrev pub then_size : Part → Part
then_size (onward buf req) = take_size buf req
then_size (leave buf req) = leave buf req
then_size (again buf req) = again buf req

abbrev pub then_data : Part → Outcome Part
then_data (onward buf req) = take_data buf req
then_data (leave buf req) = returned (leave buf req)
then_data (again buf req) = returned (again buf req)

-- One round of `while (true)`.
unfoldable pub round : Buffer → HttpRequest → Outcome Part
round buf req = then_data (then_size (skip_trailing buf req))

unfoldable pub chunk_loop : ℕ → Buffer → HttpRequest → Outcome (Buffer × HttpRequest)
chunk_loop zero buf req = hung
chunk_loop (suc rounds) buf req = round buf req >>= λ part. elim part [
  | leave b r ↦ returned (b, r)
  | onward b r ↦ chunk_loop rounds b r
  | again b r ↦ chunk_loop rounds b r
]

-- A round that goes on has read something, so there are at most as many as there are bytes.
unfoldable pub parse_chunked : Buffer → HttpRequest → Outcome (Buffer × HttpRequest)
parse_chunked buf req = chunk_loop (suc (length (Buffer.content buf))) buf req
