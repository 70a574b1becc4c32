-- ===== src/Cgi/Output.antt =====
-- What src/EventLoop/EventLoop_helper_cgi.cpp makes of the output of a script. How `>>` reads an `int`
-- from a string stream is a parameter: `scan text before` is what the variable has then.
use webserer_core.Base.{
  ℕ, zero, suc, ◌+◌, ◌/◌, ◌%◌, ◌&&◌, List, [], ◌∷◌, ◌++◌, Option, none, some, ◌==◌, ltb,
  if◌then◌else◌, Bytes, codes, length, is_nil, equal, take, drop,
}
use mathlib.Core.Option
use webserer_core.Config.{starts_with}
use webserer_core.Handler.Replies.{print_nat, field, line_end}
use webserer_core.Request.{HttpRequest, keep_alive}
use webserer_core.Target.{find_byte}
use webserer_core.Text.{str_tolower, skip_blanks}

-- Where a text stands for the first time, for a text that is not empty.
unfoldable pub index_of : Bytes → Bytes → Option ℕ
index_of needle [] = none
index_of needle (c ∷ cs) =
    if starts_with (c ∷ cs) needle then some 0 else Option.map suc (index_of needle cs)

-- `findHeaderEnd`: behind the first empty line.
unfoldable pub find_header_end : Bytes → Option ℕ
unfolding index_of
find_header_end text = elim (index_of (13 ∷ 10 ∷ 13 ∷ 10 ∷ []) text) [
  | some n ↦ some (n + 4)
  | none ↦ Option.map (λ n. n + 2) (index_of (10 ∷ 10 ∷ []) text)
]

-- An `int` that was read.
pub data Signed : Type 0 where
  plus minus : ℕ → Signed

unfoldable pub print_signed : Signed → Bytes
print_signed (plus n) = print_nat n
print_signed (minus n) = codes "-" ++ print_nat n

-- The locals of `flushCgiHeaders`.
pub record CgiHead : Type 0 where
  pub status_code : Signed
  pub content_type : Bytes
  pub extra : Bytes

module _ (scan : Bytes → Signed → Signed) where
  -- A line with a colon after its first `n` bytes.
  unfoldable pub take_field : Bytes → ℕ → CgiHead → CgiHead
  take_field line n head =
      let key = take n line in
      let behind = drop (suc n) line in
      let val = if is_nil (skip_blanks behind) then behind else skip_blanks behind in
      let lkey = str_tolower key in
      if equal lkey (codes "status")
      then record head { status_code = scan val head.status_code }
      else if equal lkey (codes "content-type")
      then record head { content_type = val }
      else record head { extra = head.extra ++ field key val }

  -- A line without its end.
  unfoldable pub take_head_line : Bytes → CgiHead → CgiHead
  unfolding take_field
  take_head_line line head = elim (find_byte b':' line) [
    | none ↦ head
    | some n ↦ take_field line n head
  ]

  -- A line up to the newline, from which one carriage return is cut.
  unfoldable pub cut_return : Bytes → Bytes
  cut_return [] = []
  cut_return (c ∷ cs) =
      let further = cut_return cs in if c == 13 && is_nil cs then [] else c ∷ further

  -- The loop of `flushCgiHeaders`; `line` has been read of a line.
  unfoldable pub head_lines : Bytes → Bytes → CgiHead → CgiHead
  unfolding take_head_line cut_return
  head_lines line [] head = head
  head_lines line (c ∷ cs) head =
      let ended = head_lines [] cs (take_head_line (cut_return line) head) in
      let more = head_lines (line ++ c ∷ []) cs head in if c == 10 then ended else more

abbrev pub reasons : List (ℕ × Bytes)
reasons =
    (201, codes "Created")
    ∷ (204, codes "No Content")
    ∷ (301, codes "Moved Permanently")
    ∷ (302, codes "Found")
    ∷ (400, codes "Bad Request")
    ∷ (403, codes "Forbidden")
    ∷ (404, codes "Not Found")
    ∷ (500, codes "Internal Server Error")
    ∷ (502, codes "Bad Gateway")
    ∷ (504, codes "Gateway Timeout")
    ∷ []

unfoldable pub reason_in : ℕ → List (ℕ × Bytes) → Bytes
reason_in code [] = codes "OK"
reason_in code ((n, reason) ∷ rs) = if n == code then reason else reason_in code rs

unfoldable pub reason_of : Signed → Bytes
unfolding reason_in
reason_of (plus n) = reason_in n reasons
reason_of (minus n) = codes "OK"

-- The head that `flushCgiHeaders` appends.
unfoldable pub cgi_head : (Bytes → Signed → Signed) → Bytes → HttpRequest → Bytes
unfolding head_lines reason_of print_signed
cgi_head scan text req =
    let start : CgiHead = record {
      status_code = plus 200;
      content_type = codes "text/html";
      extra = [];
    } in
    let head = head_lines scan [] text start in
    codes "HTTP/1.1 "
    ++ print_signed head.status_code
    ++ codes " "
    ++ reason_of head.status_code
    ++ line_end
    ++ field (codes "Server") (codes "webserv/1.0")
    ++ field (codes "Content-Type") head.content_type
    ++ field (codes "Transfer-Encoding") (codes "chunked")
    ++ field (codes "Connection") (if keep_alive req then codes "keep-alive" else codes "close")
    ++ head.extra
    ++ line_end

abbrev pub hex_digit : ℕ → ℕ
hex_digit d = if ltb d 10 then 48 + d else 87 + d

-- `ss << std::hex << len` for a `size_t`, which has at most 16 digits.
unfoldable pub hex_digits : ℕ → ℕ → Bytes → Bytes
hex_digits zero n behind = behind
hex_digits (suc rounds) n behind =
    let next = hex_digit (n % 16) ∷ behind in
    let further = hex_digits rounds (n / 16) next in if ltb n 16 then next else further

unfoldable pub print_hex : ℕ → Bytes
unfolding hex_digits
print_hex n = hex_digits 16 n []

-- What `writeChunk` appends, one text after the other.
unfoldable pub write_chunk : Bytes → List Bytes
write_chunk text =
    if is_nil text then [] else (print_hex (length text) ++ line_end) ∷ text ∷ line_end ∷ []
