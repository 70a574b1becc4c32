-- ===== src/Parser/Start.antt =====
-- `_parseRequestLine` of src/HttpParser.cpp as a whole.
use mathlib.Core.List.{append_assoc}
use webserer_core.Base.{
  ℕ, suc, ◌+◌, ◌-◌, ◌≤◌, ◌≡◌, refl, ap, ◌∙◌, sym, arith, true, [], ◌∷◌, ◌++◌, Bytes, codes, length,
  Every, drop, take_length, drop-length, length-append,
}
use webserer_core.Buffer
use webserer_core.Buffer.Queue.{IsValid, content-consume}
use webserer_core.Buffer.Growth.{max_vector}
use webserer_core.Connection.{Connection}
use webserer_core.Request.{HttpRequest}
use webserer_core.RequestLine.{check_line, Line, pass, slice}
use webserer_core.RequestLine.Scan.{
  scan-request_line, request_line, is_target_char, version_crlf, ended,
}
use webserer_core.Text.{is_token_char}
use webserer_core.Target.{Stat, strip_authority, split_target, validate_path, c_str}
use webserer_core.Parser.{parse_request_line, take_line, known_method, after_stat}

slice_middle :
    (a b : ℕ) (xs ys zs : Bytes)
    → a ≡ length xs
    → b ≡ a + length ys
    → slice a b (xs ++ (ys ++ zs)) ≡ ys
slice_middle a b xs ys zs e f =
    let k : b - a ≡ length ys = omega arith in
    rw (k, e, drop-length xs (ys ++ zs)) (take_length ys zs)

-- The request that a line with this method and target asks for.
pub asked : Bytes → Bytes → HttpRequest → HttpRequest
asked method target req =
    let to = split_target (strip_authority target) in
    record req {
      method = method;
      version = codes "HTTP/1.1";
      path = to.path;
      query_string = to.query_string;
    }

module _ (c : ℕ) (name : Bytes) (t : ℕ) (target rest : Bytes) where
  abbrev whole : Bytes
  whole = (c ∷ name) ++ (b' ' ∷ ((t ∷ target) ++ (version_crlf ++ rest)))

  abbrev e : ℕ
  e = length (c ∷ name)

  abbrev w : ℕ
  w = suc e + length (t ∷ target)

  whole-request_line : request_line (c ∷ name) (t ∷ target) ++ rest ≡ whole
  whole-request_line =
      append_assoc (c ∷ name) (b' ' ∷ ((t ∷ target) ++ version_crlf)) rest
      ∙ ap (λ k. (c ∷ name) ++ (b' ' ∷ k)) (append_assoc (t ∷ target) version_crlf rest)

  slice_name : slice 0 e whole ≡ c ∷ name
  slice_name =
      slice_middle 0 e [] (c ∷ name) (b' ' ∷ ((t ∷ target) ++ (version_crlf ++ rest))) refl
        (omega arith)

  slice_target : slice (suc e) w whole ≡ t ∷ target
  slice_target =
      ap (slice (suc e) w)
        (sym (append_assoc (c ∷ name) (b' ' ∷ []) ((t ∷ target) ++ (version_crlf ++ rest))))
      ∙ slice_middle (suc e) w ((c ∷ name) ++ b' ' ∷ []) (t ∷ target) (version_crlf ++ rest)
          (omega (arith, length-append (c ∷ name) (b' ' ∷ []))) (omega arith)

  drop_line : drop (w + 11) whole ≡ rest
  drop_line =
      ap (drop (w + 11)) (sym whole-request_line)
      ∙ rw drop_count (drop-length (request_line (c ∷ name) (t ∷ target)) rest)
    where
      drop_count : w + 11 ≡ length (request_line (c ∷ name) (t ∷ target))
      drop_count = omega (
        arith,
        length-append (c ∷ name) (b' ' ∷ ((t ∷ target) ++ version_crlf)),
        length-append (t ∷ target) version_crlf,
      )

  abbrev plain_line : Line
  plain_line = record {
    method_start = 0;
    method_end = e;
    uri_start = suc e;
    uri_end = w;
    http_major = 1;
    http_minor = 1;
  }

  check_plain_line :
      length (t ∷ target) ≤ 8192 → check_line (w + 11) (ended e (suc e) w) ≡ pass plain_line
  unfolding check_line
  check_plain_line h = ground arith

  module _ (stat : Bytes → Stat) (conn : Connection) where
    -- The connection behind the line.
    pub answered : Connection
    answered =
        let req = asked (c ∷ name) (t ∷ target) conn.request in
        record conn {
          request = after_stat (stat (c_str (validate_path conn.config req.path))) req;
          read_buffer = Buffer.consume (w + 11) conn.read_buffer;
        }

    take_line-whole :
        known_method (c ∷ name) ≡ true → take_line stat whole (w + 11) plain_line conn ≡ answered
    unfolding take_line answered asked
    take_line-whole h = rw (slice_name, h, slice_target)

    parse-whole :
        Buffer.content conn.read_buffer ≡ whole
        → Every is_token_char (c ∷ name)
        → Every is_target_char (t ∷ target)
        → length (t ∷ target) ≤ 8192
        → known_method (c ∷ name) ≡ true
        → parse_request_line stat conn ≡ answered
    unfolding parse_request_line
    parse-whole text h k l m =
        rw
          (parse_request_line, text, scan-request_line c name t target rest h k, check_plain_line l)
          (rw text (take_line-whole m))

-- A plain request line `NAME target HTTP/1.1` of a method that is supported, with any target of at
-- most 8192 bytes without spaces or control bytes, is taken: method, version, path and query are
-- set, the answer of `stat` for the resolved path decides the state, and exactly the line is
-- consumed, whatever follows it in the buffer.
pub parse_request_line-request_line :
    (stat : Bytes → Stat) (conn : Connection) (c : ℕ) (name : Bytes) (t : ℕ) (target rest : Bytes)
    → IsValid conn.read_buffer
    → length conn.read_buffer.storage ≤ max_vector
    → Buffer.content conn.read_buffer ≡ request_line (c ∷ name) (t ∷ target) ++ rest
    → Every is_token_char (c ∷ name)
    → Every is_target_char (t ∷ target)
    → length (t ∷ target) ≤ 8192
    → known_method (c ∷ name) ≡ true
    → let after = parse_request_line stat conn in
      let req = asked (c ∷ name) (t ∷ target) conn.request in
      (after.request ≡ after_stat (stat (c_str (validate_path conn.config req.path))) req)
      × (Buffer.content after.read_buffer ≡ rest)
      × (after.config ≡ conn.config)
parse_request_line-request_line stat conn c name t target rest v m text h k l known =
    let whole_text = text ∙ whole-request_line c name t target rest in
    let e = parse-whole c name t target rest stat conn whole_text h k l known in
    rw e (
      unfold answered in refl,
      unfold answered in
          (content-consume _ conn.read_buffer v m
            ∙ ap (drop _) whole_text
            ∙ drop_line c name t target rest),
      unfold answered in refl,
    )
