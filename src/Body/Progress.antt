-- ===== src/Body/Progress.antt =====
-- What one call of `_parseBody` in src/HttpParser.cpp achieves on a body with a Content-Length.
use webserer_core.Base.{
  ℕ, ◌+◌, ◌-◌, ◌≤◌, ◌<◌, ◌≡◌, ◌≢◌, refl, true, false, not, ◌&&◌, inl, inr, ◌++◌, ap, ◌∙◌, arith,
  length, take, drop, ltb, ◌==◌, if◌then◌else◌, Bool-cases, returned, ◌>>=◌, add_size, sub_size,
  length-take, length-drop, length-append, ◌⊎◌,
}
use Prim.Native.Nat.{min}
use webserer_core.Body.{move, close_body, parse_body}
use webserer_core.Buffer
use webserer_core.Buffer.{Buffer}
use webserer_core.Buffer.Growth.{max_vector}
use webserer_core.Buffer.Queue.{IsValid, content-consume, size-content}
use webserer_core.Buffer.Client.{Sound, consume-Sound, append-returned}
use webserer_core.Parser.{fail}
use webserer_core.Request.{HttpRequest, ParseState}

-- The numbers of a body that is being read are in step, and both buffers are well formed.
pub record InStep (buf body : Buffer) (written max_body_size : ℕ) : Type 0 where
  pub read_sound : Sound buf
  pub body_valid : IsValid body
  pub room : length body.storage + length (Buffer.content buf) ≤ max_vector
  pub limit : body.cmbs ≡ max_body_size
  pub counted : length (Buffer.content body) ≤ written
  pub within : written ≤ max_body_size
  pub small : max_body_size < max_vector

abbrev pub Reading : Buffer → HttpRequest → Type 0
Reading buf req = InStep buf req.body req.written req.max_body_size

pub consume-Reading :
    (n : ℕ) (buf : Buffer) (req : HttpRequest)
    → Reading buf req
    → Reading (Buffer.consume n buf) req
consume-Reading n buf req r = record {
  read_sound = consume-Sound n buf r.read_sound;
  body_valid = r.body_valid;
  room = omega (
    arith,
    r.room,
    ap length (content-consume n buf r.read_sound.valid r.read_sound.small),
    length-drop n (Buffer.content buf),
  );
  limit = r.limit;
  counted = r.counted;
  within = r.within;
  small = r.small;
}

-- A move of bytes that are there and fit takes them from the read buffer to the body.
pub move-returned :
    (k : ℕ) (buf : Buffer) (req : HttpRequest)
    → Reading buf req
    → k ≤ length (Buffer.content buf)
    → req.written + k ≤ req.max_body_size
    → (body : Buffer) × (move k buf req
        ≡ returned (Buffer.consume k buf, record req { body = body; written = req.written + k }))
      × (Buffer.content body ≡ Buffer.content req.body ++ take k (Buffer.content buf))
      × IsValid body
      × (body.cmbs ≡ req.body.cmbs)
      × (length body.storage ≤ length req.body.storage + k)
unfolding move
move-returned k buf req r h m =
    let src = take k (Buffer.content buf) in
    let n : length src ≡ k = omega (arith, length-take k (Buffer.content buf)) in
    let (body, e, c, v, l, grown) =
      append-returned src req.body r.body_valid (omega (arith, r.room))
        (omega (arith, r.counted, r.limit)) in
    let sum : add_size req.written k ≡ req.written + k = omega (arith, r.small) in
    (body, rw (e, sum), c, v, l, omega arith)

-- How many bytes `_parseBody` moves.
abbrev pub portion : Buffer → HttpRequest → ℕ
portion buf req = min (req.content_length - req.written) (length (Buffer.content buf))

module _ (buf : Buffer) (req : HttpRequest) (r : Reading buf req)
    (started : req.written ≤ req.content_length) where
  to_read_lem :
      (let available = Buffer.size buf in
        let needed = sub_size req.content_length req.written in
        if ltb needed available then needed else available)
      ≡ portion buf req
  to_read_lem = ground (arith, size-content buf r.read_sound.valid)

  module _ (p : 0 < length (Buffer.content buf)) (q : 0 < req.content_length) where
    some_bytes : (Buffer.size buf == 0) ≡ false
    some_bytes = ground (arith, size-content buf r.read_sound.valid)

    has_length : (req.content_length == 0 && not req.chunked) ≡ false
    has_length = ground arith

  sum_lem : add_size req.written (portion buf req) ≡ req.written + portion buf req
  sum_lem = omega (arith, r.small, r.within, r.room, r.read_sound.small)

  parse_body_counted :
      0 < length (Buffer.content buf)
      → 0 < req.content_length
      → req.written + portion buf req ≤ req.max_body_size
      → parse_body buf req
        ≡ (move (portion buf req) buf req >>= λ moved. returned (close_body moved))
  unfolding parse_body
  parse_body_counted p q w =
      let fits : ltb req.max_body_size (add_size req.written (portion buf req)) ≡ false =
        rw sum_lem (ground arith) in
      rw (parse_body, to_read_lem, some_bytes p q, has_length p q, fits)

  parse_body_over :
      0 < length (Buffer.content buf)
      → 0 < req.content_length
      → req.max_body_size < req.written + portion buf req
      → parse_body buf req ≡ returned (buf, fail 413 req)
  unfolding parse_body
  parse_body_over p q w =
      let over : ltb req.max_body_size (add_size req.written (portion buf req)) ≡ true =
        rw sum_lem (ground arith) in
      rw (parse_body, to_read_lem, some_bytes p q, has_length p q, over)

-- The read buffer and the request behind a step that moved `k` bytes of the body.
pub record Progress (k : ℕ) (buf after_buf : Buffer) (req after : HttpRequest) : Type 0 where
  pub body_grows :
      Buffer.content after.body ≡ Buffer.content req.body ++ take k (Buffer.content buf)
  pub written_grows : after.written ≡ req.written + k
  pub completes : after.written ≡ req.content_length → after.parse_state ≡ ParseState.complete
  pub goes_on :
      after.written ≢ req.content_length
      → (after.parse_state ≡ req.parse_state)
        × (Buffer.content after_buf ≡ drop k (Buffer.content buf))
        × Reading after_buf after

pub moved-Reading :
    (k : ℕ) (buf : Buffer) (req : HttpRequest) (body : Buffer)
    → Reading buf req
    → k ≤ length (Buffer.content buf)
    → req.written + k ≤ req.max_body_size
    → Buffer.content body ≡ Buffer.content req.body ++ take k (Buffer.content buf)
    → IsValid body
    → body.cmbs ≡ req.body.cmbs
    → length body.storage ≤ length req.body.storage + k
    → Reading (Buffer.consume k buf) (record req { body = body; written = req.written + k })
moved-Reading k buf req body r h m c v l g = record {
  read_sound = consume-Sound k buf r.read_sound;
  body_valid = v;
  room = omega (
    arith,
    r.room,
    ap length (content-consume k buf r.read_sound.valid r.read_sound.small),
    length-drop k (Buffer.content buf),
  );
  limit = l ∙ r.limit;
  counted = omega (
    arith,
    r.counted,
    ap length c,
    length-append (Buffer.content req.body) (take k (Buffer.content buf)),
    length-take k (Buffer.content buf),
  );
  within = m;
  small = r.small;
}

close_body-Progress :
    (k : ℕ) (buf : Buffer) (req : HttpRequest) (body : Buffer)
    → Reading buf req
    → k ≤ length (Buffer.content buf)
    → req.written + k ≤ req.max_body_size
    → Buffer.content body ≡ Buffer.content req.body ++ take k (Buffer.content buf)
    → IsValid body
    → body.cmbs ≡ req.body.cmbs
    → length body.storage ≤ length req.body.storage + k
    → let r =
        close_body (Buffer.consume k buf, record req { body = body; written = req.written + k }) in
      Progress k buf r.0 req r.1
unfolding close_body
close_body-Progress k buf req body r h m c v l g =
    elim (Bool-cases (req.written + k == req.content_length)) [
      | inl e ↦ rw e (record {
        body_grows = c;
        written_grows = refl;
        completes = λ _. refl;
        goes_on = λ n. absurd (n (ground arith));
      })
      | inr e ↦ rw e (record {
        body_grows = c;
        written_grows = refl;
        completes = λ z. absurd (ground arith);
        goes_on = λ _. (
          refl,
          content-consume k buf r.read_sound.valid r.read_sound.small,
          moved-Reading k buf req body r h m c v l g,
        );
      })
    ]

-- With its numbers in step, a call of `_parseBody` on bytes of a body with a Content-Length ends. Of the
-- bytes in the read buffer it looks at those that are still due. Where these, with what was written
-- before, pass the limit, it sets error 413 and moves nothing; a Content-Length beyond the limit is
-- no error by itself. Else it moves them from the read buffer to the body, in order, and completes
-- the request if the body then has its length; if not, the state is kept, the bytes behind them are
-- left, and it can be called again.
pub parse_body-Progress :
    (buf : Buffer) (req : HttpRequest)
    → Reading buf req
    → 0 < length (Buffer.content buf)
    → 0 < req.content_length
    → req.written ≤ req.content_length
    → ((req.max_body_size < req.written + portion buf req)
        × (parse_body buf req ≡ returned (buf, fail 413 req)))
      ⊎ ((after_buf : Buffer) × (after : HttpRequest) × (parse_body buf req
            ≡ returned (after_buf, after))
          × Progress (portion buf req) buf after_buf req after)
parse_body-Progress buf req r p q s =
    elim (Bool-cases (ltb req.max_body_size (req.written + portion buf req))) [
      | inl over ↦ inl (ground arith, parse_body_over buf req r s p q (ground arith))
      | inr fits ↦
          let k = portion buf req in
          let w : req.written + k ≤ req.max_body_size = ground arith in
          let n : k ≤ length (Buffer.content buf) = omega arith in
          let (body, e, c, v, l, g) = move-returned k buf req r n w in
          let closed =
            close_body
              (Buffer.consume k buf, record req { body = body; written = req.written + k }) in
          inr (
            closed.0,
            closed.1,
            parse_body_counted buf req r s p q w ∙ rw e,
            close_body-Progress k buf req body r n w c v l g,
          )
    ]
