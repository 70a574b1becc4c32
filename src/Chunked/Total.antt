-- ===== src/Chunked/Total.antt =====
-- The rounds of `_parseChunked` in src/HttpParser.cpp: where they lead.
use webserer_core.Base.{
  ℕ, zero, suc, ◌+◌, ◌≤◌, ◌<◌, ◌≡◌, refl, true, false, not, inl, inr, ap, sym, arith, some, length,
  take, ltb, ◌==◌, if◌then◌else◌, is_nil, Bool-cases, Option-cases, returned, length-drop, add_size,
  sub_size,
}
use webserer_core.Body.Progress.{Reading, consume-Reading, move-returned, moved-Reading}
use webserer_core.Buffer
use webserer_core.Buffer.{Buffer}
use webserer_core.Buffer.Queue.{content-consume, size-content}
use webserer_core.Chunked.{
  ChunkSize, size_is, wrong, Part, leave, onward, again, skip_trailing, take_size, take_data,
  then_size, then_data, round, chunk_loop, parse_chunked, read_size, close_data,
}
use webserer_core.Headers.Store.{consume_line_shorter}
use webserer_core.Parser.{fail}
use webserer_core.Request.{HttpRequest}
use webserer_core.Text.{find_crlf}

-- A part leaves the numbers in step. One that starts a new round leaves fewer than `n` bytes, and
-- one that goes on no more.
abbrev Good : ℕ → Part → Type 0
Good n (leave b r) = Reading b r
Good n (onward b r) = Reading b r × (length (Buffer.content b) ≤ n)
Good n (again b r) = Reading b r × (length (Buffer.content b) < n)

-- The same, and a part that goes on has a chunk to read.
abbrev Sized : ℕ → Part → Type 0
Sized n (leave b r) = Reading b r
Sized n (onward b r) = Reading b r × (length (Buffer.content b) ≤ n) × (0 < r.chunk_size)
Sized n (again b r) = Reading b r × (length (Buffer.content b) < n)

-- The same at the end of a round: one that goes on has read something.
abbrev Done : ℕ → Part → Type 0
Done n (leave b r) = Reading b r
Done n (onward b r) = Reading b r × (length (Buffer.content b) < n)
Done n (again b r) = Reading b r × (length (Buffer.content b) < n)

length-consume_le :
    (n : ℕ) (buf : Buffer) (req : HttpRequest)
    → Reading buf req
    → length (Buffer.content (Buffer.consume n buf)) ≤ length (Buffer.content buf)
length-consume_le n buf req r = omega (
  arith,
  ap length (content-consume n buf r.read_sound.valid r.read_sound.small),
  length-drop n (Buffer.content buf),
)

skip_trailing-Good :
    (buf : Buffer) (req : HttpRequest)
    → Reading buf req
    → Good (length (Buffer.content buf)) (skip_trailing buf req)
unfolding skip_trailing
skip_trailing-Good buf req r = elim (Bool-cases (not req.chunk_trailing)) [
  | inl e ↦ rw (skip_trailing, e) (r, omega arith)
  | inr e ↦ elim (Bool-cases (ltb (Buffer.size buf) 2)) [
    | inl f ↦ rw (skip_trailing, e, f) r
    | inr f ↦ elim (Bool-cases req.chunk_done) [
      | inl d ↦ rw (skip_trailing, e, f, d) (consume-Reading 2 buf req r)
      | inr d ↦
          rw (skip_trailing, e, f, d) (consume-Reading 2 buf req r, length-consume_le 2 buf req r)
    ]
  ]
]

module _ (n : ℕ) (buf : Buffer) (req : HttpRequest) (r : Reading buf req) where
  taken_line :
      (pos : ℕ) (size : ChunkSize)
      → length (Buffer.content buf) ≤ n
      → (req.chunk_size == 0) ≡ true
      → find_crlf (Buffer.content buf) ≡ some pos
      → is_nil (take pos (Buffer.content buf)) ≡ false
      → read_size false 0 (take pos (Buffer.content buf)) ≡ size
      → Sized n (take_size buf req)
  unfolding take_size
  taken_line pos (wrong code) h s f e z =
      rw (take_size, s, f, e, z) (consume-Reading (pos + 2) buf req r)
  taken_line pos (size_is k) h s f e z =
      let rest = consume-Reading (pos + 2) buf req r in
      let shorter = consume_line_shorter buf pos r.read_sound f in
      elim (Bool-cases (k == 0)) [
        | inl y ↦ rw (take_size, s, f, e, z, y) (rest, omega (arith, shorter))
        | inr y ↦ rw (take_size, s, f, e, z, y) (rest, omega (arith, shorter), ground arith)
      ]

  take_size-Sized : length (Buffer.content buf) ≤ n → Sized n (take_size buf req)
  unfolding take_size
  take_size-Sized h = elim (Bool-cases (req.chunk_size == 0)) [
    | inr s ↦ rw (take_size, s) (r, h, ground arith)
    | inl s ↦ elim (Option-cases (find_crlf (Buffer.content buf))) [
      | inl f ↦ rw (take_size, s, f) r
      | inr (pos, f) ↦ elim (Bool-cases (is_nil (take pos (Buffer.content buf)))) [
        | inl e ↦ rw (take_size, s, f, e) (consume-Reading (pos + 2) buf req r)
        | inr e ↦ taken_line pos _ h s f e refl
      ]
    ]
  ]

  close_data-Done :
      (k : ℕ) (body : Buffer)
      → Reading (Buffer.consume k buf) (record req { body = body; written = req.written + k })
      → length (Buffer.content (Buffer.consume k buf)) < n
      → Done n (
          close_data k
            (Buffer.consume k buf, record req { body = body; written = req.written + k }))
  unfolding close_data
  close_data-Done k body g h = elim (Bool-cases (sub_size req.chunk_size k == 0)) [
    | inl e ↦ rw e (g, h)
    | inr e ↦ rw e (g, h)
  ]

  abbrev to_read : ℕ
  to_read = if ltb req.chunk_size (Buffer.size buf) then req.chunk_size else Buffer.size buf

  take_data-Done :
      length (Buffer.content buf) ≤ n
      → 0 < req.chunk_size
      → (p : Part) × (take_data buf req ≡ returned p) × Done n p
  unfolding take_data
  take_data-Done h c = elim (Bool-cases (Buffer.size buf == 0)) [
    | inl e ↦ (leave buf req, rw (take_data, e) refl, r)
    | inr e ↦ elim (Bool-cases (ltb req.max_body_size (add_size req.written to_read))) [
      | inl f ↦ (leave buf (fail 413 req), rw (take_data, e, f) refl, r)
      | inr f ↦ moved_data e f
    ]
  ]
    where
      moved_data :
          (Buffer.size buf == 0) ≡ false
          → ltb req.max_body_size (add_size req.written to_read) ≡ false
          → (p : Part) × (take_data buf req ≡ returned p) × Done n p
      moved_data e f =
          let size = size-content buf r.read_sound.valid in
          let k : to_read ≤ length (Buffer.content buf) = ground arith in
          let w : req.written + to_read ≤ req.max_body_size = ground (arith) in
          let (body, moves, c', v, l, g) = move-returned to_read buf req r k w in
          let some_read : 0 < to_read = ground (arith, size) in
          (
            close_data to_read (
              Buffer.consume to_read buf,
              record req { body = body; written = req.written + to_read },
            ),
            rw (take_data, e, f, moves) refl,
            close_data-Done to_read body (moved-Reading to_read buf req body r k w c' v l g) (
                omega (
                  arith,
                  ap length (content-consume to_read buf r.read_sound.valid r.read_sound.small),
                  length-drop to_read (Buffer.content buf),
                )),
          )

module _ (n : ℕ) where
  then_size-Sized : (p : Part) → Good n p → Sized n (then_size p)
  then_size-Sized (leave b r) g = g
  then_size-Sized (onward b r) (g, h) = take_size-Sized n b r g h
  then_size-Sized (again b r) g = g

  then_data-Done : (p : Part) → Sized n p → (q : Part) × (then_data p ≡ returned q) × Done n q
  then_data-Done (leave b r) g = (leave b r, refl, g)
  then_data-Done (onward b r) (g, h, c) = take_data-Done n b r g h c
  then_data-Done (again b r) g = (again b r, refl, g)

  round-Done :
      (buf : Buffer) (req : HttpRequest)
      → Reading buf req
      → length (Buffer.content buf) ≡ n
      → (q : Part) × (round buf req ≡ returned q) × Done n q
  unfolding round
  round-Done buf req r same =
      then_data-Done (then_size (skip_trailing buf req))
        (then_size-Sized (skip_trailing buf req) (rw (sym same) (skip_trailing-Good buf req r)))

-- What the rounds from `buf` on lead to.
abbrev Ends : ℕ → Buffer → HttpRequest → Type 0
Ends rounds buf req =
    (b : Buffer) × (after : HttpRequest) × (chunk_loop rounds buf req ≡ returned (b, after))
    × Reading b after

follow_round :
    (rounds : ℕ) (buf : Buffer) (req : HttpRequest) (q : Part)
    → round buf req ≡ returned q
    → Done (length (Buffer.content buf)) q
    → ((b : Buffer) (after : HttpRequest)
        → Reading b after
        → length (Buffer.content b) < length (Buffer.content buf)
        → Ends rounds b after)
    → Ends (suc rounds) buf req
unfolding chunk_loop
follow_round rounds buf req (leave b a) e g next = (b, a, rw e refl, g)
follow_round rounds buf req (onward b a) e (g, d) next =
    let (b', a', e', g') = next b a g d in (b', a', rw e e', g')
follow_round rounds buf req (again b a) e (g, d) next =
    let (b', a', e', g') = next b a g d in (b', a', rw e e', g')

chunk_loop-returned :
    (rounds : ℕ) (buf : Buffer) (req : HttpRequest)
    → Reading buf req
    → length (Buffer.content buf) < rounds
    → Ends rounds buf req
chunk_loop-returned zero buf req r h = absurd (omega arith)
chunk_loop-returned (suc rounds) buf req r h =
    let (q, e, g) = round-Done _ buf req r refl in
    follow_round rounds buf req q e g
      λ b a s d. chunk_loop-returned rounds b a s (omega (arith, h, d))

-- With the numbers in step, a call of `_parseChunked` ends and throws nothing, whatever the bytes
-- are and wherever the chunks were cut, and leaves the numbers in step: the body within its limit, both buffers well formed.
pub parse_chunked-returned :
    (buf : Buffer) (req : HttpRequest)
    → Reading buf req
    → (b : Buffer) × (after : HttpRequest) × (parse_chunked buf req ≡ returned (b, after))
      × Reading b after
unfolding parse_chunked
parse_chunked-returned buf req r =
    chunk_loop-returned (suc (length (Buffer.content buf))) buf req r (omega arith)
