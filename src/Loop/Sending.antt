-- ===== src/Loop/Sending.antt =====
-- The loop of `send` calls in `_handleWrite` of src/EventLoop/EventLoop_helper_handlers.cpp, and responses
-- that are appended for it.
use webserer_core.Base.{
  ℕ, zero, suc, ◌+◌, ◌≤◌, ◌<◌, ◌≡◌, ◌≢◌, refl, ap, ◌∙◌, inl, inr, none, some, Bytes, true, false,
  ltb, ◌==◌, ◌-◌, ◌⊎◌, if◌then◌else◌, arith, Option-cases, Bool-cases, length, drop, drop-drop,
  length-drop,
}
use webserer_core.Buffer
use webserer_core.Buffer.{Buffer}
use webserer_core.Buffer.Client.{Sound, consume-Sound}
use webserer_core.Buffer.Queue.{size-content, content-consume}
use webserer_core.Connection
use webserer_core.Connection.{Connection}
use webserer_core.Loop.{Loop, System, client_at, ask}
use webserer_core.Loop.Ended.{Ended, done, on_client, put_client}
use webserer_core.Loop.Stable.Bodies.{client_at-put}
use webserer_core.Loop.Writes.{send_loop}

-- How many of `size` bytes the system takes in calls of `send` from the answer `asked` on, one after
-- another until one fails or no byte is left.
unfoldable pub accepted : System → ℕ → ℕ → ℕ → ℕ → ℕ
accepted system fd zero asked size = 0
accepted system fd (suc calls) asked size = if size == 0 then 0 else elim (system.sends asked fd) [
  | none ↦ 0
  | some n ↦ n + accepted system fd calls (suc asked) (size - n)
]

-- Of `text`, the client's write buffer has left what is behind the `taken` bytes that the system took,
-- and it is empty or the last answer of the system was a failure.
pub record Sent (system : System) (fd taken : ℕ) (text : Bytes) (s : Loop) : Type 0 where
  pub conn : Connection
  pub there : client_at fd s ≡ some conn
  pub sound : Sound conn.write_buffer
  pub left : Buffer.content conn.write_buffer ≡ drop taken text
  pub stops :
      (Buffer.is_empty conn.write_buffer ≡ true)
      ⊎ ((last : ℕ) × (s.asked ≡ suc last) × (system.sends last fd ≡ none))

-- A `send` that does not fail takes a byte at least.
abbrev pub Sends : System → Type 0
Sends system = (asked fd n : ℕ) → system.sends asked fd ≡ some n → 0 < n

pub on_client-there :
    (fd : ℕ) (f : Connection → Ended) (conn : Connection) (s : Loop)
    → client_at fd s ≡ some conn
    → on_client fd f s ≡ f conn
unfolding on_client
on_client-there fd f conn s e = rw (on_client, e) refl

module _ (system : System) (fd : ℕ) where
  sent_now :
      (n : ℕ) (conn : Connection)
      → Buffer.is_empty conn.write_buffer ≡ false
      → 0 < n
      → (Connection.send system.now n conn).write_buffer ≡ Buffer.consume n conn.write_buffer
  unfolding Connection.send
  sent_now n conn e h = let k : ltb 0 n ≡ true = ground (arith, h) in rw (e, k) refl

  shorter :
      (n : ℕ) (b : Buffer)
      → Sound b
      → 0 < n
      → Buffer.is_empty b ≡ false
      → Buffer.size (Buffer.consume n b) < Buffer.size b
  unfolding Buffer.is_empty
  shorter n b v h e =
      let some_bytes : Buffer.size b ≢ 0 = ground (arith, e) in
      omega (
        arith,
        h,
        some_bytes,
        size-content b v.valid,
        size-content (Buffer.consume n b) (consume-Sound n b v).valid,
        ap length (content-consume n b v.valid v.small),
        length-drop n (Buffer.content b),
      )

  accepted_none : (calls asked : ℕ) → accepted system fd calls asked 0 ≡ 0
  unfolding accepted
  accepted_none zero asked = refl
  accepted_none (suc calls) asked = refl

  nothing_left :
      (rounds : ℕ) (conn : Connection) (s : Loop)
      → client_at fd s ≡ some conn
      → Sound conn.write_buffer
      → Buffer.is_empty conn.write_buffer ≡ true
      → Sent system fd
          (accepted system fd rounds s.asked (Buffer.size conn.write_buffer))
          (Buffer.content conn.write_buffer)
          s
  unfolding Buffer.is_empty
  nothing_left rounds conn s e v z =
      let none_left : Buffer.size conn.write_buffer ≡ 0 = ground (arith, z) in
      record {
        conn = conn;
        there = e;
        sound = v;
        left = rw (none_left, accepted_none rounds s.asked) refl;
        stops = inl z;
      }

  size_left : (n : ℕ) (b : Buffer) → Sound b → Buffer.size (Buffer.consume n b) ≡ Buffer.size b - n
  size_left n b v = omega (
    arith,
    size-content b v.valid,
    size-content (Buffer.consume n b) (consume-Sound n b v).valid,
    ap length (content-consume n b v.valid v.small),
    length-drop n (Buffer.content b),
  )

  send_loop-Sent_from :
      (rounds : ℕ) (conn : Connection) (s : Loop)
      → Sends system
      → client_at fd s ≡ some conn
      → Sound conn.write_buffer
      → Buffer.size conn.write_buffer ≤ rounds
      → (t : Loop) × (send_loop system rounds fd s ≡ done t)
        × Sent system fd
            (accepted system fd rounds s.asked (Buffer.size conn.write_buffer))
            (Buffer.content conn.write_buffer)
            t
  unfolding send_loop accepted
  send_loop-Sent_from zero conn s p e v h =
      let empty : Buffer.is_empty conn.write_buffer ≡ true =
        unfold Buffer.is_empty in ground (arith, h) in
      (s, on_client-there fd _ conn s e ∙ rw empty refl, nothing_left zero conn s e v empty)
  send_loop-Sent_from (suc rounds) conn s p e v h =
      let b = conn.write_buffer in
      elim (Bool-cases (Buffer.is_empty b)) [
        | inl z ↦
            (s, on_client-there fd _ conn s e ∙ rw z refl, nothing_left (suc rounds) conn s e v z)
        | inr z ↦
            let some_bytes : (Buffer.size b == 0) ≡ false = unfold Buffer.is_empty in z in
            elim (Option-cases (system.sends s.asked fd)) [
              | inl y ↦ (
                ask s,
                on_client-there fd _ conn s e ∙ rw (z, y) refl,
                record {
                  conn = conn;
                  there = e;
                  sound = v;
                  left = rw (some_bytes, y) refl;
                  stops = inr (s.asked, refl, y);
                },
              )
              | inr (n, y) ↦
                  let positive = p s.asked fd n y in
                  let next = Connection.send system.now n conn in
                  let k = sent_now n conn z positive in
                  let less = shorter n b v positive z in
                  let (t, ends, sent) =
                    send_loop-Sent_from rounds next (put_client fd next (ask s)) p
                      (client_at-put fd next (ask s)) (rw k (consume-Sound n b v))
                      (rw k (omega (arith, less, h))) in
                  let later = accepted system fd rounds (suc s.asked) (Buffer.size b - n) in
                  let same_size : Buffer.size next.write_buffer ≡ Buffer.size b - n =
                    ap Buffer.size k ∙ size_left n b v in
                  (
                    t,
                    on_client-there fd _ conn s e ∙ rw (z, y) ends,
                    record {
                      conn = sent.conn;
                      there = sent.there;
                      sound = sent.sound;
                      left =
                          rw (some_bytes, y)
                            (sent.left
                              ∙ ap
                                  (λ m.
                                    drop (accepted system fd rounds (suc s.asked) m)
                                      (Buffer.content next.write_buffer))
                                  same_size
                              ∙ ap (drop later)
                                  (ap Buffer.content k ∙ content-consume n b v.valid v.small)
                              ∙ drop-drop later n (Buffer.content b));
                      stops = sent.stops;
                    },
                  )
            ]
      ]

-- If no `send` that succeeds takes nothing, the loop of `_handleWrite` ends after at most as many calls as
-- the write buffer has bytes, without an exception, when the buffer is empty or a call fails. What
-- the buffer has then is what it had, without as many bytes at its front as the calls took in all:
-- no byte that was not sent is gone, and none that was sent is left.
pub send_loop-Sent :
    (system : System) (fd : ℕ) (conn : Connection) (s : Loop)
    → Sends system
    → client_at fd s ≡ some conn
    → Sound conn.write_buffer
    → let size = Buffer.size conn.write_buffer in
      (t : Loop) × (send_loop system size fd s ≡ done t)
      × Sent system fd (accepted system fd size s.asked size) (Buffer.content conn.write_buffer) t
send_loop-Sent system fd conn s p e v =
    send_loop-Sent_from system fd (Buffer.size conn.write_buffer) conn s p e v (omega arith)
