-- ===== src/Loop/Responding.antt =====
-- How the response of `ResponseHandler::handle` comes into the write buffer of a client of src/EventLoop.
use mathlib.Core.Path.{subst}
use mathlib.Core.List.{append_assoc, append-nil}
use webserer_core.Base.{
  ℕ, ◌+◌, ◌≤◌, ◌<◌, ◌≡◌, refl, ap, sym, ◌∙◌, inl, inr, List, [], ◌∷◌, ◌++◌, some, Bytes, true, leb,
  ltb, arith, Bool-cases, length, length-append, add_size, thrown,
}
use webserer_core.Buffer
use webserer_core.Buffer.{Buffer, append, append_within}
use webserer_core.Buffer.Client.{append-returned}
use webserer_core.Buffer.Growth.{max_vector}
use webserer_core.Buffer.Queue.{IsValid, size-content, length-content}
use webserer_core.Connection.{Connection}
use webserer_core.Handler.Replies.{concat}
use webserer_core.Handler.Serve
use webserer_core.Loop.{Loop, System, client_at}
use webserer_core.Loop.Ended.{done, raised, put_client, append_bytes, append_all}
use webserer_core.Loop.Reads.{respond, with_path}
use webserer_core.Loop.Sending.{on_client-there}
use webserer_core.Loop.Stable.Bodies.{client_at-put}

-- A client's write buffer: what it has, its limit, and that the machine has memory for `more` bytes.
pub record Holds (fd : ℕ) (text : Bytes) (limit more : ℕ) (s : Loop) : Type 0 where
  pub conn : Connection
  pub there : client_at fd s ≡ some conn
  pub valid : IsValid conn.write_buffer
  pub content_is : Buffer.content conn.write_buffer ≡ text
  pub limit_is : (conn.write_buffer).cmbs ≡ limit
  pub memory : length (conn.write_buffer).storage + more ≤ max_vector

append-thrown :
    (src : Bytes) (b : Buffer)
    → IsValid b
    → length b.storage + length src ≤ max_vector
    → length (Buffer.content b) ≤ b.cmbs
    → b.cmbs < length (Buffer.content b) + length src
    → append src b ≡ thrown
unfolding append append_within
append-thrown [] b v f h k = absurd (omega (arith, h, k))
append-thrown (c ∷ cs) b v f h k =
    let size = size-content b v in
    let over : ltb b.cmbs (add_size (Buffer.size b) (length (c ∷ cs))) ≡ true =
      ground (arith, size, f, h, k, v.head_within, length-content b) in
    rw over refl

module _ (fd : ℕ) (limit : ℕ) where
  append_one :
      (src text : Bytes) (more : ℕ) (s : Loop)
      → Holds fd text limit (length src + more) s
      → length text + length src ≤ limit
      → (t : Loop) × (append_bytes fd src s ≡ done t) × Holds fd (text ++ src) limit more t
  unfolding append_bytes
  append_one src text more s h w =
      let b = (h.conn).write_buffer in
      let (d, e, c, v, l, n) =
        append-returned src b h.valid (omega (arith, h.memory))
          (omega (arith, w, ap length h.content_is, h.limit_is)) in
      let next = record (h.conn) { write_buffer = d } in
      (
        put_client fd next s,
        on_client-there fd _ h.conn s h.there ∙ rw e refl,
        record {
          conn = next;
          there = client_at-put fd next s;
          valid = v;
          content_is = c ∙ ap (λ t. t ++ src) h.content_is;
          limit_is = l ∙ h.limit_is;
          memory = omega (arith, n, h.memory);
        },
      )

  append_over :
      (src text : Bytes) (more : ℕ) (s : Loop)
      → Holds fd text limit (length src + more) s
      → length text ≤ limit
      → limit < length text + length src
      → append_bytes fd src s ≡ raised s
  unfolding append_bytes
  append_over src text more s h w k =
      let b = (h.conn).write_buffer in
      let e =
        append-thrown src b h.valid (omega (arith, h.memory))
          (omega (arith, w, ap length h.content_is, h.limit_is))
          (omega (arith, k, ap length h.content_is, h.limit_is)) in
      on_client-there fd _ h.conn s h.there ∙ rw e refl

  -- Texts that fit are appended in order.
  append_all-done :
      (texts : List Bytes) (text : Bytes) (s : Loop)
      → Holds fd text limit (length (concat texts)) s
      → length text + length (concat texts) ≤ limit
      → (t : Loop) × (append_all fd texts s ≡ done t) × Holds fd (text ++ concat texts) limit 0 t
  unfolding append_all
  append_all-done [] text s h w = (s, refl, rw append-nil h)
  append_all-done (src ∷ srcs) text s h w =
      let sum = length-append src (concat srcs) in
      let (t, e, k) =
        append_one src text (length (concat srcs)) s (rw sum at h) (omega (arith, w, sum)) in
      let (u, f, l) =
        append_all-done srcs (text ++ src) t k (omega (arith, w, sum, length-append text src)) in
      (u, rw e f, rw append_assoc at l)

  append_all-raised :
      (texts : List Bytes) (text : Bytes) (s : Loop)
      → Holds fd text limit (length (concat texts)) s
      → length text ≤ limit
      → limit < length text + length (concat texts)
      → (t : Loop) × (append_all fd texts s ≡ raised t)
  unfolding append_all
  append_all-raised [] text s h w k = absurd (omega (arith, w, k))
  append_all-raised (src ∷ srcs) text s h w k =
      let sum = length-append src (concat srcs) in
      let there = rw sum at h in
      elim (Bool-cases (leb (length text + length src) limit)) [
        | inl z ↦
            let (t, e, l) = append_one src text (length (concat srcs)) s there (ground arith) in
            let joined = length-append text src in
            let (u, f) =
              append_all-raised srcs (text ++ src) t l (ground (arith, joined))
                (omega (arith, k, sum, joined)) in
            (u, rw e f)
        | inr z ↦
            (s, rw (append_over src text (length (concat srcs)) s there w (ground arith)) refl)
      ]

-- The texts that `handle` appends for the request of a connection.
abbrev pub response : System → Connection → ℕ → List Bytes
response system conn uploads = (Serve.handle system.files conn.config conn.request uploads).appended

some_injective : {c d : Connection} → some c ≡ some d → c ≡ d
some_injective e = cc

module _ (system : System) (fd limit : ℕ) (conn : Connection) (text : Bytes) (s : Loop)
    (e : client_at fd s ≡ some conn) where
  abbrev answer : Bytes
  answer = concat (response system conn s.uploads)

  abbrev noted : Loop
  noted =
      let reply = Serve.handle system.files conn.config conn.request s.uploads in
      put_client fd (with_path (Serve.path_after system.files conn.config conn.request) conn)
        (record s { uploads = reply.counter; changes = s.changes ++ reply.changes })

  noted-Holds : Holds fd text limit (length answer) s → Holds fd text limit (length answer) noted
  noted-Holds h =
      let same : h.conn ≡ conn = some_injective (sym h.there ∙ e) in
      let buffer = ap (λ c. c.write_buffer) same in
      let moved = with_path (Serve.path_after system.files conn.config conn.request) conn in
      record {
        conn = moved;
        there = client_at-put fd moved s;
        valid = subst IsValid buffer h.valid;
        content_is = ap Buffer.content (sym buffer) ∙ h.content_is;
        limit_is = ap (λ b. b.cmbs) (sym buffer) ∙ h.limit_is;
        memory = subst (λ b. length b.storage + length answer ≤ max_vector) buffer h.memory;
      }

  -- A response that `ResponseHandler::handle` makes for a client comes into the write buffer whole and in
  -- order, behind what is there, if both together are within the buffer's limit; otherwise, where the
  -- buffer is not over its limit before, the call throws `BodyLimitException`.
  pub respond-Holds :
      Holds fd text limit (length answer) s
      → length text ≤ limit
      → (length text + length answer ≤ limit
          → (t : Loop) × (respond system fd s ≡ done t) × Holds fd (text ++ answer) limit 0 t)
        × (limit < length text + length answer → (t : Loop) × (respond system fd s ≡ raised t))
  unfolding respond
  respond-Holds h w =
      let texts = response system conn s.uploads in
      (
        λ k.
            let (t, f, l) = append_all-done fd limit texts text noted (noted-Holds h) k in
            (t, on_client-there fd _ conn s e ∙ f, l),
        λ k.
            let (t, f) = append_all-raised fd limit texts text noted (noted-Holds h) w k in
            (t, on_client-there fd _ conn s e ∙ f),
      )
