-- ===== src/Buffer/Queue.antt =====
-- The buffer of src/Buffer.cpp as a bounded byte queue: what its clients see.
use webserer_core.Base.{
  ℕ, ◌+◌, ◌-◌, ◌≤◌, ◌<◌, ◌≡◌, ◌++◌, arith, Bytes, length, drop, if◌then◌else◌, ltb, ◌==◌, is_nil,
  Outcome, returned, thrown, outcome_map, length-drop, drop-append_le, drop-drop, drop_all,
  length-append, false, inl, inr, Bool-cases, sym, ◌∙◌, ap, add_size,
}
use Prim.Native.Nat.{max}
use webserer_core.Buffer.{
  Buffer, content, size, maybe_compact, extend, append_within, consume, reset, create,
}
use webserer_core.Buffer.Growth.{max_vector, ensure_capacity_total}

pub record IsValid (b : Buffer) : Type 0 where
  pub head_within : b.head ≤ length b.storage
  pub stored : length b.storage ≤ b.capacity
  pub roomy : 0 < b.capacity

pub size-content : (b : Buffer) → IsValid b → size b ≡ length (content b)
unfolding size content
size-content b v = ground (arith, length-drop b.head b.storage)

pub length-content : (b : Buffer) → length (content b) ≡ length b.storage - b.head
unfolding content
length-content b = length-drop b.head b.storage

content-maybe_compact : (b : Buffer) → content (maybe_compact b) ≡ content b
unfolding content maybe_compact
content-maybe_compact b = ground arith

maybe_compact-IsValid : (b : Buffer) → IsValid b → IsValid (maybe_compact b)
unfolding maybe_compact
maybe_compact-IsValid b v = ground (arith, length-drop b.head b.storage)

-- The bounded queue that the buffer stands for.
unfoldable pub push : ℕ → Bytes → Bytes → Outcome Bytes
push limit src q =
    if is_nil src
    then returned q
    else if ltb limit (length q + length src)
    then thrown
    else returned (q ++ src)

module _ (src : Bytes) (b : Buffer) (v : IsValid b) where
  extended : ℕ → Buffer
  extended cap = let c = maybe_compact b in extend src (record c { capacity = max c.capacity cap })

  extended-IsValid : (cap : ℕ) → IsValid (extended cap)
  unfolding extended extend
  extended-IsValid cap =
      ground (arith, maybe_compact-IsValid b v, length-append (maybe_compact b).storage src)

  content-extended : (cap : ℕ) → content (extended cap) ≡ content b ++ src
  unfolding extended extend
  content-extended cap =
      let w = maybe_compact-IsValid b v in
      unfold content in
      drop-append_le (maybe_compact b).head (maybe_compact b).storage src w.head_within
      ∙ ap (λ q. q ++ src) (content-maybe_compact b)

  extended-cmbs : (cap : ℕ) → (extended cap).cmbs ≡ b.cmbs
  unfolding extended extend maybe_compact
  extended-cmbs cap = ground arith

  length-extended : (cap : ℕ) → length (extended cap).storage ≤ length b.storage + length src
  unfolding extended extend maybe_compact
  length-extended cap = ground (
    arith,
    length-append (drop b.head b.storage) src,
    length-append b.storage src,
    length-drop b.head b.storage,
  )

-- No sum of lengths leaves what a vector can hold.
abbrev pub Fits : Bytes → Buffer → Type 0
Fits src b = length b.storage + length src ≤ max_vector

module _ (limit : ℕ) (src : Bytes) (b : Buffer) (v : IsValid b) (f : Fits src b) where
  length-maybe_compact : length (maybe_compact b).storage ≤ length b.storage
  unfolding maybe_compact
  length-maybe_compact = ground (arith, length-drop b.head b.storage)

  add_size-content : add_size (size b) (length src) ≡ length (content b) + length src
  add_size-content = omega (arith, size-content b v, length-content b)

  append_within-extended :
      is_nil src ≡ false
      → ltb limit (add_size (size b) (length src)) ≡ false
      → (cap : ℕ) × (append_within limit src b ≡ returned (extended src b v cap))
  append_within-extended n h =
      let (cap, e) =
        ensure_capacity_total (length (maybe_compact b).storage + length src) (maybe_compact b)
          (maybe_compact-IsValid b v).roomy (omega (arith, length-maybe_compact)) in
      (cap, unfold append_within extended in rw (n, h, e))

  -- For a well-formed buffer and bytes that a vector has room for, an append does to the live bytes
  -- what the bounded queue does, and ends: it throws exactly when the limit would be passed.
  pub append_within-push :
      outcome_map content (append_within limit src b) ≡ push limit src (content b)
  append_within-push = elim (Bool-cases (is_nil src)) [
    | inl e ↦ unfold append_within push in rw e
    | inr n ↦ elim (Bool-cases (ltb limit (add_size (size b) (length src)))) [
      | inl e ↦ unfold append_within push in rw (← add_size-content, n, e)
      | inr e ↦
          let (cap, r) = append_within-extended n e in
          rw (r, content-extended src b v cap) (unfold push in rw (← add_size-content, n, e))
    ]
  ]

-- An append to a well-formed buffer, of bytes that a vector has room for, leaves a well-formed
-- buffer with the same bound if it returns, and its vector grows by no more than the bytes.
pub append_within-IsValid :
    (limit : ℕ) (src : Bytes) (b : Buffer) {d : Buffer}
    → IsValid b
    → Fits src b
    → append_within limit src b ≡ returned d
    → IsValid d × (d.cmbs ≡ b.cmbs) × (length d.storage ≤ length b.storage + length src)
append_within-IsValid limit src b v f e = elim (Bool-cases (is_nil src)) [
  | inl n ↦ unfold append_within in ground arith
  | inr n ↦ elim (Bool-cases (ltb limit (add_size (size b) (length src)))) [
    | inl t ↦ unfold append_within in ground arith
    | inr t ↦
        let (cap, r) = append_within-extended limit src b v f n t in
        ground (
          arith,
          extended-IsValid src b v cap,
          extended-cmbs src b v cap,
          length-extended src b v cap,
        )
  ]
]

pub reset-IsValid : (b : Buffer) → IsValid (reset b)
unfolding reset
reset-IsValid b = ground arith

pub create-IsValid : (n : ℕ) → IsValid (create n)
unfolding create
create-IsValid n = ground arith

-- The end of `consume`.
abbrev tidy : Buffer → Buffer
tidy c = if c.head == length c.storage then reset c else c

tidy-content : (c : Buffer) → content (tidy c) ≡ content c
unfolding content reset
tidy-content c = elim (Bool-cases (c.head == length c.storage)) [
  | inl e ↦ rw e (sym (drop_all c.head c.storage (ground arith)))
  | inr e ↦ rw e
]

-- What `consume` has moved before it tidies up.
abbrev pub moved : ℕ → Buffer → Buffer
moved n b = record b { head = add_size b.head (if ltb (size b) n then size b else n) }

module _ (n : ℕ) (b : Buffer) (v : IsValid b) (m : length b.storage ≤ max_vector) where
  moved-head : (moved n b).head ≡ b.head + (if ltb (size b) n then size b else n)
  moved-head = ground (arith, size-content b v, length-content b)

  moved-IsValid : IsValid (moved n b)
  moved-IsValid = ground (arith, size-content b v, length-content b, moved-head)

  drop-clamped : drop (if ltb (size b) n then size b else n) (content b) ≡ drop n (content b)
  drop-clamped = elim (Bool-cases (ltb (size b) n)) [
    | inl e ↦ rw e (
        drop_all (size b) (content b) (omega (arith, size-content b v))
        ∙ sym (drop_all n (content b) (ground (arith, size-content b v))))
    | inr e ↦ rw e
  ]

  content-moved : content (moved n b) ≡ drop n (content b)
  unfolding content
  content-moved =
      ap (λ h. drop h b.storage) moved-head
      ∙ sym (drop-drop (if ltb (size b) n then size b else n) b.head b.storage)
      ∙ drop-clamped

  -- `consume` drops the first bytes of a well-formed buffer, all of them if there are fewer.
  pub content-consume : content (consume n b) ≡ drop n (content b)
  unfolding consume
  content-consume =
      tidy-content (maybe_compact (moved n b)) ∙ content-maybe_compact (moved n b) ∙ content-moved

  -- `consume` keeps a buffer well formed, however much it is asked to drop.
  pub consume-IsValid : IsValid (consume n b)
  unfolding consume
  consume-IsValid = ground (
    arith,
    maybe_compact-IsValid (moved n b) moved-IsValid,
    reset-IsValid (maybe_compact (moved n b)),
  )
