-- ===== src/Buffer/Client.antt =====
-- What the parser relies on of the buffer of src/Buffer.cpp.
use mathlib.Core.List.{append-nil}
use webserer_core.Base.{
  ℕ, ◌+◌, ◌≤◌, ◌≡◌, [], ◌∷◌, ◌++◌, ap, ◌∙◌, sym, arith, Bytes, length, returned,
  outcome_map-returned, length-drop,
}
use webserer_core.Buffer.Growth.{max_vector}
use webserer_core.Buffer.Queue.{
  IsValid, Fits, push, append_within-push, append_within-IsValid, consume-IsValid, moved,
}
use webserer_core.Buffer.{Buffer, content, append, append_within, consume, maybe_compact}

push-within :
    (limit : ℕ) (src q : Bytes)
    → length q + length src ≤ limit
    → push limit src q ≡ returned (q ++ src)
unfolding push
push-within limit [] q h = ap returned (sym (append-nil q))
push-within limit (c ∷ cs) q h = ground arith

-- An append within the limit returns a buffer with the bytes at its end.
pub append-returned :
    (src : Bytes) (b : Buffer)
    → IsValid b
    → Fits src b
    → length (content b) + length src ≤ b.cmbs
    → (d : Buffer) × (append src b ≡ returned d)
      × (content d ≡ content b ++ src)
      × IsValid d
      × (d.cmbs ≡ b.cmbs)
      × (length d.storage ≤ length b.storage + length src)
unfolding append
append-returned src b v f h =
    let (d, e, c) =
      outcome_map-returned content (append_within b.cmbs src b)
        (append_within-push b.cmbs src b v f ∙ push-within b.cmbs src (content b) h) in
    let (w, k, n) = append_within-IsValid b.cmbs src b v f e in (d, e, c, w, k, n)

-- A well-formed buffer of a size that a vector can have.
pub record Sound (b : Buffer) : Type 0 where
  pub valid : IsValid b
  pub small : length b.storage ≤ max_vector

length-consume : (n : ℕ) (b : Buffer) → length (consume n b).storage ≤ length b.storage
unfolding consume maybe_compact
length-consume n b = ground (arith, length-drop (moved n b).head b.storage)

pub consume-Sound : (n : ℕ) (b : Buffer) → Sound b → Sound (consume n b)
consume-Sound n b s = record {
  valid = consume-IsValid n b s.valid s.small;
  small = omega (arith, length-consume n b, s.small);
}
