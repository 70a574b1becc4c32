-- ===== src/Buffer/Growth.antt =====
-- The loop of `_ensureCapacity` in src/Buffer.cpp: when it ends.
use webserer_core.Base.{
  ℕ, zero, suc, ◌+◌, ◌*◌, ◌%◌, ◌≤◌, ◌<◌, ◌^◌, ◌≡◌, ◌≢◌, none, arith, Bytes, length, is_nil, hung,
  returned, inl, inr, ◌∷◌, [], Option-cases, false, size_mod,
}
use Prim.Native.Nat.{max}
use webserer_core.Buffer.{
  Buffer, grow, ensure_capacity, maybe_compact, append, append_within, earase, size,
}

-- The bytes that a `std::vector<char>` can hold.
abbrev pub max_vector : ℕ
max_vector = 2 ^ 63

grow-ne-none :
    (rounds cmbs needed cap : ℕ)
    → 0 < cap
    → needed ≤ cap + rounds
    → needed ≤ max_vector
    → grow rounds cmbs needed cap ≢ none
unfolding grow
grow-ne-none zero cmbs needed cap p h m = ground arith
grow-ne-none (suc rounds) cmbs needed cap p h m =
    ground (arith, grow-ne-none rounds cmbs needed ((cap * 2) % size_mod))

-- With a positive capacity the loop of `_ensureCapacity` ends, and only the capacity grows.
pub ensure_capacity_total :
    (needed : ℕ) (b : Buffer)
    → 0 < b.capacity
    → needed ≤ max_vector
    → (cap : ℕ) × (ensure_capacity needed b ≡ returned (record b { capacity = max b.capacity cap }))
unfolding ensure_capacity
ensure_capacity_total needed b p m = elim (Option-cases (grow needed b.cmbs needed b.capacity)) [
  | inl e ↦ absurd (grow-ne-none needed b.cmbs needed b.capacity p (omega arith) m e)
  | inr (cap, e) ↦ (cap, rw (e, ensure_capacity))
]

-- A vector with no capacity never gets one: the loop ends on no number of rounds.
pub grow-zero : (rounds cmbs needed : ℕ) → 0 < needed → grow rounds cmbs needed 0 ≡ none
unfolding grow
grow-zero zero cmbs needed h = ground arith
grow-zero (suc rounds) cmbs needed h = ground (arith, grow-zero rounds cmbs needed h)

-- Once `earase` has swapped the vector out of a buffer whose offset is 0, an append of at least one
-- byte within the limit never ends.
pub append-earase :
    (src : Bytes) (b : Buffer)
    → b.head ≡ 0
    → is_nil src ≡ false
    → length src ≤ b.cmbs
    → length src ≤ max_vector
    → append src (earase b) ≡ hung
unfolding append append_within earase size maybe_compact ensure_capacity
append-earase [] b h n m w = ground arith
append-earase (c ∷ cs) b h n m w =
    ground (arith, grow-zero (suc (length cs)) b.cmbs (suc (length cs)) (omega arith))
