-- ===== src/Buffer.antt =====
-- src/Buffer.cpp: a byte queue over a vector with a read offset.
-- `capacity` follows `std::vector`: `reserve` and `resize` never lower it.
pub mod Growth
pub mod Queue
pub mod Client
use webserer_core.Base.{
  ℕ, zero, suc, ◌+◌, ◌*◌, ◌/◌, ◌%◌, Bool, ◌&&◌, [], ◌++◌, Option, none, some, ltb, leb, ◌==◌,
  if◌then◌else◌, size_mod, add_size, sub_size, Bytes, length, drop, is_nil, Outcome, returned,
  thrown, hung,
}
use Prim.Native.Nat.{max}

pub record Buffer : Type 0 where
  pub cmbs : ℕ
  pub storage : Bytes
  pub head : ℕ
  pub capacity : ℕ

-- LimitRequestBody
abbrev pub limit_request_body : ℕ
limit_request_body = 20971520

abbrev pub initial_capacity : ℕ → ℕ
initial_capacity cmbs = if ltb cmbs 65536 && ltb 0 cmbs then cmbs else 65536

unfoldable pub create : ℕ → Buffer
create client_max_body_size = record {
  cmbs = client_max_body_size;
  storage = [];
  head = 0;
  capacity = initial_capacity client_max_body_size;
}

unfoldable pub size : Buffer → ℕ
size b = sub_size (length b.storage) b.head

unfoldable pub is_empty : Buffer → Bool
unfolding size
is_empty b = size b == 0

-- What `data()` points at, up to the end of the vector. Behind `earase` with an offset above 0 the code
-- has no such bytes: `data()` is NULL there, and `size()` wraps.
unfoldable pub content : Buffer → Bytes
content b = drop b.head b.storage

unfoldable pub compact : Buffer → Buffer
compact b = if b.head == 0 then b else record b { storage = drop b.head b.storage; head = 0 }

-- The loop of `_ensureCapacity`; `none` when the rounds run out.
unfoldable pub grow : ℕ → ℕ → ℕ → ℕ → Option ℕ
grow zero cmbs needed cap = if ltb cap needed then none else some cap
grow (suc rounds) cmbs needed cap =
    let doubled = (cap * 2) % size_mod in
    let rest = grow rounds cmbs needed doubled in
    if ltb cap needed then (if ltb cmbs doubled then some cmbs else rest) else some cap

-- `_storage.reserve(cap)`
abbrev reserve : ℕ → Buffer → Buffer
reserve cap b = record b { capacity = max b.capacity cap }

-- `_ensureCapacity`, with `needed` rounds for its loop.
unfoldable pub ensure_capacity : ℕ → Buffer → Outcome Buffer
ensure_capacity needed b = elim (grow needed b.cmbs needed b.capacity) [
  | none ↦ hung
  | some cap ↦ returned (reserve cap b)
]

-- `resize` and `memcpy`
unfoldable pub extend : Bytes → Buffer → Buffer
extend src b =
    let joined = b.storage ++ src in
    record b { storage = joined; capacity = max b.capacity (length joined) }

unfoldable pub maybe_compact : Buffer → Buffer
unfolding compact
maybe_compact b = if ltb 0 b.head && leb (length b.storage / 2) b.head then compact b else b

-- `append` and `append_result`, which differ in the limit alone.
unfoldable pub append_within : ℕ → Bytes → Buffer → Outcome Buffer
append_within limit src b =
    if is_nil src
    then returned b
    else if ltb limit (add_size (size b) (length src))
    then thrown
    else let c = maybe_compact b in
      elim (ensure_capacity (length c.storage + length src) c) [
        | returned d ↦ returned (extend src d)
        | thrown ↦ thrown
        | hung ↦ hung
      ]

unfoldable pub append : Bytes → Buffer → Outcome Buffer
append src b = append_within b.cmbs src b

unfoldable pub append_result : Bytes → Buffer → Outcome Buffer
append_result src b = append_within limit_request_body src b

unfoldable pub reset : Buffer → Buffer
reset b = record b { storage = []; head = 0; capacity = initial_capacity b.cmbs }

unfoldable pub consume : ℕ → Buffer → Buffer
unfolding size maybe_compact reset
consume n b =
    let moved = record b { head = add_size b.head (if ltb (size b) n then size b else n) } in
    let c = maybe_compact moved in if c.head == length c.storage then reset c else c

-- `earase` swaps the vector out and leaves the offset alone.
unfoldable pub earase : Buffer → Buffer
earase b = record b { storage = []; capacity = 0 }

unfoldable pub set_max_size : ℕ → Buffer → Buffer
set_max_size new_max b = record b { cmbs = new_max }
