-- ===== src/Handler/Upload.antt =====
-- The names that src/ResponseHandler.cpp gives to uploaded files.
use webserer_core.Base.{
  ℕ, zero, suc, ◌+◌, ◌/◌, ◌%◌, ◌≤◌, ◌≡◌, refl, false, ◌||◌, [], ◌∷◌, ◌++◌, arith, Bytes, codes,
  is_nil, equal, length, ltb, ◌==◌, Bool-cases, inl, inr,
}
use mathlib.Core.Path.{subst}
use webserer_core.Config.Match.{All, All-++}
use webserer_core.Handler.{behind_slashes, sanitize_filename}
use webserer_core.Handler.Replies.{digits, print_nat}

-- No slash and no backslash is in the text.
abbrev pub Flat : Bytes → Type 0
Flat = All (λ c. (c == b'/' || c == 92) ≡ false)

pub Flat-++ : (xs ys : Bytes) → Flat xs → Flat ys → Flat (xs ++ ys)
Flat-++ = All-++ (λ c. (c == b'/' || c == 92) ≡ false)

behind_slashes-length : (s : Bytes) → length (behind_slashes s) ≤ length s
unfolding behind_slashes
behind_slashes-length [] = omega arith
behind_slashes-length (c ∷ cs) = ground (arith, behind_slashes-length cs)

behind_slashes-same : (s : Bytes) → length (behind_slashes s) ≡ length s → behind_slashes s ≡ s
unfolding behind_slashes
behind_slashes-same [] e = refl
behind_slashes-same (c ∷ cs) e = ground (arith, behind_slashes-length cs)

behind_slashes-Flat : (s : Bytes) → Flat (behind_slashes s)
unfolding behind_slashes
behind_slashes-Flat [] = tt
behind_slashes-Flat (c ∷ cs) = elim (Bool-cases (length (behind_slashes cs) == length cs)) [
  | inr e ↦ rw e (behind_slashes-Flat cs)
  | inl e ↦
      let h : Flat cs =
        subst Flat (behind_slashes-same cs (ground arith)) (behind_slashes-Flat cs) in
      elim (Bool-cases (c == b'/' || c == 92)) [ inl k ↦ rw (e, k) h | inr k ↦ rw (e, k) (k, h) ]
]

-- What `sanitizeFilename` makes of a name has no slash and no backslash in it, and is neither one dot
-- nor two.
pub sanitize_filename-Flat :
    (raw : Bytes)
    → Flat (sanitize_filename raw)
      × (equal (sanitize_filename raw) (codes ".") ≡ false)
      × (equal (sanitize_filename raw) (codes "..") ≡ false)
unfolding sanitize_filename
sanitize_filename-Flat raw =
    let name = behind_slashes raw in
    elim (Bool-cases (is_nil name || equal name (codes ".") || equal name (codes ".."))) [
      | inl e ↦ rw e (tt, unfold equal in refl, unfold equal in refl)
      | inr e ↦ rw e (behind_slashes-Flat raw, (ground arith), (ground arith))
    ]

digits-Flat : (rounds n : ℕ) (behind : Bytes) → Flat behind → Flat (digits rounds n behind)
unfolding digits
digits-Flat zero n behind h = h
digits-Flat (suc rounds) n behind h =
    let k : Flat ((b'0' + n % 10) ∷ behind) = ((ground arith), h) in
    let r = digits-Flat rounds (n / 10) ((b'0' + n % 10) ∷ behind) k in
    elim (Bool-cases (ltb n 10)) [ inl e ↦ rw e k | inr e ↦ rw e r ]

pub print_nat-Flat : (n : ℕ) → Flat (print_nat n)
unfolding print_nat
print_nat-Flat n = digits-Flat 20 n [] tt
