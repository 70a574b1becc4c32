-- ===== src/Cgi/Args.antt =====
-- The arguments that `buildCgiArgs` of cgi/CgiHandler.cpp makes of a query.
use mathlib.Core.List.{append_assoc}
use webserer_core.Base.{
  ◌≡◌, refl, false, List, [], ◌∷◌, ◌++◌, Bytes, Every, not, none, is_nil, take, drop, ◌==◌, inl,
  inr, Bool-cases, arith,
}
use webserer_core.Cgi.{has_equals, split_plus, build_cgi_args}
use webserer_core.Target.{find_byte}
use webserer_core.Config.Match.{All, All-++}

-- Each word behind a plus sign.
abbrev pub plus_each : List Bytes → Bytes
plus_each [] = []
plus_each (w ∷ ws) = b'+' ∷ w ++ plus_each ws

abbrev pub NoPlus : Bytes → Type 0
NoPlus = All (λ c. (c == b'+') ≡ false)

find_byte-none : (s : Bytes) → Every (λ c. not (c == b'=')) s → find_byte b'=' s ≡ none
unfolding find_byte
find_byte-none [] h = refl
find_byte-none (c ∷ cs) h =
    let k : (c == b'=') ≡ false = ground (arith, h.0) in rw (k, find_byte-none cs h.1) refl

plus_each-split_plus_from : (word cs : Bytes) → plus_each (split_plus word cs) ≡ b'+' ∷ word ++ cs
unfolding split_plus
plus_each-split_plus_from word [] = refl
plus_each-split_plus_from word (c ∷ cs) = elim (Bool-cases (c == b'+')) [
  | inl e ↦ let k : c ≡ b'+' = ground arith in rw (e, plus_each-split_plus_from [] cs, k) refl
  | inr e ↦ rw (e, plus_each-split_plus_from (word ++ c ∷ []) cs, append_assoc) refl
]

split_plus-NoPlus_from : (word cs : Bytes) → NoPlus word → All NoPlus (split_plus word cs)
unfolding split_plus
split_plus-NoPlus_from word [] h = (h, tt)
split_plus-NoPlus_from word (c ∷ cs) h = elim (Bool-cases (c == b'+')) [
  | inl e ↦ rw e (h, split_plus-NoPlus_from [] cs tt)
  | inr e ↦ rw e (
      split_plus-NoPlus_from (word ++ c ∷ []) cs
        (All-++ (λ d. (d == b'+') ≡ false) word (c ∷ []) h (e, tt)))
]

-- A query without an equals sign that is not empty is passed on as arguments behind the program and
-- the script: words without a plus sign that give the query again when plus signs are put between
-- them.
pub plus_each-build_cgi_args :
    (program script query : Bytes)
    → is_nil query ≡ false
    → Every (λ c. not (c == b'=')) query
    → let args = build_cgi_args program script query in
      (take 2 args ≡ program ∷ script ∷ [])
      × (plus_each (drop 2 args) ≡ b'+' ∷ query)
      × All NoPlus (drop 2 args)
unfolding build_cgi_args
plus_each-build_cgi_args program script query some_query no_equals =
    let none_found : has_equals query ≡ false =
      rw (has_equals, find_byte-none query no_equals) refl in
    rw (some_query, none_found)
      (refl, plus_each-split_plus_from [] query, split_plus-NoPlus_from [] query tt)
