-- ===== src/Lexing/OnePass.antt =====
-- The passes over a configuration file in conf/parsing.cpp, and a lexer that reads it once.
use webserer_core.Base.{
  ℕ, ◌≡◌, refl, Bool, true, false, not, ◌&&◌, inl, inr, List, [], ◌∷◌, ◌++◌, ap, ◌∙◌, arith, Bytes,
  is_nil, ◌==◌, if◌then◌else◌, Bool-cases, Outcome, returned, thrown, hung, outcome_map,
}
use webserer_core.Lexing.{
  is_space, is_quote, is_mark, strip_comments, remove_comments, collapse, drop_last_space,
  drop_first_space, refactoring_buffer, insert_space, push_token, split_spaces, storing_in_vec,
}

-- The texts between spaces; `tmp` is the one being read.
pub words : Bytes → Bytes → List Bytes
words tmp [] = push_token tmp []
words tmp (c ∷ cs) =
    let fresh = words [] cs in
    let more = words (tmp ++ c ∷ []) cs in if is_space c then push_token tmp fresh else more

split_spaces-collapse :
    (after : Bool) (tmp s : Bytes)
    → (after && not (is_nil tmp)) ≡ false
    → split_spaces tmp (collapse after s) ≡ words tmp s
unfolding split_spaces collapse words is_space
split_spaces-collapse after tmp [] h = refl
split_spaces-collapse true [] (c ∷ cs) h =
    ground
      (arith, split_spaces-collapse true [] cs refl, split_spaces-collapse false (c ∷ []) cs refl)
split_spaces-collapse true (x ∷ tmp) (c ∷ cs) h = cc
split_spaces-collapse false [] (c ∷ cs) h =
    ground
      (arith, split_spaces-collapse true [] cs refl, split_spaces-collapse false (c ∷ []) cs refl)
split_spaces-collapse false (x ∷ tmp) (c ∷ cs) h = ground (
  arith,
  split_spaces-collapse true [] cs refl,
  split_spaces-collapse false (x ∷ (tmp ++ c ∷ [])) cs refl,
)

split_spaces-drop_last_space :
    (tmp s : Bytes) → split_spaces tmp (drop_last_space s) ≡ split_spaces tmp s
unfolding split_spaces drop_last_space
split_spaces-drop_last_space tmp [] = refl
split_spaces-drop_last_space tmp (c ∷ []) = ground arith
split_spaces-drop_last_space tmp (c ∷ d ∷ cs) = ground (
  arith,
  split_spaces-drop_last_space [] (d ∷ cs),
  split_spaces-drop_last_space (tmp ++ c ∷ []) (d ∷ cs),
)

split_spaces-drop_first_space :
    (s : Bytes) → split_spaces [] (drop_first_space s) ≡ split_spaces [] s
unfolding split_spaces drop_first_space
split_spaces-drop_first_space [] = refl
split_spaces-drop_first_space (c ∷ cs) = ground arith

-- The tokens of a text do not change when its spaces are put in order.
pub storing_in_vec-refactoring_buffer :
    (s : Bytes) → storing_in_vec (refactoring_buffer s) ≡ words [] s
unfolding storing_in_vec refactoring_buffer
storing_in_vec-refactoring_buffer s =
    split_spaces-drop_first_space (drop_last_space (collapse false s))
    ∙ split_spaces-drop_last_space [] (collapse false s)
    ∙ split_spaces-collapse false [] s refl

-- A lexer that reads a text once: `inside` a comment, with `tmp` read of a token. Marks are tokens
-- of their own, a `#` where a token may begin starts a comment, and a quote is refused.
pub read_tokens : Bool → Bytes → Bytes → Outcome (List Bytes)
read_tokens inside tmp [] = returned (push_token tmp [])
read_tokens true tmp (c ∷ cs) =
    let further = read_tokens true tmp cs in
    let line = outcome_map (push_token tmp) (read_tokens false [] cs) in
    if c == b'\n' then line else further
read_tokens false tmp (c ∷ cs) =
    let fresh = read_tokens false [] cs in
    let comment = read_tokens true [] cs in
    let more = read_tokens false (tmp ++ c ∷ []) cs in
    if is_mark c
    then outcome_map (λ tokens. push_token tmp ((c ∷ []) ∷ tokens)) fresh
    else if is_space c
    then outcome_map (push_token tmp) fresh
    else if is_quote c
    then thrown
    else if c == b'#' && is_nil tmp
    then comment
    else more

-- What the flags of the passes say of the token being read.
abbrev Agree : Bool → Bool → Bytes → Type 0
Agree true starts tmp = tmp ≡ []
Agree false starts tmp = starts ≡ is_nil tmp

module _ (tmp : Bytes) (c : ℕ) where
  words-space :
      (m : Outcome Bytes)
      → is_space c ≡ true
      → outcome_map (words tmp) (outcome_map (◌∷◌ c) m)
        ≡ outcome_map (push_token tmp) (outcome_map (words []) m)
  unfolding words
  words-space (returned s) e = rw e
  words-space thrown e = refl
  words-space hung e = refl

  words-plain :
      (m : Outcome Bytes)
      → is_space c ≡ false
      → outcome_map (words tmp) (outcome_map (◌∷◌ c) m) ≡ outcome_map (words (tmp ++ c ∷ [])) m
  unfolding words
  words-plain (returned s) e = rw e
  words-plain thrown e = refl
  words-plain hung e = refl

  words-mark :
      (m : Outcome Bytes)
      → is_mark c ≡ true
      → outcome_map
          (words tmp)
          (outcome_map (◌∷◌ b' ') (outcome_map (◌∷◌ c) (outcome_map (◌∷◌ b' ') m)))
        ≡ outcome_map (λ tokens. push_token tmp ((c ∷ []) ∷ tokens)) (outcome_map (words []) m)
  unfolding words is_space is_mark
  words-mark (returned s) e = ground arith
  words-mark thrown e = refl
  words-mark hung e = refl

is_nil-append : (tmp : Bytes) (c : ℕ) → false ≡ is_nil (tmp ++ c ∷ [])
is_nil-append [] c = refl
is_nil-append (x ∷ tmp) c = refl

mark-ne :
    (c : ℕ)
    → is_mark c ≡ true
    → (is_space c ≡ false) × (is_quote c ≡ false) × ((c == b'#') ≡ false) × ((c == b'\n') ≡ false)
unfolding is_mark is_space is_quote
mark-ne c e = ground arith

strip-mark :
    (c : ℕ) (starts : Bool) (s : Bytes)
    → is_mark c ≡ true
    → strip_comments false starts (b' ' ∷ c ∷ b' ' ∷ s)
      ≡ outcome_map
          (◌∷◌ b' ')
          (outcome_map (◌∷◌ c) (outcome_map (◌∷◌ b' ') (strip_comments false true s)))
unfolding strip_comments is_space is_quote
strip-mark c starts s e = let (a, q, h, n) = mark-ne c e in rw (q, h)

strip-mark_inside :
    (c : ℕ) (starts : Bool) (s : Bytes)
    → is_mark c ≡ true
    → strip_comments true starts (b' ' ∷ c ∷ b' ' ∷ s) ≡ strip_comments true false s
unfolding strip_comments
strip-mark_inside c starts s e = let (a, q, h, n) = mark-ne c e in rw n

strip-step :
    (c : ℕ) (starts : Bool) (s : Bytes)
    → is_quote c ≡ false
    → (c == b'#' && starts) ≡ false
    → strip_comments false starts (c ∷ s)
      ≡ outcome_map (◌∷◌ c) (strip_comments false (is_space c) s)
unfolding strip_comments
strip-step c starts s q h = rw (q, h)

space-ne :
    (c : ℕ) → is_space c ≡ true → (is_mark c ≡ false) × (is_quote c ≡ false) × ((c == b'#') ≡ false)
unfolding is_mark is_space is_quote
space-ne c e = ground arith

hash-ne :
    (c : ℕ) → (c == b'#') ≡ true → (is_mark c ≡ false) × (is_space c ≡ false) × (is_quote c ≡ false)
unfolding is_mark is_space is_quote
hash-ne c e = ground arith

newline-ne : (c : ℕ) → (c == b'\n') ≡ true → (is_mark c ≡ false) × (is_space c ≡ true)
unfolding is_mark is_space
newline-ne c e = ground arith

-- What the passes make of a text from one of their states on, and what the lexer does.
abbrev SameTokens : Bool → Bool → Bytes → Bytes → Type 0
SameTokens inside starts tmp s =
    outcome_map (words tmp) (strip_comments inside starts (insert_space s))
    ≡ read_tokens inside tmp s

module _ (starts : Bool) (tmp : Bytes) (c : ℕ) (cs : Bytes) where
  same_mark : is_mark c ≡ true → SameTokens false true [] cs → SameTokens false starts tmp (c ∷ cs)
  unfolding insert_space read_tokens
  same_mark e ih =
      rw (e, strip-mark c starts (insert_space cs) e)
        (words-mark tmp c (strip_comments false true (insert_space cs)) e
          ∙ ap (outcome_map (λ tokens. push_token tmp ((c ∷ []) ∷ tokens))) ih)

  same_space :
      is_space c ≡ true → SameTokens false true [] cs → SameTokens false starts tmp (c ∷ cs)
  unfolding insert_space read_tokens
  same_space e ih =
      let (m, q, h) = space-ne c e in
      rw (m, e)
        (ap (outcome_map (words tmp)) (strip-step c starts (insert_space cs) q (rw h))
          ∙ rw e (words-space tmp c (strip_comments false true (insert_space cs)) e)
          ∙ ap (outcome_map (push_token tmp)) ih)

  same_plain :
      is_mark c ≡ false
      → is_space c ≡ false
      → is_quote c ≡ false
      → (c == b'#' && is_nil tmp) ≡ false
      → starts ≡ is_nil tmp
      → SameTokens false false (tmp ++ c ∷ []) cs
      → SameTokens false starts tmp (c ∷ cs)
  unfolding insert_space read_tokens
  same_plain m e q h a ih =
      rw (m, e, q, h)
        (ap (outcome_map (words tmp)) (strip-step c starts (insert_space cs) q (rw a h))
          ∙ rw e (words-plain tmp c (strip_comments false false (insert_space cs)) e)
          ∙ ih)

  same_quote :
      is_mark c ≡ false
      → is_space c ≡ false
      → is_quote c ≡ true
      → SameTokens false starts tmp (c ∷ cs)
  unfolding insert_space read_tokens strip_comments
  same_quote m e q = rw (m, e, q)

  same_inside :
      tmp ≡ []
      → SameTokens true false tmp cs
      → SameTokens false true [] cs
      → SameTokens true starts tmp (c ∷ cs)
  unfolding insert_space read_tokens
  same_inside n ih line = elim (Bool-cases (is_mark c)) [
    | inl m ↦
        let (a, q, h, l) = mark-ne c m in
        rw (m, strip-mark_inside c starts (insert_space cs) m, l) ih
    | inr m ↦ elim (Bool-cases (c == b'\n')) [
      | inl l ↦
          let (k, e) = newline-ne c l in
          rw (m, l)
            (unfold strip_comments in
              rw l (
                words-space tmp c (strip_comments false true (insert_space cs)) e
                ∙ ap (outcome_map (push_token tmp)) line))
      | inr l ↦ rw (m, l) (unfold strip_comments in rw l ih)
    ]
  ]

same_comment :
    (c : ℕ) (cs : Bytes)
    → (c == b'#') ≡ true
    → SameTokens true false [] cs
    → SameTokens false true [] (c ∷ cs)
unfolding insert_space read_tokens strip_comments
same_comment c cs h ih = let (m, e, q) = hash-ne c h in rw (m, e, q, h) ih

same_outside :
    (starts : Bool) (tmp : Bytes) (c : ℕ) (cs : Bytes)
    → starts ≡ is_nil tmp
    → SameTokens false true [] cs
    → SameTokens true false [] cs
    → SameTokens false false (tmp ++ c ∷ []) cs
    → SameTokens false starts tmp (c ∷ cs)
same_outside starts tmp c cs a fresh comment more = elim (Bool-cases (is_mark c)) [
  | inl m ↦ same_mark starts tmp c cs m fresh
  | inr m ↦ elim (Bool-cases (is_space c)) [
    | inl e ↦ same_space starts tmp c cs e fresh
    | inr e ↦ elim (Bool-cases (is_quote c)) [
      | inl q ↦ same_quote starts tmp c cs m e q
      | inr q ↦ elim (Bool-cases (c == b'#' && is_nil tmp)) [
        | inl h ↦ comment_here tmp a h
        | inr h ↦ same_plain starts tmp c cs m e q h a more
      ]
    ]
  ]
]
  where
    comment_here :
        (t : Bytes)
        → starts ≡ is_nil t
        → (c == b'#' && is_nil t) ≡ true
        → SameTokens false starts t (c ∷ cs)
    comment_here [] b h = rw b (same_comment c cs (ground arith) comment)
    comment_here (x ∷ t) b h = absurd (ground arith)

pub read_tokens-passes :
    (inside starts : Bool) (tmp s : Bytes)
    → Agree inside starts tmp
    → SameTokens inside starts tmp s
unfolding insert_space strip_comments read_tokens words
read_tokens-passes true starts tmp [] a = refl
read_tokens-passes false starts tmp [] a = refl
read_tokens-passes true starts tmp (c ∷ cs) a =
    same_inside starts tmp c cs a (read_tokens-passes true false tmp cs a)
      (read_tokens-passes false true [] cs refl)
read_tokens-passes false starts tmp (c ∷ cs) a =
    same_outside starts tmp c cs a (read_tokens-passes false true [] cs refl)
      (read_tokens-passes true false [] cs refl)
      (read_tokens-passes false false (tmp ++ c ∷ []) cs (is_nil-append tmp c))

-- The passes over a configuration file, one after the other, find the tokens that a lexer finds
-- which reads the text once, and refuse the texts that it refuses.
pub storing_in_vec-read_tokens :
    (s : Bytes)
    → outcome_map (λ t. storing_in_vec (refactoring_buffer t)) (remove_comments (insert_space s))
      ≡ read_tokens false [] s
unfolding remove_comments
storing_in_vec-read_tokens s =
    tokens_lem (strip_comments false true (insert_space s))
    ∙ read_tokens-passes false true [] s refl
  where
    tokens_lem :
        (m : Outcome Bytes)
        → outcome_map (λ t. storing_in_vec (refactoring_buffer t)) m ≡ outcome_map (words []) m
    tokens_lem (returned t) = ap returned (storing_in_vec-refactoring_buffer t)
    tokens_lem thrown = refl
    tokens_lem hung = refl
