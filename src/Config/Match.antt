-- ===== src/Config/Match.antt =====
-- `Server::matchLocation` of conf/serverConfig.cpp: which location it picks.
use webserer_core.Base.{
  ℕ, ◌≤◌, ◌<◌, ◌≡◌, refl, true, false, ◌&&◌, sym, ◌⊎◌, inl, inr, List, [], ◌∷◌, ◌++◌, ap, arith,
  Option, none, some, Bytes, length, ltb, Bool-cases, ◌≢◌, equal,
}
use webserer_core.Config.{Location, Server, covers, match_from, match_location}
use mathlib.Core.Path.{subst}
use webserer_core.Uri.{trim_slash}

abbrev pub All {ℓ κ} : {A : Type ℓ} → (A → Type κ) → List A → Type κ
All P [] = Unit
All P (x ∷ xs) = P x × All P xs

pub All-++ {ℓ κ} :
    {A : Type ℓ} (P : A → Type κ) (xs ys : List A) → All P xs → All P ys → All P (xs ++ ys)
All-++ P [] ys h k = k
All-++ P (x ∷ xs) ys (p, h) k = (p, All-++ P xs ys h k)

pub All-mono :
    {A : Type 0} {P Q : A → Type 0} → ((a : A) → P a → Q a) → (xs : List A) → All P xs → All Q xs
All-mono k [] h = tt
All-mono k (x ∷ xs) (p, h) = (k x p, All-mono k xs h)

-- `loc` covers the path, is longer than all locations before it that do, and longer than `n`,
-- and no later one that covers the path is longer.
pub record FirstLongest (path : Bytes) (n : ℕ) (locs : List Location) (loc : Location)
    : Type 0 where
  pub before : List Location
  pub after : List Location
  pub splits : locs ≡ before ++ (loc ∷ after)
  pub covered : covers path loc ≡ true
  pub longer : n < length loc.path
  pub beats_before : All (λ l. covers path l ≡ true → length l.path < length loc.path) before
  pub beats_after : All (λ l. covers path l ≡ true → length l.path ≤ length loc.path) after

module _ (path : Bytes) where
  abbrev Outruns : ℕ → List Location → Type 0
  Outruns n = All (λ l. covers path l ≡ true → length l.path ≤ n)

  abbrev Picks : Option Location → ℕ → List Location → Option Location → Type 0
  Picks best n locs r =
      ((r ≡ best) × Outruns n locs)
      ⊎ ((loc : Location) × (r ≡ some loc) × FirstLongest path n locs loc)

  skip :
      {best r : Option Location} {n : ℕ} (x : Location) (locs : List Location)
      → (covers path x ≡ true → length x.path ≤ n)
      → Picks best n locs r
      → Picks best n (x ∷ locs) r
  skip x locs h (inl (e, o)) = inl (e, (h, o))
  skip x locs h (inr (loc, e, f)) = inr (
    loc,
    e,
    record {
      before = x ∷ f.before;
      after = f.after;
      splits = ap (◌∷◌ x) f.splits;
      covered = f.covered;
      longer = f.longer;
      beats_before = ((λ c. omega (arith, h c, f.longer)), f.beats_before);
      beats_after = f.beats_after;
    },
  )

  pick :
      {best r : Option Location} {n : ℕ} (x : Location) (locs : List Location)
      → covers path x ≡ true
      → n < length x.path
      → Picks (some x) (length x.path) locs r
      → Picks best n (x ∷ locs) r
  pick x locs c h (inl (e, o)) = inr (
    x,
    e,
    record {
      before = [];
      after = locs;
      splits = refl;
      covered = c;
      longer = h;
      beats_before = tt;
      beats_after = o;
    },
  )
  pick x locs c h (inr (loc, e, f)) = inr (
    loc,
    e,
    record {
      before = x ∷ f.before;
      after = f.after;
      splits = ap (◌∷◌ x) f.splits;
      covered = f.covered;
      longer = omega (arith, f.longer);
      beats_before = ((λ _. f.longer), f.beats_before);
      beats_after = f.beats_after;
    },
  )

  match_from_taken :
      (best : Option Location) (n : ℕ) (x : Location) (locs : List Location)
      → covers path x ≡ true
      → ltb n (length x.path) ≡ true
      → match_from path best n (x ∷ locs) ≡ match_from path (some x) (length x.path) locs
  unfolding match_from
  match_from_taken best n x locs c h = rw (c, h)

  match_from_kept :
      (best : Option Location) (n : ℕ) (x : Location) (locs : List Location)
      → (covers path x && ltb n (length x.path)) ≡ false
      → match_from path best n (x ∷ locs) ≡ match_from path best n locs
  unfolding match_from
  match_from_kept best n x locs h = rw h

  match_from-Picks :
      (best : Option Location) (n : ℕ) (locs : List Location)
      → Picks best n locs (match_from path best n locs)
  match_from-Picks best n [] = inl (unfold match_from in refl, tt)
  match_from-Picks best n (x ∷ locs) = elim (Bool-cases (covers path x)) [
    | inl c ↦ elim (Bool-cases (ltb n (length x.path))) [
      | inl h ↦
          subst (Picks best n (x ∷ locs)) (sym (match_from_taken best n x locs c h))
            (pick x locs c (ground arith) (match_from-Picks (some x) (length x.path) locs))
      | inr h ↦
          subst (Picks best n (x ∷ locs)) (sym (match_from_kept best n x locs (ground arith)))
            (skip x locs (λ _. ground arith) (match_from-Picks best n locs))
    ]
    | inr c ↦
        subst (Picks best n (x ∷ locs)) (sym (match_from_kept best n x locs (ground arith)))
          (skip x locs (λ k. absurd (cc)) (match_from-Picks best n locs))
  ]

  covers-ne-nil : (x : Location) → covers path x ≡ true → 0 < length x.path
  unfolding covers
  covers-ne-nil x h = grind arith

  not_covered : (locs : List Location) → Outruns 0 locs → All (λ l. covers path l ≡ false) locs
  not_covered [] o = tt
  not_covered (x ∷ locs) o = (
    elim (Bool-cases (covers path x)) [
      | inl c ↦ absurd (omega (arith, o.0 c, covers-ne-nil x c))
      | inr c ↦ c
    ],
    not_covered locs o.1,
  )

-- What an answer of `matchLocation` should mean.
abbrev pub BestMatch : Bytes → List Location → Option Location → Type 0
BestMatch path locs none = All (λ l. covers path l ≡ false) locs
BestMatch path locs (some loc) = FirstLongest path 0 locs loc

-- `matchLocation` answers NULL where no location covers the path, and else it answers the first
-- of the longest locations that do.
pub match_location-BestMatch :
    (server : Server) (path : Bytes) → BestMatch path server.locations (match_location server path)
unfolding match_location
match_location-BestMatch server path = elim (match_from-Picks path none 0 server.locations) [
  | inl (e, o) ↦ rw e (not_covered path server.locations o)
  | inr (loc, e, f) ↦ rw e f
]

-- A location `/` covers no path that has, without a slash at its end, two bytes or more of which
-- the second is no slash.
pub covers_root :
    (path : Bytes) (loc : Location) (c d : ℕ) (cs : Bytes)
    → loc.path ≡ b'/' ∷ []
    → trim_slash path ≡ c ∷ d ∷ cs
    → d ≢ b'/'
    → covers path loc ≡ false
unfolding covers equal
covers_root path loc c d cs e p n = rw (e, p) (ground arith)
