-- ===== src/Handler/Normal.antt =====
-- `normalizePath` of src/ResponseHandler.cpp: what it makes of the segments of a path.
use webserer_core.Base.{
  ◌≡◌, refl, true, false, not, ◌&&◌, List, [], ◌∷◌, ◌++◌, ap, ◌∙◌, sym, arith, Option, none, some,
  Bytes, codes, is_nil, equal, length, ltb, ◌==◌, if◌then◌else◌, Bool-cases, inl, inr,
}
use mathlib.Core.Option
use mathlib.Core.Path.{subst}
use mathlib.Core.List.{append_assoc, append-nil}
use webserer_core.Config.Match.{All, All-++}
use webserer_core.Handler.{
  close_segment, normal_segments, joined, ends_slash, finished, normalize_path,
}
use webserer_core.Uri.Clean.{segments}

-- The segments that a path leads to, the last one first, from those in `segs` on; `none` where it
-- leaves the root.
pub resolved : List Bytes → List Bytes → Option (List Bytes)
resolved segs [] = some segs
resolved [] (seg ∷ path) =
    let same = resolved [] path in
    let deeper = resolved (seg ∷ []) path in
    if equal seg (codes "..") then none else if equal seg (codes ".") then same else deeper
resolved (last ∷ segs) (seg ∷ path) =
    let higher = resolved segs path in
    let same = resolved (last ∷ segs) path in
    let deeper = resolved (seg ∷ last ∷ segs) path in
    if equal seg (codes "..") then higher else if equal seg (codes ".") then same else deeper

-- The same by the code's own step.
walk : List Bytes → List Bytes → Option (List Bytes)
walk segs [] = some segs
walk segs (seg ∷ path) = Option.bind (close_segment segs seg) (λ next. walk next path)

bind-cong :
    {A B : Type 0} (o : Option A) {f g : A → Option B}
    → ((a : A) → f a ≡ g a)
    → Option.bind o f ≡ Option.bind o g
unfolding Option.bind
bind-cong none h = refl
bind-cong (some a) h = h a

is_nil-nil : (s : Bytes) → is_nil s ≡ true → s ≡ []
is_nil-nil [] e = refl
is_nil-nil (c ∷ s) e = absurd (cc)

bind-some : {A : Type 0} (o : Option A) → Option.bind o some ≡ o
unfolding Option.bind
bind-some none = refl
bind-some (some a) = refl

close_segment-nil : (segs : List Bytes) → close_segment segs [] ≡ some segs
unfolding close_segment
close_segment-nil segs = refl

normal_segments-walk :
    (segs : List Bytes) (seg path : Bytes)
    → normal_segments segs seg path ≡ walk segs (segments seg path)
unfolding normal_segments segments walk Option.bind
normal_segments-walk segs [] [] = close_segment-nil segs
normal_segments-walk segs (x ∷ seg) [] = sym (bind-some (close_segment segs (x ∷ seg)))
normal_segments-walk segs seg (c ∷ cs) = elim (Bool-cases (c == b'/')) [
  | inl e ↦ elim (Bool-cases (is_nil seg)) [
    | inl n ↦ rw (e, n, is_nil-nil seg n, close_segment-nil segs) (normal_segments-walk segs [] cs)
    | inr n ↦
        rw (e, n) (bind-cong (close_segment segs seg) (λ next. normal_segments-walk next [] cs))
  ]
  | inr e ↦ rw e (normal_segments-walk segs (seg ++ c ∷ []) cs)
]

-- A segment as it stands in a path.
pub record Segment (seg : Bytes) : Type 0 where
  pub not_empty : is_nil seg ≡ false
  pub no_slash : All (λ c. (c == b'/') ≡ false) seg

-- A segment that names a file below the directory it stands in.
pub record Name (seg : Bytes) : Type 0 where
  pub segment : Segment seg
  pub not_dot : equal seg (codes ".") ≡ false
  pub not_dot_dot : equal seg (codes "..") ≡ false

segments-Segment :
    (seg path : Bytes) → All (λ c. (c == b'/') ≡ false) seg → All Segment (segments seg path)
unfolding segments
segments-Segment [] [] h = tt
segments-Segment (x ∷ seg) [] h = (record { not_empty = refl; no_slash = h }, tt)
segments-Segment seg (c ∷ cs) h = elim (Bool-cases (c == b'/')) [
  | inl e ↦ elim (Bool-cases (is_nil seg)) [
    | inl n ↦ rw (e, n) (segments-Segment [] cs tt)
    | inr n ↦ rw (e, n) (record { not_empty = n; no_slash = h }, segments-Segment [] cs tt)
  ]
  | inr e ↦ rw e (segments-Segment (seg ++ c ∷ []) cs (All-++ _ seg _ h (e, tt)))
]

-- The segments, if there are any, are all names.
abbrev Named : Option (List Bytes) → Type 0
Named none = Unit {0}
Named (some segs) = All Name segs

popped :
    (segs : List Bytes)
    → All Name segs
    → Named (elim segs [ [] ↦ none | ◌∷◌ last before ↦ some before ])
popped [] h = tt
popped (last ∷ before) h = h.1

close_segment-Named :
    (segs : List Bytes) (seg : Bytes) → All Name segs → Segment seg → Named (close_segment segs seg)
unfolding close_segment
close_segment-Named segs seg h s = elim (Bool-cases (equal seg (codes ".."))) [
  | inl e ↦ rw (s.not_empty, e) (popped segs h)
  | inr e ↦ elim (Bool-cases (equal seg (codes "."))) [
    | inl d ↦ rw (s.not_empty, e, d) h
    | inr d ↦ rw (s.not_empty, e, d) (record { segment = s; not_dot = d; not_dot_dot = e }, h)
  ]
]

bind-Named :
    (f : List Bytes → Option (List Bytes)) (o : Option (List Bytes))
    → Named o
    → ((next : List Bytes) → All Name next → Named (f next))
    → Named (Option.bind o f)
unfolding Option.bind
bind-Named f none n k = tt
bind-Named f (some next) n k = k next n

walk-Named : (segs path : List Bytes) → All Name segs → All Segment path → Named (walk segs path)
unfolding walk
walk-Named segs [] h k = h
walk-Named segs (seg ∷ path) h k =
    bind-Named _ (close_segment segs seg) (close_segment-Named segs seg h k.0)
      (λ next n. walk-Named next path n k.1)

-- The segments, the last one first, in their order in front of `rest`.
pub rev_onto : List Bytes → List Bytes → List Bytes
rev_onto [] rest = rest
rev_onto (seg ∷ segs) rest = rev_onto segs (seg ∷ rest)

segments-append :
    (seg name behind : Bytes)
    → All (λ c. (c == b'/') ≡ false) name
    → segments seg (name ++ behind) ≡ segments (seg ++ name) behind
unfolding segments
segments-append seg [] behind h = rw (append-nil seg) refl
segments-append seg (c ∷ name) behind h = rw (h.0) (
    segments-append (seg ++ c ∷ []) name behind h.1
    ∙ ap (λ s. segments s behind) (append_assoc seg (c ∷ []) name))

-- Text in front of which a segment ends.
abbrev Closes : Bytes → List Bytes → Type 0
Closes behind rest = (seg : Bytes) → segments seg behind ≡ (if is_nil seg then rest else seg ∷ rest)

Closes-seg :
    (seg behind : Bytes) (rest : List Bytes)
    → Name seg
    → Closes behind rest
    → segments [] (seg ++ behind) ≡ seg ∷ rest
Closes-seg seg behind rest n c =
    segments-append [] seg behind ((n.segment).no_slash) ∙ c seg ∙ (rw ((n.segment).not_empty) refl)

Closes-slash :
    (behind : Bytes) (rest : List Bytes) → segments [] behind ≡ rest → Closes (b'/' ∷ behind) rest
unfolding segments
Closes-slash behind rest e seg = rw e refl

joined-segments :
    (segs : List Bytes) (behind : Bytes) (rest : List Bytes)
    → All Name segs
    → Closes behind rest
    → segments [] (joined segs behind) ≡ rev_onto segs rest
unfolding joined rev_onto
joined-segments [] behind rest h c = c []
joined-segments (seg ∷ []) behind rest h c = Closes-seg seg behind rest h.0 c
joined-segments (seg ∷ last ∷ segs) behind rest h c =
    joined-segments (last ∷ segs) (b'/' ∷ seg ++ behind) (seg ∷ rest) h.1
      (Closes-slash (seg ++ behind) (seg ∷ rest) (Closes-seg seg behind rest h.0 c))

segments-slash : (seg path : Bytes) → segments seg (path ++ b'/' ∷ []) ≡ segments seg path
unfolding segments
segments-slash seg [] = ground arith
segments-slash seg (c ∷ path) =
    ground (arith, segments-slash [] path, segments-slash (seg ++ c ∷ []) path)

All-rev_onto :
    (segs rest : List Bytes) → All Name segs → All Name rest → All Name (rev_onto segs rest)
unfolding rev_onto
All-rev_onto [] rest h k = k
All-rev_onto (seg ∷ segs) rest h k = All-rev_onto segs (seg ∷ rest) h.1 (h.0, k)

segments-finished :
    (path : Bytes) (segs : List Bytes)
    → All Name segs
    → segments [] (finished path segs) ≡ rev_onto segs []
unfolding finished
segments-finished path segs h =
    let e = joined-segments segs [] [] h (λ seg. unfold segments in refl) in
    let r = Closes-slash (joined segs []) (rev_onto segs []) e [] in
    elim (Bool-cases
      (ltb 1 (length path) && ends_slash path && not (ends_slash (b'/' ∷ joined segs [])))) [
        | inl k ↦ rw k (segments-slash [] (b'/' ∷ joined segs []) ∙ r)
        | inr k ↦ rw k r
      ]

map-Named :
    (path : Bytes) (o : Option (List Bytes))
    → Named o
    → Option.map (segments []) (Option.map (finished path) o)
      ≡ Option.map (λ segs. rev_onto segs []) o
map-Named path none n = refl
map-Named path (some segs) n = ap some (segments-finished path segs n)

walk-resolved : (segs path : List Bytes) → All Segment path → walk segs path ≡ resolved segs path
unfolding walk resolved close_segment Option.bind
walk-resolved segs [] h = refl
walk-resolved [] (seg ∷ path) (s, h) = elim (Bool-cases (equal seg (codes ".."))) [
  | inl e ↦ rw (s.not_empty, e) refl
  | inr e ↦ elim (Bool-cases (equal seg (codes "."))) [
    | inl d ↦ rw (s.not_empty, e, d) (walk-resolved [] path h)
    | inr d ↦ rw (s.not_empty, e, d) (walk-resolved (seg ∷ []) path h)
  ]
]
walk-resolved (last ∷ segs) (seg ∷ path) (s, h) = elim (Bool-cases (equal seg (codes ".."))) [
  | inl e ↦ rw (s.not_empty, e) (walk-resolved segs path h)
  | inr e ↦ elim (Bool-cases (equal seg (codes "."))) [
    | inl d ↦ rw (s.not_empty, e, d) (walk-resolved (last ∷ segs) path h)
    | inr d ↦ rw (s.not_empty, e, d) (walk-resolved (seg ∷ last ∷ segs) path h)
  ]
]

-- `normalizePath` is what its segments mean: each single dot is passed over, each pair of dots takes
-- the last segment away, and where there is none to take the path is refused.
pub segments-normalize_path :
    (path : Bytes)
    → Option.map (segments []) (normalize_path path)
      ≡ Option.map (λ segs. rev_onto segs []) (resolved [] (segments [] path))
unfolding normalize_path
segments-normalize_path path =
    rw
      (
        ← walk-resolved [] (segments [] path) (segments-Segment [] path tt),
        normal_segments-walk [] [] path,
      )
      (map-Named path (walk [] (segments [] path))
        (walk-Named [] (segments [] path) tt (segments-Segment [] path tt)))

Name-of :
    (o : Option (List Bytes)) {path : List Bytes}
    → Named o
    → some path ≡ Option.map (λ segs. rev_onto segs []) o
    → All Name path
Name-of none n e = absurd (cc)
Name-of (some segs) n e = subst (All Name) (cc) (All-rev_onto segs [] n tt)

-- What `normalizePath` returns has no segment that is one dot or two.
pub normalize_path-Name :
    (path : Bytes) {p : Bytes} → normalize_path path ≡ some p → All Name (segments [] p)
normalize_path-Name path e =
    Name-of (walk [] (segments [] path))
      (walk-Named [] (segments [] path) tt (segments-Segment [] path tt))
      (ap (Option.map (segments [])) (sym e)
        ∙ segments-normalize_path path
        ∙ ap (Option.map (λ segs. rev_onto segs []))
            (sym (walk-resolved [] (segments [] path) (segments-Segment [] path tt))))
