-- ===== src/Uri/Clean.antt =====
-- `cleanPath` of src/HttpParser.cpp: the form of its results, and the segments it keeps.
use webserer_core.Base.{
  ℕ, ◌≡◌, refl, Bool, true, false, not, ◌&&◌, List, [], ◌∷◌, ◌++◌, ap, ◌∙◌, arith, Bytes, is_nil,
  ◌==◌, if◌then◌else◌,
}
use webserer_core.Uri.{squeeze, drop_slash, trim_slash, clean_path}

-- No two slashes are neighbours; the flag says that a slash stands in front.
abbrev pub Squeezed : Bool → Bytes → Type 0
Squeezed slash [] = Unit {0}
Squeezed slash (c ∷ cs) = ((c == b'/' && slash) ≡ false) × Squeezed (c == b'/') cs

abbrev pub NoSlashEnd : Bytes → Type 0
NoSlashEnd [] = Unit {0}
NoSlashEnd (c ∷ []) = (c == b'/') ≡ false
NoSlashEnd (c ∷ d ∷ cs) = NoSlashEnd (d ∷ cs)

-- A path with no empty segment and no slash at its end, but for the root itself.
abbrev pub IsClean : Bytes → Type 0
IsClean [] = Unit {0}
IsClean (c ∷ cs) = Squeezed false (c ∷ cs) × NoSlashEnd cs

squeeze-Squeezed : (slash : Bool) (s : Bytes) → Squeezed slash (squeeze slash s)
unfolding squeeze
squeeze-Squeezed slash [] = tt
squeeze-Squeezed true (c ∷ cs) = ground (arith, squeeze-Squeezed true cs, squeeze-Squeezed false cs)
squeeze-Squeezed false (c ∷ cs) = ground (arith, squeeze-Squeezed (c == b'/') cs)

Squeezed-squeeze : (slash : Bool) (s : Bytes) → Squeezed slash s → squeeze slash s ≡ s
unfolding squeeze
Squeezed-squeeze slash [] h = refl
Squeezed-squeeze slash (c ∷ cs) h = rw h.0 (ap (◌∷◌ c) (Squeezed-squeeze (c == b'/') cs h.1))

Squeezed-drop_slash : (slash : Bool) (s : Bytes) → Squeezed slash s → Squeezed slash (drop_slash s)
Squeezed-drop_slash slash [] h = tt
Squeezed-drop_slash slash (c ∷ []) h = ground arith
Squeezed-drop_slash slash (c ∷ d ∷ cs) h = (h.0, Squeezed-drop_slash (c == b'/') (d ∷ cs) h.1)

NoSlashEnd-cons :
    (c d : ℕ) (cs : Bytes)
    → (d == b'/' && c == b'/') ≡ false
    → NoSlashEnd (drop_slash (d ∷ cs))
    → NoSlashEnd (c ∷ drop_slash (d ∷ cs))
NoSlashEnd-cons c d [] h n = ground arith
NoSlashEnd-cons c d (e ∷ cs) h n = n

drop_slash-NoSlashEnd : (slash : Bool) (s : Bytes) → Squeezed slash s → NoSlashEnd (drop_slash s)
drop_slash-NoSlashEnd slash [] h = tt
drop_slash-NoSlashEnd slash (c ∷ []) h = ground arith
drop_slash-NoSlashEnd slash (c ∷ d ∷ cs) h =
    NoSlashEnd-cons c d cs h.1.0 (drop_slash-NoSlashEnd (c == b'/') (d ∷ cs) h.1)

trim_slash-IsClean : (s : Bytes) → Squeezed false s → IsClean (trim_slash s)
trim_slash-IsClean [] h = tt
trim_slash-IsClean (c ∷ cs) h =
    ((h.0, Squeezed-drop_slash (c == b'/') cs h.1), drop_slash-NoSlashEnd (c == b'/') cs h.1)

-- Every result of `cleanPath` is clean.
pub clean_path-IsClean : (s : Bytes) → IsClean (clean_path s)
unfolding clean_path
clean_path-IsClean s = trim_slash-IsClean (squeeze false s) (squeeze-Squeezed false s)

drop_slash_id : (s : Bytes) → NoSlashEnd s → drop_slash s ≡ s
drop_slash_id [] h = refl
drop_slash_id (c ∷ []) h = rw h
drop_slash_id (c ∷ d ∷ cs) h = ap (◌∷◌ c) (drop_slash_id (d ∷ cs) h)

IsClean-clean_path : (s : Bytes) → IsClean s → clean_path s ≡ s
unfolding clean_path
IsClean-clean_path [] h = refl
IsClean-clean_path (c ∷ cs) h =
    ap trim_slash (Squeezed-squeeze false (c ∷ cs) h.0) ∙ ap (◌∷◌ c) (drop_slash_id cs h.1)

-- `cleanPath` changes no clean path, and so nothing the second time.
pub clean_path_idem : (s : Bytes) → clean_path (clean_path s) ≡ clean_path s
clean_path_idem s = IsClean-clean_path (clean_path s) (clean_path-IsClean s)

-- The segments between slashes, without empty ones; `seg` is the one being read.
unfoldable pub segments : Bytes → Bytes → List Bytes
segments seg [] = if is_nil seg then [] else seg ∷ []
segments seg (c ∷ cs) =
    let fresh = segments [] cs in
    let more = segments (seg ++ c ∷ []) cs in
    if c == b'/' then (if is_nil seg then fresh else seg ∷ fresh) else more

segments-drop_slash : (seg s : Bytes) → segments seg (drop_slash s) ≡ segments seg s
unfolding segments
segments-drop_slash seg [] = refl
segments-drop_slash seg (c ∷ []) = ground arith
segments-drop_slash seg (c ∷ d ∷ cs) =
    ground (arith, segments-drop_slash [] (d ∷ cs), segments-drop_slash (seg ++ c ∷ []) (d ∷ cs))

segments-squeeze :
    (slash : Bool) (seg s : Bytes)
    → (slash && not (is_nil seg)) ≡ false
    → segments seg (squeeze slash s) ≡ segments seg s
unfolding segments squeeze
segments-squeeze slash seg [] h = refl
segments-squeeze true [] (c ∷ cs) h =
    ground (arith, segments-squeeze true [] cs refl, segments-squeeze false (c ∷ []) cs refl)
segments-squeeze true (x ∷ seg) (c ∷ cs) h = cc
segments-squeeze false [] (c ∷ cs) h =
    ground (arith, segments-squeeze true [] cs refl, segments-squeeze false (c ∷ []) cs refl)
segments-squeeze false (x ∷ seg) (c ∷ cs) h =
    ground (
      arith,
      segments-squeeze true [] cs refl,
      segments-squeeze false (x ∷ (seg ++ c ∷ [])) cs refl,
    )

segments-trim_slash : (s : Bytes) → segments [] (trim_slash s) ≡ segments [] s
segments-trim_slash [] = refl
segments-trim_slash (c ∷ []) = refl
segments-trim_slash (c ∷ d ∷ cs) =
    unfold segments in
    ground (arith, segments-drop_slash [] (d ∷ cs), segments-drop_slash (c ∷ []) (d ∷ cs))

-- `cleanPath` keeps the segments of a path and their order.
pub segments-clean_path : (s : Bytes) → segments [] (clean_path s) ≡ segments [] s
unfolding clean_path
segments-clean_path s = segments-trim_slash (squeeze false s) ∙ segments-squeeze false [] s refl
