-- ===== src/Text/Trim.antt =====
-- `str_tolower` and `str_trim` of src/HttpParser.cpp.
use webserer_core.Base.{
  ℕ, ◌≡◌, refl, true, false, inl, inr, [], ◌∷◌, ◌++◌, ap, arith, Bytes, is_nil, Bool-cases,
  if◌then◌else◌, ◌&&◌,
}
use webserer_core.Text.{is_blank, skip_blanks, cut_blanks, str_trim, to_lower, str_tolower}

pub to_lower_idem : (c : ℕ) → to_lower (to_lower c) ≡ to_lower c
unfolding to_lower
to_lower_idem c = ground arith

pub str_tolower_idem : (s : Bytes) → str_tolower (str_tolower s) ≡ str_tolower s
unfolding str_tolower
str_tolower_idem [] = refl
str_tolower_idem (c ∷ s) = unfold str_tolower in cc (to_lower_idem c, str_tolower_idem s)

abbrev pub Blanks : Bytes → Type 0
Blanks [] = Unit {0}
Blanks (c ∷ cs) = (is_blank c ≡ true) × Blanks cs

abbrev pub StartsPlain : Bytes → Type 0
StartsPlain [] = Unit {0}
StartsPlain (c ∷ cs) = is_blank c ≡ false

abbrev pub EndsPlain : Bytes → Type 0
EndsPlain [] = Unit {0}
EndsPlain (c ∷ []) = is_blank c ≡ false
EndsPlain (c ∷ d ∷ cs) = EndsPlain (d ∷ cs)

-- `t` is `s` without the blanks at both ends.
pub record Trims (s t : Bytes) : Type 0 where
  pub before : Bytes
  pub after : Bytes
  pub splits : s ≡ before ++ (t ++ after)
  pub before_blank : Blanks before
  pub after_blank : Blanks after
  pub starts_plain : StartsPlain t
  pub ends_plain : EndsPlain t

record Cuts (s t : Bytes) : Type 0 where
  after : Bytes
  splits : s ≡ t ++ after
  after_blank : Blanks after
  ends_plain : EndsPlain t

-- One step of `cut_blanks`.
abbrev cut_cons : ℕ → Bytes → Bytes
cut_cons c t = if is_blank c && is_nil t then [] else c ∷ t

cut_cons-Cuts : (c : ℕ) {cs : Bytes} (t : Bytes) → Cuts cs t → Cuts (c ∷ cs) (cut_cons c t)
cut_cons-Cuts c [] k = elim (Bool-cases (is_blank c)) [
  | inl e ↦ rw e (record {
    after = c ∷ k.after;
    splits = ap (◌∷◌ c) k.splits;
    after_blank = (e, k.after_blank);
    ends_plain = tt;
  })
  | inr e ↦ rw e (record {
    after = k.after;
    splits = ap (◌∷◌ c) k.splits;
    after_blank = k.after_blank;
    ends_plain = e;
  })
]
cut_cons-Cuts c (d ∷ t) k = elim (Bool-cases (is_blank c)) [
  | inl e ↦ rw e (record {
    after = k.after;
    splits = ap (◌∷◌ c) k.splits;
    after_blank = k.after_blank;
    ends_plain = k.ends_plain;
  })
  | inr e ↦ rw e (record {
    after = k.after;
    splits = ap (◌∷◌ c) k.splits;
    after_blank = k.after_blank;
    ends_plain = k.ends_plain;
  })
]

cut_blanks-Cuts : (s : Bytes) → Cuts s (cut_blanks s)
unfolding cut_blanks
cut_blanks-Cuts [] = record { after = []; splits = refl; after_blank = tt; ends_plain = tt }
cut_blanks-Cuts (c ∷ cs) = cut_cons-Cuts c (cut_blanks cs) (cut_blanks-Cuts cs)

cut_blanks-StartsPlain : (s : Bytes) → StartsPlain s → StartsPlain (cut_blanks s)
unfolding cut_blanks
cut_blanks-StartsPlain [] h = tt
cut_blanks-StartsPlain (c ∷ cs) h = rw h h

trim_plain : (s : Bytes) → StartsPlain s → Trims s (cut_blanks s)
trim_plain s h =
    let k = cut_blanks-Cuts s in
    record {
      before = [];
      after = k.after;
      splits = k.splits;
      before_blank = tt;
      after_blank = k.after_blank;
      starts_plain = cut_blanks-StartsPlain s h;
      ends_plain = k.ends_plain;
    }

-- `str_trim` takes away blanks at both ends, all of them, and nothing else.
pub str_trim-Trims : (s : Bytes) → Trims s (str_trim s)
unfolding str_trim skip_blanks
str_trim-Trims [] = trim_plain [] tt
str_trim-Trims (c ∷ cs) = elim (Bool-cases (is_blank c)) [
  | inl e ↦
      let k = str_trim-Trims cs in
      rw e (record {
        before = c ∷ k.before;
        after = k.after;
        splits = ap (◌∷◌ c) k.splits;
        before_blank = (e, k.before_blank);
        after_blank = k.after_blank;
        starts_plain = k.starts_plain;
        ends_plain = k.ends_plain;
      })
  | inr e ↦ rw e (trim_plain (c ∷ cs) e)
]
