-- ===== src/Tables/Laws.antt =====
-- What a table has after an operation, and that its keys keep ascending.
use webserer_core.Base.{
  ℕ, suc, ◌≤◌, ◌<◌, ◌≡◌, ◌≢◌, refl, sym, ◌∙◌, true, false, inl, inr, Bool-cases, [], ◌∷◌, arith,
  none, some, ◌==◌, if◌then◌else◌, length,
}
use webserer_core.Tables.{Table, lookup, insert, erase}

-- Ascending keys from `from` on.
abbrev pub AscendingFrom : {A : Type 0} → ℕ → Table A → Type 0
AscendingFrom from [] = Unit {0}
AscendingFrom from ((key, v) ∷ m) = (from ≤ key) × AscendingFrom (suc key) m

pub lookup_below :
    {A : Type 0} (fd from : ℕ) (m : Table A) → AscendingFrom from m → fd < from → lookup fd m ≡ none
unfolding lookup
lookup_below fd from [] a h = refl
lookup_below fd from ((key, v) ∷ m) a h =
    ground (arith, lookup_below fd (suc key) m a.1 (omega (arith, a.0)))

pub lookup-insert :
    {A : Type 0} (fd other : ℕ) (v : A) (m : Table A)
    → lookup other (insert fd v m) ≡ (if fd == other then some v else lookup other m)
unfolding lookup insert
lookup-insert fd other v [] = refl
lookup-insert fd other v ((key, old) ∷ m) = ground (arith, lookup-insert fd other v m)

pub lookup-erase :
    {A : Type 0} (from fd other : ℕ) (m : Table A)
    → AscendingFrom from m
    → lookup other (erase fd m) ≡ (if fd == other then none else lookup other m)
unfolding lookup erase
lookup-erase from fd other [] a = ground arith
lookup-erase from fd other ((key, v) ∷ m) a =
    ground (arith, lookup-erase (suc key) fd other m a.1, lookup_below other (suc key) m a.1)

pub insert-AscendingFrom :
    {A : Type 0} (from fd : ℕ) (v : A) (m : Table A)
    → AscendingFrom from m
    → from ≤ fd
    → AscendingFrom from (insert fd v m)
unfolding insert
insert-AscendingFrom from fd v [] a h = (h, tt)
insert-AscendingFrom from fd v ((key, old) ∷ m) a h =
    ground (arith, insert-AscendingFrom (suc key) fd v m a.1)

pub weaken :
    {A : Type 0} (from low : ℕ) (m : Table A)
    → AscendingFrom from m
    → low ≤ from
    → AscendingFrom low m
weaken from low [] a h = tt
weaken from low ((key, v) ∷ m) a h = (omega (arith, a.0), a.1)

pub erase-AscendingFrom :
    {A : Type 0} (from fd : ℕ) (m : Table A)
    → AscendingFrom from m
    → AscendingFrom from (erase fd m)
unfolding erase
erase-AscendingFrom from fd [] a = tt
erase-AscendingFrom from fd ((key, v) ∷ m) a =
    ground (arith, erase-AscendingFrom (suc key) fd m a.1, weaken (suc key) from m a.1)

pub length-insert :
    {A : Type 0} (fd : ℕ) (v : A) (m : Table A) → length (insert fd v m) ≤ suc (length m)
unfolding insert
length-insert fd v [] = omega arith
length-insert fd v ((key, old) ∷ m) = ground (arith, length-insert fd v m)

pub length-erase : {A : Type 0} (fd : ℕ) (m : Table A) → length (erase fd m) ≤ length m
unfolding erase
length-erase fd [] = omega arith
length-erase fd ((key, v) ∷ m) = ground (arith, length-erase fd m)

-- A key that was put in, and another one.
pub lookup_put :
    {A : Type 0} (key other : ℕ) (v : A) (m : Table A)
    → (key == other) ≡ true
    → lookup other (insert key v m) ≡ some v
lookup_put key other v m e = lookup-insert key other v m ∙ rw e refl

pub lookup_beside :
    {A : Type 0} (key other : ℕ) (v : A) (m : Table A)
    → (key == other) ≡ false
    → lookup other (insert key v m) ≡ lookup other m
lookup_beside key other v m e = lookup-insert key other v m ∙ rw e refl

none-some : {A : Type 0} (a : A) → none ≢ some a
none-some a = cc

-- What is found behind a key that was taken out was there, under another key.
pub lookup_left :
    {A : Type 0} (from key other : ℕ) (w : A) (m : Table A)
    → AscendingFrom from m
    → lookup other (erase key m) ≡ some w
    → ((key == other) ≡ false) × (lookup other m ≡ some w)
lookup_left from key other w m a e = elim (Bool-cases (key == other)) [
  | inl z ↦ absurd (none-some w (sym (lookup-erase from key other m a ∙ rw z refl) ∙ e))
  | inr z ↦ (z, sym (lookup-erase from key other m a ∙ rw z refl) ∙ e)
]
