-- ===== src/Base/Outcomes.antt =====
-- What a call can come to: a value, a `BodyLimitException`, or a loop that never ends.
use mathlib.Core.Path.{◌≡◌, refl, subst}
use mathlib.Core.Logic.{◌≢◌}
use mathlib.Core.Bool.{Bool, true, false}
use webserer_core.Base.Tests.{if◌then◌else◌}
use mathlib.Core.Option.{Option, none, some}
use native.Mathlib.Omega.{arith}

pub data Outcome {ℓ} (A : Type ℓ) : Type ℓ where
  returned : A → Outcome A
  thrown : Outcome A
  hung : Outcome A

infixl 5 ◌>>=◌
abbrev pub ◌>>=◌ {ℓ κ} : {A : Type ℓ} {B : Type κ} → Outcome A → (A → Outcome B) → Outcome B
returned a >>= f = f a
thrown >>= f = thrown
hung >>= f = hung

abbrev pub outcome_map {ℓ κ} : {A : Type ℓ} {B : Type κ} → (A → B) → Outcome A → Outcome B
outcome_map f (returned a) = returned (f a)
outcome_map f thrown = thrown
outcome_map f hung = hung

pub outcome_map-returned :
    {A B : Type 0} (f : A → B) (m : Outcome A) {b : B}
    → outcome_map f m ≡ returned b
    → (a : A) × (m ≡ returned a) × (f a ≡ b)
outcome_map-returned f (returned a) e = (a, refl, ground arith)
outcome_map-returned f thrown e = absurd (cc)
outcome_map-returned f hung e = absurd (cc)

infixr 4 ◌>>◌
abbrev pub ◌>>◌ {ℓ} : {B : Type ℓ} → Outcome (Unit {0}) → Outcome B → Outcome B
m >> k = m >>= λ _. k

-- `if (!b) throw ...`
abbrev pub guard : Bool → Outcome (Unit {0})
guard true = returned tt
guard false = thrown

abbrev pub some_or_throw {ℓ} : {A : Type ℓ} → Option A → Outcome A
some_or_throw none = thrown
some_or_throw (some a) = returned a

-- The call ends, and `P` holds of what it returns.
pub record Ensures {ℓ} {A : Type ℓ} (P : A → Type 0) (m : Outcome A) : Type ℓ where
  pub ends : m ≢ hung
  pub holds : (a : A) → m ≡ returned a → P a

pub Ensures-thrown {ℓ} : {A : Type ℓ} {P : A → Type 0} → Ensures P thrown
Ensures-thrown = record { ends = cc; holds = λ a e. absurd (cc) }

pub Ensures-returned {ℓ} : {A : Type ℓ} {P : A → Type 0} (a : A) → P a → Ensures P (returned a)
Ensures-returned {P = P} a h = record { ends = cc; holds = λ b e. subst P (cc) h }

pub Ensures-bind {ℓ κ} :
    {A : Type ℓ} {P : A → Type 0} {B : Type κ} {Q : B → Type 0} (m : Outcome A) {f : A → Outcome B}
    → Ensures P m
    → ((a : A) → P a → Ensures Q (f a))
    → Ensures Q (m >>= f)
Ensures-bind (returned a) h k = k a (h.holds a refl)
Ensures-bind thrown h k = Ensures-thrown
Ensures-bind hung h k = absurd (h.ends refl)

pub Ensures-mono {ℓ} :
    {A : Type ℓ} {P Q : A → Type 0} (m : Outcome A)
    → Ensures P m
    → ((a : A) → P a → Q a)
    → Ensures Q m
Ensures-mono m h k = record { ends = h.ends; holds = λ a e. k a (h.holds a e) }

pub Ensures-outcome_map {ℓ κ} :
    {A : Type ℓ} {P : A → Type 0} {B : Type κ} {Q : B → Type 0} (f : A → B) (m : Outcome A)
    → Ensures P m
    → ((a : A) → P a → Q (f a))
    → Ensures Q (outcome_map f m)
Ensures-outcome_map f (returned a) h k = Ensures-returned (f a) (k a (h.holds a refl))
Ensures-outcome_map f thrown h k = Ensures-thrown
Ensures-outcome_map f hung h k = absurd (h.ends refl)

pub Ensures-guard {ℓ} :
    {B : Type ℓ} {Q : B → Type 0} (b : Bool) {m : Outcome B}
    → (b ≡ true → Ensures Q m)
    → Ensures Q (guard b >> m)
Ensures-guard true h = h refl
Ensures-guard false h = Ensures-thrown

pub Ensures-if {ℓ} :
    {B : Type ℓ} {Q : B → Type 0} (b : Bool) {m n : Outcome B}
    → (b ≡ true → Ensures Q m)
    → (b ≡ false → Ensures Q n)
    → Ensures Q (if b then m else n)
Ensures-if true h k = h refl
Ensures-if false h k = k refl

pub Ensures-some_or_throw {ℓ} :
    {A : Type ℓ} {P : A → Type 0} (o : Option A)
    → ((a : A) → o ≡ some a → P a)
    → Ensures P (some_or_throw o)
Ensures-some_or_throw none h = Ensures-thrown
Ensures-some_or_throw (some a) h = Ensures-returned a (h a refl)

pub outcome_map-outcome_map :
    {A B C : Type 0} (f : B → C) (g : A → B) (m : Outcome A)
    → outcome_map f (outcome_map g m) ≡ outcome_map (λ a. f (g a)) m
outcome_map-outcome_map f g (returned a) = refl
outcome_map-outcome_map f g thrown = refl
outcome_map-outcome_map f g hung = refl
