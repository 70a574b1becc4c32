-- ===== src/Sizes/Exact.antt =====
-- `parse_cl_mx_bd_sz` of conf/parserConf.cpp on whole numbers.
use webserer_core.Base.{
  ℕ, zero, suc, ◌+◌, ◌*◌, ◌-◌, ◌≤◌, ◌≡◌, refl, Bool, true, false, ap, ◌∙◌, [], ◌∷◌, ◌++◌, arith,
  some, Bytes, ◌==◌, Bool-cases, inl, inr,
}
use webserer_core.Numerals.{max_long}
use webserer_core.Sizes.{
  Doubles, scan_whole, after_whole, scan_number, ft_strtod, unit_size, scaled, parse_cl_mx_bd_sz,
}
use webserer_core.Text.{is_digit}
use webserer_core.Text.Decimal.{decimal, decimal-ge, Digits}

-- The arithmetic is exact on natural numbers up to a bound, as that of `double` is up to 2 ^ 53.
pub record Exact {Double : Type 0} (d : Doubles Double) (bound : ℕ) : Type 0 where
  pub add_nat : (m n : ℕ) → m + n ≤ bound → d.add (d.of_nat m) (d.of_nat n) ≡ d.of_nat (m + n)
  pub times_nat : (m n : ℕ) → m * n ≤ bound → d.times (d.of_nat m) (d.of_nat n) ≡ d.of_nat (m * n)
  pub above_zero : (n : ℕ) → n ≤ bound → d.at_most (d.of_nat n) (d.of_nat 0) ≡ (n == 0)
  pub truncate_nat : (n : ℕ) → n ≤ bound → d.truncate (d.of_nat n) ≡ n
  pub same_nat : (n : ℕ) → n ≤ bound → d.is_same (d.of_nat n) (d.of_nat n) ≡ true
  pub room :
      (n m : ℕ)
      → 1 ≤ m
      → n * m ≤ bound
      → d.at_most (d.of_nat n) (d.divide (d.of_nat max_long) (d.of_nat m)) ≡ true

-- The digits end where the text begins.
abbrev pub Stops : Bytes → Type 0
Stops [] = Unit {0}
Stops (c ∷ cs) = (is_digit c ≡ false) × ((c == b'.') ≡ false)

unit_size-pos : (unit : Bytes) {m : ℕ} → unit_size unit ≡ some m → 1 ≤ m
unfolding unit_size
unit_size-pos unit e = ground arith

le-times : (n m : ℕ) {bound : ℕ} → 1 ≤ m → n * m ≤ bound → n ≤ bound
le-times n zero k l = absurd (omega (arith, k))
le-times n (suc m) k l = let p : n * suc m ≡ n + n * m = omega arith in omega (arith, p, l)

module _ {Double : Type 0} (d : Doubles Double) (bound : ℕ) (exact : Exact d bound) where
  scan_whole-unit :
      (acc : ℕ) (b : Bool) (unit : Bytes)
      → Stops unit
      → scan_whole d (d.of_nat acc) b unit
        ≡ record { number = d.of_nat acc; behind = unit; has_digits = b }
  unfolding scan_whole
  scan_whole-unit acc b [] s = refl
  scan_whole-unit acc b (c ∷ unit) s = rw (s.0) refl

  scan_whole-decimal :
      (acc : ℕ) (ds unit : Bytes)
      → Digits ds
      → Stops unit
      → decimal acc ds ≤ bound
      → scan_whole d (d.of_nat acc) true (ds ++ unit)
        ≡ record { number = d.of_nat (decimal acc ds); behind = unit; has_digits = true }
  unfolding scan_whole decimal is_digit
  scan_whole-decimal acc [] unit g s h = scan_whole-unit acc true unit s
  scan_whole-decimal acc (c ∷ ds) unit g s h =
      let k = decimal-ge (acc * 10 + (c - b'0')) ds in
      rw
        (
          g.0,
          exact.times_nat acc 10 (omega (arith, k, h)),
          exact.add_nat (acc * 10) (c - b'0') (omega (arith, k, h)),
        )
        (scan_whole-decimal (acc * 10 + (c - b'0')) ds unit g.1 s h)

  scaled-nat : (n m : ℕ) → 1 ≤ n → 1 ≤ m → n * m ≤ bound → scaled d (d.of_nat n) m ≡ some (n * m)
  unfolding scaled
  scaled-nat n m h k l =
      let f : n ≤ bound = le-times n m k l in
      let z : (n == 0) ≡ false = ground arith in
      rw
        (
          exact.above_zero n f,
          z,
          exact.truncate_nat n f,
          exact.same_nat n f,
          exact.room n m k l,
          exact.times_nat n m l,
          exact.truncate_nat (n * m) l,
        )
        (elim (Bool-cases (m == 1)) [ inl e ↦ rw e refl | inr e ↦ rw e refl ])

  scan_first :
      (c : ℕ) (ds unit : Bytes)
      → Digits (c ∷ ds)
      → Stops unit
      → decimal 0 (c ∷ ds) ≤ bound
      → scan_whole d (d.of_nat 0) false (c ∷ ds ++ unit)
        ≡ record { number = d.of_nat (decimal 0 (c ∷ ds)); behind = unit; has_digits = true }
  unfolding scan_whole decimal is_digit
  scan_first c ds unit g s h =
      let k = decimal-ge (0 * 10 + (c - b'0')) ds in
      rw
        (
          g.0,
          exact.times_nat 0 10 (omega arith),
          exact.add_nat (0 * 10) (c - b'0') (omega (arith, k, h)),
        )
        (scan_whole-decimal (0 * 10 + (c - b'0')) ds unit g.1 s h)

  scan_number-decimal :
      (c : ℕ) (ds unit : Bytes)
      → Digits (c ∷ ds)
      → Stops unit
      → decimal 0 (c ∷ ds) ≤ bound
      → scan_number d (c ∷ ds ++ unit) ≡ some (d.of_nat (decimal 0 (c ∷ ds)), unit)
  unfolding scan_number after_whole
  scan_number-decimal c ds [] g s h =
      let a = exact.add_nat (decimal 0 (c ∷ ds)) 0 (omega (arith, h)) in
      let z : decimal 0 (c ∷ ds) + 0 ≡ decimal 0 (c ∷ ds) = omega arith in
      ap (after_whole d) (scan_first c ds [] g s h) ∙ (rw (after_whole, a, z) refl)
  scan_number-decimal c ds (u ∷ unit) g s h =
      let a = exact.add_nat (decimal 0 (c ∷ ds)) 0 (omega (arith, h)) in
      let z : decimal 0 (c ∷ ds) + 0 ≡ decimal 0 (c ∷ ds) = omega arith in
      ap (after_whole d) (scan_first c ds (u ∷ unit) g s h) ∙ (rw (after_whole, s.1, a, z) refl)

  -- A number with a unit, or without one, is read as their product, where the arithmetic is exact up
  -- to it and the product is not 0.
  pub parse_cl_mx_bd_sz-decimal :
      (c : ℕ) (ds unit : Bytes) (m : ℕ)
      → Digits (c ∷ ds)
      → Stops unit
      → unit_size unit ≡ some m
      → 1 ≤ decimal 0 (c ∷ ds)
      → decimal 0 (c ∷ ds) * m ≤ bound
      → parse_cl_mx_bd_sz d (c ∷ ds ++ unit) ≡ some (decimal 0 (c ∷ ds) * m)
  unfolding parse_cl_mx_bd_sz ft_strtod
  parse_cl_mx_bd_sz-decimal c ds unit m g s u h l =
      let minus : (c == b'-') ≡ false = let r = g.0 in ground arith in
      let plus : (c == b'+') ≡ false = let r = g.0 in ground arith in
      let k = unit_size-pos unit u in
      rw (minus, plus, scan_number-decimal c ds unit g s (le-times (decimal 0 (c ∷ ds)) m k l), u)
        (scaled-nat (decimal 0 (c ∷ ds)) m h k l)
