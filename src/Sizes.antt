-- ===== src/Sizes.antt =====
-- `parse_cl_mx_bd_sz` and `ft_strtod` of conf/parserConf.cpp.
-- The arithmetic of `double` is a parameter, operation by operation.
pub mod Exact
use webserer_core.Base.{
  ℕ, zero, suc, ◌*◌, ◌-◌, Bool, true, false, not, ◌&&◌, ◌||◌, List, [], ◌∷◌, Option, none, some,
  ◌==◌, ltb, if◌then◌else◌, Bytes, codes, length, is_nil, equal,
}
use webserer_core.Numerals.{max_long}
use webserer_core.Text.{is_digit}

-- What the code uses of `double`: `truncate` is the cast to `long long` of a number above 0, and
-- `of_nat` the conversion of an integer.
pub record Doubles (Double : Type 0) : Type 0 where
  pub of_nat : ℕ → Double
  pub add : Double → Double → Double
  pub times : Double → Double → Double
  pub divide : Double → Double → Double
  pub negate : Double → Double
  pub at_most : Double → Double → Bool
  pub is_same : Double → Double → Bool
  pub truncate : Double → ℕ

-- `ft_strtod`'s result: the number and the text behind it.
pub record Scanned (Double : Type 0) : Type 0 where
  pub number : Double
  pub behind : Bytes
  pub has_digits : Bool

module _ {Double : Type 0} (d : Doubles Double) where
  -- The loop over the digits before the point.
  unfoldable pub scan_whole : Double → Bool → Bytes → Scanned Double
  scan_whole whole_part has_digits [] = record {
    number = whole_part;
    behind = [];
    has_digits = has_digits;
  }
  scan_whole whole_part has_digits (c ∷ cs) =
      let next = d.add (d.times whole_part (d.of_nat 10)) (d.of_nat (c - b'0')) in
      let further = scan_whole next true cs in
      if is_digit c
      then further
      else record { number = whole_part; behind = c ∷ cs; has_digits = has_digits }

  -- The loop over the digits behind it.
  unfoldable pub scan_fraction : Double → Double → Bool → Bytes → Scanned Double
  scan_fraction frac_part divisor has_frac_digits [] = record {
    number = frac_part;
    behind = [];
    has_digits = has_frac_digits;
  }
  scan_fraction frac_part divisor has_frac_digits (c ∷ cs) =
      let next = d.add frac_part (d.divide (d.of_nat (c - b'0')) divisor) in
      let further = scan_fraction next (d.times divisor (d.of_nat 10)) true cs in
      if is_digit c
      then further
      else record { number = frac_part; behind = c ∷ cs; has_digits = has_frac_digits }

  -- What follows the loop over the digits before the point; `none` where `endptr` is the start of the
  -- text.
  unfoldable pub after_whole : Scanned Double → Option (Double × Bytes)
  after_whole whole = elim whole.behind [
    | [] ↦ if whole.has_digits then some (d.add whole.number (d.of_nat 0), []) else none
    | ◌∷◌ c cs ↦
        let frac = scan_fraction (d.of_nat 0) (d.of_nat 10) false cs in
        if c == b'.'
        then if whole.has_digits && frac.has_digits
          then some (d.add whole.number frac.number, frac.behind)
          else none
        else if whole.has_digits
        then some (d.add whole.number (d.of_nat 0), c ∷ cs)
        else none
  ]

  -- From the first digit on.
  unfoldable pub scan_number : Bytes → Option (Double × Bytes)
  scan_number str = after_whole (scan_whole (d.of_nat 0) false str)

  -- A factor of 1.0 is left out.
  unfoldable pub ft_strtod : Bytes → Option (Double × Bytes)
  unfolding scan_number
  ft_strtod [] = none
  ft_strtod (c ∷ cs) =
      if c == b'-'
      then elim (scan_number cs) [ none ↦ none | some (value, rest) ↦ some (d.negate value, rest) ]
      else if c == b'+'
      then scan_number cs
      else scan_number (c ∷ cs)

-- The multiplier of a unit.
unfoldable pub unit_size : Bytes → Option ℕ
unit_size unit =
    if is_nil unit
    then some 1
    else if equal unit (codes "K") || equal unit (codes "k")
    then some 1024
    else if equal unit (codes "M") || equal unit (codes "m")
    then some 1048576
    else if equal unit (codes "G") || equal unit (codes "g")
    then some 1073741824
    else none

module _ {Double : Type 0} (d : Doubles Double) where
  unfoldable pub scaled : Double → ℕ → Option ℕ
  scaled value multiplier =
      if d.at_most value (d.of_nat 0)
      then none
      else if multiplier == 1 && not (d.is_same value (d.of_nat (d.truncate value)))
      then none
      else if d.at_most value (d.divide (d.of_nat max_long) (d.of_nat multiplier))
      then some (d.truncate (d.times value (d.of_nat multiplier)))
      else none

  -- `none` is -1.
  unfoldable pub parse_cl_mx_bd_sz : Bytes → Option ℕ
  unfolding ft_strtod unit_size scaled
  parse_cl_mx_bd_sz token = if is_nil token then none else elim (ft_strtod d token) [
    | none ↦ none
    | some (value, unit) ↦ elim (unit_size unit) [
      | none ↦ none
      | some multiplier ↦ scaled value multiplier
    ]
  ]
