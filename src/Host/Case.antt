-- ===== src/Host/Case.antt =====
-- The case of the host that `validate_host` of src/HttpParser.cpp stores.
use webserer_core.Base.{
  ℕ, zero, suc, ◌^◌, ◌≤◌, ◌<◌, ◌≡◌, refl, false, inl, inr, [], ◌∷◌, ap, arith, some, Bytes, length,
  length-take, take, ltb, char_at, ◌==◌, ◌&&◌, if◌then◌else◌, ◌⊎◌, ◌-◌, ◌+◌, Option-cases,
  Bool-cases,
}
use webserer_core.Text.{to_lower, str_tolower}
use webserer_core.Text.Trim.{str_tolower_idem}
use webserer_core.Host.{
  HostState, HostScan, host_step, host_scan, initial, conclude, validate_host, start,
}

-- A step that does not ask for lower case has read no upper-case letter, and was not asked before.
host_step_case :
    (m : HostState) (i : ℕ) (s : HostScan) (ch : ℕ) {t : HostScan}
    → host_step m i s ch ≡ some t
    → t.need_lc ≡ false
    → (s.need_lc ≡ false) × (to_lower ch ≡ ch)
unfolding host_step to_lower
host_step_case start i s ch e n = ground arith
host_step_case _ i s ch e n = ground arith

abbrev Lower : Bytes → Type 0
Lower [] = Unit {0}
Lower (c ∷ cs) = (to_lower c ≡ c) × Lower cs

str_tolower-Lower : (n : ℕ) (s : Bytes) → Lower s → str_tolower (take n s) ≡ take n s
unfolding str_tolower
str_tolower-Lower zero s h = refl
str_tolower-Lower (suc n) [] h = refl
str_tolower-Lower (suc n) (c ∷ cs) h = cc (h.0, str_tolower-Lower n cs h.1)

host_scan_case :
    (i : ℕ) (s : HostScan) (cs : Bytes) {t : HostScan}
    → host_scan i s cs ≡ some t
    → t.need_lc ≡ false
    → (s.need_lc ≡ false) × Lower cs
unfolding host_scan
host_scan_case i s [] e n = (ground arith, tt)
host_scan_case i s (c ∷ cs) {t} e n = elim (Option-cases (host_step s.state i s c)) [
  | inl z ↦ absurd (ground arith)
  | inr (u, z) ↦
      let (m, lower) = host_scan_case (suc i) u cs {t = t} (ground arith) n in
      let (k, l) = host_step_case s.state i s c z m in (k, (l, lower))
]

length-str_tolower : (s : Bytes) → length (str_tolower s) ≡ length s
unfolding str_tolower
length-str_tolower [] = refl
length-str_tolower (c ∷ s) = ap suc (length-str_tolower s)

host_step-host_len :
    (m : HostState) (i : ℕ) (s : HostScan) (ch : ℕ) {t : HostScan}
    → host_step m i s ch ≡ some t
    → (t.host_len ≤ s.host_len) ⊎ (t.host_len ≤ suc i)
unfolding host_step
host_step-host_len start i s ch e = ground arith
host_step-host_len _ i s ch e = ground arith

host_scan-host_len :
    (i n : ℕ) (s : HostScan) (cs : Bytes) {t : HostScan}
    → host_scan i s cs ≡ some t
    → s.host_len ≤ n
    → i + length cs ≤ n
    → t.host_len ≤ n
unfolding host_scan
host_scan-host_len i n s [] e h k = ground arith
host_scan-host_len i n s (c ∷ cs) {t} e h k = elim (Option-cases (host_step s.state i s c)) [
  | inl z ↦ absurd (ground arith)
  | inr (u, z) ↦
      host_scan-host_len (suc i) n u cs {t = t} (ground arith)
        (omega (arith, host_step-host_len s.state i s c z)) (omega arith)
]

-- The length that the host is cut to.
abbrev kept : Bytes → HostScan → ℕ
kept value s =
    if ltb 0 s.host_len && char_at value (s.host_len - 1) == b'.'
    then s.host_len - 1
    else s.host_len

conclude_case :
    (value : Bytes) (s : HostScan) (host : Bytes) (port : ℕ)
    → (s.need_lc ≡ false → Lower value)
    → s.host_len ≤ length value
    → conclude value s ≡ some (host, port)
    → (str_tolower host ≡ host) × (0 < length host) × (length host ≤ length value) × (port < 2 ^ 16)
unfolding conclude
conclude_case value s host port low len e = elim (Bool-cases s.need_lc) [
  | inl n ↦ ground (
    arith,
    str_tolower_idem (take (kept value s) value),
    length-str_tolower (take (kept value s) value),
    length-take (kept value s) value,
  )
  | inr n ↦
      ground
        (arith, str_tolower-Lower (kept value s) value (low n), length-take (kept value s) value)
]

-- A host that is accepted is stored in lower case, is not empty nor longer than it was, and its
-- port fits its 16 bits.
pub validate_host_normal :
    (value host : Bytes) (port : ℕ)
    → validate_host value ≡ some (host, port)
    → (str_tolower host ≡ host) × (0 < length host) × (length host ≤ length value) × (port < 2 ^ 16)
unfolding validate_host
validate_host_normal [] host port e = absurd (ground arith)
validate_host_normal (c ∷ cs) host port e =
    elim (Option-cases (host_scan 0 (initial (c ∷ cs)) (c ∷ cs))) [
      | inl z ↦ absurd (ground arith)
      | inr (s, z) ↦
          conclude_case (c ∷ cs) s host port
            (λ n. (host_scan_case 0 (initial (c ∷ cs)) (c ∷ cs) z n).1)
            (host_scan-host_len 0 (length (c ∷ cs)) (initial (c ∷ cs)) (c ∷ cs) z (omega arith)
              (omega arith))
            (rw z at e)
    ]
