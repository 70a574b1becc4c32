-- ===== src/Host/Port.antt =====
-- The port that `validate_host` of src/HttpParser.cpp reads.
use webserer_core.Base.{
  ℕ, suc, ◌+◌, ◌-◌, ◌*◌, ◌≤◌, ◌≡◌, refl, Bool, true, false, inl, inr, [], ◌∷◌, ◌++◌, ap, ◌∙◌, arith,
  none, some, Bytes, length, Bool-cases, leb, within, char_at, take_length, if◌then◌else◌, ◌||◌,
  ◌==◌,
}
use webserer_core.Text.Decimal.{decimal, Digits, decimal-ge}
use webserer_core.Host.{
  HostState, HostScan, host_step, host_scan, initial, conclude, validate_host, start, in_host,
}

-- The digits behind the colon are taken exactly when their value is at most 65535.
host_scan_port :
    (i : ℕ) (s : HostScan) (ds : Bytes)
    → s.state ≡ HostState.port
    → Digits ds
    → s.port ≤ 65535
    → host_scan i s ds ≡ (
        if leb (decimal s.port ds) 65535
        then some (record s { port = decimal s.port ds })
        else none)
unfolding host_scan host_step decimal
host_scan_port i s [] m g p = ground arith
host_scan_port i s (d ∷ ds) m g p = elim (Bool-cases (leb (s.port * 10 + (d - b'0')) 65535)) [
  | inl e ↦ rw m (
      ground
        (arith, host_scan_port (suc i) (record s { port = s.port * 10 + (d - b'0') }) ds m g.1))
  | inr e ↦ rw m (ground (arith, decimal-ge (s.port * 10 + (d - b'0')) ds))
]

-- A host name of lower-case letters, digits and dashes.
abbrev pub plain : ℕ → Bool
plain c = within b'a' b'z' c || within b'0' b'9' c || c == b'-'

abbrev pub Plain : Bytes → Type 0
Plain [] = Unit {0}
Plain (c ∷ cs) = (plain c ≡ true) × Plain cs

host_step-plain :
    (i : ℕ) (s : HostScan) (c : ℕ)
    → s.state ≡ in_host
    → plain c ≡ true
    → host_step s.state i s c ≡ some s
unfolding host_step
host_step-plain i s c m h = ground arith

host_scan_step :
    (i : ℕ) (s : HostScan) (c : ℕ) (rest : Bytes) {t : HostScan}
    → host_step s.state i s c ≡ some t
    → host_scan i s (c ∷ rest) ≡ host_scan (suc i) t rest
unfolding host_scan
host_scan_step i s c rest e = rw (e, host_scan)

host_scan-Plain :
    (i j : ℕ) (s : HostScan) (name rest : Bytes)
    → s.state ≡ in_host
    → Plain name
    → j ≡ i + length name
    → host_scan i s (name ++ rest) ≡ host_scan j s rest
host_scan-Plain i j s [] rest m p e = ap (λ k. host_scan k s rest) (omega arith)
host_scan-Plain i j s (c ∷ name) rest m p e =
    host_scan_step i s c (name ++ rest) (host_step-plain i s c m p.0)
    ∙ host_scan-Plain (suc i) j s name rest m p.1 (omega arith)

-- What the loop knows behind `name:`.
abbrev at_port : Bytes → ℕ → HostScan
at_port value n = record {
  state = HostState.port;
  host_len = n;
  dot_pos = length value;
  port = 0;
  need_lc = false;
}

module _ (c : ℕ) (name ds : Bytes) (p : Plain (c ∷ name)) where
  abbrev value : Bytes
  value = (c ∷ name) ++ (b':' ∷ ds)

  abbrev name_len : ℕ
  name_len = length (c ∷ name)

  host_step_first :
      host_step start 0 (initial value) c ≡ some (record (initial value) { state = in_host })
  unfolding host_step
  host_step_first = ground arith

  host_step_colon :
      host_step in_host name_len (record (initial value) { state = in_host }) b':'
      ≡ some (at_port value name_len)
  unfolding host_step
  host_step_colon = ground arith

  host_scan_colon :
      host_scan 0 (initial value) value ≡ host_scan (suc name_len) (at_port value name_len) ds
  host_scan_colon =
      host_scan_step 0 (initial value) c (name ++ (b':' ∷ ds)) host_step_first
      ∙ host_scan-Plain 1 name_len (record (initial value) { state = in_host }) name (b':' ∷ ds)
          refl p.1 (omega arith)
      ∙ host_scan_step name_len (record (initial value) { state = in_host }) b':' ds host_step_colon

char_at_last :
    (c : ℕ) (name rest : Bytes)
    → Plain (c ∷ name)
    → plain (char_at ((c ∷ name) ++ rest) (length name)) ≡ true
char_at_last c [] rest p = p.0
char_at_last c (d ∷ name) rest p = char_at_last d name rest p.1

plain-ne-dot : (c : ℕ) → plain c ≡ true → (c == b'.') ≡ false
plain-ne-dot c h = ground arith

conclude_port :
    (c n : ℕ) (name rest : Bytes)
    → Plain (c ∷ name)
    → n ≤ 65535
    → let value = (c ∷ name) ++ rest in
      conclude value (record (at_port value (length (c ∷ name))) { port = n }) ≡ some (c ∷ name, n)
unfolding conclude
conclude_port c n name rest p h =
    let e : suc (length name) - 1 ≡ length name = omega arith in
    rw (e, plain-ne-dot _ (char_at_last c name rest p)) (ground (arith, take_length name rest))

-- For a host of lower-case letters, digits and dashes with a port of digits behind a colon: it is
-- accepted exactly when the number is at most 65535, and then host and number are the results.
pub validate_host_port :
    (c : ℕ) (name ds : Bytes)
    → Plain (c ∷ name)
    → Digits ds
    → validate_host ((c ∷ name) ++ (b':' ∷ ds))
      ≡ (if leb (decimal 0 ds) 65535 then some (c ∷ name, decimal 0 ds) else none)
unfolding validate_host
validate_host_port c name ds p g = elim (Bool-cases (leb (decimal 0 ds) 65535)) [
  | inl e ↦ rw (scanned, e) (conclude_port c (decimal 0 ds) name (b':' ∷ ds) p (ground arith))
  | inr e ↦ rw (scanned, e)
]
  where
    scanned : host_scan 0 (initial ((c ∷ name) ++ (b':' ∷ ds))) ((c ∷ name) ++ (b':' ∷ ds)) ≡ (
        if leb (decimal 0 ds) 65535
        then some (record (at_port ((c ∷ name) ++ (b':' ∷ ds)) (length (c ∷ name))) {
          port = decimal 0 ds;
        })
        else none)
    scanned =
        host_scan_colon c name ds p
        ∙ host_scan_port (suc (length (c ∷ name)))
            (at_port ((c ∷ name) ++ (b':' ∷ ds)) (length (c ∷ name))) ds refl g (omega arith)
