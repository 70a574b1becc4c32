-- ===== src/RequestLine/Version.antt =====
-- The version that `_parseRequestLine` of src/HttpParser.cpp lets through.
use webserer_core.Base.{ℕ, suc, ◌≤◌, ◌≡◌, [], ◌∷◌, arith, Option, none, some, Bytes}
use webserer_core.RequestLine.{
  push_digit, RlState, LineScan, Round, Scanned, rl_step, scan, initial, check_line, Line, done,
  rejected, next, last, refuse, pass,
}

abbrev AtLeastOne : Option ℕ → Type 0
AtLeastOne none = Unit {0}
AtLeastOne (some m) = 1 ≤ m

-- A minor version that has been read is at least 1.
abbrev MinorRead : LineScan → Type 0
MinorRead s = AtLeastOne s.http_minor

abbrev Keeps : Round → Type 0
Keeps (next t) = MinorRead t
Keeps (last t) = MinorRead t
Keeps (refuse code) = Unit {0}

push_digit-AtLeastOne : (o : Option ℕ) (ch : ℕ) → AtLeastOne o → AtLeastOne (push_digit o ch)
unfolding push_digit
push_digit-AtLeastOne none ch h = tt
push_digit-AtLeastOne (some v) ch h = omega arith

rl_step-Keeps :
    (m : RlState) (i : ℕ) (s : LineScan) (ch : ℕ) → MinorRead s → Keeps (rl_step m i s ch)
unfolding rl_step
rl_step-Keeps RlState.start i s ch h = ground arith
rl_step-Keeps RlState.minor i s ch h = ground (arith, push_digit-AtLeastOne s.http_minor ch h)
rl_step-Keeps _ i s ch h = ground arith

abbrev Ends : Scanned → Type 0
Ends (done p s) = MinorRead s
Ends _ = Unit {0}

abbrev after : ℕ → Bytes → Round → Scanned
after i rest (next t) = scan i t rest
after i rest (last t) = done i t
after i rest (refuse k) = rejected k

scan-after :
    (i : ℕ) (s : LineScan) (c : ℕ) (rest : Bytes)
    → scan i s (c ∷ rest) ≡ after (suc i) rest (rl_step s.state i s c)
unfolding scan
scan-after i s c rest = ground arith

scan-Ends : (i : ℕ) (s : LineScan) (text : Bytes) → MinorRead s → Ends (scan i s text)
scan-Ends i s [] h = unfold scan in tt
scan-Ends i s (c ∷ rest) h = rw (scan-after i s c rest) (
    step (λ t k. scan-Ends (suc i) t rest k) (rl_step s.state i s c)
      (rl_step-Keeps s.state i s c h))
  where
    step :
        ((t : LineScan) → MinorRead t → Ends (scan (suc i) t rest))
        → (r : Round) → Keeps r
        → Ends (after (suc i) rest r)
    step ih (next t) k = ih t k
    step ih (last t) k = k
    step ih (refuse code) k = tt

check_line-version :
    (p : ℕ) (s : LineScan) (l : Line)
    → MinorRead s
    → check_line p s ≡ pass l
    → (l.http_major ≡ 1) × (l.http_minor ≡ 1)
unfolding check_line
check_line-version p s l h e = ground arith

-- A request line passes the checks in version 1.1 only.
pub version_1_1 :
    (text : Bytes) (p : ℕ) (s : LineScan) (l : Line)
    → scan 0 initial text ≡ done p s
    → check_line p s ≡ pass l
    → (l.http_major ≡ 1) × (l.http_minor ≡ 1)
version_1_1 text p s l e c = check_line-version p s l (rw e at (scan-Ends 0 initial text tt)) c
