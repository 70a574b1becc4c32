-- ===== src/RequestLine/Scan.antt =====
-- The loop of `_parseRequestLine` in src/HttpParser.cpp on whole and on partial lines.
use webserer_core.Base.{
  ℕ, suc, ◌+◌, ◌≡◌, refl, Bool, true, not, ◌&&◌, [], ◌∷◌, ◌++◌, ap, ◌∙◌, arith, none, some, Bytes,
  length, Every, ◌==◌, codes,
}
use webserer_core.Text.{is_token_char, is_uri_char}
use webserer_core.RequestLine.{RlState, LineScan, rl_step, scan, initial, done, next}

scan_next :
    (i : ℕ) (s : LineScan) (c : ℕ) (rest : Bytes) {t : LineScan}
    → rl_step s.state i s c ≡ next t
    → scan i s (c ∷ rest) ≡ scan (suc i) t rest
unfolding scan
scan_next i s c rest e = rw (e, scan)

rl_step-method :
    (i : ℕ) (s : LineScan) (c : ℕ)
    → s.state ≡ RlState.method
    → is_token_char c ≡ true
    → rl_step s.state i s c ≡ next s
unfolding rl_step is_token_char
rl_step-method i s c m h = ground arith

scan_method :
    (i j : ℕ) (s : LineScan) (name rest : Bytes)
    → s.state ≡ RlState.method
    → Every is_token_char name
    → j ≡ i + length name
    → scan i s (name ++ rest) ≡ scan j s rest
scan_method i j s [] rest m h e = ap (λ k. scan k s rest) (omega arith)
scan_method i j s (c ∷ name) rest m h e =
    scan_next i s c (name ++ rest) (rl_step-method i s c m h.0)
    ∙ scan_method (suc i) j s name rest m h.1 (omega arith)

-- A byte that may stand in a target: no control byte and no space.
abbrev pub is_target_char : ℕ → Bool
is_target_char c = is_uri_char c && not (c == b' ')

rl_step-uri :
    (i : ℕ) (s : LineScan) (c : ℕ)
    → s.state ≡ RlState.uri
    → is_target_char c ≡ true
    → rl_step s.state i s c ≡ next s
unfolding rl_step is_uri_char
rl_step-uri i s c m h = ground arith

scan_uri :
    (i j : ℕ) (s : LineScan) (target rest : Bytes)
    → s.state ≡ RlState.uri
    → Every is_target_char target
    → j ≡ i + length target
    → scan i s (target ++ rest) ≡ scan j s rest
scan_uri i j s [] rest m h e = ap (λ k. scan k s rest) (omega arith)
scan_uri i j s (c ∷ target) rest m h e =
    scan_next i s c (target ++ rest) (rl_step-uri i s c m h.0)
    ∙ scan_uri (suc i) j s target rest m h.1 (omega arith)

-- The line that ends a request line behind its target.
abbrev pub version_crlf : Bytes
version_crlf = codes " HTTP/1.1\r\n"

scan_version :
    (i : ℕ) (m e u : ℕ) (rest : Bytes)
    → scan i
        (record {
          state = RlState.uri;
          method_start = some m;
          method_end = some e;
          uri_start = some u;
          uri_end = none;
          http_major = none;
          http_minor = none;
        })
        (version_crlf ++ rest)
      ≡ done (i + 11) (record {
        state = RlState.almost_done;
        method_start = some m;
        method_end = some e;
        uri_start = some u;
        uri_end = some i;
        http_major = some 1;
        http_minor = some 1;
      })
unfolding scan rl_step
scan_version i m e u rest = ground arith

-- The state of the loop between the method and the target of a line `name target HTTP/1.1`.
abbrev reading_uri : ℕ → ℕ → LineScan
reading_uri e u = record initial {
  state = RlState.uri;
  method_start = some 0;
  method_end = some e;
  uri_start = some u;
}

abbrev pub ended : ℕ → ℕ → ℕ → LineScan
ended e u i = record {
  state = RlState.almost_done;
  method_start = some 0;
  method_end = some e;
  uri_start = some u;
  uri_end = some i;
  http_major = some 1;
  http_minor = some 1;
}

abbrev in_method : LineScan
in_method = record initial { method_start = some 0; state = RlState.method }

abbrev before_uri : ℕ → LineScan
before_uri e = record initial {
  method_start = some 0;
  method_end = some e;
  state = RlState.space_before_uri;
}

rl_step-start :
    (c : ℕ) → is_token_char c ≡ true → rl_step RlState.start 0 initial c ≡ next in_method
unfolding rl_step is_token_char
rl_step-start c h = ground arith

rl_step-space : (e : ℕ) → rl_step RlState.method e in_method b' ' ≡ next (before_uri e)
unfolding rl_step
rl_step-space e = refl

rl_step-target :
    (i e c : ℕ)
    → is_target_char c ≡ true
    → rl_step RlState.space_before_uri i (before_uri e) c ≡ next (reading_uri e i)
unfolding rl_step is_uri_char
rl_step-target i e c h = ground arith

-- A request line `name target HTTP/1.1`, written the plain way.
abbrev pub request_line : Bytes → Bytes → Bytes
request_line name target = name ++ (b' ' ∷ (target ++ version_crlf))

-- The loop reads a plain request line to its end and finds where its parts begin and end,
-- whatever follows the line.
pub scan-request_line :
    (c : ℕ) (name : Bytes) (t : ℕ) (target rest : Bytes)
    → Every is_token_char (c ∷ name)
    → Every is_target_char (t ∷ target)
    → let e = length (c ∷ name) in
      let u = suc e in
      let w = u + length (t ∷ target) in
      scan 0 initial ((c ∷ name) ++ (b' ' ∷ ((t ∷ target) ++ (version_crlf ++ rest))))
      ≡ done (w + 11) (ended e u w)
scan-request_line c name t target rest h k =
    let e = length (c ∷ name) in
    let u = suc e in
    let w = u + length (t ∷ target) in
    let tail = version_crlf ++ rest in
    scan_next 0 initial c (name ++ (b' ' ∷ ((t ∷ target) ++ tail))) (rl_step-start c h.0)
    ∙ scan_method 1 e in_method name (b' ' ∷ ((t ∷ target) ++ tail)) refl h.1 (omega arith)
    ∙ scan_next e in_method b' ' ((t ∷ target) ++ tail) (rl_step-space e)
    ∙ scan_next u (before_uri e) t (target ++ tail) (rl_step-target u e t k.0)
    ∙ scan_uri (suc u) w (reading_uri e u) target tail refl k.1 (omega arith)
    ∙ scan_version w 0 e u rest
