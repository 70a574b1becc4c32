-- ===== src/Parser/Accept.antt =====
-- Requests that `_parseRequestLine` of src/HttpParser.cpp lets go on to their headers.
use webserer_core.Base.{
  ℕ, take, sym, ◌≡◌, refl, ◌≢◌, true, inl, inr, Bytes, codes, Option-cases, Bool-cases,
}
use webserer_core.Buffer
use webserer_core.Connection.{Connection}
use webserer_core.Request.{HttpRequest, ParseState}
use webserer_core.RequestLine.{
  LineScan, Scanned, Check, pending, done, rejected, scan, initial, check_line, Line, pass, refused,
  slice,
}
use webserer_core.RequestLine.Version.{version_1_1}
use webserer_core.Target.{Stat, or_root, find_byte, split_target}
use webserer_core.Uri.Clean.{IsClean, clean_path-IsClean}
use webserer_core.Uri.{pct_decode, clean_path}
use mathlib.Core.Path.{subst}
use webserer_core.Parser.{
  parse_request_line, take_line, known_method, fail, with_line, after_stat, with_request,
}

split_target-path : (raw : Bytes) → (path : Bytes) × ((split_target raw).path ≡ clean_path path)
unfolding split_target
split_target-path raw = elim (Option-cases (find_byte b'?' raw)) [
  | inl e ↦ (or_root (pct_decode raw), rw (e, split_target))
  | inr (n, e) ↦ (or_root (pct_decode (take n raw)), rw (e, split_target))
]

split_target-IsClean : (raw : Bytes) → IsClean (split_target raw).path
split_target-IsClean raw =
    let (path, e) = split_target-path raw in subst IsClean (sym e) (clean_path-IsClean path)

-- A request whose line has been taken.
pub record Taken (req : HttpRequest) : Type 0 where
  pub version_is : req.version ≡ codes "HTTP/1.1"
  pub method_known : known_method req.method ≡ true
  pub path_clean : IsClean req.path

with_line-Taken :
    (text : Bytes) (l : Line) (req : HttpRequest)
    → (l.http_major ≡ 1) × (l.http_minor ≡ 1)
    → known_method (slice l.method_start l.method_end text) ≡ true
    → Taken (with_line text l req)
unfolding with_line
with_line-Taken text l req v h = record {
  version_is = rw (v.0, v.1);
  method_known = h;
  path_clean = split_target-IsClean _;
}

after_stat-Taken : (answer : Stat) (req : HttpRequest) → Taken req → Taken (after_stat answer req)
unfolding after_stat
after_stat-Taken Stat.present req t = record {
  version_is = t.version_is;
  method_known = t.method_known;
  path_clean = t.path_clean;
}
after_stat-Taken _ req t = record {
  version_is = t.version_is;
  method_known = t.method_known;
  path_clean = t.path_clean;
}

module _ (stat : Bytes → Stat) (conn : Connection) where
  take_line-Taken :
      (text : Bytes) (p : ℕ) (l : Line)
      → (l.http_major ≡ 1) × (l.http_minor ≡ 1)
      → (take_line stat text p l conn).request.parse_state ≡ ParseState.headers
      → Taken (take_line stat text p l conn).request
  unfolding take_line
  take_line-Taken text p l v h =
      elim (Bool-cases (known_method (slice l.method_start l.method_end text))) [
        | inl k ↦ rw k (after_stat-Taken _ _ (with_line-Taken text l conn.request v k))
        | inr k ↦ absurd (cc (rw k at h))
      ]

  check-Taken :
      (p : ℕ) (s : LineScan) (r : Check Line)
      → scan 0 initial (Buffer.content conn.read_buffer) ≡ done p s
      → check_line p s ≡ r
      → (parse_request_line stat conn).request.parse_state ≡ ParseState.headers
      → Taken (parse_request_line stat conn).request
  unfolding parse_request_line
  check-Taken p s (pass l) e c h =
      let text = Buffer.content conn.read_buffer in
      let same : parse_request_line stat conn ≡ take_line stat text p l conn =
        rw (parse_request_line, e, c) in
      subst (λ after. Taken after.request) (sym same)
        (take_line-Taken text p l (version_1_1 text p s l e c)
          (subst (λ after. after.request.parse_state ≡ ParseState.headers) same h))
  check-Taken p s (refused code) e c h =
      let same : parse_request_line stat conn ≡ with_request (fail code conn.request) conn =
        rw (parse_request_line, e, c) in
      absurd (cc (subst (λ after. after.request.parse_state ≡ ParseState.headers) same h))

  scan-Taken :
      (r : Scanned)
      → scan 0 initial (Buffer.content conn.read_buffer) ≡ r
      → conn.request.parse_state ≢ ParseState.headers
      → (parse_request_line stat conn).request.parse_state ≡ ParseState.headers
      → Taken (parse_request_line stat conn).request
  unfolding parse_request_line
  scan-Taken (pending s) e n h =
      let same : parse_request_line stat conn ≡ conn = rw (parse_request_line, e) in
      absurd (n (subst (λ after. after.request.parse_state ≡ ParseState.headers) same h))
  scan-Taken (rejected code) e n h =
      let same : parse_request_line stat conn ≡ with_request (fail code conn.request) conn =
        rw (parse_request_line, e) in
      absurd (cc (subst (λ after. after.request.parse_state ≡ ParseState.headers) same h))
  scan-Taken (done p s) e n h = check-Taken p s (check_line p s) e refl h

-- When the line of a waiting request is taken and its path exists, the method is one of the four
-- that are supported, the version is HTTP/1.1 and the path is clean.
pub parse_request_line-Taken :
    (stat : Bytes → Stat) (conn : Connection)
    → conn.request.parse_state ≢ ParseState.headers
    → (parse_request_line stat conn).request.parse_state ≡ ParseState.headers
    → Taken (parse_request_line stat conn).request
parse_request_line-Taken stat conn n h = scan-Taken stat conn _ refl n h
