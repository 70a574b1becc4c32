-- ===== src/Headers/Framing.antt =====
-- The checks of `_parseHeaders` in src/HttpParser.cpp behind the blank line.
use webserer_core.Base.{
  ℕ, ◌+◌, ◌*◌, ◌-◌, ◌%◌, size_mod, ◌≤◌, ◌<◌, ◌≡◌, ◌≢◌, ◌⊎◌, refl, Bool, true, false, not, ◌&&◌, inl,
  inr, List, [], ◌∷◌, arith, Bytes, codes, some, equal, equal_iff, Option-cases, Bool-cases, is_nil,
  ◌==◌, ◌∙◌,
}
use webserer_core.Config.{Server}
use webserer_core.Connection.{Connection, override_host, override_from}
use webserer_core.Headers.{
  host, content_length_key, transfer_encoding, Stage, go, halt, ◌>>=◌, Length, length_is,
  not_digits, too_large, read_length, check_host, check_framing, take_length, take_encoding,
  choose_state, settle, outcome, finish_headers,
}
use webserer_core.Host.{validate_host}
use webserer_core.Request.{HttpRequest, ParseState, HeaderMap, find, assign, contains}
use webserer_core.Parser.{with_request}
use webserer_core.Text.{str_tolower}
use webserer_core.Request.Map.{find-assign}

-- What changing the configuration leaves as it was.
record SameRequest (a b : HttpRequest) : Type 0 where
  headers_same : a.headers ≡ b.headers
  version_same : a.version ≡ b.version
  length_same : a.content_length ≡ b.content_length
  chunked_same : a.chunked ≡ b.chunked

override_from-SameRequest :
    (name : Bytes) (servers : List Server) (conn : Connection)
    → SameRequest (override_from name servers conn).request conn.request
unfolding override_from
override_from-SameRequest name [] conn = ground arith
override_from-SameRequest name (s ∷ servers) conn =
    ground (arith, override_from-SameRequest name servers conn)

abbrev Passed : (Connection → Type 0) → Stage → Type 0
Passed P (go conn) = P conn
Passed P (halt conn) = conn.request.parse_state ≡ ParseState.error

-- Host is there where the version asks for it, and no body is announced yet.
record HostThere (conn : Connection) : Type 0 where
  there : conn.request.version ≡ codes "HTTP/1.1" → contains host conn.request.headers ≡ true
  no_length : conn.request.content_length ≡ 0
  not_chunked : conn.request.chunked ≡ false

contains-assign : (k v : Bytes) (m : HeaderMap) → contains k (assign k v m) ≡ true
contains-assign k v m = ground (arith, find-assign k k v m, equal_iff k k)

named : Bytes → Connection → Connection
named name conn =
    let other = override_host name conn in
    with_request (record (other.request) { headers = assign host name (other.request).headers })
      other

named-HostThere :
    (name : Bytes) (conn : Connection)
    → conn.request.content_length ≡ 0
    → conn.request.chunked ≡ false
    → HostThere (named name conn)
unfolding named override_host
named-HostThere name conn l c =
    let same = override_from-SameRequest name conn.configuration conn in
    record {
      there = λ _. contains-assign host name _;
      no_length = same.length_same ∙ l;
      not_chunked = same.chunked_same ∙ c;
    }

second : (a b : Bool) → (a && not b) ≡ false → a ≡ true → b ≡ true
second a b h k = ground arith

check_host-HostThere :
    (conn : Connection)
    → conn.request.content_length ≡ 0
    → conn.request.chunked ≡ false
    → Passed HostThere (check_host conn)
check_host-HostThere conn l c =
    elim (Bool-cases
      (equal conn.request.version (codes "HTTP/1.1") && not (contains host conn.request.headers))) [
        | inl e ↦ unfold check_host in rw (check_host, e) refl
        | inr e ↦ elim (Option-cases (find host conn.request.headers)) [
          | inl z ↦
              unfold check_host in
              rw (check_host, e, z)
                (record {
                  there =
                      λ v. second _ _ e ((equal_iff conn.request.version (codes "HTTP/1.1")).1 v);
                  no_length = l;
                  not_chunked = c;
                })
          | inr (value, z) ↦ elim (Option-cases (validate_host value)) [
            | inl y ↦ unfold check_host in rw (check_host, e, z, y) refl
            | inr ((name, port), y) ↦
                unfold check_host named in rw (check_host, e, z, y) (named-HostThere name conn l c)
          ]
        ]
      ]

-- What holds of a request whose framing has been accepted.
pub record Framed (conn : Connection) : Type 0 where
  pub host_there :
      conn.request.version ≡ codes "HTTP/1.1" → contains host conn.request.headers ≡ true
  pub one_framing :
      (contains content_length_key conn.request.headers
        && contains transfer_encoding conn.request.headers)
      ≡ false
  pub within_limit : conn.request.content_length ≤ conn.config.client_max_body_size

record OneFraming (conn : Connection) : Type 0 where
  host_ok : HostThere conn
  one :
      (contains content_length_key conn.request.headers
        && contains transfer_encoding conn.request.headers)
      ≡ false

check_framing-OneFraming :
    (conn : Connection) → HostThere conn → Passed OneFraming (check_framing conn)
check_framing-OneFraming conn h =
    elim (Bool-cases (
      contains content_length_key conn.request.headers
      && contains transfer_encoding conn.request.headers)) [
        | inl e ↦ unfold check_framing in rw (check_framing, e) refl
        | inr e ↦ unfold check_framing in rw (check_framing, e) (record { host_ok = h; one = e })
      ]

read_length-le :
    (max_body cl n : ℕ) (text : Bytes)
    → cl ≤ max_body
    → read_length max_body cl text ≡ length_is n
    → n ≤ max_body
unfolding read_length
read_length-le max_body cl n [] h e = ground arith
read_length-le max_body cl n (c ∷ cs) h e =
    ground (arith, read_length-le max_body ((cl * 10 + (c - b'0')) % size_mod) n cs)

with_length : ℕ → Connection → Connection
with_length n conn = with_request (record (conn.request) { content_length = n }) conn

with_length-Framed :
    (n : ℕ) (conn : Connection)
    → OneFraming conn
    → n ≤ conn.config.client_max_body_size
    → Framed (with_length n conn) × ((with_length n conn).request.chunked ≡ false)
unfolding with_length
with_length-Framed n conn f h = (
  record { host_there = f.host_ok.there; one_framing = f.one; within_limit = h },
  f.host_ok.not_chunked,
)

abbrev Ready : Connection → Type 0
Ready conn = Framed conn × (conn.request.chunked ≡ false)

take_length-Ready_read :
    (conn : Connection) (text : Bytes) (r : Length)
    → OneFraming conn
    → find content_length_key conn.request.headers ≡ some text
    → is_nil text ≡ false
    → read_length conn.config.client_max_body_size 0 text ≡ r
    → Passed Ready (take_length conn)
unfolding take_length with_length
take_length-Ready_read conn text not_digits f z n e = rw (take_length, z, n, e) refl
take_length-Ready_read conn text too_large f z n e = rw (take_length, z, n, e) refl
take_length-Ready_read conn text (length_is k) f z n e =
    rw (take_length, z, n, e)
      (with_length-Framed k conn f
        (read_length-le conn.config.client_max_body_size 0 k text (omega arith) e))

take_length-Ready : (conn : Connection) → OneFraming conn → Passed Ready (take_length conn)
unfolding take_length
take_length-Ready conn f = elim (Option-cases (find content_length_key conn.request.headers)) [
  | inl z ↦
      rw (take_length, z)
        (
          record {
            host_there = f.host_ok.there;
            one_framing = f.one;
            within_limit = omega (arith, f.host_ok.no_length);
          },
          f.host_ok.not_chunked,
        )
  | inr (text, z) ↦ elim (Bool-cases (is_nil text)) [
    | inl n ↦ rw (take_length, z, n) refl
    | inr n ↦ take_length-Ready_read conn text _ f z n refl
  ]
]

Passed-bind :
    (P Q : Connection → Type 0) (m : Stage) (f : Connection → Stage)
    → Passed P m
    → ((c : Connection) → P c → Passed Q (f c))
    → Passed Q (m >>= f)
Passed-bind P Q (go c) f h k = k c h
Passed-bind P Q (halt c) f h k = h

-- How the state and the framing of an accepted request go together.
abbrev pub Decided : HttpRequest → Type 0
Decided req =
    ((req.parse_state ≡ ParseState.complete)
      × (req.chunked ≡ false)
      × (req.content_length ≡ 0)
      × (req.method ≢ codes "POST"))
    ⊎ ((req.parse_state ≡ ParseState.body) × ((req.chunked ≡ true) ⊎ (0 < req.content_length)))

take_encoding-Framed :
    (conn : Connection) → Framed conn → Framed (with_request (take_encoding conn.request) conn)
unfolding take_encoding
take_encoding-Framed conn f = elim (Option-cases (find transfer_encoding conn.request.headers)) [
  | inl z ↦ rw (take_encoding, z) f
  | inr (text, z) ↦ elim (Bool-cases (equal (str_tolower text) (codes "chunked"))) [
    | inl e ↦
        rw (take_encoding, z, e)
          (record {
            host_there = f.host_there;
            one_framing = f.one_framing;
            within_limit = omega arith;
          })
    | inr e ↦ rw (take_encoding, z, e) f
  ]
]

-- The connection behind the headers ends in an error, or its framing is settled.
abbrev pub Settled : Connection → Type 0
Settled conn = (conn.request.parse_state ≡ ParseState.error) ⊎ (Framed conn × Decided conn.request)

choose_state-Settled :
    (conn : Connection) → Framed conn → Settled (with_request (choose_state conn.request) conn)
unfolding choose_state
choose_state-Settled conn f =
    elim (Bool-cases (not conn.request.chunked && conn.request.content_length == 0)) [
      | inl e ↦ elim (Bool-cases (equal conn.request.method (codes "POST"))) [
        | inl p ↦ rw (choose_state, e, p) (inl refl)
        | inr p ↦
            rw (choose_state, e, p)
              (inr (
                record {
                  host_there = f.host_there;
                  one_framing = f.one_framing;
                  within_limit = f.within_limit;
                },
                inl (
                  refl,
                  ground arith,
                  ground arith,
                  ground (arith, equal_iff conn.request.method (codes "POST")),
                ),
              ))
      ]
      | inr e ↦
          rw (choose_state, e)
            (inr (
              record {
                host_there = f.host_there;
                one_framing = f.one_framing;
                within_limit = f.within_limit;
              },
              inr (refl, ground arith),
            ))
    ]

outcome-Settled : (m : Stage) → Passed Ready m → Settled (outcome m)
unfolding settle
outcome-Settled (go conn) h = choose_state-Settled _ (take_encoding-Framed conn h.0)
outcome-Settled (halt conn) h = inl h

-- Behind the blank line a fresh request ends in an error, or: Host is there in version 1.1; it does
-- not announce its body by both Content-Length and Transfer-Encoding; the length is within the
-- limit of the server that serves it; and it is complete, without a body and not a POST, or goes
-- on to a body that is chunked or of a positive length.
pub finish_headers-Settled :
    (conn : Connection)
    → conn.request.content_length ≡ 0
    → conn.request.chunked ≡ false
    → Settled (finish_headers conn)
unfolding finish_headers
finish_headers-Settled conn l c = outcome-Settled _ (
    Passed-bind OneFraming Ready (check_host conn >>= check_framing) take_length
      (Passed-bind HostThere OneFraming (check_host conn) check_framing
        (check_host-HostThere conn l c) check_framing-OneFraming)
      take_length-Ready)
