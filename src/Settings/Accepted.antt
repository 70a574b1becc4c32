-- ===== src/Settings/Accepted.antt =====
-- What the directives of conf/server_parser.cpp and conf/location_parser.cpp let through.
use webserer_core.Base.{
  ℕ, ◌+◌, ◌≤◌, inl, inr, List, [], ◌∷◌, arith, Option, none, some, Bytes, codes, is_nil, equal,
  some_or_throw, Ensures, Ensures-bind, Ensures-if, Ensures-thrown, Ensures-returned, take, drop,
  Ensures-some_or_throw, Ensures-guard, Option-cases, ltb, Bool-cases,
}
use webserer_core.Config.{Location, Server}
use webserer_core.Config.Match.{All}
use webserer_core.Numerals.{safe_strtol, int_within, is_valid_host}
use webserer_core.Numerals.Bounds.{int_within-bounds}
use webserer_core.Settings.{
  one_value, front, number_within, set_pages, set_page, split_back, error_page, listen_host, listen,
  body_size, set_server, max_body_limit, no_empty,
}
use webserer_core.Target.{find_byte}

abbrev pub Anything {ℓ} : {A : Type ℓ} → A → Type 0
Anything a = Unit {0}

pub number_within-Ensures :
    (lo hi : ℕ) (value : Bytes) → Ensures (λ n. (lo ≤ n) × (n ≤ hi)) (number_within lo hi value)
unfolding number_within
number_within-Ensures lo hi value =
    Ensures-bind {P = Anything} (some_or_throw (safe_strtol value))
      (Ensures-some_or_throw (safe_strtol value) (λ n e. tt))
      (λ n h. Ensures-some_or_throw (int_within lo hi n) (λ m e. int_within-bounds lo hi n e))

pub one_value-Ensures : (values : List Bytes) → Ensures Anything (one_value values)
unfolding one_value
one_value-Ensures [] = Ensures-thrown
one_value-Ensures (value ∷ []) = Ensures-returned value tt
one_value-Ensures (value ∷ next ∷ rest) = Ensures-thrown

front-Ensures : (values : List Bytes) → Ensures Anything (front values)
unfolding front
front-Ensures [] = Ensures-thrown
front-Ensures (value ∷ values) = Ensures-returned value tt

split_back-Ensures : (values : List Bytes) → Ensures Anything (split_back values)
unfolding split_back
split_back-Ensures [] = Ensures-thrown
split_back-Ensures (value ∷ []) = Ensures-thrown
split_back-Ensures (value ∷ last ∷ []) = Ensures-returned _ tt
split_back-Ensures (value ∷ next ∷ more ∷ rest) =
    Ensures-bind (split_back (next ∷ more ∷ rest)) (split_back-Ensures (next ∷ more ∷ rest))
      (λ r h. Ensures-returned _ tt)

set_pages-Ensures :
    (path : Bytes) (codes : List Bytes) (pages : List (ℕ × Bytes))
    → Ensures Anything (set_pages path codes pages)
unfolding set_pages
set_pages-Ensures path [] pages = Ensures-returned pages tt
set_pages-Ensures path (code ∷ codes) pages =
    Ensures-bind (number_within 300 599 code) (number_within-Ensures 300 599 code)
      (λ n h. set_pages-Ensures path codes (set_page n path pages))

pub error_page-Ensures :
    (values : List Bytes) (pages : List (ℕ × Bytes)) → Ensures Anything (error_page values pages)
unfolding error_page
error_page-Ensures values pages =
    Ensures-bind (split_back values) (split_back-Ensures values)
      (λ r h. set_pages-Ensures r.1 r.0 pages)

listen_host-Ensures : (host : Bytes) → Ensures Anything (listen_host host)
unfolding listen_host
listen_host-Ensures host =
    Ensures-if (equal host (codes "*")) (λ e. Ensures-returned _ tt)
      (λ e.
        Ensures-if (equal host (codes "localhost")) (λ e. Ensures-returned _ tt)
          (λ e. Ensures-if (is_valid_host host) (λ e. Ensures-returned _ tt) (λ e. Ensures-thrown)))

-- A port that is set is one.
abbrev pub PortIn : Option ℕ → Type 0
PortIn none = Unit {0}
PortIn (some port) = (1 ≤ port) × (port ≤ 65535)

-- The limits on what a server block has set; `P` holds of its locations.
pub record Within (P : Location → Type 0) (port : Option ℕ) (timeout limit : ℕ)
    (locs : List Location) : Type 0 where
  pub port_in : PortIn port
  pub timeout_in : timeout ≤ 3600
  pub limit_in : limit ≤ max_body_limit
  pub locations_ok : All P locs

-- A server block while it is read.
abbrev pub ServerPart : (Location → Type 0) → Server → Type 0
ServerPart P server =
    Within P server.port server.timeout_seconds server.client_max_body_size server.locations

module _ {P : Location → Type 0} (server : Server) (s : ServerPart P server) where
  with_port :
      (host : Bytes) (port : ℕ)
      → (1 ≤ port) × (port ≤ 65535)
      → ServerPart P (record server { host = host; port = some port })
  with_port host port h = record {
    port_in = h;
    timeout_in = s.timeout_in;
    limit_in = s.limit_in;
    locations_ok = s.locations_ok;
  }

  listen-Ensures : (val : Bytes) → Ensures (ServerPart P) (listen val server)
  unfolding listen
  listen-Ensures val = elim (Option-cases (find_byte b':' val)) [
    | inr (n, e) ↦
        rw (listen, e)
          (Ensures-bind (listen_host (take n val)) (listen_host-Ensures (take n val)) (λ host h.
            Ensures-bind (number_within 1 65535 (drop (n + 1) val))
              (number_within-Ensures 1 65535 (drop (n + 1) val))
              (λ port k. Ensures-returned _ (with_port host port k))))
    | inl e ↦ elim (Option-cases (safe_strtol val)) [
      | inr (n, z) ↦
          rw (listen, e, z)
            (Ensures-bind {P = λ p. (1 ≤ p) × (p ≤ 65535)} (some_or_throw (int_within 1 65535 n))
              (Ensures-some_or_throw (int_within 1 65535 n) (λ m k. int_within-bounds 1 65535 n k))
              (λ port k. Ensures-returned _ (with_port (codes "0.0.0.0") port k)))
      | inl z ↦ elim (Bool-cases (is_valid_host val)) [
        | inl y ↦ rw (listen, e, z, y) (Ensures-returned _ (with_port val 9090 (omega arith)))
        | inr y ↦ rw (listen, e, z, y) Ensures-thrown
      ]
    ]
  ]

pub body_size-Ensures :
    (size_of : Bytes → Option ℕ) (values : List Bytes)
    → Ensures (λ size. size ≤ max_body_limit) (body_size size_of values)
unfolding body_size
body_size-Ensures size_of values =
    Ensures-bind (one_value values) (one_value-Ensures values) (λ value h.
      Ensures-bind {P = Anything} (some_or_throw (size_of value))
        (Ensures-some_or_throw (size_of value) (λ size e. tt))
        (λ size k.
          Ensures-if (ltb max_body_limit size) (λ e. Ensures-thrown)
            (λ e. Ensures-returned size (ground arith))))

module _ (size_of : Bytes → Option ℕ) {P : Location → Type 0} where
  pub set_server-Ensures :
      (directive : Bytes) (values : List Bytes) (server : Server)
      → ServerPart P server
      → Ensures (ServerPart P) (set_server size_of directive values server)
  unfolding set_server
  set_server-Ensures directive values server s =
      Ensures-if (is_nil values) (λ e. Ensures-thrown)
        (λ e.
          Ensures-if (equal directive (codes "listen"))
            (λ e.
              Ensures-bind (one_value values) (one_value-Ensures values)
                (λ value h. listen-Ensures server s value))
            (λ e.
              Ensures-if (equal directive (codes "root"))
                (λ e.
                  Ensures-bind (one_value values) (one_value-Ensures values)
                    (λ value h. Ensures-returned _ s))
                (λ e.
                  Ensures-if (equal directive (codes "index"))
                    (λ e. Ensures-guard (no_empty values) (λ n. Ensures-returned _ s))
                    (λ e.
                      Ensures-if (equal directive (codes "server_name"))
                        (λ e.
                          Ensures-bind (front values) (front-Ensures values)
                            (λ name h. Ensures-returned _ s))
                        (λ e.
                          Ensures-if (equal directive (codes "client_max_body_size"))
                            (λ e.
                              Ensures-bind (body_size size_of values)
                                (body_size-Ensures size_of values)
                                (λ size h. Ensures-returned _ (record {
                                  port_in = s.port_in;
                                  timeout_in = s.timeout_in;
                                  limit_in = h;
                                  locations_ok = s.locations_ok;
                                })))
                            (λ e.
                              Ensures-if (equal directive (codes "timeout"))
                                (λ e.
                                  Ensures-bind (one_value values) (one_value-Ensures values)
                                    (λ value h.
                                      Ensures-bind (number_within 1 3600 value)
                                        (number_within-Ensures 1 3600 value)
                                        (λ seconds k. Ensures-returned _ (record {
                                          port_in = s.port_in;
                                          timeout_in = k.1;
                                          limit_in = s.limit_in;
                                          locations_ok = s.locations_ok;
                                        }))))
                                (λ e.
                                  Ensures-if (equal directive (codes "error_page"))
                                    (λ e.
                                      Ensures-bind (error_page values server.error_page)
                                        (error_page-Ensures values server.error_page)
                                        (λ pages h. Ensures-returned _ s))
                                    (λ e. Ensures-thrown))))))))
