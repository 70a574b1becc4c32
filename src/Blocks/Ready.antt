-- ===== src/Blocks/Ready.antt =====
-- What `parsServer` of conf/server_parser.cpp and `parsHTTP` of conf/parserConf.cpp let through.
use webserer_core.Base.{
  ℕ, zero, suc, ◌≤◌, ◌<◌, ◌≡◌, refl, Bool, true, false, not, ◌==◌, List, [], ◌∷◌, ◌++◌, arith,
  Option, none, some, Bytes, codes, is_nil, length, equal, map, Ensures, Ensures-bind, Ensures-if,
  Ensures-thrown, Ensures-returned, Ensures-mono, Ensures-guard, Bool-cases, inl, inr,
}
use webserer_core.Blocks.{
  Tokens, is_directive, is_rbrace, is_context, consume_values, open_brace, is_repeated, now_seen,
  server_unique, all_extensions, paths_differ,
}
use webserer_core.Blocks.Nested.{
  location_of, server_of, parse_location, check_for_allowed_methods, complete_location,
  finish_server, server_loop, parse_server, http_loop, parse_http, index_names_ok, is_set,
}
use webserer_core.Blocks.Progress.{
  consume_values-Ensures, open_brace-Ensures, parse_location-Ensures,
}
use webserer_core.Config.{Location, Server}
use webserer_core.Config.Match.{All, All-++}
use webserer_core.Settings.{
  set_server, set_http, Http, max_body_limit, body_size, error_page, is_method,
}
use webserer_core.Settings.Accepted.{
  ServerPart, set_server-Ensures, body_size-Ensures, error_page-Ensures,
}
use webserer_core.Settings.Allowed.{LocationPart}

-- A location block that was read: its path begins with a slash, it allows a method, and only those that are known, a redirection has a redirecting code, and the body limit fits an `int`.
pub record LocationReady (loc : Location) : Type 0 where
  pub part : LocationPart loc
  pub has_method : is_nil loc.allowed_methods ≡ false

check_for_allowed_methods-Ready :
    (loc : Location) → LocationPart loc → LocationReady (check_for_allowed_methods loc)
unfolding check_for_allowed_methods is_method equal
check_for_allowed_methods-Ready loc h = elim (Bool-cases (is_nil loc.allowed_methods)) [
  | inl e ↦ rw (e) (record {
    part = record {
      path_from_root = h.path_from_root;
      methods_known = (refl, tt);
      code_in = h.code_in;
      limit_in = h.limit_in;
    };
    has_method = refl;
  })
  | inr e ↦ rw (e) (record { part = h; has_method = e })
]

complete_location-Ready :
    (server : Server) (loc : Location)
    → server.client_max_body_size ≤ max_body_limit
    → LocationReady loc
    → LocationReady (complete_location server loc)
unfolding complete_location
complete_location-Ready server loc limit h = record {
  part = record {
    path_from_root = h.part.path_from_root;
    methods_known = h.part.methods_known;
    code_in = h.part.code_in;
    limit_in = (let l = h.part.limit_in in ground arith);
  };
  has_method = h.has_method;
}

All-map :
    {A B : Type 0} (P : A → Type 0) (Q : B → Type 0) (f : A → B) (xs : List A)
    → ((a : A) → P a → Q (f a))
    → All P xs
    → All Q (map f xs)
All-map P Q f [] k h = tt
All-map P Q f (x ∷ xs) k (p, h) = (k x p, All-map P Q f xs k h)

module _ (size_of : Bytes → Option ℕ) where
  server_loop-Ensures :
      (rounds : ℕ) (seen : List Bytes) (server : Server) (ts : Tokens)
      → length ts < rounds
      → ServerPart LocationReady server
      → Ensures
          (λ r. ServerPart LocationReady r.0 × (length r.1 < length ts))
          (server_loop size_of rounds seen server ts)
  unfolding server_loop
  server_loop-Ensures zero seen server ts n h = absurd (omega (arith, n))
  server_loop-Ensures (suc rounds) seen server [] n h = Ensures-thrown
  server_loop-Ensures (suc rounds) seen server (t ∷ ts) n h =
      Ensures-if (is_rbrace t) (λ e. Ensures-returned _ (h, (omega arith)))
        (λ e.
          Ensures-if (is_context (codes "location") t)
            (λ k.
              Ensures-bind (parse_location size_of (location_of server) ts)
                (parse_location-Ensures size_of server ts h.limit_in)
                (λ r d.
                  Ensures-mono _
                    (server_loop-Ensures rounds seen _ r.1 (omega (arith, d.1, n)) (record {
                      port_in = h.port_in;
                      timeout_in = h.timeout_in;
                      limit_in = h.limit_in;
                      locations_ok =
                          All-++ _ server.locations _ h.locations_ok
                            (check_for_allowed_methods-Ready r.0 d.0, tt);
                    }))
                    (λ s q. (q.0, (omega (arith, q.1, d.1))))))
            (λ k.
              Ensures-if (is_directive t)
                (λ k.
                  Ensures-if (is_repeated server_unique seen t.text) (λ f. Ensures-thrown)
                    (λ f. Ensures-bind (consume_values ts) (consume_values-Ensures ts) (λ r d.
                      Ensures-bind (set_server size_of t.text r.0 server)
                        (set_server-Ensures size_of t.text r.0 server h)
                        (λ next p.
                          Ensures-mono _
                            (server_loop-Ensures rounds (now_seen server_unique seen t.text) next
                              r.1 (omega (arith, d, n)) p)
                            (λ s q. (q.0, (omega (arith, q.1, d))))))))
                (λ k. Ensures-thrown)))

nonempty : {A : Type 0} (xs : List A) (x : A) → is_nil (xs ++ x ∷ []) ≡ false
nonempty [] x = refl
nonempty (y ∷ xs) x = refl

is_set-some : (o : Option ℕ) → is_set o ≡ true → (n : ℕ) × (o ≡ some n)
is_set-some none e = absurd (cc)
is_set-some (some n) e = (n, refl)

-- A server block that was read.
pub record ServerReady (server : Server) : Type 0 where
  pub part : ServerPart LocationReady server
  pub has_port : (port : ℕ) × (server.port ≡ some port)
  pub has_root : is_nil server.root ≡ false
  pub has_index : is_nil server.index_files ≡ false
  pub timeout_set : 1 ≤ server.timeout_seconds
  pub indices_ok : all_extensions server.index_files ≡ true
  pub paths_ok : paths_differ [] server.locations ≡ true

finish_server-Ensures :
    (server : Server) → ServerPart LocationReady server → Ensures ServerReady (finish_server server)
unfolding finish_server
finish_server-Ensures server h = Ensures-guard (is_set server.port) (λ port.
    Ensures-guard (not (is_nil server.root)) (λ root.
      Ensures-guard (not (is_nil server.index_files)) (λ index.
        Ensures-guard (all_extensions server.index_files) (λ names.
          Ensures-guard (not (server.timeout_seconds == 0)) (λ timeout.
            Ensures-guard (index_names_ok (map (complete_location server) server.locations)) (λ ok.
              Ensures-guard (paths_differ [] (map (complete_location server) server.locations))
                (λ differ. Ensures-returned _ (record {
                  part = record {
                    port_in = h.port_in;
                    timeout_in = h.timeout_in;
                    limit_in = h.limit_in;
                    locations_ok =
                        All-map _ _ _ server.locations
                          (λ loc k. complete_location-Ready server loc h.limit_in k) h.locations_ok;
                  };
                  has_port = is_set-some server.port port;
                  has_root = ground arith;
                  has_index = ground arith;
                  timeout_set = ground arith;
                  indices_ok = names;
                  paths_ok = differ;
                }))))))))

-- The http block while it is read.
pub record HttpPart (exist_server : Bool) (http : Http) : Type 0 where
  pub limit_in : http.client_max_body_size ≤ max_body_limit
  pub servers_ready : All ServerReady http.servers
  pub has_server : exist_server ≡ true → is_nil http.servers ≡ false

module _ (size_of : Bytes → Option ℕ) where
  pub parse_server-Ensures :
      (http : Http) (ts : Tokens)
      → http.client_max_body_size ≤ max_body_limit
      → Ensures
          (λ r. ServerReady r.0 × (length r.1 < length ts))
          (parse_server size_of (server_of http) ts)
  unfolding parse_server server_of
  parse_server-Ensures http ts limit =
      Ensures-bind (open_brace ts) (open_brace-Ensures ts) (λ inside d.
        Ensures-bind (server_loop size_of (suc (length inside)) [] (server_of http) inside)
          (server_loop-Ensures size_of (suc (length inside)) [] (server_of http) inside
            (omega arith)
            (record {
              port_in = tt;
              timeout_in = omega arith;
              limit_in = limit;
              locations_ok = tt;
            }))
          (λ r h.
            Ensures-bind (finish_server r.0) (finish_server-Ensures r.0 h.0)
              (λ finished k. Ensures-returned _ (k, (omega (arith, h.1, d))))))

  set_http-Ensures :
      (directive : Bytes) (values : List Bytes) (exist_server : Bool) (http : Http)
      → HttpPart exist_server http
      → Ensures (HttpPart exist_server) (set_http size_of directive values http)
  unfolding set_http
  set_http-Ensures directive values exist_server http h =
      Ensures-if (is_nil values) (λ e. Ensures-thrown)
        (λ e.
          Ensures-if (equal directive (codes "client_max_body_size"))
            (λ e.
              Ensures-bind (body_size size_of values) (body_size-Ensures size_of values) (λ size k.
                Ensures-returned _ (record {
                  limit_in = k;
                  servers_ready = h.servers_ready;
                  has_server = h.has_server;
                })))
            (λ e.
              Ensures-if (equal directive (codes "error_page"))
                (λ e.
                  Ensures-bind (error_page values http.error_page)
                    (error_page-Ensures values http.error_page)
                    (λ pages k. Ensures-returned _ (record {
                      limit_in = h.limit_in;
                      servers_ready = h.servers_ready;
                      has_server = h.has_server;
                    })))
                (λ e. Ensures-thrown)))

  http_loop-Ensures :
      (rounds : ℕ) (exist_server : Bool) (http : Http) (ts : Tokens)
      → length ts < rounds
      → HttpPart exist_server http
      → Ensures
          (λ r. HttpPart (r.0).0 (r.0).1 × (length r.1 < length ts))
          (http_loop size_of rounds exist_server http ts)
  unfolding http_loop
  http_loop-Ensures zero exist_server http ts n h = absurd (omega (arith, n))
  http_loop-Ensures (suc rounds) exist_server http [] n h = Ensures-thrown
  http_loop-Ensures (suc rounds) exist_server http (t ∷ ts) n h =
      Ensures-if (is_rbrace t) (λ e. Ensures-returned _ (h, (omega arith)))
        (λ e.
          Ensures-if (is_context (codes "server") t)
            (λ k.
              Ensures-bind (parse_server size_of (server_of http) ts)
                (parse_server-Ensures http ts h.limit_in)
                (λ r d.
                  Ensures-mono _
                    (http_loop-Ensures rounds true _ r.1 (omega (arith, d.1, n)) (record {
                      limit_in = h.limit_in;
                      servers_ready = All-++ _ http.servers _ h.servers_ready (d.0, tt);
                      has_server = λ e. nonempty http.servers r.0;
                    }))
                    (λ s q. (q.0, (omega (arith, q.1, d.1))))))
            (λ k.
              Ensures-if (is_directive t)
                (λ k. Ensures-bind (consume_values ts) (consume_values-Ensures ts) (λ r d.
                  Ensures-bind (set_http size_of t.text r.0 http)
                    (set_http-Ensures t.text r.0 exist_server http h)
                    (λ next p.
                      Ensures-mono _
                        (http_loop-Ensures rounds exist_server next r.1 (omega (arith, d, n)) p)
                        (λ s q. (q.0, (omega (arith, q.1, d)))))))
                (λ k. Ensures-thrown)))

  pub parse_http-Ensures :
      (http : Http) (ts : Tokens)
      → HttpPart false http
      → Ensures
          (λ r. HttpPart (r.0).0 (r.0).1 × (length r.1 < length ts))
          (parse_http size_of http ts)
  unfolding parse_http
  parse_http-Ensures http ts h = Ensures-bind (open_brace ts) (open_brace-Ensures ts) (λ inside d.
      Ensures-mono _ (http_loop-Ensures (suc (length inside)) false http inside (omega arith) h)
        (λ s q. (q.0, (omega (arith, q.1, d)))))
