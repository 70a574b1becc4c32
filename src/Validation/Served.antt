-- ===== src/Validation/Served.antt =====
-- The servers that `API_conf` of src/API_conf.cpp hands over.
use webserer_core.Base.{
  ℕ, suc, ◌≤◌, ◌≡◌, refl, Bool, true, false, not, ◌&&◌, ◌||◌, ◌==◌, List, [], ◌∷◌, arith, Option,
  none, some, Bytes, is_nil, length, leb, ap, char_at, Ensures, Ensures-bind, Ensures-if,
  Ensures-thrown, Ensures-returned, Ensures-mono, Ensures-outcome_map, Ensures-guard,
}
use webserer_core.Blocks.Ready.{ServerReady}
use webserer_core.Blocks.Top.{parse_conf}
use webserer_core.Blocks.Whole.{parse_conf-Ensures}
use webserer_core.Config.{Server}
use webserer_core.Config.Match.{All, All-mono}
use webserer_core.Lexing.{
  lex, check_valid_content, remove_comments, insert_space, is_blank_text, refactoring_buffer,
  strip_comments, is_quote, is_space, is_valid,
}
use webserer_core.Settings.{max_body_limit}
use webserer_core.Settings.Accepted.{PortIn, Anything}
use webserer_core.Sizes.{Doubles, parse_cl_mx_bd_sz}
use webserer_core.Validation.Limits.{ServerServed, validate_locations-Ensures}
use webserer_core.Validation.{
  Files, max_servers, pages_ok, codes_ok, same_key, is_duplicate, limit_of, validate_locations,
  validate_server, validate_servers, validate_final_config, api_conf,
}

-- No two servers have both the port and the name in common.
pub Distinct : List Server → Type 0
Distinct [] = Unit {0}
Distinct (server ∷ servers) =
    All (λ other. same_key server other ≡ false) servers × Distinct servers

limit_of-max :
    (http_default : ℕ) (server : Server)
    → http_default ≤ max_body_limit
    → server.client_max_body_size ≤ max_body_limit
    → (1 ≤ limit_of http_default server) × (limit_of http_default server ≤ max_body_limit)
limit_of-max http_default server h k = ((ground arith), (ground arith))

port_of :
    (o : Option ℕ)
    → (n : ℕ) × (o ≡ some n)
    → PortIn o
    → (n : ℕ) × (o ≡ some n) × (1 ≤ n) × (n ≤ 65535)
port_of none (n, e) h = absurd (cc)
port_of (some n) e h = (n, refl, h.0, h.1)

is_duplicate-key :
    (server other : Server) (seen : List Server)
    → server.port ≡ other.port
    → server.server_name ≡ other.server_name
    → is_duplicate other seen ≡ is_duplicate server seen
unfolding is_duplicate
is_duplicate-key server other [] p n = refl
is_duplicate-key server other (last ∷ seen) p n =
    rw (p, n, is_duplicate-key server other seen p n) refl

module _ (files : Files) (http_default : ℕ) (limit : http_default ≤ max_body_limit) where
  -- A server that passed, beside those that passed before it.
  abbrev Passed : List Server → Server → Type 0
  Passed seen server = ServerServed files server × (is_duplicate server seen ≡ false)

  validate_server-Ensures :
      (seen : List Server) (server : Server)
      → ServerReady server
      → Ensures
          (λ checked.
            Passed seen checked
            × ((other : Server) → same_key checked other ≡ same_key server other))
          (validate_server files http_default seen server)
  unfolding validate_server is_duplicate
  validate_server-Ensures seen server r = Ensures-guard (not (is_duplicate server seen)) (λ fresh.
      Ensures-guard (char_at server.root 0 == b'.' || char_at server.root 0 == b'/') (λ from.
        Ensures-guard (files.is_directory server.root) (λ root.
          Ensures-guard (codes_ok server.error_page && pages_ok files server.error_page) (λ pages.
            let l = limit_of-max http_default server limit ((r.part).limit_in) in
            Ensures-bind (validate_locations files (limit_of http_default server) server.locations)
              (validate_locations-Ensures files (limit_of http_default server) server.locations l
                (r.part).locations_ok)
              (λ locs h. Ensures-returned _ (
                (
                  record {
                    port_set = port_of server.port r.has_port (r.part).port_in;
                    timeout_set = (r.timeout_set, (r.part).timeout_in);
                    limit_set = l;
                    root_there = root;
                    codes_in = ground arith;
                    pages_there = ground arith;
                    has_index = r.has_index;
                    locations_served = h;
                  },
                  rw
                      (is_duplicate-key server
                        (record server {
                          client_max_body_size = limit_of http_default server;
                          locations = locs;
                        })
                        seen refl refl)
                      (ground arith),
                ),
                λ other. refl,
              ))))))

  validate_servers-Ensures :
      (seen servers : List Server)
      → All ServerReady servers
      → Ensures
          (λ rs. All (Passed seen) rs × Distinct rs × (length rs ≡ length servers))
          (validate_servers files http_default seen servers)
  unfolding validate_servers Distinct is_duplicate
  validate_servers-Ensures seen [] r = Ensures-returned [] (tt, tt, refl)
  validate_servers-Ensures seen (server ∷ servers) (r, rs) =
      Ensures-bind (validate_server files http_default seen server)
        (validate_server-Ensures seen server r)
        (λ checked h.
          Ensures-bind (validate_servers files http_default (server ∷ seen) servers)
            (validate_servers-Ensures (server ∷ seen) servers rs)
            (λ rest k. Ensures-returned _ (
              (h.0, All-mono (λ s d. (d.0, let f = d.1 in ground arith)) rest k.0),
              (
                All-mono {Q = λ other. same_key checked other ≡ false}
                    (λ s d. rw (h.1 s) (let f = d.1 in ground arith)) rest k.0,
                k.1,
              ),
              ap suc k.2,
            )))

  pub validate_final_config-Ensures :
      (servers : List Server)
      → All ServerReady servers
      → Ensures
          (λ rs.
            All (ServerServed files) rs
            × Distinct rs
            × (length rs ≡ length servers)
            × (length rs ≤ max_servers))
          (validate_final_config files http_default servers)
  unfolding validate_final_config
  validate_final_config-Ensures servers r = Ensures-guard (leb (length servers) max_servers) (λ e.
      Ensures-mono _ (validate_servers-Ensures [] servers r)
        (λ rs h. (All-mono (λ s k. k.0) rs h.0, h.1, h.2, let k = h.2 in ground arith)))

check_valid_content-Ensures : (text : Bytes) → Ensures Anything (check_valid_content text)
unfolding check_valid_content
check_valid_content-Ensures [] = Ensures-returned tt tt
check_valid_content-Ensures (c ∷ text) =
    Ensures-if (is_valid c) (λ e. check_valid_content-Ensures text) (λ e. Ensures-thrown)

strip_comments-Ensures :
    (inside starts : Bool) (text : Bytes) → Ensures Anything (strip_comments inside starts text)
unfolding strip_comments
strip_comments-Ensures true starts [] = Ensures-returned [] tt
strip_comments-Ensures false starts [] = Ensures-returned [] tt
strip_comments-Ensures true starts (c ∷ cs) =
    Ensures-if (c == b'\n')
      (λ e. Ensures-outcome_map (◌∷◌ c) _ (strip_comments-Ensures false true cs) (λ t h. tt))
      (λ e. strip_comments-Ensures true false cs)
strip_comments-Ensures false starts (c ∷ cs) =
    Ensures-if (is_quote c) (λ e. Ensures-thrown)
      (λ e.
        Ensures-if (c == b'#' && starts) (λ k. strip_comments-Ensures true false cs)
          (λ k.
            Ensures-outcome_map (◌∷◌ c) _ (strip_comments-Ensures false (is_space c) cs)
              (λ t h. tt)))

lex-Ensures : (content : Bytes) → Ensures Anything (lex content)
unfolding lex remove_comments
lex-Ensures content = Ensures-guard (not (is_nil content)) (λ e.
    Ensures-bind (check_valid_content content) (check_valid_content-Ensures content) (λ u h.
      Ensures-bind (remove_comments (insert_space content))
        (strip_comments-Ensures false true (insert_space content))
        (λ text k.
          Ensures-guard (not (is_blank_text (refactoring_buffer text)))
            (λ f. Ensures-returned _ tt))))

length-nonempty :
    {A B : Type 0} (xs : List A) (ys : List B)
    → length xs ≡ length ys
    → is_nil ys ≡ false
    → 1 ≤ length xs
length-nonempty [] [] e h = absurd (cc)
length-nonempty [] (y ∷ ys) e h = absurd (omega (arith, e))
length-nonempty (x ∷ xs) ys e h = omega arith

-- Whatever the text, the files and the arithmetic of `double`, `API_conf` ends on an open file. And if
-- it hands servers over, they are 1 to 20, no two have both port and name in common, and each has a
-- port, a timeout, a limit, pages and locations that passed the tests of them.
pub api_conf-Ensures :
    {Double : Type 0} (files : Files) (d : Doubles Double) (content : Bytes)
    → Ensures
        (λ servers.
          All (ServerServed files) servers
          × Distinct servers
          × (1 ≤ length servers)
          × (length servers ≤ max_servers))
        (api_conf files d content)
unfolding api_conf
api_conf-Ensures files d content = Ensures-bind (lex content) (lex-Ensures content) (λ stream h.
    Ensures-bind (parse_conf (parse_cl_mx_bd_sz d) stream)
      (parse_conf-Ensures (parse_cl_mx_bd_sz d) stream)
      (λ http r.
        Ensures-mono _
          (validate_final_config-Ensures files http.client_max_body_size r.limit_in http.servers
            r.servers_ready)
          (λ rs k. (k.0, k.1, length-nonempty rs http.servers k.2 r.has_server, k.3))))
