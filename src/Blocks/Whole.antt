-- ===== src/Blocks/Whole.antt =====
-- The loop of `parsing_lexems` in conf/parsing.cpp ends, whatever the tokens.
use webserer_core.Base.{
  ℕ, zero, suc, ◌≤◌, ◌<◌, ◌≡◌, refl, false, ◌&&◌, [], ◌∷◌, arith, Option, Bytes, codes, is_nil,
  length, ltb, Ensures, Ensures-bind, Ensures-if, Ensures-thrown, Ensures-returned, Ensures-mono,
  Ensures-guard, Bool-cases, inl, inr,
}
use webserer_core.Blocks.{
  Tokens, is_directive, is_rbrace, is_lbrace, is_end, is_context, consume_values, open_brace,
}
use webserer_core.Blocks.Nested.{parse_http}
use webserer_core.Blocks.Progress.{consume_values-Ensures, open_brace-Ensures}
use webserer_core.Blocks.Ready.{HttpPart, ServerReady, parse_http-Ensures}
use webserer_core.Blocks.Top.{Conf, new_conf, events_loop, parse_events, top_loop, parse_conf}
use webserer_core.Config.Match.{All}
use webserer_core.Settings.{set_events, Http, Events, max_body_limit}

events_loop-Ensures :
    (rounds : ℕ) (events : Events) (ts : Tokens)
    → length ts < rounds
    → Ensures (λ r. length r.1 < length ts) (events_loop rounds events ts)
unfolding events_loop
events_loop-Ensures zero events ts n = absurd (omega (arith, n))
events_loop-Ensures (suc rounds) events [] n = Ensures-thrown
events_loop-Ensures (suc rounds) events (t ∷ ts) n =
    Ensures-if (is_rbrace t) (λ e. Ensures-returned _ (omega arith))
      (λ e.
        Ensures-if (is_lbrace t) (λ k. Ensures-thrown)
          (λ k.
            Ensures-if (is_directive t)
              (λ f. Ensures-bind (consume_values ts) (consume_values-Ensures ts) (λ r d.
                Ensures-mono _
                  (events_loop-Ensures rounds (set_events t.text r.0 events) r.1
                    (omega (arith, d, n)))
                  (λ s q. omega (arith, q, d))))
              (λ f.
                Ensures-mono _ (events_loop-Ensures rounds events ts (omega (arith, n)))
                  (λ s q. omega (arith, q)))))

parse_events-Ensures : (ts : Tokens) → Ensures (λ r. length r.1 < length ts) (parse_events ts)
unfolding parse_events
parse_events-Ensures ts = Ensures-bind (open_brace ts) (open_brace-Ensures ts) (λ inside d.
    Ensures-mono _ (events_loop-Ensures (suc (length inside)) _ inside (omega arith))
      (λ s q. omega (arith, q, d)))

-- What has been read when a block ends.
record ConfPart (conf : Conf) : Type 0 where
  pub http_part : HttpPart conf.exist_server conf.http
  pub server_in_http : conf.exist_http ≡ false → conf.exist_server ≡ false

-- A configuration that was read, before its files are looked for.
pub record HttpReady (http : Http) : Type 0 where
  pub limit_from : 20000 ≤ http.client_max_body_size
  pub limit_in : http.client_max_body_size ≤ max_body_limit
  pub servers_ready : All ServerReady http.servers
  pub has_server : is_nil http.servers ≡ false

module _ (size_of : Bytes → Option ℕ) where
  top_loop-Ensures :
      (rounds : ℕ) (conf : Conf) (ts : Tokens)
      → length ts < rounds
      → ConfPart conf
      → Ensures ConfPart (top_loop size_of rounds conf ts)
  unfolding top_loop
  top_loop-Ensures zero conf ts n h = absurd (omega (arith, n))
  top_loop-Ensures (suc rounds) conf [] n h = Ensures-returned conf h
  top_loop-Ensures (suc rounds) conf (t ∷ ts) n h =
      Ensures-if (is_context (codes "events") t)
        (λ e. Ensures-bind (parse_events ts) (parse_events-Ensures ts) (λ r d.
          top_loop-Ensures rounds _ r.1 (omega (arith, d, n))
            (record { http_part = h.http_part; server_in_http = h.server_in_http })))
        (λ e.
          Ensures-if (is_context (codes "http") t)
            (λ k.
              Ensures-if conf.exist_http (λ f. Ensures-thrown)
                (λ f.
                  Ensures-bind (parse_http size_of conf.http ts)
                    (parse_http-Ensures size_of conf.http ts (record {
                      limit_in = (h.http_part).limit_in;
                      servers_ready = (h.http_part).servers_ready;
                      has_server = λ e. absurd (cc);
                    }))
                    (λ r d. top_loop-Ensures rounds _ r.1 (omega (arith, d.1, n)) (record {
                      http_part = record {
                        limit_in = (d.0).limit_in;
                        servers_ready = (d.0).servers_ready;
                        has_server =
                            (let z = h.server_in_http f in λ e. (d.0).has_server (ground arith));
                      };
                      server_in_http = λ e. absurd (cc);
                    }))))
            (λ k. Ensures-if (is_end t) (λ f. Ensures-returned conf h) (λ f. Ensures-thrown)))

  -- Whatever the tokens, reading them ends: each loop is given enough rounds. And if a configuration
  -- comes out, it has a server, its limit is between 20000 and the largest `int`, and of each server
  -- and location the port, timeout, limit, methods, codes and paths are as they may be.
  pub parse_conf-Ensures : (ts : Tokens) → Ensures HttpReady (parse_conf size_of ts)
  unfolding parse_conf new_conf
  parse_conf-Ensures ts =
      Ensures-bind (top_loop size_of (suc (length ts)) new_conf ts)
        (top_loop-Ensures (suc (length ts)) new_conf ts (omega arith) (record {
          http_part = record {
            limit_in = omega arith;
            servers_ready = tt;
            has_server = λ e. absurd (cc);
          };
          server_in_http = λ e. refl;
        }))
        (λ conf h. Ensures-guard (conf.exist_http && conf.exist_server) (λ e.
          elim (Bool-cases (ltb (conf.http).client_max_body_size 20000)) [
            | inl k ↦ rw (k) (
                Ensures-returned _ (record {
                  limit_from = omega arith;
                  limit_in = omega arith;
                  servers_ready = (h.http_part).servers_ready;
                  has_server = (h.http_part).has_server (ground arith);
                }))
            | inr k ↦ rw (k) (
                Ensures-returned _ (record {
                  limit_from = ground arith;
                  limit_in = (h.http_part).limit_in;
                  servers_ready = (h.http_part).servers_ready;
                  has_server = (h.http_part).has_server (ground arith);
                }))
          ]))
