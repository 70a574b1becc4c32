-- ===== src/Blocks/Progress.antt =====
-- Each part of a configuration file that `consumeValues` and the parsers of conf/ read takes tokens
-- away: a location block, `parsLocation` of conf/location_parser.cpp.
use webserer_core.Base.{
  ℕ, zero, suc, ◌≤◌, ◌<◌, ◌≡◌, not, ◌&&◌, ◌==◌, List, [], ◌∷◌, arith, Option, Bytes, is_nil, length,
  char_at, Ensures, Ensures-bind, Ensures-if, Ensures-thrown, Ensures-returned, Ensures-mono,
}
use webserer_core.Blocks.{
  Tokens, is_value, is_directive, is_lbrace, is_rbrace, is_semicolon, consume_values, open_brace,
  is_repeated, now_seen, is_path, location_path, location_unique,
}
use webserer_core.Blocks.Nested.{location_of, location_loop, parse_location}
use webserer_core.Config.{Location, Server}
use webserer_core.Settings.{set_location, max_body_limit}
use webserer_core.Settings.Allowed.{LocationPart, set_location-Ensures}

pub consume_values-Ensures :
    (ts : Tokens) → Ensures (λ r. length r.1 < length ts) (consume_values ts)
unfolding consume_values
consume_values-Ensures [] = Ensures-thrown
consume_values-Ensures (t ∷ ts) =
    Ensures-if (is_value t)
      (λ e.
        Ensures-bind (consume_values ts) (consume_values-Ensures ts)
          (λ r h. Ensures-returned _ (omega (arith, h))))
      (λ e.
        Ensures-if (is_semicolon t) (λ k. Ensures-returned _ (omega arith)) (λ k. Ensures-thrown))

pub open_brace-Ensures : (ts : Tokens) → Ensures (λ rest. length rest < length ts) (open_brace ts)
unfolding open_brace
open_brace-Ensures [] = Ensures-thrown
open_brace-Ensures (t ∷ ts) =
    Ensures-if (is_lbrace t) (λ e. Ensures-returned ts (omega arith)) (λ e. Ensures-thrown)

location_path-Ensures :
    (ts : Tokens)
    → Ensures (λ r. (char_at r.0 0 ≡ b'/') × (length r.1 < length ts)) (location_path ts)
unfolding location_path
location_path-Ensures [] = Ensures-thrown
location_path-Ensures (t ∷ ts) =
    Ensures-if (is_value t && not (is_nil t.text) && char_at t.text 0 == b'/' && is_path t.text)
      (λ e. Ensures-returned _ ((ground arith), (omega arith))) (λ e. Ensures-thrown)

module _ (size_of : Bytes → Option ℕ) where
  location_loop-Ensures :
      (rounds : ℕ) (seen : List Bytes) (loc : Location) (ts : Tokens)
      → length ts < rounds
      → LocationPart loc
      → Ensures
          (λ r. LocationPart r.0 × (length r.1 < length ts))
          (location_loop size_of rounds seen loc ts)
  unfolding location_loop
  location_loop-Ensures zero seen loc ts n h = absurd (omega (arith, n))
  location_loop-Ensures (suc rounds) seen loc [] n h = Ensures-thrown
  location_loop-Ensures (suc rounds) seen loc (t ∷ ts) n h =
      Ensures-if (is_rbrace t) (λ e. Ensures-returned _ (h, (omega arith)))
        (λ e.
          Ensures-if (is_directive t)
            (λ k.
              Ensures-if (is_repeated location_unique seen t.text) (λ f. Ensures-thrown)
                (λ f. Ensures-bind (consume_values ts) (consume_values-Ensures ts) (λ r d.
                  Ensures-bind (set_location size_of t.text r.0 loc)
                    (set_location-Ensures size_of t.text r.0 loc h)
                    (λ next p.
                      Ensures-mono _
                        (location_loop-Ensures rounds (now_seen location_unique seen t.text) next
                          r.1 (omega (arith, d, n)) p)
                        (λ s q. (q.0, (omega (arith, q.1, d))))))))
            (λ k. Ensures-thrown))

  pub parse_location-Ensures :
      (server : Server) (ts : Tokens)
      → server.client_max_body_size ≤ max_body_limit
      → Ensures
          (λ r. LocationPart r.0 × (length r.1 < length ts))
          (parse_location size_of (location_of server) ts)
  unfolding parse_location location_of
  parse_location-Ensures server ts limit =
      Ensures-bind (location_path ts) (location_path-Ensures ts) (λ p h.
        Ensures-bind (open_brace p.1) (open_brace-Ensures p.1) (λ inside d.
          Ensures-mono _
            (location_loop-Ensures (suc (length inside)) [] _ inside (omega arith)
              (record { path_from_root = h.0; methods_known = tt; code_in = tt; limit_in = limit }))
            (λ s q. (q.0, (omega (arith, q.1, d, h.1))))))
