-- ===== src/Blocks/Top.antt =====
-- `parseEvents` of conf/eventsConfig.cpp and the loop of `parsing_lexems` of conf/parsing.cpp.
use webserer_core.Base.{
  ℕ, zero, suc, Bool, true, false, ◌&&◌, ◌||◌, [], ◌∷◌, Option, some, ltb, if◌then◌else◌, Bytes,
  codes, length, Outcome, returned, thrown, hung, ◌>>=◌, ◌>>◌, guard,
}
use webserer_core.Blocks.{
  Tokens, is_directive, is_rbrace, is_lbrace, is_end, is_context, consume_values, open_brace,
}
use webserer_core.Blocks.Nested.{parse_http}
use webserer_core.Settings.{set_events, Http, Events}

-- A token that is no directive is passed over with a warning, a brace that opens is an error.
unfoldable pub events_loop : ℕ → Events → Tokens → Outcome (Events × Tokens)
events_loop zero events ts = hung
events_loop (suc rounds) events [] = thrown
events_loop (suc rounds) events (t ∷ ts) =
    let further = events_loop rounds events ts in
    let directive = consume_values ts >>= λ (values, rest).
    events_loop rounds (set_events t.text values events) rest in
    if is_rbrace t
    then returned (events, ts)
    else if is_lbrace t
    then thrown
    else if is_directive t
    then directive
    else further

-- `parseEvents`, from the token behind `events` on.
unfoldable pub parse_events : Tokens → Outcome (Events × Tokens)
parse_events ts = open_brace ts >>= λ inside.
    events_loop (suc (length inside)) (record { worker_connections = some 0; event_model = [] })
      inside

-- `ParserConf`
pub record Conf : Type 0 where
  pub http : Http
  pub events : Events
  pub exist_http : Bool
  pub exist_server : Bool

unfoldable pub new_conf : Conf
new_conf = record {
  http = record { client_max_body_size = 0; error_page = []; servers = [] };
  events = record { worker_connections = some 0; event_model = [] };
  exist_http = false;
  exist_server = false;
}

module _ (size_of : Bytes → Option ℕ) where
  unfoldable pub top_loop : ℕ → Conf → Tokens → Outcome Conf
  top_loop zero conf ts = hung
  top_loop (suc rounds) conf [] = returned conf
  top_loop (suc rounds) conf (t ∷ ts) =
      let events = parse_events ts >>= λ (parsed, rest).
      top_loop rounds (record conf { events = parsed }) rest in
      let http = parse_http size_of conf.http ts >>= λ ((exist_server, parsed), rest).
      top_loop rounds
        (record conf {
          http = parsed;
          exist_http = true;
          exist_server = conf.exist_server || exist_server;
        })
        rest in
      if is_context (codes "events") t
      then events
      else if is_context (codes "http") t
      then (if conf.exist_http then thrown else http)
      else if is_end t
      then returned conf
      else thrown

  -- `parsing_lexems` up to the validation: the http block with its default limit.
  unfoldable pub parse_conf : Tokens → Outcome Http
  unfolding new_conf
  parse_conf ts = top_loop (suc (length ts)) new_conf ts >>= λ conf.
      guard (conf.exist_http && conf.exist_server)
      >> returned (
          if ltb (conf.http).client_max_body_size 20000
          then record (conf.http) { client_max_body_size = 1048576 }
          else conf.http)
