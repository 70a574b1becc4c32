-- ===== src/Blocks/Nested.antt =====
-- `parsLocation`, `parsServer` and `parsHTTP` of conf/: one function for each loop.
use webserer_core.Base.{
  ℕ, zero, suc, Bool, true, false, not, ◌&&◌, ◌||◌, List, [], ◌∷◌, ◌++◌, Option, none, some, ◌==◌,
  if◌then◌else◌, Bytes, codes, length, is_nil, map, Outcome, returned, thrown, hung, ◌>>=◌, ◌>>◌,
  guard,
}
use webserer_core.Blocks.{
  Tokens, is_directive, is_rbrace, is_context, consume_values, open_brace, is_repeated, now_seen,
  location_path, location_unique, server_unique, all_extensions, paths_differ,
}
use webserer_core.Config.{Location, Server}
use webserer_core.Settings.{set_server, set_location, set_http, Http}

-- `Location::Location(const Server&)`
unfoldable pub location_of : Server → Location
location_of server = record {
  path = [];
  root = server.root;
  index_files = server.index_files;
  autoindex = false;
  allowed_methods = [];
  cgi_paths = [];
  cgi_extensions = [];
  cgi_map = [];
  upload = [];
  return_code = none;
  return_value = [];
  client_max_body_size = server.client_max_body_size;
  error_page = server.error_page;
  redirect_enabled = false;
}

-- `Server::Server(const httpConfig&)`
unfoldable pub server_of : Http → Server
server_of http = record {
  host = [];
  port = none;
  timeout_seconds = 0;
  root = [];
  client_max_body_size = http.client_max_body_size;
  index_files = [];
  server_name = [];
  error_page = http.error_page;
  locations = [];
}

unfoldable pub check_for_allowed_methods : Location → Location
check_for_allowed_methods loc =
    if is_nil loc.allowed_methods then record loc { allowed_methods = codes "GET" ∷ [] } else loc

-- What a location takes over from its server when the block of the server ends.
unfoldable pub complete_location : Server → Location → Location
complete_location server loc = record loc {
  root = if is_nil loc.root then server.root else loc.root;
  index_files =
      if is_nil loc.index_files
      then elim server.index_files [ [] ↦ [] | ◌∷◌ name names ↦ name ∷ [] ]
      else loc.index_files;
  client_max_body_size =
      if loc.client_max_body_size == 0
      then server.client_max_body_size
      else loc.client_max_body_size;
  error_page = if is_nil loc.error_page then server.error_page else loc.error_page;
}

-- `!= -1`
abbrev pub is_set : Option ℕ → Bool
is_set none = false
is_set (some n) = true

unfoldable pub index_names_ok : List Location → Bool
index_names_ok [] = true
index_names_ok (loc ∷ locs) =
    (is_set loc.return_code || not (is_nil loc.cgi_map) || all_extensions loc.index_files)
    && index_names_ok locs

-- The checks of `parsServer` behind its loop.
unfoldable pub finish_server : Server → Outcome Server
unfolding complete_location
finish_server server =
    let completed = record server { locations = map (complete_location server) server.locations } in
    guard (is_set server.port)
    >> guard (not (is_nil server.root))
    >> guard (not (is_nil server.index_files))
    >> guard (all_extensions server.index_files)
    >> guard (not (server.timeout_seconds == 0))
    >> guard (index_names_ok completed.locations)
    >> guard (paths_differ [] completed.locations)
    >> returned completed

module _ (size_of : Bytes → Option ℕ) where
  unfoldable pub location_loop : ℕ → List Bytes → Location → Tokens → Outcome (Location × Tokens)
  location_loop zero seen loc ts = hung
  location_loop (suc rounds) seen loc [] = thrown
  location_loop (suc rounds) seen loc (t ∷ ts) =
      let directive = consume_values ts >>= λ (values, rest).
      set_location size_of t.text values loc >>= λ next.
      location_loop rounds (now_seen location_unique seen t.text) next rest in
      if is_rbrace t
      then returned (loc, ts)
      else if is_directive t
      then (if is_repeated location_unique seen t.text then thrown else directive)
      else thrown

  -- `parsLocation`, from the token behind `location` on.
  unfoldable pub parse_location : Location → Tokens → Outcome (Location × Tokens)
  parse_location loc ts = location_path ts >>= λ (path, behind). open_brace behind >>= λ inside.
      location_loop (suc (length inside)) [] (record loc { path = path }) inside

  unfoldable pub server_loop : ℕ → List Bytes → Server → Tokens → Outcome (Server × Tokens)
  server_loop zero seen server ts = hung
  server_loop (suc rounds) seen server [] = thrown
  server_loop (suc rounds) seen server (t ∷ ts) =
      let location = parse_location (location_of server) ts >>= λ (loc, rest).
      server_loop rounds seen
        (record server { locations = server.locations ++ check_for_allowed_methods loc ∷ [] })
        rest in
      let directive = consume_values ts >>= λ (values, rest).
      set_server size_of t.text values server >>= λ next.
      server_loop rounds (now_seen server_unique seen t.text) next rest in
      if is_rbrace t
      then returned (server, ts)
      else if is_context (codes "location") t
      then location
      else if is_directive t
      then (if is_repeated server_unique seen t.text then thrown else directive)
      else thrown

  -- `parsServer`, from the token behind `server` on.
  unfoldable pub parse_server : Server → Tokens → Outcome (Server × Tokens)
  parse_server server ts = open_brace ts >>= λ inside.
      server_loop (suc (length inside)) [] server inside >>= λ (parsed, rest).
      finish_server parsed >>= λ finished. returned (finished, rest)

  -- The flag is `_exist_server`.
  unfoldable pub http_loop : ℕ → Bool → Http → Tokens → Outcome ((Bool × Http) × Tokens)
  http_loop zero exist_server http ts = hung
  http_loop (suc rounds) exist_server http [] = thrown
  http_loop (suc rounds) exist_server http (t ∷ ts) =
      let server = parse_server (server_of http) ts >>= λ (parsed, rest).
      http_loop rounds true (record http { servers = http.servers ++ parsed ∷ [] }) rest in
      let directive = consume_values ts >>= λ (values, rest).
      set_http size_of t.text values http >>= λ next. http_loop rounds exist_server next rest in
      if is_rbrace t
      then returned ((exist_server, http), ts)
      else if is_context (codes "server") t
      then server
      else if is_directive t
      then directive
      else thrown

  -- `parsHTTP`, from the token behind `http` on.
  unfoldable pub parse_http : Http → Tokens → Outcome ((Bool × Http) × Tokens)
  parse_http http ts = open_brace ts >>= λ inside. http_loop (suc (length inside)) false http inside
