-- ===== src/Settings.antt =====
-- What one directive of a configuration file sets: the `parseDirective` functions of
-- conf/server_parser.cpp, conf/location_parser.cpp, conf/parserConf.cpp and conf/eventsConfig.cpp,
-- once its values have been read. A reported parse error is `thrown`.
-- `size_of` is `parse_cl_mx_bd_sz`, of which the functions here use the result alone; `none` is its
-- -1. Warnings are left out.
pub mod Accepted
pub mod Allowed
pub mod Defaults
use webserer_core.Base.{
  ℕ, zero, suc, ◌+◌, Bool, true, false, not, ◌&&◌, ◌||◌, List, [], ◌∷◌, ◌++◌, Option, none, some,
  ltb, leb, ◌==◌, if◌then◌else◌, Bytes, codes, length, take, drop, is_nil, equal, Outcome, returned,
  thrown, hung, ◌>>=◌, ◌>>◌, guard, some_or_throw, outcome_map,
}
use webserer_core.Config.{Location, Server}
use webserer_core.Numerals.{safe_strtol, as_int, int_within, is_valid_host}
use webserer_core.Request.{assign}
use webserer_core.Target.{find_byte}

-- INT_MAX, the largest `client_max_body_size`
abbrev pub max_body_limit : ℕ
max_body_limit = 2147483647

-- `_error_page[code] = path`
unfoldable pub set_page : ℕ → Bytes → List (ℕ × Bytes) → List (ℕ × Bytes)
set_page code path [] = (code, path) ∷ []
set_page code path ((n, old) ∷ pages) =
    let further = set_page code path pages in
    if n == code then (code, path) ∷ pages else (n, old) ∷ further

-- `std::set::find`
unfoldable pub member : Bytes → List Bytes → Bool
member s [] = false
member s (t ∷ ts) = equal t s || member s ts

-- `values.size() != 1`
unfoldable pub one_value : List Bytes → Outcome Bytes
one_value (value ∷ []) = returned value
one_value _ = thrown

-- `values[0]` of at least one
unfoldable pub front : List Bytes → Outcome Bytes
front [] = thrown
front (value ∷ values) = returned value

unfoldable pub number_within : ℕ → ℕ → Bytes → Outcome ℕ
number_within lo hi value = do
  let n = (← some_or_throw (safe_strtol value))
  some_or_throw (int_within lo hi n)

-- The loop of an `error_page` directive over its codes.
unfoldable pub set_pages : Bytes → List Bytes → List (ℕ × Bytes) → Outcome (List (ℕ × Bytes))
unfolding number_within
set_pages path [] pages = returned pages
set_pages path (code ∷ codes) pages =
    number_within 300 599 code >>= λ n. set_pages path codes (set_page n path pages)

-- `values.back()` and the values before it, of at least two.
unfoldable pub split_back : List Bytes → Outcome (List Bytes × Bytes)
split_back [] = thrown
split_back (value ∷ []) = thrown
split_back (value ∷ last ∷ []) = returned (value ∷ [], last)
split_back (value ∷ next ∷ more ∷ rest) =
    split_back (next ∷ more ∷ rest) >>= λ (front, last). returned (value ∷ front, last)

unfoldable pub error_page : List Bytes → List (ℕ × Bytes) → Outcome (List (ℕ × Bytes))
unfolding split_back set_pages
error_page values pages = split_back values >>= λ (codes, path). set_pages path codes pages

unfoldable pub listen_host : Bytes → Outcome Bytes
listen_host host =
    if equal host (codes "*")
    then returned (codes "0.0.0.0")
    else if equal host (codes "localhost")
    then returned host
    else if is_valid_host host
    then returned host
    else thrown

-- `listen`, with a colon at `colon_pos` or none.
unfoldable pub listen : Bytes → Server → Outcome Server
unfolding listen_host number_within
listen val server = elim (find_byte b':' val) [
  | some colon_pos ↦ listen_host (take colon_pos val) >>= λ host.
      number_within 1 65535 (drop (colon_pos + 1) val) >>= λ port.
      returned (record server { host = host; port = some port })
  | none ↦ elim (safe_strtol val) [
    | some n ↦ some_or_throw (int_within 1 65535 n) >>= λ port.
        returned (record server { host = codes "0.0.0.0"; port = some port })
    | none ↦
        if is_valid_host val
        then returned (record server { host = val; port = some 9090 })
        else thrown
  ]
]

unfoldable pub no_empty : List Bytes → Bool
no_empty [] = true
no_empty (value ∷ values) = not (is_nil value) && no_empty values

module _ (size_of : Bytes → Option ℕ) where
  unfoldable pub body_size : List Bytes → Outcome ℕ
  unfolding one_value
  body_size values = one_value values >>= λ value. some_or_throw (size_of value) >>= λ size.
      if ltb max_body_limit size then thrown else returned size

  unfoldable pub set_server : Bytes → List Bytes → Server → Outcome Server
  unfolding one_value front listen number_within body_size error_page
  set_server directive values server =
      if is_nil values
      then thrown
      else if equal directive (codes "listen")
      then (one_value values >>= λ value. listen value server)
      else if equal directive (codes "root")
      then (one_value values >>= λ value. returned (record server { root = value }))
      else if equal directive (codes "index")
      then (guard (no_empty values)
          >> returned (record server { index_files = server.index_files ++ values }))
      else if equal directive (codes "server_name")
      then (front values >>= λ name. returned (record server { server_name = name }))
      else if equal directive (codes "client_max_body_size")
      then (body_size values >>= λ size. returned (record server { client_max_body_size = size }))
      else if equal directive (codes "timeout")
      then (one_value values >>= λ value. number_within 1 3600 value >>= λ seconds.
          returned (record server { timeout_seconds = seconds }))
      else if equal directive (codes "error_page")
      then (error_page values server.error_page >>= λ pages.
          returned (record server { error_page = pages }))
      else thrown

-- `setCGI_paths` and `setCGI_extensions` build the map anew, if there are as many of both.
unfoldable pub zip_cgi : List Bytes → List Bytes → List (Bytes × Bytes) → List (Bytes × Bytes)
zip_cgi (ext ∷ exts) (path ∷ paths) m = zip_cgi exts paths (assign ext path m)
zip_cgi _ _ m = m

unfoldable pub with_cgi_map : Location → Location
unfolding zip_cgi
with_cgi_map loc = record loc {
  cgi_map =
      if length loc.cgi_paths == length loc.cgi_extensions
      then zip_cgi loc.cgi_extensions loc.cgi_paths []
      else [];
}

unfoldable pub is_method : Bytes → Bool
is_method s = equal s (codes "GET") || equal s (codes "POST") || equal s (codes "DELETE")

-- The loop of an `allowed_methods` directive.
unfoldable pub add_methods : List Bytes → List Bytes → List Bytes → Outcome (List Bytes)
unfolding member is_method
add_methods seen [] methods = returned methods
add_methods seen (value ∷ values) methods =
    let further = add_methods (value ∷ seen) values (methods ++ value ∷ []) in
    if is_method value then (if member value seen then thrown else further) else thrown

unfoldable pub on_off : Bytes → Outcome Bool
on_off value =
    if equal value (codes "on")
    then returned true
    else if equal value (codes "off")
    then returned false
    else thrown

unfoldable pub redirect : List Bytes → Location → Outcome Location
unfolding number_within
redirect (code ∷ url ∷ []) loc = number_within 300 399 code >>= λ n.
    returned (record loc { return_code = some n; return_value = url; redirect_enabled = true })
redirect _ loc = thrown

module _ (size_of : Bytes → Option ℕ) where
  unfoldable pub set_location : Bytes → List Bytes → Location → Outcome Location
  unfolding one_value add_methods on_off with_cgi_map body_size error_page redirect
  set_location directive values loc =
      if is_nil values
      then thrown
      else if equal directive (codes "root")
      then (one_value values >>= λ value. returned (record loc { root = value }))
      else if equal directive (codes "index")
      then returned (record loc { index_files = values })
      else if equal directive (codes "allowed_methods")
      then (add_methods [] values loc.allowed_methods >>= λ methods.
          returned (record loc { allowed_methods = methods }))
      else if equal directive (codes "autoindex")
      then (one_value values >>= λ value.
          on_off value >>= λ on. returned (record loc { autoindex = on }))
      else if equal directive (codes "cgi_path")
      then returned (with_cgi_map (record loc { cgi_paths = values }))
      else if equal directive (codes "cgi_ext")
      then returned (with_cgi_map (record loc { cgi_extensions = values }))
      else if equal directive (codes "upload_path")
      then (one_value values >>= λ value. returned (record loc { upload = value }))
      else if equal directive (codes "client_max_body_size")
      then (body_size size_of values >>= λ size.
          returned (record loc { client_max_body_size = size }))
      else if equal directive (codes "error_page")
      then (error_page values loc.error_page >>= λ pages.
          returned (record loc { error_page = pages }))
      else if equal directive (codes "return")
      then redirect values loc
      else thrown

-- `httpConfig`; whether a location was seen is never read.
pub record Http : Type 0 where
  pub client_max_body_size : ℕ
  pub error_page : List (ℕ × Bytes)
  pub servers : List Server

module _ (size_of : Bytes → Option ℕ) where
  unfoldable pub set_http : Bytes → List Bytes → Http → Outcome Http
  unfolding body_size error_page
  set_http directive values http =
      if is_nil values
      then thrown
      else if equal directive (codes "client_max_body_size")
      then (body_size size_of values >>= λ size.
          returned (record http { client_max_body_size = size }))
      else if equal directive (codes "error_page")
      then (error_page values http.error_page >>= λ pages.
          returned (record http { error_page = pages }))
      else thrown

-- `eventsConfig`; no number of connections stands for a negative one.
pub record Events : Type 0 where
  pub worker_connections : Option ℕ
  pub event_model : Bytes

unfoldable pub is_event_model : Bytes → Bool
is_event_model s =
    equal s (codes "select")
    || equal s (codes "poll")
    || equal s (codes "epoll")
    || equal s (codes "kqueue")

-- A directive of the events block that makes no sense changes nothing.
unfoldable pub set_events : Bytes → List Bytes → Events → Events
unfolding as_int is_event_model
set_events directive (value ∷ []) events =
    if equal directive (codes "worker_connections")
    then elim (safe_strtol value) [
      | none ↦ events
      | some n ↦ if n == 0 then events else record events { worker_connections = as_int n }
    ]
    else if equal directive (codes "event_model")
    then if is_event_model value then record events { event_model = value } else events
    else events
set_events directive _ events = events
