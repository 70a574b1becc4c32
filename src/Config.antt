-- ===== src/Config.antt =====
-- The configuration that requests are served by: src `Location` of conf/locationConfig.hpp and
-- `Server` of conf/serverConfig.hpp, with `Server::matchLocation`.
-- Sizes and times are natural numbers; -1 stands for "unset" in the source, `none` here.
pub mod Match
use webserer_core.Base.{
  ℕ, Bool, true, false, not, ◌&&◌, ◌||◌, List, [], ◌∷◌, Option, none, some, ltb, ◌==◌,
  if◌then◌else◌, Bytes, length, take, is_nil, equal, char_at,
}
use webserer_core.Uri.{trim_slash}

pub record Location : Type 0 where
  pub path : Bytes
  pub root : Bytes
  pub index_files : List Bytes
  pub autoindex : Bool
  pub allowed_methods : List Bytes
  pub cgi_paths : List Bytes
  pub cgi_extensions : List Bytes
  pub cgi_map : List (Bytes × Bytes)
  pub upload : Bytes
  pub return_code : Option ℕ
  pub return_value : Bytes
  pub client_max_body_size : ℕ
  pub error_page : List (ℕ × Bytes)
  pub redirect_enabled : Bool

pub record Server : Type 0 where
  pub host : Bytes
  pub port : Option ℕ
  pub timeout_seconds : ℕ
  pub root : Bytes
  pub client_max_body_size : ℕ
  pub index_files : List Bytes
  pub server_name : Bytes
  pub error_page : List (ℕ × Bytes)
  pub locations : List Location

-- `s.compare(0, p.size(), p) == 0`
abbrev pub starts_with : Bytes → Bytes → Bool
starts_with s p = equal (take (length p) s) p

-- The tests that one round of the loop makes on a location.
unfoldable pub covers : Bytes → Location → Bool
covers path loc =
    let loc_path = trim_slash loc.path in
    let req_path = trim_slash path in
    not (is_nil loc.path)
    && (equal req_path loc_path
        || (starts_with req_path loc_path && char_at req_path (length loc_path) == b'/'))

unfoldable pub match_from : Bytes → Option Location → ℕ → List Location → Option Location
match_from path best best_len [] = best
match_from path best best_len (loc ∷ locs) =
    let taken = match_from path (some loc) (length loc.path) locs in
    let kept = match_from path best best_len locs in
    if covers path loc && ltb best_len (length loc.path) then taken else kept

unfoldable pub match_location : Server → Bytes → Option Location
unfolding match_from
match_location server path = match_from path none 0 server.locations
