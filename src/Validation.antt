-- ===== src/Validation.antt =====
-- `validate_final_config` of conf/parsing.cpp, and `API_conf` of src/API_conf.cpp as a whole.
-- What `stat` and `access` say of a path is a parameter.
pub mod Limits
pub mod Served
use webserer_core.Base.{
  ℕ, zero, suc, ◌-◌, Bool, true, false, not, ◌&&◌, ◌||◌, List, [], ◌∷◌, ◌++◌, Option, none, some,
  ltb, leb, ◌==◌, within, if◌then◌else◌, Bytes, codes, length, is_nil, equal, char_at, Outcome,
  returned, thrown, hung, ◌>>=◌, ◌>>◌, guard,
}
use webserer_core.Blocks.Top.{parse_conf}
use webserer_core.Config.{Location, Server}
use webserer_core.Lexing.{lex}
use webserer_core.Settings.{Http, member}
use webserer_core.Sizes.{Doubles, parse_cl_mx_bd_sz}
use webserer_core.Target.{find_byte}

pub record Files : Type 0 where
  pub is_directory : Bytes → Bool
  pub is_regular_file : Bytes → Bool
  pub is_readable : Bytes → Bool
  pub is_writable : Bytes → Bool
  pub is_executable : Bytes → Bool

-- MAXSERVERS
abbrev pub max_servers : ℕ
max_servers = 20

abbrev pub has_byte : ℕ → Bytes → Bool
has_byte c s = elim (find_byte c s) [ none ↦ false | some n ↦ true ]

unfoldable pub is_valid_filename : Bytes → Bool
is_valid_filename name =
    not (is_nil name)
    && not (equal name (codes "."))
    && not (equal name (codes ".."))
    && not (has_byte b'/' name)
    && not (char_at name 0 == b'.')
    && not (char_at name (length name - 1) == b'.')
    && has_byte b'.' name

unfoldable pub all_valid_filenames : List Bytes → Bool
unfolding is_valid_filename
all_valid_filenames [] = true
all_valid_filenames (name ∷ names) = is_valid_filename name && all_valid_filenames names

unfoldable pub has_partial_cgi : Location → Bool
has_partial_cgi loc =
    not (is_nil loc.cgi_paths && is_nil loc.cgi_extensions)
    && (not (length loc.cgi_paths == length loc.cgi_extensions)
        || not (length loc.cgi_map == length loc.cgi_paths))

abbrev pub same_port : Option ℕ → Option ℕ → Bool
same_port none none = true
same_port (some m) (some n) = m == n
same_port _ _ = false

-- Whether the keys `(port, server_name)` are the same.
abbrev pub same_key : Server → Server → Bool
same_key other server =
    same_port other.port server.port && equal other.server_name server.server_name

-- `seen_virtual_servers.find(current_server)`
unfoldable pub is_duplicate : Server → List Server → Bool
is_duplicate server [] = false
is_duplicate server (other ∷ seen) = same_key other server || is_duplicate server seen

unfoldable pub codes_ok : List (ℕ × Bytes) → Bool
codes_ok [] = true
codes_ok ((code, path) ∷ pages) = within 300 599 code && codes_ok pages

-- The limit that a server is left with.
abbrev pub limit_of : ℕ → Server → ℕ
limit_of http_default server =
    if server.client_max_body_size == 0
    then if ltb 0 http_default then http_default else 1048576
    else server.client_max_body_size

module _ (files : Files) where
  unfoldable pub pages_ok : List (ℕ × Bytes) → Bool
  pages_ok [] = true
  pages_ok ((code, path) ∷ pages) =
      files.is_regular_file path && files.is_readable path && pages_ok pages

  unfoldable pub cgi_ok : List (Bytes × Bytes) → Bool
  cgi_ok [] = true
  cgi_ok ((ext, path) ∷ m) = not (is_nil ext || is_nil path) && files.is_executable path && cgi_ok m

  unfoldable pub upload_ok : Location → Bool
  upload_ok loc =
      is_nil loc.upload
      || (files.is_directory loc.upload
          && files.is_writable loc.upload
          && (is_nil loc.allowed_methods || member (codes "POST") loc.allowed_methods))

  -- One round of the inner loop, for a server with limit `inherited`.
  unfoldable pub validate_location : ℕ → Location → Outcome Location
  unfolding all_valid_filenames has_partial_cgi cgi_ok upload_ok pages_ok
  validate_location inherited loc =
      guard (files.is_directory loc.root)
      >> guard (all_valid_filenames loc.index_files)
      >> guard (not (has_partial_cgi loc))
      >> guard (cgi_ok loc.cgi_map)
      >> guard (upload_ok loc)
      >> guard (pages_ok loc.error_page)
      >> returned (
          if loc.client_max_body_size == 0
          then record loc { client_max_body_size = inherited }
          else loc)

  unfoldable pub validate_locations : ℕ → List Location → Outcome (List Location)
  unfolding validate_location
  validate_locations inherited [] = returned []
  validate_locations inherited (loc ∷ locs) = validate_location inherited loc >>= λ checked.
      validate_locations inherited locs >>= λ rest. returned (checked ∷ rest)

  -- One round of the outer loop.
  unfoldable pub validate_server : ℕ → List Server → Server → Outcome Server
  unfolding is_duplicate codes_ok pages_ok validate_locations
  validate_server http_default seen server =
      guard (not (is_duplicate server seen))
      >> guard (char_at server.root 0 == b'.' || char_at server.root 0 == b'/')
      >> guard (files.is_directory server.root)
      >> guard (codes_ok server.error_page && pages_ok server.error_page)
      >> (let limit = limit_of http_default server in
          validate_locations limit server.locations >>= λ locs.
          returned (record server { client_max_body_size = limit; locations = locs }))

  unfoldable pub validate_servers : ℕ → List Server → List Server → Outcome (List Server)
  unfolding validate_server
  validate_servers http_default seen [] = returned []
  validate_servers http_default seen (server ∷ servers) =
      validate_server http_default seen server >>= λ checked.
      validate_servers http_default (server ∷ seen) servers >>= λ rest. returned (checked ∷ rest)

  unfoldable pub validate_final_config : ℕ → List Server → Outcome (List Server)
  unfolding validate_servers
  validate_final_config http_default servers =
      guard (leb (length servers) max_servers) >> validate_servers http_default [] servers

  -- `API_conf` on the text of a file that could be opened.
  unfoldable pub api_conf : {Double : Type 0} → Doubles Double → Bytes → Outcome (List Server)
  unfolding validate_final_config
  api_conf d content = lex content >>= λ stream. parse_conf (parse_cl_mx_bd_sz d) stream >>= λ http.
      validate_final_config http.client_max_body_size http.servers
