-- ===== src/Cgi.antt =====
-- cgi/CgiHandler.cpp and cgi/CgiHelpers.cpp, and the test of src/EventLoop/EventLoop_helper_handlers.cpp
-- for paths of scripts. The file system, `PWD` and `fork` are a parameter; a check that the files
-- are still the same after `fork` and the calls that set up the descriptors of the child are left
-- out.
pub mod Output
pub mod Args
pub mod Paths
pub mod Chunks
use webserer_core.Base.{
  ℕ, zero, suc, ◌+◌, ◌-◌, Bool, true, false, not, ◌&&◌, ◌||◌, List, [], ◌∷◌, ◌++◌, Option, none,
  some, ◌==◌, ltb, leb, if◌then◌else◌, Bytes, codes, length, is_nil, equal, take, drop,
}
use webserer_core.Buffer
use webserer_core.Config.{Location, Server, match_location}
use webserer_core.Handler.Replies.{print_nat, print_code}
use webserer_core.Handler.Serve.{resolve_fs_path}
use webserer_core.Request.{HttpRequest, HeaderMap, header, find, expects_body}
use webserer_core.Response.{from_last_dot}
use webserer_core.Target.{c_str, find_byte, from_last_slash, starts_slash}

-- `s.size() >= t.size() && s.compare(s.size() - t.size(), t.size(), t) == 0`
unfoldable pub ends_with : Bytes → Bytes → Bool
ends_with s t = leb (length t) (length s) && equal (drop (length s - length t) s) t

-- The loop of `resolveCgiRequest` over the extensions.
unfoldable pub matches_extension : Bytes → List (Bytes × Bytes) → Bool
unfolding ends_with
matches_extension path [] = false
matches_extension path ((ext, program) ∷ exts) =
    let matched = matches_extension path exts in if ends_with path ext then true else matched

pub record CgiRequestInfo : Type 0 where
  pub location : Location
  pub script_path : Bytes

unfoldable pub resolve_cgi_request : HttpRequest → Server → Option CgiRequestInfo
unfolding matches_extension
resolve_cgi_request req cfg = elim (match_location cfg req.path) [
  | none ↦ none
  | some loc ↦
      if is_nil loc.cgi_map
      then none
      else if not (matches_extension req.path loc.cgi_map)
      then none
      else some (record { location = loc; script_path = resolve_fs_path req (some loc) cfg })
]

-- The loop of `pathRequiresCgiBodySpool`.
unfoldable pub any_extension : Bytes → List (Bytes × Bytes) → Bool
unfolding ends_with
any_extension path [] = false
any_extension path ((ext, program) ∷ exts) =
    let rest = any_extension path exts in ends_with path ext || rest

unfoldable pub path_requires_cgi_body_spool : HttpRequest → Server → Bool
unfolding any_extension
path_requires_cgi_body_spool req cfg = elim (match_location cfg req.path) [
  | none ↦ false
  | some loc ↦ if is_nil loc.cgi_map then false else any_extension req.path loc.cgi_map
]

-- The loop of `buildCgiArgs`: what stands between plus signs.
unfoldable pub split_plus : Bytes → Bytes → List Bytes
split_plus word [] = word ∷ []
split_plus word (c ∷ cs) =
    let fresh = split_plus [] cs in
    let more = split_plus (word ++ c ∷ []) cs in if c == b'+' then word ∷ fresh else more

abbrev pub has_equals : Bytes → Bool
has_equals s = elim (find_byte b'=' s) [ none ↦ false | some n ↦ true ]

unfoldable pub build_cgi_args : Bytes → Bytes → Bytes → List Bytes
unfolding split_plus
build_cgi_args cgi_path script_file query_string =
    cgi_path
    ∷ script_file
    ∷ (if not (is_nil query_string) && not (has_equals query_string)
        then split_plus [] query_string
        else [])

-- What is asked of the system: whether a path is that of a regular file, which may be run or read,
-- and the working directory in `PWD`.
pub record Programs : Type 0 where
  pub is_regular : Bytes → Bool
  pub is_executable : Bytes → Bool
  pub is_readable : Bytes → Bool
  pub pwd : Option Bytes

abbrev ends_in_slash : Bytes → Bool
ends_in_slash s = ends_with s (b'/' ∷ [])

-- A path below a root, with one slash between.
unfoldable pub below_root : Bytes → Bytes → Bytes
below_root root rel = (if ends_in_slash root then root else root ++ b'/' ∷ []) ++ rel

module _ (system : Programs) where
  abbrev regular : Bytes → Bool
  regular path = system.is_regular (c_str path)

  -- One of the two tries of `resolve_path` below a root.
  unfoldable pub try_root : Bytes → Bytes → Option Bytes
  unfolding below_root
  try_root root rel =
      if not (is_nil root) && regular (below_root root rel)
      then some (below_root root rel)
      else none

  unfoldable pub resolve_path : Bytes → Bytes → Bytes → Option Bytes
  unfolding try_root
  resolve_path path location_root server_root =
      if starts_slash path
      then (if regular path then some path else none)
      else if equal (take 2 path) (codes "./")
      then if regular path then some path else elim (try_root location_root (drop 2 path)) [
        | some found ↦ some found
        | none ↦ try_root server_root (drop 2 path)
      ]
      else none

  -- The path of the program as `execve` gets it.
  unfoldable pub absolute_program : Bytes → Bytes
  absolute_program path = elim system.pwd [
    | none ↦ path
    | some dir ↦
        if starts_slash path || not (starts_slash dir)
        then path
        else dir ++ b'/' ∷ (if equal (take 2 path) (codes "./") then drop 2 path else path)
  ]

  -- The program of a script, as far as `startCgi` goes before `fork`.
  unfoldable pub find_program : Bytes → Location → Server → Option Bytes
  unfolding resolve_path absolute_program
  find_program script_path loc cfg = elim (from_last_dot script_path) [
    | none ↦ none
    | some ext ↦ elim (find ext loc.cgi_map) [
      | none ↦ none
      | some cgi_path ↦ elim (resolve_path cgi_path loc.root cfg.root) [
        | none ↦ none
        | some program ↦
            if regular program
              && system.is_executable (c_str program)
              && regular script_path
              && system.is_readable (c_str script_path)
            then some (absolute_program program)
            else none
      ]
    ]
  ]

-- What the child runs: where, what, and with which arguments.
pub record Launch : Type 0 where
  pub directory : Option Bytes
  pub program : Bytes
  pub arguments : List Bytes

-- The child of `startCgi` between `fork` and `execve`.
unfoldable pub child_runs : Bytes → Bytes → Bytes → Launch
unfolding build_cgi_args
child_runs program script_file query_string = elim (find_byte b'/' script_file) [
  | none ↦ record {
    directory = none;
    program = program;
    arguments = build_cgi_args program script_file query_string;
  }
  | some n ↦
      let name = from_last_slash script_file in
      record {
        directory = some (take (length script_file - length name) script_file);
        program = program;
        arguments = build_cgi_args program (codes "." ++ name) query_string;
      }
]

-- `std::toupper` in the C locale, with dashes made underscores.
unfoldable pub meta_char : ℕ → ℕ
meta_char c = if c == b'-' then b'_' else if leb 97 c && leb c 122 then c - 32 else c

abbrev meta_name : Bytes → Bytes
meta_name [] = []
meta_name (c ∷ cs) = meta_char c ∷ meta_name cs

-- Whether a text is in front of another in a `std::map` with texts as keys.
unfoldable pub precedes : Bytes → Bytes → Bool
precedes s [] = false
precedes [] (d ∷ t) = true
precedes (c ∷ s) (d ∷ t) = let rest = precedes s t in ltb c d || (c == d && rest)

unfoldable pub place : Bytes × Bytes → HeaderMap → HeaderMap
unfolding precedes
place entry [] = entry ∷ []
place entry (other ∷ m) =
    let further = place entry m in
    if precedes entry.0 other.0 then entry ∷ other ∷ m else other ∷ further

-- The headers in the order in which a `std::map` is gone through; `HeaderMap` has them as they came.
unfoldable pub by_key : HeaderMap → HeaderMap
unfolding place
by_key [] = []
by_key (entry ∷ m) = place entry (by_key m)

-- The variables of the headers, in the order given.
unfoldable pub header_variables : HeaderMap → List Bytes
unfolding meta_char
header_variables [] = []
header_variables ((key, value) ∷ m) =
    let further = header_variables m in
    if equal key (codes "content-type") || equal key (codes "content-length")
    then further
    else (codes "HTTP_" ++ meta_name key ++ codes "=" ++ value) ∷ further

-- `s.substr(0, s.rfind(':'))`, and `s` where there is no colon.
unfoldable pub without_port : Bytes → Option Bytes
without_port [] = none
without_port (c ∷ cs) = elim (without_port cs) [
  | some host ↦ some (c ∷ host)
  | none ↦ if c == b':' then some [] else none
]

abbrev host_name : Bytes → Bytes
host_name s = elim (without_port s) [ none ↦ s | some host ↦ host ]

abbrev when_some : Bool → Bytes → List Bytes
when_some test text = if test then text ∷ [] else []

unfoldable pub payload_size : HttpRequest → ℕ
payload_size req =
    if not (req.body_file_written == 0)
    then req.body_file_written
    else if not (req.written == 0)
    then req.written
    else Buffer.size req.body

unfoldable pub build_cgi_environment : Bytes → Bytes → HttpRequest → Server → List Bytes
unfolding header_variables by_key without_port payload_size
build_cgi_environment script_path client_ip req cfg =
    let host = header (codes "host") req in
    let type = header (codes "content-type") req in
    let size = payload_size req in
    ((codes "REQUEST_METHOD=" ++ req.method)
      ∷ (codes "QUERY_STRING=" ++ req.query_string)
      ∷ (codes "SCRIPT_FILENAME=" ++ script_path)
      ∷ (codes "SCRIPT_NAME=" ++ req.path)
      ∷ (codes "PATH_INFO=" ++ req.path)
      ∷ [])
    ++ when_some (not (is_nil (cfg.root ++ req.path)))
        (codes "PATH_TRANSLATED=" ++ cfg.root ++ req.path)
    ++ ((codes "SERVER_NAME=" ++ host_name (if is_nil host then cfg.host else host))
        ∷ (codes "SERVER_PORT=" ++ print_code cfg.port)
        ∷ (codes "SERVER_PROTOCOL=" ++ req.version)
        ∷ codes "GATEWAY_INTERFACE=CGI/1.1"
        ∷ codes "SERVER_SOFTWARE=webserv/1.0"
        ∷ (codes "REMOTE_ADDR=" ++ client_ip)
        ∷ (codes "REQUEST_URI="
            ++ req.path
            ++ (if is_nil req.query_string then [] else codes "?" ++ req.query_string))
        ∷ (codes "DOCUMENT_ROOT=" ++ cfg.root)
        ∷ [])
    ++ (if ltb 0 size || expects_body req
        then (codes "CONTENT_TYPE=" ++ type) ∷ (codes "CONTENT_LENGTH=" ++ print_nat size) ∷ []
        else when_some (not (is_nil type)) (codes "CONTENT_TYPE=" ++ type))
    ++ header_variables (by_key req.headers)
