-- ===== src/Handler/Serve.antt =====
-- `ResponseHandler::handle` of src/ResponseHandler.cpp, with `_handlePost` and `_handleDelete`: what
-- is appended to the write buffer, and what becomes of the files.
pub mod Changes
pub mod Below
pub mod Escape
use webserer_core.Base.{
  ℕ, zero, suc, ◌+◌, ◌-◌, Bool, true, false, not, ◌&&◌, ◌||◌, List, [], ◌∷◌, ◌++◌, Option, none,
  some, ◌==◌, ltb, leb, if◌then◌else◌, Bytes, codes, length, is_nil, equal, take, drop,
}
use webserer_core.Buffer
use webserer_core.Config.{Location, Server, match_location}
use webserer_core.Handler.{
  ends_slash, normalize_path, sanitize_filename, extract_boundary, parse_multipart_first_file,
  MultipartFile,
}
use webserer_core.Handler.Replies.{
  FileSystem, FileStat, Errno, print_nat, field, send_error_internal, send_page, send_redirect,
  status_of, send_directory_listing, serve_static_file, is_dir_stat, is_reg_stat, line_end,
}
use webserer_core.Request.{HttpRequest}
use webserer_core.Response.{connection_header, method_allowed}
use webserer_core.Target.{resolve, rooted, c_str}

-- A file that was removed, or made anew with some text in it.
pub data Change : Type 0 where
  removed : Bytes → Change
  stored : Bytes → Bytes → Change

-- The texts appended in turn, what was done to files, and the uploads counted so far.
pub record Reply : Type 0 where
  pub appended : List Bytes
  pub changes : List Change
  pub counter : ℕ

abbrev pub is_method : HttpRequest → Bytes → Bool
is_method req method = equal req.method method

abbrev pub with_slash : Bytes → Bytes
with_slash path = if ends_slash path then path else path ++ b'/' ∷ []

-- `_resolveFsPath`
unfoldable pub resolve_fs_path : HttpRequest → Option Location → Server → Bytes
unfolding rooted resolve
resolve_fs_path req loc cfg = resolve (rooted loc) cfg.root req.path

-- `idx_vec`
abbrev pub index_names : Option Location → Server → List Bytes
index_names none cfg = cfg.index_files
index_names (some loc) cfg = if is_nil loc.index_files then cfg.index_files else loc.index_files

unfoldable pub index_name : Option Location → Server → Bytes
index_name loc cfg = elim (index_names loc cfg) [ [] ↦ codes "index.html" | ◌∷◌ name names ↦ name ]

abbrev pub has_autoindex : Option Location → Bool
has_autoindex none = false
has_autoindex (some loc) = loc.autoindex

module _ (fs : FileSystem) (cfg : Server) where
  -- One reply that leaves all files alone.
  abbrev pub replies : List Bytes → ℕ → Reply
  replies texts counter = record { appended = texts; changes = []; counter = counter }

  abbrev pub fails : ℕ → HttpRequest → ℕ → Reply
  fails code req counter = replies (send_error_internal fs code req cfg ∷ []) counter

  -- The loop of `write` calls from `written` on: whether it wrote all, and how much. Each round writes
  -- a byte at least, so `len` rounds are enough.
  unfoldable pub write_loop : ℕ → Bytes → ℕ → ℕ → Bool × ℕ
  write_loop zero path written len = (leb len written, written)
  write_loop (suc rounds) path written len =
      let n = fs.take_bytes path written in
      let further = write_loop rounds path (written + n) len in
      if ltb written len then (if n == 0 then (false, written) else further) else (true, written)

  -- The name and the contents that an upload has of itself.
  unfoldable pub uploaded : HttpRequest → MultipartFile
  uploaded req =
      let whole : MultipartFile = record { filename = []; contents = Buffer.content req.body } in
      elim (extract_boundary req) [
        | none ↦ whole
        | some boundary ↦ elim (parse_multipart_first_file (Buffer.content req.body) boundary) [
          | none ↦ whole
          | some mf ↦ record { filename = sanitize_filename mf.filename; contents = mf.contents }
        ]
      ]

  unfoldable pub upload_name : ℕ → Bytes → Bytes
  upload_name counter filename =
      if is_nil filename
      then codes "upload_" ++ print_nat fs.time ++ codes "_" ++ print_nat counter
      else filename

  unfoldable pub store_upload : HttpRequest → Bytes → Bytes → Bytes → ℕ → Reply
  unfolding write_loop
  store_upload req filepath filename text counter =
      let (all, written) = write_loop (length text) (c_str filepath) 0 (length text) in
      let changes = stored (c_str filepath) (take written text) ∷ [] in
      if not (fs.creates (c_str filepath))
      then fails 500 req counter
      else if all
      then record {
        appended =
            send_page fs (some 201) (field (codes "Location") (with_slash req.path ++ filename))
              (codes "<!DOCTYPE html><html><body><p>File uploaded successfully.</p></body></html>")
              req;
        changes = changes;
        counter = counter;
      }
      else record {
        appended = send_error_internal fs 500 req cfg ∷ [];
        changes = changes;
        counter = counter;
      }

  unfoldable pub handle_post : HttpRequest → Location → ℕ → Reply
  unfolding store_upload uploaded upload_name
  handle_post req loc counter =
      let file = uploaded req in
      let filename = upload_name (suc counter) file.filename in
      let filepath = with_slash loc.upload ++ filename in
      if is_nil loc.upload
      then fails 405 req counter
      else store_upload req filepath filename file.contents (suc counter)

  -- `_handlePost` behind its callers' test.
  unfoldable pub post_to : HttpRequest → Option Location → ℕ → Reply
  unfolding handle_post
  post_to req none counter = fails 405 req counter
  post_to req (some loc) counter =
      if is_nil loc.upload then fails 405 req counter else handle_post req loc counter

  unfoldable pub handle_delete : Bytes → HttpRequest → ℕ → Reply
  handle_delete fs_path req counter = elim (fs.remove (c_str fs_path)) [
    | some e ↦ fails (status_of fs e) req counter
    | none ↦ record {
      appended =
          (codes "HTTP/1.1 204 No Content"
            ++ line_end
            ++ field (codes "Server") (codes "webserv/1.1")
            ++ field (codes "Date") fs.date
            ++ field (codes "Connection") (connection_header req)
            ++ line_end)
          ∷ [];
      changes = removed (c_str fs_path) ∷ [];
      counter = counter;
    }
  ]

  -- The directory that a path with a slash at its end stands for.
  unfoldable pub serve_directory : HttpRequest → Option Location → Bytes → ℕ → Reply
  unfolding post_to index_name
  serve_directory req loc fs_path counter =
      let idx_path = fs_path ++ index_name loc cfg in
      if not (is_dir_stat (fs.stat (c_str fs_path)))
      then fails 404 req counter
      else if is_method req (codes "POST")
      then post_to req loc counter
      else if not (is_method req (codes "GET"))
      then fails 405 req counter
      else if is_reg_stat (fs.stat (c_str idx_path))
      then replies (serve_static_file fs req idx_path cfg) counter
      else if has_autoindex loc
      then replies (send_directory_listing fs req fs_path cfg) counter
      else fails 403 req counter

  -- A directory that a path without a slash at its end stands for; `req` has the slash.
  unfoldable pub serve_found : HttpRequest → Option Location → Bytes → ℕ → Reply
  unfolding post_to index_name
  serve_found req dir_loc fs_path counter =
      let idx_path = fs_path ++ codes "/" ++ index_name dir_loc cfg in
      if is_method req (codes "POST")
      then post_to req dir_loc counter
      else if not (is_method req (codes "GET"))
      then fails 405 req counter
      else if is_reg_stat (fs.stat (c_str idx_path))
      then replies (serve_static_file fs req idx_path cfg) counter
      else if has_autoindex dir_loc
      then replies
          (send_directory_listing fs req (if is_nil fs_path then fs_path else with_slash fs_path)
            cfg)
          counter
      else fails 404 req counter

  unfoldable pub serve_path : HttpRequest → Option Location → ℕ → Reply
  unfolding serve_directory serve_found post_to handle_delete resolve_fs_path
  serve_path req loc counter =
      let fs_path = resolve_fs_path req loc cfg in
      let slashed = record req { path = req.path ++ codes "/" } in
      if ends_slash req.path
      then serve_directory req loc fs_path counter
      else elim (fs.stat (c_str fs_path)) [
        | none ↦ fails 404 req counter
        | some st ↦
            if st.is_directory
            then serve_found slashed (match_location cfg slashed.path) fs_path counter
            else if is_method req (codes "GET")
            then replies (serve_static_file fs req fs_path cfg) counter
            else if is_method req (codes "POST")
            then post_to req loc counter
            else if is_method req (codes "DELETE")
            then handle_delete fs_path req counter
            else fails 405 req counter
      ]

  -- Whether the location, or a server without one for the path, takes the method.
  abbrev pub takes_method : Bytes → Option Location → Bool
  takes_method method none = equal method (codes "GET")
  takes_method method (some loc) =
      is_nil loc.allowed_methods || method_allowed method loc.allowed_methods

  abbrev pub redirects : Option Location → Bool
  redirects none = false
  redirects (some loc) = loc.redirect_enabled

  -- `handle` from the location on.
  unfoldable pub serve_location : HttpRequest → Option Location → ℕ → Reply
  unfolding serve_path
  serve_location req none counter =
      if is_method req (codes "HEAD") || not (takes_method req.method none)
      then fails 405 req counter
      else serve_path req none counter
  serve_location req (some loc) counter =
      if is_method req (codes "HEAD") || not (takes_method req.method (some loc))
      then fails 405 req counter
      else if loc.redirect_enabled
      then replies (send_redirect fs loc.return_code loc.return_value req) counter
      else serve_path req (some loc) counter

  unfoldable pub handle : HttpRequest → ℕ → Reply
  unfolding serve_location normalize_path
  handle req counter = elim (normalize_path req.path) [
    | none ↦ fails 400 req counter
    | some safe_path ↦
        let safe = record req { path = safe_path } in
        serve_location safe (match_location cfg safe_path) counter
  ]

  -- Whether `handle` comes to a directory that the path, normalised by then, names without a slash.
  unfoldable pub finds_directory : HttpRequest → Bool
  unfolding resolve_fs_path
  finds_directory req =
      let loc = match_location cfg req.path in
      not (is_method req (codes "HEAD"))
      && takes_method req.method loc
      && not (redirects loc)
      && not (ends_slash req.path)
      && is_dir_stat (fs.stat (c_str (resolve_fs_path req loc cfg)))

  -- What `handle` makes of `req.path`, through its `const_cast`s.
  unfoldable pub path_after : HttpRequest → Bytes
  unfolding normalize_path finds_directory
  path_after req = elim (normalize_path req.path) [
    | none ↦ req.path
    | some safe_path ↦
        if finds_directory (record req { path = safe_path })
        then safe_path ++ codes "/"
        else safe_path
  ]
