-- ===== src/Handler/Replies.antt =====
-- The texts that src/ResponseHandler.cpp and src/ResponseLoader.cpp put into the write buffer.
-- The file system, the clock and `strftime` are a parameter: what they answer while one request is
-- handled. A path reaches them as a C string.
use webserer_core.Base.{
  ℕ, zero, suc, ◌+◌, ◌/◌, ◌%◌, Bool, false, ◌||◌, List, [], ◌∷◌, ◌++◌, Option, none, some, ◌==◌,
  ltb, if◌then◌else◌, Bytes, codes, length, is_nil, equal,
}
use webserer_core.Config.{Server}
use webserer_core.Request.{HttpRequest}
use webserer_core.Response.{html_escape, reason_phrase, connection_header, get_mime_type}
use webserer_core.Target.{c_str}

pub data Errno : Type 0 where
  enoent eacces eperm other_error : Errno

-- `open` for reading: what each `read` returns, up to the first that returns no bytes.
pub data Opened : Type 0 where
  opened : List Bytes → Opened
  not_opened : Errno → Opened

pub data Listed : Type 0 where
  listed : List Bytes → Listed
  not_listed : Errno → Listed

pub record FileStat : Type 0 where
  pub is_directory : Bool
  pub is_regular : Bool
  pub st_size : ℕ

-- `S_ISDIR` and the size where `stat` succeeds.
abbrev pub is_dir_stat : Option FileStat → Bool
is_dir_stat none = false
is_dir_stat (some st) = st.is_directory

abbrev pub is_reg_stat : Option FileStat → Bool
is_reg_stat none = false
is_reg_stat (some st) = st.is_regular

abbrev size_stat : Option FileStat → ℕ
size_stat none = 0
size_stat (some st) = st.st_size

-- `take_bytes path n` is what `write` returns after `n` bytes, 0 where it fails; `remove` answers an
-- error or none.
pub record FileSystem : Type 0 where
  pub stat : Bytes → Option FileStat
  pub open_file : Bytes → Opened
  pub opendir : Bytes → Listed
  pub remove : Bytes → Option Errno
  pub creates : Bytes → Bool
  pub take_bytes : Bytes → ℕ → ℕ
  pub date : Bytes
  pub time : ℕ

abbrev pub concat : List Bytes → Bytes
concat [] = []
concat (s ∷ ss) = s ++ concat ss

-- `oss << n` for a `size_t`, which has at most 20 digits.
unfoldable pub digits : ℕ → ℕ → Bytes → Bytes
digits zero n behind = behind
digits (suc rounds) n behind =
    let next = (b'0' + n % 10) ∷ behind in
    let further = digits rounds (n / 10) next in if ltb n 10 then next else further

unfoldable pub print_nat : ℕ → Bytes
unfolding digits
print_nat n = digits 20 n []

abbrev pub line_end : Bytes
line_end = 13 ∷ 10 ∷ []

-- A line of the head.
abbrev pub field : Bytes → Bytes → Bytes
field name value = name ++ codes ": " ++ value ++ line_end

unfoldable pub status_line : ℕ → Bytes
unfolding print_nat
status_line code =
    codes "HTTP/1.1 " ++ print_nat code ++ codes " " ++ reason_phrase code ++ line_end

-- Where the source writes an `int` that can be -1.
abbrev pub print_code : Option ℕ → Bytes
print_code none = codes "-1"
print_code (some code) = print_nat code

abbrev pub phrase_of : Option ℕ → Bytes
phrase_of none = codes "Unknown"
phrase_of (some code) = reason_phrase code

module _ (fs : FileSystem) where
  unfoldable pub write_headers : Option ℕ → Bytes → ℕ → Bytes → HttpRequest → Bytes
  unfolding print_nat
  write_headers code ct cl extra req =
      codes "HTTP/1.1 "
      ++ print_code code
      ++ codes " "
      ++ phrase_of code
      ++ line_end
      ++ field (codes "Server") (codes "webserv/1.1")
      ++ field (codes "Date") fs.date
      ++ field (codes "Content-Type") ct
      ++ field (codes "Content-Length") (print_nat cl)
      ++ extra
      ++ field (codes "Connection") (connection_header req)
      ++ line_end

  unfoldable pub builtin_error_body : ℕ → Bytes
  unfolding print_nat
  builtin_error_body code =
      let title = print_nat code ++ codes " " ++ reason_phrase code in
      codes "<!DOCTYPE html>"
      ++ 10 ∷ codes "<html>"
      ++ 10 ∷ codes "<head><title>"
      ++ title
      ++ codes "</title></head>"
      ++ 10 ∷ codes "<body>"
      ++ 10 ∷ codes "<h1>"
      ++ title
      ++ codes "</h1>"
      ++ 10 ∷ codes "<hr><p>webserv/1.0</p>"
      ++ 10 ∷ codes "</body>"
      ++ 10 ∷ codes "</html>"
      ++ 10 ∷ []

  page_of : ℕ → List (ℕ × Bytes) → Option Bytes
  page_of code [] = none
  page_of code ((n, path) ∷ pages) = if n == code then some path else page_of code pages

  unfoldable pub load_error_page : ℕ → Server → Bytes
  unfolding builtin_error_body page_of
  load_error_page code cfg = elim (page_of code cfg.error_page) [
    | none ↦ builtin_error_body code
    | some path ↦
        if is_nil path then builtin_error_body code else elim (fs.open_file (c_str path)) [
          | not_opened e ↦ builtin_error_body code
          | opened reads ↦
              let text = concat reads in if is_nil text then builtin_error_body code else text
        ]
  ]

  -- `_sendErrorInternal`
  unfoldable pub send_error_internal : ℕ → HttpRequest → Server → Bytes
  unfolding load_error_page status_line
  send_error_internal code req cfg =
      let text = load_error_page code cfg in
      status_line code
      ++ field (codes "Server") (codes "webserv/1.0")
      ++ field (codes "Date") fs.date
      ++ field (codes "Content-Type") (codes "text/html")
      ++ field (codes "Content-Length") (print_nat (length text))
      ++ field (codes "Connection") (connection_header req)
      ++ line_end
      ++ (if equal req.method (codes "HEAD") then [] else text)

  -- `sendError`
  unfoldable pub send_error : ℕ → Server → Bytes
  unfolding load_error_page status_line
  send_error code cfg =
      let text = load_error_page code cfg in
      status_line code
      ++ field (codes "Server") (codes "webserv/1.0")
      ++ field (codes "Date") fs.date
      ++ field (codes "Content-Type") (codes "text/html")
      ++ field (codes "Content-Length") (print_nat (length text))
      ++ field (codes "Connection") (codes "close")
      ++ line_end
      ++ text

  -- The headers of a page and, but for HEAD, the page: one append each.
  unfoldable pub send_page : Option ℕ → Bytes → Bytes → HttpRequest → List Bytes
  unfolding write_headers
  send_page code extra page req =
      write_headers code (codes "text/html") (length page) extra req
      ∷ (if equal req.method (codes "HEAD") then [] else page ∷ [])

  unfoldable pub send_redirect : Option ℕ → Bytes → HttpRequest → List Bytes
  unfolding send_page
  send_redirect code url req =
      let link = html_escape url in
      send_page code (field (codes "Location") url)
        (codes "<!DOCTYPE html><html><head><title>"
          ++ print_code code
          ++ codes " "
          ++ phrase_of code
          ++ codes "</title></head><body><p>Redirecting to <a href="
          ++ 34 ∷ link
          ++ 34 ∷ codes ">"
          ++ link
          ++ codes "</a></p></body></html>")
        req

  -- The status for a file that cannot be opened, listed or removed.
  unfoldable pub status_of : Errno → ℕ
  status_of enoent = 404
  status_of eacces = 403
  status_of eperm = 403
  status_of other_error = 500

  -- The row of one name in a listing, none for the names of the directory itself and its parent.
  unfoldable pub listing_row : Bytes → Bytes → Bytes → Bytes
  listing_row path fs_path name =
      let st = fs.stat (c_str (fs_path ++ name)) in
      let is_dir = is_dir_stat st in
      let shown = if is_dir then name ++ codes "/" else name in
      if equal name (codes ".") || equal name (codes "..")
      then []
      else codes "<tr><td><a href="
        ++ 34 ∷ html_escape (path ++ shown)
        ++ 34 ∷ codes ">"
        ++ html_escape shown
        ++ codes "</a></td><td>"
        ++ (if is_dir then codes "-" else print_nat (size_stat st))
        ++ codes "</td></tr>"
        ++ 10 ∷ []

  unfoldable pub listing_rows : Bytes → Bytes → List Bytes → Bytes
  unfolding listing_row
  listing_rows path fs_path [] = []
  listing_rows path fs_path (name ∷ names) =
      listing_row path fs_path name ++ listing_rows path fs_path names

  unfoldable pub listing_page : Bytes → Bytes → List Bytes → Bytes
  unfolding listing_rows
  listing_page path fs_path names =
      codes "<!DOCTYPE html>"
      ++ 10 ∷ codes "<html>"
      ++ 10 ∷ codes "<head><meta charset="
      ++ 34 ∷ codes "UTF-8"
      ++ 34 ∷ codes "><title>Index of "
      ++ html_escape path
      ++ codes "</title>"
      ++ 10 ∷ codes "<style>body{font-family:monospace;padding:1em}"
      ++ codes "table{border-collapse:collapse;width:100%}th,td{text-align:left;padding:4px 12px}"
      ++ codes "tr:nth-child(even){background:#f2f2f2}a{text-decoration:none}"
      ++ codes "a:hover{text-decoration:underline}</style></head>"
      ++ 10 ∷ codes "<body>"
      ++ 10 ∷ codes "<h1>Index of "
      ++ html_escape path
      ++ codes "</h1>"
      ++ 10 ∷ codes "<hr>"
      ++ 10 ∷ codes "<table>"
      ++ 10 ∷ codes "<tr><th>Name</th><th>Size</th></tr>"
      ++ 10 ∷ []
      ++ (if equal path (codes "/")
          then []
          else codes "<tr><td><a href="
            ++ 34 ∷ codes "../"
            ++ 34 ∷ codes ">../</a></td><td>-</td></tr>"
            ++ 10 ∷ [])
      ++ listing_rows path fs_path names
      ++ codes "</table>"
      ++ 10 ∷ codes "<hr>"
      ++ 10 ∷ codes "</body>"
      ++ 10 ∷ codes "</html>"
      ++ 10 ∷ []

  unfoldable pub send_directory_listing : HttpRequest → Bytes → Server → List Bytes
  unfolding send_page listing_page send_error_internal status_of
  send_directory_listing req fs_path cfg = elim (fs.opendir (c_str fs_path)) [
    | not_listed e ↦ send_error_internal (status_of e) req cfg ∷ []
    | listed names ↦ send_page (some 200) [] (listing_page req.path fs_path names) req
  ]

  unfoldable pub serve_static_file : HttpRequest → Bytes → Server → List Bytes
  unfolding write_headers send_error_internal status_of
  serve_static_file req fs_path cfg = elim (fs.open_file (c_str fs_path)) [
    | not_opened e ↦ send_error_internal (status_of e) req cfg ∷ []
    | opened reads ↦ elim (fs.stat (c_str fs_path)) [
      | none ↦ send_error_internal 500 req cfg ∷ []
      | some st ↦
          if ltb 524288000 st.st_size
          then send_error_internal 400 req cfg ∷ []
          else write_headers (some 200) (get_mime_type fs_path) st.st_size [] req
            ∷ (if equal req.method (codes "HEAD") then [] else reads)
    ]
  ]
