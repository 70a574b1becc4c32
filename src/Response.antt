-- ===== src/Response.antt =====
-- The helpers of src/ResponseHandler_helper.cpp: escaping, MIME types, reason phrases.
pub mod Html
pub mod Mime
use webserer_core.Base.{
  ℕ, Bool, true, false, ◌||◌, List, [], ◌∷◌, ◌++◌, Option, none, some, ◌==◌, if◌then◌else◌, Bytes,
  codes, equal,
}
use webserer_core.Request.{HttpRequest, keep_alive}
use webserer_core.Text.{str_tolower}

-- One round of `htmlEscape`.
unfoldable pub escape_byte : ℕ → Bytes
escape_byte c =
    if c == b'&'
    then codes "&amp;"
    else if c == b'<'
    then codes "&lt;"
    else if c == b'>'
    then codes "&gt;"
    else if c == 34
    then codes "&quot;"
    else if c == 39
    then codes "&#39;"
    else c ∷ []

unfoldable pub html_escape : Bytes → Bytes
unfolding escape_byte
html_escape [] = []
html_escape (c ∷ cs) = escape_byte c ++ html_escape cs

-- The table that the constructor fills.
abbrev pub mime : List (Bytes × Bytes)
mime =
    (codes ".html", codes "text/html")
    ∷ (codes ".htm", codes "text/html")
    ∷ (codes ".css", codes "text/css")
    ∷ (codes ".js", codes "application/javascript")
    ∷ (codes ".json", codes "application/json")
    ∷ (codes ".xml", codes "application/xml")
    ∷ (codes ".txt", codes "text/plain")
    ∷ (codes ".pdf", codes "application/pdf")
    ∷ (codes ".zip", codes "application/zip")
    ∷ (codes ".tar", codes "application/x-tar")
    ∷ (codes ".png", codes "image/png")
    ∷ (codes ".jpg", codes "image/jpeg")
    ∷ (codes ".jpeg", codes "image/jpeg")
    ∷ (codes ".gif", codes "image/gif")
    ∷ (codes ".ico", codes "image/x-icon")
    ∷ (codes ".svg", codes "image/svg+xml")
    ∷ (codes ".webp", codes "image/webp")
    ∷ (codes ".mp4", codes "video/mp4")
    ∷ (codes ".webm", codes "video/webm")
    ∷ (codes ".mp3", codes "audio/mpeg")
    ∷ (codes ".wav", codes "audio/wav")
    ∷ (codes ".ogg", codes "audio/ogg")
    ∷ (codes ".woff", codes "font/woff")
    ∷ (codes ".woff2", codes "font/woff2")
    ∷ (codes ".ttf", codes "font/ttf")
    ∷ []

abbrev pub octet_stream : Bytes
octet_stream = codes "application/octet-stream"

-- `path.substr(path.rfind('.'))`
unfoldable pub from_last_dot : Bytes → Option Bytes
from_last_dot [] = none
from_last_dot (c ∷ cs) = elim (from_last_dot cs) [
  | some ext ↦ some ext
  | none ↦ if c == b'.' then some (c ∷ cs) else none
]

unfoldable pub type_in : List (Bytes × Bytes) → Bytes → Bytes
type_in [] ext = octet_stream
type_in ((key, value) ∷ table) ext = if equal key ext then value else type_in table ext

unfoldable pub get_mime_type : Bytes → Bytes
get_mime_type path = elim (from_last_dot path) [
  | none ↦ octet_stream
  | some ext ↦ type_in mime (str_tolower ext)
]

unfoldable pub method_allowed : Bytes → List Bytes → Bool
method_allowed method [] = false
method_allowed method (m ∷ allowed) = equal m method || method_allowed method allowed

abbrev pub phrases : List (ℕ × Bytes)
phrases =
    (200, codes "OK")
    ∷ (201, codes "Created")
    ∷ (204, codes "No Content")
    ∷ (301, codes "Moved Permanently")
    ∷ (302, codes "Found")
    ∷ (303, codes "See Other")
    ∷ (304, codes "Not Modified")
    ∷ (307, codes "Temporary Redirect")
    ∷ (308, codes "Permanent Redirect")
    ∷ (400, codes "Bad Request")
    ∷ (401, codes "Unauthorized")
    ∷ (403, codes "Forbidden")
    ∷ (404, codes "Not Found")
    ∷ (405, codes "Method Not Allowed")
    ∷ (408, codes "Request Timeout")
    ∷ (409, codes "Conflict")
    ∷ (410, codes "Gone")
    ∷ (413, codes "Payload Too Large")
    ∷ (414, codes "URI Too Long")
    ∷ (411, codes "Length Required")
    ∷ (431, codes "Request Header Fields Too Large")
    ∷ (500, codes "Internal Server Error")
    ∷ (501, codes "Not Implemented")
    ∷ (502, codes "Bad Gateway")
    ∷ (503, codes "Service Unavailable")
    ∷ (504, codes "Gateway Timeout")
    ∷ (505, codes "HTTP Version Not Supported")
    ∷ []

phrase_in : List (ℕ × Bytes) → ℕ → Bytes
phrase_in [] code = codes "Unknown"
phrase_in ((n, phrase) ∷ table) code = if n == code then phrase else phrase_in table code

unfoldable pub reason_phrase : ℕ → Bytes
unfolding phrase_in
reason_phrase code = phrase_in phrases code

unfoldable pub connection_header : HttpRequest → Bytes
connection_header req = if keep_alive req then codes "keep-alive" else codes "close"
