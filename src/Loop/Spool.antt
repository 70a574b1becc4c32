-- ===== src/Loop/Spool.antt =====
-- How src/EventLoop/EventLoop_helper_handlers.cpp keeps the body of a request for a script in a file.
use webserer_core.Base.{
  ℕ, zero, suc, ◌+◌, ◌-◌, Bool, true, false, not, ◌&&◌, ◌||◌, List, [], ◌∷◌, ◌++◌, Option, none,
  some, ltb, leb, ◌==◌, if◌then◌else◌, Bytes, codes, is_nil, equal, add_size,
}
use webserer_core.Buffer
use webserer_core.Cgi.{path_requires_cgi_body_spool}
use webserer_core.Connection.{Connection}
use webserer_core.Feed.{is_body}
use webserer_core.Handler.Replies.{print_nat}
use webserer_core.Loop.{Loop, System, log, ask}
use webserer_core.Manager.{SystemCall, closes, removes}
use webserer_core.Parser.{with_request}
use webserer_core.Request.{HttpRequest, ParseState, expects_body}

abbrev pub is_complete : ParseState → Bool
is_complete ParseState.complete = true
is_complete _ = false

abbrev pub is_error : ParseState → Bool
is_error ParseState.error = true
is_error _ = false

abbrev pub is_post : HttpRequest → Bool
is_post req = equal req.method (codes "POST")

abbrev pub for_script : Connection → Bool
for_script conn = path_requires_cgi_body_spool conn.request conn.config

unfoldable pub is_body_fully_spooled : Connection → Bool
is_body_fully_spooled conn =
    let req = conn.request in
    if not (expects_body req)
    then true
    else if for_script conn
    then Buffer.is_empty req.body
      && is_complete req.parse_state
      && not (req.body_file_written == 0)
      && (req.body_file_written == req.written)
      && not (ltb 0 req.content_length && ltb req.body_file_written req.content_length)
    else if req.chunked
    then is_complete req.parse_state
    else if ltb 0 req.content_length
    then leb req.content_length req.written
    else if is_post req
    then is_complete req.parse_state && ltb 0 req.written
    else true

abbrev close_calls : Option ℕ → List SystemCall
close_calls none = []
close_calls (some fd) = closes fd ∷ []

unfoldable pub cleanup_body_tmp_file : HttpRequest → HttpRequest × List SystemCall
cleanup_body_tmp_file req = (
  record req { opened_file = none; tmp_body_path = []; opened = false },
  close_calls req.opened_file
      ++ (if is_nil req.tmp_body_path then [] else removes req.tmp_body_path ∷ []),
)

unfoldable pub resume_body_if_needed : Connection → Connection
resume_body_if_needed conn =
    let req = conn.request in
    let resumed = with_request (record req { parse_state = ParseState.body }) conn in
    if not (is_complete req.parse_state)
    then conn
    else if ltb 0 req.content_length && ltb req.body_file_written req.content_length
    then resumed
    else if not req.chunked
        && (req.content_length == 0)
        && is_post req
        && not (Buffer.is_empty conn.read_buffer)
    then resumed
    else conn

unfoldable pub maybe_complete_post_without_length : Connection → Connection
maybe_complete_post_without_length conn =
    let req = conn.request in
    if not (is_body req.parse_state)
      || req.chunked
      || ltb 0 req.content_length
      || not (is_post req)
      || (req.written == 0)
      || not (Buffer.is_empty conn.read_buffer)
    then conn
    else with_request (record req { parse_state = ParseState.complete }) conn

-- The state and the code of an error.
abbrev broken : ℕ → HttpRequest → HttpRequest
broken code req = record req { parse_state = ParseState.error; error_code = code }

module _ (system : System) where
  unfoldable pub finalize_body_tmp_file : Connection → Loop → Connection × Loop
  finalize_body_tmp_file conn s =
      let req = conn.request in
      let t = ask (log (close_calls req.opened_file) s) in
      if not req.opened || (req.body_file_written == 0) then (conn, s) else elim req.opened_file [
        | none ↦ (conn, s)
        | some old ↦ elim (system.opens s.asked req.tmp_body_path) [
          | some fd ↦ (with_request (record req { opened_file = some fd }) conn, t)
          | none ↦ (with_request (broken 500 (record req { opened_file = none })) conn, t)
        ]
      ]

  -- The loop of `write` calls: the bytes written, none where a call fails, and the answers had. Each
  -- round writes a byte at least.
  unfoldable pub spool_loop : ℕ → ℕ → ℕ → ℕ → Option ℕ × ℕ
  spool_loop zero asked offset len = (some offset, asked)
  spool_loop (suc rounds) asked offset len =
      if leb len offset then (some offset, asked) else elim (system.writes asked (len - offset)) [
        | none ↦ (none, suc asked)
        | some n ↦
            let further = spool_loop rounds (suc asked) (offset + n) len in
            if n == 0 then (some offset, suc asked) else further
      ]

  unfoldable pub tmp_name : ℕ → ℕ → Bytes
  tmp_name counter fd =
      codes "/tmp/webserv_"
      ++ print_nat counter
      ++ codes "_"
      ++ print_nat (system.conn_num fd)
      ++ codes "_"
      ++ print_nat system.now

  -- `if (!req.opened)`
  unfoldable pub open_tmp_file : HttpRequest → ℕ → Loop → HttpRequest × Loop
  unfolding tmp_name
  open_tmp_file req fd s =
      let name = tmp_name (suc s.spooled) fd in
      let t = ask (record s { spooled = suc s.spooled }) in
      if req.opened then (req, s) else elim (system.opens s.asked name) [
        | some file ↦
            (record req { tmp_body_path = name; opened_file = some file; opened = true }, t)
        | none ↦
            (record (broken 503 req) { tmp_body_path = []; opened_file = none; opened = true }, t)
      ]

  -- The loop of writes to a file, which fails where there is none.
  unfoldable pub spool : HttpRequest → Loop → HttpRequest × Loop
  unfolding spool_loop
  spool req s = elim req.opened_file [
    | none ↦ (broken 503 req, ask s)
    | some file ↦
        let size = Buffer.size req.body in
        let (written, asked) = spool_loop size s.asked 0 size in
        let t = record s { asked = asked } in
        elim written [
          | none ↦ (broken 503 req, t)
          | some offset ↦ (
            record req {
              body_file_written = add_size req.body_file_written offset;
              body = Buffer.reset req.body;
            },
            t,
          )
        ]
  ]

  unfoldable pub flush_request_body_to_tmp_file : Connection → Loop → Connection × Loop
  unfolding open_tmp_file spool
  flush_request_body_to_tmp_file conn s =
      let req = conn.request in
      if Buffer.is_empty req.body
      then (conn, s)
      else if ltb 0 req.max_body_size
          && ltb req.max_body_size (add_size req.body_file_written (Buffer.size req.body))
      then (with_request (broken 413 req) conn, s)
      else (let (opened, t) = open_tmp_file req conn.fd s in
          let (spooled, u) = spool opened t in (with_request spooled conn, u))
