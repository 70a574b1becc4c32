-- ===== src/Loop/Reads.antt =====
-- `_handleRead` and `_tryDispatchComplete` of src/EventLoop/EventLoop_helper_handlers.cpp.
use webserer_core.Base.{
  ℕ, Bool, true, false, not, ◌&&◌, ◌||◌, List, [], ◌∷◌, ◌++◌, Option, none, some, ltb, ◌==◌,
  if◌then◌else◌, Bytes, returned, thrown, hung,
}
use webserer_core.Cgi.{CgiRequestInfo, resolve_cgi_request}
use webserer_core.Connection
use webserer_core.Connection.{Connection, set_processing}
use webserer_core.Feed.{feed, is_body}
use webserer_core.Feed.Left.{feed_left}
use webserer_core.Handler.Serve
use webserer_core.Loop.{Loop, System, log, ask}
use webserer_core.Loop.Closing.{close_client}
use webserer_core.Loop.Ended.{
  Ended, done, raised, stuck, ◌|>◌, catch, on_client, update_client, put_client, append_all,
  start_writing, answer_error,
}
use webserer_core.Loop.Jobs.{set_close}
use webserer_core.Loop.Launch.{api_start_cgi}
use webserer_core.Loop.Spool.{
  is_body_fully_spooled, is_complete, is_error, for_script, cleanup_body_tmp_file,
  finalize_body_tmp_file, flush_request_body_to_tmp_file, resume_body_if_needed,
  maybe_complete_post_without_length,
}
use webserer_core.Manager.{SystemCall, closes, is_cgi_running}
use webserer_core.Parser.{with_request}
use webserer_core.Request.{ParseState}

-- What `_tryDispatchComplete` does behind `_ApiStartCgi`.
abbrev close_spooled : Connection → Connection × List SystemCall
close_spooled conn =
    let req = record (conn.request) { opened = false } in
    elim req.opened_file [
      | none ↦ (with_request req conn, [])
      | some fd ↦
          if ltb 0 fd
          then (with_request (record req { opened_file = none }) conn, closes fd ∷ [])
          else (with_request req conn, [])
    ]

-- The tests that `_tryDispatchComplete` begins with; where they fail it does nothing.
unfoldable pub is_ready : Connection → Bool
unfolding is_body_fully_spooled
is_ready conn = is_complete (conn.request).parse_state && is_body_fully_spooled conn

abbrev is_closed : Option ℕ → Bool
is_closed none = true
is_closed (some fd) = false

abbrev pub with_path : Bytes → Connection → Connection
with_path path conn = with_request (record (conn.request) { path = path }) conn

module _ (system : System) where
  -- `_responder.handle(...)`, which writes to the request's path as well.
  unfoldable pub respond : ℕ → Loop → Ended
  respond fd s =
      on_client fd
        (λ conn.
          let reply = Serve.handle system.files conn.config conn.request s.uploads in
          append_all fd reply.appended (
            put_client fd (with_path (Serve.path_after system.files conn.config conn.request) conn)
              (record s { uploads = reply.counter; changes = s.changes ++ reply.changes })))
        s

  -- A request for a script, with its body in a file that is ready to be read.
  unfoldable pub dispatch_script : ℕ → CgiRequestInfo → Connection → Loop → Ended
  unfolding api_start_cgi
  dispatch_script fd info conn s =
      let req = conn.request in
      if ltb 0 req.body_file_written && is_closed req.opened_file
      then answer_error system req.error_code fd s
      else (api_start_cgi system fd info s |> λ t.
          on_client fd
            (λ after.
              let (closed, calls) = close_spooled after in
              done (put_client fd closed (log calls t)))
            t)

  unfoldable pub dispatch_page : ℕ → Connection → Loop → Ended
  unfolding cleanup_body_tmp_file respond
  dispatch_page fd conn s =
      let (req, calls) = cleanup_body_tmp_file conn.request in
      respond fd (put_client fd (with_request req conn) (log calls s)) |> start_writing system fd

  -- `_tryDispatchComplete` where it returns true.
  unfoldable pub dispatch_complete : ℕ → Loop → Ended
  unfolding finalize_body_tmp_file dispatch_script dispatch_page
  dispatch_complete fd s =
      on_client fd
        (λ old.
          let conn = set_processing old in
          let (ready, t) =
            (if for_script conn then finalize_body_tmp_file system conn s else (conn, s)) in
          let u = put_client fd ready t in
          elim (resolve_cgi_request ready.request ready.config) [
            | some info ↦ dispatch_script fd info ready u
            | none ↦ dispatch_page fd ready u
          ])
        s

  unfoldable pub flush_body : ℕ → Connection → Loop → Connection × Loop
  unfolding flush_request_body_to_tmp_file
  flush_body fd conn s =
      let (flushed, t) = flush_request_body_to_tmp_file system conn s in
      (flushed, put_client fd flushed t)

  -- A body for a script without a length is complete where the client will send no more.
  unfoldable pub end_body : ℕ → Connection → Loop → Ended
  unfolding flush_body dispatch_complete close_client
  end_body fd conn s =
      let (flushed, t) = flush_body fd conn s in
      let completed =
        with_request (record (flushed.request) { parse_state = ParseState.complete }) flushed in
      let u = put_client fd completed t in
      if is_ready completed then dispatch_complete fd u else done (close_client system fd u)

  -- `recv` returned 0.
  unfoldable pub end_of_input : ℕ → Loop → Ended
  unfolding end_body close_client
  end_of_input fd s =
      on_client fd
        (λ conn.
          let req = conn.request in
          if is_body req.parse_state
            && not req.chunked
            && (req.content_length == 0)
            && ltb 0 req.written
            && for_script conn
          then end_body fd conn s
          else done (close_client system fd s))
        s

  -- `recv` failed: there is no more for now.
  unfoldable pub no_more_input : ℕ → Loop → Ended
  unfolding flush_body dispatch_complete
  no_more_input fd s =
      on_client fd
        (λ old.
          let conn = maybe_complete_post_without_length old in
          let (now, t) =
            (if for_script conn then flush_body fd conn s else (conn, put_client fd conn s)) in
          if is_ready now then dispatch_complete fd t else done t)
        s

  -- The request behind a call of `feed` that returned: an error is answered, a complete request
  -- dispatched, and in each case the loop is left; otherwise it goes on.
  unfoldable pub after_feed : ℕ → Connection → Loop → (Loop → Ended) → Ended
  unfolding flush_body dispatch_complete
  after_feed fd conn s go_on =
      let state = (conn.request).parse_state in
      let t = put_client fd conn s in
      let (flushed, u) =
        (if (is_body state || is_complete state) && for_script conn
          then flush_body fd conn t
          else (conn, t)) in
      let now = maybe_complete_post_without_length flushed in
      let v = put_client fd now u in
      if is_error state
      then answer_error system (conn.request).error_code fd t
      else if is_ready now
      then dispatch_complete fd v
      else go_on v

  -- The loop of `_handleRead` over what `recv` returns.
  unfoldable pub read_loop : ℕ → List Bytes → Bool → Loop → Ended
  unfolding end_of_input no_more_input after_feed
  read_loop fd [] ended s = if ended then end_of_input fd s else no_more_input fd s
  read_loop fd (got ∷ more) ended s =
      on_client fd
        (λ conn. elim (Connection.recv system.now got conn) [
          | thrown ↦ raised s
          | hung ↦ stuck
          | returned received ↦
              let resumed = resume_body_if_needed received in
              elim (feed system.stat resumed) [
                | thrown ↦ raised (put_client fd (feed_left system.stat resumed) s)
                | hung ↦ stuck
                | returned fed ↦ after_feed fd fed s (read_loop fd more ended)
              ]
        ])
        s

  unfoldable pub handle_read : ℕ → Loop → Ended
  unfolding read_loop
  handle_read fd s =
      on_client fd
        (λ conn.
          let (texts, ended) = system.receives s.asked fd in
          if is_cgi_running conn.state
          then done s
          else catch (read_loop fd texts ended (ask s))
              (λ t. update_client fd set_close t |> answer_error system 413 fd))
        s
