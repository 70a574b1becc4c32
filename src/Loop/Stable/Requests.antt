-- ===== src/Loop/Stable/Requests.antt =====
-- Properties that reading from a client and serving a request keep.
use webserer_core.Base.{
  ℕ, ◌≡◌, refl, ◌∙◌, true, false, not, ◌&&◌, ◌||◌, inl, inr, List, [], ◌∷◌, some, Bytes, Bool, ltb,
  ◌==◌, Bool-cases, if◌then◌else◌, Outcome, returned, thrown, hung,
}
use webserer_core.Cgi.{CgiRequestInfo, resolve_cgi_request}
use webserer_core.Connection
use webserer_core.Connection.{Connection, Interest, set_cgi_running, set_processing}
use webserer_core.Feed.{feed, is_body}
use webserer_core.Feed.Left.{feed_left}
use webserer_core.Loop.{Loop, System, client_at}
use webserer_core.Loop.Closing.{close_client}
use webserer_core.Loop.Ended.{Ended, done, raised, stuck, put_client}
use webserer_core.Loop.Jobs.{set_close}
use webserer_core.Loop.Reads.{
  is_ready, respond, dispatch_script, dispatch_page, dispatch_complete, flush_body, end_body,
  end_of_input, no_more_input, after_feed, read_loop, handle_read,
}
use webserer_core.Loop.Spool.{
  is_complete, is_error, finalize_body_tmp_file, flush_request_body_to_tmp_file, for_script,
  resume_body_if_needed, maybe_complete_post_without_length,
}
use webserer_core.Loop.Stable.{
  Same, Stable, Keeps, Keeps-then, Keeps-catch, Keeps-if, Keeps-option, Keeps-outcome,
  Keeps-on_client, Keeps-update_client, Keeps-append_all, Keeps-start_writing, Keeps-answer_error,
  close_client-P,
}
use webserer_core.Loop.Stable.Input.{Growing, Keeps-api_start_cgi}
use webserer_core.Loop.Stable.Bodies.{finalize-Same, flush-Same, client_at-Same, client_at-put}
use webserer_core.Manager.{is_cgi_running}
use webserer_core.Parser.{with_request}
use webserer_core.Request.{ParseState}

module _ {P : Loop → Type 0} (growing : Growing P) (system : System) where
  stable : Stable P
  stable = growing.stable

  quiet : (s t : Loop) → Same s t → P s → P t
  quiet = stable.on_same

  Keeps-respond : (fd : ℕ) (s : Loop) → P s → Keeps P (respond system fd s)
  unfolding respond
  Keeps-respond fd s h = Keeps-on_client P fd _ s h (λ conn e.
      Keeps-append_all stable fd _ _
        (stable.on_put fd conn _ _ e (quiet s _ (refl, refl, refl, refl, refl) h)))

  Keeps-dispatch_script :
      (fd : ℕ) (info : CgiRequestInfo) (conn : Connection) (s : Loop)
      → P s
      → Keeps P (dispatch_script system fd info conn s)
  unfolding dispatch_script
  Keeps-dispatch_script fd info conn s h =
      Keeps-if P _ _ _ (Keeps-answer_error stable system (conn.request).error_code fd s h) (
        Keeps-then P _ _ (Keeps-api_start_cgi growing system fd info s h) (λ t k.
          Keeps-on_client P fd _ t k
            (λ after e. stable.on_put fd after _ _ e (quiet t _ (refl, refl, refl, refl, refl) k))))

  Keeps-dispatch_page :
      (fd : ℕ) (old conn : Connection) (s : Loop)
      → client_at fd s ≡ some old
      → P s
      → Keeps P (dispatch_page system fd conn s)
  unfolding dispatch_page
  Keeps-dispatch_page fd old conn s e h =
      Keeps-then P _ _
        (Keeps-respond fd _
          (stable.on_put fd old _ _ e (quiet s _ (refl, refl, refl, refl, refl) h)))
        (λ t k. Keeps-start_writing stable system fd t k)

  -- A connection that is put back after its body was taken care of.
  put_after :
      (fd : ℕ) (old conn : Connection) (s t : Loop)
      → client_at fd s ≡ some old
      → Same s t
      → P s
      → P (put_client fd conn t)
  put_after fd old conn s t e h p =
      stable.on_put fd old conn t (client_at-Same fd s t h ∙ e) (quiet s t h p)

  prepared-Same :
      (conn : Connection) (s : Loop)
      → let r : Connection × Loop =
          if for_script conn then finalize_body_tmp_file system conn s else (conn, s) in
        Same s r.1
  prepared-Same conn s = elim (Bool-cases (for_script conn)) [
    | inl e ↦ rw e (finalize-Same system conn s)
    | inr e ↦ rw e (refl, refl, refl, refl, refl)
  ]

  Keeps-dispatch_complete : (fd : ℕ) (s : Loop) → P s → Keeps P (dispatch_complete system fd s)
  unfolding dispatch_complete
  Keeps-dispatch_complete fd s h = Keeps-on_client P fd _ s h (λ old e.
      let conn = set_processing old in
      let r : Connection × Loop =
        if for_script conn then finalize_body_tmp_file system conn s else (conn, s) in
      let k = put_after fd old r.0 s r.1 e (prepared-Same conn s) h in
      Keeps-option P (resolve_cgi_request r.0.request r.0.config) _ _
        (Keeps-dispatch_page fd r.0 r.0 _ (client_at-put fd r.0 r.1) k)
        (λ info z. Keeps-dispatch_script fd info r.0 _ k))

  flush_body-P :
      (fd : ℕ) (old conn : Connection) (s : Loop)
      → client_at fd s ≡ some old
      → P s
      → P (flush_body system fd conn s).1
  unfolding flush_body
  flush_body-P fd old conn s e h = put_after fd old _ s _ e (flush-Same system conn s) h

  client_at-flush_body :
      (fd : ℕ) (conn : Connection) (s : Loop)
      → client_at fd (flush_body system fd conn s).1 ≡ some (flush_body system fd conn s).0
  unfolding flush_body
  client_at-flush_body fd conn s =
      let r = flush_request_body_to_tmp_file system conn s in client_at-put fd r.0 r.1

  Keeps-end_body :
      (fd : ℕ) (conn : Connection) (s : Loop)
      → client_at fd s ≡ some conn
      → P s
      → Keeps P (end_body system fd conn s)
  unfolding end_body
  Keeps-end_body fd conn s e h =
      let r = flush_body system fd conn s in
      let completed =
        with_request (record (r.0.request) { parse_state = ParseState.complete }) r.0 in
      let u = put_client fd completed r.1 in
      let k : P u =
        stable.on_put fd r.0 completed r.1 (client_at-flush_body fd conn s)
          (flush_body-P fd conn conn s e h) in
      Keeps-if P (is_ready completed) _ (done (close_client system fd u))
        (Keeps-dispatch_complete fd u k) (close_client-P stable system fd u k)

  Keeps-end_of_input : (fd : ℕ) (s : Loop) → P s → Keeps P (end_of_input system fd s)
  unfolding end_of_input
  Keeps-end_of_input fd s h = Keeps-on_client P fd _ s h (λ conn e.
      let req = conn.request in
      Keeps-if P
        (is_body req.parse_state
          && not req.chunked
          && (req.content_length == 0)
          && ltb 0 req.written
          && for_script conn)
        _ (done (close_client system fd s)) (Keeps-end_body fd conn s e h)
        (close_client-P stable system fd s h))

  Keeps-no_more_input : (fd : ℕ) (s : Loop) → P s → Keeps P (no_more_input system fd s)
  unfolding no_more_input
  Keeps-no_more_input fd s h = Keeps-on_client P fd _ s h (λ old e.
      let conn = maybe_complete_post_without_length old in
      let r : Connection × Loop =
        if for_script conn then flush_body system fd conn s else (conn, put_client fd conn s) in
      let k : P r.1 = elim (Bool-cases (for_script conn)) [
        | inl z ↦ rw z (flush_body-P fd old conn s e h)
        | inr z ↦ rw z (stable.on_put fd old conn s e h)
      ] in
      Keeps-if P (is_ready r.0) _ (done r.1) (Keeps-dispatch_complete fd r.1 k) k)

  -- A body that is flushed where it is for a script.
  flushed-there :
      (b : Bool) (fd : ℕ) (conn : Connection) (s : Loop)
      → client_at fd s ≡ some conn
      → P s
      → let r : Connection × Loop = if b then flush_body system fd conn s else (conn, s) in
        (client_at fd r.1 ≡ some r.0) × P r.1
  flushed-there true fd conn s e h =
      (client_at-flush_body fd conn s, flush_body-P fd conn conn s e h)
  flushed-there false fd conn s e h = (e, h)

  Keeps-after_feed :
      (fd : ℕ) (old conn : Connection) (s : Loop) (go_on : Loop → Ended)
      → client_at fd s ≡ some old
      → P s
      → ((t : Loop) → P t → Keeps P (go_on t))
      → Keeps P (after_feed system fd conn s go_on)
  unfolding after_feed
  Keeps-after_feed fd old conn s go_on e h g =
      let state = (conn.request).parse_state in
      let t = put_client fd conn s in
      let k = stable.on_put fd old conn s e h in
      let b = (is_body state || is_complete state) && for_script conn in
      let r : Connection × Loop = if b then flush_body system fd conn t else (conn, t) in
      let (there, l) = flushed-there b fd conn t (client_at-put fd conn s) k in
      let now = maybe_complete_post_without_length r.0 in
      let m = stable.on_put fd r.0 now r.1 there l in
      Keeps-if P (is_error state) _ _
        (Keeps-answer_error stable system (conn.request).error_code fd t k)
        (Keeps-if P (is_ready now) _ _ (Keeps-dispatch_complete fd _ m) (g _ m))

  Keeps-fed :
      (fd : ℕ) (old resumed : Connection) (more : List Bytes) (ended : Bool) (s : Loop)
      (r : Outcome Connection)
      → client_at fd s ≡ some old
      → P s
      → ((t : Loop) → P t → Keeps P (read_loop system fd more ended t))
      → Keeps P (elim r [
        | thrown ↦ raised (put_client fd (feed_left system.stat resumed) s)
        | hung ↦ stuck
        | returned fed ↦ after_feed system fd fed s (read_loop system fd more ended)
      ])
  Keeps-fed fd old resumed more ended s (returned fed) e h g = Keeps-after_feed fd old fed s _ e h g
  Keeps-fed fd old resumed more ended s thrown e h g = stable.on_put fd old _ s e h
  Keeps-fed fd old resumed more ended s hung e h g = tt

  Keeps-read_loop :
      (fd : ℕ) (texts : List Bytes) (ended : Bool) (s : Loop)
      → P s
      → Keeps P (read_loop system fd texts ended s)
  unfolding read_loop
  Keeps-read_loop fd [] ended s h =
      Keeps-if P ended _ _ (Keeps-end_of_input fd s h) (Keeps-no_more_input fd s h)
  Keeps-read_loop fd (got ∷ more) ended s h = Keeps-on_client P fd _ s h (λ conn e.
      Keeps-outcome P (Connection.recv system.now got conn) s _ h (λ received.
        let resumed = resume_body_if_needed received in
        Keeps-fed fd conn resumed more ended s (feed system.stat resumed) e h
          (λ t k. Keeps-read_loop fd more ended t k)))

  pub Keeps-handle_read : (fd : ℕ) (s : Loop) → P s → Keeps P (handle_read system fd s)
  unfolding handle_read
  Keeps-handle_read fd s h = Keeps-on_client P fd _ s h (λ conn e.
      Keeps-if P (is_cgi_running conn.state) (done s) _ h (
        Keeps-catch P _ _ (Keeps-read_loop fd _ _ _ (quiet s _ (refl, refl, refl, refl, refl) h))
          (λ t k.
            Keeps-then P _ _ (Keeps-update_client stable fd set_close t k)
              (λ u l. Keeps-answer_error stable system 413 fd u l))))
