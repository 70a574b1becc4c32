-- ===== src/Loop/Stable/Output.antt =====
-- Properties that the functions on the output of scripts and on what is written keep.
use webserer_core.Base.{
  ℕ, zero, suc, ◌≡◌, refl, not, ◌&&◌, inl, inr, List, [], ◌∷◌, none, some, Bytes, ltb, leb, is_nil,
  Option-cases, if◌then◌else◌,
}
use webserer_core.Buffer
use webserer_core.Buffer.{Buffer}
use webserer_core.Cgi.Output.{find_header_end}
use webserer_core.Connection.{Connection}
use webserer_core.Loop.{Loop, System, CgiJob, client_at, ask}
use webserer_core.Loop.Closing.{close_cgi_job, close_client}
use webserer_core.Loop.Clients.{time_out, close_timed_out_clients}
use webserer_core.Loop.Ended.{Ended, done, stuck, ◌|>◌, start_writing}
use webserer_core.Loop.Jobs.{
  put_job, is_there, is_head, end_output, finish_cgi_job, fail_client, fail_cgi_job, fail_cgi_jobs,
  close_timed_out_cgi_jobs, timed_out_jobs, look_at_client, pass_on, pass_head, take_output,
  read_output, handle_cgi_event, input_only, header_limit, high_mark, read_limit, set_close,
  last_chunk,
}
use webserer_core.Loop.Stable.{
  Stable, Keeps, Keeps-then, Keeps-catch, Keeps-if, Keeps-option, Keeps-outcome, Keeps-on_client,
  Keeps-update_client, Keeps-append_bytes, Keeps-append_all, Keeps-send_error_to, rearm_client-P,
  modify_event_fd-P, Keeps-start_writing, Keeps-answer_error, close_cgi_job-P, close_client-P,
}
use webserer_core.Loop.Writes.{
  send_loop, start_reading, after_writing, feed_from_job, handle_write, active_job, low_mark,
}
use webserer_core.Manager.{timed_out_fds}
use webserer_core.Request.{keep_alive}
use webserer_core.Tables.{lookup}

module _ {P : Loop → Type 0} (stable : Stable P) (system : System) where
  Keeps-end_output : (fd : ℕ) (s : Loop) → P s → Keeps P (end_output system fd s)
  unfolding end_output
  Keeps-end_output fd s h = elim (Option-cases (client_at fd s)) [
    | inl e ↦ rw (end_output, e) h
    | inr (conn, e) ↦
        rw (end_output, e)
          (Keeps-if P (is_head conn) _ _ h (Keeps-append_bytes stable fd last_chunk s h))
  ]

  pub Keeps-finish_cgi_job : (fd : ℕ) (s : Loop) → P s → Keeps P (finish_cgi_job system fd s)
  unfolding finish_cgi_job
  Keeps-finish_cgi_job fd s h = elim (Option-cases (lookup fd s.cgi_jobs)) [
    | inl e ↦ rw (finish_cgi_job, e) h
    | inr (job, e) ↦
        let client = job.client_fd in
        rw (finish_cgi_job, e)
          (Keeps-if P (not job.headers_sent) _ _
            (Keeps-then P _ _
              (Keeps-if P (is_there (client_at client s)) _ _
                (Keeps-answer_error stable system 502 client s h) h)
              (λ t k. close_cgi_job-P stable system fd t k))
            (Keeps-then P _ _ (Keeps-end_output client s h) (λ t k.
              let closed = close_cgi_job-P stable system fd t k in
              let after = close_cgi_job system fd t in
              Keeps-if P (is_there (client_at client s) && is_there (client_at client after)) _
                (done after) (Keeps-start_writing stable system client after closed) closed)))
  ]

  Keeps-fail_client :
      (job : CgiJob) (code : ℕ) (s : Loop) → P s → Keeps P (fail_client system job code s)
  unfolding fail_client
  Keeps-fail_client job code s h =
      let client = job.client_fd in
      Keeps-if P (not (is_there (client_at client s))) _ _ h (
        Keeps-if P (not job.headers_sent) _ _ (Keeps-answer_error stable system code client s h) (
          Keeps-then P _ _
            (Keeps-then P _ _ (Keeps-append_bytes stable client last_chunk s h)
              (λ t k. Keeps-update_client stable client set_close t k))
            (λ t k. Keeps-start_writing stable system client t k)))

  pub Keeps-fail_cgi_job : (fd code : ℕ) (s : Loop) → P s → Keeps P (fail_cgi_job system fd code s)
  unfolding fail_cgi_job
  Keeps-fail_cgi_job fd code s h = elim (Option-cases (lookup fd s.cgi_jobs)) [
    | inl e ↦ rw (fail_cgi_job, e) h
    | inr (job, e) ↦
        rw (fail_cgi_job, e)
          (Keeps-then P _ _ (Keeps-fail_client job code s h)
            (λ t k. close_cgi_job-P stable system fd t k))
  ]

  Keeps-fail_cgi_jobs :
      (fds : List ℕ) (code : ℕ) (s : Loop) → P s → Keeps P (fail_cgi_jobs system fds code s)
  unfolding fail_cgi_jobs
  Keeps-fail_cgi_jobs [] code s h = h
  Keeps-fail_cgi_jobs (fd ∷ fds) code s h =
      Keeps-then P _ _ (Keeps-fail_cgi_job fd code s h) (λ t k. Keeps-fail_cgi_jobs fds code t k)

  pub Keeps-close_timed_out_cgi_jobs :
      (s : Loop) → P s → Keeps P (close_timed_out_cgi_jobs system s)
  unfolding close_timed_out_cgi_jobs
  Keeps-close_timed_out_cgi_jobs s h =
      Keeps-fail_cgi_jobs (timed_out_jobs system.now s.cgi_jobs) 504 s h

  Keeps-look_at_client : (fd : ℕ) (s : Loop) → P s → Keeps P (look_at_client system fd s)
  unfolding look_at_client
  Keeps-look_at_client fd s h = Keeps-on_client P fd _ s h (λ conn e. h)

  put_job-P : (fd : ℕ) (job : CgiJob) (s : Loop) → P s → P (put_job fd job s)
  put_job-P fd job s h = stable.on_same s _ (refl, refl, refl, refl, refl) h

  Keeps-written_and_looked :
      (fd : ℕ) (e : Ended)
      → Keeps P e
      → Keeps P (e |> start_writing system fd |> look_at_client system fd)
  Keeps-written_and_looked fd e h =
      Keeps-then P _ _ (Keeps-then P e _ h (λ t k. Keeps-start_writing stable system fd t k))
        (λ t k. Keeps-look_at_client fd t k)

  Keeps-pass_on :
      (fd : ℕ) (job : CgiJob) (got : Bytes) (s : Loop) → P s → Keeps P (pass_on system fd job got s)
  unfolding pass_on
  Keeps-pass_on fd job got s h =
      Keeps-written_and_looked job.client_fd _
        (Keeps-then P _ _ (Keeps-append_all stable job.client_fd _ s h) (λ t k. put_job-P fd _ t k))

  Keeps-pass_head :
      (fd : ℕ) (job : CgiJob) (start : ℕ) (s : Loop)
      → P s
      → Keeps P (pass_head system fd job start s)
  unfolding pass_head
  Keeps-pass_head fd job start s h = Keeps-written_and_looked job.client_fd _ (
      Keeps-then P _ _
        (Keeps-then P _ _
          (Keeps-on_client P job.client_fd _ s h
            (λ conn e. Keeps-append_bytes stable job.client_fd _ s h))
          (λ t k. Keeps-append_all stable job.client_fd _ _ (put_job-P fd _ t k)))
        (λ t k. put_job-P fd _ t k))

  Keeps-take_output :
      (fd : ℕ) (job : CgiJob) (got : Bytes) (s : Loop)
      → P s
      → Keeps P (take_output system fd job got s)
  unfolding take_output
  Keeps-take_output fd job got s h =
      Keeps-if P job.headers_sent _ _ (Keeps-pass_on fd job got s h) (
        Keeps-outcome P (Buffer.append_result got job.result_buffer) s _ h (λ buf.
          let longer = record job { result_buffer = buf } in
          let t = put_job fd longer s in
          let k = put_job-P fd longer s h in
          Keeps-option P (find_header_end (Buffer.content buf)) _ _
            (Keeps-if P (ltb header_limit (Buffer.size buf)) _ (done t)
              (Keeps-fail_cgi_job fd 502 t k) k)
            (λ start e. Keeps-pass_head fd longer start t k)))

  Keeps-read_output :
      (fd : ℕ) (job : CgiJob) (s : Loop) → P s → Keeps P (read_output system fd job s)
  unfolding read_output
  Keeps-read_output fd job s h =
      let asked : P (ask s) = stable.on_same s _ (refl, refl, refl, refl, refl) h in
      elim (Option-cases (system.reads s.asked fd)) [
        | inl e ↦ rw (read_output, e) asked
        | inr (got, e) ↦
            rw (read_output, e)
              (Keeps-if P (is_nil got) _ _ (Keeps-finish_cgi_job fd _ (put_job-P fd _ _ asked))
                (Keeps-take_output fd _ got _ (put_job-P fd _ _ asked)))
      ]

  pub Keeps-handle_cgi_event : (fd : ℕ) (s : Loop) → P s → Keeps P (handle_cgi_event system fd s)
  unfolding handle_cgi_event
  Keeps-handle_cgi_event fd s h =
      Keeps-option P (if s.stopped then none else lookup fd s.cgi_jobs) (done s) _ h (λ job e.
        Keeps-if P (ltb read_limit job.parent_request) _ _ (Keeps-fail_cgi_job fd 502 s h) (
          Keeps-option P (client_at job.client_fd s) (done (close_cgi_job system fd s)) _
            (close_cgi_job-P stable system fd s h)
            (λ conn e.
              Keeps-if P (job.headers_sent && leb high_mark (Buffer.size conn.write_buffer))
                (done s) _ h
                (Keeps-catch P _ _ (Keeps-read_output fd job s h)
                  (λ t k. Keeps-if P t.stopped (done t) _ k (Keeps-fail_cgi_job fd 413 t k))))))

  -- Writing to a client.
  pub Keeps-send_loop : (rounds fd : ℕ) (s : Loop) → P s → Keeps P (send_loop system rounds fd s)
  unfolding send_loop
  Keeps-send_loop zero fd s h =
      Keeps-on_client P fd _ s h
        (λ conn e. Keeps-if P (Buffer.is_empty conn.write_buffer) (done s) stuck h tt)
  Keeps-send_loop (suc rounds) fd s h = Keeps-on_client P fd _ s h (λ conn e.
      Keeps-if P (Buffer.is_empty conn.write_buffer) (done s) _ h (
        Keeps-option P (system.sends s.asked fd) (done (ask s)) _
          (stable.on_same s _ (refl, refl, refl, refl, refl) h)
          (λ sent z. Keeps-send_loop rounds fd _ (
            stable.on_put fd conn _ (ask s) e
              (stable.on_same s _ (refl, refl, refl, refl, refl) h)))))

  Keeps-start_reading :
      (fd : ℕ) (conn : Connection) (s : Loop)
      → client_at fd s ≡ some conn
      → P s
      → Keeps P (start_reading system fd conn s)
  unfolding start_reading
  Keeps-start_reading fd conn s e h =
      rearm_client-P stable system fd _
        (stable.on_put fd conn _ _ e (stable.on_same s _ (refl, refl, refl, refl, refl) h))

  Keeps-after_writing : (fd : ℕ) (s : Loop) → P s → Keeps P (after_writing system fd s)
  unfolding after_writing
  Keeps-after_writing fd s h = Keeps-option P (client_at fd s) (done s) _ h (λ conn e.
      Keeps-if P (Buffer.is_empty conn.write_buffer) _ _
        (Keeps-if P (not conn.peer_half_closed && keep_alive conn.request) _
          (done (close_client system fd s)) (Keeps-start_reading fd conn s e h)
          (close_client-P stable system fd s h))
        (Keeps-start_writing stable system fd s h))

  Keeps-feed_from_job :
      (fd cgi_fd : ℕ) (s : Loop) → P s → Keeps P (feed_from_job system fd cgi_fd s)
  unfolding feed_from_job
  Keeps-feed_from_job fd cgi_fd s h = Keeps-on_client P fd _ s h (λ conn e.
      Keeps-if P (ltb (Buffer.size conn.write_buffer) low_mark) _ _
        (Keeps-then P _ _
          (Keeps-handle_cgi_event cgi_fd _ (modify_event_fd-P stable system cgi_fd input_only s h))
          (λ t k.
            Keeps-if P (is_there (client_at fd t)) _ (done t)
              (Keeps-start_writing stable system fd t k) k))
        (Keeps-start_writing stable system fd s h))

  pub Keeps-handle_write : (fd : ℕ) (s : Loop) → P s → Keeps P (handle_write system fd s)
  unfolding handle_write
  Keeps-handle_write fd s h = Keeps-on_client P fd _ s h (λ conn e.
      Keeps-then P _ _ (Keeps-send_loop (Buffer.size conn.write_buffer) fd s h) (λ t k.
        Keeps-option P (active_job fd t.cgi_jobs) _ _ (Keeps-after_writing fd t k)
          (λ cgi_fd z. Keeps-feed_from_job fd cgi_fd t k)))

  pub Keeps-time_out : (fds : List ℕ) (s : Loop) → P s → Keeps P (time_out system fds s)
  unfolding time_out
  Keeps-time_out [] s h = h
  Keeps-time_out (fd ∷ fds) s h =
      Keeps-then P _ _
        (Keeps-then P _ _ (Keeps-send_error_to stable system 408 fd s h)
          (λ t k. Keeps-handle_write fd t k))
        (λ t k. Keeps-time_out fds _ (close_client-P stable system fd t k))

  pub Keeps-close_timed_out_clients : (s : Loop) → P s → Keeps P (close_timed_out_clients system s)
  unfolding close_timed_out_clients
  Keeps-close_timed_out_clients s h = Keeps-time_out (timed_out_fds system.now s.manager) s h
