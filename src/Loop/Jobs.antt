-- ===== src/Loop/Jobs.antt =====
-- The jobs of `EventLoop`: src/EventLoop/EventLoop_helper_cgi.cpp, and `_finishCgiJob`, `_failCgiJob` and
-- `_closeTimedOutCgiJobs` of cgi/CgiCleanning.cpp. What the flags of an event say makes no difference to
-- `_handleCgiEvent`.
use webserer_core.Base.{
  ℕ, suc, ◌-◌, Bool, true, false, not, ◌&&◌, List, [], ◌∷◌, ◌++◌, Option, none, some, ltb, leb,
  if◌then◌else◌, Bytes, codes, length, drop, take, is_nil, equal, add_size, returned, thrown, hung,
}
use webserer_core.Buffer
use webserer_core.Cgi.Output.{find_header_end, cgi_head, write_chunk}
use webserer_core.Connection.{Connection, Interest}
use webserer_core.Loop.{Loop, System, CgiJob, ask, client_at}
use webserer_core.Loop.Closing.{close_cgi_job}
use webserer_core.Loop.Ended.{
  Ended, done, raised, stuck, ◌|>◌, catch, on_client, update_client, append_bytes, append_all,
  start_writing, answer_error,
}
use webserer_core.Request.{assign}
use webserer_core.Tables.{Table, lookup, insert}

abbrev pub last_chunk : Bytes
last_chunk = codes "0" ++ 13 ∷ 10 ∷ 13 ∷ 10 ∷ []

-- `conn->request().headers["connection"] = "close"`
abbrev pub set_close : Connection → Connection
set_close conn = record conn {
  request = record (conn.request) {
    headers = assign (codes "connection") (codes "close") (conn.request).headers;
  };
}

abbrev pub is_head : Connection → Bool
is_head conn = equal (conn.request).method (codes "HEAD")

abbrev pub is_there : Option Connection → Bool
is_there none = false
is_there (some conn) = true

abbrev pub put_job : ℕ → CgiJob → Loop → Loop
put_job fd job s = record s { cgi_jobs = insert fd job s.cgi_jobs }

-- FHLS, CGI_STREAM_HWM, CGI_HEADER_BUF_LIMIT, LimitInternalRecursion
abbrev pub header_limit : ℕ
header_limit = 8192

abbrev pub high_mark : ℕ
high_mark = 262144

abbrev pub header_buffer_limit : ℕ
header_buffer_limit = 65536

abbrev pub read_limit : ℕ
read_limit = 8000

-- The first loop of `_closeTimedOutCgiJobs`.
unfoldable pub timed_out_jobs : ℕ → Table CgiJob → List ℕ
timed_out_jobs now [] = []
timed_out_jobs now ((fd, job) ∷ jobs) =
    let rest = timed_out_jobs now jobs in
    if ltb job.timeout_seconds (now - job.start_time) then fd ∷ rest else rest

abbrev pub input_only : Interest
input_only = record { input = true; output = false }

module _ (system : System) where
  -- What `_finishCgiJob` appends for the client.
  unfoldable pub end_output : ℕ → Loop → Ended
  end_output client s = elim (client_at client s) [
    | none ↦ done s
    | some conn ↦ if is_head conn then done s else append_bytes client last_chunk s
  ]

  unfoldable pub finish_cgi_job : ℕ → Loop → Ended
  unfolding end_output close_cgi_job
  finish_cgi_job result_fd s = elim (lookup result_fd s.cgi_jobs) [
    | none ↦ done s
    | some job ↦
        let client = job.client_fd in
        if not job.headers_sent
        then ((if is_there (client_at client s) then answer_error system 502 client s else done s)
            |> λ t. done (close_cgi_job system result_fd t))
        else (end_output client s |> λ t.
            let u = close_cgi_job system result_fd t in
            if is_there (client_at client s) && is_there (client_at client u)
            then start_writing system client u
            else done u)
  ]

  -- What `_failCgiJob` does for the client of a job.
  unfoldable pub fail_client : CgiJob → ℕ → Loop → Ended
  fail_client job status_code s =
      let client = job.client_fd in
      if not (is_there (client_at client s))
      then done s
      else if not job.headers_sent
      then answer_error system status_code client s
      else (append_bytes client last_chunk s
          |> update_client client set_close
          |> start_writing system client)

  unfoldable pub fail_cgi_job : ℕ → ℕ → Loop → Ended
  unfolding fail_client close_cgi_job
  fail_cgi_job result_fd status_code s = elim (lookup result_fd s.cgi_jobs) [
    | none ↦ done s
    | some job ↦ fail_client job status_code s |> λ t. done (close_cgi_job system result_fd t)
  ]

  -- The second loop of `_closeTimedOutCgiJobs`.
  unfoldable pub fail_cgi_jobs : List ℕ → ℕ → Loop → Ended
  unfolding fail_cgi_job
  fail_cgi_jobs [] status_code s = done s
  fail_cgi_jobs (fd ∷ fds) status_code s =
      fail_cgi_job fd status_code s |> fail_cgi_jobs fds status_code

  unfoldable pub close_timed_out_cgi_jobs : Loop → Ended
  unfolding timed_out_jobs fail_cgi_jobs
  close_timed_out_cgi_jobs s = fail_cgi_jobs (timed_out_jobs system.now s.cgi_jobs) 504 s

  -- The comparisons with CGI_STREAM_HWM behind `_rearmClient`: both branches return.
  unfoldable pub look_at_client : ℕ → Loop → Ended
  unfolding on_client
  look_at_client client s = on_client client (λ conn. done s) s

  -- Output behind the head.
  unfoldable pub pass_on : ℕ → CgiJob → Bytes → Loop → Ended
  unfolding look_at_client
  pass_on result_fd job got s =
      append_all job.client_fd (write_chunk got) s
      |> (λ t. done (
          put_job result_fd (record job { body_written = add_size job.body_written (length got) })
            t))
      |> start_writing system job.client_fd
      |> look_at_client job.client_fd

  -- The head is complete in the job's buffer up to `body_start`.
  unfoldable pub pass_head : ℕ → CgiJob → ℕ → Loop → Ended
  unfolding look_at_client
  pass_head result_fd job body_start s =
      let text = Buffer.content job.result_buffer in
      let leftover = drop body_start text in
      let sent = record job { headers_sent = true } in
      let written = record sent {
        body_written = add_size job.body_written (length leftover);
        result_buffer = Buffer.earase job.result_buffer;
      } in
      on_client job.client_fd
        (λ conn.
          append_bytes job.client_fd (cgi_head system.scan (take body_start text) conn.request) s)
        s
      |> (λ t. append_all job.client_fd (write_chunk leftover) (put_job result_fd sent t))
      |> (λ t. done (put_job result_fd written t))
      |> start_writing system job.client_fd
      |> look_at_client job.client_fd

  -- Bytes of the script were read, and counted.
  unfoldable pub take_output : ℕ → CgiJob → Bytes → Loop → Ended
  unfolding pass_on pass_head fail_cgi_job
  take_output result_fd job got s =
      if job.headers_sent
      then pass_on result_fd job got s
      else elim (Buffer.append_result got job.result_buffer) [
        | thrown ↦ raised s
        | hung ↦ stuck
        | returned buf ↦
            let longer = record job { result_buffer = buf } in
            let t = put_job result_fd longer s in
            elim (find_header_end (Buffer.content buf)) [
              | some body_start ↦ pass_head result_fd longer body_start t
              | none ↦
                  if ltb header_limit (Buffer.size buf)
                  then fail_cgi_job result_fd 502 t
                  else done t
            ]
      ]

  -- The `try` block of `_handleCgiEvent`.
  unfoldable pub read_output : ℕ → CgiJob → Loop → Ended
  unfolding take_output finish_cgi_job
  read_output result_fd job s = elim (system.reads s.asked result_fd) [
    | none ↦ done (ask s)
    | some got ↦
        if is_nil got
        then finish_cgi_job result_fd
            (put_job result_fd (record job { parent_request = 0 }) (ask s))
        else (let counted = record job { parent_request = suc job.parent_request } in
            take_output result_fd counted got (put_job result_fd counted (ask s)))
  ]

  unfoldable pub handle_cgi_event : ℕ → Loop → Ended
  unfolding read_output fail_cgi_job close_cgi_job
  handle_cgi_event result_fd s = elim (if s.stopped then none else lookup result_fd s.cgi_jobs) [
    | none ↦ done s
    | some job ↦
        if ltb read_limit job.parent_request
        then fail_cgi_job result_fd 502 s
        else elim (client_at job.client_fd s) [
          | none ↦ done (close_cgi_job system result_fd s)
          | some conn ↦
              if job.headers_sent && leb high_mark (Buffer.size conn.write_buffer)
              then done s
              else catch (read_output result_fd job s)
                  (λ t. if t.stopped then done t else fail_cgi_job result_fd 413 t)
        ]
  ]
