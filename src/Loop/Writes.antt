-- ===== src/Loop/Writes.antt =====
-- `_handleWrite` of src/EventLoop/EventLoop_helper_handlers.cpp.
use webserer_core.Base.{
  ℕ, zero, suc, not, ◌&&◌, [], ◌∷◌, Option, none, some, ltb, ◌==◌, if◌then◌else◌, map,
}
use webserer_core.Buffer
use webserer_core.Connection
use webserer_core.Connection.{Connection, set_reading}
use webserer_core.Loop.{Loop, System, CgiJob, log, ask, client_at, modify_event_fd, rearm_client}
use webserer_core.Loop.Closing.{close_client}
use webserer_core.Loop.Ended.{Ended, done, stuck, ◌|>◌, on_client, put_client, start_writing}
use webserer_core.Loop.Jobs.{handle_cgi_event, is_there, input_only}
use webserer_core.Manager.{SystemCall}
use webserer_core.Request.{FileCall, keep_alive}
use webserer_core.Tables.{Table}

-- CGI_STREAM_LWM
abbrev pub low_mark : ℕ
low_mark = 65536

-- The first job of a client.
unfoldable pub active_job : ℕ → Table CgiJob → Option ℕ
active_job client_fd [] = none
active_job client_fd ((fd, job) ∷ jobs) =
    let later = active_job client_fd jobs in if job.client_fd == client_fd then some fd else later

abbrev as_call : FileCall → SystemCall
as_call (FileCall.closes fd) = SystemCall.closes fd
as_call (FileCall.removes path) = SystemCall.removes path

module _ (system : System) where
  -- The loop of `send` calls, for at most `rounds` of them.
  unfoldable pub send_loop : ℕ → ℕ → Loop → Ended
  unfolding on_client
  send_loop zero fd s =
      on_client fd (λ conn. if Buffer.is_empty conn.write_buffer then done s else stuck) s
  send_loop (suc rounds) fd s =
      on_client fd
        (λ conn.
          if Buffer.is_empty conn.write_buffer then done s else elim (system.sends s.asked fd) [
            | none ↦ done (ask s)
            | some sent ↦
                send_loop rounds fd (put_client fd (Connection.send system.now sent conn) (ask s))
          ])
        s

  -- `conn->setReading(); _rearmClient(fd);`
  unfoldable pub start_reading : ℕ → Connection → Loop → Ended
  start_reading fd conn s =
      let (fresh, calls) = set_reading system.now conn in
      done (rearm_client system fd (put_client fd fresh (log (map as_call calls) s)))

  -- What follows the loop where no job is active for the client.
  unfoldable pub after_writing : ℕ → Loop → Ended
  unfolding start_reading close_client start_writing
  after_writing fd s = elim (client_at fd s) [
    | none ↦ done s
    | some conn ↦
        if Buffer.is_empty conn.write_buffer
        then if not conn.peer_half_closed && keep_alive conn.request
          then start_reading fd conn s
          else done (close_client system fd s)
        else start_writing system fd s
  ]

  -- What follows the loop where `cgi_fd` has more for the client.
  unfoldable pub feed_from_job : ℕ → ℕ → Loop → Ended
  unfolding handle_cgi_event start_writing
  feed_from_job fd cgi_fd s =
      on_client fd
        (λ conn.
          if ltb (Buffer.size conn.write_buffer) low_mark
          then (handle_cgi_event system cgi_fd (modify_event_fd system cgi_fd input_only s) |> λ t.
              if is_there (client_at fd t) then start_writing system fd t else done t)
          else start_writing system fd s)
        s

  -- `_handleWrite`: each round of the loop takes a byte at least, unless `send` returns 0.
  unfoldable pub handle_write : ℕ → Loop → Ended
  unfolding send_loop active_job feed_from_job after_writing
  handle_write fd s =
      on_client fd
        (λ conn. send_loop (Buffer.size conn.write_buffer) fd s |> λ t.
          elim (active_job fd t.cgi_jobs) [
            | some cgi_fd ↦ feed_from_job fd cgi_fd t
            | none ↦ after_writing fd t
          ])
        s
