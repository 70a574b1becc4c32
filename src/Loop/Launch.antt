-- ===== src/Loop/Launch.antt =====
-- `_ApiStartCgi` of src/EventLoop/EventLoop_helper_cgi.cpp and the parent's side of `startCgi` of
-- cgi/CgiHandler.cpp.
use webserer_core.Base.{
  ℕ, Bool, true, false, not, ◌&&◌, ◌||◌, List, [], ◌∷◌, ◌++◌, Option, none, some, if◌then◌else◌,
  is_nil,
}
use webserer_core.Cgi.{CgiRequestInfo, find_program}
use webserer_core.Connection.{Connection, set_cgi_running}
use webserer_core.Loop.{Loop, System, cgi, create_job, log, ask, register_event_fd, rearm_client}
use webserer_core.Loop.Closing.{close_cgi_job}
use webserer_core.Loop.Ended.{
  Ended, done, failed, ◌|>◌, on_client, update_client, put_client, answer_error,
}
use webserer_core.Loop.Jobs.{put_job, header_buffer_limit, input_only}
use webserer_core.Manager.{SystemCall, closes, removes}
use webserer_core.Tables.{lookup}

-- The descriptor of the body, which the child has now.
abbrev body_closes : Connection → List SystemCall
body_closes conn = elim (conn.request).opened_file [ none ↦ [] | some fd ↦ closes fd ∷ [] ]

abbrev is_open : Connection → Bool
is_open conn = elim (conn.request).opened_file [ none ↦ false | some fd ↦ true ]

abbrev body_removes : Connection → List SystemCall
body_removes conn =
    if is_nil (conn.request).tmp_body_path then [] else removes (conn.request).tmp_body_path ∷ []

abbrev without_body : Connection → Connection
without_body conn = record conn {
  request = record (conn.request) {
    opened_file = none;
    opened = not (is_open conn) && (conn.request).opened;
    tmp_body_path = [];
  };
}

module _ (system : System) where
  -- `startCgi`: the number of the child.
  unfoldable pub start_cgi : CgiRequestInfo → Connection → Loop → Option ℕ × Loop
  start_cgi info conn s =
      elim (find_program system.programs info.script_path info.location conn.config) [
        | none ↦ (none, s)
        | some program ↦ (system.forks s.asked, ask s)
      ]

  -- What follows `startCgi`.
  unfoldable pub settle_child : ℕ → ℕ → ℕ → Option ℕ → Loop → Ended
  unfolding close_cgi_job answer_error
  settle_child fd read_fd write_fd pid s =
      let t = log (closes write_fd ∷ []) s in
      on_client fd
        (λ conn.
          done (put_client fd (without_body conn) (log (body_closes conn ++ body_removes conn) t)))
        t
      |> λ u. elim pid [
        | some child ↦ done (elim (lookup read_fd u.cgi_jobs) [
          | none ↦ u
          | some job ↦ put_job read_fd (record job { child_pid = some child }) u
        ])
        | none ↦ answer_error system 502 fd (close_cgi_job system read_fd u)
      ]

  -- The job is there, with its descriptor registered.
  unfoldable pub launch_child : ℕ → ℕ → ℕ → CgiRequestInfo → Loop → Ended
  unfolding start_cgi settle_child update_client
  launch_child fd read_fd write_fd info s = update_client fd set_cgi_running s |> λ t.
      let u = rearm_client system fd t in
      on_client fd
        (λ conn. let (pid, v) = start_cgi info conn u in settle_child fd read_fd write_fd pid v) u

  unfoldable pub add_job : ℕ → ℕ → ℕ → CgiRequestInfo → Loop → Ended
  unfolding launch_child
  add_job fd read_fd write_fd info s =
      on_client fd
        (λ conn.
          let job = create_job system.now fd header_buffer_limit (conn.config).timeout_seconds in
          let (throws, t) = register_event_fd system read_fd cgi input_only s in
          if throws
          then failed (log (closes read_fd ∷ []) t)
          else launch_child fd read_fd write_fd info (put_job read_fd job t))
        s

  -- `_ApiStartCgi`; `ask` stands for the calls of `pipe` and `fcntl` as well.
  unfoldable pub api_start_cgi : ℕ → CgiRequestInfo → Loop → Ended
  unfolding add_job
  api_start_cgi fd info s = elim (system.pipes s.asked) [
    | none ↦ answer_error system 500 fd (ask s)
    | some fds ↦
        let read_fd = fds.0 in
        let write_fd = fds.1 in
        let t = ask s in
        if not (system.cloexec t.asked read_fd && system.cloexec t.asked write_fd)
          || not (system.unblocks t.asked read_fd)
        then answer_error system 500 fd (log (closes read_fd ∷ closes write_fd ∷ []) (ask t))
        else add_job fd read_fd write_fd info (ask t)
  ]
