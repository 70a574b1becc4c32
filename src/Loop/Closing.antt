-- ===== src/Loop/Closing.antt =====
-- Closing: `_closeClient` and `_reapPending` of src/EventLoop/EventLoop.cpp, and cgi/CgiCleanning.cpp up to
-- `_closeCgiJobsForClient`.
use webserer_core.Base.{
  ℕ, suc, ◌-◌, List, [], ◌∷◌, ◌++◌, Option, none, some, ltb, ◌==◌, if◌then◌else◌,
}
use webserer_core.Loop.{Loop, System, CgiJob, log, ask, unregister_event_fd, drop_connection}
use webserer_core.Manager.{closes, kills}
use webserer_core.Tables.{Table, lookup, erase}

-- `_cgi_stdin_jobs.erase(fd)`
unfoldable pub without : ℕ → List ℕ → List ℕ
without fd [] = []
without fd (x ∷ xs) = let rest = without fd xs in if x == fd then rest else x ∷ rest

-- The first loop of `_closeCgiJobsForClient`.
unfoldable pub jobs_of : ℕ → Table CgiJob → List ℕ
jobs_of client_fd [] = []
jobs_of client_fd ((fd, job) ∷ jobs) =
    let rest = jobs_of client_fd jobs in if job.client_fd == client_fd then fd ∷ rest else rest

-- The loop of `_reapPending`: the children left, and how many answers there were.
unfoldable pub reap : System → ℕ → List (ℕ × ℕ) → List (ℕ × ℕ) × ℕ
reap system asked [] = ([], asked)
reap system asked ((pid, since) ∷ pending) =
    let given_up = reap system asked pending in
    let (remaining, count) = reap system (suc asked) pending in
    if ltb 60 (system.now - since)
    then given_up
    else if system.still_runs asked pid
    then ((pid, since) ∷ remaining, count)
    else (remaining, count)

module _ (system : System) where
  -- `_closeCgiStdin`
  unfoldable pub close_cgi_stdin : CgiJob → Loop → Loop
  unfolding unregister_event_fd
  close_cgi_stdin job s = elim job.stdin_fd [
    | none ↦ s
    | some fd ↦
        let t = unregister_event_fd fd s in
        log (closes fd ∷ []) (record t { cgi_stdin_jobs = without fd t.cgi_stdin_jobs })
  ]

  -- What `_closeCgiJob` does about the child.
  unfoldable pub end_child : Option ℕ → Loop → Loop
  end_child none s = s
  end_child (some pid) s =
      if system.still_runs s.asked pid
      then log (kills pid ∷ [])
          (ask (record s { pending_reap = s.pending_reap ++ (pid, system.now) ∷ [] }))
      else ask s

  unfoldable pub close_cgi_job : ℕ → Loop → Loop
  unfolding close_cgi_stdin end_child unregister_event_fd
  close_cgi_job result_fd s = elim (lookup result_fd s.cgi_jobs) [
    | none ↦ s
    | some job ↦
        let t = end_child job.child_pid (close_cgi_stdin job s) in
        let u = log (closes result_fd ∷ []) (unregister_event_fd result_fd t) in
        record u { cgi_jobs = erase result_fd u.cgi_jobs }
  ]

  unfoldable pub close_cgi_jobs : List ℕ → Loop → Loop
  unfolding close_cgi_job
  close_cgi_jobs [] s = s
  close_cgi_jobs (fd ∷ fds) s = close_cgi_jobs fds (close_cgi_job fd s)

  unfoldable pub close_cgi_jobs_for_client : ℕ → Loop → Loop
  unfolding jobs_of close_cgi_jobs
  close_cgi_jobs_for_client client_fd s = close_cgi_jobs (jobs_of client_fd s.cgi_jobs) s

  unfoldable pub close_client : ℕ → Loop → Loop
  unfolding close_cgi_jobs_for_client unregister_event_fd drop_connection
  close_client fd s = drop_connection fd (unregister_event_fd fd (close_cgi_jobs_for_client fd s))

  unfoldable pub reap_pending : Loop → Loop
  unfolding reap
  reap_pending s =
      let (remaining, asked) = reap system s.asked s.pending_reap in
      record s { pending_reap = remaining; asked = asked }
