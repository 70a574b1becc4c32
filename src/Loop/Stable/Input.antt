-- ===== src/Loop/Stable/Input.antt =====
-- Properties that the functions on requests keep, where new references and connections keep them.
use webserer_core.Base.{ℕ, refl, inl, inr, [], ◌∷◌, Option, none, some, Bool, Option-cases}
use webserer_core.Cgi.{CgiRequestInfo, find_program}
use webserer_core.Config.{Server}
use webserer_core.Connection.{Connection, Interest, set_cgi_running}
use webserer_core.Loop.{Loop, System, EventKind, cgi, CgiJob, ask, log, register_event_fd}
use webserer_core.Loop.Closing.{close_cgi_job}
use webserer_core.Loop.Ended.{done, failed, answer_error}
use webserer_core.Loop.Jobs.{put_job, input_only}
use webserer_core.Loop.Launch.{start_cgi, settle_child, launch_child, add_job, api_start_cgi}
use webserer_core.Loop.Stable.{
  Same, Stable, Keeps, Keeps-then, Keeps-if, Keeps-option, Keeps-on_client, Keeps-update_client,
  rearm_client-P, Keeps-answer_error, close_cgi_job-P,
}
use webserer_core.Manager
use webserer_core.Manager.{closes}
use webserer_core.Tables.{lookup}

-- What is done to connections and references that come.
pub record Growing (P : Loop → Type 0) : Type 0 where
  pub stable : Stable P
  pub on_register :
      (system : System) (fd : ℕ) (kind : EventKind) (events : Interest) (s : Loop)
      → P s
      → P (register_event_fd system fd kind events s).1
  pub on_add :
      (now fd : ℕ) (non_blocking : Bool) (cfg : Server) (s : Loop)
      → P s
      → P (record s {
        manager = (Manager.add_connection now (some fd) non_blocking cfg s.manager).1.0;
      })
  pub on_hold :
      (fd : ℕ) (s : Loop)
      → P s
      → P (record s { manager = Manager.hold_configuration s.server_configs fd s.manager })

module _ {P : Loop → Type 0} (growing : Growing P) (system : System) where
  stable : Stable P
  stable = growing.stable

  quiet : (s t : Loop) → Same s t → P s → P t
  quiet = stable.on_same

  -- Scripts.
  start_cgi-P :
      (info : CgiRequestInfo) (conn : Connection) (s : Loop)
      → P s
      → P (start_cgi system info conn s).1
  unfolding start_cgi
  start_cgi-P info conn s h =
      elim (Option-cases
        (find_program system.programs info.script_path info.location conn.config)) [
          | inl e ↦ rw (start_cgi, e) h
          | inr (program, e) ↦ rw (start_cgi, e) (quiet s _ (refl, refl, refl, refl, refl) h)
        ]

  put_job-P : (fd : ℕ) (job : CgiJob) (s : Loop) → P s → P (put_job fd job s)
  put_job-P fd job s h = quiet s _ (refl, refl, refl, refl, refl) h

  Keeps-child :
      (fd read_fd : ℕ) (pid : Option ℕ) (s : Loop)
      → P s
      → Keeps P (elim pid [
        | some child ↦ done (elim (lookup read_fd s.cgi_jobs) [
          | none ↦ s
          | some job ↦ put_job read_fd (record job { child_pid = some child }) s
        ])
        | none ↦ answer_error system 502 fd (close_cgi_job system read_fd s)
      ])
  Keeps-child fd read_fd none s h =
      Keeps-answer_error stable system 502 fd _ (close_cgi_job-P stable system read_fd s h)
  Keeps-child fd read_fd (some child) s h = elim (Option-cases (lookup read_fd s.cgi_jobs)) [
    | inl e ↦ rw e h
    | inr (job, e) ↦ rw e (put_job-P read_fd _ s h)
  ]

  Keeps-settle_child :
      (fd read_fd write_fd : ℕ) (pid : Option ℕ) (s : Loop)
      → P s
      → Keeps P (settle_child system fd read_fd write_fd pid s)
  unfolding settle_child
  Keeps-settle_child fd read_fd write_fd pid s h =
      let k : P (log (closes write_fd ∷ []) s) = quiet s _ (refl, refl, refl, refl, refl) h in
      Keeps-then P _ _
        (Keeps-on_client P fd _ _ k
          (λ conn e. stable.on_put fd conn _ _ e (quiet s _ (refl, refl, refl, refl, refl) h)))
        (λ t l. Keeps-child fd read_fd pid t l)

  Keeps-launch_child :
      (fd read_fd write_fd : ℕ) (info : CgiRequestInfo) (s : Loop)
      → P s
      → Keeps P (launch_child system fd read_fd write_fd info s)
  unfolding launch_child
  Keeps-launch_child fd read_fd write_fd info s h =
      Keeps-then P _ _ (Keeps-update_client stable fd set_cgi_running s h) (λ t k.
        let l = rearm_client-P stable system fd t k in
        Keeps-on_client P fd _ _ l
          (λ conn e. Keeps-settle_child fd read_fd write_fd _ _ (start_cgi-P info conn _ l)))

  Keeps-add_job :
      (fd read_fd write_fd : ℕ) (info : CgiRequestInfo) (s : Loop)
      → P s
      → Keeps P (add_job system fd read_fd write_fd info s)
  unfolding add_job
  Keeps-add_job fd read_fd write_fd info s h = Keeps-on_client P fd _ s h (λ conn e.
      let registered = register_event_fd system read_fd cgi input_only s in
      let k = growing.on_register system read_fd cgi input_only s h in
      Keeps-if P registered.0 (failed (log (closes read_fd ∷ []) registered.1)) _
        (quiet registered.1 _ (refl, refl, refl, refl, refl) k)
        (Keeps-launch_child fd read_fd write_fd info _ (put_job-P read_fd _ registered.1 k)))

  pub Keeps-api_start_cgi :
      (fd : ℕ) (info : CgiRequestInfo) (s : Loop) → P s → Keeps P (api_start_cgi system fd info s)
  unfolding api_start_cgi
  Keeps-api_start_cgi fd info s h =
      let k : P (ask s) = quiet s _ (refl, refl, refl, refl, refl) h in
      Keeps-option P (system.pipes s.asked) _ _ (Keeps-answer_error stable system 500 fd (ask s) k)
        (λ fds e.
          Keeps-if P _ _ _
            (Keeps-answer_error stable system 500 fd _ (quiet s _ (refl, refl, refl, refl, refl) h))
            (Keeps-add_job fd fds.0 fds.1 info _ (quiet s _ (refl, refl, refl, refl, refl) h)))
