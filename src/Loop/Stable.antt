-- ===== src/Loop/Stable.antt =====
-- Properties of the state of the event loop that the functions of src/EventLoop keep: what they have to
-- stand, and the functions on jobs and on output.
pub mod Output
pub mod Bodies
pub mod Requests
pub mod Runs
pub mod Input
use webserer_core.Base.{
  ℕ, ◌≡◌, refl, true, false, inl, inr, List, [], ◌∷◌, Option, none, some, Bytes, Bool-cases,
  Option-cases, if◌then◌else◌, Bool, Outcome, returned, thrown, hung,
}
use webserer_core.Buffer
use webserer_core.Buffer.{Buffer}
use webserer_core.Connection.{Connection, Interest, set_writing}
use webserer_core.Loop.{
  Loop, System, CgiJob, client_at, drop_connection, unregister_event_fd, modify_event_fd,
  rearm_client, ref_of, is_invalid,
}
use webserer_core.Loop.Closing.{
  close_cgi_stdin, end_child, close_cgi_job, close_cgi_jobs, jobs_of, close_cgi_jobs_for_client,
  close_client,
}
use webserer_core.Loop.Ended.{
  Ended, done, raised, failed, dangling, stuck, ◌|>◌, catch, put_client, on_client, update_client,
  append_bytes, append_all, send_error_to, start_writing, answer_error,
}
use webserer_core.Manager.{close_connection}
use webserer_core.Tables.{lookup}

-- Both states have the same connections and the same references.
abbrev pub Same : Loop → Loop → Type 0
Same s t =
    (t.manager ≡ s.manager)
    × (t.refs ≡ s.refs)
    × (t.refs_made ≡ s.refs_made)
    × (t.event_refs ≡ s.event_refs)
    × (t.stale_refs ≡ s.stale_refs)

-- What is done to connections that are there, and to references that go.
pub record Stable (P : Loop → Type 0) : Type 0 where
  pub on_same : (s t : Loop) → Same s t → P s → P t
  pub on_put :
      (fd : ℕ) (old conn : Connection) (s : Loop)
      → client_at fd s ≡ some old
      → P s
      → P (put_client fd conn s)
  pub on_drop : (fd : ℕ) (s : Loop) → P s → P (drop_connection fd s)
  pub on_unregister : (fd : ℕ) (s : Loop) → P s → P (unregister_event_fd fd s)

-- However the function comes to an end, the property holds of the state then.
abbrev pub Keeps : (Loop → Type 0) → Ended → Type 0
Keeps P (done s) = P s
Keeps P (raised s) = P s
Keeps P (failed s) = P s
Keeps P (dangling s) = P s
Keeps P stuck = Unit

module _ (P : Loop → Type 0) where
  pub Keeps-then :
      (e : Ended) (f : Loop → Ended)
      → Keeps P e
      → ((t : Loop) → P t → Keeps P (f t))
      → Keeps P (e |> f)
  Keeps-then (done s) f h k = k s h
  Keeps-then (raised s) f h k = h
  Keeps-then (failed s) f h k = h
  Keeps-then (dangling s) f h k = h
  Keeps-then stuck f h k = tt

  pub Keeps-catch :
      (e : Ended) (f : Loop → Ended)
      → Keeps P e
      → ((t : Loop) → P t → Keeps P (f t))
      → Keeps P (catch e f)
  Keeps-catch (done s) f h k = h
  Keeps-catch (raised s) f h k = k s h
  Keeps-catch (failed s) f h k = h
  Keeps-catch (dangling s) f h k = h
  Keeps-catch stuck f h k = tt

  pub Keeps-if : (b : Bool) (e f : Ended) → Keeps P e → Keeps P f → Keeps P (if b then e else f)
  Keeps-if true e f h k = h
  Keeps-if false e f h k = k

  pub Keeps-option :
      {A : Type 0} (o : Option A) (e : Ended) (f : A → Ended)
      → Keeps P e
      → ((a : A) → o ≡ some a → Keeps P (f a))
      → Keeps P (elim o [ none ↦ e | some a ↦ f a ])
  Keeps-option none e f h k = h
  Keeps-option (some a) e f h k = k a refl

  pub Keeps-outcome :
      {A : Type 0} (r : Outcome A) (s : Loop) (f : A → Ended)
      → P s
      → ((a : A) → Keeps P (f a))
      → Keeps P (elim r [ returned a ↦ f a | thrown ↦ raised s | hung ↦ stuck ])
  Keeps-outcome (returned a) s f h k = k a
  Keeps-outcome thrown s f h k = h
  Keeps-outcome hung s f h k = tt

  pub Keeps-on_client :
      (fd : ℕ) (f : Connection → Ended) (s : Loop)
      → P s
      → ((conn : Connection) → client_at fd s ≡ some conn → Keeps P (f conn))
      → Keeps P (on_client fd f s)
  unfolding on_client
  Keeps-on_client fd f s h k = elim (Option-cases (client_at fd s)) [
    | inl e ↦ rw (on_client, e) h
    | inr (conn, e) ↦ rw (on_client, e) (k conn e)
  ]

module _ {P : Loop → Type 0} (stable : Stable P) where
  pub Keeps-update_client :
      (fd : ℕ) (f : Connection → Connection) (s : Loop) → P s → Keeps P (update_client fd f s)
  unfolding update_client
  Keeps-update_client fd f s h =
      Keeps-on_client P fd _ s h (λ conn e. stable.on_put fd conn (f conn) s e h)

  pub Keeps-append_bytes :
      (fd : ℕ) (text : Bytes) (s : Loop) → P s → Keeps P (append_bytes fd text s)
  unfolding append_bytes
  Keeps-append_bytes fd text s h = Keeps-on_client P fd _ s h (λ conn e.
      Keeps-outcome P (Buffer.append text conn.write_buffer) s _ h
        (λ buf. stable.on_put fd conn _ s e h))

  pub Keeps-append_all :
      (fd : ℕ) (texts : List Bytes) (s : Loop) → P s → Keeps P (append_all fd texts s)
  unfolding append_all
  Keeps-append_all fd [] s h = h
  Keeps-append_all fd (text ∷ texts) s h =
      Keeps-then P (append_bytes fd text s) (append_all fd texts) (Keeps-append_bytes fd text s h)
        (λ t k. Keeps-append_all fd texts t k)

  module _ (system : System) where
    pub Keeps-send_error_to :
        (code fd : ℕ) (s : Loop) → P s → Keeps P (send_error_to system code fd s)
    unfolding send_error_to
    Keeps-send_error_to code fd s h =
        Keeps-on_client P fd _ s h (λ conn e. Keeps-append_bytes fd _ s h)

    pub modify_event_fd-P :
        (fd : ℕ) (events : Interest) (s : Loop) → P s → P (modify_event_fd system fd events s)
    unfolding modify_event_fd
    modify_event_fd-P fd events s h = elim (Option-cases (ref_of fd s)) [
      | inl e ↦ rw (modify_event_fd, e) h
      | inr (ref, e) ↦ elim (Bool-cases (is_invalid ref.kind)) [
        | inl z ↦ rw (modify_event_fd, e, z) h
        | inr z ↦ elim (Bool-cases (system.modifies s.asked fd)) [
          | inl y ↦
              rw (modify_event_fd, e, z, y) (stable.on_same s _ (refl, refl, refl, refl, refl) h)
          | inr y ↦
              rw (modify_event_fd, e, z, y)
                (stable.on_drop fd _ (stable.on_same s _ (refl, refl, refl, refl, refl) h))
        ]
      ]
    ]

    pub rearm_client-P : (fd : ℕ) (s : Loop) → P s → P (rearm_client system fd s)
    unfolding rearm_client
    rearm_client-P fd s h = elim (Option-cases (client_at fd s)) [
      | inl e ↦ rw (rearm_client, e) h
      | inr (conn, e) ↦ rw (rearm_client, e) (modify_event_fd-P fd _ s h)
    ]

    pub Keeps-start_writing : (fd : ℕ) (s : Loop) → P s → Keeps P (start_writing system fd s)
    unfolding start_writing
    Keeps-start_writing fd s h =
        Keeps-then P (update_client fd set_writing s) _ (Keeps-update_client fd set_writing s h)
          (λ t k. rearm_client-P fd t k)

    pub Keeps-answer_error :
        (code fd : ℕ) (s : Loop) → P s → Keeps P (answer_error system code fd s)
    unfolding answer_error
    Keeps-answer_error code fd s h =
        Keeps-then P (send_error_to system code fd s) _ (Keeps-send_error_to code fd s h)
          (λ t k. Keeps-start_writing fd t k)

    close_cgi_stdin-P : (job : CgiJob) (s : Loop) → P s → P (close_cgi_stdin system job s)
    unfolding close_cgi_stdin
    close_cgi_stdin-P job s h = elim (Option-cases job.stdin_fd) [
      | inl e ↦ rw (close_cgi_stdin, e) h
      | inr (fd, e) ↦
          rw (close_cgi_stdin, e)
            (stable.on_same _ _ (refl, refl, refl, refl, refl) (stable.on_unregister fd s h))
    ]

    end_child-P : (pid : Option ℕ) (s : Loop) → P s → P (end_child system pid s)
    unfolding end_child
    end_child-P none s h = h
    end_child-P (some pid) s h = elim (Bool-cases (system.still_runs s.asked pid)) [
      | inl e ↦ rw e (stable.on_same s _ (refl, refl, refl, refl, refl) h)
      | inr e ↦ rw e (stable.on_same s _ (refl, refl, refl, refl, refl) h)
    ]

    pub close_cgi_job-P : (fd : ℕ) (s : Loop) → P s → P (close_cgi_job system fd s)
    unfolding close_cgi_job
    close_cgi_job-P fd s h = elim (Option-cases (lookup fd s.cgi_jobs)) [
      | inl e ↦ rw (close_cgi_job, e) h
      | inr (job, e) ↦
          rw (close_cgi_job, e)
            (stable.on_same _ _ (refl, refl, refl, refl, refl)
              (stable.on_unregister fd _ (end_child-P job.child_pid _ (close_cgi_stdin-P job s h))))
    ]

    pub close_cgi_jobs-P : (fds : List ℕ) (s : Loop) → P s → P (close_cgi_jobs system fds s)
    unfolding close_cgi_jobs
    close_cgi_jobs-P [] s h = h
    close_cgi_jobs-P (fd ∷ fds) s h = close_cgi_jobs-P fds _ (close_cgi_job-P fd s h)

    pub close_client-P : (fd : ℕ) (s : Loop) → P s → P (close_client system fd s)
    unfolding close_client close_cgi_jobs_for_client
    close_client-P fd s h =
        stable.on_drop fd _
          (stable.on_unregister fd _ (close_cgi_jobs-P (jobs_of fd s.cgi_jobs) s h))
