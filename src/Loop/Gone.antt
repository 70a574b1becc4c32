-- ===== src/Loop/Gone.antt =====
-- What `_closeClient` of src/EventLoop/EventLoop.cpp leaves of a client.
use webserer_core.Base.{
  ℕ, suc, ◌≤◌, ◌≡◌, refl, ap, ◌∙◌, sym, inl, inr, List, [], ◌∷◌, Option, none, some, Bool, true,
  false, ◌==◌, ◌||◌, arith, if◌then◌else◌, Option-cases, Bool-cases,
}
use webserer_core.Loop.{Loop, System, CgiJob, client_at, drop_connection, unregister_event_fd}
use webserer_core.Loop.Bounded.{Tracked}
use webserer_core.Loop.Closing.{
  close_cgi_stdin, end_child, close_cgi_job, close_cgi_jobs, jobs_of, close_cgi_jobs_for_client,
  close_client,
}
use webserer_core.Loop.References.{HasRefs, HasRefs-Stable}
use webserer_core.Loop.Stable.{close_cgi_jobs-P}
use webserer_core.Manager
use webserer_core.Manager.Map.{holds, close_connection-get}
use webserer_core.Tables.{Table, lookup}
use webserer_core.Tables.Laws.{AscendingFrom, lookup-erase, erase-AscendingFrom}

same_number : (fd r : ℕ) → (fd == r) ≡ true → fd ≡ r
same_number fd r e = ground arith

pub either :
    {A : Type 0} (a b : Bool) (x y : Option A)
    → y ≡ (if a then none else x)
    → (if b then none else y) ≡ (if a || b then none else x)
either true true x y e = refl
either true false x y e = e
either false true x y e = refl
either false false x y e = e

holds-jobs_below :
    (c r from : ℕ) (m : Table CgiJob)
    → AscendingFrom from m
    → suc r ≤ from
    → holds r (jobs_of c m) ≡ false
unfolding holds jobs_of
holds-jobs_below c r from [] a h = refl
holds-jobs_below c r from ((key, job) ∷ m) a h =
    ground (arith, holds-jobs_below c r (suc key) m a.1 (omega (arith, a.0)))

-- The jobs listed for a client.
holds-jobs_of :
    (c r from : ℕ) (m : Table CgiJob)
    → AscendingFrom from m
    → holds r (jobs_of c m) ≡ elim (lookup r m) [ none ↦ false | some job ↦ job.client_fd == c ]
unfolding holds jobs_of lookup
holds-jobs_of c r from [] a = refl
holds-jobs_of c r from ((key, job) ∷ m) a =
    ground (arith, holds-jobs_of c r (suc key) m a.1, holds-jobs_below c r (suc key) m a.1)

-- A job unless it is one of a client.
abbrev pub unless_of : ℕ → Option CgiJob → Option CgiJob
unless_of c none = none
unless_of c (some job) = if job.client_fd == c then none else some job

as_unless :
    (c : ℕ) (found : Option CgiJob) (b : Bool)
    → b ≡ elim found [ none ↦ false | some job ↦ job.client_fd == c ]
    → (if b then none else found) ≡ unless_of c found
as_unless c none b e = rw e refl
as_unless c (some job) b e = rw e refl

module _ (system : System) where
  unregister-jobs : (fd : ℕ) (s : Loop) → (unregister_event_fd fd s).cgi_jobs ≡ s.cgi_jobs
  unfolding unregister_event_fd
  unregister-jobs fd s = elim (Option-cases (lookup fd s.event_refs)) [
    | inl e ↦ rw (unregister_event_fd, e) refl
    | inr (ident, e) ↦ rw (unregister_event_fd, e) refl
  ]

  stdin-jobs : (job : CgiJob) (s : Loop) → (close_cgi_stdin system job s).cgi_jobs ≡ s.cgi_jobs
  unfolding close_cgi_stdin
  stdin-jobs job s = elim (Option-cases job.stdin_fd) [
    | inl e ↦ rw (close_cgi_stdin, e) refl
    | inr (fd, e) ↦ rw (close_cgi_stdin, e) (unregister-jobs fd s)
  ]

  child-jobs : (pid : Option ℕ) (s : Loop) → (end_child system pid s).cgi_jobs ≡ s.cgi_jobs
  unfolding end_child
  child-jobs none s = refl
  child-jobs (some pid) s = elim (Bool-cases (system.still_runs s.asked pid)) [
    | inl e ↦ rw e refl
    | inr e ↦ rw e refl
  ]

  pub close_cgi_job-jobs :
      (fd r : ℕ) (s : Loop)
      → AscendingFrom 0 s.cgi_jobs
      → AscendingFrom 0 (close_cgi_job system fd s).cgi_jobs
        × (lookup r (close_cgi_job system fd s).cgi_jobs
            ≡ (if fd == r then none else lookup r s.cgi_jobs))
  unfolding close_cgi_job
  close_cgi_job-jobs fd r s a = elim (Option-cases (lookup fd s.cgi_jobs)) [
    | inl e ↦
        rw (close_cgi_job, e)
          (
            a,
            elim (Bool-cases (fd == r)) [
              | inl z ↦ rw z (ap (λ k. lookup k s.cgi_jobs) (sym (same_number fd r z)) ∙ e)
              | inr z ↦ rw z refl
            ],
          )
    | inr (job, e) ↦
        let kept =
          unregister-jobs fd (end_child system job.child_pid (close_cgi_stdin system job s))
          ∙ child-jobs job.child_pid (close_cgi_stdin system job s)
          ∙ stdin-jobs job s in
        rw (close_cgi_job, e)
          (rw kept (erase-AscendingFrom 0 fd s.cgi_jobs a, lookup-erase 0 fd r s.cgi_jobs a))
  ]

  close_cgi_jobs-jobs :
      (fds : List ℕ) (r : ℕ) (s : Loop)
      → AscendingFrom 0 s.cgi_jobs
      → lookup r (close_cgi_jobs system fds s).cgi_jobs
        ≡ (if holds r fds then none else lookup r s.cgi_jobs)
  unfolding close_cgi_jobs holds
  close_cgi_jobs-jobs [] r s a = refl
  close_cgi_jobs-jobs (fd ∷ fds) r s a =
      let (b, e) = close_cgi_job-jobs fd r s a in
      close_cgi_jobs-jobs fds r (close_cgi_job system fd s) b
      ∙ either (fd == r) (holds r fds) (lookup r s.cgi_jobs) _ e

  for_client-jobs :
      (c r : ℕ) (s : Loop)
      → AscendingFrom 0 s.cgi_jobs
      → lookup r (close_cgi_jobs_for_client system c s).cgi_jobs ≡ unless_of c (lookup r s.cgi_jobs)
  unfolding close_cgi_jobs_for_client
  for_client-jobs c r s a =
      close_cgi_jobs-jobs (jobs_of c s.cgi_jobs) r s a
      ∙ as_unless c (lookup r s.cgi_jobs) (holds r (jobs_of c s.cgi_jobs))
          (holds-jobs_of c r 0 s.cgi_jobs a)

  pub drop-jobs : (fd : ℕ) (s : Loop) → (drop_connection fd s).cgi_jobs ≡ s.cgi_jobs
  unfolding drop_connection
  drop-jobs fd s = refl

  unregister-manager : (fd : ℕ) (s : Loop) → (unregister_event_fd fd s).manager ≡ s.manager
  unfolding unregister_event_fd
  unregister-manager fd s = elim (Option-cases (lookup fd s.event_refs)) [
    | inl e ↦ rw (unregister_event_fd, e) refl
    | inr (ident, e) ↦ rw (unregister_event_fd, e) refl
  ]

  stdin-manager : (job : CgiJob) (s : Loop) → (close_cgi_stdin system job s).manager ≡ s.manager
  unfolding close_cgi_stdin
  stdin-manager job s = elim (Option-cases job.stdin_fd) [
    | inl e ↦ rw (close_cgi_stdin, e) refl
    | inr (fd, e) ↦ rw (close_cgi_stdin, e) (unregister-manager fd s)
  ]

  child-manager : (pid : Option ℕ) (s : Loop) → (end_child system pid s).manager ≡ s.manager
  unfolding end_child
  child-manager none s = refl
  child-manager (some pid) s = elim (Bool-cases (system.still_runs s.asked pid)) [
    | inl e ↦ rw e refl
    | inr e ↦ rw e refl
  ]

  close_cgi_job-manager : (fd : ℕ) (s : Loop) → (close_cgi_job system fd s).manager ≡ s.manager
  unfolding close_cgi_job
  close_cgi_job-manager fd s = elim (Option-cases (lookup fd s.cgi_jobs)) [
    | inl e ↦ rw (close_cgi_job, e) refl
    | inr (job, e) ↦
        rw (close_cgi_job, e)
          (unregister-manager fd (end_child system job.child_pid (close_cgi_stdin system job s))
            ∙ child-manager job.child_pid (close_cgi_stdin system job s)
            ∙ stdin-manager job s)
  ]

  close_cgi_jobs-manager :
      (fds : List ℕ) (s : Loop) → (close_cgi_jobs system fds s).manager ≡ s.manager
  unfolding close_cgi_jobs
  close_cgi_jobs-manager [] s = refl
  close_cgi_jobs-manager (fd ∷ fds) s =
      close_cgi_jobs-manager fds (close_cgi_job system fd s) ∙ close_cgi_job-manager fd s

  for_client-manager :
      (fd : ℕ) (s : Loop) → (close_cgi_jobs_for_client system fd s).manager ≡ s.manager
  unfolding close_cgi_jobs_for_client
  for_client-manager fd s = close_cgi_jobs-manager (jobs_of fd s.cgi_jobs) s

  for_client-HasRefs :
      (fd : ℕ) (s : Loop) → HasRefs s → HasRefs (close_cgi_jobs_for_client system fd s)
  unfolding close_cgi_jobs_for_client
  for_client-HasRefs fd s h = close_cgi_jobs-P HasRefs-Stable system (jobs_of fd s.cgi_jobs) s h

unregister-lookup :
    (fd : ℕ) (s : Loop)
    → AscendingFrom 0 s.event_refs
    → lookup fd (unregister_event_fd fd s).event_refs ≡ none
unfolding unregister_event_fd
unregister-lookup fd s a = elim (Option-cases (lookup fd s.event_refs)) [
  | inl e ↦ rw (unregister_event_fd, e) e
  | inr (ident, e) ↦
      rw (unregister_event_fd, e) (lookup-erase 0 fd fd s.event_refs a ∙ ground arith)
]

-- What is left of a client, and of the others.
pub record IsGone (fd : ℕ) (before after : Loop) : Type 0 where
  pub clients :
      (other : ℕ) → client_at other after ≡ (if fd == other then none else client_at other before)
  pub jobs : (r : ℕ) → lookup r after.cgi_jobs ≡ unless_of fd (lookup r before.cgi_jobs)
  pub unwatched : lookup fd after.event_refs ≡ none

drop-Gone :
    (fd : ℕ) (s : Loop) (u : Loop)
    → Tracked s
    → u.manager ≡ s.manager
    → (other : ℕ)
    → client_at other (drop_connection fd u) ≡ (if fd == other then none else client_at other s)
unfolding drop_connection Manager.get
drop-Gone fd s u h e other = rw e (close_connection-get fd other s.manager h).0

pub close_client-client :
    (system : System) (fd : ℕ) (s : Loop)
    → Tracked s
    → client_at fd (close_client system fd s) ≡ none
unfolding close_client
close_client-client system fd s h =
    let t = close_cgi_jobs_for_client system fd s in
    let u = unregister_event_fd fd t in
    drop-Gone fd s u h (unregister-manager system fd t ∙ for_client-manager system fd s) fd
    ∙ ground arith

-- `_closeClient` in a state with sound tables: afterwards the descriptor has no connection and no
-- reference for events, every job of the client is gone, and all other connections and jobs are what
-- they were.
pub close_client-IsGone :
    (system : System) (fd : ℕ) (s : Loop)
    → Tracked s
    → HasRefs s
    → AscendingFrom 0 s.cgi_jobs
    → IsGone fd s (close_client system fd s)
unfolding close_client drop_connection
close_client-IsGone system fd s h k a =
    let t = close_cgi_jobs_for_client system fd s in
    let u = unregister_event_fd fd t in
    record {
      clients =
          drop-Gone fd s u h (unregister-manager system fd t ∙ for_client-manager system fd s);
      jobs =
          λ r. ap (λ m. lookup r m) (unregister-jobs system fd t) ∙ for_client-jobs system fd r s a;
      unwatched = unregister-lookup fd t (for_client-HasRefs system fd s k).ascending;
    }
