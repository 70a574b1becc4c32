-- ===== src/Loop/Expired.antt =====
-- What `_closeTimedOutCgiJobs` of cgi/CgiCleanning.cpp leaves.
use webserer_core.Base.{
  ℕ, suc, ◌≤◌, ◌≡◌, refl, ap, ◌∙◌, sym, inl, inr, List, [], ◌∷◌, Option, none, some, Bytes, Bool,
  true, false, ◌==◌, ◌||◌, not, ltb, ◌-◌, arith, if◌then◌else◌, Option-cases, Bool-cases,
}
use webserer_core.Buffer
use webserer_core.Connection.{Connection, Interest, set_writing}
use webserer_core.Loop.{
  Loop, System, CgiJob, client_at, is_invalid, ref_of, modify_event_fd, rearm_client,
  drop_connection,
}
use webserer_core.Loop.Closing.{close_cgi_job}
use webserer_core.Loop.Ended.{
  done, update_client, append_bytes, send_error_to, start_writing, answer_error,
}
use webserer_core.Loop.Gone.{close_cgi_job-jobs, either}
use webserer_core.Loop.Jobs.{
  is_there, fail_client, fail_cgi_job, fail_cgi_jobs, timed_out_jobs, close_timed_out_cgi_jobs,
  set_close, last_chunk,
}
use webserer_core.Loop.Overdue.{Returns, Returns-then, Returns-bind, Returns-mono}
use webserer_core.Loop.Stable.{Keeps, Keeps-then, Keeps-if, Keeps-on_client, Keeps-outcome}
use webserer_core.Manager.Map.{holds}
use webserer_core.Tables.{Table, lookup}
use webserer_core.Tables.Laws.{AscendingFrom}

-- Whether a job is older than it may be.
abbrev pub is_expired : ℕ → CgiJob → Bool
is_expired now job = ltb job.timeout_seconds (now - job.start_time)

-- Telling the client leaves the jobs alone.
module _ (jobs : Table CgiJob) (system : System) where
  abbrev Has : Loop → Type 0
  Has s = s.cgi_jobs ≡ jobs

  Has-update :
      (fd : ℕ) (f : Connection → Connection) (s : Loop) → Has s → Keeps Has (update_client fd f s)
  unfolding update_client
  Has-update fd f s h = Keeps-on_client Has fd _ s h (λ conn e. h)

  Has-append : (fd : ℕ) (text : Bytes) (s : Loop) → Has s → Keeps Has (append_bytes fd text s)
  unfolding append_bytes
  Has-append fd text s h =
      Keeps-on_client Has fd _ s h
        (λ conn e. Keeps-outcome Has (Buffer.append text conn.write_buffer) s _ h (λ buf. h))

  Has-send_error : (code fd : ℕ) (s : Loop) → Has s → Keeps Has (send_error_to system code fd s)
  unfolding send_error_to
  Has-send_error code fd s h = Keeps-on_client Has fd _ s h (λ conn e. Has-append fd _ s h)

  modify-Has :
      (fd : ℕ) (events : Interest) (s : Loop) → Has s → Has (modify_event_fd system fd events s)
  unfolding modify_event_fd drop_connection
  modify-Has fd events s h = elim (Option-cases (ref_of fd s)) [
    | inl e ↦ rw (modify_event_fd, e) h
    | inr (ref, e) ↦ elim (Bool-cases (is_invalid ref.kind)) [
      | inl z ↦ rw (modify_event_fd, e, z) h
      | inr z ↦ elim (Bool-cases (system.modifies s.asked fd)) [
        | inl y ↦ rw (modify_event_fd, e, z, y) h
        | inr y ↦ rw (modify_event_fd, e, z, y) h
      ]
    ]
  ]

  rearm-Has : (fd : ℕ) (s : Loop) → Has s → Has (rearm_client system fd s)
  unfolding rearm_client
  rearm-Has fd s h = elim (Option-cases (client_at fd s)) [
    | inl e ↦ rw (rearm_client, e) h
    | inr (conn, e) ↦ rw (rearm_client, e) (modify-Has fd _ s h)
  ]

  Has-start : (fd : ℕ) (s : Loop) → Has s → Keeps Has (start_writing system fd s)
  unfolding start_writing
  Has-start fd s h = Keeps-then Has _ _ (Has-update fd set_writing s h) (λ t k. rearm-Has fd t k)

  Has-answer : (code fd : ℕ) (s : Loop) → Has s → Keeps Has (answer_error system code fd s)
  unfolding answer_error
  Has-answer code fd s h = Keeps-then Has _ _ (Has-send_error code fd s h) (λ t k. Has-start fd t k)

  Has-fail_client :
      (job : CgiJob) (code : ℕ) (s : Loop) → Has s → Keeps Has (fail_client system job code s)
  unfolding fail_client
  Has-fail_client job code s h =
      let client = job.client_fd in
      Keeps-if Has (not (is_there (client_at client s))) (done s) _ h (
        Keeps-if Has (not job.headers_sent) _ _ (Has-answer code client s h) (
          Keeps-then Has _ _
            (Keeps-then Has _ _ (Has-append client last_chunk s h)
              (λ t k. Has-update client set_close t k))
            (λ t k. Has-start client t k)))

-- The jobs are those of a table without some descriptors.
abbrev Without : List ℕ → Table CgiJob → Loop → Type 0
Without fds jobs s =
    AscendingFrom 0 s.cgi_jobs
    × ((r : ℕ) → lookup r s.cgi_jobs ≡ (if holds r fds then none else lookup r jobs))

jobs_below :
    (now r from : ℕ) (m : Table CgiJob)
    → AscendingFrom from m
    → suc r ≤ from
    → holds r (timed_out_jobs now m) ≡ false
unfolding holds timed_out_jobs
jobs_below now r from [] a h = refl
jobs_below now r from ((key, job) ∷ m) a h =
    ground (arith, jobs_below now r (suc key) m a.1 (omega (arith, a.0)))

-- The jobs listed are those that have expired.
holds-timed_out_jobs :
    (now r from : ℕ) (m : Table CgiJob)
    → AscendingFrom from m
    → holds r (timed_out_jobs now m)
      ≡ elim (lookup r m) [ none ↦ false | some job ↦ is_expired now job ]
unfolding holds timed_out_jobs lookup
holds-timed_out_jobs now r from [] a = refl
holds-timed_out_jobs now r from ((key, job) ∷ m) a =
    ground (arith, holds-timed_out_jobs now r (suc key) m a.1, jobs_below now r (suc key) m a.1)

absent_fd :
    (fd r : ℕ) (m : Table CgiJob)
    → lookup fd m ≡ none
    → lookup r m ≡ (if (fd == r) || false then none else lookup r m)
absent_fd fd r m e = elim (Bool-cases (fd == r)) [
  | inl z ↦ let k : fd ≡ r = ground arith in rw z (ap (λ i. lookup i m) (sym k) ∙ e)
  | inr z ↦ rw z refl
]

or_false :
    (b : Bool) (x : Option CgiJob) → (if b then none else x) ≡ (if b || false then none else x)
or_false true x = refl
or_false false x = refl

closed-Without :
    (system : System) (fd : ℕ) (jobs : Table CgiJob) (t : Loop)
    → AscendingFrom 0 jobs
    → t.cgi_jobs ≡ jobs
    → Without (fd ∷ []) jobs (close_cgi_job system fd t)
unfolding holds
closed-Without system fd jobs t a k =
    let b : AscendingFrom 0 t.cgi_jobs = rw k a in
    (
      (close_cgi_job-jobs system fd fd t b).0,
      λ r. (close_cgi_job-jobs system fd r t b).1 ∙ rw k (or_false (fd == r) (lookup r jobs)),
    )

module _ (system : System) where
  Without-fail :
      (fd code : ℕ) (s : Loop)
      → AscendingFrom 0 s.cgi_jobs
      → Returns (Without (fd ∷ []) s.cgi_jobs) (fail_cgi_job system fd code s)
  unfolding fail_cgi_job holds
  Without-fail fd code s a = elim (Option-cases (lookup fd s.cgi_jobs)) [
    | inl e ↦ rw (fail_cgi_job, e) (a, λ r. absent_fd fd r s.cgi_jobs e)
    | inr (job, e) ↦
        rw (fail_cgi_job, e)
          (Returns-then (Has s.cgi_jobs system) (Without (fd ∷ []) s.cgi_jobs) _ _
            (Has-fail_client s.cgi_jobs system job code s refl)
            (λ t k. closed-Without system fd s.cgi_jobs t a k))
  ]

  Without-cons :
      (fd : ℕ) (fds : List ℕ) (jobs : Table CgiJob) (t u : Loop)
      → Without (fd ∷ []) jobs t
      → Without fds t.cgi_jobs u
      → Without (fd ∷ fds) jobs u
  unfolding holds
  Without-cons fd fds jobs t u h k = (
    k.0,
    λ r.
        k.1 r
        ∙ either (fd == r) (holds r fds) (lookup r jobs) (lookup r t.cgi_jobs)
            (h.1 r ∙ sym (or_false (fd == r) (lookup r jobs))),
  )

  Without-fail_jobs :
      (fds : List ℕ) (code : ℕ) (s : Loop)
      → AscendingFrom 0 s.cgi_jobs
      → Returns (Without fds s.cgi_jobs) (fail_cgi_jobs system fds code s)
  unfolding fail_cgi_jobs
  Without-fail_jobs [] code s a = (a, λ r. unfold holds in refl)
  Without-fail_jobs (fd ∷ fds) code s a =
      Returns-bind (Without (fd ∷ []) s.cgi_jobs) (Without (fd ∷ fds) s.cgi_jobs) _ _
        (Without-fail fd code s a)
        (λ t h.
          Returns-mono (Without fds t.cgi_jobs) (Without (fd ∷ fds) s.cgi_jobs)
            (fail_cgi_jobs system fds code t) (Without-fail_jobs fds code t h.0)
            (λ u k. Without-cons fd fds s.cgi_jobs t u h k))

-- A job that is kept unless it has expired.
abbrev pub unless_expired : ℕ → Option CgiJob → Option CgiJob
unless_expired now none = none
unless_expired now (some job) = if is_expired now job then none else some job

as_unless :
    (now : ℕ) (found : Option CgiJob) (b : Bool)
    → b ≡ elim found [ none ↦ false | some job ↦ is_expired now job ]
    → (if b then none else found) ≡ unless_expired now found
as_unless now none b e = rw e refl
as_unless now (some job) b e = rw e refl

-- If `_closeTimedOutCgiJobs` returns, exactly the jobs are gone that were older than their server allows;
-- the others are as they were.
pub close_timed_out_cgi_jobs-lookup :
    (system : System) (s : Loop)
    → AscendingFrom 0 s.cgi_jobs
    → Returns
        (λ t. (r : ℕ) → lookup r t.cgi_jobs ≡ unless_expired system.now (lookup r s.cgi_jobs))
        (close_timed_out_cgi_jobs system s)
unfolding close_timed_out_cgi_jobs
close_timed_out_cgi_jobs-lookup system s a =
    let fds = timed_out_jobs system.now s.cgi_jobs in
    Returns-mono (Without fds s.cgi_jobs) _ (fail_cgi_jobs system fds 504 s)
      (Without-fail_jobs system fds 504 s a)
      (λ t h r.
        h.1 r
        ∙ as_unless system.now (lookup r s.cgi_jobs) (holds r fds)
            (holds-timed_out_jobs system.now r 0 s.cgi_jobs a))
