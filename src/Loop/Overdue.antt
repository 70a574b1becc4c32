-- ===== src/Loop/Overdue.antt =====
-- What `_closeTimedOutClients` of src/EventLoop/EventLoop.cpp leaves.
use webserer_core.Base.{
  ℕ, ◌≡◌, ◌≢◌, refl, ap, ◌∙◌, sym, inl, inr, List, [], ◌∷◌, none, some, true, ◌==◌, arith,
  Option-cases, Bool-cases,
}
use webserer_core.Connection.{Connection}
use webserer_core.Loop.{Loop, System, client_at, drop_connection, unregister_event_fd}
use webserer_core.Loop.Bounded.{Tracked, Tracked-Stable}
use webserer_core.Loop.Clients.{time_out, close_timed_out_clients}
use webserer_core.Loop.Closing.{close_client}
use webserer_core.Loop.Ended.{Ended, done, raised, failed, dangling, stuck, ◌|>◌, put_client}
use webserer_core.Loop.Gone.{close_client-client}
use webserer_core.Loop.Stable.{Stable, Keeps, Keeps-then, Keeps-send_error_to, close_client-P}
use webserer_core.Loop.Stable.Output.{Keeps-handle_write, Keeps-time_out}
use webserer_core.Manager
use webserer_core.Manager.{is_stale, timed_out_fds, close_connection}
use webserer_core.Manager.Map.{holds, holds-timed_out_fds, close_connection-get}
use webserer_core.Tables.{lookup}
use webserer_core.Tables.Laws.{lookup_beside}

-- What holds where the function returns.
abbrev pub Returns : (Loop → Type 0) → Ended → Type 0
Returns Q (done s) = Q s
Returns Q (raised s) = Unit {0}
Returns Q (failed s) = Unit {0}
Returns Q (dangling s) = Unit {0}
Returns Q stuck = Unit {0}

module _ (P Q : Loop → Type 0) where
  pub Returns-then :
      (e : Ended) (f : Loop → Ended)
      → Keeps P e
      → ((t : Loop) → P t → Returns Q (f t))
      → Returns Q (e |> f)
  Returns-then (done s) f h k = k s h
  Returns-then (raised s) f h k = tt
  Returns-then (failed s) f h k = tt
  Returns-then (dangling s) f h k = tt
  Returns-then stuck f h k = tt

  pub Returns-bind :
      (e : Ended) (f : Loop → Ended)
      → Returns P e
      → ((t : Loop) → P t → Returns Q (f t))
      → Returns Q (e |> f)
  Returns-bind (done s) f h k = k s h
  Returns-bind (raised s) f h k = tt
  Returns-bind (failed s) f h k = tt
  Returns-bind (dangling s) f h k = tt
  Returns-bind stuck f h k = tt

  pub Returns-mono : (e : Ended) → Returns P e → ((t : Loop) → P t → Q t) → Returns Q e
  Returns-mono (done s) h k = k s h
  Returns-mono (raised s) h k = tt
  Returns-mono (failed s) h k = tt
  Returns-mono (dangling s) h k = tt
  Returns-mono stuck h k = tt

  pub Returns-Keeps : (e : Ended) → Keeps P e → ((t : Loop) → P t → Q t) → Returns Q e
  Returns-Keeps (done s) h k = k s h
  Returns-Keeps (raised s) h k = tt
  Returns-Keeps (failed s) h k = tt
  Returns-Keeps (dangling s) h k = tt
  Returns-Keeps stuck h k = tt

none-some : {A : Type 0} (a : A) → none ≢ some a
none-some a = cc

-- A descriptor without a connection, which stays without one.
abbrev Absent : ℕ → Loop → Type 0
Absent fd s = Tracked s × (client_at fd s ≡ none)

put-Absent :
    (fd other : ℕ) (old conn : Connection) (s : Loop)
    → client_at other s ≡ some old
    → Absent fd s
    → Absent fd (put_client other conn s)
put-Absent fd other old conn s e (h, n) = (
  Tracked-Stable.on_put other old conn s e h,
  elim (Bool-cases (other == fd)) [
    | inl z ↦
        let k : other ≡ fd = ground arith in
        absurd (none-some old (sym n ∙ ap (λ i. client_at i s) (sym k) ∙ e))
    | inr z ↦ lookup_beside other fd conn (s.manager).connections z ∙ n
  ],
)

drop-Absent : (fd other : ℕ) (s : Loop) → Absent fd s → Absent fd (drop_connection other s)
unfolding drop_connection Manager.get
drop-Absent fd other s (h, n) =
    let (e, t) = close_connection-get other fd s.manager h in
    (t, e ∙ elim (Bool-cases (other == fd)) [ inl z ↦ rw z refl | inr z ↦ rw z n ])

unregister-Absent :
    (fd other : ℕ) (s : Loop) → Absent fd s → Absent fd (unregister_event_fd other s)
unfolding unregister_event_fd
unregister-Absent fd other s h = elim (Option-cases (lookup other s.event_refs)) [
  | inl e ↦ rw (unregister_event_fd, e) h
  | inr (ident, e) ↦ rw (unregister_event_fd, e) h
]

Absent-Stable : (fd : ℕ) → Stable (Absent fd)
Absent-Stable fd = record {
  on_same =
      λ s t e h. (Tracked-Stable.on_same s t e h.0, ap (λ m. lookup fd m.connections) e.0 ∙ h.1);
  on_put = put-Absent fd;
  on_drop = drop-Absent fd;
  on_unregister = unregister-Absent fd;
}

module _ (system : System) where
  time_out-Absent :
      (fds : List ℕ) (fd : ℕ) (s : Loop)
      → Tracked s
      → holds fd fds ≡ true
      → Returns (λ t. client_at fd t ≡ none) (time_out system fds s)
  unfolding time_out holds
  time_out-Absent [] fd s h e = absurd (cc)
  time_out-Absent (x ∷ xs) fd s h e =
      Returns-then Tracked _ _ _
        (Keeps-then Tracked _ _ (Keeps-send_error_to Tracked-Stable system 408 x s h)
          (λ t k. Keeps-handle_write Tracked-Stable system x t k))
        (λ t k.
          let closed = close_client-P Tracked-Stable system x t k in
          elim (Bool-cases (x == fd)) [
            | inl z ↦
                let same : x ≡ fd = ground arith in
                let gone =
                  ap (λ i. client_at i (close_client system x t)) (sym same)
                  ∙ close_client-client system x t k in
                Returns-Keeps (Absent fd) _ _
                  (Keeps-time_out (Absent-Stable fd) system xs _ (closed, gone)) (λ u l. l.1)
            | inr z ↦ time_out-Absent xs fd _ closed (ground (arith, e, z))
          ])

-- If `_closeTimedOutClients` returns, no client is left that was idle for longer than its server allows
-- when it was called and that ran no CGI then.
pub close_timed_out_clients-Absent :
    (system : System) (s : Loop) (fd : ℕ) (conn : Connection)
    → Tracked s
    → client_at fd s ≡ some conn
    → is_stale system.now conn ≡ true
    → Returns (λ t. client_at fd t ≡ none) (close_timed_out_clients system s)
unfolding close_timed_out_clients Manager.get
close_timed_out_clients-Absent system s fd conn h e z =
    time_out-Absent system (timed_out_fds system.now s.manager) fd s h
      (holds-timed_out_fds system.now fd s.manager h.ascending ∙ rw e z)
