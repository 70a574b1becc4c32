-- ===== src/Loop/Stable/Runs.antt =====
-- Properties that `_dispatch` and `run` of src/EventLoop/EventLoop.cpp keep.
use webserer_core.Base.{
  ℕ, refl, not, ◌||◌, List, [], ◌∷◌, Option, none, some, Bool, leb, inl, inr, Bool-cases,
}
use webserer_core.Buffer
use webserer_core.Config.{Server}
use webserer_core.Connection.{set_peer_half_closed}
use webserer_core.Loop.{
  Loop, System, EventRef, invalid, server, client, cgi, cgi_stdin, client_at, log,
  register_event_fd,
}
use webserer_core.Loop.Clients.{
  Flags, welcome, accept_loop, handle_accept, handle_client_event, has_job,
}
use webserer_core.Loop.Closing.{close_client, reap_pending}
use webserer_core.Loop.Ended.{done, dangling, put_client}
use webserer_core.Loop.Jobs.{input_only}
use webserer_core.Loop.Stable.{Stable, Keeps, Keeps-then, Keeps-if, Keeps-option, close_client-P}
use webserer_core.Loop.Stable.Input.{Growing}
use webserer_core.Loop.Stable.Output.{
  Keeps-handle_write, Keeps-handle_cgi_event, Keeps-close_timed_out_clients,
  Keeps-close_timed_out_cgi_jobs,
}
use webserer_core.Loop.Stable.Requests.{Keeps-handle_read}
use webserer_core.Loop.Turns.{
  Event, clear_stale, dispatch_ref, dispatch, dispatch_all, turn, turns, run,
}
use webserer_core.Manager
use webserer_core.Manager.{closes}
use webserer_core.Tables.{lookup}

module _ {P : Loop → Type 0} (growing : Growing P) where
  stable : Stable P
  stable = growing.stable

  module _ (system : System) where
    welcome-P : (fd : ℕ) (s : Loop) → P s → P (welcome system fd s)
    unfolding welcome
    welcome-P fd s h =
        let t = record s { manager = Manager.hold_configuration s.server_configs fd s.manager } in
        let registered = register_event_fd system fd client input_only t in
        let k : P registered.1 =
          growing.on_register system fd client input_only t (growing.on_hold fd s h) in
        elim (Bool-cases registered.0) [
          | inl e ↦ rw e (stable.on_drop fd registered.1 k)
          | inr e ↦ rw e k
        ]

    Keeps-accept_loop :
        (config : Option Server) (accepted : List (ℕ × Bool)) (s : Loop)
        → P s
        → Keeps P (accept_loop system config accepted s)
    unfolding accept_loop
    Keeps-accept_loop config [] s h = h
    Keeps-accept_loop none ((fd, non_blocking) ∷ accepted) s h =
        let closed = log (closes fd ∷ []) s in
        Keeps-if P (leb (s.manager).max_connections (Manager.count s.manager)) (done s) _ h (
          Keeps-if P non_blocking (dangling s) (done closed) h
            (stable.on_same s _ (refl, refl, refl, refl, refl) h))
    Keeps-accept_loop (some cfg) ((fd, non_blocking) ∷ accepted) s h =
        let (added, after) =
          Manager.add_connection system.now (some fd) non_blocking cfg s.manager in
        let t = log after.1 (record s { manager = after.0 }) in
        let k : P t =
          stable.on_same (record s { manager = after.0 }) _ (refl, refl, refl, refl, refl)
            (growing.on_add system.now fd non_blocking cfg s h) in
        Keeps-option P added (done t) _ k
          (λ client_fd e. Keeps-accept_loop (some cfg) accepted _ (welcome-P client_fd t k))

    Keeps-handle_accept : (fd : ℕ) (s : Loop) → P s → Keeps P (handle_accept system fd s)
    unfolding handle_accept
    Keeps-handle_accept fd s h =
        Keeps-accept_loop _ _ _ (stable.on_same s _ (refl, refl, refl, refl, refl) h)

    Keeps-handle_client_event :
        (fd : ℕ) (flags : Flags) (s : Loop) → P s → Keeps P (handle_client_event system fd flags s)
    unfolding handle_client_event
    Keeps-handle_client_event fd flags s h =
        let gone = done (close_client system fd s) in
        let closed = close_client-P stable system fd s h in
        Keeps-option P (client_at fd s) (done s) _ h (λ conn e.
          let halved = put_client fd (set_peer_half_closed conn) s in
          Keeps-if P flags.error_or_hup gone _ closed (
            Keeps-if P flags.peer_hup _ _
              (Keeps-if P (Buffer.is_empty conn.write_buffer || has_job system fd s) gone
                (done halved) closed (stable.on_put fd conn _ s e h))
              (Keeps-if P flags.input _ _ (Keeps-handle_read growing system fd s h)
                (Keeps-if P flags.output _ (done s) (Keeps-handle_write stable system fd s h) h))))

    Keeps-dispatch_ref :
        (ref : EventRef) (flags : Flags) (s : Loop)
        → P s
        → Keeps P (dispatch_ref system ref flags s)
    unfolding dispatch_ref
    Keeps-dispatch_ref ref flags s h =
        elim ref.kind
          as (λ kind. Keeps P (dispatch_ref system (record ref { kind = kind }) flags s)) [
            | invalid ↦ h
            | server ↦ Keeps-handle_accept ref.fd s h
            | cgi ↦ Keeps-handle_cgi_event stable system ref.fd s h
            | client ↦ Keeps-handle_client_event ref.fd flags s h
            | cgi_stdin ↦ h
          ]

    pub Keeps-dispatch : (event : Event) (s : Loop) → P s → Keeps P (dispatch system event s)
    unfolding dispatch
    Keeps-dispatch event s h = Keeps-if P s.stopped (done s) _ h (
        Keeps-option P (lookup event.ident s.refs) (dangling s) _ h
          (λ ref e. Keeps-dispatch_ref ref event.flags s h))

    pub Keeps-dispatch_all :
        (events : List Event) (s : Loop) → P s → Keeps P (dispatch_all system events s)
    unfolding dispatch_all
    Keeps-dispatch_all [] s h = h
    Keeps-dispatch_all (event ∷ events) s h =
        Keeps-then P _ _ (Keeps-dispatch event s h) (λ t k. Keeps-dispatch_all events t k)

  -- Where the clearing of references keeps the property too, all rounds keep it.
  module _ (cleared : (s : Loop) → P s → P (clear_stale s)) where
    pub Keeps-turn :
        (system : System) (events : List Event) (s : Loop) → P s → Keeps P (turn system events s)
    unfolding turn reap_pending
    Keeps-turn system events s h =
        Keeps-then P _ _
          (Keeps-then P _ _
            (Keeps-then P _ _ (Keeps-dispatch_all system events s h)
              (λ t k. Keeps-close_timed_out_clients stable system _ (cleared t k)))
            (λ t k. Keeps-close_timed_out_cgi_jobs stable system t k))
          (λ t k. stable.on_same t _ (refl, refl, refl, refl, refl) k)

    Keeps-turns : (rounds : List (System × List Event)) (s : Loop) → P s → Keeps P (turns rounds s)
    unfolding turns
    Keeps-turns [] s h = h
    Keeps-turns ((system, events) ∷ rounds) s h =
        Keeps-if P (not s.running || s.stopped) (done s) _ h
          (Keeps-then P _ _ (Keeps-turn system events s h) (λ t k. Keeps-turns rounds t k))

    pub Keeps-run : (rounds : List (System × List Event)) (s : Loop) → P s → Keeps P (run rounds s)
    unfolding run
    Keeps-run rounds s h =
        Keeps-turns rounds _ (stable.on_same s _ (refl, refl, refl, refl, refl) h)
