-- ===== src/Loop/Turns.antt =====
-- `_dispatch` and `run` of src/EventLoop/EventLoop.cpp, `stop` and `addServerSocket` of
-- src/EventLoop/EventLoop_helper.cpp.
use webserer_core.Base.{
  ℕ, true, false, not, ◌||◌, List, [], ◌∷◌, ◌++◌, Option, none, some, if◌then◌else◌, map,
}
use webserer_core.Config.{Server}
use webserer_core.Loop.{
  Loop, System, EventRef, invalid, server, client, cgi, cgi_stdin, log, invalidate,
  register_event_fd,
}
use webserer_core.Loop.Clients.{Flags, handle_accept, handle_client_event, close_timed_out_clients}
use webserer_core.Loop.Closing.{reap_pending}
use webserer_core.Loop.Ended.{Ended, done, failed, dangling, ◌|>◌}
use webserer_core.Loop.Jobs.{handle_cgi_event, close_timed_out_cgi_jobs, input_only}
use webserer_core.Manager.{closes, forgets}
use webserer_core.Tables.{Table, lookup, erase}

-- An event that `epoll_wait` returns: the reference registered, and its flags.
pub record Event : Type 0 where
  pub ident : ℕ
  pub flags : Flags

-- The clearing of `_stale_refs`.
unfoldable pub delete_refs : List ℕ → Table EventRef → Table EventRef
delete_refs [] refs = refs
delete_refs (ident ∷ idents) refs = delete_refs idents (erase ident refs)

unfoldable pub clear_stale : Loop → Loop
unfolding delete_refs
clear_stale s = record s { refs = delete_refs s.stale_refs s.refs; stale_refs = [] }

-- The first loop of `stop`.
unfoldable pub close_listeners : List (Option ℕ) → Loop → Loop
close_listeners [] s = s
close_listeners (none ∷ fds) s = close_listeners fds s
close_listeners (some fd ∷ fds) s =
    let t = log (forgets fd ∷ closes fd ∷ []) s in
    close_listeners fds (elim (lookup fd t.event_refs) [
      | none ↦ t
      | some ident ↦ record t { refs = invalidate ident t.refs }
    ])

-- The second loop of `stop`.
unfoldable pub invalidate_all : Table ℕ → Table EventRef → Table EventRef
invalidate_all [] refs = refs
invalidate_all ((fd, ident) ∷ idents) refs = invalidate_all idents (invalidate ident refs)

unfoldable pub stop : Loop → Loop
unfolding close_listeners invalidate_all
stop s =
    let t = close_listeners s.server_fds (record s { running = false; stopped = true }) in
    record t {
      server_fds = map (λ fd. none) t.server_fds;
      refs = invalidate_all t.event_refs t.refs;
    }

module _ (system : System) where
  unfoldable pub add_server_socket : ℕ → Server → Loop → Ended
  add_server_socket server_fd config s =
      let t = record s {
        server_fds = s.server_fds ++ some server_fd ∷ [];
        server_configs = s.server_configs ++ config ∷ [];
      } in
      let (throws, u) = register_event_fd system server_fd server input_only t in
      if throws then failed u else done u

  unfoldable pub dispatch_ref : EventRef → Flags → Loop → Ended
  unfolding handle_accept handle_cgi_event handle_client_event
  dispatch_ref ref flags s = elim ref.kind [
    | invalid ↦ done s
    | server ↦ handle_accept system ref.fd s
    | cgi ↦ handle_cgi_event system ref.fd s
    | client ↦ handle_client_event system ref.fd flags s
    | cgi_stdin ↦ done s
  ]

  unfoldable pub dispatch : Event → Loop → Ended
  unfolding dispatch_ref
  dispatch event s = if s.stopped then done s else elim (lookup event.ident s.refs) [
    | none ↦ dangling s
    | some ref ↦ dispatch_ref ref event.flags s
  ]

  unfoldable pub dispatch_all : List Event → Loop → Ended
  unfolding dispatch
  dispatch_all [] s = done s
  dispatch_all (event ∷ events) s = dispatch event s |> dispatch_all events

  -- One round of the loop of `run`, where `epoll_wait` returned `events`.
  unfoldable pub turn : List Event → Loop → Ended
  unfolding dispatch_all clear_stale close_timed_out_clients close_timed_out_cgi_jobs reap_pending
  turn events s =
      dispatch_all events s
      |> (λ t. close_timed_out_clients system (clear_stale t))
      |> close_timed_out_cgi_jobs system
      |> λ t. done (reap_pending system t)

-- The loop of `run` over what the system answers in each round, for as long as it is running.
unfoldable pub turns : List (System × List Event) → Loop → Ended
unfolding turn
turns [] s = done s
turns ((system, events) ∷ rounds) s =
    if not s.running || s.stopped then done s else (turn system events s |> turns rounds)

unfoldable pub run : List (System × List Event) → Loop → Ended
unfolding turns
run rounds s = turns rounds (record s { running = true })
