-- ===== src/Loop/Clients.antt =====
-- `_handleAccept` and `_handleClientEvent` of src/EventLoop/EventLoop_helper_handlers.cpp, `_configForServer`
-- and `_closeTimedOutClients` of src/EventLoop/EventLoop.cpp.
use webserer_core.Base.{
  ℕ, zero, suc, Bool, true, false, ◌||◌, List, [], ◌∷◌, Option, none, some, leb, ◌==◌,
  if◌then◌else◌, equal,
}
use webserer_core.Buffer
use webserer_core.Config.{Server}
use webserer_core.Connection.{set_peer_half_closed}
use webserer_core.Loop.{Loop, System, client, log, client_at, register_event_fd, drop_connection}
use webserer_core.Loop.Closing.{close_client}
use webserer_core.Loop.Ended.{Ended, done, dangling, ◌|>◌, put_client, send_error_to}
use webserer_core.Loop.Jobs.{input_only}
use webserer_core.Loop.Reads.{handle_read}
use webserer_core.Loop.Writes.{handle_write, active_job}
use webserer_core.Manager
use webserer_core.Manager.{Manager, SystemCall, closes}

-- The loop over `j` of `_configForServer`, for a listener with the configuration `own` at `i`: the
-- last of the configurations before it that has the host.
unfoldable pub last_with_host : Server → Server → ℕ → List Server → Server
last_with_host own conf i [] = conf
last_with_host own conf zero servers = conf
last_with_host own conf (suc i) (server ∷ servers) =
    last_with_host own (if equal own.host server.host then server else conf) i servers

abbrev pub is_listener : ℕ → Option ℕ → Bool
is_listener fd none = false
is_listener fd (some listener) = listener == fd

-- The loop over `i`; `servers` are the configurations from the listener at `i` on.
unfoldable pub config_from :
    ℕ → List Server → ℕ → List (Option ℕ) → List Server → Option Server → Option Server
unfolding last_with_host
config_from fd configs i (listener ∷ listeners) (own ∷ servers) conf =
    config_from fd configs (suc i) listeners servers
      (if is_listener fd listener then some (last_with_host own own i configs) else conf)
config_from fd configs i listeners servers conf = conf

unfoldable pub config_for_server : ℕ → Loop → Option Server
unfolding config_from
config_for_server fd s = config_from fd s.server_configs 0 s.server_fds s.server_configs none

-- The flags of an event that are looked at.
pub record Flags : Type 0 where
  pub error_or_hup : Bool
  pub peer_hup : Bool
  pub input : Bool
  pub output : Bool

module _ (system : System) where
  -- A connection that `addConnection` made.
  unfoldable pub welcome : ℕ → Loop → Loop
  welcome fd s =
      let t = record s { manager = Manager.hold_configuration s.server_configs fd s.manager } in
      let (throws, u) = register_event_fd system fd client input_only t in
      if throws then drop_connection fd u else u

  -- The loop of `_handleAccept` over what `accept` returns; `addConnection` needs the configuration
  -- where it makes a connection.
  unfoldable pub accept_loop : Option Server → List (ℕ × Bool) → Loop → Ended
  unfolding welcome
  accept_loop config [] s = done s
  accept_loop config ((fd, non_blocking) ∷ accepted) s = elim config [
    | none ↦
        if leb (s.manager).max_connections (Manager.count s.manager)
        then done s
        else if non_blocking
        then dangling s
        else done (log (closes fd ∷ []) s)
    | some cfg ↦
        let (added, after) =
          Manager.add_connection system.now (some fd) non_blocking cfg s.manager in
        let t = log after.1 (record s { manager = after.0 }) in
        elim added [
          | none ↦ done t
          | some client_fd ↦ accept_loop config accepted (welcome client_fd t)
        ]
  ]

  unfoldable pub handle_accept : ℕ → Loop → Ended
  unfolding accept_loop config_for_server
  handle_accept server_fd s =
      accept_loop (config_for_server server_fd s) (system.accepts s.asked server_fd)
        (record s { asked = suc s.asked })

  abbrev pub has_job : ℕ → Loop → Bool
  has_job fd s = elim (active_job fd s.cgi_jobs) [ none ↦ false | some cgi_fd ↦ true ]

  unfoldable pub handle_client_event : ℕ → Flags → Loop → Ended
  unfolding handle_read handle_write close_client active_job
  handle_client_event fd events s = elim (client_at fd s) [
    | none ↦ done s
    | some conn ↦
        if events.error_or_hup
        then done (close_client system fd s)
        else if events.peer_hup
        then if Buffer.is_empty conn.write_buffer || has_job fd s
          then done (close_client system fd s)
          else done (put_client fd (set_peer_half_closed conn) s)
        else if events.input
        then handle_read system fd s
        else if events.output
        then handle_write system fd s
        else done s
  ]

  -- The loop of `_closeTimedOutClients`.
  unfoldable pub time_out : List ℕ → Loop → Ended
  unfolding send_error_to handle_write close_client
  time_out [] s = done s
  time_out (fd ∷ fds) s = send_error_to system 408 fd s |> handle_write system fd |> λ t.
      time_out fds (close_client system fd t)

  unfoldable pub close_timed_out_clients : Loop → Ended
  unfolding time_out
  close_timed_out_clients s = time_out (Manager.timed_out_fds system.now s.manager) s
