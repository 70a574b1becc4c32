-- ===== src/Loop/Starting.antt =====
-- The constructor of `EventLoop` of src/EventLoop/EventLoop.cpp, and what src/main.cpp does with the loop.
-- `epoll_create` succeeds, and the listeners are what `make_listener` returns, none where it fails.
use webserer_core.Base.{ℕ, List, [], ◌∷◌, Option, none, some, false}
use webserer_core.Config.{Server}
use webserer_core.Loop.{Loop, System, log}
use webserer_core.Loop.Ended.{Ended, done, raised, failed, dangling, stuck, ◌|>◌}
use webserer_core.Loop.Turns.{Event, add_server_socket, run}
use webserer_core.Manager
use webserer_core.Manager.{closes}

-- The constructor, with what the system says for SOMAXCONN.
unfoldable pub new_loop : ℕ → Loop
new_loop somaxconn = record {
  manager = Manager.create somaxconn;
  running = false;
  stopped = false;
  server_fds = [];
  server_configs = [];
  cgi_jobs = [];
  refs = [];
  refs_made = 0;
  event_refs = [];
  stale_refs = [];
  cgi_stdin_jobs = [];
  pending_reap = [];
  spooled = 0;
  uploads = 0;
  changes = [];
  calls = [];
  asked = 0;
}

-- `catch (const std::exception& ex)`: the listener is closed, and the program ends.
abbrev pub give_up : ℕ → Ended → Ended
give_up fd (failed s) = failed (log (closes fd ∷ []) s)
give_up fd (raised s) = failed (log (closes fd ∷ []) s)
give_up fd (done s) = done s
give_up fd (dangling s) = dangling s
give_up fd stuck = stuck

-- The loop over the servers.
unfoldable pub add_listeners : System → List (Option ℕ × Server) → Loop → Ended
add_listeners system [] s = done s
add_listeners system ((none, cfg) ∷ listeners) s = failed s
add_listeners system ((some fd, cfg) ∷ listeners) s =
    give_up fd (add_server_socket system fd cfg s) |> add_listeners system listeners

-- The program from the event loop's making on, as far as the loop's state goes.
unfoldable pub serve : ℕ → System → List (Option ℕ × Server) → List (System × List Event) → Ended
unfolding new_loop add_listeners
serve somaxconn system listeners rounds =
    add_listeners system listeners (new_loop somaxconn) |> run rounds
