-- ===== src/Loop/Served.antt =====
-- What holds of the event loop of src/main.cpp from its making on.
use webserer_core.Base.{ℕ, refl, List, [], ◌∷◌, Option, none, some, arith}
use webserer_core.Config.{Server}
use webserer_core.Loop.{Loop, System, server}
use webserer_core.Loop.Bounded.{Tracked, Tracked-Growing, run-Tracked}
use webserer_core.Loop.Ended.{Ended, done, raised, failed, dangling, stuck}
use webserer_core.Loop.Jobs.{input_only}
use webserer_core.Loop.References.{HasRefs, HasRefs-Growing, run-HasRefs}
use webserer_core.Loop.Stable.{Keeps, Keeps-then, Keeps-if}
use webserer_core.Loop.Stable.Input.{Growing}
use webserer_core.Loop.Starting.{new_loop, give_up, add_listeners, serve}
use webserer_core.Loop.Turns.{Event, add_server_socket}
use webserer_core.Manager
use webserer_core.Manager.Map.{holds}
use webserer_core.Tables.{lookup}

module _ {P : Loop → Type 0} (growing : Growing P) where
  Keeps-give_up : (fd : ℕ) (e : Ended) → Keeps P e → Keeps P (give_up fd e)
  Keeps-give_up fd (done s) h = h
  Keeps-give_up fd (raised s) h = (growing.stable).on_same s _ (refl, refl, refl, refl, refl) h
  Keeps-give_up fd (failed s) h = (growing.stable).on_same s _ (refl, refl, refl, refl, refl) h
  Keeps-give_up fd (dangling s) h = h
  Keeps-give_up fd stuck h = h

  Keeps-add_server_socket :
      (system : System) (fd : ℕ) (cfg : Server) (s : Loop)
      → P s
      → Keeps P (add_server_socket system fd cfg s)
  unfolding add_server_socket
  Keeps-add_server_socket system fd cfg s h =
      let listed = (growing.stable).on_same s _ (refl, refl, refl, refl, refl) h in
      let there = growing.on_register system fd server input_only _ listed in
      Keeps-if P _ (failed _) (done _) there there

  Keeps-add_listeners :
      (system : System) (listeners : List (Option ℕ × Server)) (s : Loop)
      → P s
      → Keeps P (add_listeners system listeners s)
  unfolding add_listeners
  Keeps-add_listeners system [] s h = h
  Keeps-add_listeners system ((none, cfg) ∷ listeners) s h = h
  Keeps-add_listeners system ((some fd, cfg) ∷ listeners) s h =
      Keeps-then P _ _ (Keeps-give_up fd _ (Keeps-add_server_socket system fd cfg s h))
        (λ t k. Keeps-add_listeners system listeners t k)

new-Tracked : (somaxconn : ℕ) → Tracked (new_loop somaxconn)
unfolding new_loop Manager.create
new-Tracked somaxconn = record { ascending = tt; bounded = omega arith }

new-HasRefs : (somaxconn : ℕ) → HasRefs (new_loop somaxconn)
unfolding new_loop lookup holds
new-HasRefs somaxconn = record {
  ascending = tt;
  refs_ascending = tt;
  found = λ fd ident e. absurd (cc);
  made = λ fd ident e. absurd (cc);
  stale_made = λ ident e. absurd (cc);
  unused = λ fd ident e. absurd (cc);
}

-- From the making of the event loop on, whatever listeners there are, whatever events come and
-- whatever the system answers, and however the program leaves the loop: each descriptor is tracked
-- once and no more connections are tracked than allowed, and each reference of the table leads to an
-- object for its descriptor that is there and not to be deleted.
pub serve-Sound :
    (somaxconn : ℕ) (system : System) (listeners : List (Option ℕ × Server))
    (rounds : List (System × List Event))
    → Keeps Tracked (serve somaxconn system listeners rounds)
      × Keeps HasRefs (serve somaxconn system listeners rounds)
unfolding serve
serve-Sound somaxconn system listeners rounds = (
  Keeps-then Tracked _ _
      (Keeps-add_listeners Tracked-Growing system listeners _ (new-Tracked somaxconn))
      (λ t k. run-Tracked rounds t k),
  Keeps-then HasRefs _ _
      (Keeps-add_listeners HasRefs-Growing system listeners _ (new-HasRefs somaxconn))
      (λ t k. run-HasRefs rounds t k),
)
