-- ===== src/Loop/Bounded.antt =====
-- The connections of the event loop of src/EventLoop, whatever the system answers.
use webserer_core.Base.{
  ℕ, suc, ◌≡◌, sym, inl, inr, List, [], ◌∷◌, some, length, arith, Option-cases,
}
use webserer_core.Config.{Server}
use webserer_core.Connection.{Connection, Interest}
use webserer_core.Loop.{
  Loop, System, EventKind, drop_connection, unregister_event_fd, register_event_fd,
}
use webserer_core.Loop.Stable.{Stable, Keeps}
use webserer_core.Loop.Stable.Input.{Growing}
use webserer_core.Loop.Stable.Runs.{Keeps-run}
use webserer_core.Loop.Turns.{Event, clear_stale, run}
use webserer_core.Manager.{Manager, hold_configuration}
use webserer_core.Manager.Map.{IsTracked, add_connection-IsTracked, close_connection-get}
use webserer_core.Tables.{Table, lookup, insert}
use webserer_core.Tables.Laws.{AscendingFrom, lookup_below, insert-AscendingFrom}
use mathlib.Core.Path.{subst}

length-insert_there :
    {A : Type 0} (from fd : ℕ) (old v : A) (m : Table A)
    → AscendingFrom from m
    → lookup fd m ≡ some old
    → length (insert fd v m) ≡ length m
unfolding lookup insert
length-insert_there from fd old v [] a e = absurd (cc)
length-insert_there from fd old v ((key, w) ∷ m) a e =
    ground (arith, length-insert_there (suc key) fd old v m a.1, lookup_below fd (suc key) m a.1)

abbrev pub Tracked : Loop → Type 0
Tracked s = IsTracked s.manager

put_there :
    (fd : ℕ) (old conn : Connection) (m : Manager)
    → lookup fd m.connections ≡ some old
    → IsTracked m
    → IsTracked (record m { connections = insert fd conn m.connections })
put_there fd old conn m e h = record {
  ascending = insert-AscendingFrom 0 fd conn m.connections h.ascending (omega arith);
  bounded = omega (arith, length-insert_there 0 fd old conn m.connections h.ascending e, h.bounded);
}

pub drop-Tracked : (fd : ℕ) (s : Loop) → Tracked s → Tracked (drop_connection fd s)
unfolding drop_connection
drop-Tracked fd s h = (close_connection-get fd fd s.manager h).1

pub unregister-Tracked : (fd : ℕ) (s : Loop) → Tracked s → Tracked (unregister_event_fd fd s)
unfolding unregister_event_fd
unregister-Tracked fd s h = elim (Option-cases (lookup fd s.event_refs)) [
  | inl e ↦ rw (unregister_event_fd, e) h
  | inr (ident, e) ↦ rw (unregister_event_fd, e) h
]

pub Tracked-Stable : Stable Tracked
Tracked-Stable = record {
  on_same = λ s t e h. subst IsTracked (sym e.0) h;
  on_put = λ fd old conn s e h. put_there fd old conn s.manager e h;
  on_drop = drop-Tracked;
  on_unregister = unregister-Tracked;
}

hold-Tracked :
    (configs : List Server) (fd : ℕ) (m : Manager)
    → IsTracked m
    → IsTracked (hold_configuration configs fd m)
unfolding hold_configuration
hold-Tracked configs fd m h = elim (Option-cases (lookup fd m.connections)) [
  | inl e ↦ rw (hold_configuration, e) h
  | inr (conn, e) ↦ rw (hold_configuration, e) (put_there fd conn _ m e h)
]

register-Tracked :
    (system : System) (fd : ℕ) (kind : EventKind) (events : Interest) (s : Loop)
    → Tracked s
    → Tracked (register_event_fd system fd kind events s).1
unfolding register_event_fd
register-Tracked system fd kind events s h = h

pub Tracked-Growing : Growing Tracked
Tracked-Growing = record {
  stable = Tracked-Stable;
  on_register = register-Tracked;
  on_add = λ now fd b cfg s h. add_connection-IsTracked now (some fd) b cfg s.manager h;
  on_hold = λ fd s h. hold-Tracked s.server_configs fd s.manager h;
}

clear-Tracked : (s : Loop) → Tracked s → Tracked (clear_stale s)
unfolding clear_stale
clear-Tracked s h = h

-- However many rounds the event loop goes, whatever events come and whatever the system answers, and
-- however the loop ends: if at the start each descriptor is tracked once and no more connections are
-- tracked than allowed, then so it is at the end.
pub run-Tracked :
    (rounds : List (System × List Event)) (s : Loop) → Tracked s → Keeps Tracked (run rounds s)
run-Tracked = Keeps-run Tracked-Growing clear-Tracked
