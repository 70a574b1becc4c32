-- ===== src/Loop/Alive.antt =====
-- The objects of type `EventRef` while src/EventLoop/EventLoop.cpp handles a batch of events.
use webserer_core.Base.{ℕ, refl, ◌∙◌, inl, inr, List, ◌==◌, Option-cases, Bool-cases}
use webserer_core.Connection.{Interest}
use webserer_core.Loop.{
  Loop, System, EventKind, EventRef, drop_connection, unregister_event_fd, register_event_fd,
}
use webserer_core.Loop.Stable.{Keeps}
use webserer_core.Loop.Stable.Input.{Growing}
use webserer_core.Loop.Stable.Runs.{Keeps-dispatch_all}
use webserer_core.Loop.Turns.{Event, dispatch_all}
use webserer_core.Tables.{lookup}
use webserer_core.Tables.Laws.{lookup_put, lookup_beside}
use webserer_core.Loop.References.{IsRef, invalidate-IsRef}

-- An object that is there at the start of a batch of events.
abbrev pub IsAlive : ℕ → Loop → Type 0
IsAlive ident s = (fd : ℕ) × IsRef ident fd s.refs

unregister-IsAlive :
    (ident fd : ℕ) (s : Loop) → IsAlive ident s → IsAlive ident (unregister_event_fd fd s)
unfolding unregister_event_fd
unregister-IsAlive ident fd s (of, r) = elim (Option-cases (lookup fd s.event_refs)) [
  | inl e ↦ rw (unregister_event_fd, e) (of, r)
  | inr (gone, e) ↦ rw (unregister_event_fd, e) (of, invalidate-IsRef gone ident of s.refs r)
]

drop-IsAlive : (ident fd : ℕ) (s : Loop) → IsAlive ident s → IsAlive ident (drop_connection fd s)
unfolding drop_connection
drop-IsAlive ident fd s h = h

register-IsAlive :
    (ident : ℕ) (system : System) (fd : ℕ) (kind : EventKind) (events : Interest) (s : Loop)
    → IsAlive ident s
    → IsAlive ident (register_event_fd system fd kind events s).1
unfolding register_event_fd
register-IsAlive ident system fd kind events s (of, (ref, e, f)) =
    let fresh : EventRef = record { kind = kind; fd = fd } in
    elim (Bool-cases (s.refs_made == ident)) [
      | inl z ↦ (fd, (fresh, lookup_put s.refs_made ident fresh s.refs z, refl))
      | inr z ↦ (of, (ref, lookup_beside s.refs_made ident fresh s.refs z ∙ e, f))
    ]

IsAlive-Growing : (ident : ℕ) → Growing (IsAlive ident)
IsAlive-Growing ident = record {
  stable = record {
    on_same = λ s t e h. rw (e.1) h;
    on_put = λ fd old conn s e h. h;
    on_drop = drop-IsAlive ident;
    on_unregister = unregister-IsAlive ident;
  };
  on_register = register-IsAlive ident;
  on_add = λ now fd b cfg s h. h;
  on_hold = λ fd s h. h;
}

-- An object of type `EventRef` that is there when a batch of events begins is there after each event of
-- the batch and at its end, whatever the handlers do, even if its descriptor was unregistered: no
-- event of the batch is delivered to an object that has been deleted.
pub dispatch_all-IsAlive :
    (system : System) (events : List Event) (ident : ℕ) (s : Loop)
    → IsAlive ident s
    → Keeps (IsAlive ident) (dispatch_all system events s)
dispatch_all-IsAlive system events ident s h =
    Keeps-dispatch_all (IsAlive-Growing ident) system events s h
