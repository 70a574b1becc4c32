-- ===== src/Manager/Map.antt =====
-- The map of src/ConnectionManager.cpp: which connections it has after an operation.
use webserer_core.Base.{
  ℕ, suc, ◌≤◌, ◌<◌, ◌≡◌, refl, Bool, false, ◌||◌, inl, inr, List, [], ◌∷◌, arith, Option, none,
  some, leb, ◌==◌, if◌then◌else◌, length, Option-cases, Bool-cases,
}
use webserer_core.Config.{Server}
use webserer_core.Connection
use webserer_core.Connection.{Connection}
use webserer_core.Tables.{lookup, erase}
use webserer_core.Tables.Laws.{
  AscendingFrom, insert-AscendingFrom, lookup-erase, erase-AscendingFrom, length-insert,
  length-erase,
}
use webserer_core.Manager.{
  ConnectionMap, Manager, destroy, count, track, add_connection, close_connection, get, is_stale,
  stale_fds, timed_out_fds,
}

-- Whether a descriptor is in a list.
unfoldable pub holds : ℕ → List ℕ → Bool
holds fd [] = false
holds fd (x ∷ xs) = x == fd || holds fd xs

holds_below :
    (now fd from : ℕ) (m : ConnectionMap)
    → AscendingFrom from m
    → fd < from
    → holds fd (stale_fds now m) ≡ false
unfolding holds stale_fds
holds_below now fd from [] a h = refl
holds_below now fd from ((key, conn) ∷ m) a h =
    ground (arith, holds_below now fd (suc key) m a.1 (omega (arith, a.0)))

holds-stale_fds :
    (now fd from : ℕ) (m : ConnectionMap)
    → AscendingFrom from m
    → holds fd (stale_fds now m)
      ≡ elim (lookup fd m) [ none ↦ false | some conn ↦ is_stale now conn ]
unfolding holds stale_fds lookup
holds-stale_fds now fd from [] a = refl
holds-stale_fds now fd from ((key, conn) ∷ m) a =
    ground (arith, holds-stale_fds now fd (suc key) m a.1, holds_below now fd (suc key) m a.1)

-- In a map with ascending keys, a connection is listed by `getTimedOutFds` exactly when it is
-- tracked, runs no CGI, and has been idle for longer than its server allows.
pub holds-timed_out_fds :
    (now fd : ℕ) (m : Manager)
    → AscendingFrom 0 m.connections
    → holds fd (timed_out_fds now m)
      ≡ elim (get fd m) [ none ↦ false | some conn ↦ is_stale now conn ]
unfolding timed_out_fds get
holds-timed_out_fds now fd m a = holds-stale_fds now fd 0 m.connections a

-- What holds of the manager between calls: descriptors ascend, so each is tracked once, and there
-- are no more than allowed.
pub record IsTracked (m : Manager) : Type 0 where
  pub ascending : AscendingFrom 0 m.connections
  pub bounded : length m.connections ≤ m.max_connections

track-IsTracked :
    (now fd : ℕ) (config : Server) (m : Manager)
    → IsTracked m
    → length m.connections < m.max_connections
    → IsTracked (track now fd config m).0
unfolding track destroy
track-IsTracked now fd config m t h = elim (Option-cases (lookup fd m.connections)) [
  | inl e ↦
      rw (track, e)
        (record {
          ascending = insert-AscendingFrom 0 fd _ m.connections t.ascending (omega arith);
          bounded = omega (arith, length-insert fd (Connection.create fd config now) m.connections);
        })
  | inr (old, e) ↦
      rw (track, e)
        (record {
          ascending =
              insert-AscendingFrom 0 fd _ (erase fd m.connections)
                (erase-AscendingFrom 0 fd m.connections t.ascending) (omega arith);
          bounded = omega (
            arith,
            length-insert fd (Connection.create fd config now) (erase fd m.connections),
            length-erase fd m.connections,
          );
        })
]

-- Adding a connection keeps each descriptor tracked once and the number of connections within its
-- bound, whatever `accept` and `fcntl` answer.
pub add_connection-IsTracked :
    (now : ℕ) (accepted : Option ℕ) (non_blocking : Bool) (config : Server) (m : Manager)
    → IsTracked m
    → IsTracked (add_connection now accepted non_blocking config m).1.0
unfolding add_connection count
add_connection-IsTracked now accepted non_blocking config m t =
    elim (Bool-cases (leb m.max_connections (length m.connections))) [
      | inl e ↦ rw e t
      | inr e ↦ elim (Option-cases accepted) [
        | inl z ↦ rw (e, z) t
        | inr (fd, z) ↦ elim (Bool-cases non_blocking) [
          | inl y ↦ rw (e, z, y) (track-IsTracked now fd config m t (ground arith))
          | inr y ↦ rw (e, z, y) t
        ]
      ]
    ]

-- After a connection has been closed its descriptor is untracked and all others are tracked as
-- before, each once and no more than allowed.
pub close_connection-get :
    (fd other : ℕ) (m : Manager)
    → IsTracked m
    → let after = (close_connection fd m).0 in
      (get other after ≡ (if fd == other then none else get other m)) × IsTracked after
unfolding close_connection destroy get
close_connection-get fd other m t = elim (Option-cases (lookup fd m.connections)) [
  | inl e ↦ rw (close_connection, e) (ground arith, t)
  | inr (conn, e) ↦
      rw (close_connection, e)
        (
          lookup-erase 0 fd other m.connections t.ascending,
          record {
            ascending = erase-AscendingFrom 0 fd m.connections t.ascending;
            bounded = omega (arith, length-erase fd m.connections, t.bounded);
          },
        )
]
