-- ===== src/Loop/Reaping.antt =====
-- The children that `_reapPending` of src/EventLoop/EventLoop.cpp goes on waiting for.
use webserer_core.Base.{
  ℕ, suc, ◌≡◌, Bool, ◌&&◌, refl, ap, inl, inr, List, [], ◌∷◌, ltb, leb, ◌-◌, arith, Bool-cases,
  true, false, if◌then◌else◌,
}
use webserer_core.Loop.{Loop, System}
use webserer_core.Loop.Closing.{reap, reap_pending}

-- The children that pass a test, in their order.
abbrev pub children_that : (ℕ × ℕ → Bool) → List (ℕ × ℕ) → List (ℕ × ℕ)
children_that test [] = []
children_that test (child ∷ pending) =
    let rest = children_that test pending in if test child then child ∷ rest else rest

-- A child that still runs and was killed at most a minute ago.
abbrev pub goes_on : (ℕ → Bool) → ℕ → ℕ × ℕ → Bool
goes_on runs now child = leb (now - child.1) 60 && runs child.0

reap_lem :
    (system : System) (runs : ℕ → Bool) (asked : ℕ) (pending : List (ℕ × ℕ))
    → ((n pid : ℕ) → system.still_runs n pid ≡ runs pid)
    → (reap system asked pending).0 ≡ children_that (goes_on runs system.now) pending
unfolding reap
reap_lem system runs asked [] steady = refl
reap_lem system runs asked ((pid, since) ∷ pending) steady =
    let given_up = reap_lem system runs asked pending steady in
    let rest = reap_lem system runs (suc asked) pending steady in
    elim (Bool-cases (ltb 60 (system.now - since))) [
      | inl e ↦
          let old : leb (system.now - since) 60 ≡ false = ground (arith, e) in rw (e, old) given_up
      | inr e ↦
          let young : leb (system.now - since) 60 ≡ true = ground (arith, e) in
          elim (Bool-cases (runs pid)) [
            | inl z ↦ rw (e, young, steady asked pid, z) (ap (◌∷◌ (pid, since)) rest)
            | inr z ↦ rw (e, young, steady asked pid, z) rest
          ]
    ]

-- Where the system answers about a child in the same way throughout the call, `_reapPending` goes on
-- waiting for exactly the children that still run and were killed at most a minute ago, in the order
-- in which it waited for them.
pub reap_pending-children_that :
    (system : System) (runs : ℕ → Bool) (s : Loop)
    → ((n pid : ℕ) → system.still_runs n pid ≡ runs pid)
    → (reap_pending system s).pending_reap ≡ children_that (goes_on runs system.now) s.pending_reap
unfolding reap_pending
reap_pending-children_that system runs s steady = reap_lem system runs s.asked s.pending_reap steady
