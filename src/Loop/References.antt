-- ===== src/Loop/References.antt =====
-- The objects of type `EventRef` in the event loop of src/EventLoop: when they are deleted.
use webserer_core.Base.{
  ℕ, suc, ◌<◌, ◌≡◌, ◌≢◌, refl, ap, ◌∙◌, sym, inl, inr, List, [], ◌∷◌, ◌++◌, some, true, false, ◌==◌,
  ◌||◌, arith, Option-cases, Bool-cases,
}
use webserer_core.Connection.{Interest}
use webserer_core.Loop.{
  Loop, System, EventKind, EventRef, drop_connection, invalidate, unregister_event_fd,
  register_event_fd,
}
use webserer_core.Loop.Stable.{Stable, Keeps}
use webserer_core.Loop.Stable.Input.{Growing}
use webserer_core.Loop.Stable.Runs.{Keeps-run}
use webserer_core.Loop.Turns.{Event, delete_refs, clear_stale, run}
use webserer_core.Manager.Map.{holds}
use webserer_core.Tables.{Table, lookup, insert, erase}
use webserer_core.Tables.Laws.{
  AscendingFrom, lookup-erase, lookup_put, lookup_beside, lookup_left, insert-AscendingFrom,
  erase-AscendingFrom,
}

-- The object is there, for this descriptor.
abbrev pub IsRef : ℕ → ℕ → Table EventRef → Type 0
IsRef ident fd refs = (ref : EventRef) × (lookup ident refs ≡ some ref) × (ref.fd ≡ fd)

some_fd : (r q : EventRef) → some r ≡ some q → r.fd ≡ q.fd
some_fd r q e = cc

some_eq : (m n : ℕ) → some m ≡ some n → m ≡ n
some_eq m n e = cc

pub invalidate-IsRef :
    (ident other fd : ℕ) (refs : Table EventRef)
    → IsRef other fd refs
    → IsRef other fd (invalidate ident refs)
unfolding invalidate
invalidate-IsRef ident other fd refs (ref, e, f) = elim (Option-cases (lookup ident refs)) [
  | inl z ↦ rw (invalidate, z) (ref, e, f)
  | inr (old, z) ↦
      let gone = record old { kind = EventKind.invalid } in
      elim (Bool-cases (ident == other)) [
        | inl k ↦
            let same_key : ident ≡ other = ground arith in
            let same_ref : some old ≡ some ref = sym z ∙ ap (λ i. lookup i refs) same_key ∙ e in
            rw (invalidate, z)
              (gone, lookup_put ident other gone refs k, some_fd old ref same_ref ∙ f)
        | inr k ↦ rw (invalidate, z) (ref, lookup_beside ident other gone refs k ∙ e, f)
      ]
]

invalidate-AscendingFrom :
    (ident : ℕ) (refs : Table EventRef)
    → AscendingFrom 0 refs
    → AscendingFrom 0 (invalidate ident refs)
unfolding invalidate
invalidate-AscendingFrom ident refs a = elim (Option-cases (lookup ident refs)) [
  | inl z ↦ rw (invalidate, z) a
  | inr (old, z) ↦ rw (invalidate, z) (insert-AscendingFrom 0 ident _ refs a (omega arith))
]

-- Each reference of the table leads to an object for its descriptor, and none to an object that is to
-- be deleted.
pub record IsSound (refs : Table EventRef) (next : ℕ) (idents : Table ℕ) (stale : List ℕ)
    : Type 0 where
  pub ascending : AscendingFrom 0 idents
  pub refs_ascending : AscendingFrom 0 refs
  pub found : (fd ident : ℕ) → lookup fd idents ≡ some ident → IsRef ident fd refs
  pub made : (fd ident : ℕ) → lookup fd idents ≡ some ident → ident < next
  pub stale_made : (ident : ℕ) → holds ident stale ≡ true → ident < next
  pub unused : (fd ident : ℕ) → holds ident stale ≡ true → lookup fd idents ≢ some ident

abbrev pub HasRefs : Loop → Type 0
HasRefs s = IsSound s.refs s.refs_made s.event_refs s.stale_refs

module _ (fd : ℕ) (kind : EventKind) (s : Loop) (h : HasRefs s) where
  abbrev new_ref : EventRef
  new_ref = record { kind = kind; fd = fd }

  abbrev refs_after : Table EventRef
  refs_after = insert s.refs_made new_ref s.refs

  abbrev idents_after : Table ℕ
  idents_after = insert fd s.refs_made s.event_refs

  found_after :
      (other ident : ℕ) → lookup other idents_after ≡ some ident → IsRef ident other refs_after
  found_after other ident e = elim (Bool-cases (fd == other)) [
    | inl z ↦
        let k =
          some_eq s.refs_made ident (sym (lookup_put fd other s.refs_made s.event_refs z) ∙ e) in
        (
          new_ref,
          lookup_put s.refs_made ident new_ref s.refs (ground (arith, k)),
          ground (arith, z),
        )
    | inr z ↦
        let there = sym (lookup_beside fd other s.refs_made s.event_refs z) ∙ e in
        let (ref, k, f) = h.found other ident there in
        let older : (s.refs_made == ident) ≡ false = ground (arith, h.made other ident there) in
        (ref, lookup_beside s.refs_made ident new_ref s.refs older ∙ k, f)
  ]

  made_after : (other ident : ℕ) → lookup other idents_after ≡ some ident → ident < suc s.refs_made
  made_after other ident e = elim (Bool-cases (fd == other)) [
    | inl z ↦
        let k =
          some_eq s.refs_made ident (sym (lookup_put fd other s.refs_made s.event_refs z) ∙ e) in
        omega (arith, k)
    | inr z ↦
        omega
          (arith, h.made other ident (sym (lookup_beside fd other s.refs_made s.event_refs z) ∙ e))
  ]

  unused_after :
      (other ident : ℕ) → holds ident s.stale_refs ≡ true → lookup other idents_after ≢ some ident
  unused_after other ident stale e = elim (Bool-cases (fd == other)) [
    | inl z ↦
        let k =
          some_eq s.refs_made ident (sym (lookup_put fd other s.refs_made s.event_refs z) ∙ e) in
        absurd (omega (arith, k, h.stale_made ident stale))
    | inr z ↦
        h.unused other ident stale (sym (lookup_beside fd other s.refs_made s.event_refs z) ∙ e)
  ]

pub register-HasRefs :
    (system : System) (fd : ℕ) (kind : EventKind) (events : Interest) (s : Loop)
    → HasRefs s
    → HasRefs (register_event_fd system fd kind events s).1
unfolding register_event_fd
register-HasRefs system fd kind events s h = record {
  ascending = insert-AscendingFrom 0 fd _ s.event_refs h.ascending (omega arith);
  refs_ascending = insert-AscendingFrom 0 s.refs_made _ s.refs h.refs_ascending (omega arith);
  found = found_after fd kind s h;
  made = made_after fd kind s h;
  stale_made = λ ident e. omega (arith, h.stale_made ident e);
  unused = unused_after fd kind s h;
}

holds-append : (x : ℕ) (xs ys : List ℕ) → holds x (xs ++ ys) ≡ (holds x xs || holds x ys)
unfolding holds
holds-append x [] ys = refl
holds-append x (y ∷ xs) ys = elim (Bool-cases (y == x)) [
  | inl e ↦ rw e refl
  | inr e ↦ rw (e, holds-append x xs ys) refl
]

module _ (fd ident : ℕ) (s : Loop) (h : HasRefs s) (e : lookup fd s.event_refs ≡ some ident) where
  still_there :
      (other i : ℕ)
      → lookup other (erase fd s.event_refs) ≡ some i
      → ((fd == other) ≡ false) × (lookup other s.event_refs ≡ some i)
  still_there other i z = lookup_left 0 fd other i s.event_refs h.ascending z

  -- Two descriptors do not share an object.
  apart : (other : ℕ) → (fd == other) ≡ false → lookup other s.event_refs ≢ some ident
  apart other z k =
      let (r, rl, rf) = h.found fd ident e in
      let (q, ql, qf) = h.found other ident k in
      let one = some_fd r q (sym rl ∙ ql) in absurd (ground (arith, z, one, rf, qf))

  unused_without :
      (other i : ℕ)
      → holds i (s.stale_refs ++ ident ∷ []) ≡ true
      → lookup other (erase fd s.event_refs) ≢ some i
  unfolding holds
  unused_without other i m z =
      let (differs, there) = still_there other i z in
      let either : (holds i s.stale_refs || holds i (ident ∷ [])) ≡ true =
        sym (holds-append i s.stale_refs (ident ∷ [])) ∙ m in
      elim (Bool-cases (holds i s.stale_refs)) [
        | inl k ↦ h.unused other i k there
        | inr k ↦
            let is_it : ident ≡ i = ground (arith, either) in apart other differs (rw is_it there)
      ]

  stale_without : (i : ℕ) → holds i (s.stale_refs ++ ident ∷ []) ≡ true → i < s.refs_made
  unfolding holds
  stale_without i m =
      let either : (holds i s.stale_refs || holds i (ident ∷ [])) ≡ true =
        sym (holds-append i s.stale_refs (ident ∷ [])) ∙ m in
      elim (Bool-cases (holds i s.stale_refs)) [
        | inl k ↦ h.stale_made i k
        | inr k ↦ let is_it : ident ≡ i = ground (arith, either) in omega (arith, h.made fd ident e)
      ]

  without_ref :
      IsSound
        (invalidate ident s.refs)
        s.refs_made
        (erase fd s.event_refs)
        (s.stale_refs ++ ident ∷ [])
  without_ref = record {
    ascending = erase-AscendingFrom 0 fd s.event_refs h.ascending;
    refs_ascending = invalidate-AscendingFrom ident s.refs h.refs_ascending;
    found = λ other i z.
        invalidate-IsRef ident i other s.refs (h.found other i (still_there other i z).1);
    made = λ other i z. h.made other i (still_there other i z).1;
    stale_made = stale_without;
    unused = unused_without;
  }

unregister-HasRefs : (fd : ℕ) (s : Loop) → HasRefs s → HasRefs (unregister_event_fd fd s)
unfolding unregister_event_fd
unregister-HasRefs fd s h = elim (Option-cases (lookup fd s.event_refs)) [
  | inl e ↦ rw (unregister_event_fd, e) h
  | inr (ident, e) ↦ rw (unregister_event_fd, e) (without_ref fd ident s h e)
]

drop-HasRefs : (fd : ℕ) (s : Loop) → HasRefs s → HasRefs (drop_connection fd s)
unfolding drop_connection
drop-HasRefs fd s h = h

pub HasRefs-Stable : Stable HasRefs
HasRefs-Stable = record {
  on_same = λ s t e h. rw (e.1, e.2, e.3, e.4) h;
  on_put = λ fd old conn s e h. h;
  on_drop = drop-HasRefs;
  on_unregister = unregister-HasRefs;
}

pub HasRefs-Growing : Growing HasRefs
HasRefs-Growing = record {
  stable = HasRefs-Stable;
  on_register = register-HasRefs;
  on_add = λ now fd b cfg s h. h;
  on_hold = λ fd s h. h;
}

-- Deleting leaves the objects that are not listed.
delete_refs-IsRef :
    (ident fd from : ℕ) (idents : List ℕ) (refs : Table EventRef)
    → AscendingFrom from refs
    → holds ident idents ≡ false
    → IsRef ident fd refs
    → IsRef ident fd (delete_refs idents refs)
unfolding delete_refs holds
delete_refs-IsRef ident fd from [] refs a n r = r
delete_refs-IsRef ident fd from (x ∷ xs) refs a n (ref, e, f) =
    let other : (x == ident) ≡ false = ground (arith, n) in
    let rest : holds ident xs ≡ false = ground (arith, n) in
    delete_refs-IsRef ident fd from xs (erase x refs) (erase-AscendingFrom from x refs a) rest
      (ref, lookup-erase from x ident refs a ∙ rw other e, f)

delete_refs-AscendingFrom :
    (from : ℕ) (idents : List ℕ) (refs : Table EventRef)
    → AscendingFrom from refs
    → AscendingFrom from (delete_refs idents refs)
unfolding delete_refs
delete_refs-AscendingFrom from [] refs a = a
delete_refs-AscendingFrom from (x ∷ xs) refs a =
    delete_refs-AscendingFrom from xs (erase x refs) (erase-AscendingFrom from x refs a)

not-stale :
    (fd ident : ℕ) (s : Loop)
    → HasRefs s
    → lookup fd s.event_refs ≡ some ident
    → holds ident s.stale_refs ≡ false
not-stale fd ident s h e = elim (Bool-cases (holds ident s.stale_refs)) [
  | inl k ↦ absurd (h.unused fd ident k e)
  | inr k ↦ k
]

clear-HasRefs : (s : Loop) → HasRefs s → HasRefs (clear_stale s)
unfolding clear_stale holds
clear-HasRefs s h = record {
  ascending = h.ascending;
  refs_ascending = delete_refs-AscendingFrom 0 s.stale_refs s.refs h.refs_ascending;
  found = λ fd ident e.
      delete_refs-IsRef ident fd 0 s.stale_refs s.refs h.refs_ascending (not-stale fd ident s h e)
        (h.found fd ident e);
  made = h.made;
  stale_made = λ ident e. absurd (cc);
  unused = λ fd ident e. absurd (cc);
}

-- However many rounds the event loop goes, whatever events come and whatever the system answers, and
-- however the loop ends: if at the start each reference of the table leads to an object for its
-- descriptor and to none that is to be deleted, then so it is at the end; so no object is deleted
-- that the table still leads to.
pub run-HasRefs :
    (rounds : List (System × List Event)) (s : Loop) → HasRefs s → Keeps HasRefs (run rounds s)
run-HasRefs = Keeps-run HasRefs-Growing clear-HasRefs
