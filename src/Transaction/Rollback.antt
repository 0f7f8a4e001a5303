-- ===== src/Transaction/Rollback.antt =====
-- What a rollback does, whatever the undos do: each entry is undone once, the last one first.
use mathlib.Core.List.{
  Perm, map-append, append_assoc, append-nil, perm_middle, perm_append_singleton, reverse_perm,
}
use mathlib.Core.List.Perm
use fr_os_pblk.Base.{
  String, ◌≡◌, refl, sym, ◌∙◌, ap, Option, Option-cases, inl, inr, none, some, List, [], ◌∷◌, ◌++◌,
  map, reverse, arith, subst,
}
use fr_os_pblk.Transaction.{Undo, Entry, RolledBack, report, undo_entry, undo_all, roll_back}

module _ {W : Type 0} where
  abbrev pub names : List (Entry W) → List String
  names = map (λ entry. entry.name)

  -- The names that a rollback reports, done or failed.
  abbrev pub reported : RolledBack W → List String
  reported r = r.done ++ map (λ failure. failure.0) r.failed

  -- The machine after the undos alone: an entry without one changes nothing.
  abbrev pub apply_undo : Entry W → W → W
  apply_undo entry w = elim entry.undo [ none ↦ w | some undo ↦ (undo w).0 ]

  abbrev pub apply_undos : List (Entry W) → W → W
  apply_undos [] w = w
  apply_undos (entry ∷ entries) w = apply_undos entries (apply_undo entry w)

  undo_entry-machine :
      (entry : Entry W) (r : RolledBack W)
      → (undo_entry entry r).machine ≡ apply_undo entry r.machine
  unfolding undo_entry
  undo_entry-machine entry r = ground arith

  undo_none :
      (entry : Entry W) (r : RolledBack W)
      → entry.undo ≡ none
      → undo_entry entry r ≡ record r { failed = r.failed ++ (entry.name, entry.why_not) ∷ [] }
  unfolding undo_entry
  undo_none entry r h = ground arith

  undo_some :
      (entry : Entry W) (r : RolledBack W) (undo : Undo W)
      → entry.undo ≡ some undo
      → undo_entry entry r ≡ report entry r (undo r.machine)
  unfolding undo_entry
  undo_some entry r undo h = ground arith

  reported_fail :
      (r : RolledBack W) (name reason : String)
      → Perm (reported (record r { failed = r.failed ++ (name, reason) ∷ [] })) (name ∷ reported r)
  reported_fail r name reason =
      rw (map-append, ← append_assoc) (perm_append_singleton name (reported r))

  reported-report :
      (entry : Entry W) (r : RolledBack W) (w : W) (raised : Option String)
      → Perm (reported (report entry r (w, raised))) (entry.name ∷ reported r)
  reported-report entry r w none =
      rw append_assoc (perm_middle r.done (map (λ failure. failure.0) r.failed))
  reported-report entry r w (some reason) = reported_fail r entry.name reason

  undo_entry-reported :
      (entry : Entry W) (r : RolledBack W)
      → Perm (reported (undo_entry entry r)) (entry.name ∷ reported r)
  undo_entry-reported entry r = elim (Option-cases entry.undo) [
    | inl absent ↦
        subst (λ r'. Perm (reported r') (entry.name ∷ reported r)) (sym (undo_none entry r absent))
          (reported_fail r entry.name entry.why_not)
    | inr (undo, present) ↦
        subst (λ r'. Perm (reported r') (entry.name ∷ reported r))
          (sym (undo_some entry r undo present))
          (reported-report entry r (undo r.machine).0 (undo r.machine).1)
  ]

  undo_all-machine :
      (entries : List (Entry W)) (r : RolledBack W)
      → (undo_all entries r).machine ≡ apply_undos entries r.machine
  unfolding undo_all
  undo_all-machine [] r = refl
  undo_all-machine (entry ∷ entries) r =
      undo_all-machine entries (undo_entry entry r)
      ∙ ap (apply_undos entries) (undo_entry-machine entry r)

  undo_all-reported :
      (entries : List (Entry W)) (r : RolledBack W)
      → Perm (reported (undo_all entries r)) (names entries ++ reported r)
  unfolding undo_all
  undo_all-reported [] r = Perm.refl _
  undo_all-reported (entry ∷ entries) r =
      Perm.trans (undo_all-reported entries (undo_entry entry r)) (
        Perm.trans (Perm.append (Perm.refl (names entries)) (undo_entry-reported entry r))
          (perm_middle (names entries) (reported r)))

-- A rollback, whatever the undos do: the machine is what the undos make of it in reverse order,
-- each of them run once, also those after one that raised; and every journalled name is reported
-- exactly once, as rolled back or as not rolled back.
pub roll_back_lem :
    {W : Type 0} (entries : List (Entry W)) (w : W)
    → ((roll_back entries w).machine ≡ apply_undos (reverse entries) w)
      × Perm (reported (roll_back entries w)) (names entries)
unfolding roll_back
roll_back_lem entries w =
    let r : RolledBack _ = record { machine = w; done = []; failed = [] } in
    (
      undo_all-machine (reverse entries) r,
      Perm.trans (undo_all-reported (reverse entries) r)
          (rw append-nil (Perm.map (λ entry. entry.name) (reverse_perm entries))),
    )
