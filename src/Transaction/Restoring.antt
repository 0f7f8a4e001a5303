-- ===== src/Transaction/Restoring.antt =====
-- A rollback in which every undo takes back its own step.
use mathlib.Core.List.{map-append, reverse-append, append_assoc, append-nil}
use fr_os_pblk.Base.{String, ◌≡◌, ◌∙◌, ap, Option, none, some, List, [], ◌∷◌, ◌++◌, reverse}
use fr_os_pblk.Transaction.{Undo, Entry, RolledBack, begin, report, undo_entry, undo_all, roll_back}
use fr_os_pblk.Transaction.Rollback.{names}

module _ {W : Type 0} where
  -- Undoing `entries` takes the machine `w` to `w₀`, and every undo succeeds.
  unfoldable pub RollsTo : List (Entry W) → W → W → Type 0
  RollsTo entries w w₀ =
      (done : List String)
      → undo_all (reverse entries) (record { machine = w; done = done; failed = [] })
        ≡ record { machine = w₀; done = done ++ reverse (names entries); failed = [] }

  pub RollsTo-nil : (w : W) → RollsTo [] w w
  unfolding RollsTo undo_all
  RollsTo-nil w done = rw append-nil

  pub RollsTo-begin :
      (entries : List (Entry W)) (name why_not : String) (u : Undo W) (w w' w₀ : W)
      → RollsTo entries w w₀
      → u w' ≡ (w, none)
      → RollsTo (begin name (some u) why_not entries) w' w₀
  unfolding RollsTo begin undo_all undo_entry
  RollsTo-begin entries name why_not u w w' w₀ back undone done =
      let ending : List String → RolledBack W =
        λ l. record { machine = w₀; done = l; failed = [] } in
      let entry : Entry W = record { name = name; undo = some u; why_not = why_not } in
      let r : RolledBack W = record { machine = w'; done = done; failed = [] } in
      let first : W × Option String → RolledBack W =
        λ p. undo_all (reverse entries) (report entry r p) in
      rw (reverse-append, map-append)
        (rw reverse-append (
          ap first undone
          ∙ back (done ++ name ∷ [])
          ∙ ap ending (append_assoc done (name ∷ []) (reverse (names entries)))))

  pub RollsTo-roll_back :
      (entries : List (Entry W)) (w w₀ : W)
      → RollsTo entries w w₀
      → roll_back entries w ≡ record { machine = w₀; done = reverse (names entries); failed = [] }
  unfolding RollsTo roll_back
  RollsTo-roll_back entries w w₀ h = h []
