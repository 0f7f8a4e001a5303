-- ===== src/Transaction/Tests.antt =====
-- A rollback of three steps: one undone, one that cannot be, and one whose undo raises.
use fr_os_pblk.Base.{ℕ, ◌+◌, ◌≡◌, refl, none, some, List, [], ◌∷◌, reverse}
use fr_os_pblk.Transaction.{Entry, roll_back, undo_all, undo_entry}
use fr_os_pblk.Transaction.Rollback.{names, reported, apply_undos, roll_back_lem}
use mathlib.Core.List.{Perm}

abbrev entries : List (Entry ℕ)
entries =
    record { name = "first"; undo = some (λ w. (w + 1, none)); why_not = "" }
    ∷ record { name = "second"; undo = none; why_not = "unknown" }
    ∷ record { name = "third"; undo = some (λ w. (w + 10, some "no such file")); why_not = "" }
    ∷ []

back : roll_back entries 100 ≡ record {
  machine = 111;
  done = "first" ∷ [];
  failed = ("third", "no such file") ∷ ("second", "unknown") ∷ [];
}
unfolding roll_back undo_all undo_entry
back = refl

roll_back_lem_example :
    ((roll_back entries 100).machine ≡ apply_undos (reverse entries) 100)
    × Perm (reported (roll_back entries 100)) (names entries)
roll_back_lem_example = roll_back_lem entries 100
