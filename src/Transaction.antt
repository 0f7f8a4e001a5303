-- ===== src/Transaction.antt =====
-- src/frfw/transaction.py: the undo journal of one apply. `W` is the state of the machine that an
-- undo acts on. A raised exception is its text, `str(exc) or type(exc).__name__`.
pub mod Rollback
pub mod Restoring
mod Tests
use fr_os_pblk.Base.{String, Bool, Option, none, some, List, [], ◌∷◌, ◌++◌, reverse}

-- An action on the machine: what it leaves, and the exception if it raised one.
abbrev pub Undo : Type 0 → Type 0
Undo W = W → W × Option String

-- `_Entry`
pub record Entry (W : Type 0) : Type 0 where
  pub name : String
  pub undo : Option (Undo W)
  pub why_not : String

-- What `roll_back` returns, and the machine after it. A name in `failed` has its reason beside it.
pub record RolledBack (W : Type 0) : Type 0 where
  pub machine : W
  pub done : List String
  pub failed : List (String × String)

-- `ApplyError`
pub record ApplyError : Type 0 where
  pub step : String
  pub cause : String
  pub changed : Bool
  pub rolled_back : List String
  pub not_rolled_back : List (String × String)

module _ {W : Type 0} where
  -- `Transaction.begin`
  unfoldable pub begin : String → Option (Undo W) → String → List (Entry W) → List (Entry W)
  begin name undo why_not entries =
      entries ++ record { name = name; undo = undo; why_not = why_not } ∷ []

  abbrev pub report : Entry W → RolledBack W → W × Option String → RolledBack W
  report entry r (w, none) = record {
    machine = w;
    done = r.done ++ entry.name ∷ [];
    failed = r.failed;
  }
  report entry r (w, some reason) = record {
    machine = w;
    done = r.done;
    failed = r.failed ++ (entry.name, reason) ∷ [];
  }

  -- The body of the loop over the entries.
  unfoldable pub undo_entry : Entry W → RolledBack W → RolledBack W
  undo_entry entry r = elim entry.undo [
    | none ↦ record r { failed = r.failed ++ (entry.name, entry.why_not) ∷ [] }
    | some undo ↦ report entry r (undo r.machine)
  ]

  unfoldable pub undo_all : List (Entry W) → RolledBack W → RolledBack W
  undo_all [] r = r
  undo_all (entry ∷ entries) r = undo_all entries (undo_entry entry r)

  -- `Transaction.roll_back`; the journal is empty afterwards.
  unfoldable pub roll_back : List (Entry W) → W → RolledBack W
  unfolding undo_all undo_entry
  roll_back entries w = undo_all (reverse entries) (record { machine = w; done = []; failed = [] })
