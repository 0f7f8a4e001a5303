-- ===== src/Provision/Machinery.antt =====
-- `_Run` of src/frfw/provision.py: one pass of the steps, journalled, and rolled back on failure.
use fr_os_pblk.Base.{
  String, Bool, true, false, Option, none, some, List, [], ◌∷◌, ◌++◌, if◌then◌else◌,
}
use fr_os_pblk.Transaction.{Undo, Entry, ApplyError, begin, roll_back}

-- An exception of a step: an ApplyError, an NftError, or any other with its text.
pub data Raised : Type 0 where
  apply_error : ApplyError → Raised
  nft_error : String → Raised
  other : String → Raised

pub data Result (A : Type 0) : Type 0 where
  ok : A → Result A
  err : Raised → Result A

-- Work on the machine that returns messages, or raises with part of it done.
abbrev pub Work : Type 0 → Type 0
Work W = W → W × Result (List String)

-- How a step starts: `self.begin`, if its condition holds, with what is read of the machine for
-- the undo; or only by setting `self.step`.
pub data Opening (W : Type 0) : Type 0 where
  begins : (W → Bool) → (W → Result (Option (Undo W) × String)) → Opening W
  only_named : Opening W

pub record Step (W : Type 0) : Type 0 where
  pub name : String
  pub opening : Opening W
  pub work : Work W

-- The fields of `_Run`. The journal is None for the boot's last resort.
pub record Run (W : Type 0) : Type 0 where
  pub step : String
  pub changed : Bool
  pub journal : Option (List (Entry W))

-- A pass of the steps: the machine, the run and the result or exception at its end.
pub record Pass (W : Type 0) : Type 0 where
  pub machine : W
  pub run : Run W
  pub result : Result (List String)

-- What `apply_all` ends with: the machine, and the messages or the ApplyError.
pub data Ending : Type 0 where
  applied : List String → Ending
  failed : ApplyError → Ending

abbrev pub reading : String
reading = "reading the firewall's live sets"

abbrev pub last_resort : String
last_resort = "everything before it (boot's last-resort apply, no rollback)"

abbrev pub cause : Raised → String
cause (apply_error e) = e.cause
cause (nft_error text) = text
cause (other text) = text

-- `except NftError` around the reading of the live sets.
unfoldable pub live_sets_error : String → Raised → Raised
live_sets_error step (nft_error text) =
    apply_error (record {
      step = step;
      cause = text;
      changed = false;
      rolled_back = [];
      not_rolled_back = [];
    })
live_sets_error step e = e

module _ {W : Type 0} where
  -- `_Run.begin`
  unfoldable pub begin_step : String → Option (Undo W) → String → Run W → Run W
  unfolding begin
  begin_step name undo why_not run = elim run.journal [
    | none ↦ record run { step = name }
    | some entries ↦ record {
      step = name;
      changed = true;
      journal = some (begin name undo why_not entries);
    }
  ]

  unfoldable pub opened : String → Run W → Result (Option (Undo W) × String) → Result (Run W)
  opened name run (err e) = err e
  opened name run (ok (undo, why_not)) = ok (begin_step name undo why_not run)

  unfoldable pub enter : String → Opening W → Run W → W → Result (Run W)
  enter name only_named run w = ok (record run { step = name })
  enter name (begins touched read) run w = if touched w then opened name run (read w) else ok run

  -- The steps in their order; the first exception ends them.
  unfoldable pub run_steps : List (Step W) → Run W → W → List String → Pass W
  run_steps [] run w messages = record { machine = w; run = run; result = ok messages }
  run_steps (step ∷ steps) run w messages = elim (enter step.name step.opening run w) [
    | err e ↦ record { machine = w; run = run; result = err e }
    | ok run' ↦ elim (step.work w).1 [
      | err e ↦ record { machine = (step.work w).0; run = run'; result = err e }
      | ok more ↦ run_steps steps run' (step.work w).0 (messages ++ more)
    ]
  ]

  -- `_steps`: the firewall's live sets are read before any step.
  unfoldable pub all_steps : (W → Result (Unit {0})) → List (Step W) → Run W → W → Pass W
  all_steps read_live_sets steps run w =
      let run' = record run { step = reading } in
      elim (read_live_sets w) [
        | ok _ ↦ run_steps steps run' w []
        | err e ↦ record { machine = w; run = run'; result = err (live_sets_error reading e) }
      ]

  unfoldable pub failed_pass : Pass W → String → W × Ending
  failed_pass p text = elim p.run.journal [
    | none ↦ (
      p.machine,
      failed (record {
        step = p.run.step;
        cause = text;
        changed = true;
        rolled_back = [];
        not_rolled_back = (last_resort, "") ∷ [];
      }),
    )
    | some entries ↦
        let back = roll_back entries p.machine in
        (
          back.machine,
          failed (record {
            step = p.run.step;
            cause = text;
            changed = p.run.changed;
            rolled_back = back.done;
            not_rolled_back = back.failed;
          }),
        )
  ]

  -- The handlers of `_Run.run`.
  unfoldable pub fail_with : Pass W → Raised → W × Ending
  fail_with p (apply_error e) = (p.machine, failed e)
  fail_with p (nft_error text) = failed_pass p text
  fail_with p (other text) = failed_pass p text

  -- `_Run.run`
  unfoldable pub end_pass : Pass W → W × Ending
  end_pass p = elim p.result [ ok messages ↦ (p.machine, applied messages) | err e ↦ fail_with p e ]

  abbrev pub new_run : Bool → Run W
  new_run transactional = record {
    step = "";
    changed = false;
    journal = if transactional then some [] else none;
  }

  unfoldable pub run_all : (W → Result (Unit {0})) → List (Step W) → Bool → W → W × Ending
  run_all read_live_sets steps transactional w =
      end_pass (all_steps read_live_sets steps (new_run transactional) w)
