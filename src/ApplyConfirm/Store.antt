-- ===== src/ApplyConfirm/Store.antt =====
-- The pending apply, the files that record it, and how it begins, is confirmed and is loaded back.
use fr_os_pblk.Base.{
  ℕ, ◌+◌, ◌-◌, ◌*◌, ◌/◌, String, Bool, false, not, ◌&&◌, Option, none, some, List, ltb, ◌==◌,
  string_eq, if◌then◌else◌,
}
use fr_os_pblk.Transaction.{ApplyError}
use fr_os_pblk.Provision.Steps.{Subsystems}
use fr_os_pblk.Provision.Apply.{Router, Checks}

-- `Pending`. An id is the text of a token drawn by `begin`.
pub record Pending : Type 0 where
  pub id : String
  pub deadline : ℕ
  pub seconds : ℕ
  pub by : String
  pub addresses : List String
  pub previous : String

-- `Pending.remaining`, on whole milliseconds: the source rounds a float, `int(left + 0.999)`.
unfoldable pub remaining : Pending → ℕ → ℕ
remaining p now = ((p.deadline + 999) - now) / 1000

-- A security alert of a revert, with why, and who had applied.
pub data Alert : Type 0 where
  went_back : String → String → Alert
  not_gone_back : String → String → ApplyError → Alert
  no_longer_valid : String → Alert

-- The router, and the files beside it: apply-pending.json, config.yaml, the rejected config, and
-- the alerts raised so far.
pub record Store (W : Type 0) : Type 0 where
  pub router : Router W
  pub pending : Option Pending
  pub config : Option String
  pub rejected : Option String
  pub alerts : List Alert

-- What these modules call: the parser of a config, the apply, and what is read of a config.
pub record Calls (W Config : Type 0) : Type 0 where
  pub parse : String → Option Config
  pub subsystems : Subsystems W Config
  pub checks : Checks W Config
  pub confirm_apply_seconds : Config → ℕ
  pub moves_management : Config → Option Config → Option String
  pub reachable : Config → List String
  -- The text of a config with other management addresses.
  pub with_addresses : String → List String → String
  -- `rollback_last` of src/frfw/apply.py, which loads the last ruleset backup, if it can.
  pub rollback_last : W → W

-- How an operation ends: with its result, or with a PendingError or another exception.
pub data Done (A : Type 0) : Type 0 where
  done : A → Done A
  pending_error : String → Done A
  invalid_config : Done A

-- `needs_confirmation`
unfoldable pub needs_confirmation : ℕ → String → Option String → Bool
needs_confirmation seconds text none = false
needs_confirmation seconds text (some previous) = ltb 0 seconds && not (previous == text)

unfoldable pub parsed : {Config : Type 0} → (String → Option Config) → Option String → Option Config
parsed parse none = none
parsed parse (some text) = parse text

module _ {W : Type 0} where
  -- `begin`, with the token that it draws and the failure of the waiting unit to start.
  unfoldable pub begin :
      String
      → ℕ
      → String
      → List String
      → String
      → ℕ
      → Option String
      → Store W
      → Store W × Done Pending
  begin previous seconds by addresses id now (some problem) s =
      (record s { pending = none }, pending_error problem)
  begin previous seconds by addresses id now none s =
      let p : Pending = record {
        id = id;
        deadline = now + 1000 * seconds;
        seconds = seconds;
        by = by;
        addresses = addresses;
        previous = previous;
      } in
      (record s { pending = some p }, done p)

  unfoldable pub confirm_waiting : String → Option Pending → Store W → Store W × Done Pending
  confirm_waiting id none s = (s, pending_error "No apply is waiting for confirmation")
  confirm_waiting id (some p) s =
      if id == p.id
      then (record s { pending = none }, done p)
      else (s, pending_error "That is not the apply waiting for confirmation")

  -- `confirm`
  unfoldable pub confirm : String → Store W → Store W × Done Pending
  confirm id s = confirm_waiting id s.pending s

  unfoldable pub load_rejected :
      {Config : Type 0} → Option String → Option Config → Store W → Store W × Done String
  load_rejected none config s = (s, pending_error "There is no unconfirmed config to load")
  load_rejected (some text) none s = (s, invalid_config)
  load_rejected (some text) (some config) s =
      (record s { config = some text; rejected = none }, done text)

  unfoldable pub unless_pending :
      {A : Type 0} → Option Pending → Store W → Store W × Done A → Store W × Done A
  unless_pending none s r = r
  unless_pending (some p) s r = (s, pending_error "Confirm or revert the pending apply first")

  -- `restore_rejected`
  unfoldable pub restore_rejected :
      {Config : Type 0} → (String → Option Config) → Store W → Store W × Done String
  restore_rejected parse s =
      unless_pending s.pending s (load_rejected s.rejected (parsed parse s.rejected) s)
