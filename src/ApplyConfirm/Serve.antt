-- ===== src/ApplyConfirm/Serve.antt =====
-- The requests of the webUI that reach an apply, its confirmation and its revert, what the waiting
-- unit and the hourly schedule check do, and the boot with an apply still pending. They come one
-- at a time: in the source all but a save of config.yaml and `rollback` hold the lock; that one of
-- these two falls inside another request is not modelled, nor is `firewall-cli apply`.
use fr_os_pblk.Base.{ℕ, String, Bool, true, Option, none, some, List, [], ◌∷◌, string_eq}
use fr_os_pblk.Provision.Apply.{apply_all}
use fr_os_pblk.ApplyConfirm.Store.{Store, Calls, confirm, restore_rejected, parsed}
use fr_os_pblk.ApplyConfirm.Revert.{at_boot, revert_by, revert, Turn, ended, sleeps, turn}
use fr_os_pblk.ApplyConfirm.Requests.{Circumstances, apply_locked, set_management_addresses}

-- `edit` saves config.yaml, `rolls_back` is the helper's `rollback`, `checks_schedule` a schedule
-- check that finds a boundary passed, `restarts` a boot while an apply is pending.
pub data Request : Type 0 where
  edit : String → Request
  apply : String → Bool → Circumstances → Request
  move : List String → Circumstances → Request
  confirms : String → Request
  reverts : String → Request
  restores : Request
  rolls_back : Request
  checks_schedule : Request
  restarts : Request
  wakes : ℕ → Request

abbrev pub after_turn : {W : Type 0} → Store W → Turn W → Store W
after_turn s (ended s') = s'
after_turn s (sleeps left) = s

module _ {W Config : Type 0} (calls : Calls W Config) where
  abbrev pub apply_parsed : Option Config → String → Bool → Circumstances → Store W → Store W
  apply_parsed none text confirm c s = s
  apply_parsed (some config) text confirm c s = (apply_locked calls c config text confirm s).0

  -- `_cmd_schedule_check`, under the lock: what config.yaml holds, whatever is pending.
  unfoldable pub schedule_check : Option String → Option Config → Store W → Store W
  schedule_check text none s = s
  schedule_check text (some config) s = record s {
    router = (apply_all calls.parse calls.subsystems calls.checks config text true s.router).0;
  }

  -- The helper's `rollback`: it takes no lock.
  unfoldable pub rollback : Store W → Store W
  rollback s = record s {
    router = record s.router { machine = calls.rollback_last s.router.machine };
  }

  unfoldable pub serve : Request → Store W → Store W
  serve (edit text) s = record s { config = some text }
  serve (apply text confirm c) s = apply_parsed (calls.parse text) text confirm c s
  serve (move addresses c) s = (set_management_addresses calls c addresses s).0
  serve (confirms id) s = (confirm id s).0
  serve (reverts why) s = (revert calls why s).0
  serve restores s = (restore_rejected calls.parse s).0
  serve rolls_back s = rollback s
  serve checks_schedule s = schedule_check s.config (parsed calls.parse s.config) s
  serve restarts s = (revert_by calls at_boot "the router restarted before it was confirmed" s).0
  serve (wakes now) s = after_turn s (turn calls now s)

  unfoldable pub serve_all : List Request → Store W → Store W
  serve_all [] s = s
  serve_all (request ∷ requests) s = serve_all requests (serve request s)
