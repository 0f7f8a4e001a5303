-- ===== src/ApplyConfirm/Revert.antt =====
-- `revert` and `wait` of src/frfw/apply_confirm.py.
use fr_os_pblk.Base.{
  ℕ, zero, suc, min, ◌+◌, ◌-◌, String, true, false, not, Option, none, some, List, [], ◌∷◌, leb,
  ◌==◌, string_eq, if◌then◌else◌,
}
use fr_os_pblk.Provision.Machinery.{Ending, applied, failed}
use fr_os_pblk.Provision.Apply.{Router, apply_all}
use fr_os_pblk.ApplyConfirm.Store.{
  Pending, Alert, went_back, not_gone_back, no_longer_valid, Store, Calls, Done, done,
  pending_error,
}

-- The unconfirmed config, kept if config.yaml can be read and is another text.
unfoldable pub kept : Option String → String → Option String → Option String
kept none previous rejected = rejected
kept (some unconfirmed) previous rejected =
    if not (unconfirmed == previous) then some unconfirmed else rejected

abbrev pub revert_alert : String → String → Ending → Alert
revert_alert why by (applied messages) = went_back why by
revert_alert why by (failed e) = not_gone_back why by e

abbrev pub revert_messages : Ending → List String
revert_messages (applied messages) = messages
revert_messages (failed e) = []

-- One turn of the loop of `wait`: its end, or how long to sleep.
pub data Turn (W : Type 0) : Type 0 where
  ended : Store W → Turn W
  sleeps : ℕ → Turn W

-- The `apply` that `revert` is called with: none, for `apply_all`, or the boot's `_boot_apply`.
pub data Applier : Type 0 where
  at_once : Applier
  at_boot : Applier

module _ {W Config : Type 0} (calls : Calls W Config) where
  -- The `except` of `_boot_apply`, with the router as the apply that failed leaves it.
  unfoldable pub boot_anyway : Config → Router W × Ending → Router W × Ending
  boot_anyway config (router, applied messages) = (router, applied messages)
  boot_anyway config (router, failed e) =
      apply_all calls.parse calls.subsystems calls.checks config none false router

  -- `_boot_apply` of src/frfw/cli.py
  unfoldable pub boot_apply : Config → String → Router W → Router W × Ending
  boot_apply config text r =
      boot_anyway config
        (apply_all calls.parse calls.subsystems calls.checks config (some text) true r)

  unfoldable pub run_applier : Applier → Config → String → Router W → Router W × Ending
  run_applier at_once config text r =
      apply_all calls.parse calls.subsystems calls.checks config (some text) true r
  run_applier at_boot config text r = boot_apply config text r

  -- What `revert` does after the apply of the previous config.
  unfoldable pub put_back :
      String → Pending → Store W → Router W × Ending → Store W × Done (List String)
  put_back why p s (router, ending) = (
    record {
      router = router;
      pending = none;
      config = some p.previous;
      rejected = kept s.config p.previous s.rejected;
      alerts = revert_alert why p.by ending ∷ s.alerts;
    },
    done (revert_messages ending),
  )

  unfoldable pub go_back :
      Applier → String → Pending → Option Config → Store W → Store W × Done (List String)
  go_back applier why p none s =
      (record s { pending = none; alerts = no_longer_valid why ∷ s.alerts }, done [])
  go_back applier why p (some previous) s =
      put_back why p s (run_applier applier previous p.previous s.router)

  unfoldable pub revert_waiting :
      Applier → String → Option Pending → Store W → Store W × Done (List String)
  revert_waiting applier why none s = (s, pending_error "No apply is waiting for confirmation")
  revert_waiting applier why (some p) s = go_back applier why p (calls.parse p.previous) s

  -- `revert`
  unfoldable pub revert_by : Applier → String → Store W → Store W × Done (List String)
  revert_by applier why s = revert_waiting applier why s.pending s

  -- `revert` without an `apply` of the caller's
  unfoldable pub revert : String → Store W → Store W × Done (List String)
  revert why s = revert_by at_once why s

  unfoldable pub turn_waiting : Option Pending → ℕ → Store W → Turn W
  turn_waiting none now s = ended s
  turn_waiting (some p) now s =
      if leb p.deadline now
      then ended (revert "no confirmation within the time" s).0
      else sleeps (min 1000 (p.deadline - now))

  unfoldable pub turn : ℕ → Store W → Turn W
  turn now s = turn_waiting s.pending now s

  -- `wait`: `others` is what other processes do to the store while it sleeps, and `oversleep` how
  -- much later than asked it wakes up.
  unfoldable pub wait : (ℕ → Store W → Store W) → (ℕ → ℕ) → ℕ → ℕ → Store W → Option (ℕ × Store W)
  wait others oversleep zero now s = none
  wait others oversleep (suc fuel) now s = elim (turn now s) [
    | ended s' ↦ some (now, s')
    | sleeps left ↦
        let woken = (now + left) + oversleep now in
        wait others oversleep fuel woken (others woken s)
  ]
