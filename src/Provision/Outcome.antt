-- ===== src/Provision/Outcome.antt =====
-- What an apply leaves behind: the router as it was, or the new config on record.
use fr_os_pblk.Base.{
  String, ◌≡◌, refl, sym, ap, Bool, true, false, Option, none, some, List, [], ◌∷◌, arith, subst,
  All, Option-cases, inl, inr, if◌then◌else◌,
}
use fr_os_pblk.Transaction.{ApplyError}
use fr_os_pblk.Provision.Machinery.{Ending, applied, failed}
use fr_os_pblk.Provision.Steps.{Subsystems, steps, firewall_undo}
use fr_os_pblk.Provision.Restored.{Plain, AllUndone, Restores, run_all-Restores}
use fr_os_pblk.Provision.Unchanged.{IsPlain, Silent, run_all-Silent}
use fr_os_pblk.Provision.Apply.{
  Router, Check, Checks, checks, first_failure, preflight, load_applied_config, record_applied,
  run_steps_of, apply_all,
}

module _ {W : Type 0} where
  first_failure-changed :
      (checks : List (String × Check W)) (w : W) (e : ApplyError)
      → first_failure checks w ≡ some e
      → (e.changed ≡ false) × (e.not_rolled_back ≡ [])
  unfolding first_failure
  first_failure-changed [] w e h = ground arith
  first_failure-changed ((step, check) ∷ rest) w e h = elim (Option-cases (check w)) [
    | inl passed ↦ first_failure-changed rest w e (rw passed at h)
    | inr (text, refused) ↦ ground arith
  ]

  tested_failure-changed :
      (checks : List (String × Check W)) (tested : Bool) (w : W) (e : ApplyError)
      → (if tested then first_failure checks w else none) ≡ some e
      → (e.changed ≡ false) × (e.not_rolled_back ≡ [])
  tested_failure-changed checks true w e h = first_failure-changed checks w e h
  tested_failure-changed checks false w e h = ground arith

  -- On success the text of the new config is on record, if there is one; on failure the record is
  -- as it was.
  abbrev pub Records : Option String → Router W → Router W × Ending → Type 0
  Records none r (r', applied messages) = r'.recorded ≡ r.recorded
  Records (some text) r (r', applied messages) = r'.recorded ≡ some text
  Records source r (r', failed e) = r'.recorded ≡ r.recorded

  abbrev pub LeavesRouter : Router W → Router W × Ending → Type 0
  LeavesRouter r (r', applied messages) = Unit
  LeavesRouter r (r', failed e) = (r' ≡ r) × (e.not_rolled_back ≡ [])

  refused-Records :
      (source : Option String) (r : Router W) (e : ApplyError) → Records source r (r, failed e)
  refused-Records none r e = refl
  refused-Records (some text) r e = refl

  record_applied-Records :
      (source : Option String) (r : Router W) (ending : W × Ending)
      → Records source r (record_applied source r ending)
  unfolding record_applied
  record_applied-Records none r (w, applied messages) = refl
  record_applied-Records none r (w, failed e) = refl
  record_applied-Records (some text) r (w, applied messages) = refl
  record_applied-Records (some text) r (w, failed e) = refl

  record_applied-LeavesRouter :
      (source : Option String) (r : Router W) (ending : W × Ending)
      → Restores r.machine ending
      → LeavesRouter r (record_applied source r ending)
  unfolding record_applied
  record_applied-LeavesRouter none r (w, applied messages) h = tt
  record_applied-LeavesRouter (some text) r (w, applied messages) h = tt
  record_applied-LeavesRouter none r (w, failed e) (same, all) =
      (ap (λ v. record r { machine = v }) same, all)
  record_applied-LeavesRouter (some text) r (w, failed e) (same, all) =
      (ap (λ v. record r { machine = v }) same, all)

module _ {W Config : Type 0} (parse : String → Option Config) (c : Checks W Config)
    (s : Subsystems W Config) (config : Config) (source : Option String) (transactional : Bool)
    (r : Router W) where
  abbrev pub preflighted : Option ApplyError
  preflighted = if transactional then preflight c config r.machine else none

  apply_all_refused :
      (e : ApplyError)
      → preflighted ≡ some e
      → apply_all parse s c config source transactional r ≡ (r, failed e)
  unfolding apply_all
  apply_all_refused e h = ground arith

  apply_all_run :
      preflighted ≡ none
      → apply_all parse s c config source transactional r
        ≡ record_applied source r (run_steps_of parse s config transactional r)
  unfolding apply_all
  apply_all_run h = ground arith

  preflighted-changed :
      (e : ApplyError) → preflighted ≡ some e → (e.changed ≡ false) × (e.not_rolled_back ≡ [])
  unfolding preflight
  preflighted-changed e h = tested_failure-changed (checks c config) transactional r.machine e h

  apply_all-cases :
      (P : Router W × Ending → Type 0)
      → ((e : ApplyError) → (e.changed ≡ false) × (e.not_rolled_back ≡ []) → P (r, failed e))
      → P (record_applied source r (run_steps_of parse s config transactional r))
      → P (apply_all parse s c config source transactional r)
  apply_all-cases P refused ran = elim (Option-cases preflighted) [
    | inl none_failed ↦ subst P (sym (apply_all_run none_failed)) ran
    | inr (e, failure) ↦
        subst P (sym (apply_all_refused e failure)) (refused e (preflighted-changed e failure))
  ]

  -- An apply that succeeds leaves the new config's text on record as applied; one without a text,
  -- and one that fails for whatever reason, leave the record as it was.
  pub apply_all-Records : Records source r (apply_all parse s c config source transactional r)
  apply_all-Records =
      apply_all-cases (Records source r) (λ e facts. refused-Records source r e)
        (record_applied-Records source r (run_steps_of parse s config transactional r))

module _ {W Config : Type 0} (parse : String → Option Config) (s : Subsystems W Config)
    (config : Config) (transactional : Bool) (r : Router W) where
  -- The run of the steps of an apply, of either kind and before its text is recorded, whose
  -- subsystems raise no ApplyError of their own: if it fails, its error says that something was
  -- changed, or the machine is what it was before.
  pub run_steps_of-Silent :
      Plain (s.read_live_sets config r.machine)
      → All IsPlain (steps s config (load_applied_config parse r.recorded))
      → Silent r.machine (run_steps_of parse s config transactional r)
  unfolding run_steps_of steps
  run_steps_of-Silent plain all =
      run_all-Silent (s.read_live_sets config) "the firewall"
        (firewall_undo s config (load_applied_config parse r.recorded)) (s.firewall config) _
        transactional r.machine plain all

module _ {W Config : Type 0} (parse : String → Option Config) (c : Checks W Config)
    (s : Subsystems W Config) (config : Config) (source : Option String) (r : Router W) where
  -- A transactional apply in which each step, at the machine that the steps before it leave, is
  -- taken back by the undo that it journals: if it fails, in the checks, while a step's undo is
  -- captured or half way through a step's work, the machine and the record are what they were
  -- before, and nothing is reported as not rolled back.
  pub apply_all-restores :
      Plain (s.read_live_sets config r.machine)
      → AllUndone (steps s config (load_applied_config parse r.recorded)) r.machine
      → LeavesRouter r (apply_all parse s c config source true r)
  unfolding run_steps_of
  apply_all-restores plain all =
      apply_all-cases parse c s config source true r (LeavesRouter r) (λ e facts. (refl, facts.1))
        (record_applied-LeavesRouter source r (run_steps_of parse s config true r) (
          run_all-Restores (s.read_live_sets config)
            (steps s config (load_applied_config parse r.recorded)) r.machine plain all))
