-- ===== src/ApplyConfirm/Back.antt =====
-- Going back: what a revert leaves, and the unconfirmed config loaded back into config.yaml.
use fr_os_pblk.Base.{
  String, ◌≡◌, ◌≢◌, refl, sym, ap, ◌∙◌, true, false, Option, none, some, List, ◌∷◌, arith, subst,
  inl, inr, ◌⊎◌, string_eq, beq_ne,
}
use fr_os_pblk.Transaction.{ApplyError}
use fr_os_pblk.Provision.Machinery.{Ending, applied, failed}
use fr_os_pblk.Provision.Apply.{Router, apply_all}
use fr_os_pblk.ApplyConfirm.Store.{
  Pending, went_back, not_gone_back, no_longer_valid, Store, Calls, done, restore_rejected,
  unless_pending, load_rejected, parsed,
}
use fr_os_pblk.ApplyConfirm.Revert.{
  Applier, at_once, at_boot, boot_anyway, boot_apply, run_applier, kept, revert_by, revert_waiting,
  go_back, put_back,
}

module _ {W Config : Type 0} (calls : Calls W Config) where
  -- The applies of a config and its text, from a router on, that a revert makes, and how they end:
  -- one, as a transaction; or at boot, when that fails, a second one from what it left, of which
  -- no step is rolled back and which is not recorded.
  pub data Reapplies (config : Config) (text : String) (r : Router W)
      : Applier → Router W × Ending → Type 0 where
    succeeds :
        {applier : Applier}
        → {r' : Router W} → {messages : List String}
        → apply_all calls.parse calls.subsystems calls.checks config (some text) true r
          ≡ (r', applied messages)
        → Reapplies config text r applier (r', applied messages)
    fails :
        {r' : Router W}
        → {e : ApplyError}
        → apply_all calls.parse calls.subsystems calls.checks config (some text) true r
          ≡ (r', failed e)
        → Reapplies config text r at_once (r', failed e)
    goes_as_far_as_it_can :
        {r' : Router W}
        → {e : ApplyError} → {result : Router W × Ending}
        → apply_all calls.parse calls.subsystems calls.checks config (some text) true r
          ≡ (r', failed e)
        → apply_all calls.parse calls.subsystems calls.checks config none false r' ≡ result
        → Reapplies config text r at_boot result

  -- The config before was applied again, and the alert says how that ended; nothing waits,
  -- config.yaml is the config before again, and the config that it held is kept.
  pub record GoneBack (applier : Applier) (why : String) (p : Pending) (config : Config)
      (s s' : Store W) : Type 0 where
    pub idle : s'.pending ≡ none
    pub config_file : s'.config ≡ some p.previous
    pub rejected : s'.rejected ≡ kept s.config p.previous s.rejected
    pub told :
        ((messages : List String) × Reapplies config p.previous s.router applier
            (s'.router, applied messages)
          × (s'.alerts ≡ went_back why p.by ∷ s.alerts))
        ⊎ ((e : ApplyError) × Reapplies config p.previous s.router applier (s'.router, failed e)
            × (s'.alerts ≡ not_gone_back why p.by e ∷ s.alerts))

  abbrev pub Reverted : Applier → String → Pending → Store W → Store W → Type 0
  Reverted applier why p s s' =
      ((config : Config) × (calls.parse p.previous ≡ some config)
        × GoneBack applier why p config s s')
      ⊎ ((calls.parse p.previous ≡ none)
          × (s' ≡ record s { pending = none; alerts = no_longer_valid why ∷ s.alerts }))

module _ {W Config : Type 0} (calls : Calls W Config) where
  booted-Reapplies :
      (config : Config) (text : String) (r : Router W) (result : Router W × Ending)
      → apply_all calls.parse calls.subsystems calls.checks config (some text) true r ≡ result
      → Reapplies calls config text r at_boot (boot_anyway calls config result)
  unfolding boot_anyway
  booted-Reapplies config text r (r', applied messages) h = succeeds h
  booted-Reapplies config text r (r', failed e) h = goes_as_far_as_it_can h refl

  once-Reapplies :
      (config : Config) (text : String) (r : Router W) (result : Router W × Ending)
      → apply_all calls.parse calls.subsystems calls.checks config (some text) true r ≡ result
      → Reapplies calls config text r at_once result
  once-Reapplies config text r (r', applied messages) h = succeeds h
  once-Reapplies config text r (r', failed e) h = fails h

  run_applier-Reapplies :
      (applier : Applier) (config : Config) (text : String) (r : Router W)
      → Reapplies calls config text r applier (run_applier calls applier config text r)
  unfolding run_applier boot_apply
  run_applier-Reapplies at_once config text r = once-Reapplies config text r _ refl
  run_applier-Reapplies at_boot config text r = booted-Reapplies config text r _ refl

module _ {W Config : Type 0} (calls : Calls W Config) (applier : Applier) (why : String)
    (p : Pending) where
  put_back-GoneBack :
      (config : Config) (s : Store W) (result : Router W × Ending)
      → Reapplies calls config p.previous s.router applier result
      → GoneBack calls applier why p config s (put_back calls why p s result).0
  unfolding put_back
  put_back-GoneBack config s (router, applied messages) ran = record {
    idle = refl;
    config_file = refl;
    rejected = refl;
    told = inl (messages, ran, refl);
  }
  put_back-GoneBack config s (router, failed e) ran = record {
    idle = refl;
    config_file = refl;
    rejected = refl;
    told = inr (e, ran, refl);
  }

  go_back-Reverted :
      (previous : Option Config) (s : Store W)
      → calls.parse p.previous ≡ previous
      → Reverted calls applier why p s (go_back calls applier why p previous s).0
  unfolding go_back
  go_back-Reverted none s h = inr (h, refl)
  go_back-Reverted (some config) s h = inl (
    config,
    h,
    put_back-GoneBack config s _ (run_applier-Reapplies calls applier config p.previous s.router),
  )

  -- A revert of a pending apply, by the admin, the waiting unit or at boot. If the text before is
  -- still valid, it is applied again as a transaction, at boot also as far as it goes when that
  -- fails; the alert says whether the last of these applies succeeded, and either way config.yaml
  -- is that text, what it held is kept if it is another text, and nothing is pending. If the text
  -- before is not valid any more, only the pending apply is forgotten, with an alert.
  pub revert_by-Reverted :
      (s : Store W)
      → s.pending ≡ some p
      → Reverted calls applier why p s (revert_by calls applier why s).0
  unfolding revert_by revert_waiting
  revert_by-Reverted s h =
      subst (λ w. Reverted calls applier why p s (revert_waiting calls applier why w s).0) (sym h)
        (go_back-Reverted (calls.parse p.previous) s refl)

module _ {W Config : Type 0} (calls : Calls W Config) (applier : Applier) (why : String)
    (p : Pending) where
  kept_of :
      (s s' : Store W) (config : Config)
      → calls.parse p.previous ≡ some config
      → Reverted calls applier why p s s'
      → (s'.pending ≡ none) × (s'.rejected ≡ kept s.config p.previous s.rejected)
  kept_of s s' config parses (inl (other, valid, back)) = (back.idle, back.rejected)
  kept_of s s' config parses (inr (invalid, forgotten)) = ground (arith, parses, invalid)

  kept_other :
      (text : String) (rejected : Option String)
      → text ≢ p.previous
      → kept (some text) p.previous rejected ≡ some text
  unfolding kept
  kept_other text rejected other = rw (beq_ne text p.previous other) refl

  restore_idle :
      (text : String) (config : Config) (waiting : Option Pending) (rejected : Option String)
      (s : Store W)
      → waiting ≡ none
      → rejected ≡ some text
      → calls.parse text ≡ some config
      → unless_pending waiting s (load_rejected rejected (parsed calls.parse rejected) s)
        ≡ (record s { config = some text; rejected = none }, done text)
  unfolding unless_pending load_rejected parsed
  restore_idle text config waiting rejected s idle h parses = rw (idle, h, parses) refl

  -- A revert to a text that is still valid, of a store whose config.yaml then holds another valid
  -- text: loading the unconfirmed config back puts that other text into config.yaml again and
  -- changes nothing else.
  pub restore_rejected-revert_by :
      (s : Store W) (text : String) (config previous : Config)
      → calls.parse p.previous ≡ some previous
      → s.pending ≡ some p
      → s.config ≡ some text
      → text ≢ p.previous
      → calls.parse text ≡ some config
      → let s' = (revert_by calls applier why s).0 in
        restore_rejected calls.parse s'
        ≡ (record s' { config = some text; rejected = none }, done text)
  unfolding restore_rejected
  restore_rejected-revert_by s text config previous valid h held other parses =
      let s' = (revert_by calls applier why s).0 in
      let (idle, keeps) =
        kept_of s s' previous valid (revert_by-Reverted calls applier why p s h) in
      let same : kept s.config p.previous s.rejected ≡ some text =
        ap (λ c. kept c p.previous s.rejected) held ∙ kept_other text s.rejected other in
      restore_idle text config s'.pending s'.rejected s' idle (keeps ∙ same) parses
