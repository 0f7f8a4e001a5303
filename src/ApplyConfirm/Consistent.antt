-- ===== src/ApplyConfirm/Consistent.antt =====
-- What holds of the store between the operations: after an apply, and after a revert.
use fr_os_pblk.Base.{
  String, ◌≡◌, refl, sym, ap, ◌∙◌, true, false, Option, none, some, arith, subst, inl, inr,
  string_eq,
}
use fr_os_pblk.Provision.Machinery.{Ending, applied, failed}
use fr_os_pblk.Provision.Apply.{Router, apply_all}
use fr_os_pblk.Provision.Outcome.{Records, apply_all-Records}
use fr_os_pblk.ApplyConfirm.Store.{Pending, Store, Calls}
use fr_os_pblk.ApplyConfirm.Revert.{
  Applier, at_once, at_boot, boot_anyway, boot_apply, run_applier, revert_by, revert_waiting,
  go_back, put_back,
}
use fr_os_pblk.ApplyConfirm.Applies.{Applies}

module _ {W Config : Type 0} (calls : Calls W Config) where
  abbrev pub Parses : String → Type 0
  Parses text = (config : Config) × (calls.parse text ≡ some config)

  -- The text on record as applied parses; so does the one that a pending apply would go back to,
  -- and there is a text on record then.
  pub record IsConsistent (s : Store W) : Type 0 where
    pub record_parses : (text : String) → s.router.recorded ≡ some text → Parses text
    pub previous_parses : (p : Pending) → s.pending ≡ some p → Parses p.previous
    pub on_record :
        (p : Pending) → s.pending ≡ some p → (text : String) × (s.router.recorded ≡ some text)

  -- The record and the pending apply alone decide.
  pub same-IsConsistent :
      (s s' : Store W)
      → s'.router.recorded ≡ s.router.recorded
      → s'.pending ≡ s.pending
      → IsConsistent s
      → IsConsistent s'
  same-IsConsistent s s' r p v = record {
    record_parses = λ text h. v.record_parses text (sym r ∙ h);
    previous_parses = λ q h. v.previous_parses q (sym p ∙ h);
    on_record = λ q h. let (text, recorded) = v.on_record q (sym p ∙ h) in (text, r ∙ recorded);
  }

  -- Nothing is pending, and what is on record parses.
  pub settled-IsConsistent :
      (s : Store W)
      → ((text : String) → s.router.recorded ≡ some text → Parses text)
      → s.pending ≡ none
      → IsConsistent s
  settled-IsConsistent s parses idle = record {
    record_parses = parses;
    previous_parses = λ q h. ground arith;
    on_record = λ q h. ground arith;
  }

  recorded_text : {text other : String} → some text ≡ some other → text ≡ other
  recorded_text h = ground arith

  the_pending : {p q : Pending} → some p ≡ some q → p ≡ q
  the_pending {p = p} h = ap (λ o. elim o [ none ↦ p | some r ↦ r ]) h

  pub text-Parses :
      (text : String)
      → Parses text
      → (recorded : Option String) → recorded ≡ some text
      → (other : String) → recorded ≡ some other
      → Parses other
  text-Parses text parses recorded h other i = subst Parses (recorded_text (sym h ∙ i)) parses

  pub Applies-IsConsistent :
      (text : String) (s s' : Store W)
      → Parses text
      → Applies calls text s s'
      → IsConsistent s
      → IsConsistent s'
  Applies-IsConsistent text s s' parses (inl (r, p)) v = same-IsConsistent s s' r p v
  Applies-IsConsistent text s s' parses (inr (idle, r, inl p)) v =
      settled-IsConsistent s' (text-Parses text parses s'.router.recorded r) p
  Applies-IsConsistent text s s' parses (inr (idle, r, inr (p, pending, previous, differs))) v =
      record {
        record_parses = text-Parses text parses s'.router.recorded r;
        previous_parses = λ q h.
            subst (λ x. Parses x.previous) (the_pending (sym pending ∙ h))
              (v.record_parses p.previous previous);
        on_record = λ q h. (text, r);
      }

  put_back-IsConsistent :
      (why : String) (p : Pending) (s : Store W) (result : Router W × Ending)
      → Parses p.previous
      → Records (some p.previous) s.router result
      → IsConsistent s
      → IsConsistent (put_back calls why p s result).0
  unfolding put_back
  put_back-IsConsistent why p s (router, applied messages) parses records v =
      settled-IsConsistent _ (text-Parses p.previous parses router.recorded records) refl
  put_back-IsConsistent why p s (router, failed e) parses records v =
      settled-IsConsistent _ (λ text h. v.record_parses text (sym records ∙ h)) refl

  put_back-unrecorded :
      (why : String) (p : Pending) (s : Store W) (result : Router W × Ending)
      → Records none s.router result
      → IsConsistent s
      → IsConsistent (put_back calls why p s result).0
  unfolding put_back
  put_back-unrecorded why p s (router, applied messages) records v =
      settled-IsConsistent _ (λ text h. v.record_parses text (sym records ∙ h)) refl
  put_back-unrecorded why p s (router, failed e) records v =
      settled-IsConsistent _ (λ text h. v.record_parses text (sym records ∙ h)) refl

  unrecorded :
      (r router : Router W)
      → router.recorded ≡ r.recorded
      → (result : Router W × Ending) → Records none router result
      → Records none r result
  unrecorded r router h (router', applied messages) records = records ∙ h
  unrecorded r router h (router', failed e) records = records ∙ h

  reapplied :
      (p : Pending) (config : Config) (s : Store W)
      → Records (some p.previous) s.router (
          apply_all calls.parse calls.subsystems calls.checks config
            (some p.previous)
            true
            s.router)
  reapplied p config s =
      apply_all-Records calls.parse calls.checks calls.subsystems config (some p.previous) true
        s.router

  boot_anyway-IsConsistent :
      (why : String) (p : Pending) (config : Config) (s : Store W) (result : Router W × Ending)
      → Parses p.previous
      → Records (some p.previous) s.router result
      → IsConsistent s
      → IsConsistent (put_back calls why p s (boot_anyway calls config result)).0
  unfolding boot_anyway
  boot_anyway-IsConsistent why p config s (router, applied messages) parses records v =
      put_back-IsConsistent why p s _ parses records v
  boot_anyway-IsConsistent why p config s (router, failed e) parses records v =
      put_back-unrecorded why p s _
        (unrecorded s.router router records
          (apply_all calls.parse calls.subsystems calls.checks config none false router)
          (apply_all-Records calls.parse calls.checks calls.subsystems config none false router))
        v

  go_back-IsConsistent :
      (applier : Applier) (why : String) (p : Pending) (previous : Option Config) (s : Store W)
      → calls.parse p.previous ≡ previous
      → IsConsistent s
      → IsConsistent (go_back calls applier why p previous s).0
  unfolding go_back run_applier boot_apply
  go_back-IsConsistent applier why p none s h v = settled-IsConsistent _ v.record_parses refl
  go_back-IsConsistent at_once why p (some previous) s h v =
      put_back-IsConsistent why p s _ (previous, h) (reapplied p previous s) v
  go_back-IsConsistent at_boot why p (some previous) s h v =
      boot_anyway-IsConsistent why p previous s _ (previous, h) (reapplied p previous s) v

  revert_waiting-IsConsistent :
      (applier : Applier) (why : String) (waiting : Option Pending) (s : Store W)
      → IsConsistent s
      → IsConsistent (revert_waiting calls applier why waiting s).0
  unfolding revert_waiting
  revert_waiting-IsConsistent applier why none s v = v
  revert_waiting-IsConsistent applier why (some p) s v =
      go_back-IsConsistent applier why p _ s refl v

  pub revert-IsConsistent :
      (applier : Applier) (why : String) (s : Store W)
      → IsConsistent s
      → IsConsistent (revert_by calls applier why s).0
  unfolding revert_by
  revert-IsConsistent applier why s v = revert_waiting-IsConsistent applier why s.pending s v
