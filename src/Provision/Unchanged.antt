-- ===== src/Provision/Unchanged.antt =====
-- An apply that says that it changed nothing has changed nothing, and what it records.
use fr_os_pblk.Base.{
  String, ◌≡◌, refl, sym, ap, ◌∙◌, Bool, true, false, Option, none, some, List, [], ◌∷◌, ◌++◌,
  arith, subst, All, Bool-cases, Option-cases, inl, inr, ◌⊎◌,
}
use fr_os_pblk.Transaction.{Undo, Entry, ApplyError, roll_back}
use fr_os_pblk.Provision.Machinery.{
  Raised, apply_error, nft_error, other, Result, ok, err, Work, Opening, begins, only_named, Step,
  Run, Pass, Ending, applied, failed, begin_step, opened, enter, run_steps, live_sets_error,
  failed_pass, fail_with, end_pass, run_all, reading, last_resort,
}
use fr_os_pblk.Transaction.Restoring.{RollsTo-nil, RollsTo-roll_back}
use fr_os_pblk.Provision.Restored.{
  Plain, PlainRaised, PlainOpening, Result-cases, run_steps_shut, run_steps_broken, run_steps_done,
  run_all_read, run_all_unread, first_run, end_pass_done, end_pass_broken,
}

module _ {W : Type 0} where
  -- The step raises no ApplyError: those pass through `run` as they are.
  pub record IsPlain (step : Step W) : Type 0 where
    pub plain_work : (w : W) → Plain (step.work w).1
    pub plain_opening : (w : W) → PlainOpening step.opening w

  -- A failure of this run is reported as a change: there is no journal, or something is in it.
  abbrev Committed : Run W → Type 0
  Committed run = (run.journal ≡ none) ⊎ (run.changed ≡ true)

  -- Nothing was done so far: the machine is `w` and the journal is empty.
  abbrev Idle : W → Run W → W → Type 0
  Idle w₀ run w = (w ≡ w₀) × (run.journal ≡ some [])

  abbrev EnteredRun : Result (Run W) → Type 0
  EnteredRun (ok run) = Committed run
  EnteredRun (err e) = PlainRaised e

  begin_step-Committed :
      (name : String) (undo : Option (Undo W)) (why_not : String) (run : Run W)
      → Committed (begin_step name undo why_not run)
  unfolding begin_step
  begin_step-Committed name undo why_not run = elim (Option-cases run.journal) [
    | inl h ↦ inl (ground arith)
    | inr (entries, h) ↦ inr (ground arith)
  ]

  opened-Committed :
      (name : String) (run : Run W) (r : Result (Option (Undo W) × String))
      → Plain r
      → EnteredRun (opened name run r)
  unfolding opened
  opened-Committed name run (ok (undo, why_not)) p = begin_step-Committed name undo why_not run
  opened-Committed name run (err e) p = p

  enter-Committed :
      (name : String) (opening : Opening W) (run : Run W) (w : W)
      → PlainOpening opening w
      → Committed run
      → EnteredRun (enter name opening run w)
  unfolding enter
  enter-Committed name only_named run w p c = c
  enter-Committed name (begins touched read) run w p c = elim (Bool-cases (touched w)) [
    | inl h ↦ rw h (opened-Committed name run (read w) p)
    | inr h ↦ rw h c
  ]

  abbrev EndsCommitted : Pass W → Type 0
  EndsCommitted p = Committed p.run × Plain p.result

  -- A step that was entered with a run that is committed, and the steps after it.
  entered-Committed :
      (step : Step W) (steps : List (Step W)) (run run' : Run W) (w : W) (messages : List String)
      → IsPlain step
      → enter step.name step.opening run w ≡ ok run'
      → Committed run'
      → ((v : W) (more : List String) → EndsCommitted (run_steps steps run' v more))
      → EndsCommitted (run_steps (step ∷ steps) run w messages)
  entered-Committed step steps run run' w messages one open_run next rest =
      elim (Result-cases (step.work w).1) [
        | inr (e, broken) ↦
            subst EndsCommitted
              (sym (run_steps_broken step steps run w messages run' e open_run broken))
              (next, rw broken at (one.plain_work w))
        | inl (more, done) ↦
            subst EndsCommitted
              (sym (run_steps_done step steps run w messages run' more open_run done))
              (rest (step.work w).0 (messages ++ more))
      ]

  run_steps-Committed :
      (steps : List (Step W)) (run : Run W) (w : W) (messages : List String)
      → All IsPlain steps
      → Committed run
      → EndsCommitted (run_steps steps run w messages)
  run_steps-Committed [] run w messages all c = unfold run_steps in (c, tt)
  run_steps-Committed (step ∷ steps) run w messages (one, all) c =
      let entered = enter-Committed step.name step.opening run w (one.plain_opening w) c in
      elim (Result-cases (enter step.name step.opening run w)) [
        | inr (e, shut) ↦
            subst EndsCommitted (sym (run_steps_shut step steps run w messages e shut))
              (c, rw shut at entered)
        | inl (run', open_run) ↦
            let next : Committed run' = rw open_run at entered in
            entered-Committed step steps run run' w messages one open_run next
              (λ v more. run_steps-Committed steps run' v more all next)
      ]

  -- An ApplyError that says that nothing was changed comes with the machine as it was.
  abbrev pub Silent : W → W × Ending → Type 0
  Silent w₀ (w, applied messages) = Unit
  Silent w₀ (w, failed e) = (e.changed ≡ true) ⊎ (w ≡ w₀)

  failed_pass_unjournalled :
      (p : Pass W) (text : String)
      → p.run.journal ≡ none
      → (e : ApplyError) × (failed_pass p text ≡ (p.machine, failed e)) × (e.changed ≡ true)
  unfolding failed_pass
  failed_pass_unjournalled p text h = (
    record {
      step = p.run.step;
      cause = text;
      changed = true;
      rolled_back = [];
      not_rolled_back = (last_resort, "") ∷ [];
    },
    ground arith,
    refl,
  )

  failed_pass_journalled :
      (p : Pass W) (text : String) (entries : List (Entry W))
      → p.run.journal ≡ some entries
      → (e : ApplyError) × (failed_pass p text ≡ ((roll_back entries p.machine).machine, failed e))
        × (e.changed ≡ p.run.changed)
  unfolding failed_pass
  failed_pass_journalled p text entries h = (
    record {
      step = p.run.step;
      cause = text;
      changed = p.run.changed;
      rolled_back = (roll_back entries p.machine).done;
      not_rolled_back = (roll_back entries p.machine).failed;
    },
    ground arith,
    refl,
  )

  failed_pass-Committed :
      (p : Pass W) (w₀ : W) (text : String) → Committed p.run → Silent w₀ (failed_pass p text)
  failed_pass-Committed p w₀ text c = elim (Option-cases p.run.journal) [
    | inl no_journal ↦
        let (e, ends, changed) = failed_pass_unjournalled p text no_journal in
        subst (Silent w₀) (sym ends) (inl changed)
    | inr (entries, journalled) ↦
        let (e, ends, changed) = failed_pass_journalled p text entries journalled in
        subst (Silent w₀) (sym ends)
          (inl (elim c [ inl no_journal ↦ ground arith | inr true_change ↦ changed ∙ true_change ]))
  ]

  failed_pass-Idle :
      (p : Pass W) (w₀ : W) (text : String)
      → Idle w₀ p.run p.machine
      → Silent w₀ (failed_pass p text)
  failed_pass-Idle p w₀ text (same, journalled) =
      let (e, ends, changed) = failed_pass_journalled p text [] journalled in
      let back = RollsTo-roll_back [] p.machine p.machine (RollsTo-nil p.machine) in
      subst (Silent w₀) (sym ends) (inr (ap (λ b. b.machine) back ∙ same))

  abbrev Reportable : W → Run W → W → Type 0
  Reportable w₀ run w = Committed run ⊎ Idle w₀ run w

  fail_with-Silent :
      (p : Pass W) (w₀ : W) (e : Raised)
      → PlainRaised e
      → Reportable w₀ p.run p.machine
      → Silent w₀ (fail_with p e)
  unfolding fail_with
  fail_with-Silent p w₀ (apply_error e) plain c = absurd plain
  fail_with-Silent p w₀ (nft_error text) plain (inl c) = failed_pass-Committed p w₀ text c
  fail_with-Silent p w₀ (nft_error text) plain (inr c) = failed_pass-Idle p w₀ text c
  fail_with-Silent p w₀ (other text) plain (inl c) = failed_pass-Committed p w₀ text c
  fail_with-Silent p w₀ (other text) plain (inr c) = failed_pass-Idle p w₀ text c

  end_pass-Silent :
      (p : Pass W) (w₀ : W)
      → Plain p.result
      → Reportable w₀ p.run p.machine
      → Silent w₀ (end_pass p)
  end_pass-Silent p w₀ plain c = elim (Result-cases p.result) [
    | inl (messages, done) ↦ subst (Silent w₀) (sym (end_pass_done p messages done)) tt
    | inr (e, broken) ↦
        subst (Silent w₀) (sym (end_pass_broken p e broken))
          (fail_with-Silent p w₀ e (rw broken at plain) c)
  ]

  first_run-Reportable : (transactional : Bool) (w : W) → Reportable w (first_run transactional) w
  first_run-Reportable true w = inr (refl, refl)
  first_run-Reportable false w = inl (inl refl)

  abbrev first_step : String → (W → Result (Option (Undo W) × String)) → Work W → Step W
  first_step name read work = record { name = name; opening = begins (λ w. true) read; work = work }

  module _ (name : String) (read : W → Result (Option (Undo W) × String)) (work : Work W)
      (run : Run W) (w : W) where
    first_step_shut :
        (e : Raised) → read w ≡ err e → enter name (begins (λ w. true) read) run w ≡ err e
    unfolding enter opened
    first_step_shut e h = rw h

    first_step_open :
        (undo : Option (Undo W)) (why_not : String)
        → read w ≡ ok (undo, why_not)
        → enter name (begins (λ w. true) read) run w ≡ ok (begin_step name undo why_not run)
    unfolding enter opened
    first_step_open undo why_not h = rw h

  -- The steps from the start, when the first one always begins.
  run_steps-Silent :
      (name : String) (read : W → Result (Option (Undo W) × String)) (work : Work W)
      (steps : List (Step W)) (transactional : Bool) (w : W)
      → All IsPlain (first_step name read work ∷ steps)
      → Silent w
          (end_pass (run_steps (first_step name read work ∷ steps) (first_run transactional) w []))
  run_steps-Silent name read work steps transactional w (one, all) =
      let step = first_step name read work in
      let run = first_run transactional in
      let plain_read = one.plain_opening w in
      elim (Result-cases (read w)) [
        | inr (e, h) ↦
            let shut = first_step_shut name read work run w e h in
            subst (λ p. Silent w (end_pass p)) (sym (run_steps_shut step steps run w [] e shut))
              (end_pass-Silent _ w (rw h at plain_read) (first_run-Reportable transactional w))
        | inl ((undo, why_not), h) ↦
            let open_run = first_step_open name read work run w undo why_not h in
            let next = begin_step-Committed name undo why_not run in
            let (c, plain) =
              entered-Committed step steps run _ w [] one open_run next
                (λ v more. run_steps-Committed steps _ v more all next) in
            end_pass-Silent _ w plain (inl c)
      ]

  live_sets_error-Silent :
      (transactional : Bool) (w : W) (e : Raised)
      → PlainRaised e
      → let e' = live_sets_error reading e in
        Silent w
          (fail_with (record { machine = w; run = first_run transactional; result = err e' }) e')
  unfolding live_sets_error fail_with
  live_sets_error-Silent transactional w (apply_error e) plain = absurd plain
  live_sets_error-Silent transactional w (nft_error text) plain = inr refl
  live_sets_error-Silent transactional w (other text) plain =
      fail_with-Silent
        (record { machine = w; run = first_run transactional; result = err (other text) }) w
        (other text) tt (first_run-Reportable transactional w)

  pub run_all-Silent :
      (read_live_sets : W → Result (Unit {0})) (name : String)
      (read : W → Result (Option (Undo W) × String)) (work : Work W) (steps : List (Step W))
      (transactional : Bool) (w : W)
      → Plain (read_live_sets w)
      → All IsPlain (first_step name read work ∷ steps)
      → Silent w (run_all read_live_sets (first_step name read work ∷ steps) transactional w)
  run_all-Silent read_live_sets name read work steps transactional w plain all =
      let every = first_step name read work ∷ steps in
      elim (Result-cases (read_live_sets w)) [
        | inl (unit, done) ↦
            subst (Silent w) (sym (run_all_read read_live_sets every transactional w unit done))
              (run_steps-Silent name read work steps transactional w all)
        | inr (e, broken) ↦
            subst (Silent w) (sym (run_all_unread read_live_sets every transactional w e broken))
              (live_sets_error-Silent transactional w e (rw broken at plain))
      ]
