-- ===== src/Provision/Restored.antt =====
-- A failed apply puts the machine back, if each step's undo takes back that step.
use fr_os_pblk.Base.{
  String, ◌≡◌, refl, sym, Bool, true, false, Option, none, some, List, [], ◌∷◌, ◌++◌, arith, subst,
  Bool-cases, inl, inr, ◌⊎◌,
}
use fr_os_pblk.Transaction.{Undo, Entry, begin}
use fr_os_pblk.Transaction.Restoring.{RollsTo, RollsTo-nil, RollsTo-begin, RollsTo-roll_back}
use fr_os_pblk.Provision.Machinery.{
  Raised, apply_error, nft_error, other, Result, ok, err, Work, Opening, begins, only_named, Step,
  Run, Pass, Ending, applied, failed, begin_step, opened, enter, run_steps, all_steps, failed_pass,
  fail_with, reading, live_sets_error, end_pass, new_run, run_all,
}

-- No ApplyError is raised: those pass through `run` without a rollback.
abbrev pub PlainRaised : Raised → Type 0
PlainRaised (apply_error _) = ⊥
PlainRaised (nft_error _) = Unit
PlainRaised (other _) = Unit

abbrev pub Plain : {A : Type 0} → Result A → Type 0
Plain (ok _) = Unit
Plain (err e) = PlainRaised e

pub Result-cases :
    {A : Type 0} (r : Result A) → ((a : A) × (r ≡ ok a)) ⊎ ((e : Raised) × (r ≡ err e))
Result-cases (ok a) = inl (a, refl)
Result-cases (err e) = inr (e, refl)

module _ {W : Type 0} where
  -- Started at `w`, the work is taken back by the undo that the step journals there, whether the
  -- work finished or not; work that is not journalled changes nothing.
  abbrev pub TakesBack : Opening W → Work W → W → Type 0
  TakesBack only_named work w = (work w).0 ≡ w
  TakesBack (begins touched read) work w =
      (touched w ≡ false → (work w).0 ≡ w)
      × ((undo : Option (Undo W)) (why_not : String)
          → touched w ≡ true
          → read w ≡ ok (undo, why_not)
          → (u : Undo W) × (undo ≡ some u) × (u (work w).0 ≡ (w, none)))

  abbrev pub PlainOpening : Opening W → W → Type 0
  PlainOpening only_named w = Unit
  PlainOpening (begins touched read) w = Plain (read w)

  pub record IsUndone (step : Step W) (w : W) : Type 0 where
    pub takes_back : TakesBack step.opening step.work w
    pub plain_work : Plain (step.work w).1
    pub plain_opening : PlainOpening step.opening w

  -- Each step can be taken back on the machine that the steps before it leave.
  abbrev pub AllUndone : List (Step W) → W → Type 0
  AllUndone [] w = Unit
  AllUndone (step ∷ steps) w = IsUndone step w × AllUndone steps (step.work w).0

  -- The three ways of a step.
  module _ (step : Step W) (steps : List (Step W)) (run : Run W) (w : W)
      (messages : List String) where
    pub run_steps_shut :
        (e : Raised)
        → enter step.name step.opening run w ≡ err e
        → run_steps (step ∷ steps) run w messages
          ≡ record { machine = w; run = run; result = err e }
    unfolding run_steps
    run_steps_shut e h = ground arith

    pub run_steps_broken :
        (run' : Run W) (e : Raised)
        → enter step.name step.opening run w ≡ ok run'
        → (step.work w).1 ≡ err e
        → run_steps (step ∷ steps) run w messages
          ≡ record { machine = (step.work w).0; run = run'; result = err e }
    unfolding run_steps
    run_steps_broken run' e h i = ground arith

    pub run_steps_done :
        (run' : Run W) (more : List String)
        → enter step.name step.opening run w ≡ ok run'
        → (step.work w).1 ≡ ok more
        → run_steps (step ∷ steps) run w messages
          ≡ run_steps steps run' (step.work w).0 (messages ++ more)
    unfolding run_steps
    run_steps_done run' more h i = ground arith

  -- The run's journal takes the machine `w` back to `w₀`.
  pub record CanUndo (run : Run W) (w w₀ : W) : Type 0 where
    pub entries : List (Entry W)
    pub journalled : run.journal ≡ some entries
    pub rolls : RollsTo entries w w₀

  abbrev Entered : Work W → W → W → Result (Run W) → Type 0
  Entered work w w₀ (err e) = PlainRaised e
  Entered work w w₀ (ok run) = CanUndo run (work w).0 w₀

  opened-Entered :
      (name : String) (work : Work W) (run : Run W) (w w₀ : W)
      (r : Result (Option (Undo W) × String))
      → CanUndo run w w₀
      → Plain r
      → ((undo : Option (Undo W)) (why_not : String)
          → r ≡ ok (undo, why_not)
          → (u : Undo W) × (undo ≡ some u) × (u (work w).0 ≡ (w, none)))
      → Entered work w w₀ (opened name run r)
  unfolding opened begin_step
  opened-Entered name work run w w₀ (err e) c p t = p
  opened-Entered name work run w w₀ (ok (undo, why_not)) c p t =
      let (u, present, undone) = t undo why_not refl in
      let next = RollsTo-begin c.entries name why_not u w (work w).0 w₀ c.rolls undone in
      record {
        entries = begin name (some u) why_not c.entries;
        journalled = ground (arith, c.journalled, present);
        rolls = next;
      }

  enter-Entered :
      (name : String) (opening : Opening W) (work : Work W) (run : Run W) (w w₀ : W)
      → TakesBack opening work w
      → PlainOpening opening w
      → CanUndo run w w₀
      → Entered work w w₀ (enter name opening run w)
  unfolding enter
  enter-Entered name only_named work run w w₀ t p c = record {
    entries = c.entries;
    journalled = c.journalled;
    rolls = subst (λ v. RollsTo c.entries v w₀) (sym t) c.rolls;
  }
  enter-Entered name (begins touched read) work run w w₀ t p c = elim (Bool-cases (touched w)) [
    | inl yes_touched ↦ rw yes_touched (
        opened-Entered name work run w w₀ (read w) c p
          (λ undo why_not. t.1 undo why_not yes_touched))
    | inr untouched ↦ rw untouched (record {
      entries = c.entries;
      journalled = c.journalled;
      rolls = subst (λ v. RollsTo c.entries v w₀) (sym (t.0 untouched)) c.rolls;
    })
  ]

  abbrev Ends : Pass W → W → Type 0
  Ends p w₀ = CanUndo p.run p.machine w₀ × Plain p.result

  pub run_steps-Ends :
      (steps : List (Step W)) (run : Run W) (w w₀ : W) (messages : List String)
      → AllUndone steps w
      → CanUndo run w w₀
      → Ends (run_steps steps run w messages) w₀
  run_steps-Ends [] run w w₀ messages all c = unfold run_steps in (c, tt)
  run_steps-Ends (step ∷ steps) run w w₀ messages (one, all) c =
      let entered =
        enter-Entered step.name step.opening step.work run w w₀ one.takes_back one.plain_opening
          c in
      elim (Result-cases (enter step.name step.opening run w)) [
        | inr (e, shut) ↦
            subst (λ p. Ends p w₀) (sym (run_steps_shut step steps run w messages e shut))
              (c, rw shut at entered)
        | inl (run', opened) ↦
            let next : CanUndo run' (step.work w).0 w₀ = rw opened at entered in
            elim (Result-cases (step.work w).1) [
              | inr (e, broken) ↦
                  subst (λ p. Ends p w₀)
                    (sym (run_steps_broken step steps run w messages run' e opened broken))
                    (next, rw broken at one.plain_work)
              | inl (more, done) ↦
                  subst (λ p. Ends p w₀)
                    (sym (run_steps_done step steps run w messages run' more opened done))
                    (run_steps-Ends steps run' (step.work w).0 w₀ (messages ++ more) all next)
            ]
      ]

  -- After a failure the machine is `w₀` again, and nothing is reported as not rolled back.
  abbrev pub Restores : W → W × Ending → Type 0
  Restores w₀ (w, applied messages) = Unit
  Restores w₀ (w, failed e) = (w ≡ w₀) × (e.not_rolled_back ≡ [])

  failed_pass-Restores :
      (p : Pass W) (w₀ : W) (text : String)
      → CanUndo p.run p.machine w₀
      → Restores w₀ (failed_pass p text)
  unfolding failed_pass
  failed_pass-Restores p w₀ text c =
      let back = RollsTo-roll_back c.entries p.machine w₀ c.rolls in
      rw c.journalled (rw back (refl, refl))

  fail_with-Restores :
      (p : Pass W) (w₀ : W) (e : Raised)
      → CanUndo p.run p.machine w₀
      → PlainRaised e
      → Restores w₀ (fail_with p e)
  unfolding fail_with
  fail_with-Restores p w₀ (apply_error e) c plain = absurd plain
  fail_with-Restores p w₀ (nft_error text) c plain = failed_pass-Restores p w₀ text c
  fail_with-Restores p w₀ (other text) c plain = failed_pass-Restores p w₀ text c

  pub end_pass_done :
      (p : Pass W) (messages : List String)
      → p.result ≡ ok messages
      → end_pass p ≡ (p.machine, applied messages)
  unfolding end_pass
  end_pass_done p messages h = ground arith

  pub end_pass_broken : (p : Pass W) (e : Raised) → p.result ≡ err e → end_pass p ≡ fail_with p e
  unfolding end_pass
  end_pass_broken p e h = ground arith

  end_pass-Restores : (p : Pass W) (w₀ : W) → Ends p w₀ → Restores w₀ (end_pass p)
  end_pass-Restores p w₀ (c, plain) = elim (Result-cases p.result) [
    | inl (messages, done) ↦ subst (Restores w₀) (sym (end_pass_done p messages done)) tt
    | inr (e, broken) ↦
        subst (Restores w₀) (sym (end_pass_broken p e broken))
          (fail_with-Restores p w₀ e c (rw broken at plain))
  ]

  abbrev pub first_run : Bool → Run W
  first_run transactional = record (new_run transactional) { step = reading }

  module _ (read_live_sets : W → Result (Unit {0})) (steps : List (Step W)) (transactional : Bool)
      (w : W) where
    pub run_all_read :
        (unit : Unit {0})
        → read_live_sets w ≡ ok unit
        → run_all read_live_sets steps transactional w
          ≡ end_pass (run_steps steps (first_run transactional) w [])
    unfolding run_all all_steps
    run_all_read unit h = ground arith

    pub run_all_unread :
        (e : Raised)
        → read_live_sets w ≡ err e
        → let e' = live_sets_error reading e in
          run_all read_live_sets steps transactional w
          ≡ fail_with (record { machine = w; run = first_run transactional; result = err e' }) e'
    unfolding run_all all_steps end_pass
    run_all_unread e h = ground arith

  first_run-CanUndo : (w : W) → CanUndo (first_run true) w w
  first_run-CanUndo w = record { entries = []; journalled = refl; rolls = RollsTo-nil w }

  live_sets_error-Restores :
      (w : W) (e : Raised)
      → PlainRaised e
      → Restores w (
          fail_with
            (record { machine = w; run = first_run true; result = err (live_sets_error reading e) })
            (live_sets_error reading e))
  unfolding live_sets_error fail_with
  live_sets_error-Restores w (apply_error e) plain = absurd plain
  live_sets_error-Restores w (nft_error text) plain = (refl, refl)
  live_sets_error-Restores w (other text) plain =
      failed_pass-Restores _ w text (first_run-CanUndo w)

-- A transactional apply whose steps can each be undone: if it fails, in any step, before its undo
-- was journalled or half way through its work, the machine is what it was before the apply, and
-- nothing is reported as not rolled back.
pub run_all-Restores :
    {W : Type 0} (read_live_sets : W → Result (Unit {0})) (steps : List (Step W)) (w : W)
    → Plain (read_live_sets w)
    → AllUndone steps w
    → Restores w (run_all read_live_sets steps true w)
run_all-Restores read_live_sets steps w plain all = elim (Result-cases (read_live_sets w)) [
  | inl (unit, done) ↦
      subst (Restores w) (sym (run_all_read read_live_sets steps true w unit done)) (
        end_pass-Restores _ w
          (run_steps-Ends steps (first_run true) w w [] all (first_run-CanUndo w)))
  | inr (e, broken) ↦
      subst (Restores w) (sym (run_all_unread read_live_sets steps true w e broken))
        (live_sets_error-Restores w e (rw broken at plain))
]
