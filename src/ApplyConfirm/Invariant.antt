-- ===== src/ApplyConfirm/Invariant.antt =====
-- What holds of the store between the operations, whoever calls them in whatever order.
use fr_os_pblk.Base.{
  ℕ, String, ◌≡◌, refl, Bool, true, Option, none, some, List, [], ◌∷◌, arith, Bool-cases, inl, inr,
  leb, ◌==◌, string_eq,
}
use fr_os_pblk.Provision.Machinery.{Ending, applied, failed}
use fr_os_pblk.Provision.Apply.{Router}
use fr_os_pblk.Provision.Outcome.{Records, apply_all-Records}
use fr_os_pblk.ApplyConfirm.Store.{
  Pending, Store, Calls, confirm, confirm_waiting, restore_rejected, unless_pending, load_rejected,
  parsed,
}
use fr_os_pblk.ApplyConfirm.Revert.{at_once, at_boot, revert, turn, turn_waiting}
use fr_os_pblk.ApplyConfirm.Requests.{Circumstances}
use fr_os_pblk.ApplyConfirm.Applies.{Moved, apply_locked-Applies, set_management_addresses-Moved}
use fr_os_pblk.ApplyConfirm.Serve.{
  Request, edit, apply, move, confirms, reverts, restores, rolls_back, checks_schedule, restarts,
  wakes, rollback, schedule_check, after_turn, apply_parsed, serve, serve_all,
}
use fr_os_pblk.ApplyConfirm.Consistent.{
  Parses, IsConsistent, text-Parses, same-IsConsistent, settled-IsConsistent, Applies-IsConsistent,
  revert-IsConsistent,
}

module _ {W Config : Type 0} (calls : Calls W Config) where
  turn-IsConsistent :
      (waiting : Option Pending) (now : ℕ) (s : Store W)
      → IsConsistent calls s
      → IsConsistent calls (after_turn s (turn_waiting calls waiting now s))
  unfolding turn_waiting revert
  turn-IsConsistent none now s v = v
  turn-IsConsistent (some p) now s v = elim (Bool-cases (leb p.deadline now)) [
    | inl over ↦ rw over (revert-IsConsistent calls at_once "no confirmation within the time" s v)
    | inr early ↦ rw early v
  ]

  confirm-IsConsistent :
      (id : String) (waiting : Option Pending) (s : Store W)
      → IsConsistent calls s
      → IsConsistent calls (confirm_waiting id waiting s).0
  unfolding confirm_waiting
  confirm-IsConsistent id none s v = v
  confirm-IsConsistent id (some p) s v = elim (Bool-cases (id == p.id)) [
    | inl same ↦ rw same (settled-IsConsistent calls _ v.record_parses refl)
    | inr stale ↦ rw stale v
  ]

  restore-IsConsistent :
      (waiting : Option Pending) (text : Option String) (config : Option Config) (s : Store W)
      → IsConsistent calls s
      → IsConsistent calls (unless_pending waiting s (load_rejected text config s)).0
  unfolding unless_pending load_rejected
  restore-IsConsistent (some p) text config s v = v
  restore-IsConsistent none none config s v = v
  restore-IsConsistent none (some text) none s v = v
  restore-IsConsistent none (some text) (some config) s v = same-IsConsistent calls s _ refl refl v

  apply_parsed-IsConsistent :
      (config : Option Config) (text : String) (confirm : Bool) (c : Circumstances) (s : Store W)
      → calls.parse text ≡ config
      → IsConsistent calls s
      → IsConsistent calls (apply_parsed calls config text confirm c s)
  apply_parsed-IsConsistent none text confirm c s h v = v
  apply_parsed-IsConsistent (some config) text confirm c s h v =
      Applies-IsConsistent calls text s _ (config, h)
        (apply_locked-Applies calls c config text confirm s) v

  Moved-IsConsistent :
      (c : Circumstances) (s s' : Store W)
      → Moved calls c s s'
      → IsConsistent calls s
      → IsConsistent calls s'
  Moved-IsConsistent c s s' (inl (r, p)) v = same-IsConsistent calls s s' r p v
  Moved-IsConsistent c s s' (inr (text, config, parses, applies)) v =
      Applies-IsConsistent calls text s s' (config, parses) applies v

  scheduled-IsConsistent :
      (text : String) (s : Store W) (result : Router W × Ending)
      → Parses calls text
      → Records (some text) s.router result
      → IsConsistent calls s
      → IsConsistent calls (record s { router = result.0 })
  scheduled-IsConsistent text s (router, applied messages) parses records v = record {
    record_parses = text-Parses calls text parses router.recorded records;
    previous_parses = v.previous_parses;
    on_record = λ q h. (text, records);
  }
  scheduled-IsConsistent text s (router, failed e) parses records v =
      same-IsConsistent calls s _ records refl v

  schedule_check-IsConsistent :
      (text : Option String) (config : Option Config) (s : Store W)
      → parsed calls.parse text ≡ config
      → IsConsistent calls s
      → IsConsistent calls (schedule_check calls text config s)
  unfolding schedule_check parsed
  schedule_check-IsConsistent text none s h v = v
  schedule_check-IsConsistent none (some config) s h v = ground arith
  schedule_check-IsConsistent (some text) (some config) s h v =
      scheduled-IsConsistent text s _ (config, h)
        (apply_all-Records calls.parse calls.checks calls.subsystems config (some text) true
          s.router)
        v

  pub serve-IsConsistent :
      (request : Request) (s : Store W)
      → IsConsistent calls s
      → IsConsistent calls (serve calls request s)
  unfolding serve confirm restore_rejected turn revert rollback
  serve-IsConsistent (edit text) s v = same-IsConsistent calls s _ refl refl v
  serve-IsConsistent (apply text confirm c) s v =
      apply_parsed-IsConsistent (calls.parse text) text confirm c s refl v
  serve-IsConsistent (move addresses c) s v =
      Moved-IsConsistent c s _ (set_management_addresses-Moved calls c addresses s) v
  serve-IsConsistent (confirms id) s v = confirm-IsConsistent id s.pending s v
  serve-IsConsistent (reverts why) s v = revert-IsConsistent calls at_once why s v
  serve-IsConsistent rolls_back s v = same-IsConsistent calls s _ refl refl v
  serve-IsConsistent checks_schedule s v = schedule_check-IsConsistent s.config _ s refl v
  serve-IsConsistent restarts s v = revert-IsConsistent calls at_boot _ s v
  serve-IsConsistent restores s v = restore-IsConsistent s.pending s.rejected _ s v
  serve-IsConsistent (wakes now) s v = turn-IsConsistent s.pending now s v

  serve_all-kept :
      (requests : List Request) (s : Store W)
      → IsConsistent calls s
      → IsConsistent calls (serve_all calls requests s)
  unfolding serve_all
  serve_all-kept [] s v = v
  serve_all-kept (request ∷ requests) s v =
      serve_all-kept requests (serve calls request s) (serve-IsConsistent request s v)

  -- From a router on which nothing was ever applied and nothing is pending, whatever comes of these
  -- requests in whatever order, with one version of the parser: the text on record as applied
  -- parses; while an apply is pending, the text that it would go back to parses, and there is a
  -- text on record.
  pub serve_all-IsConsistent :
      (requests : List Request) (s : Store W)
      → s.router.recorded ≡ none
      → s.pending ≡ none
      → IsConsistent calls (serve_all calls requests s)
  serve_all-IsConsistent requests s fresh idle =
      serve_all-kept requests s (settled-IsConsistent calls s (λ text h. ground arith) idle)
