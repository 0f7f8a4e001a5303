-- ===== src/ApplyConfirm/Held.antt =====
-- A held apply: it stays until its own confirmation, its revert or its deadline, and a revert
-- brings the config before it back.
use fr_os_pblk.Base.{
  ℕ, ◌<◌, String, ◌≡◌, ◌≢◌, refl, sym, ◌∙◌, Bool, Option, none, some, List, [], ◌∷◌, arith, subst,
  All, Bool-cases, inl, inr, ◌⊎◌, leb, string_eq, beq_ne, leb→le,
}
use fr_os_pblk.Provision.Apply.{Router}
use fr_os_pblk.ApplyConfirm.Store.{
  Pending, Store, Calls, confirm, confirm_waiting, restore_rejected, unless_pending, load_rejected,
  parsed,
}
use fr_os_pblk.ApplyConfirm.Revert.{turn, turn_waiting}
use fr_os_pblk.ApplyConfirm.Requests.{
  Circumstances, apply_locked, apply_waiting, set_management_addresses, move_text, move_waiting,
}
use fr_os_pblk.ApplyConfirm.Serve.{
  Request, edit, apply, move, confirms, reverts, restores, rolls_back, checks_schedule, restarts,
  wakes, rollback, schedule_check, after_turn, apply_parsed, serve, serve_all,
}

-- The request neither confirms this apply, nor reverts, nor wakes the waiting unit too late.
abbrev pub Spares : Pending → Request → Type 0
Spares p (confirms id) = id ≢ p.id
Spares p (reverts why) = ⊥
Spares p (wakes now) = now < p.deadline
Spares p (edit text) = Unit
Spares p (apply text confirm c) = Unit
Spares p (move addresses c) = Unit
Spares p restores = Unit
Spares p rolls_back = Unit
Spares p checks_schedule = Unit
Spares p restarts = ⊥

-- The requests that load a ruleset while an apply is pending.
abbrev pub Reloads : Request → Type 0
Reloads rolls_back = Unit
Reloads checks_schedule = Unit
Reloads request = ⊥

abbrev pub Reloading : List Request → Type 0
Reloading [] = ⊥
Reloading (request ∷ requests) = Reloads request ⊎ Reloading requests

-- What is pending, the rejected config and the alerts are the same.
pub record Waiting {W : Type 0} (s s' : Store W) : Type 0 where
  pub pending : s'.pending ≡ s.pending
  pub rejected : s'.rejected ≡ s.rejected
  pub alerts : s'.alerts ≡ s.alerts

-- The router and what is pending are the same; only config.yaml may differ.
pub record SameHold {W : Type 0} (s s' : Store W) : Type 0 where
  pub router : s'.router ≡ s.router
  pub pending : s'.pending ≡ s.pending
  pub rejected : s'.rejected ≡ s.rejected
  pub alerts : s'.alerts ≡ s.alerts

module _ {W : Type 0} where
  SameHold-refl : (s : Store W) → SameHold s s
  SameHold-refl s = record { router = refl; pending = refl; rejected = refl; alerts = refl }

  Waiting-trans : {s t u : Store W} → Waiting s t → Waiting t u → Waiting s u
  Waiting-trans h i = record {
    pending = i.pending ∙ h.pending;
    rejected = i.rejected ∙ h.rejected;
    alerts = i.alerts ∙ h.alerts;
  }

  -- The apply is held; the router is the same, or something else changed it.
  abbrev pub HeldUnless : Type 0 → Store W → Store W → Type 0
  HeldUnless Other s s' = Waiting s s' × ((s'.router ≡ s.router) ⊎ Other)

  held_unless : (Other : Type 0) → {s s' : Store W} → SameHold s s' → HeldUnless Other s s'
  held_unless Other h =
      (record { pending = h.pending; rejected = h.rejected; alerts = h.alerts }, inl h.router)

  reloaded :
      {Other : Type 0}
      → (s : Store W) → (router : Router W) → Other
      → HeldUnless Other s (record s { router = router })
  reloaded s router other = (record { pending = refl; rejected = refl; alerts = refl }, inr other)

  schedule_check-held :
      {Config Other : Type 0}
      → (calls : Calls W Config) → (text : Option String) → (config : Option Config) → (s : Store W)
      → Other
      → HeldUnless Other s (schedule_check calls text config s)
  unfolding schedule_check
  schedule_check-held calls text none s other = held_unless _ (SameHold-refl s)
  schedule_check-held calls text (some config) s other = reloaded s _ other

  HeldUnless-trans :
      {A B : Type 0} {s t u : Store W}
      → HeldUnless A s t
      → HeldUnless B t u
      → HeldUnless (A ⊎ B) s u
  HeldUnless-trans (w, inl r) (v, inl q) = (Waiting-trans w v, inl (q ∙ r))
  HeldUnless-trans (w, inl r) (v, inr b) = (Waiting-trans w v, inr (inr b))
  HeldUnless-trans (w, inr a) (v, q) = (Waiting-trans w v, inr (inl a))

module _ {W Config : Type 0} (calls : Calls W Config) (p : Pending) where
  apply_parsed-held :
      (config : Option Config) (text : String) (confirm : Bool) (c : Circumstances)
      (waiting : Option Pending) (s : Store W)
      → s.pending ≡ waiting
      → waiting ≡ some p
      → SameHold s (apply_parsed calls config text confirm c s)
  unfolding apply_locked apply_waiting
  apply_parsed-held none text confirm c waiting s h i = SameHold-refl s
  apply_parsed-held (some config) text confirm c waiting s h i =
      subst (λ w. SameHold s (apply_waiting calls c config text confirm w s).0) (sym (h ∙ i))
        (SameHold-refl s)

  move-held :
      (addresses : List String) (text : Option String) (c : Circumstances) (s : Store W)
      → s.pending ≡ some p
      → SameHold s (move_text calls c addresses text s).0
  unfolding move_text move_waiting
  move-held addresses none c s h = SameHold-refl s
  move-held addresses (some text) c s h =
      subst (λ w. SameHold s (move_waiting calls c addresses text w s).0) (sym h) (SameHold-refl s)

  confirm-held :
      (id : String) (s : Store W) → id ≢ p.id → SameHold s (confirm_waiting id (some p) s).0
  unfolding confirm_waiting
  confirm-held id s stale = rw (beq_ne id p.id stale) (SameHold-refl s)

  turn-held :
      (now : ℕ) (s : Store W)
      → now < p.deadline
      → SameHold s (after_turn s (turn_waiting calls (some p) now s))
  unfolding turn_waiting
  turn-held now s early = elim (Bool-cases (leb p.deadline now)) [
    | inl over ↦ ground (arith, leb→le p.deadline now over, early)
    | inr under ↦ rw under (SameHold-refl s)
  ]

  serve-held :
      (request : Request) (s : Store W)
      → s.pending ≡ some p
      → Spares p request
      → HeldUnless (Reloads request) s (serve calls request s)
  unfolding serve set_management_addresses confirm restore_rejected turn unless_pending rollback
  serve-held (edit text) s h spares =
      (record { pending = refl; rejected = refl; alerts = refl }, inl refl)
  serve-held (apply text confirm c) s h spares =
      held_unless _ (apply_parsed-held (calls.parse text) text confirm c s.pending s refl h)
  serve-held (move addresses c) s h spares = held_unless _ (move-held addresses s.config c s h)
  serve-held (confirms id) s h spares =
      held_unless _
        (subst (λ w. SameHold s (confirm_waiting id w s).0) (sym h) (confirm-held id s spares))
  serve-held (reverts why) s h spares = absurd spares
  serve-held restores s h spares = held_unless _ (
      subst
        (λ w.
          SameHold s
            (unless_pending w s (load_rejected s.rejected (parsed calls.parse s.rejected) s)).0)
        (sym h) (SameHold-refl s))
  serve-held rolls_back s h spares = reloaded s _ tt
  serve-held checks_schedule s h spares = schedule_check-held calls s.config _ s tt
  serve-held restarts s h spares = absurd spares
  serve-held (wakes now) s h spares = held_unless _ (
      subst (λ w. SameHold s (after_turn s (turn_waiting calls w now s))) (sym h)
        (turn-held now s spares))

  -- While an apply waits for confirmation, whatever comes of these requests in whatever order, other
  -- than its own confirmation, a revert, a restart, or the waiting unit at the deadline: it keeps
  -- waiting, and the rejected config and the alerts are unchanged; so are the machine and the
  -- record of the applied config, unless a rollback or a schedule check is among the requests.
  -- Another apply, a stale confirmation and a move of the addresses may be among them.
  pub serve_all-held :
      (requests : List Request) (s : Store W)
      → s.pending ≡ some p
      → All (Spares p) requests
      → HeldUnless (Reloading requests) s (serve_all calls requests s)
  unfolding serve_all
  serve_all-held [] s h all = held_unless _ (SameHold-refl s)
  serve_all-held (request ∷ requests) s h (one, all) =
      let (same, router) = serve-held request s h one in
      let rest = serve_all-held requests (serve calls request s) (same.pending ∙ h) all in
      HeldUnless-trans (same, router) rest
