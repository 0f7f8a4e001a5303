-- ===== src/ApplyConfirm/Applies.antt =====
-- What an apply does to the record of the applied config and to the pending apply.
use fr_os_pblk.Base.{
  ℕ, String, ◌≡◌, ◌≢◌, refl, Bool, true, ◌&&◌, Option, none, some, List, arith, Bool-cases, inl,
  inr, ◌⊎◌, string_eq,
}
use fr_os_pblk.Provision.Machinery.{Ending, applied, failed}
use fr_os_pblk.Provision.Apply.{Router}
use fr_os_pblk.Provision.Outcome.{Records, apply_all-Records}
use fr_os_pblk.ApplyConfirm.Store.{Pending, Store, Calls, needs_confirmation, begin, confirm}
use fr_os_pblk.ApplyConfirm.Requests.{
  Circumstances, Reply, hold, applied_or_raised, unless_moved, apply_waiting, apply_locked,
  restoring_text, move_parsed, move_waiting, move_text, set_management_addresses, begun, is_ok,
  has_unapplied,
}

needs_confirmation-differs :
    (seconds : ℕ) (text previous : String)
    → needs_confirmation seconds text (some previous) ≡ true
    → previous ≢ text
unfolding needs_confirmation
needs_confirmation-differs seconds text previous h same =
    ground (arith, (string_eq.test_iff previous text).1 same)

and_right : (a b : Bool) → a && b ≡ true → b ≡ true
and_right a b h = ground arith

module _ {W Config : Type 0} (calls : Calls W Config) where
  -- Either the record and the pending apply stay; or `text` is on record, and what is pending, if
  -- anything, goes back to the config recorded before, which is another one.
  abbrev pub Applies : String → Store W → Store W → Type 0
  Applies text s s' =
      ((s'.router.recorded ≡ s.router.recorded) × (s'.pending ≡ s.pending))
      ⊎ ((s.pending ≡ none)
          × (s'.router.recorded ≡ some text)
          × ((s'.pending ≡ none)
              ⊎ ((p : Pending) × (s'.pending ≡ some p)
                  × (s.router.recorded ≡ some p.previous)
                  × (p.previous ≢ text))))

  module _ (c : Circumstances) where
    begin-Applies :
        (text previous : String) (seconds : ℕ) (addresses : List String) (start : Option String)
        (messages : List String) (s s₀ : Store W)
        → s₀.pending ≡ none
        → s₀.router.recorded ≡ some previous
        → s.router.recorded ≡ some text
        → previous ≢ text
        → Applies text s₀
            (begun calls c messages (begin previous seconds c.user addresses c.id c.now start s)).0
    unfolding begin
    begin-Applies text previous seconds addresses (some problem) messages s s₀ idle₀ b r differs =
        inr (idle₀, r, inl refl)
    begin-Applies text previous seconds addresses none messages s s₀ idle₀ b r differs =
        inr (idle₀, r, inr (_, refl, b, differs))

    hold-Applies :
        (config : Config) (text : String) (confirm : Bool) (before : Option String)
        (messages : List String) (s s₀ : Store W)
        → s₀.pending ≡ none
        → s.pending ≡ none
        → s₀.router.recorded ≡ before
        → s.router.recorded ≡ some text
        → Applies text s₀ (hold calls c config text confirm before messages s).0
    unfolding hold
    hold-Applies config text confirm none messages s s₀ idle₀ idle b r = inr (idle₀, r, inl idle)
    hold-Applies config text confirm (some previous) messages s s₀ idle₀ idle b r =
        let seconds = calls.confirm_apply_seconds config in
        elim (Bool-cases (confirm && needs_confirmation seconds text (some previous))) [
          | inl needed ↦ rw needed (
              begin-Applies text previous seconds (calls.reachable config) c.start messages s s₀
                idle₀ b r
                (needs_confirmation-differs seconds text previous (and_right confirm _ needed)))
          | inr unneeded ↦ rw unneeded (inr (idle₀, r, inl idle))
        ]

    applied_or_raised-Applies :
        (config : Config) (text : String) (confirm : Bool) (s : Store W)
        (result : Router W × Ending)
        → s.pending ≡ none
        → Records (some text) s.router result
        → Applies text s (applied_or_raised calls c config text confirm s result).0
    unfolding applied_or_raised
    applied_or_raised-Applies config text confirm s (router, failed e) idle records =
        inl (records, refl)
    applied_or_raised-Applies config text confirm s (router, applied messages) idle records =
        hold-Applies config text confirm s.router.recorded messages (record s { router = router }) s
          idle idle refl records

    unless_moved-Applies :
        (config : Config) (text : String) (confirm : Bool) (moved : Option String) (s : Store W)
        → s.pending ≡ none
        → Applies text s (unless_moved calls c config text confirm moved s).0
    unfolding unless_moved
    unless_moved-Applies config text confirm (some moved) s idle = inl (refl, refl)
    unless_moved-Applies config text confirm none s idle =
        applied_or_raised-Applies config text confirm s _ idle (
          apply_all-Records calls.parse calls.checks calls.subsystems config (some text) true
            s.router)

    apply_waiting-Applies :
        (config : Config) (text : String) (confirm : Bool) (waiting : Option Pending) (s : Store W)
        → s.pending ≡ waiting
        → Applies text s (apply_waiting calls c config text confirm waiting s).0
    unfolding apply_waiting
    apply_waiting-Applies config text confirm (some p) s h = inl (refl, refl)
    apply_waiting-Applies config text confirm none s h =
        unless_moved-Applies config text confirm _ s h

    -- Every ending of an apply request: the record of the applied config and the pending apply stay
    -- as they are; or nothing was pending, the new text is on record, and what is pending, if
    -- anything, goes back to the text recorded before, which is another one.
    pub apply_locked-Applies :
        (config : Config) (text : String) (confirm : Bool) (s : Store W)
        → Applies text s (apply_locked calls c config text confirm s).0
    unfolding apply_locked
    apply_locked-Applies config text confirm s =
        apply_waiting-Applies config text confirm s.pending s refl

    restoring_text-Applies :
        (text new_text : String) (s s₀ : Store W) (reply : Reply)
        → Applies new_text s₀ s
        → Applies new_text s₀ (restoring_text text (s, reply)).0
    unfolding restoring_text
    restoring_text-Applies text new_text s s₀ reply h = elim (Bool-cases (is_ok reply)) [
      | inl r ↦ rw r h
      | inr r ↦ rw r h
    ]

    -- What a request that moves the management addresses does, for some text that parses.
    abbrev pub Moves : Store W → Store W → Type 0
    Moves s s' =
        (new_text : String) × (config : Config) × (calls.parse new_text ≡ some config)
        × Applies new_text s s'

    abbrev pub Moved : Store W → Store W → Type 0
    Moved s s' = ((s'.router.recorded ≡ s.router.recorded) × (s'.pending ≡ s.pending)) ⊎ Moves s s'

    move_parsed-Moved :
        (text new_text : String) (config : Option Config) (s : Store W)
        → calls.parse new_text ≡ config
        → Moved s (move_parsed calls c text new_text config s).0
    unfolding move_parsed
    move_parsed-Moved text new_text none s h = inl (refl, refl)
    move_parsed-Moved text new_text (some config) s h = inr (
      new_text,
      config,
      h,
      restoring_text-Applies text new_text _ s _
          (apply_locked-Applies config new_text true (record s { config = some new_text })),
    )

    move_waiting-Moved :
        (addresses : List String) (text : String) (waiting : Option Pending) (s : Store W)
        → Moved s (move_waiting calls c addresses text waiting s).0
    unfolding move_waiting
    move_waiting-Moved addresses text (some p) s = inl (refl, refl)
    move_waiting-Moved addresses text none s =
        elim (Bool-cases (has_unapplied s.router.recorded text)) [
          | inl h ↦ rw h (inl (refl, refl))
          | inr r ↦ rw r (move_parsed-Moved text _ _ s refl)
        ]

    move_text-Moved :
        (addresses : List String) (text : Option String) (s : Store W)
        → Moved s (move_text calls c addresses text s).0
    unfolding move_text
    move_text-Moved addresses none s = inl (refl, refl)
    move_text-Moved addresses (some text) s = move_waiting-Moved addresses text s.pending s

    pub set_management_addresses-Moved :
        (addresses : List String) (s : Store W)
        → Moved s (set_management_addresses calls c addresses s).0
    unfolding set_management_addresses
    set_management_addresses-Moved addresses s = move_text-Moved addresses s.config s
