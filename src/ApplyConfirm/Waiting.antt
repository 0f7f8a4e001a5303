-- ===== src/ApplyConfirm/Waiting.antt =====
-- The waiting unit: it ends, and it does not revert before the deadline.
use fr_os_pblk.Base.{
  ℕ, zero, suc, min, ◌+◌, ◌-◌, ◌<◌, ◌≤◌, String, ◌≡◌, refl, ◌∙◌, Option, none, some, arith, inl,
  inr, ◌⊎◌, leb-true, leb-false,
}
use fr_os_pblk.ApplyConfirm.Store.{Pending, Store, Calls, remaining}
use fr_os_pblk.ApplyConfirm.Revert.{revert, ended, sleeps, turn, turn_waiting, wait}

leb_cases : (a b : ℕ) → (a ≤ b) ⊎ (b < a)
leb_cases a b = ground arith

abbrev pub alert_text : String
alert_text = "no confirmation within the time"

module _ {W Config : Type 0} (calls : Calls W Config) (p : Pending) where
  turn_over :
      (waiting : Option Pending) (now : ℕ) (s : Store W)
      → waiting ≡ some p
      → p.deadline ≤ now
      → turn_waiting calls waiting now s ≡ ended (revert calls alert_text s).0
  unfolding turn_waiting
  turn_over waiting now s h over = rw (h, leb-true p.deadline now over) refl

  turn_early :
      (waiting : Option Pending) (now : ℕ) (s : Store W)
      → waiting ≡ some p
      → now < p.deadline
      → turn_waiting calls waiting now s ≡ sleeps (min 1000 (p.deadline - now))
  unfolding turn_waiting
  turn_early waiting now s h early = rw (h, leb-false p.deadline now early) refl

  turn_idle :
      (waiting : Option Pending) (now : ℕ) (s : Store W)
      → waiting ≡ none
      → turn_waiting calls waiting now s ≡ ended s
  unfolding turn_waiting
  turn_idle waiting now s h = rw h refl

  remaining_falls :
      (now later : ℕ)
      → now < p.deadline
      → now + min 1000 (p.deadline - now) ≤ later
      → remaining p later < remaining p now
  unfolding remaining
  remaining_falls now later early h = omega arith

  module _ (others : ℕ → Store W → Store W) (oversleep : ℕ → ℕ) where
    wait_ended :
        (fuel now : ℕ) (s s' : Store W)
        → turn calls now s ≡ ended s'
        → wait calls others oversleep (suc fuel) now s ≡ some (now, s')
    unfolding wait
    wait_ended fuel now s s' h = ground arith

    wait_sleeps :
        (fuel now left : ℕ) (s : Store W)
        → turn calls now s ≡ sleeps left
        → let woken = (now + left) + oversleep now in
          wait calls others oversleep (suc fuel) now s
          ≡ wait calls others oversleep fuel woken (others woken s)
    unfolding wait
    wait_sleeps fuel now left s h = ground arith

    -- The wait ends with a revert of a store in which the apply was still waiting, in time.
    abbrev pub EndsInTime : ℕ → ℕ → Option (ℕ × Store W) → Type 0
    EndsInTime late now result =
        (end : ℕ) × (s : Store W) × (result ≡ some (end, (revert calls alert_text s).0))
        × (s.pending ≡ some p)
        × (p.deadline ≤ end)
        × ((end ≤ p.deadline + late) ⊎ (end ≡ now))

    -- An apply that nobody else confirms or reverts, while config.yaml may be edited: with a turn
    -- for each second that remains and one more, the wait ends, by a revert, not before the
    -- deadline, and no later after it than the unit oversleeps, or at once if it is past already.
    pub wait-EndsInTime :
        (late fuel now : ℕ) (s : Store W)
        → ((t : ℕ) → oversleep t ≤ late)
        → ((t : ℕ) (u : Store W) → u.pending ≡ some p → (others t u).pending ≡ some p)
        → s.pending ≡ some p
        → remaining p now < fuel
        → EndsInTime late now (wait calls others oversleep fuel now s)
    unfolding turn
    wait-EndsInTime late zero now s prompt spared h enough = ground arith
    wait-EndsInTime late (suc fuel) now s prompt spared h enough = elim (leb_cases p.deadline now) [
      | inl over ↦
          (now, s, wait_ended fuel now s _ (turn_over s.pending now s h over), h, over, inr refl)
      | inr early ↦
          let left = min 1000 (p.deadline - now) in
          let woken = (now + left) + oversleep now in
          let falls = remaining_falls now woken early (omega arith) in
          let (end, u, ends, waiting, over, bound) =
            wait-EndsInTime late fuel woken (others woken s) prompt spared (spared woken s h)
              (omega (arith, falls, enough)) in
          let at_first = wait_sleeps fuel now left s (turn_early s.pending now s h early) in
          (end, u, at_first ∙ ends, waiting, over, inl (ground (arith, prompt now, bound)))
    ]

    -- A confirmation while the unit sleeps: it ends at its next turn, within a second and what it
    -- oversleeps, and reverts nothing.
    pub wait_confirmed :
        (fuel now : ℕ) (s : Store W)
        → s.pending ≡ some p
        → now < p.deadline
        → ((t : ℕ) → (others t s).pending ≡ none)
        → (end : ℕ) × (wait calls others oversleep (suc (suc fuel)) now s
            ≡ some (end, others end s))
          × (end ≤ (now + 1000) + oversleep now)
    unfolding turn
    wait_confirmed fuel now s h early confirmed =
        let left = min 1000 (p.deadline - now) in
        let woken = (now + left) + oversleep now in
        let at_first = wait_sleeps (suc fuel) now left s (turn_early s.pending now s h early) in
        (
          woken,
          at_first ∙ wait_ended fuel woken _ _ (turn_idle _ woken _ (confirmed woken)),
          omega arith,
        )
