-- ===== src/LoginGuard/Window.antt =====
-- Pruning as a sliding window: on ascending time stamps `prune` keeps exactly the recent ones.
use fr_os_pblk.Base.{
  ℕ, ◌+◌, ◌≤◌, String, ◌≡◌, ◌≢◌, refl, inl, inr, true, not, none, List, [], ◌∷◌, ◌++◌, arith, ltb,
  if◌then◌else◌, Bool-cases, Option-cases, keep, All, ◌==◌, string_eq,
}
use fr_os_pblk.Base.Dict.{Dict, get, put, get-put, get-del, del}
use fr_os_pblk.Base.Dict.Keys.{Unique, get-keep}
use fr_os_pblk.LoginGuard.Times.{prune, last?, is_stale, drop_stale, times}

abbrev pub Ascends : List ℕ → Type 0
Ascends [] = Unit
Ascends (t ∷ ts) = All (λ u. t ≤ u) ts × Ascends ts

-- The time stamps that are at most `window` old.
abbrev pub in_window : ℕ → ℕ → List ℕ → List ℕ
in_window window now ts = keep (λ t. not (ltb (t + window) now)) ts

module _ (window now : ℕ) where
  keep_recent :
      (t : ℕ) (ts : List ℕ) → now ≤ t + window → All (λ u. t ≤ u) ts → in_window window now ts ≡ ts
  keep_recent t [] h a = refl
  keep_recent t (u ∷ us) h a = ground (arith, keep_recent t us h a.1)

  pub prune-eq-in_window :
      (ts : List ℕ) → Ascends ts → prune window now ts ≡ in_window window now ts
  unfolding prune
  prune-eq-in_window [] a = refl
  prune-eq-in_window (t ∷ ts) a = ground (arith, prune-eq-in_window ts a.1, keep_recent t ts)

  pub in_window-append :
      (ts us : List ℕ)
      → in_window window now (ts ++ us) ≡ in_window window now ts ++ in_window window now us
  in_window-append [] us = refl
  in_window-append (t ∷ ts) us = ground (arith, in_window-append ts us)

  pub All-in_window {κ} :
      (P : ℕ → Type κ) (ts : List ℕ) → All P ts → All P (in_window window now ts)
  All-in_window P [] a = tt
  All-in_window P (t ∷ ts) a = elim (Bool-cases (ltb (t + window) now)) [
    | inl old ↦ rw old (All-in_window P ts a.1)
    | inr new ↦ rw new (a.0, All-in_window P ts a.1)
  ]

  pub in_window-Ascends : (ts : List ℕ) → Ascends ts → Ascends (in_window window now ts)
  in_window-Ascends [] a = tt
  in_window-Ascends (t ∷ ts) a = elim (Bool-cases (ltb (t + window) now)) [
    | inl old ↦ rw old (in_window-Ascends ts a.1)
    | inr new ↦ rw new (All-in_window (λ u. t ≤ u) ts a.0, in_window-Ascends ts a.1)
  ]

  last?-ne-none : (t : ℕ) (ts : List ℕ) → last? (t ∷ ts) ≢ none
  unfolding last?
  last?-ne-none t [] = cc
  last?-ne-none t (u ∷ us) = last?-ne-none u us

  -- Where the last time stamp is out of the window, all are.
  in_window-stale :
      (ts : List ℕ) → Ascends ts → is_stale window now ts ≡ true → in_window window now ts ≡ []
  unfolding is_stale last?
  in_window-stale [] a h = refl
  in_window-stale (t ∷ []) a h = ground arith
  in_window-stale (t ∷ u ∷ us) a h =
      ground (arith, in_window-stale (u ∷ us) a.1 h, keep_recent t (u ∷ us))

  -- The failures of a key that still count.
  abbrev pub recent : String → Dict String (List ℕ) → List ℕ
  recent k d = in_window window now (times k d)

pub times-put :
    (k j : String) (ts : List ℕ) (d : Dict String (List ℕ))
    → times j (put k ts d) ≡ (if k == j then ts else times j d)
unfolding times
times-put k j ts d = ground (arith, get-put k j ts d)

pub times-del :
    (k j : String) (d : Dict String (List ℕ))
    → times j (del k d) ≡ (if k == j then [] else times j d)
unfolding times
times-del k j d = ground (arith, get-del k j d)

abbrev pub AscendingValues : Dict String (List ℕ) → Type 0
AscendingValues d = (k : String) → Ascends (times k d)

-- The sweep for expired entries changes no key's recent failures.
pub recent-drop_stale :
    (window now : ℕ) (k : String) (d : Dict String (List ℕ))
    → Unique d
    → AscendingValues d
    → recent window now k (drop_stale window now d) ≡ recent window now k d
unfolding drop_stale times
recent-drop_stale window now k d u a =
    let kept = get-keep (λ ts. not (is_stale window now ts)) k d u in
    let ascends = a k in
    elim (Option-cases (get k d)) [
      | inl absent ↦ ground (arith, kept)
      | inr (ts, found) ↦ ground (arith, kept, in_window-stale window now ts)
    ]
