-- ===== src/LoginGuard/Counting.antt =====
-- The counters against what they promise: failures within a sliding window, for each source and
-- for each account.
use fr_os_pblk.Base.{
  ℕ, ◌+◌, ◌/◌, ◌≤◌, ◌<◌, String, ◌≡◌, ◌≢◌, ◌↔◌, refl, sym, ◌∙◌, inl, inr, Bool, true, List, [], ◌∷◌,
  ◌++◌, arith, leb, if◌then◌else◌, Bool-cases, length, length-append, subst, subst₂, All, string_eq,
  ap,
}
use fr_os_pblk.Base.Dict.{Dict, get, del}
use fr_os_pblk.LoginGuard.State.{Settings, Guard, max_tracked, key_of, second}
use fr_os_pblk.LoginGuard.Times.{prune, drop_stale, times, push}
use fr_os_pblk.LoginGuard.Window.{
  in_window, recent, prune-eq-in_window, times-del, recent-drop_stale, in_window-append,
  All-in_window,
}
use fr_os_pblk.LoginGuard.Evict.{length-drop_stale-le, evict_room}
use fr_os_pblk.LoginGuard.Invariant.{IsCounted, IsValid, times-push, count_call-IsValid}
use fr_os_pblk.LoginGuard.Preserved.{
  times-prune_at, key_of-SameCounts, SameCounts-IsValid, save-SameCounts,
}
use fr_os_pblk.LoginGuard.{
  sweep_expired, count_call, count_failure, record_failure, is_unknown, sources, wait_seconds,
  locked_for, account_locked,
}

in_window_idem :
    (window now : ℕ) (ts : List ℕ)
    → in_window window now (in_window window now ts) ≡ in_window window now ts
in_window_idem window now [] = refl
in_window_idem window now (t ∷ ts) = ground (arith, in_window_idem window now ts)

-- While no more than `max_tracked` addresses are tracked, a sweep forgets no recent failure.
recent-count_call :
    (c : Settings) (now : ℕ) (k : String) (g : Guard)
    → IsCounted now g.attempts
    → length g.attempts ≤ max_tracked
    → recent c.window now k (count_call c now g).attempts ≡ recent c.window now k g.attempts
unfolding count_call sweep_expired
recent-count_call c now k g v room =
    let kept = drop_stale c.window now g.attempts in
    ground (
      arith,
      recent-drop_stale c.window now k g.attempts v.unique v.ascending,
      evict_room kept,
      length-drop_stale-le c.window now g.attempts,
    )

module _ (c : Settings) (key : String) (now : ℕ) (g : Guard) (v : IsValid c now g)
    (room : length g.attempts ≤ max_tracked) where
  abbrev swept : Guard
  swept = count_call c now g

  abbrev pushed : Dict String (List ℕ)
  pushed = push c.window key now swept.attempts

  recent-push : times key pushed ≡ recent c.window now key g.attempts ++ now ∷ []
  recent-push = ground (
    arith,
    times-push c.window now swept.attempts (count_call-IsValid c now g v).0.addresses key key,
    recent-count_call c now key g v.addresses room,
    string_eq.test_iff key key,
  )

  abbrev limit_reached : Bool
  limit_reached = leb c.max_attempts (length (recent c.window now key g.attempts) + 1)

  count_failure-eq : (count_failure c key now g).0 ≡ limit_reached
  unfolding count_failure
  count_failure-eq = rw recent-push (ap (leb c.max_attempts) (length-append _ (now ∷ [])))

  attempts_after :
      (count_failure c key now g).1.attempts ≡ (if limit_reached then del key pushed else pushed)
  unfolding count_failure
  attempts_after =
      (save-SameCounts c _).attempts
      ∙ ap (λ b. if b then del key pushed else pushed) count_failure-eq

  -- The failures of `key` that count afterwards: none after a ban, else one more.
  recent_after_self :
      recent c.window now key (count_failure c key now g).1.attempts
      ≡ (if limit_reached then [] else recent c.window now key g.attempts ++ now ∷ [])
  recent_after_self = rw attempts_after (
      ground (
        arith,
        times-del key key pushed,
        recent-push,
        in_window-append c.window now (recent c.window now key g.attempts) (now ∷ []),
        in_window_idem c.window now (times key g.attempts),
        string_eq.test_iff key key,
      ))

  recent_after_ne :
      (j : String)
      → j ≢ key
      → recent c.window now j (count_failure c key now g).1.attempts
        ≡ recent c.window now j g.attempts
  recent_after_ne j other = rw attempts_after (
      ground (
        arith,
        times-del key j pushed,
        times-push c.window now swept.attempts (count_call-IsValid c now g v).0.addresses key j,
        recent-count_call c now j g v.addresses room,
        string_eq.test_iff key j,
      ))

-- What a failure of `key` does, where `d` is the table of failures before it: a ban is asked for
-- exactly when the failures of the last window, this one included, reach the limit; then `key`
-- starts over, and else it has this failure added; every other key keeps its recent failures.
abbrev pub CountsFailure : Settings → String → ℕ → Dict String (List ℕ) → Bool × Guard → Type 0
CountsFailure c key now d (banned, g') =
    let before = recent c.window now key d in
    let reached = leb c.max_attempts (length before + 1) in
    (banned ≡ reached)
    × (recent c.window now key g'.attempts ≡ (if reached then [] else before ++ now ∷ []))
    × ((j : String) → j ≢ key → recent c.window now j g'.attempts ≡ recent c.window now j d)

-- In a valid state that tracks at most 5000 addresses, a failed sign-in from `ip` counts as a
-- failure of the key of `ip` in the sliding window: the ban is asked for exactly when the limit is
-- reached, the key then starts over, and other keys' recent failures stay as they are.
pub record_failure-window :
    (c : Settings) (ip : String) (looked_up now : ℕ) (g : Guard)
    → IsValid c now g
    → length g.attempts ≤ max_tracked
    → CountsFailure c
        (key_of c ip looked_up g).0
        now
        g.attempts
        (record_failure c ip looked_up now g)
unfolding record_failure
record_failure-window c ip looked_up now g v room =
    let (key, found) = key_of c ip looked_up g in
    let same = key_of-SameCounts c ip looked_up g in
    let valid = SameCounts-IsValid c now found g same v in
    let fits = subst (λ d. length d ≤ max_tracked) (sym same.attempts) room in
    subst (λ d. CountsFailure c key now d (count_failure c key now found)) same.attempts
      (
        count_failure-eq c key now found valid fits,
        recent_after_self c key now found valid fits,
        recent_after_ne c key now found valid fits,
      )

-- Per account -----------------------------------------------------------------------------------

wait_seconds_bounds :
    (limit window now : ℕ) (ts : List ℕ)
    → 0 < limit
    → All (λ t. t ≤ now) ts
    → second ≤ window
    → ((0 < wait_seconds limit window now ts) ↔ (limit ≤ length ts))
      × (wait_seconds limit window now ts ≤ window / second)
unfolding wait_seconds
wait_seconds_bounds limit window now [] h p w = ground arith
wait_seconds_bounds limit window now (t ∷ ts) h p w = let head = p.0 in ground arith

-- A query of an account's lock, where `table` and `known` are the failures and the known sources
-- before it: above 0 exactly when the source is not known and the failures of the last window
-- reach the limit; at most a window; and the account's recent failures stay as they are.
abbrev pub TellsLock :
    Settings
    → String
    → String
    → ℕ
    → Dict String (List ℕ)
    → Dict String (Dict String ℕ)
    → ℕ × Guard
    → Type 0
TellsLock c account key now table known (seconds, g') =
    let failures = recent c.account_window now account table in
    ((0 < seconds) ↔ (
      (is_unknown now (get key (sources account known)) ≡ true)
      × (c.account_max_attempts ≤ length failures)))
    × (seconds ≤ c.account_window / second)
    × (recent c.account_window now account g'.account_attempts ≡ failures)

module _ (c : Settings) (account key : String) (now : ℕ) (g : Guard)
    (limit : 0 < c.account_max_attempts) (window : second ≤ c.account_window)
    (v : IsCounted now g.account_attempts) where
  abbrev failures : List ℕ
  failures = recent c.account_window now account g.account_attempts

  pruned_failures : prune c.account_window now (times account g.account_attempts) ≡ failures
  pruned_failures = prune-eq-in_window c.account_window now _ (v.ascending account)

  locked_for-TellsLock :
      TellsLock c account key now g.account_attempts g.known (locked_for c account key now g)
  unfolding locked_for
  locked_for-TellsLock =
      let bounds =
        wait_seconds_bounds c.account_max_attempts c.account_window now failures limit
          (All-in_window c.account_window now (λ t. t ≤ now) _ (v.past account)) window in
      let after =
        times-prune_at c.account_window now account account g.account_attempts v.ascending in
      let again = in_window_idem c.account_window now (times account g.account_attempts) in
      elim (Bool-cases (is_unknown now (get key (sources account g.known)))) [
        | inl unknown ↦
            rw (unknown, pruned_failures)
              (
                (λ locked. (refl, bounds.0.0 locked), λ reached. bounds.0.1 reached.1),
                bounds.1,
                ground (arith, after, again, string_eq.test_iff account account),
              )
        | inr known ↦ rw known ((λ locked. ground arith, λ reached. cc), omega arith, refl)
      ]

-- With a limit above 0 and a window of a second or more, in a valid state: `account_locked` is
-- above 0 exactly for a source that is not known when the failures of the last window reach the
-- limit, it is at most the window, and the account's recent failures stay as they are.
pub account_locked-window :
    (c : Settings) (account ip : String) (looked_up now : ℕ) (g : Guard)
    → 0 < c.account_max_attempts
    → second ≤ c.account_window
    → IsValid c now g
    → TellsLock c account
        (key_of c ip looked_up g).0
        now
        g.account_attempts
        g.known
        (account_locked c account ip looked_up now g)
unfolding account_locked
account_locked-window c account ip looked_up now g limit window v =
    let (key, found) = key_of c ip looked_up g in
    let same = key_of-SameCounts c ip looked_up g in
    let valid = SameCounts-IsValid c now found g same v in
    subst₂
      (λ table known. TellsLock c account key now table known (locked_for c account key now found))
      same.account_attempts same.known
      (locked_for-TellsLock c account key now found limit window valid.accounts)
