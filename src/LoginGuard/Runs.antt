-- ===== src/LoginGuard/Runs.antt =====
-- Runs of the guard: any sequence of calls, with a clock that does not go backwards.
use fr_os_pblk.Base.{ℕ, ◌+◌, ◌≤◌, ◌<◌, String, Bool, Option, List, [], ◌∷◌, arith, length}
use fr_os_pblk.Base.Dict.{get}
use fr_os_pblk.LoginGuard.State.{Settings, Guard, Saved, max_tracked, sweep_interval, key_of}
use fr_os_pblk.LoginGuard.Times.{times}
use fr_os_pblk.LoginGuard.Invariant.{IsValid}
use fr_os_pblk.LoginGuard.Preserved.{
  IsValid-later, key_of-SameCounts, SameCounts-IsValid, count_failure-IsValid, note_success-IsValid,
  record_account_failure-IsValid, locked_for-IsValid,
}
use fr_os_pblk.LoginGuard.{
  sources, record_failure, record_success, record_account_failure, account_locked, blank,
}

-- A call of one method; the times are the readings of the clock.
pub data Call : Type 0 where
  fail : String → ℕ → ℕ → Call
  succeed : String → Option String → ℕ → ℕ → Call
  fail_account : String → ℕ → Call
  ask : String → String → ℕ → ℕ → Call

abbrev pub time : Call → ℕ
time (fail ip looked_up now) = now
time (succeed ip account looked_up now) = now
time (fail_account account now) = now
time (ask account ip looked_up now) = now

unfoldable pub step : Settings → Call → Guard → Guard
step c (fail ip looked_up now) g = (record_failure c ip looked_up now g).1
step c (succeed ip account looked_up now) g = (record_success c ip account looked_up now g).1
step c (fail_account account now) g = record_account_failure c account now g
step c (ask account ip looked_up now) g = (account_locked c account ip looked_up now g).1

unfoldable pub run : Settings → List Call → Guard → Guard
run c [] g = g
run c (call ∷ calls) g = run c calls (step c call g)

-- The clock starts at `now` or later and does not go backwards.
abbrev pub InOrder : ℕ → List Call → Type 0
InOrder now [] = Unit
InOrder now (call ∷ calls) = (now ≤ time call) × InOrder (time call) calls

abbrev pub end : ℕ → List Call → ℕ
end now [] = now
end now (call ∷ calls) = end (time call) calls

found-IsValid :
    (c : Settings) (ip : String) (looked_up now : ℕ) (g : Guard)
    → IsValid c now g
    → IsValid c now (key_of c ip looked_up g).1
found-IsValid c ip looked_up now g v =
    SameCounts-IsValid c now _ g (key_of-SameCounts c ip looked_up g) v

step-IsValid :
    (c : Settings) (call : Call) (g : Guard)
    → IsValid c (time call) g
    → IsValid c (time call) (step c call g)
unfolding step record_failure record_success account_locked
step-IsValid c (fail ip looked_up now) g v =
    count_failure-IsValid c _ now _ (found-IsValid c ip looked_up now g v)
step-IsValid c (succeed ip account looked_up now) g v =
    note_success-IsValid c _ now _ (found-IsValid c ip looked_up now g v) account
step-IsValid c (fail_account account now) g v = record_account_failure-IsValid c "" now g v account
step-IsValid c (ask account ip looked_up now) g v =
    locked_for-IsValid c _ now _ (found-IsValid c ip looked_up now g v) account

-- Any sequence of calls in the order of the clock keeps a valid state valid: keys are unique, each
-- list of times ascends and ends no later than now, no source has as many failures on record as a
-- ban takes, and the tables and the count of calls since the last sweep stay in their bounds.
pub run-IsValid :
    (c : Settings) (now : ℕ) (calls : List Call) (g : Guard)
    → IsValid c now g
    → InOrder now calls
    → IsValid c (end now calls) (run c calls g)
unfolding run
run-IsValid c now [] g v o = v
run-IsValid c now (call ∷ calls) g v o =
    run-IsValid c (time call) calls (step c call g)
      (step-IsValid c call g (IsValid-later c now (time call) g o.0 v)) o.1

-- The initial state is valid, if at least one failure is needed for a ban.
pub blank-IsValid :
    (c : Settings) (file : Option Saved) (w : Bool)
    → 0 < c.max_attempts
    → IsValid c 0 (blank file w)
unfolding times sources get
blank-IsValid c file w positive = record {
  addresses = record { unique = tt; ascending = λ k. tt; past = λ k. tt };
  accounts = record { unique = tt; ascending = λ k. tt; past = λ k. tt };
  below = λ k. positive;
  swept = omega arith;
  fits = omega arith;
  accounts_fit = omega arith;
  known_once = λ account. tt;
}

-- Whatever calls arrive, in the order of the clock and starting from empty tables: no more than
-- 5100 sources and no more than 5000 accounts are tracked, and no source has as many failures on
-- record as a ban takes.
pub run_bounded :
    (c : Settings) (calls : List Call) (file : Option Saved) (w : Bool)
    → 0 < c.max_attempts
    → InOrder 0 calls
    → let g = run c calls (blank file w) in
      (length g.attempts ≤ max_tracked + sweep_interval)
      × (length g.account_attempts ≤ max_tracked)
      × ((ip : String) → length (times ip g.attempts) < c.max_attempts)
run_bounded c calls file w positive o =
    let v = run-IsValid c 0 calls (blank file w) (blank-IsValid c file w positive) o in
    (omega (arith, v.fits, v.swept), v.accounts_fit, v.below)
