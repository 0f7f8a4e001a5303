-- ===== src/LoginGuard/Tests.antt =====
-- Runs of the guard on concrete calls, and the theorems at concrete inputs.
use fr_os_pblk.Base.{
  ◌+◌, ◌*◌, ◌≤◌, ◌<◌, String, ◌≡◌, refl, true, false, none, some, List, [], ◌∷◌, arith, length,
  subst, sym,
}
use fr_os_pblk.Base.Dict.{get, put}
use fr_os_pblk.LoginGuard.State.{
  Settings, Guard, key_of, source, jail_key, has_colon, look_up, second, max_tracked,
  sweep_interval, device_key,
}
use fr_os_pblk.LoginGuard.Times.{prune, times, push}
use fr_os_pblk.LoginGuard.Invariant.{IsValid}
use fr_os_pblk.LoginGuard.Counting.{
  CountsFailure, TellsLock, record_failure-window, account_locked-window,
}
use fr_os_pblk.LoginGuard.Restart.{CountsLike, start-save}
use fr_os_pblk.LoginGuard.Runs.{Call, fail, step, run, blank-IsValid, run-IsValid, run_bounded}
use fr_os_pblk.LoginGuard.{
  count_call, save, count_failure, record_failure, account_locked, blank, start,
}

-- The defaults of the source, with one LAN host behind every IPv6 address.
abbrev defaults : Settings
defaults = record {
  max_attempts = 5;
  window = 300 * second;
  account_max_attempts = 10;
  account_window = 900 * second;
  has_state_path = true;
  device_of = some (λ ip. some "aa:bb");
  ip_address = λ ip.
      some (record { is_v6 = has_colon ip; has_scope = false; ipv4_mapped = none; text = ip });
}

abbrev fresh : Guard
fresh = blank none true

abbrev attack : List Call
attack =
    fail "192.0.2.7" 1000 1000
    ∷ fail "192.0.2.7" 2000 2000
    ∷ fail "192.0.2.9" 2500 2500
    ∷ fail "192.0.2.7" 3000 3000
    ∷ fail "192.0.2.7" 4000 4000
    ∷ []

abbrev attacked : Guard
attacked = run defaults attack fresh

attacked_recorded :
    (attacked.attempts
      ≡ ("192.0.2.7", 1000 ∷ 2000 ∷ 3000 ∷ 4000 ∷ []) ∷ ("192.0.2.9", 2500 ∷ []) ∷ [])
    × (attacked.is_writable ≡ true)
unfolding run step record_failure key_of count_failure count_call push prune times save get put
    source jail_key has_colon
attacked_recorded = (refl, refl)

fifth_failure_bans : (record_failure defaults "192.0.2.7" 5000 5000 attacked).0 ≡ true
unfolding run step record_failure key_of count_failure count_call push prune times save get put
    source jail_key has_colon
fifth_failure_bans = refl

-- Two IPv6 addresses of one host count as one source.
one_host : (key_of defaults "2001:db8::1" 0 fresh).0 ≡ "mac:aa:bb"
unfolding key_of source jail_key has_colon look_up device_key get
one_host = refl

attacked-IsValid : IsValid defaults 4000 attacked
attacked-IsValid =
    run-IsValid defaults 0 attack fresh (blank-IsValid defaults none true (omega arith))
      (omega arith)

attacked_room : length attacked.attempts ≤ max_tracked
attacked_room = subst (λ d. length d ≤ max_tracked) (sym attacked_recorded.0) (omega arith)

record_failure-window_example :
    CountsFailure defaults
      (key_of defaults "192.0.2.7" 4000 attacked).0
      4000
      attacked.attempts
      (record_failure defaults "192.0.2.7" 4000 4000 attacked)
record_failure-window_example =
    record_failure-window defaults "192.0.2.7" 4000 4000 attacked attacked-IsValid attacked_room

account_locked-window_example :
    TellsLock defaults "admin"
      (key_of defaults "192.0.2.7" 4000 attacked).0
      4000
      attacked.account_attempts
      attacked.known
      (account_locked defaults "admin" "192.0.2.7" 4000 4000 attacked)
account_locked-window_example =
    account_locked-window defaults "admin" "192.0.2.7" 4000 4000 attacked (omega arith)
      (omega arith) attacked-IsValid

start-save_example :
    let g' = start defaults 4000 (save defaults attacked).file true in
    IsValid defaults 4000 g' × CountsLike defaults 4000 g' attacked
start-save_example =
    start-save defaults 4000 attacked true refl attacked_recorded.1 attacked-IsValid attacked_room

run_bounded_example :
    let g = run defaults attack fresh in
    (length g.attempts ≤ max_tracked + sweep_interval)
    × (length g.account_attempts ≤ max_tracked)
    × ((ip : String) → length (times ip g.attempts) < 5)
run_bounded_example = run_bounded defaults attack none true (omega arith) (omega arith)

run-IsValid_example : IsValid defaults 4000 (run defaults attack fresh)
run-IsValid_example =
    run-IsValid defaults 0 attack fresh (blank-IsValid defaults none true (omega arith))
      (omega arith)
