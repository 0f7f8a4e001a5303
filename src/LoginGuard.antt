-- ===== src/LoginGuard.antt =====
-- src/frfw/webui/auth_rate_limiter.py (BruteforceGuard, reject_failed_login) and jail_key of
-- src/frfw/bruteforce.py. Times are milliseconds, and each reading of the clock is an argument.
-- The lock makes each method atomic: a method is a function from the state to the new state.
pub mod State
pub mod Times
mod Window
mod Evict
mod Invariant
mod Preserved
mod Counting
mod Restart
mod Runs
mod Tests
use fr_os_pblk.LoginGuard.State.{
  second, sweep_interval, max_tracked, known_source_time, device_cache_time, device_cache_size,
  ban_duration_seconds, Address, Settings, Saved, Guard, jail_key, source, has_colon, device_key,
  remember, look_up, key_of,
}
use fr_os_pblk.LoginGuard.Times.{
  prune, last?, is_stale, drop_stale, times, push, insert_by_last, sort_by_last, del_all, evict,
}
use fr_os_pblk.Base.{
  ℕ, zero, suc, ◌+◌, ◌-◌, ◌*◌, ◌/◌, String, Bool, true, false, not, ◌&&◌, ◌||◌, Option, none, some,
  List, [], ◌∷◌, ◌++◌, map, ltb, leb, if◌then◌else◌, ◌==◌, string_eq, nat_eq, length, keep, take,
}
use fr_os_pblk.Base.Dict.{Dict, get, put, del}

-- `_sweep_expired`
pub sweep_expired : Settings → ℕ → Guard → Guard
sweep_expired c now g = record g {
  attempts = evict (drop_stale c.window now g.attempts);
  account_attempts = drop_stale c.account_window now g.account_attempts;
}

pub count_call : Settings → ℕ → Guard → Guard
count_call c now g =
    if leb sweep_interval (g.calls_since_sweep + 1)
    then sweep_expired c now (record g { calls_since_sweep = 0 })
    else record g { calls_since_sweep = g.calls_since_sweep + 1 }

-- `_save`; a write that fails leaves the file as it was.
pub save : Settings → Guard → Guard
save c g =
    if c.has_state_path && g.is_writable
    then record g {
      file = some (record { ips = g.attempts; accounts = g.account_attempts; known = g.known });
    }
    else g

-- The methods.

-- `record_failure`: `looked_up` is the clock in `_key`, `now` the one after it.
pub count_failure : Settings → String → ℕ → Guard → Bool × Guard
count_failure c key now g =
    let swept = count_call c now g in
    let attempts = push c.window key now swept.attempts in
    let banned = leb c.max_attempts (length (times key attempts)) in
    (banned, save c (record swept { attempts = if banned then del key attempts else attempts }))

pub record_failure : Settings → String → ℕ → ℕ → Guard → Bool × Guard
record_failure c ip looked_up now g =
    let (key, g') = key_of c ip looked_up g in count_failure c key now g'

pub sources : String → Dict String (Dict String ℕ) → Dict String ℕ
sources account known = elim (get account known) [ none ↦ [] | some d ↦ d ]

-- `seen is None or now - seen > KNOWN_SOURCE_SECONDS`
pub is_unknown : ℕ → Option ℕ → Bool
is_unknown now none = true
is_unknown now (some seen) = ltb (seen + known_source_time) now

pub is_empty : Dict String ℕ → Bool
is_empty [] = true
is_empty (entry ∷ d) = false

pub note_success : Settings → String → Option String → ℕ → Guard → Bool × Guard
note_success c key none now g = (false, save c (record g { attempts = del key g.attempts }))
note_success c key (some account) now g =
    let known = sources account g.known in
    (
      not (is_empty known) && is_unknown now (get key known),
      save c (record g {
        attempts = del key g.attempts;
        account_attempts = del account g.account_attempts;
        known = put account (put key now known) g.known;
      }),
    )

pub record_success : Settings → String → Option String → ℕ → ℕ → Guard → Bool × Guard
record_success c ip account looked_up now g =
    let (key, g') = key_of c ip looked_up g in note_success c key account now g'

pub record_account_failure : Settings → String → ℕ → Guard → Guard
record_account_failure c account now g = elim (get account g.account_attempts) [
  | none ↦
      if leb max_tracked (length g.account_attempts)
      then g
      else save c
          (record g { account_attempts = push c.account_window account now g.account_attempts })
  | some ts ↦
      save c (record g { account_attempts = push c.account_window account now g.account_attempts })
]

-- `max(1, int(timestamps[0] + window - now))` of a pruned list that is long enough, in seconds.
pub wait_seconds : ℕ → ℕ → ℕ → List ℕ → ℕ
wait_seconds limit window now [] = 0
wait_seconds limit window now (t ∷ ts) =
    if ltb (length (t ∷ ts)) limit
    then 0
    else let left = (t + window - now) / second in if ltb left 1 then 1 else left

-- The list that is pruned is the one in the dict, where there is one.
pub prune_at : ℕ → ℕ → String → Dict String (List ℕ) → Dict String (List ℕ)
prune_at window now k d = elim (get k d) [ none ↦ d | some ts ↦ put k (prune window now ts) d ]

pub locked_for : Settings → String → String → ℕ → Guard → ℕ × Guard
locked_for c account key now g =
    if not (is_unknown now (get key (sources account g.known))) then (0, g) else (
      wait_seconds c.account_max_attempts c.account_window now
          (prune c.account_window now (times account g.account_attempts)),
      record g { account_attempts = prune_at c.account_window now account g.account_attempts },
    )

pub account_locked : Settings → String → String → ℕ → ℕ → Guard → ℕ × Guard
account_locked c account ip looked_up now g =
    let (key, g') = key_of c ip looked_up g in locked_for c account key now g'

-- `_load` and `reject_failed_login`.

pub insert_time : ℕ → List ℕ → List ℕ
insert_time t [] = t ∷ []
insert_time t (u ∷ us) = if leb t u then t ∷ u ∷ us else u ∷ insert_time t us

pub sorted : List ℕ → List ℕ
sorted [] = []
sorted (t ∷ ts) = insert_time t (sorted ts)

-- `{ip: t for ip, t in ... if now - t <= KNOWN_SOURCE_SECONDS}`
pub recent_sources : ℕ → Dict String ℕ → Dict String ℕ
recent_sources now d = keep (λ entry. not (ltb (entry.1 + known_source_time) now)) d

pub restore : Settings → ℕ → Saved → Guard → Guard
restore c now saved g = sweep_expired c now (record g {
  attempts = map (λ (entry : String × List ℕ). (entry.0, sorted entry.1)) saved.ips;
  account_attempts = map (λ (entry : String × List ℕ). (entry.0, sorted entry.1)) saved.accounts;
  known =
      map (λ (entry : String × Dict String ℕ). (entry.0, recent_sources now entry.1)) saved.known;
})

-- `__init__`: empty tables, then `_load`. The file stays.
abbrev pub blank : Option Saved → Bool → Guard
blank file is_writable = record {
  attempts = [];
  account_attempts = [];
  known = [];
  calls_since_sweep = 0;
  devices = [];
  file = file;
  is_writable = is_writable;
}

load : Settings → ℕ → Option Saved → Guard → Guard
load c now none g = g
load c now (some saved) g = restore c now saved g

pub start : Settings → ℕ → Option Saved → Bool → Guard
start c now file is_writable =
    if c.has_state_path then load c now file (blank file is_writable) else blank file is_writable

pub data Reply : Type 0 where
  temporarily_blocked : Reply
  invalid_credentials : Reply

-- The reply, the `ban_ip` request to the helper if there is one, and the new state.
pub reject_failed_login :
    Settings → String → Option String → ℕ → ℕ → Guard → Reply × Option (String × ℕ) × Guard
reject_failed_login c ip account looked_up now g =
    let g' : Guard = elim account [ none ↦ g | some name ↦ record_account_failure c name now g ] in
    let (banned, g'') = record_failure c ip looked_up now g' in
    if banned
    then (temporarily_blocked, some (ip, ban_duration_seconds), g'')
    else (invalid_credentials, none, g'')
