-- ===== src/LoginGuard/Preserved.antt =====
-- Every method of BruteforceGuard keeps its invariant, whatever the clock reads from then on.
use fr_os_pblk.Base.{
  ℕ, ◌+◌, ◌≤◌, ◌<◌, String, ◌≡◌, inl, inr, false, Option, none, some, List, arith, leb,
  if◌then◌else◌, Option-cases, length, if_ind, if_ind_eq, All, not, ◌==◌, string_eq, subst, sym,
}
use fr_os_pblk.Base.Dict.{Dict, get, put, del, get-put, length-put_old, length-del-le}
use fr_os_pblk.Base.Dict.Keys.{Unique, put-Unique, del-Unique}
use fr_os_pblk.LoginGuard.State.{Settings, Guard, max_tracked, key_of, look_up, remember}
use fr_os_pblk.LoginGuard.Times.{prune, times, push}
use fr_os_pblk.LoginGuard.Window.{
  Ascends, AscendingValues, times-del, recent, prune-eq-in_window, All-in_window, in_window-Ascends,
}
use fr_os_pblk.LoginGuard.Evict.{del-Shrinks}
use fr_os_pblk.LoginGuard.Invariant.{
  IsCounted, IsValid, IsCounted-later, Shrinks-IsCounted, times-push, push-IsCounted,
  length-push-le, length-push_old, count_call-IsValid,
}
use fr_os_pblk.LoginGuard.{
  count_call, save, count_failure, note_success, record_account_failure, is_unknown, sources,
  prune_at, locked_for,
}

-- What the invariant speaks of is the same in both states.
pub record SameCounts (g' g : Guard) : Type 0 where
  pub attempts : g'.attempts ≡ g.attempts
  pub account_attempts : g'.account_attempts ≡ g.account_attempts
  pub known : g'.known ≡ g.known
  pub calls : g'.calls_since_sweep ≡ g.calls_since_sweep

pub SameCounts-IsValid :
    (c : Settings) (now : ℕ) (g' g : Guard) → SameCounts g' g → IsValid c now g → IsValid c now g'
SameCounts-IsValid c now g' g same v = record {
  addresses = subst (IsCounted now) (sym same.attempts) v.addresses;
  accounts = subst (IsCounted now) (sym same.account_attempts) v.accounts;
  below =
      subst (λ d. (k : String) → length (times k d) < c.max_attempts) (sym same.attempts) v.below;
  swept = rw same.calls v.swept;
  fits = rw (same.attempts, same.calls) v.fits;
  accounts_fit = rw same.account_attempts v.accounts_fit;
  known_once =
      subst (λ d. (account : String) → Unique (sources account d)) (sym same.known) v.known_once;
}

pub IsValid-later :
    (c : Settings) (now later : ℕ) (g : Guard) → now ≤ later → IsValid c now g → IsValid c later g
IsValid-later c now later g h v = record {
  addresses = IsCounted-later now later g.attempts h v.addresses;
  accounts = IsCounted-later now later g.account_attempts h v.accounts;
  below = v.below;
  swept = v.swept;
  fits = v.fits;
  accounts_fit = v.accounts_fit;
  known_once = v.known_once;
}

pub save-SameCounts : (c : Settings) (g : Guard) → SameCounts (save c g) g
unfolding save
save-SameCounts c g = ground arith

-- Looking the source up touches the device cache only.
pub key_of-SameCounts :
    (c : Settings) (ip : String) (now : ℕ) (g : Guard) → SameCounts (key_of c ip now g).1 g
unfolding key_of look_up remember
key_of-SameCounts c ip now g = ground arith

not_full : (n : ℕ) → leb max_tracked n ≡ false → n + 1 ≤ max_tracked
not_full n h = ground arith

-- Dropping a key's failures keeps a table well formed.
del-IsCounted :
    (now : ℕ) (k : String) (d : Dict String (List ℕ)) → IsCounted now d → IsCounted now (del k d)
del-IsCounted now k d v =
    Shrinks-IsCounted now (del k d) d (del-Shrinks k d) (del-Unique k d v.unique) v

del_address-IsValid :
    (c : Settings) (now : ℕ) (key : String) (g : Guard)
    → IsValid c now g
    → IsValid c now (record g { attempts = del key g.attempts })
del_address-IsValid c now key g v = record {
  addresses = del-IsCounted now key g.attempts v.addresses;
  accounts = v.accounts;
  below = λ k. ground (arith, times-del key k g.attempts, v.below k, v.below "");
  swept = v.swept;
  fits = omega (arith, length-del-le key g.attempts, v.fits);
  accounts_fit = v.accounts_fit;
  known_once = v.known_once;
}

del_account-IsValid :
    (c : Settings) (now : ℕ) (account : String) (g : Guard)
    → IsValid c now g
    → IsValid c now (record g { account_attempts = del account g.account_attempts })
del_account-IsValid c now account g v = record {
  addresses = v.addresses;
  accounts = del-IsCounted now account g.account_attempts v.accounts;
  below = v.below;
  swept = v.swept;
  fits = v.fits;
  accounts_fit = omega (arith, length-del-le account g.account_attempts, v.accounts_fit);
  known_once = v.known_once;
}

known-IsValid :
    (c : Settings) (now : ℕ) (known : Dict String (Dict String ℕ)) (g : Guard)
    → IsValid c now g
    → ((account : String) → Unique (sources account known))
    → IsValid c now (record g { known = known })
known-IsValid c now known g v once = record {
  addresses = v.addresses;
  accounts = v.accounts;
  below = v.below;
  swept = v.swept;
  fits = v.fits;
  accounts_fit = v.accounts_fit;
  known_once = once;
}

module _ (window now : ℕ) (k : String) (d : Dict String (List ℕ)) where
  prune_at_absent : get k d ≡ none → prune_at window now k d ≡ d
  unfolding prune_at
  prune_at_absent h = ground arith

  prune_at_found :
      (ts : List ℕ) → get k d ≡ some ts → prune_at window now k d ≡ put k (prune window now ts) d
  unfolding prune_at
  prune_at_found ts h = ground arith

prune_at-Unique :
    (window now : ℕ) (k : String) (d : Dict String (List ℕ))
    → Unique d
    → Unique (prune_at window now k d)
prune_at-Unique window now k d u = elim (Option-cases (get k d)) [
  | inl absent ↦ rw (prune_at_absent window now k d absent) u
  | inr (ts, found) ↦
      rw (prune_at_found window now k d ts found) (put-Unique k (prune window now ts) d u)
]

length-prune_at :
    (window now : ℕ) (k : String) (d : Dict String (List ℕ))
    → length (prune_at window now k d) ≡ length d
length-prune_at window now k d = elim (Option-cases (get k d)) [
  | inl absent ↦ rw (prune_at_absent window now k d absent)
  | inr (ts, found) ↦
      rw (prune_at_found window now k d ts found)
        (length-put_old k (prune window now ts) d (λ absent. cc))
]

pub times-prune_at :
    (window now : ℕ) (k j : String) (d : Dict String (List ℕ))
    → AscendingValues d
    → times j (prune_at window now k d) ≡ (if k == j then recent window now k d else times j d)
unfolding prune_at times
times-prune_at window now k j d a =
    let ascends = a k in
    elim (Option-cases (get k d)) [
      | inl absent ↦ ground (arith, string_eq.test_iff k j)
      | inr (ts, found) ↦ ground (
        arith,
        string_eq.test_iff k j,
        get-put k j (prune window now ts) d,
        prune-eq-in_window window now ts,
      )
    ]

prune_at-IsCounted :
    (window now : ℕ) (k : String) (d : Dict String (List ℕ))
    → IsCounted now d
    → IsCounted now (prune_at window now k d)
prune_at-IsCounted window now k d v = record {
  unique = prune_at-Unique window now k d v.unique;
  ascending = λ j. subst Ascends (sym (times-prune_at window now k j d v.ascending)) (
      if_ind Ascends (k == j) _ _ (in_window-Ascends window now _ (v.ascending k)) (v.ascending j));
  past = λ j. subst (All (λ t. t ≤ now)) (sym (times-prune_at window now k j d v.ascending)) (
      if_ind (All (λ t. t ≤ now)) (k == j) _ _
        (All-in_window window now (λ t. t ≤ now) _ (v.past k)) (v.past j));
}

sources-put :
    (account a : String) (d : Dict String ℕ) (known : Dict String (Dict String ℕ))
    → sources a (put account d known) ≡ (if account == a then d else sources a known)
unfolding sources
sources-put account a d known = ground (arith, get-put account a d known)

module _ (c : Settings) (key : String) (now : ℕ) (g : Guard) (v : IsValid c now g) where
  pub count_failure-IsValid : IsValid c now (count_failure c key now g).1
  unfolding count_failure
  count_failure-IsValid =
      let swept = count_call c now g in
      let (valid, size) = count_call-IsValid c now g v in
      let pushed = push c.window key now swept.attempts in
      let counted = push-IsCounted c.window now swept.attempts valid.addresses key in
      let banned = leb c.max_attempts (length (times key pushed)) in
      let left = if banned then del key pushed else pushed in
      let grown = length-push-le c.window now key swept.attempts in
      SameCounts-IsValid c now _ (record swept { attempts = left }) (save-SameCounts c _)
        (record {
          addresses =
              if_ind (IsCounted now) banned _ _
                (Shrinks-IsCounted now (del key pushed) pushed (del-Shrinks key pushed)
                  (del-Unique key pushed counted.unique) counted)
                counted;
          accounts = valid.accounts;
          below = λ k. ground (
            arith,
            times-del key k pushed,
            times-push c.window now swept.attempts valid.addresses key k,
            times-push c.window now swept.attempts valid.addresses key key,
            string_eq.test_iff key k,
            valid.below k,
          );
          swept = valid.swept;
          fits = ground (arith, grown, size, length-del-le key pushed);
          accounts_fit = valid.accounts_fit;
          known_once = valid.known_once;
        })

  pub record_account_failure-IsValid :
      (account : String) → IsValid c now (record_account_failure c account now g)
  unfolding record_account_failure
  record_account_failure-IsValid account =
      let table = g.account_attempts in
      let pushed = push c.account_window account now table in
      let after = record g { account_attempts = pushed } in
      let grown : (length pushed ≤ max_tracked) → IsValid c now (save c after) = λ room.
        SameCounts-IsValid c now _ after (save-SameCounts c after) (record {
          addresses = v.addresses;
          accounts = push-IsCounted c.account_window now table v.accounts account;
          below = v.below;
          swept = v.swept;
          fits = v.fits;
          accounts_fit = room;
          known_once = v.known_once;
        }) in
      elim (Option-cases (get account table)) [
        | inl absent ↦
            rw (absent, record_account_failure)
              (if_ind_eq (IsValid c now) (leb max_tracked (length table)) g (save c after) (λ _. v)
                (λ room. grown (
                  omega (
                    arith,
                    length-push-le c.account_window now account table,
                    not_full (length table) room,
                  ))))
        | inr (ts, found) ↦
            rw (found, record_account_failure)
              (grown (
                omega (
                  arith,
                  length-push_old c.account_window now account table ts found,
                  v.accounts_fit,
                )))
      ]

  pub note_success-IsValid :
      (account : Option String) → IsValid c now (note_success c key account now g).1
  unfolding note_success
  note_success-IsValid none =
      SameCounts-IsValid c now _ _ (save-SameCounts c _) (del_address-IsValid c now key g v)
  note_success-IsValid (some account) = SameCounts-IsValid c now _ _ (save-SameCounts c _) (
      known-IsValid c now _ _
        (del_account-IsValid c now account _ (del_address-IsValid c now key g v))
        (λ a.
          subst Unique (sym (sources-put account a (put key now (sources account g.known)) g.known))
            (if_ind Unique (account == a) _ _
              (put-Unique key now (sources account g.known) (v.known_once account))
              (v.known_once a))))

  pub locked_for-IsValid : (account : String) → IsValid c now (locked_for c account key now g).1
  unfolding locked_for
  locked_for-IsValid account =
      if_ind (λ (r : ℕ × Guard). IsValid c now r.1)
        (not (is_unknown now (get key (sources account g.known)))) _ _ v
        (record {
          addresses = v.addresses;
          accounts = prune_at-IsCounted c.account_window now account g.account_attempts v.accounts;
          below = v.below;
          swept = v.swept;
          fits = v.fits;
          accounts_fit = omega (
            arith,
            length-prune_at c.account_window now account g.account_attempts,
            v.accounts_fit,
          );
          known_once = v.known_once;
        })
