-- ===== src/LoginGuard/Invariant.antt =====
-- The well-formedness of a BruteforceGuard, and that every method keeps it.
use fr_os_pblk.Base.{
  ℕ, ◌+◌, ◌≤◌, ◌<◌, String, ◌≡◌, inl, inr, some, [], ◌∷◌, List, ◌++◌, arith, leb, if◌then◌else◌,
  Bool-cases, length, All, if_ind, All-append, All-map, ◌==◌, string_eq, subst, sym,
}
use fr_os_pblk.Base.Dict.{Dict, get, length-put-le, length-put_old}
use fr_os_pblk.Base.Dict.Keys.{Unique, put-Unique}
use fr_os_pblk.LoginGuard.State.{Settings, Guard, sweep_interval, max_tracked}
use fr_os_pblk.LoginGuard.Times.{prune, drop_stale, times, push, evict}
use fr_os_pblk.LoginGuard.Window.{
  Ascends, AscendingValues, recent, prune-eq-in_window, in_window-append, All-in_window,
  in_window-Ascends, times-put,
}
use fr_os_pblk.LoginGuard.Evict.{
  Shrinks, Shrinks-trans, Shrinks-keeps, drop_stale-Shrinks, drop_stale-Unique,
  length-drop_stale-le, evict-Shrinks, evict-Unique, length-evict-le,
}
use fr_os_pblk.LoginGuard.{sources, sweep_expired, count_call}

-- A table of time stamps: each key once, its times ascending and none in the future.
pub record IsCounted (now : ℕ) (d : Dict String (List ℕ)) : Type 0 where
  pub unique : Unique d
  pub ascending : AscendingValues d
  pub past : (k : String) → All (λ t. t ≤ now) (times k d)

pub record IsValid (c : Settings) (now : ℕ) (g : Guard) : Type 0 where
  pub addresses : IsCounted now g.attempts
  pub accounts : IsCounted now g.account_attempts
  pub below : (k : String) → length (times k g.attempts) < c.max_attempts
  pub swept : g.calls_since_sweep < sweep_interval
  pub fits : length g.attempts ≤ max_tracked + g.calls_since_sweep + 1
  pub accounts_fit : length g.account_attempts ≤ max_tracked
  pub known_once : (account : String) → Unique (sources account g.known)

pub IsCounted-later :
    (now later : ℕ) (d : Dict String (List ℕ)) → now ≤ later → IsCounted now d → IsCounted later d
IsCounted-later now later d h v = record {
  unique = v.unique;
  ascending = v.ascending;
  past = λ k. All-map (λ t. t ≤ now) (λ t. t ≤ later) (times k d) (λ t le. omega arith) (v.past k);
}

pub Shrinks-IsCounted :
    (now : ℕ) (d' d : Dict String (List ℕ))
    → Shrinks d' d
    → Unique d'
    → IsCounted now d
    → IsCounted now d'
Shrinks-IsCounted now d' d h u v = record {
  unique = u;
  ascending = Shrinks-keeps Ascends d' d h tt v.ascending;
  past = Shrinks-keeps (All (λ t. t ≤ now)) d' d h tt v.past;
}

snoc-Ascends :
    (now : ℕ) (ts : List ℕ) → Ascends ts → All (λ t. t ≤ now) ts → Ascends (ts ++ now ∷ [])
snoc-Ascends now [] a p = (tt, tt)
snoc-Ascends now (t ∷ ts) a p =
    (All-append (λ u. t ≤ u) ts (now ∷ []) a.0 (p.0, tt), snoc-Ascends now ts a.1 p.1)

module _ (window now : ℕ) (d : Dict String (List ℕ)) (v : IsCounted now d) where
  -- What a new time stamp leaves of a key's failures: the recent ones and itself.
  pub pruned_snoc :
      (k : String) → prune window now (times k d ++ now ∷ []) ≡ recent window now k d ++ now ∷ []
  pruned_snoc k =
      rw (prune-eq-in_window window now _ (snoc-Ascends now (times k d) (v.ascending k) (v.past k)))
        (rw (in_window-append window now (times k d) (now ∷ [])) (ground arith))

  pub times-push :
      (k j : String)
      → times j (push window k now d)
        ≡ (if k == j then recent window now k d ++ now ∷ [] else times j d)
  unfolding push
  times-push k j =
      ground (arith, times-put k j (prune window now (times k d ++ now ∷ [])) d, pruned_snoc k)

  recent_snoc-Ascends : (k : String) → Ascends (recent window now k d ++ now ∷ [])
  recent_snoc-Ascends k =
      snoc-Ascends now (recent window now k d) (in_window-Ascends window now _ (v.ascending k))
        (All-in_window window now (λ t. t ≤ now) _ (v.past k))

  recent_snoc_past : (k : String) → All (λ t. t ≤ now) (recent window now k d ++ now ∷ [])
  recent_snoc_past k =
      All-append (λ t. t ≤ now) (recent window now k d) (now ∷ [])
        (All-in_window window now (λ t. t ≤ now) _ (v.past k)) (omega arith)

  push-Unique : (k : String) → Unique (push window k now d)
  unfolding push
  push-Unique k = put-Unique k _ d v.unique

  pub push-IsCounted : (k : String) → IsCounted now (push window k now d)
  push-IsCounted k = record {
    unique = push-Unique k;
    ascending = λ j.
        subst Ascends (sym (times-push k j))
          (if_ind Ascends (k == j) _ _ (recent_snoc-Ascends k) (v.ascending j));
    past = λ j.
        subst (All (λ t. t ≤ now)) (sym (times-push k j))
          (if_ind (All (λ t. t ≤ now)) (k == j) _ _ (recent_snoc_past k) (v.past j));
  }

pub length-push-le :
    (window now : ℕ) (k : String) (d : Dict String (List ℕ))
    → length (push window k now d) ≤ length d + 1
unfolding push
length-push-le window now k d = length-put-le k _ d

pub length-push_old :
    (window now : ℕ) (k : String) (d : Dict String (List ℕ)) (ts : List ℕ)
    → get k d ≡ some ts
    → length (push window k now d) ≡ length d
unfolding push
length-push_old window now k d ts h = length-put_old k _ d (λ absent. cc)

-- The steps of the methods ----------------------------------------------------------------------

pub sweep_expired-IsValid :
    (c : Settings) (now : ℕ) (g : Guard)
    → 0 < c.max_attempts
    → IsCounted now g.attempts
    → IsCounted now g.account_attempts
    → ((k : String) → length (times k g.attempts) < c.max_attempts)
    → g.calls_since_sweep < sweep_interval
    → length g.account_attempts ≤ max_tracked
    → ((account : String) → Unique (sources account g.known))
    → IsValid c now (sweep_expired c now g)
      × (length (sweep_expired c now g).attempts ≤ max_tracked)
unfolding sweep_expired
sweep_expired-IsValid c now g positive addresses accounts below calls room once =
    let kept = drop_stale c.window now g.attempts in
    let kept_unique = drop_stale-Unique c.window now g.attempts addresses.unique in
    let shrinks =
      Shrinks-trans (evict kept) kept g.attempts (evict-Shrinks kept)
        (drop_stale-Shrinks c.window now g.attempts addresses.unique) in
    let size = length-evict-le kept kept_unique in
    (
      record {
        addresses =
            Shrinks-IsCounted now _ g.attempts shrinks (evict-Unique kept kept_unique) addresses;
        accounts =
            Shrinks-IsCounted now _ g.account_attempts
              (drop_stale-Shrinks c.account_window now g.account_attempts accounts.unique)
              (drop_stale-Unique c.account_window now g.account_attempts accounts.unique) accounts;
        below =
            Shrinks-keeps (λ ts. length ts < c.max_attempts) _ g.attempts shrinks positive below;
        swept = calls;
        fits = omega (arith, size);
        accounts_fit =
            omega (arith, length-drop_stale-le c.account_window now g.account_attempts, room);
        known_once = once;
      },
      size,
    )

pub count_call-IsValid :
    (c : Settings) (now : ℕ) (g : Guard)
    → IsValid c now g
    → IsValid c now (count_call c now g)
      × (length (count_call c now g).attempts
          ≤ max_tracked + (count_call c now g).calls_since_sweep)
unfolding count_call
count_call-IsValid c now g v = elim (Bool-cases (leb sweep_interval (g.calls_since_sweep + 1))) [
  | inl due ↦
      let (valid, size) =
        sweep_expired-IsValid c now (record g { calls_since_sweep = 0 }) (omega (arith, v.below ""))
          v.addresses v.accounts v.below (omega arith) v.accounts_fit v.known_once in
      rw due (valid, omega (arith, size))
  | inr later ↦ rw later (
    record {
      addresses = v.addresses;
      accounts = v.accounts;
      below = v.below;
      swept = ground arith;
      fits = omega (arith, v.fits);
      accounts_fit = v.accounts_fit;
      known_once = v.known_once;
    },
    omega (arith, v.fits),
  )
]
