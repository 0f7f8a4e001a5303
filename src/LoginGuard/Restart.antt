-- ===== src/LoginGuard/Restart.antt =====
-- A restart of the webUI: what `_save` wrote, `_load` reads back, and no counter is reset.
use fr_os_pblk.Base.{
  ℕ, ◌+◌, ◌≤◌, String, ◌≡◌, refl, inl, inr, Bool, true, not, Option, List, [], ◌∷◌, arith, ltb,
  Option-cases, length, length-map, All, map, string_eq, sym, subst,
}
use fr_os_pblk.Base.Dict.{Dict, get}
use fr_os_pblk.Base.Dict.Keys.{Unique, get-keep, keep-Unique, get-map, map-Unique}
use fr_os_pblk.LoginGuard.State.{Settings, Guard, Saved, max_tracked, known_source_time}
use fr_os_pblk.LoginGuard.Times.{drop_stale, times}
use fr_os_pblk.LoginGuard.Window.{Ascends, AscendingValues, recent, recent-drop_stale}
use fr_os_pblk.LoginGuard.Evict.{length-drop_stale-le, evict_room}
use fr_os_pblk.LoginGuard.Invariant.{IsCounted, IsValid, sweep_expired-IsValid}
use fr_os_pblk.LoginGuard.{
  sweep_expired, save, is_unknown, sources, insert_time, sorted, recent_sources, restore, blank,
  load, start,
}

-- Sorting what ascends changes nothing.
sorted-eq : (ts : List ℕ) → Ascends ts → sorted ts ≡ ts
unfolding sorted insert_time
sorted-eq [] a = refl
sorted-eq (t ∷ []) a = refl
sorted-eq (t ∷ u ∷ us) a = rw (sorted-eq (u ∷ us) a.1, insert_time) (ground arith)

abbrev resort : Dict String (List ℕ) → Dict String (List ℕ)
resort d = map (λ (entry : String × List ℕ). (entry.0, sorted entry.1)) d

times-resort :
    (k : String) (d : Dict String (List ℕ)) → AscendingValues d → times k (resort d) ≡ times k d
unfolding times
times-resort k d a =
    let ascends = a k in
    elim (Option-cases (get k d)) [
      | inl absent ↦ ground (arith, get-map sorted k d)
      | inr (ts, found) ↦ ground (arith, get-map sorted k d, sorted-eq ts)
    ]

resort-IsCounted : (now : ℕ) (d : Dict String (List ℕ)) → IsCounted now d → IsCounted now (resort d)
resort-IsCounted now d v = record {
  unique = map-Unique sorted d v.unique;
  ascending = λ k. subst Ascends (sym (times-resort k d v.ascending)) (v.ascending k);
  past = λ k. subst (All (λ t. t ≤ now)) (sym (times-resort k d v.ascending)) (v.past k);
}

abbrev reload : ℕ → Dict String (Dict String ℕ) → Dict String (Dict String ℕ)
reload now known =
    map (λ (entry : String × Dict String ℕ). (entry.0, recent_sources now entry.1)) known

sources-reload :
    (now : ℕ) (account : String) (known : Dict String (Dict String ℕ))
    → sources account (reload now known) ≡ recent_sources now (sources account known)
unfolding sources recent_sources
sources-reload now account known = ground (arith, get-map (recent_sources now) account known)

-- A source is known after the reload exactly if it was.
is_unknown-recent_sources :
    (now : ℕ) (key : String) (d : Dict String ℕ)
    → Unique d
    → is_unknown now (get key (recent_sources now d)) ≡ is_unknown now (get key d)
unfolding recent_sources is_unknown
is_unknown-recent_sources now key d u =
    ground (arith, get-keep (λ seen. not (ltb (seen + known_source_time) now)) key d u)

recent_sources-Unique : (now : ℕ) (d : Dict String ℕ) → Unique d → Unique (recent_sources now d)
unfolding recent_sources
recent_sources-Unique now d u = keep-Unique (λ seen. not (ltb (seen + known_source_time) now)) d u

-- `g'` counts, and knows, at the time `now`, what `g` does.
pub record CountsLike (c : Settings) (now : ℕ) (g' g : Guard) : Type 0 where
  pub addresses :
      (k : String) → recent c.window now k g'.attempts ≡ recent c.window now k g.attempts
  pub accounts :
      (k : String)
      → recent c.account_window now k g'.account_attempts
        ≡ recent c.account_window now k g.account_attempts
  pub known :
      (account key : String)
      → is_unknown now (get key (sources account g'.known))
        ≡ is_unknown now (get key (sources account g.known))

abbrev loaded_from : ℕ → Guard → Option Saved → Bool → Guard
loaded_from now g file w = record (blank file w) {
  attempts = resort g.attempts;
  account_attempts = resort g.account_attempts;
  known = reload now g.known;
}

module _ (c : Settings) (now : ℕ) (g : Guard) (file : Option Saved) (w : Bool) (v : IsValid c now g)
    (room : length g.attempts ≤ max_tracked) where
  abbrev loaded : Guard
  loaded = loaded_from now g file w

  abbrev addresses : IsCounted now (resort g.attempts)
  addresses = resort-IsCounted now g.attempts v.addresses

  abbrev accounts : IsCounted now (resort g.account_attempts)
  accounts = resort-IsCounted now g.account_attempts v.accounts

  loaded_once : (account : String) → Unique (sources account loaded.known)
  loaded_once account =
      subst Unique (sym (sources-reload now account g.known))
        (recent_sources-Unique now (sources account g.known) (v.known_once account))

  loaded-IsValid : IsValid c now (sweep_expired c now loaded)
  loaded-IsValid =
      (sweep_expired-IsValid c now loaded (omega (arith, v.below "")) addresses accounts
        (λ k. rw (times-resort k g.attempts v.addresses.ascending) (v.below k)) (omega arith)
        (omega (
          arith,
          length-map {B = String × List ℕ} g.account_attempts (λ entry. (entry.0, sorted entry.1)),
          v.accounts_fit,
        ))
        loaded_once).0

  loaded-CountsLike : CountsLike c now (sweep_expired c now loaded) g
  unfolding sweep_expired
  loaded-CountsLike =
      let kept = drop_stale c.window now loaded.attempts in
      let size = length-map {B = String × List ℕ} g.attempts (λ entry. (entry.0, sorted entry.1)) in
      let fits = length-drop_stale-le c.window now loaded.attempts in
      record {
        addresses = λ k. ground (
          arith,
          evict_room kept (omega (arith, size, fits)),
          recent-drop_stale c.window now k loaded.attempts addresses.unique addresses.ascending,
          times-resort k g.attempts v.addresses.ascending,
        );
        accounts = λ k. ground (
          arith,
          recent-drop_stale c.account_window now k loaded.account_attempts accounts.unique
              accounts.ascending,
          times-resort k g.account_attempts v.accounts.ascending,
        );
        known = λ account key.
            rw (sources-reload now account g.known)
              (is_unknown-recent_sources now key (sources account g.known) (v.known_once account));
      }

started :
    (c : Settings) (now : ℕ) (g : Guard) (w : Bool)
    → c.has_state_path ≡ true
    → g.is_writable ≡ true
    → start c now (save c g).file w ≡ sweep_expired c now (loaded_from now g (save c g).file w)
unfolding start save load restore
started c now g w path writable = ground arith

-- Let a valid state that tracks at most 5000 addresses be written to the state file. A guard that
-- starts from that file is valid, and counts the same failures, for every source and every
-- account, and knows the same sources of every account.
pub start-save :
    (c : Settings) (now : ℕ) (g : Guard) (w : Bool)
    → c.has_state_path ≡ true
    → g.is_writable ≡ true
    → IsValid c now g
    → length g.attempts ≤ max_tracked
    → let g' = start c now (save c g).file w in IsValid c now g' × CountsLike c now g' g
start-save c now g w path writable v room =
    subst (λ g'. IsValid c now g' × CountsLike c now g' g) (sym (started c now g w path writable))
      (
        loaded-IsValid c now g (save c g).file w v room,
        loaded-CountsLike c now g (save c g).file w v room,
      )
