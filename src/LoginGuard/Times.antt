-- ===== src/LoginGuard/Times.antt =====
-- The time stamps of src/frfw/webui/auth_rate_limiter.py: `_prune` and the parts of
-- `_sweep_expired`.
use fr_os_pblk.Base.{
  ℕ, ◌+◌, ◌-◌, String, Bool, true, false, not, Option, none, some, List, [], ◌∷◌, ◌++◌, ltb, leb,
  if◌then◌else◌, string_eq, nat_eq, length, keep, take,
}
use fr_os_pblk.Base.Dict.{Dict, get, put, del}
use fr_os_pblk.LoginGuard.State.{max_tracked}

-- `_prune`: pops the front while it is older than `now - window`.
unfoldable pub prune : ℕ → ℕ → List ℕ → List ℕ
prune window now [] = []
prune window now (t ∷ ts) = if ltb (t + window) now then prune window now ts else t ∷ ts

unfoldable pub last? : List ℕ → Option ℕ
last? [] = none
last? (t ∷ []) = some t
last? (t ∷ u ∷ ts) = last? (u ∷ ts)

-- `not ts or ts[-1] < cutoff`
unfoldable pub is_stale : ℕ → ℕ → List ℕ → Bool
unfolding last?
is_stale window now ts = elim (last? ts) [ none ↦ true | some t ↦ ltb (t + window) now ]

unfoldable pub drop_stale : ℕ → ℕ → Dict String (List ℕ) → Dict String (List ℕ)
drop_stale window now d = keep (λ entry. not (is_stale window now entry.1)) d

-- `d.get(k, [])`
unfoldable pub times : String → Dict String (List ℕ) → List ℕ
times k d = elim (get k d) [ none ↦ [] | some ts ↦ ts ]

-- `timestamps = d.setdefault(k, []); timestamps.append(now); _prune(timestamps, ...)`
unfoldable pub push : ℕ → String → ℕ → Dict String (List ℕ) → Dict String (List ℕ)
push window k now d = put k (prune window now (times k d ++ now ∷ [])) d

-- `sorted(keys, key=lambda k: d[k][-1])`, as a stable insertion sort of the entries.
unfoldable pub insert_by_last : String × List ℕ → List (String × List ℕ) → List (String × List ℕ)
insert_by_last entry [] = entry ∷ []
insert_by_last entry (other ∷ rest) =
    if elim (last? entry.1) [
      | none ↦ true
      | some t ↦ elim (last? other.1) [ none ↦ false | some u ↦ leb t u ]
    ]
    then entry ∷ other ∷ rest
    else other ∷ insert_by_last entry rest

unfoldable pub sort_by_last : List (String × List ℕ) → List (String × List ℕ)
sort_by_last [] = []
sort_by_last (entry ∷ rest) = insert_by_last entry (sort_by_last rest)

-- `for k in keys: del d[k]`
unfoldable pub del_all : List (String × List ℕ) → Dict String (List ℕ) → Dict String (List ℕ)
del_all [] d = d
del_all (entry ∷ rest) d = del_all rest (del entry.0 d)

-- The oldest addresses go where more than `max_tracked` are left.
unfoldable pub evict : Dict String (List ℕ) → Dict String (List ℕ)
evict d =
    if ltb max_tracked (length d)
    then del_all (take (length d - max_tracked) (sort_by_last d)) d
    else d
