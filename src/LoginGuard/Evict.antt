-- ===== src/LoginGuard/Evict.antt =====
-- What the sweep leaves: never more than `max_tracked` addresses, and of each address all its
-- failures or none.
use fr_os_pblk.Base.{
  ℕ, zero, suc, ◌+◌, ◌-◌, ◌≤◌, String, ◌≡◌, ◌≢◌, refl, ◌⊎◌, inl, inr, not, none, some, List, [],
  ◌∷◌, arith, ltb, if◌then◌else◌, Bool-cases, length, length-keep-le, All, take, ◌==◌, string_eq,
  subst, sym, ◌∙◌, beq_self, length-take,
}
use fr_os_pblk.Base.Dict.{Dict, get, del, get-del}
use fr_os_pblk.Base.Dict.Keys.{Unique, get-keep, keep-Unique, del-Unique, length-del_old}
use fr_os_pblk.LoginGuard.State.{max_tracked}
use fr_os_pblk.LoginGuard.Times.{
  is_stale, drop_stale, times, insert_by_last, sort_by_last, del_all, evict,
}
use fr_os_pblk.LoginGuard.Window.{times-del}

abbrev Table : Type 0
Table = Dict String (List ℕ)

-- Of each key `d'` has what `d` has, or nothing.
abbrev pub Shrinks : Table → Table → Type 0
Shrinks d' d = (k : String) → (times k d' ≡ times k d) ⊎ (times k d' ≡ [])

pub Shrinks-trans : (a b d : Table) → Shrinks a b → Shrinks b d → Shrinks a d
Shrinks-trans a b d h i k = ground (arith, h k, i k)

pub Shrinks-keeps {κ} :
    (P : List ℕ → Type κ) (d' d : Table)
    → Shrinks d' d
    → P []
    → ((k : String) → P (times k d))
    → (k : String) → P (times k d')
Shrinks-keeps P d' d h none_left all k = elim (h k) [
  | inl same ↦ subst P (sym same) (all k)
  | inr gone ↦ subst P (sym gone) none_left
]

pub del-Shrinks : (k : String) (d : Table) → Shrinks (del k d) d
del-Shrinks k d j = ground (arith, times-del k j d)

pub drop_stale-Shrinks :
    (window now : ℕ) (d : Table) → Unique d → Shrinks (drop_stale window now d) d
unfolding drop_stale times
drop_stale-Shrinks window now d u k =
    ground (arith, get-keep (λ ts. not (is_stale window now ts)) k d u)

pub drop_stale-Unique : (window now : ℕ) (d : Table) → Unique d → Unique (drop_stale window now d)
unfolding drop_stale
drop_stale-Unique window now d u = keep-Unique (λ ts. not (is_stale window now ts)) d u

pub length-drop_stale-le :
    (window now : ℕ) (d : Table) → length (drop_stale window now d) ≤ length d
unfolding drop_stale
length-drop_stale-le window now d = length-keep-le (λ entry. not (is_stale window now entry.1)) d

-- The entries are deleted one by one -----------------------------------------------------------

del_all-Shrinks : (es d : Table) → Shrinks (del_all es d) d
unfolding del_all
del_all-Shrinks [] d = λ k. inl refl
del_all-Shrinks (entry ∷ es) d =
    Shrinks-trans (del_all es (del entry.0 d)) (del entry.0 d) d
      (del_all-Shrinks es (del entry.0 d)) (del-Shrinks entry.0 d)

del_all-Unique : (es d : Table) → Unique d → Unique (del_all es d)
unfolding del_all
del_all-Unique [] d u = u
del_all-Unique (entry ∷ es) d u = del_all-Unique es (del entry.0 d) (del-Unique entry.0 d u)

-- Every entry's key is in `d`.
abbrev Within : Table → Table → Type 0
Within es d = All (λ (entry : String × List ℕ). get entry.0 d ≢ none) es

Within-del : (k : String) (es d : Table) → get k es ≡ none → Within es d → Within es (del k d)
unfolding get
Within-del k [] d absent h = tt
Within-del k ((i, ts) ∷ es) d absent h = (
  ground (arith, get-del k i d, string_eq.test_iff i k, string_eq.test_iff k i, h.0),
  Within-del k es d (ground arith) h.1,
)

-- Deleting entries with different keys, each of which is there, makes room for each.
length-del_all :
    (es d : Table) → Unique es → Within es d → length (del_all es d) + length es ≤ length d
unfolding del_all
length-del_all [] d u h = omega arith
length-del_all ((k, ts) ∷ es) d u h =
    omega
      (arith, length-del_old k d h.0, length-del_all es (del k d) u.1 (Within-del k es d u.0 h.1))

-- The oldest entries are found by sorting -------------------------------------------------------

get-insert_by_last :
    (k i : String) (ts : List ℕ) (l : Table)
    → get i l ≡ none
    → get k (insert_by_last (i, ts) l) ≡ (if i == k then some ts else get k l)
unfolding get insert_by_last
get-insert_by_last k i ts [] absent = refl
get-insert_by_last k i ts ((j, us) ∷ l) absent = ground (
  arith,
  string_eq.test_iff i k,
  string_eq.test_iff j k,
  string_eq.test_iff j i,
  get-insert_by_last k i ts l,
)

insert_by_last-Unique :
    (i : String) (ts : List ℕ) (l : Table)
    → get i l ≡ none
    → Unique l
    → Unique (insert_by_last (i, ts) l)
unfolding get insert_by_last
insert_by_last-Unique i ts [] absent u = (refl, tt)
insert_by_last-Unique i ts ((j, us) ∷ l) absent u = ground (
  arith,
  string_eq.test_iff i j,
  string_eq.test_iff j i,
  get-insert_by_last j i ts l,
  insert_by_last-Unique i ts l,
)

length-insert_by_last :
    (entry : String × List ℕ) (l : Table) → length (insert_by_last entry l) ≡ length l + 1
unfolding insert_by_last
length-insert_by_last entry [] = omega arith
length-insert_by_last entry (other ∷ l) = ground (arith, length-insert_by_last entry l)

get-sort_by_last : (k : String) (d : Table) → Unique d → get k (sort_by_last d) ≡ get k d
unfolding get sort_by_last
get-sort_by_last k [] u = refl
get-sort_by_last k ((i, ts) ∷ d) u = ground (
  arith,
  get-sort_by_last k d u.1,
  get-sort_by_last i d u.1,
  get-insert_by_last k i ts (sort_by_last d),
)

sort_by_last-Unique : (d : Table) → Unique d → Unique (sort_by_last d)
unfolding sort_by_last
sort_by_last-Unique [] u = tt
sort_by_last-Unique ((i, ts) ∷ d) u =
    insert_by_last-Unique i ts (sort_by_last d) (get-sort_by_last i d u.1 ∙ u.0)
      (sort_by_last-Unique d u.1)

length-sort_by_last : (d : Table) → length (sort_by_last d) ≡ length d
unfolding sort_by_last
length-sort_by_last [] = refl
length-sort_by_last (entry ∷ d) =
    omega (arith, length-insert_by_last entry (sort_by_last d), length-sort_by_last d)

Within-get :
    (l d : Table) → Unique l → ((k : String) → get k d ≡ none → get k l ≡ none) → Within l d
unfolding get
Within-get [] d u h = tt
Within-get ((i, ts) ∷ l) d u h = (
  λ absent. ground (arith, h i absent, beq_self i),
  Within-get l d u.1 λ k absent. ground (arith, h k absent, string_eq.test_iff i k),
)

get-take_absent : (k : String) (n : ℕ) (l : Table) → get k l ≡ none → get k (take n l) ≡ none
unfolding get
get-take_absent k zero l h = refl
get-take_absent k (suc n) [] h = refl
get-take_absent k (suc n) (entry ∷ l) h = ground (arith, get-take_absent k n l)

take-Unique : (n : ℕ) (l : Table) → Unique l → Unique (take n l)
take-Unique zero l u = tt
take-Unique (suc n) [] u = tt
take-Unique (suc n) ((i, ts) ∷ l) u = (get-take_absent i n l u.0, take-Unique n l u.1)

-- Of each key the eviction leaves all its failures or none.
pub evict-Shrinks : (d : Table) → Shrinks (evict d) d
unfolding evict
evict-Shrinks d k =
    ground (arith, del_all-Shrinks (take (length d - max_tracked) (sort_by_last d)) d k)

pub evict-Unique : (d : Table) → Unique d → Unique (evict d)
unfolding evict
evict-Unique d u = elim (Bool-cases (ltb max_tracked (length d))) [
  | inl full ↦ rw full (del_all-Unique (take (length d - max_tracked) (sort_by_last d)) d u)
  | inr fits ↦ rw fits u
]

-- The eviction leaves at most `max_tracked` keys.
pub length-evict-le : (d : Table) → Unique d → length (evict d) ≤ max_tracked
unfolding evict
length-evict-le d u =
    let oldest = take (length d - max_tracked) (sort_by_last d) in
    let within =
      Within-get oldest d (take-Unique _ (sort_by_last d) (sort_by_last-Unique d u))
        (λ k absent. get-take_absent k _ (sort_by_last d) (get-sort_by_last k d u ∙ absent)) in
    let size = length-take (length d - max_tracked) (sort_by_last d) in
    let freed =
      length-del_all oldest d (take-Unique _ (sort_by_last d) (sort_by_last-Unique d u)) within in
    ground (arith, length-sort_by_last d, size, freed)

-- No address is evicted while at most `max_tracked` are tracked.
pub evict_room : (d : Table) → length d ≤ max_tracked → evict d ≡ d
unfolding evict
evict_room d h = ground arith
