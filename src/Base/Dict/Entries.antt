-- ===== src/Base/Dict/Entries.antt =====
-- A property of every entry of a dict, kept by its operations.
use mathlib.Core.Path.{◌≡◌, subst}
use mathlib.Core.Logic.{inl, inr}
use mathlib.Core.Bool.{true}
use mathlib.Core.Option.{some, some-injective}
use mathlib.Core.List.{[], ◌∷◌}
use native.Mathlib.Omega.{arith}
use fr_os_pblk.Base.Tests.{Bool-cases, if_ind, if_ind_eq}
use fr_os_pblk.Base.Equality.{Eq, ◌==◌}
use fr_os_pblk.Base.Lists.{All}
use fr_os_pblk.Base.Dict.{Dict, get, put, del}

pub put-All :
    {K V : Type 0} ⦃e : Eq K⦄ (P : K × V → Type 0) (k : K) (v : V) (d : Dict K V)
    → ((j : K) → (j == k) ≡ true → P (j, v))
    → P (k, v)
    → All P d
    → All P (put k v d)
unfolding put
put-All P k v [] again p all = (p, tt)
put-All P k v ((j, w) ∷ d) again p (q, all) =
    if_ind_eq (All P) (j == k) _ _ (λ hit. (again j hit, all))
      (λ miss. (q, put-All P k v d again p all))

module _ {K : Type 0} ⦃e : Eq K⦄ where
  pub del-All : {V : Type 0} (P : K × V → Type 0) (k : K) (d : Dict K V) → All P d → All P (del k d)
  unfolding del
  del-All P k [] all = tt
  del-All P k ((j, w) ∷ d) (p, all) =
      if_ind (All P) (j == k) _ _ (del-All P k d all) (p, del-All P k d all)

  pub get-All :
      {V : Type 0} (P : K × V → Type 0) (k : K) (v : V) (d : Dict K V)
      → All P d
      → get k d ≡ some v
      → (j : K) × (j ≡ k) × P (j, v)
  unfolding get
  get-All P k v [] all h = ground arith
  get-All P k v ((j, w) ∷ d) (p, all) h = elim (Bool-cases (j == k)) [
    | inl hit ↦
        (j, (e.test_iff j k).0 hit, subst (λ x. P (j, x)) (some-injective w v (rw hit at h)) p)
    | inr miss ↦ get-All P k v d all (rw miss at h)
  ]
