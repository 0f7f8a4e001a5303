-- ===== src/Base/Dict.antt =====
-- Python's `dict`: the entries in insertion order. Writing a key that is there keeps its place.
pub mod Keys
pub mod Entries
use Prim.Native.Nat.{◌+◌, ◌≤◌}
use mathlib.Core.Path.{◌≡◌, refl, subst}
use mathlib.Core.Logic.{◌≢◌, inl, inr}
use mathlib.Core.Bool.{true, false}
use mathlib.Core.Option.{Option, none, some, some-injective}
use mathlib.Core.List.{List, [], ◌∷◌}
use native.Mathlib.Omega.{arith}
use fr_os_pblk.Base.Tests.{Bool-cases, if◌then◌else◌}
use fr_os_pblk.Base.Equality.{Eq, ◌==◌}
use fr_os_pblk.Base.Lists.{length, All}

abbrev pub Dict {ℓ κ} : Type ℓ → Type κ → Type (ℓ ⊔ κ)
Dict K V = List (K × V)

module _ {ℓ κ} {K : Type ℓ} {V : Type κ} ⦃e : Eq K⦄ where
  -- `d.get(k)`
  unfoldable pub get : K → Dict K V → Option V
  get k [] = none
  get k ((j, v) ∷ d) = if j == k then some v else get k d

  -- `d[k] = v`
  unfoldable pub put : K → V → Dict K V → Dict K V
  put k v [] = (k, v) ∷ []
  put k v ((j, w) ∷ d) = if j == k then (j, v) ∷ d else (j, w) ∷ put k v d

  -- `d.pop(k, None)`; a dict has each key once, so all entries of the key may go.
  unfoldable pub del : K → Dict K V → Dict K V
  del k [] = []
  del k ((j, w) ∷ d) = let rest = del k d in if j == k then rest else (j, w) ∷ rest

  pub get-put :
      (k j : K) (v : V) (d : Dict K V) → get j (put k v d) ≡ (if k == j then some v else get j d)
  unfolding get put
  get-put k j v [] = refl
  get-put k j v ((i, w) ∷ d) =
      ground (arith, e.test_iff i k, e.test_iff i j, e.test_iff k j, get-put k j v d)

  pub get-del : (k j : K) (d : Dict K V) → get j (del k d) ≡ (if k == j then none else get j d)
  unfolding get del
  get-del k j [] = ground arith
  get-del k j ((i, w) ∷ d) =
      ground (arith, e.test_iff i k, e.test_iff i j, e.test_iff k j, get-del k j d)

  pub length-put-le : (k : K) (v : V) (d : Dict K V) → length (put k v d) ≤ length d + 1
  unfolding put
  length-put-le k v [] = omega arith
  length-put-le k v ((i, w) ∷ d) = ground (arith, length-put-le k v d)

  pub length-put_old :
      (k : K) (v : V) (d : Dict K V) → get k d ≢ none → length (put k v d) ≡ length d
  unfolding get put
  length-put_old k v [] h = absurd (h refl)
  length-put_old k v ((i, w) ∷ d) h = ground (arith, length-put_old k v d)

  pub length-del-le : (k : K) (d : Dict K V) → length (del k d) ≤ length d
  unfolding del
  length-del-le k [] = omega arith
  length-del-le k ((i, w) ∷ d) = ground (arith, length-del-le k d)

  -- Every value of a dict.
  abbrev pub Values {μ} : (V → Type μ) → Dict K V → Type μ
  Values P d = All (λ (entry : K × V). P entry.1) d

  pub put-Values {μ} :
      (P : V → Type μ) (k : K) (v : V) (d : Dict K V) → P v → Values P d → Values P (put k v d)
  unfolding put
  put-Values P k v [] p h = (p, tt)
  put-Values P k v ((i, w) ∷ d) p h =
      elim (i == k) as (λ b. Values P (if b then (i, v) ∷ d else (i, w) ∷ put k v d)) [
        | true ↦ (p, h.1)
        | false ↦ (h.0, put-Values P k v d p h.1)
      ]

  pub del-Values {μ} : (P : V → Type μ) (k : K) (d : Dict K V) → Values P d → Values P (del k d)
  unfolding del
  del-Values P k [] h = tt
  del-Values P k ((i, w) ∷ d) h =
      elim (i == k) as (λ b. Values P (if b then del k d else (i, w) ∷ del k d)) [
        | true ↦ del-Values P k d h.1
        | false ↦ (h.0, del-Values P k d h.1)
      ]

  pub get-Values {μ} :
      (P : V → Type μ) (k : K) (v : V) (d : Dict K V) → Values P d → get k d ≡ some v → P v
  unfolding get
  get-Values P k v [] h q = absurd (cc)
  get-Values P k v ((i, w) ∷ d) h q = elim (Bool-cases (i == k)) [
    | inl hit ↦ subst P (some-injective w v (rw hit at q)) h.0
    | inr miss ↦ get-Values P k v d h.1 (rw miss at q)
  ]
