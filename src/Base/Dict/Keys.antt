-- ===== src/Base/Dict/Keys.antt =====
-- Dicts that hold each key once: what Python's always are, and what the operations keep.
use Prim.Native.Nat.{◌+◌, ◌≤◌}
use mathlib.Core.Path.{◌≡◌, refl}
use mathlib.Core.Logic.{◌≢◌, inl, inr}
use mathlib.Core.Bool.{Bool}
use mathlib.Core.Option
use mathlib.Core.Option.{Option, none, some}
use mathlib.Core.List.{[], ◌∷◌, map}
use native.Mathlib.Omega.{arith}
use fr_os_pblk.Base.Tests.{Bool-cases, if◌then◌else◌}
use fr_os_pblk.Base.Equality.{Eq, ◌==◌}
use fr_os_pblk.Base.Lists.{length, keep}
use fr_os_pblk.Base.Dict.{Dict, get, put, del, get-put, get-del, length-del-le}

module _ {ℓ κ} {K : Type ℓ} {V : Type κ} ⦃e : Eq K⦄ where
  abbrev pub Unique : Dict K V → Type κ
  Unique [] = Unit
  Unique ((k, v) ∷ d) = (get k d ≡ none) × Unique d

  pub put-Unique : (k : K) (v : V) (d : Dict K V) → Unique d → Unique (put k v d)
  unfolding get put
  put-Unique k v [] u = (refl, tt)
  put-Unique k v ((i, w) ∷ d) u = elim (Bool-cases (i == k)) [
    | inl hit ↦ rw hit u
    | inr miss ↦
        rw miss
          (ground (arith, get-put k i v d, e.test_iff i k, e.test_iff k i), put-Unique k v d u.1)
  ]

  pub del-Unique : (k : K) (d : Dict K V) → Unique d → Unique (del k d)
  unfolding get del
  del-Unique k [] u = tt
  del-Unique k ((i, w) ∷ d) u = elim (Bool-cases (i == k)) [
    | inl hit ↦ rw hit (del-Unique k d u.1)
    | inr miss ↦ rw miss (ground (arith, get-del k i d), del-Unique k d u.1)
  ]

  module _ (q : V → Bool) where
    get-keep_absent :
        (k : K) (d : Dict K V) → get k d ≡ none → get k (keep (λ entry. q entry.1) d) ≡ none
    unfolding get
    get-keep_absent k [] h = refl
    get-keep_absent k ((i, w) ∷ d) h = ground (arith, get-keep_absent k d)

    -- Dropping entries by their values drops what a look-up finds by the same test.
    pub get-keep :
        (k : K) (d : Dict K V)
        → Unique d
        → get k (keep (λ entry. q entry.1) d)
          ≡ elim (get k d) [ none ↦ none | some v ↦ if q v then some v else none ]
    unfolding get
    get-keep k [] u = refl
    get-keep k ((i, w) ∷ d) u =
        ground (arith, e.test_iff i k, get-keep_absent i d, get-keep k d u.1)

    pub keep-Unique : (d : Dict K V) → Unique d → Unique (keep (λ entry. q entry.1) d)
    keep-Unique [] u = tt
    keep-Unique ((i, w) ∷ d) u = elim (Bool-cases (q w)) [
      | inl kept ↦ rw kept (get-keep_absent i d u.0, keep-Unique d u.1)
      | inr dropped ↦ rw dropped (keep-Unique d u.1)
    ]

  pub length-del_old : (k : K) (d : Dict K V) → get k d ≢ none → length (del k d) + 1 ≤ length d
  unfolding get del
  length-del_old k [] h = absurd (h refl)
  length-del_old k ((i, w) ∷ d) h = ground (arith, length-del-le k d, length-del_old k d)

  pub get-map {μ} :
      {W : Type μ} (f : V → W) (k : K) (d : Dict K V)
      → get k (map (λ (entry : K × V). (entry.0, f entry.1)) d) ≡ Option.map f (get k d)
  unfolding get
  get-map f k [] = refl
  get-map f k ((i, w) ∷ d) = ground (arith, get-map f k d)

pub map-Unique {ℓ κ μ} :
    {K : Type ℓ} {V : Type κ} {W : Type μ} ⦃e : Eq K⦄ (f : V → W) (d : Dict K V)
    → Unique d
    → Unique (map (λ (entry : K × V). (entry.0, f entry.1)) d)
map-Unique f [] u = tt
map-Unique f ((i, w) ∷ d) u = (ground (arith, get-map f i d), map-Unique f d u.1)
