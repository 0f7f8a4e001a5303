-- ===== src/Base/Equality.antt =====
-- Equality tests, one operator for every type that has an instance.
use Prim.Native.Nat.{ℕ, compare, Ordering}
use Prim.Native.String.{String}
use mathlib.Core.Path.{◌≡◌, refl}
use mathlib.Core.Logic.{◌↔◌, ◌≢◌}
use mathlib.Core.Bool.{Bool, true, false, beq}
use mathlib.Core.Option.{Option, none, some}
use native.Mathlib.Omega.{arith}
use text.Mathlib.Text.{◌==◌ as str_eq}
use text.Mathlib.TextEquality.{eq_iff}

pub record Eq {ℓ} (A : Type ℓ) : Type ℓ where
  pub test : A → A → Bool
  pub test_iff : (a b : A) → (test a b ≡ true) ↔ (a ≡ b)

infix 50 ◌==◌
abbrev pub ◌==◌ {ℓ} : {A : Type ℓ} ⦃e : Eq A⦄ → A → A → Bool
◌==◌ ⦃e⦄ = e.test

module _ {ℓ} {A : Type ℓ} ⦃e : Eq A⦄ where
  pub beq_self : (a : A) → (a == a) ≡ true
  beq_self a = (e.test_iff a a).1 refl

  pub beq_ne : (a b : A) → a ≢ b → (a == b) ≡ false
  beq_ne a b h = ground (arith, e.test_iff a b)

  -- Python's `==` on two values that may be None.
  abbrev pub opt_eq : Option A → Option A → Bool
  opt_eq none none = true
  opt_eq (some a) (some b) = a == b
  opt_eq _ _ = false

  pub opt_eq_iff : (a b : Option A) → (opt_eq a b ≡ true) ↔ (a ≡ b)
  opt_eq_iff none none = ground arith
  opt_eq_iff none (some b) = ground arith
  opt_eq_iff (some a) none = ground arith
  opt_eq_iff (some a) (some b) = ground (arith, e.test_iff a b)

abbrev pub nat_test : ℕ → ℕ → Bool
nat_test a b = elim (compare a b) [ Ordering.eq ↦ true | _ ↦ false ]

pub nat_test_iff : (a b : ℕ) → (nat_test a b ≡ true) ↔ (a ≡ b)
nat_test_iff a b = ground arith

pub bool_test_iff : (a b : Bool) → (beq a b ≡ true) ↔ (a ≡ b)
bool_test_iff a b = ground arith

instance abbrev pub nat_eq : Eq ℕ
nat_eq = record { test = nat_test; test_iff = nat_test_iff }

instance abbrev pub string_eq : Eq String
string_eq = record { test = str_eq; test_iff = eq_iff }

instance abbrev pub bool_eq : Eq Bool
bool_eq = record { test = beq; test_iff = bool_test_iff }

instance abbrev pub option_eq {ℓ} : {A : Type ℓ} ⦃e : Eq A⦄ → Eq (Option A)
option_eq = record { test = opt_eq; test_iff = opt_eq_iff }
