-- ===== src/RuleCheck/Address.antt =====
-- The address fields: what one covers of another, for a packet.
use fr_os_pblk.Base.{
  ℕ, ◌≡◌, refl, sym, ◌∙◌, Bool, true, false, ◌&&◌, Option, none, some, List, [], ◌∷◌, keep, arith,
  ◌==◌, nat_eq, Bool-cases, inl, inr, ◌⊎◌, if◌then◌else◌,
}
use fr_os_pblk.RuleCheck.Rule.{Network, networks, is_named}
use fr_os_pblk.RuleCheck.Render.{in_network, any_network, names_family}
use fr_os_pblk.RuleCheck.Covers.{subnet_of, in_some, all_in_some, net_covers}

-- An address field that is not empty when it is there, as the config loader leaves it.
abbrev pub IsNormal : Option (List Network) → Type 0
IsNormal none = Unit
IsNormal (some []) = ⊥
IsNormal (some (n ∷ nets)) = Unit

-- What the expressions of a field ask of a packet's family and address.
abbrev pub asks : ℕ → ℕ → ℕ → List Network → Bool
asks packet_family address family [] = true
asks packet_family address family (n ∷ nets) =
    (packet_family == family) && any_network address (n ∷ nets)

pub and_left : (a b : Bool) → a && b ≡ true → a ≡ true
and_left a b h = ground arith

pub and_right : (a b : Bool) → a && b ≡ true → b ≡ true
and_right a b h = ground arith

subnet-in_network :
    (x : ℕ) (i o : Network) → subnet_of i o ≡ true → in_network x i ≡ true → in_network x o ≡ true
unfolding subnet_of in_network
subnet-in_network x i o h k = ground arith

subnet-version : (i o : Network) → subnet_of i o ≡ true → i.version ≡ o.version
unfolding subnet_of
subnet-version i o h = ground (arith, (nat_eq.test_iff i.version o.version).0)

of_version : (family : ℕ) (n : Network) → n.version ≡ family → (n.version == family) ≡ true
of_version family n h = (nat_eq.test_iff n.version family).1 h

any_skip :
    (x : ℕ) (b : Bool) (n : Network) (nets : List Network)
    → any_network x nets ≡ true
    → any_network x (if b then n ∷ nets else nets) ≡ true
unfolding any_network
any_skip x true n nets h = ground arith
any_skip x false n nets h = h

any_cases :
    (x : ℕ) (b : Bool) (n : Network) (nets : List Network)
    → any_network x (if b then n ∷ nets else nets) ≡ true
    → ((b ≡ true) × (in_network x n ≡ true)) ⊎ (any_network x nets ≡ true)
unfolding any_network
any_cases x true n nets h = elim (Bool-cases (in_network x n)) [
  | inl inside ↦ inl (refl, inside)
  | inr outside ↦ inr (rw outside at h)
]
any_cases x false n nets h = inr h

any_network-in_some :
    (x family : ℕ) (i : Network) (outer : List Network)
    → in_some i outer ≡ true
    → i.version ≡ family
    → in_network x i ≡ true
    → any_network x (keep (λ n. n.version == family) outer) ≡ true
unfolding in_some any_network
any_network-in_some x family i [] h v k = ground arith
any_network-in_some x family i (o ∷ outer) h v k = elim (Bool-cases (subnet_of i o)) [
  | inl inside ↦
      rw
        (
          of_version family o (sym (subnet-version i o inside) ∙ v),
          subnet-in_network x i o inside k,
        )
        refl
  | inr outside ↦
      let rest = any_network-in_some x family i outer (rw outside at h) v k in
      any_skip x (o.version == family) o _ rest
]

any_network-covered :
    (x family : ℕ) (inner outer : List Network)
    → all_in_some inner outer ≡ true
    → any_network x (keep (λ n. n.version == family) inner) ≡ true
    → any_network x (keep (λ n. n.version == family) outer) ≡ true
unfolding all_in_some any_network
any_network-covered x family [] outer h k = ground arith
any_network-covered x family (i ∷ inner) outer h k =
    elim (any_cases x (i.version == family) i _ k) [
      | inl (versions, inside) ↦
          any_network-in_some x family i outer (and_left _ _ h)
            ((nat_eq.test_iff i.version family).0 versions) inside
      | inr later ↦ any_network-covered x family inner outer (and_right _ _ h) later
    ]

asks_any :
    (packet_family x family : ℕ) (nets : List Network)
    → (packet_family == family) ≡ true
    → any_network x nets ≡ true
    → asks packet_family x family nets ≡ true
unfolding any_network
asks_any packet_family x family [] v h = refl
asks_any packet_family x family (n ∷ nets) v h = rw (v, h) refl

asks-named :
    (packet_family x family : ℕ) (nets : List Network)
    → is_named (some nets) ≡ true
    → asks packet_family x family nets ≡ true
    → ((packet_family == family) ≡ true) × (any_network x nets ≡ true)
unfolding is_named
asks-named packet_family x family [] named h = ground arith
asks-named packet_family x family (n ∷ nets) named h = (and_left _ _ h, and_right _ _ h)

any_named : (x : ℕ) (nets : List Network) → any_network x nets ≡ true → is_named (some nets) ≡ true
unfolding any_network is_named
any_named x [] h = ground arith
any_named x (n ∷ nets) h = refl

-- A field that covers another names the family that the other names, and asks no more.
pub net_covers-asks :
    (packet_family x family : ℕ) (a b : Option (List Network))
    → net_covers a b ≡ true
    → IsNormal b
    → names_family b family ≡ true
    → asks packet_family x family (networks b family) ≡ true
    → (names_family a family ≡ true) × (asks packet_family x family (networks a family) ≡ true)
unfolding net_covers names_family networks is_named
net_covers-asks packet_family x family none b c normal named h = (refl, refl)
net_covers-asks packet_family x family (some []) b c normal named h = (refl, refl)
net_covers-asks packet_family x family (some (o ∷ outer)) none c normal named h = ground arith
net_covers-asks packet_family x family (some (o ∷ outer)) (some []) c normal named h = absurd normal
net_covers-asks packet_family x family (some (o ∷ outer)) (some (i ∷ inner)) c normal named h =
    let (versions, inside) = asks-named packet_family x family _ named h in
    let covered = any_network-covered x family (i ∷ inner) (o ∷ outer) c inside in
    (any_named x _ covered, asks_any packet_family x family _ versions covered)

-- A field that covers one that is not there is not there.
pub net_covers-unnamed :
    (a b : Option (List Network))
    → net_covers a b ≡ true
    → IsNormal b
    → is_named b ≡ false
    → is_named a ≡ false
unfolding net_covers is_named
net_covers-unnamed none b c normal h = refl
net_covers-unnamed (some []) b c normal h = refl
net_covers-unnamed (some (o ∷ outer)) none c normal h = ground arith
net_covers-unnamed (some (o ∷ outer)) (some []) c normal h = absurd normal
net_covers-unnamed (some (o ∷ outer)) (some (i ∷ inner)) c normal h = ground arith
