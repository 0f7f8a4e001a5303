-- ===== src/RuleCheck/Sound.antt =====
-- `covers` is sound: a rule that covers another matches every packet that the other matches.
use fr_os_pblk.Base.{
  ℕ, ◌≡◌, refl, sym, ◌∙◌, Bool, true, false, not, ◌&&◌, ◌||◌, Option, none, some, List, [], ◌∷◌,
  ◌++◌, arith, Bool-cases, inl, inr, ◌⊎◌, if◌then◌else◌, subst, map,
}
use fr_os_pblk.RuleCheck.Rule.{Rule, is_named}
use fr_os_pblk.RuleCheck.Render.{
  Way, device, tunnel, Packet, line_holds, ztna_exprs, family_exprs, line, names_family,
  in_families, is_addressed, ways, of_family, variants, any_line, matches,
}
use fr_os_pblk.RuleCheck.Covers.{covers}
use fr_os_pblk.RuleCheck.Address.{IsNormal, net_covers-unnamed, and_left, and_right}
use fr_os_pblk.RuleCheck.Line.{family-part}
use fr_os_pblk.RuleCheck.Covering.{Covering, Variant, covers-Covering, line-covered, line-families}

-- The family of a line of `rule`, rendered for `family`.
abbrev key : Rule → ℕ → Option ℕ
key rule family = if is_addressed rule then some family else none

abbrev IsWay : Bool → ℕ → Option (ℕ × Way) → Type 0
IsWay true family way = (w : Way) × (way ≡ some (family, w))
IsWay false family way = way ≡ none

neither_left : (a b : Bool) → a || b ≡ false → a ≡ false
neither_left a b h = ground arith

neither_right : (a b : Bool) → a || b ≡ false → b ≡ false
neither_right a b h = ground arith

is_false : (b : Bool) → not b ≡ true → b ≡ false
is_false b h = ground arith

or_false : (b : Bool) → b || false ≡ b
or_false true = refl
or_false false = refl

or_cases : (a b : Bool) → a || b ≡ true → (a ≡ true) ⊎ (b ≡ true)
or_cases true b h = inl refl
or_cases false b h = inr h

or_left : (a b : Bool) → a ≡ true → a || b ≡ true
or_left a b h = ground arith

or_right : (a b : Bool) → b ≡ true → a || b ≡ true
or_right a b h = ground arith

module _ (p : Packet) (rule : Rule) where
  any_line-append :
      (xs ys : List Variant) → any_line p rule (xs ++ ys) ≡ any_line p rule xs || any_line p rule ys
  unfolding any_line
  any_line-append [] ys = refl
  any_line-append (x ∷ xs) ys = ground (arith, any_line-append xs ys)

  way_taken :
      (k : Option ℕ) (gated : Bool) (family : ℕ)
      → any_line p rule (map (λ way. (k, way)) (ways gated family)) ≡ true
      → (way : Option (ℕ × Way)) × IsWay gated family way
        × (line_holds p (line rule (k, way)) ≡ true)
  unfolding any_line
  way_taken k true family h = elim (or_cases _ _ h) [
    | inl first ↦ (some (family, device), (device, refl), first)
    | inr later ↦ elim (or_cases _ _ later) [
      | inl second ↦ (some (family, tunnel), (tunnel, refl), second)
      | inr nothing ↦ ground arith
    ]
  ]
  way_taken k false family h = elim (or_cases _ _ h) [
    | inl first ↦ (none, refl, first)
    | inr nothing ↦ ground arith
  ]

  way_given :
      (k : Option ℕ) (gated : Bool) (family : ℕ) (way : Option (ℕ × Way))
      → IsWay gated family way
      → line_holds p (line rule (k, way)) ≡ true
      → any_line p rule (map (λ way. (k, way)) (ways gated family)) ≡ true
  unfolding any_line
  way_given k true family way (device, same) h =
      or_left _ _ (subst (λ w. line_holds p (line rule (k, w)) ≡ true) same h)
  way_given k true family way (tunnel, same) h =
      or_right _ _ (or_left _ _ (subst (λ w. line_holds p (line rule (k, w)) ≡ true) same h))
  way_given k false family way same h =
      or_left _ _ (subst (λ w. line_holds p (line rule (k, w)) ≡ true) same h)

  -- A line that holds, of those rendered for one family.
  abbrev FamilyLine : ℕ → Type 0
  FamilyLine family =
      (in_families rule family ≡ true)
      × ((way : Option (ℕ × Way)) × IsWay rule.require_ztna family way
          × (line_holds p (line rule (key rule family, way)) ≡ true))

  family_taken : (family : ℕ) → any_line p rule (of_family rule family) ≡ true → FamilyLine family
  family_taken family h = elim (Bool-cases (in_families rule family)) [
    | inl named ↦ (named, way_taken (key rule family) rule.require_ztna family (rw named at h))
    | inr unnamed ↦
        let nothing : any_line p rule [] ≡ true = rw unnamed at h in
        (unfold any_line in ground arith)
  ]

  family_given : (family : ℕ) → FamilyLine family → any_line p rule (of_family rule family) ≡ true
  family_given family (named, (way, is_way, h)) =
      rw named (way_given (key rule family) rule.require_ztna family way is_way h)

-- The rule is rendered once, whatever the family.
abbrev is_plain : Rule → Bool
is_plain rule = not (is_addressed rule) && not rule.require_ztna

module _ (p : Packet) (rule : Rule) where
  matches_plain : is_plain rule ≡ true → matches rule p ≡ line_holds p (line rule (none, none))
  unfolding matches variants any_line
  matches_plain h = rw h (or_false _)

  matches_bound :
      is_plain rule ≡ false
      → matches rule p ≡ any_line p rule (of_family rule 4) || any_line p rule (of_family rule 6)
  unfolding matches variants
  matches_bound h = rw h (any_line-append p rule (of_family rule 4) (of_family rule 6))

module _ (p : Packet) (a b : Rule) (c : Covering a b) (src_normal : IsNormal b.src_address)
    (dst_normal : IsNormal b.dst_address) where
  unaddressed : is_addressed b ≡ false → is_addressed a ≡ false
  unfolding is_addressed
  unaddressed h =
      let src =
        net_covers-unnamed a.src_address b.src_address c.source src_normal
          (neither_left (is_named b.src_address) (is_named b.dst_address) h) in
      let dst =
        net_covers-unnamed a.dst_address b.dst_address c.target dst_normal
          (neither_right (is_named b.src_address) (is_named b.dst_address) h) in
      ground (arith, src, dst)

  ungated : b.require_ztna ≡ false → a.require_ztna ≡ false
  ungated h = ground (arith, h, c.gated)

  unaddressed-in_families : (family : ℕ) → is_addressed a ≡ false → in_families a family ≡ true
  unfolding is_addressed in_families names_family
  unaddressed-in_families family h =
      rw
        (
          neither_left (is_named a.src_address) (is_named a.dst_address) h,
          neither_right (is_named a.src_address) (is_named a.dst_address) h,
        )
        refl

  -- The plain line of a rule without addresses and ZTNA.
  plain_line :
      (w : Variant) → line_holds p (line b w) ≡ true → line_holds p (line a (none, none)) ≡ true
  unfolding line_holds
  plain_line w h = line-covered p a b (none, none) w c (λ held. refl) refl h

  line_holds-nil : line_holds p [] ≡ true
  unfolding line_holds
  line_holds-nil = refl

  key_holds :
      (family : ℕ)
      → line_holds p (family_exprs a (some family)) ≡ true
      → line_holds p (family_exprs a (key a family)) ≡ true
  key_holds family h = elim (Bool-cases (is_addressed a)) [
    | inl addressed ↦ rw addressed h
    | inr plain ↦ rw plain line_holds-nil
  ]

  key-covered :
      (family : ℕ)
      → in_families b family ≡ true
      → line_holds p (family_exprs b (key b family)) ≡ true
      → (in_families a family ≡ true) × (line_holds p (family_exprs a (key a family)) ≡ true)
  key-covered family named h = elim (Bool-cases (is_addressed b)) [
    | inl addressed ↦
        let (a_named, held) =
          family-part p a b family c.source c.target src_normal dst_normal named
            (rw addressed at h) in
        (a_named, key_holds family held)
    | inr plain ↦
        (unaddressed-in_families family (unaddressed plain), rw (unaddressed plain) line_holds-nil)
  ]

  gated_too : a.require_ztna ≡ true → b.require_ztna ≡ true
  gated_too h = ground (arith, h, c.gated)

  -- The way of a line of `b`, or none if `a` does not ask for one.
  way-covered :
      (family : ℕ) (way : Option (ℕ × Way))
      → IsWay b.require_ztna family way
      → line_holds p (ztna_exprs way) ≡ true
      → (other : Option (ℕ × Way)) × IsWay a.require_ztna family other
        × (line_holds p (ztna_exprs other) ≡ true)
  way-covered family way is_way h = elim (Bool-cases a.require_ztna) [
    | inr free ↦ (none, subst (λ g. IsWay g family none) (sym free) refl, line_holds-nil)
    | inl gated ↦ (
      way,
      subst (λ g. IsWay g family way) (sym gated)
          (subst (λ g. IsWay g family way) (gated_too gated) is_way),
      h,
    )
  ]

  family-covered : (family : ℕ) → FamilyLine p b family → FamilyLine p a family
  family-covered family (named, (way, is_way, h)) =
      let (way_holds, key_family) = line-families p b (key b family, way) h in
      let (a_named, key_a) = key-covered family named key_family in
      let (other, is_other, other_holds) = way-covered family way is_way way_holds in
      (
        a_named,
        (
          other,
          is_other,
          line-covered p a b (key a family, other) (key b family, way) c (λ held. other_holds) key_a
              h,
        ),
      )

  plain_too : is_plain b ≡ true → is_plain a ≡ true
  plain_too h = ground (
    arith,
    unaddressed (is_false _ (and_left _ _ h)),
    ungated (is_false _ (and_right (not (is_addressed b)) _ h)),
  )

  line_of_family :
      (family : ℕ)
      → any_line p b (of_family b family) ≡ true
      → any_line p a (of_family a family) ≡ true
  line_of_family family h =
      family_given p a family (family-covered family (family_taken p b family h))

  plain_of_family :
      (family : ℕ)
      → any_line p b (of_family b family) ≡ true
      → line_holds p (line a (none, none)) ≡ true
  plain_of_family family h =
      let (named, (way, is_way, held)) = family_taken p b family h in
      plain_line (key b family, way) held

  covered_matches : matches b p ≡ true → matches a p ≡ true
  covered_matches h = elim (Bool-cases (is_plain b)) [
    | inl b_plain ↦
        matches_plain p a (plain_too b_plain)
        ∙ plain_line (none, none) (sym (matches_plain p b b_plain) ∙ h)
    | inr b_bound ↦
        let either = or_cases _ _ (sym (matches_bound p b b_bound) ∙ h) in
        elim (Bool-cases (is_plain a)) [
          | inl a_plain ↦
              matches_plain p a a_plain
              ∙ elim either [ inl four ↦ plain_of_family 4 four | inr six ↦ plain_of_family 6 six ]
          | inr a_bound ↦ matches_bound p a a_bound ∙ elim either [
            | inl four ↦ or_left _ _ (line_of_family 4 four)
            | inr six ↦ or_right _ _ (line_of_family 6 six)
          ]
        ]
  ]

-- If the rule check says that `a` covers `b`, and neither address field of `b` is an empty list,
-- then every packet, at every moment, that a rendered line of `b` matches is matched by a rendered
-- line of `a`.
pub covers-matches :
    (a b : Rule) (p : Packet)
    → covers a b ≡ true
    → IsNormal b.src_address
    → IsNormal b.dst_address
    → matches b p ≡ true
    → matches a p ≡ true
covers-matches a b p h src_normal dst_normal matched =
    covered_matches p a b (covers-Covering a b h) src_normal dst_normal matched
