-- ===== src/RuleCheck/Order.antt =====
-- src/frfw/rule_order.py: the rule that would keep a new one from taking effect.
use fr_os_pblk.Base.{
  ℕ, String, ◌≡◌, ◌≢◌, ◌⊎◌, arith, refl, ap, Bool, true, false, not, ◌&&◌, Option, none, some, List,
  [], ◌∷◌, ◌++◌, ◌==◌, string_eq, bool_eq, Bool-cases, inl, inr, if◌then◌else◌, All,
}
use fr_os_pblk.RuleCheck.Rule.{Action, accept, drop, reject, Rule, action_test}
use fr_os_pblk.RuleCheck.Covers.{covers}
use fr_os_pblk.RuleCheck.First.{cuts, in_input}

-- `_chain_group` of two rules is the same.
unfoldable pub same_group : Rule → Rule → Bool
same_group a b = (in_input a.to_zone == in_input b.to_zone) && (cuts a.schedule == cuts b.schedule)

-- `_defeats`
unfoldable pub defeats : Rule → Rule → Bool
defeats earlier later =
    if not (action_test earlier.action later.action)
    then true
    else later.require_ztna && not earlier.require_ztna

-- The tests of `earliest_shadower` on one rule.
unfoldable pub shadows : Rule → Rule → Bool
shadows rule new =
    not (rule.name == new.name) && (same_group rule new && (covers rule new && defeats rule new))

unfoldable pub earliest_shadower : List Rule → Rule → Option Rule
earliest_shadower [] new = none
earliest_shadower (rule ∷ rules) new =
    let rest = earliest_shadower rules new in if shadows rule new then some rule else rest

-- The rule has another name, stands in the same chain and group as the new one and covers it, and
-- decides otherwise, or accepts without a sign-in what the new one wants one for.
pub record Shadows (rule new : Rule) : Type 0 where
  pub other_name : rule.name ≢ new.name
  pub same_chain : in_input rule.to_zone ≡ in_input new.to_zone
  pub same_cut : cuts rule.schedule ≡ cuts new.schedule
  pub over : covers rule new ≡ true
  pub decides :
      (rule.action ≢ new.action) ⊎ ((new.require_ztna ≡ true) × (rule.require_ztna ≡ false))

-- What makes the rule stay out of the new one's way.
abbrev pub Spares : Rule → Rule → Type 0
Spares rule new =
    (rule.name ≡ new.name)
    ⊎ ((in_input rule.to_zone ≢ in_input new.to_zone)
        ⊎ ((cuts rule.schedule ≢ cuts new.schedule)
            ⊎ ((covers rule new ≡ false)
                ⊎ ((rule.action ≡ new.action)
                    × ((new.require_ztna ≡ false) ⊎ (rule.require_ztna ≡ true))))))

-- Nothing in the list shadows the new rule; or the list splits at a rule that does, and nothing
-- before it does.
abbrev pub IsEarliest : List Rule → Rule → Option Rule → Type 0
IsEarliest rules new none = All (λ rule. Spares rule new) rules
IsEarliest rules new (some found) =
    (front : List Rule) × (back : List Rule) × (rules ≡ front ++ found ∷ back)
    × All (λ rule. Spares rule new) front
    × Shadows found new

action_kind : Action → ℕ
action_kind accept = 0
action_kind drop = 1
action_kind reject = 2

action_cases :
    (a b : Action) → ((a ≡ b) × (action_test a b ≡ true)) ⊎ ((a ≢ b) × (action_test a b ≡ false))
unfolding action_kind
action_cases accept accept = inl (refl, refl)
action_cases drop drop = inl (refl, refl)
action_cases reject reject = inl (refl, refl)
action_cases accept drop = inr ((λ h. ground (arith, ap action_kind h)), refl)
action_cases accept reject = inr ((λ h. ground (arith, ap action_kind h)), refl)
action_cases drop accept = inr ((λ h. ground (arith, ap action_kind h)), refl)
action_cases drop reject = inr ((λ h. ground (arith, ap action_kind h)), refl)
action_cases reject accept = inr ((λ h. ground (arith, ap action_kind h)), refl)
action_cases reject drop = inr ((λ h. ground (arith, ap action_kind h)), refl)

both_true : (a b : Bool) → (a && b) ≡ true → (a ≡ true) × (b ≡ true)
both_true true b h = (refl, h)
both_true false b h = ground (arith, h)

either_false : (a b : Bool) → (a && b) ≡ false → (a ≡ false) ⊎ (b ≡ false)
either_false true b h = inr h
either_false false b h = inl refl

not-true : (a : Bool) → not a ≡ true → a ≡ false
not-true true h = ground (arith, h)
not-true false h = refl

not-false : (a : Bool) → not a ≡ false → a ≡ true
not-false true h = refl
not-false false h = ground (arith, h)

differ : (a b : Bool) → (a == b) ≡ false → a ≢ b
differ a b h same = ground (arith, h, (bool_eq.test_iff a b).1 same)

other_names : (a b : String) → (a == b) ≡ false → a ≢ b
other_names a b h same = ground (arith, h, (string_eq.test_iff a b).1 same)

defeats-true :
    (rule new : Rule)
    → defeats rule new ≡ true
    → (rule.action ≢ new.action) ⊎ ((new.require_ztna ≡ true) × (rule.require_ztna ≡ false))
unfolding defeats
defeats-true rule new h = elim (action_cases rule.action new.action) [
  | inl (same, test) ↦
      let (gated, ungated) = both_true new.require_ztna (not rule.require_ztna) (rw test at h) in
      inr (gated, not-true rule.require_ztna ungated)
  | inr (other, test) ↦ inl other
]

defeats-false :
    (rule new : Rule)
    → defeats rule new ≡ false
    → (rule.action ≡ new.action) × ((new.require_ztna ≡ false) ⊎ (rule.require_ztna ≡ true))
unfolding defeats
defeats-false rule new h = elim (action_cases rule.action new.action) [
  | inl (same, test) ↦ (
    same,
    elim (either_false new.require_ztna (not rule.require_ztna) (rw test at h)) [
      | inl free ↦ inl free
      | inr gated ↦ inr (not-false rule.require_ztna gated)
    ],
  )
  | inr (other, test) ↦ ground (arith, rw test at h)
]

shadows-Shadows : (rule new : Rule) → shadows rule new ≡ true → Shadows rule new
unfolding shadows same_group
shadows-Shadows rule new h =
    let (named, rest) = both_true (not (rule.name == new.name)) _ h in
    let (group, rest') =
      both_true (same_group rule new) (covers rule new && defeats rule new) rest in
    let (chain, cut) =
      both_true (in_input rule.to_zone == in_input new.to_zone)
        (cuts rule.schedule == cuts new.schedule) group in
    let (covered, over) = both_true (covers rule new) (defeats rule new) rest' in
    record {
      other_name = other_names rule.name new.name (not-true _ named);
      same_chain = (bool_eq.test_iff (in_input rule.to_zone) (in_input new.to_zone)).0 chain;
      same_cut = (bool_eq.test_iff (cuts rule.schedule) (cuts new.schedule)).0 cut;
      over = covered;
      decides = defeats-true rule new over;
    }

shadows-Spares : (rule new : Rule) → shadows rule new ≡ false → Spares rule new
unfolding shadows same_group
shadows-Spares rule new h = elim (either_false (not (rule.name == new.name)) _ h) [
  | inl named ↦ inl ((string_eq.test_iff rule.name new.name).0 (not-false _ named))
  | inr rest ↦
      elim (either_false (same_group rule new) (covers rule new && defeats rule new) rest) [
        | inl apart ↦
            elim (either_false (in_input rule.to_zone == in_input new.to_zone)
              (cuts rule.schedule == cuts new.schedule) apart) [
                | inl chain ↦ inr (inl (differ _ _ chain))
                | inr cut ↦ inr (inr (inl (differ _ _ cut)))
              ]
        | inr past ↦ elim (either_false (covers rule new) (defeats rule new) past) [
          | inl uncovered ↦ inr (inr (inr (inl uncovered)))
          | inr kept ↦ inr (inr (inr (inr (defeats-false rule new kept))))
        ]
      ]
]

after_unshadowed :
    (rule : Rule) (rules : List Rule) (new : Rule) (found : Option Rule)
    → Spares rule new
    → IsEarliest rules new found
    → IsEarliest (rule ∷ rules) new found
after_unshadowed rule rules new none apart h = (apart, h)
after_unshadowed rule rules new (some found) apart (front, back, splits, unshadowed, over) =
    (rule ∷ front, back, ap (λ l. rule ∷ l) splits, (apart, unshadowed), over)

-- A rule shadows the new one when it has another name, stands in the same chain and group, covers
-- it, and decides otherwise or wants no sign-in where the new one does. If the search finds none,
-- no rule of the list shadows the new one; if it finds one, that rule does and none before it.
pub earliest_shadower-IsEarliest :
    (rules : List Rule) (new : Rule) → IsEarliest rules new (earliest_shadower rules new)
unfolding earliest_shadower
earliest_shadower-IsEarliest [] new = tt
earliest_shadower-IsEarliest (rule ∷ rules) new = elim (Bool-cases (shadows rule new)) [
  | inl over ↦ rw over ([], rules, refl, tt, shadows-Shadows rule new over)
  | inr apart ↦ rw apart (
      after_unshadowed rule rules new (earliest_shadower rules new) (shadows-Spares rule new apart)
        (earliest_shadower-IsEarliest rules new))
]
