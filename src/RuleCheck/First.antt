-- ===== src/RuleCheck/First.antt =====
-- The first matching rule decides, and a rule that an earlier one covers never does.
use fr_os_pblk.Base.{
  ◌≡◌, refl, sym, ap, ◌∙◌, Bool, true, false, Option, none, some, List, [], ◌∷◌, ◌++◌, arith,
  Bool-cases, inl, inr, if◌then◌else◌, String, ◌==◌, keep, string_eq, not,
}
use fr_os_pblk.RuleCheck.Rule.{Action, Rule, Schedule, action_test, self_zone}
use fr_os_pblk.RuleCheck.Render.{Packet, matches}
use fr_os_pblk.RuleCheck.Covers.{covers}
use fr_os_pblk.RuleCheck.Address.{IsNormal}
use fr_os_pblk.RuleCheck.Sound.{covers-matches}

-- nft takes the decision of the first rule of a chain that matches. `build_ruleset` renders the rules of
-- the config one after the other; the fixed rules of a chain are not among these.
unfoldable pub decision : List Rule → Packet → Option Action
decision [] p = none
decision (rule ∷ rules) p =
    let rest = decision rules p in if matches rule p then some rule.action else rest

-- `next((e for e in chain[:i] if covers(e, rule)), None)`
unfoldable pub first_covering : List Rule → Rule → Option Rule
first_covering [] rule = none
first_covering (e ∷ earlier) rule =
    let rest = first_covering earlier rule in if covers e rule then some e else rest

unfoldable pub cuts : Option Schedule → Bool
cuts none = false
cuts (some schedule) = schedule.cut_established

unfoldable pub in_input : Option String → Bool
in_input none = false
in_input (some zone) = zone == self_zone

abbrev pub cut_first : List Rule → List Rule
cut_first rules = keep (λ r. cuts r.schedule) rules ++ keep (λ r. not (cuts r.schedule)) rules

-- `_chains`
unfoldable pub chains : List Rule → List (List Rule)
chains rules =
    cut_first (keep (λ r. in_input r.to_zone) rules)
    ∷ cut_first (keep (λ r. not (in_input r.to_zone)) rules)
    ∷ []

pub data Kind : Type 0 where
  redundant : Kind
  shadowed : Kind

abbrev pub kind_of : Rule → Option Rule → List (String × Kind)
kind_of rule none = []
kind_of rule (some e) =
    (rule.name, if action_test e.action rule.action then redundant else shadowed) ∷ []

-- The findings of `lint` on a chain, after the rules seen.
unfoldable pub chain_findings : List Rule → List Rule → List (String × Kind)
chain_findings seen [] = []
chain_findings seen (rule ∷ rules) =
    kind_of rule (first_covering seen rule) ++ chain_findings (seen ++ rule ∷ []) rules

decision_skip :
    (rule : Rule) (rules : List Rule) (p : Packet)
    → matches rule p ≡ false
    → decision (rule ∷ rules) p ≡ decision rules p
unfolding decision
decision_skip rule rules p h = rw h refl

decision_take :
    (rule : Rule) (rules : List Rule) (p : Packet)
    → matches rule p ≡ true
    → decision (rule ∷ rules) p ≡ some rule.action
unfolding decision
decision_take rule rules p h = rw h refl

-- In front of what follows, the same rule leaves equal decisions equal.
decision-cons :
    (f : Rule) (xs ys : List Rule) (p : Packet)
    → decision xs p ≡ decision ys p
    → decision (f ∷ xs) p ≡ decision (f ∷ ys) p
unfolding decision
decision-cons f xs ys p h = ap (λ rest. if matches f p then some f.action else rest) h

decision-missing :
    (earlier rules : List Rule) (rule : Rule) (p : Packet)
    → matches rule p ≡ false
    → decision (earlier ++ rule ∷ rules) p ≡ decision (earlier ++ rules) p
decision-missing [] rules rule p h = decision_skip rule rules p h
decision-missing (f ∷ earlier) rules rule p h =
    decision-cons f (earlier ++ rule ∷ rules) (earlier ++ rules) p
      (decision-missing earlier rules rule p h)

matches-missing :
    (f rule : Rule) (p : Packet)
    → covers f rule ≡ true
    → IsNormal rule.src_address
    → IsNormal rule.dst_address
    → matches f p ≡ false
    → matches rule p ≡ false
matches-missing f rule p h src dst miss = elim (Bool-cases (matches rule p)) [
  | inr missing ↦ missing
  | inl hit ↦ ground (arith, covers-matches f rule p h src dst hit, miss)
]

-- A rule with an earlier one that covers it, whose address fields are not empty lists, decides
-- nothing: for every packet at every moment, the chain without it decides the same.
pub first_covering-decision :
    (earlier rules : List Rule) (rule e : Rule) (p : Packet)
    → first_covering earlier rule ≡ some e
    → IsNormal rule.src_address
    → IsNormal rule.dst_address
    → decision (earlier ++ rule ∷ rules) p ≡ decision (earlier ++ rules) p
unfolding first_covering
first_covering-decision [] rules rule e p h src dst = ground arith
first_covering-decision (f ∷ earlier) rules rule e p h src dst = elim (Bool-cases (matches f p)) [
  | inl hit ↦
      decision_take f (earlier ++ rule ∷ rules) p hit
      ∙ sym (decision_take f (earlier ++ rules) p hit)
  | inr miss ↦
      decision-cons f (earlier ++ rule ∷ rules) (earlier ++ rules) p
        (elim (Bool-cases (covers f rule)) [
          | inl over ↦
              decision-missing earlier rules rule p (matches-missing f rule p over src dst miss)
          | inr apart ↦ first_covering-decision earlier rules rule e p (rw apart at h) src dst
        ])
]
