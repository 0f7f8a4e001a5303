-- ===== src/RuleCheck/Rule.antt =====
-- `Rule` of src/frfw/config/schema.py. A network of `ipaddress` is its version with its first and
-- last address; a port specification is its bounds.
use fr_os_pblk.Base.{
  ℕ, String, ◌≡◌, refl, Bool, true, false, ◌&&◌, Option, none, some, List, [], ◌∷◌, keep, arith,
  ◌==◌, nat_eq, bool_eq, string_eq, option_eq,
}

pub data Action : Type 0 where
  accept : Action
  drop : Action
  reject : Action

pub data Protocol : Type 0 where
  any : Protocol
  tcp : Protocol
  udp : Protocol
  icmp : Protocol

abbrev pub protocol_test : Protocol → Protocol → Bool
protocol_test any any = true
protocol_test tcp tcp = true
protocol_test udp udp = true
protocol_test icmp icmp = true
protocol_test _ _ = false

abbrev pub action_test : Action → Action → Bool
action_test accept accept = true
action_test drop drop = true
action_test reject reject = true
action_test _ _ = false

-- `RuleSchedule`
pub record Schedule : Type 0 where
  pub days : List ℕ
  pub from_minute : ℕ
  pub to_minute : ℕ
  pub cut_established : Bool

abbrev pub days_test : List ℕ → List ℕ → Bool
days_test [] [] = true
days_test (a ∷ rest) (b ∷ bs) = (a == b) && days_test rest bs
days_test _ _ = false

abbrev pub schedule_test : Schedule → Schedule → Bool
schedule_test s t =
    (days_test s.days t.days && (s.from_minute == t.from_minute))
    && ((s.to_minute == t.to_minute) && (s.cut_established == t.cut_established))

pub record Network : Type 0 where
  pub version : ℕ
  pub first : ℕ
  pub last : ℕ

pub record Rule : Type 0 where
  pub name : String
  pub action : Action
  pub from_zone : Option String
  pub to_zone : Option String
  pub proto : Protocol
  pub dst_port : Option (ℕ × ℕ)
  pub src_address : Option (List Network)
  pub dst_address : Option (List Network)
  pub require_ztna : Bool
  pub src_mac : Option String
  pub schedule : Option Schedule
  pub expires : Option ℕ

abbrev pub self_zone : String
self_zone = "self"

-- `Rule.networks`
unfoldable pub networks : Option (List Network) → ℕ → List Network
networks none version = []
networks (some nets) version = keep (λ n. n.version == version) nets

-- `bool(field)` of an address field.
unfoldable pub is_named : Option (List Network) → Bool
is_named none = false
is_named (some []) = false
is_named (some (n ∷ nets)) = true

pub days_test-eq : (a b : List ℕ) → days_test a b ≡ true → a ≡ b
days_test-eq [] [] h = refl
days_test-eq [] (b ∷ bs) h = ground arith
days_test-eq (a ∷ rest) [] h = ground arith
days_test-eq (a ∷ rest) (b ∷ bs) h = ground (arith, (nat_eq.test_iff a b).0, days_test-eq rest bs)

pub protocol_test-eq : (a b : Protocol) → protocol_test a b ≡ true → a ≡ b
protocol_test-eq a b h = ground arith

pub schedule_test-eq : (s t : Schedule) → schedule_test s t ≡ true → s ≡ t
schedule_test-eq s t h = ground (
  arith,
  h,
  days_test-eq s.days t.days,
  (nat_eq.test_iff s.from_minute t.from_minute).0,
  (nat_eq.test_iff s.to_minute t.to_minute).0,
  (bool_eq.test_iff s.cut_established t.cut_established).0,
)
