-- ===== src/RuleCheck/Covers.antt =====
-- `covers` of src/frfw/rule_lint.py.
use fr_os_pblk.Base.{
  ℕ, String, Bool, true, false, not, ◌&&◌, ◌||◌, Option, none, some, List, [], ◌∷◌, leb, ◌==◌,
  nat_eq, string_eq,
}
use fr_os_pblk.RuleCheck.Rule.{Protocol, any, Schedule, Network, Rule, protocol_test, schedule_test}

-- `i.version == o.version and i.subnet_of(o)`
unfoldable pub subnet_of : Network → Network → Bool
subnet_of i o = (i.version == o.version) && (leb o.first i.first && leb i.last o.last)

unfoldable pub in_some : Network → List Network → Bool
in_some i [] = false
in_some i (o ∷ outer) = subnet_of i o || in_some i outer

unfoldable pub all_in_some : List Network → List Network → Bool
all_in_some [] outer = true
all_in_some (i ∷ inner) outer = in_some i outer && all_in_some inner outer

-- `_net_covers`
unfoldable pub net_covers : Option (List Network) → Option (List Network) → Bool
net_covers none inner = true
net_covers (some outer) none = false
net_covers (some outer) (some inner) = all_in_some inner outer

unfoldable pub text_covers : Option String → Option String → Bool
text_covers none b = true
text_covers (some a) none = false
text_covers (some a) (some b) = a == b

unfoldable pub proto_covers : Protocol → Protocol → Bool
proto_covers any b = true
proto_covers a b = protocol_test a b

unfoldable pub port_covers : Option (ℕ × ℕ) → Option (ℕ × ℕ) → Protocol → Protocol → Bool
port_covers none b pa pb = true
port_covers (some a) none pa pb = false
port_covers (some (alo, ahi)) (some (blo, bhi)) pa pb =
    protocol_test pb pa && (leb alo blo && leb bhi ahi)

unfoldable pub schedule_covers : Option Schedule → Option Schedule → Bool
schedule_covers none b = true
schedule_covers (some a) none = false
schedule_covers (some a) (some b) = schedule_test a b

unfoldable pub expiry_covers : Option ℕ → Option ℕ → Bool
expiry_covers none b = true
expiry_covers (some a) none = false
expiry_covers (some a) (some b) = leb b a

-- `covers`: the conditions in their order.
unfoldable pub covers : Rule → Rule → Bool
covers a b =
    text_covers a.from_zone b.from_zone
    && (text_covers a.to_zone b.to_zone
        && (proto_covers a.proto b.proto
            && (port_covers a.dst_port b.dst_port a.proto b.proto
                && ((net_covers a.src_address b.src_address
                      && net_covers a.dst_address b.dst_address)
                    && (text_covers a.src_mac b.src_mac
                        && (not (a.require_ztna && not b.require_ztna)
                            && (schedule_covers a.schedule b.schedule
                                && expiry_covers a.expires b.expires)))))))
