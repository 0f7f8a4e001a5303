-- ===== src/RuleCheck/Tests.antt =====
-- Two rules that reach a server, the wider one first.
use fr_os_pblk.Base.{◌≡◌, refl, true, false, none, some, [], ◌∷◌, nat_eq}
use fr_os_pblk.RuleCheck.Rule.{accept, drop, tcp, Network, Rule, networks, is_named, protocol_test}
use fr_os_pblk.RuleCheck.Render.{
  Packet, matches, variants, any_line, line_holds, line, holds, in_families, names_family,
  is_addressed, in_network, any_network,
}
use fr_os_pblk.RuleCheck.Covers.{
  covers, text_covers, proto_covers, port_covers, net_covers, all_in_some, in_some, subnet_of,
  schedule_covers, expiry_covers,
}
use fr_os_pblk.RuleCheck.Sound.{covers-matches}
use fr_os_pblk.RuleCheck.Order.{
  IsEarliest, earliest_shadower, shadows, same_group, defeats, earliest_shadower-IsEarliest,
}
use fr_os_pblk.RuleCheck.First.{
  decision, first_covering, first_covering-decision, shadowed, chain_findings, cuts, in_input,
}

-- 10.0.0.0/8
abbrev office : Network
office = record { version = 4; first = 167772160; last = 184549375 }

-- 10.0.5.0/24
abbrev desk : Network
desk = record { version = 4; first = 167773440; last = 167773695 }

abbrev wide : Rule
wide = record {
  name = "office-out";
  action = accept;
  from_zone = some "lan";
  to_zone = some "wan";
  proto = tcp;
  dst_port = some (1, 1024);
  src_address = some (office ∷ []);
  dst_address = none;
  require_ztna = false;
  src_mac = none;
  schedule = none;
  expires = none;
}

abbrev narrow : Rule
narrow = record wide {
  name = "desk-web";
  action = drop;
  dst_port = some (443, 443);
  src_address = some (desk ∷ []);
  expires = some 5000;
}

abbrev packet : Packet
packet = record {
  time = 4000;
  arrives = λ zone. true;
  leaves = λ zone. true;
  signed_in = λ family way. false;
  is_proto = λ proto. protocol_test proto tcp;
  port = 443;
  mac = "aa:bb";
  family = 4;
  src = 167773450;
  dst = 1;
  is_scheduled = λ schedule. true;
}

wide-covers : covers wide narrow ≡ true
unfolding covers text_covers proto_covers port_covers net_covers all_in_some in_some subnet_of
    schedule_covers expiry_covers
wide-covers = refl

narrow-matches : matches narrow packet ≡ true
unfolding matches variants any_line line_holds line holds in_families names_family is_addressed
    in_network any_network networks is_named
narrow-matches = refl

covers-matches_example : matches wide packet ≡ true
covers-matches_example = covers-matches wide narrow packet wide-covers tt tt narrow-matches

wide_is_first : first_covering (wide ∷ []) narrow ≡ some wide
unfolding first_covering
wide_is_first = rw wide-covers refl

first_covering-decision_example : decision (wide ∷ narrow ∷ []) packet ≡ decision (wide ∷ []) packet
first_covering-decision_example =
    first_covering-decision (wide ∷ []) [] narrow wide packet wide_is_first tt tt

found : chain_findings [] (wide ∷ narrow ∷ []) ≡ ("desk-web", shadowed) ∷ []
unfolding chain_findings first_covering covers text_covers proto_covers port_covers net_covers
    all_in_some in_some subnet_of schedule_covers expiry_covers
found = refl

earliest_shadower-IsEarliest_example :
    IsEarliest (wide ∷ []) narrow (earliest_shadower (wide ∷ []) narrow)
earliest_shadower-IsEarliest_example = earliest_shadower-IsEarliest (wide ∷ []) narrow

found_first : earliest_shadower (wide ∷ []) narrow ≡ some wide
unfolding earliest_shadower shadows same_group defeats cuts in_input covers text_covers proto_covers
    port_covers net_covers all_in_some in_some subnet_of schedule_covers expiry_covers
found_first = refl
