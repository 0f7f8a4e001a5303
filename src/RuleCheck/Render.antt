-- ===== src/RuleCheck/Render.antt =====
-- `_render_rule` of src/frfw/nft/builder.py, and when a packet matches a line. A line of a
-- scheduled rule is rendered for each segment of its schedule; here it carries the schedule.
use fr_os_pblk.Base.{
  ℕ, String, Bool, true, false, not, ◌&&◌, ◌||◌, Option, none, some, List, [], ◌∷◌, ◌++◌, map, ltb,
  leb, ◌==◌, nat_eq, string_eq, if◌then◌else◌,
}
use fr_os_pblk.RuleCheck.Rule.{
  Protocol, any, Schedule, Network, Rule, self_zone, networks, is_named,
}

-- How a client is signed in: a device by address and MAC, or a WireGuard client on the tunnel.
pub data Way : Type 0 where
  device : Way
  tunnel : Way

-- The expressions of a line that decide whether it matches.
pub data Expr : Type 0 where
  before : ℕ → Expr
  iifname : String → Expr
  oifname : String → Expr
  ztna : ℕ → Way → Expr
  dport : Protocol → ℕ → ℕ → Expr
  l4proto : Protocol → Expr
  ether_saddr : String → Expr
  saddr : ℕ → List Network → Expr
  daddr : ℕ → List Network → Expr
  in_segments : Schedule → Expr

-- What nft reads of a packet, its interfaces and the moment.
pub record Packet : Type 0 where
  pub time : ℕ
  pub arrives : String → Bool
  pub leaves : String → Bool
  pub signed_in : ℕ → Way → Bool
  pub is_proto : Protocol → Bool
  pub port : ℕ
  pub mac : String
  pub family : ℕ
  pub src : ℕ
  pub dst : ℕ
  pub is_scheduled : Schedule → Bool

unfoldable pub in_network : ℕ → Network → Bool
in_network address n = leb n.first address && leb address n.last

unfoldable pub any_network : ℕ → List Network → Bool
any_network address [] = false
any_network address (n ∷ nets) = in_network address n || any_network address nets

unfoldable pub holds : Packet → Expr → Bool
holds p (before expiry) = ltb p.time expiry
holds p (iifname zone) = p.arrives zone
holds p (oifname zone) = p.leaves zone
holds p (ztna family way) = (p.family == family) && p.signed_in family way
holds p (dport proto lo hi) = p.is_proto proto && (leb lo p.port && leb p.port hi)
holds p (l4proto proto) = p.is_proto proto
holds p (ether_saddr mac) = p.mac == mac
holds p (saddr family nets) = (p.family == family) && any_network p.src nets
holds p (daddr family nets) = (p.family == family) && any_network p.dst nets
holds p (in_segments schedule) = p.is_scheduled schedule

unfoldable pub line_holds : Packet → List Expr → Bool
line_holds p [] = true
line_holds p (e ∷ es) = holds p e && line_holds p es

-- The parts of a line, each from one field.
abbrev pub present : {A : Type 0} → (A → Expr) → Option A → List Expr
present f none = []
present f (some x) = f x ∷ []

abbrev pub to_exprs : Option String → List Expr
to_exprs none = []
to_exprs (some zone) = if zone == self_zone then [] else oifname zone ∷ []

abbrev pub proto_exprs : Option (ℕ × ℕ) → Protocol → List Expr
proto_exprs (some (lo, hi)) proto = dport proto lo hi ∷ []
proto_exprs none any = []
proto_exprs none proto = l4proto proto ∷ []

abbrev pub ztna_exprs : Option (ℕ × Way) → List Expr
ztna_exprs none = []
ztna_exprs (some (family, way)) = ztna family way ∷ []

abbrev pub address_exprs : (ℕ → List Network → Expr) → ℕ → List Network → List Expr
address_exprs f family [] = []
address_exprs f family (n ∷ nets) = f family (n ∷ nets) ∷ []

abbrev pub family_exprs : Rule → Option ℕ → List Expr
family_exprs rule none = []
family_exprs rule (some family) =
    address_exprs saddr family (networks rule.src_address family)
    ++ address_exprs daddr family (networks rule.dst_address family)

-- `_render_rule_lines`
unfoldable pub line : Rule → Option ℕ × Option (ℕ × Way) → List Expr
line rule (family, way) =
    present before rule.expires
    ++ (present iifname rule.from_zone
        ++ (to_exprs rule.to_zone
            ++ (ztna_exprs way
                ++ (proto_exprs rule.dst_port rule.proto
                    ++ (present ether_saddr rule.src_mac
                        ++ (family_exprs rule family ++ present in_segments rule.schedule))))))

unfoldable pub names_family : Option (List Network) → ℕ → Bool
names_family field family = if is_named field then is_named (some (networks field family)) else true

-- `Rule.families`
unfoldable pub in_families : Rule → ℕ → Bool
in_families rule family =
    names_family rule.src_address family && names_family rule.dst_address family

unfoldable pub is_addressed : Rule → Bool
is_addressed rule = is_named rule.src_address || is_named rule.dst_address

-- The ways to be signed in of one family, in `ZTNA_MATCHES`.
abbrev pub ways : Bool → ℕ → List (Option (ℕ × Way))
ways true family = some (family, device) ∷ some (family, tunnel) ∷ []
ways false family = none ∷ []

abbrev pub of_family : Rule → ℕ → List (Option ℕ × Option (ℕ × Way))
of_family rule family =
    if in_families rule family
    then map (λ way. (if is_addressed rule then some family else none, way))
        (ways rule.require_ztna family)
    else []

-- The lines of `_render_rule`, by their family and way.
unfoldable pub variants : Rule → List (Option ℕ × Option (ℕ × Way))
variants rule =
    if not (is_addressed rule) && not rule.require_ztna
    then (none, none) ∷ []
    else of_family rule 4 ++ of_family rule 6

unfoldable pub any_line : Packet → Rule → List (Option ℕ × Option (ℕ × Way)) → Bool
any_line p rule [] = false
any_line p rule (v ∷ vs) = line_holds p (line rule v) || any_line p rule vs

-- Whether nft takes this rule's decision for the packet.
unfoldable pub matches : Rule → Packet → Bool
matches rule p = any_line p rule (variants rule)
