-- ===== src/RuleCheck/Covering.antt =====
-- A line of a rule against a line of one that covers it, part by part.
use fr_os_pblk.Base.{ℕ, ◌≡◌, true, not, ◌&&◌, Option}
use fr_os_pblk.RuleCheck.Rule.{Rule}
use fr_os_pblk.RuleCheck.Render.{
  Way, Packet, line_holds, present, to_exprs, proto_exprs, family_exprs, line, before, iifname,
  ether_saddr, in_segments, ztna_exprs,
}
use fr_os_pblk.RuleCheck.Covers.{
  covers, text_covers, proto_covers, port_covers, net_covers, schedule_covers, expiry_covers,
}
use fr_os_pblk.RuleCheck.Address.{and_left, and_right}
use fr_os_pblk.RuleCheck.Line.{
  both, join, expiry-part, text-part, to-part, schedule-part, proto-part,
}

-- What `covers` asks of each field.
pub record Covering (a b : Rule) : Type 0 where
  pub from_zone : text_covers a.from_zone b.from_zone ≡ true
  pub to_zone : text_covers a.to_zone b.to_zone ≡ true
  pub proto : proto_covers a.proto b.proto ≡ true
  pub port : port_covers a.dst_port b.dst_port a.proto b.proto ≡ true
  pub source : net_covers a.src_address b.src_address ≡ true
  pub target : net_covers a.dst_address b.dst_address ≡ true
  pub mac : text_covers a.src_mac b.src_mac ≡ true
  pub gated : not (a.require_ztna && not b.require_ztna) ≡ true
  pub schedule : schedule_covers a.schedule b.schedule ≡ true
  pub expiry : expiry_covers a.expires b.expires ≡ true

pub covers-Covering : (a b : Rule) → covers a b ≡ true → Covering a b
unfolding covers
covers-Covering a b h =
    let h₁ = and_right _ _ h in
    let h₂ = and_right _ _ h₁ in
    let h₃ = and_right _ _ h₂ in
    let h₄ = and_right _ _ h₃ in
    let h₅ = and_right _ _ h₄ in
    let h₆ = and_right _ _ h₅ in
    let h₇ = and_right _ _ h₆ in
    record {
      from_zone = and_left _ _ h;
      to_zone = and_left _ _ h₁;
      proto = and_left _ _ h₂;
      port = and_left _ _ h₃;
      source = and_left _ _ (and_left _ _ h₄);
      target = and_right _ _ (and_left _ _ h₄);
      mac = and_left _ _ h₅;
      gated = and_left _ _ h₆;
      schedule = and_left _ _ h₇;
      expiry = and_right _ _ h₇;
    }

-- The parts of a line that depend on its family and way.
abbrev pub Variant : Type 0
Variant = Option ℕ × Option (ℕ × Way)

-- A line whose family and way part holds for `a`, when a line of `b` holds.
pub line-covered :
    (p : Packet) (a b : Rule) (v w : Variant)
    → Covering a b
    → (line_holds p (ztna_exprs w.1) ≡ true → line_holds p (ztna_exprs v.1) ≡ true)
    → line_holds p (family_exprs a v.0) ≡ true
    → line_holds p (line b w) ≡ true
    → line_holds p (line a v) ≡ true
unfolding line
line-covered p a b (f, v) (g, w) c way families h =
    let (h₀, t₁) = both p (present before b.expires) _ h in
    let (h₁, t₂) = both p (present iifname b.from_zone) _ t₁ in
    let (h₂, t₃) = both p (to_exprs b.to_zone) _ t₂ in
    let (h₃, t₄) = both p (ztna_exprs w) _ t₃ in
    let (h₄, t₅) = both p (proto_exprs b.dst_port b.proto) _ t₄ in
    let (h₅, t₆) = both p (present ether_saddr b.src_mac) _ t₅ in
    let (h₆, h₇) = both p (family_exprs b g) (present in_segments b.schedule) t₆ in
    join p (present before a.expires) _ (expiry-part p a.expires b.expires c.expiry h₀) (
      join p (present iifname a.from_zone) _
        (text-part p iifname a.from_zone b.from_zone c.from_zone h₁)
        (join p (to_exprs a.to_zone) _ (to-part p a.to_zone b.to_zone c.to_zone h₂) (
          join p (ztna_exprs v) _ (way h₃) (
            join p (proto_exprs a.dst_port a.proto) _
              (proto-part p a.dst_port b.dst_port a.proto b.proto c.proto c.port h₄)
              (join p (present ether_saddr a.src_mac) _
                (text-part p ether_saddr a.src_mac b.src_mac c.mac h₅)
                (join p (family_exprs a f) (present in_segments a.schedule) families
                  (schedule-part p a.schedule b.schedule c.schedule h₇)))))))

pub line-families :
    (p : Packet) (b : Rule) (w : Variant)
    → line_holds p (line b w) ≡ true
    → (line_holds p (ztna_exprs w.1) ≡ true) × (line_holds p (family_exprs b w.0) ≡ true)
unfolding line
line-families p b (g, w) h =
    let (h₀, t₁) = both p (present before b.expires) _ h in
    let (h₁, t₂) = both p (present iifname b.from_zone) _ t₁ in
    let (h₂, t₃) = both p (to_exprs b.to_zone) _ t₂ in
    let (h₃, t₄) = both p (ztna_exprs w) _ t₃ in
    let (h₄, t₅) = both p (proto_exprs b.dst_port b.proto) _ t₄ in
    let (h₅, t₆) = both p (present ether_saddr b.src_mac) _ t₅ in
    (h₃, (both p (family_exprs b g) (present in_segments b.schedule) t₆).0)
