-- ===== src/RuleCheck/Line.antt =====
-- The other parts of a line: if a rule covers another, each part of its line asks no more.
use fr_os_pblk.Base.{
  ℕ, String, ◌≡◌, refl, sym, ◌∙◌, Bool, true, false, ◌&&◌, Option, none, some, List, [], ◌∷◌, ◌++◌,
  arith, leb, nat_eq, string_eq, subst,
}
use fr_os_pblk.RuleCheck.Rule.{
  Protocol, any, tcp, udp, icmp, Schedule, Rule, Network, protocol_test-eq, schedule_test-eq,
  networks,
}
use fr_os_pblk.RuleCheck.Render.{
  Expr, before, dport, saddr, daddr, in_segments, Packet, holds, line_holds, present, to_exprs,
  proto_exprs, address_exprs, family_exprs, in_families,
}
use fr_os_pblk.RuleCheck.Covers.{
  text_covers, proto_covers, port_covers, schedule_covers, expiry_covers, net_covers,
}
use fr_os_pblk.RuleCheck.Address.{asks, IsNormal, net_covers-asks, and_left, and_right}

and_true : (b : Bool) → b && true ≡ b
and_true true = refl
and_true false = refl

pub both_true : {a b : Bool} → a ≡ true → b ≡ true → a && b ≡ true
both_true h i = ground (arith, h, i)

module _ (p : Packet) where
  line_holds-append :
      (xs ys : List Expr) → line_holds p (xs ++ ys) ≡ line_holds p xs && line_holds p ys
  unfolding line_holds
  line_holds-append [] ys = refl
  line_holds-append (x ∷ xs) ys = ground (arith, line_holds-append xs ys)

  pub both :
      (xs ys : List Expr)
      → line_holds p (xs ++ ys) ≡ true
      → (line_holds p xs ≡ true) × (line_holds p ys ≡ true)
  both xs ys h =
      let split = sym (line_holds-append xs ys) ∙ h in (and_left _ _ split, and_right _ _ split)

  pub join :
      (xs ys : List Expr)
      → line_holds p xs ≡ true
      → line_holds p ys ≡ true
      → line_holds p (xs ++ ys) ≡ true
  join xs ys hx hy = line_holds-append xs ys ∙ ground (arith, hx, hy)

  pub expiry-part :
      (a b : Option ℕ)
      → expiry_covers a b ≡ true
      → line_holds p (present before b) ≡ true
      → line_holds p (present before a) ≡ true
  unfolding line_holds holds expiry_covers
  expiry-part none b c h = refl
  expiry-part (some a) none c h = ground arith
  expiry-part (some a) (some b) c h = ground arith

  pub text-part :
      (f : String → Expr) (a b : Option String)
      → text_covers a b ≡ true
      → line_holds p (present f b) ≡ true
      → line_holds p (present f a) ≡ true
  unfolding line_holds text_covers
  text-part f none b c h = refl
  text-part f (some a) none c h = ground arith
  text-part f (some a) (some b) c h =
      subst (λ x. line_holds p (f x ∷ []) ≡ true) (sym ((string_eq.test_iff a b).0 c)) h

  pub to-part :
      (a b : Option String)
      → text_covers a b ≡ true
      → line_holds p (to_exprs b) ≡ true
      → line_holds p (to_exprs a) ≡ true
  unfolding line_holds text_covers
  to-part none b c h = refl
  to-part (some a) none c h = ground arith
  to-part (some a) (some b) c h =
      subst (λ x. line_holds p (to_exprs (some x)) ≡ true) (sym ((string_eq.test_iff a b).0 c)) h

  pub schedule-part :
      (a b : Option Schedule)
      → schedule_covers a b ≡ true
      → line_holds p (present in_segments b) ≡ true
      → line_holds p (present in_segments a) ≡ true
  unfolding line_holds schedule_covers
  schedule-part none b c h = refl
  schedule-part (some a) none c h = ground arith
  schedule-part (some a) (some b) c h =
      subst (λ x. line_holds p (in_segments x ∷ []) ≡ true) (sym (schedule_test-eq a b c)) h

  -- A line with a protocol and a port, or only one of them, asks for the protocol.
  proto-asked :
      (proto : Protocol) (port : Option (ℕ × ℕ))
      → line_holds p (proto_exprs port proto) ≡ true
      → line_holds p (proto_exprs none proto) ≡ true
  unfolding line_holds holds
  proto-asked any port h = refl
  proto-asked tcp none h = h
  proto-asked tcp (some (lo, hi)) h = ground arith
  proto-asked udp none h = h
  proto-asked udp (some (lo, hi)) h = ground arith
  proto-asked icmp none h = h
  proto-asked icmp (some (lo, hi)) h = ground arith

  proto-unported :
      (pa pb : Protocol)
      → proto_covers pa pb ≡ true
      → line_holds p (proto_exprs none pb) ≡ true
      → line_holds p (proto_exprs none pa) ≡ true
  unfolding proto_covers line_holds
  proto-unported any pb c h = refl
  proto-unported tcp pb c h =
      subst (λ x. line_holds p (proto_exprs none x) ≡ true) (sym (protocol_test-eq tcp pb c)) h
  proto-unported udp pb c h =
      subst (λ x. line_holds p (proto_exprs none x) ≡ true) (sym (protocol_test-eq udp pb c)) h
  proto-unported icmp pb c h =
      subst (λ x. line_holds p (proto_exprs none x) ≡ true) (sym (protocol_test-eq icmp pb c)) h

  wider-port :
      (proto : Protocol) (alo ahi blo bhi : ℕ)
      → leb alo blo && leb bhi ahi ≡ true
      → line_holds p (dport proto blo bhi ∷ []) ≡ true
      → line_holds p (dport proto alo ahi ∷ []) ≡ true
  unfolding line_holds holds
  wider-port proto alo ahi blo bhi c h = ground arith

  pub proto-part :
      (a b : Option (ℕ × ℕ)) (pa pb : Protocol)
      → proto_covers pa pb ≡ true
      → port_covers a b pa pb ≡ true
      → line_holds p (proto_exprs b pb) ≡ true
      → line_holds p (proto_exprs a pa) ≡ true
  unfolding port_covers
  proto-part none b pa pb c d h = proto-unported pa pb c (proto-asked pb b h)
  proto-part (some a) none pa pb c d h = ground arith
  proto-part (some (alo, ahi)) (some (blo, bhi)) pa pb c d h =
      let same = protocol_test-eq pb pa (and_left _ _ d) in
      wider-port pa alo ahi blo bhi (and_right _ _ d)
        (subst (λ x. line_holds p (dport x blo bhi ∷ []) ≡ true) same h)

  saddr-asks :
      (family : ℕ) (nets : List Network)
      → line_holds p (address_exprs saddr family nets) ≡ asks p.family p.src family nets
  unfolding line_holds holds
  saddr-asks family [] = refl
  saddr-asks family (n ∷ nets) = and_true _

  daddr-asks :
      (family : ℕ) (nets : List Network)
      → line_holds p (address_exprs daddr family nets) ≡ asks p.family p.dst family nets
  unfolding line_holds holds
  daddr-asks family [] = refl
  daddr-asks family (n ∷ nets) = and_true _

  -- The address expressions of a rule, for one family.
  pub family-part :
      (a b : Rule) (family : ℕ)
      → net_covers a.src_address b.src_address ≡ true
      → net_covers a.dst_address b.dst_address ≡ true
      → IsNormal b.src_address
      → IsNormal b.dst_address
      → in_families b family ≡ true
      → line_holds p (family_exprs b (some family)) ≡ true
      → (in_families a family ≡ true) × (line_holds p (family_exprs a (some family)) ≡ true)
  unfolding in_families
  family-part a b family sources targets src_normal dst_normal named h =
      let (src_holds, dst_holds) =
        both _ (address_exprs daddr family (networks b.dst_address family)) h in
      let (src_named, src_asked) =
        net_covers-asks p.family p.src family a.src_address b.src_address sources src_normal
          (and_left _ _ named)
          (sym (saddr-asks family (networks b.src_address family)) ∙ src_holds) in
      let (dst_named, dst_asked) =
        net_covers-asks p.family p.dst family a.dst_address b.dst_address targets dst_normal
          (and_right _ _ named)
          (sym (daddr-asks family (networks b.dst_address family)) ∙ dst_holds) in
      (
        both_true src_named dst_named,
        join (address_exprs saddr family (networks a.src_address family))
            (address_exprs daddr family (networks a.dst_address family))
            (saddr-asks family (networks a.src_address family) ∙ src_asked)
            (daddr-asks family (networks a.dst_address family) ∙ dst_asked),
      )
