-- ===== src/Sessions/Live.antt =====
-- The cookies that src/frfw/webui/auth.py takes for a session that the server still lists, and the CSRF
-- token of that session.
use mathlib.Core.Option.{some-injective}
use fr_os_pblk.Base.{
  ℕ, ◌<◌, String, ◌≡◌, refl, sym, ap, ◌∙◌, subst, true, not, Option, none, some, string_eq,
  if◌then◌else◌, arith, Bool-cases, Option-cases, inl, inr,
}
use fr_os_pblk.Base.Dict.{get}
use fr_os_pblk.Sessions.Listed.{Session, Sessions, load_sessions, entry_valid, valid}
use fr_os_pblk.Sessions.Manager.{
  Signing, Claim, load_cookie, live_claim, session_from_cookie, generate_csrf_token,
  verify_csrf_token, verify_csrf,
}

module _ (s : Signing) where
  -- The server still lists the claim's session, for its user and not expired.
  pub record IsListed (c : Claim) (now : ℕ) (sessions : Option Sessions) : Type 0 where
    pub session : Session
    pub found : get (s.sha256 c.sid) (load_sessions sessions) ≡ some session
    pub owner : session.user ≡ c.username
    pub lives : now < session.expires

  entry_valid-cases :
      (username : String) (now : ℕ) (o : Option Session)
      → entry_valid username now o ≡ true
      → (e : Session) × (o ≡ some e) × (e.user ≡ username) × (now < e.expires)
  entry_valid-cases username now none h = ground (arith, h)
  entry_valid-cases username now (some e) h =
      (e, refl, ground (arith, h, string_eq.test_iff e.user username), ground (arith, h))

  live_claim-IsListed :
      (o : Option Claim) (c : Claim) (now : ℕ) (sessions : Option Sessions)
      → live_claim s o now sessions ≡ some c
      → (o ≡ some c) × IsListed c now sessions
  unfolding live_claim valid
  live_claim-IsListed none c now sessions h = ground (arith, h)
  live_claim-IsListed (some d) c now sessions h =
      elim (Bool-cases
        (entry_valid d.username now (get (s.sha256 d.sid) (load_sessions sessions)))) [
          | inr stale ↦ ground (arith, h, stale)
          | inl fresh ↦
              let same : d ≡ c =
                some-injective d c (ap (λ b. if not b then none else some d) (sym fresh) ∙ h) in
              let (e, found, owner, lives) =
                entry_valid-cases d.username now (get (s.sha256 d.sid) (load_sessions sessions))
                  fresh in
              subst (λ x. (some d ≡ some x) × IsListed x now sessions) same
                (refl, record { session = e; found = found; owner = owner; lives = lives })
        ]

  verify_csrf_token_sound :
      (token sid : String)
      → verify_csrf_token s token sid ≡ true
      → token ≡ generate_csrf_token s sid
  unfolding verify_csrf_token
  verify_csrf_token_sound token sid h =
      ground (arith, h, string_eq.test_iff token (generate_csrf_token s sid))

  pub verify_csrf_sound :
      (cookie : Option String) (token : String) (now : ℕ) (sessions : Option Sessions) (c : Claim)
      → load_cookie s cookie now ≡ some c
      → verify_csrf s cookie (some token) now sessions ≡ true
      → token ≡ generate_csrf_token s c.sid
  unfolding verify_csrf
  verify_csrf_sound cookie token now sessions c signed h =
      elim (Option-cases (live_claim s (load_cookie s cookie now) now sessions)) [
        | inl dead ↦ ground (arith, h, dead)
        | inr (d, live) ↦
            let (same, listed) =
              live_claim-IsListed (load_cookie s cookie now) d now sessions live in
            let d_is_c : d ≡ c = some-injective d c (sym same ∙ signed) in
            subst (λ x. token ≡ generate_csrf_token s x.sid) d_is_c
              (verify_csrf_token_sound token d.sid (ground (arith, h, live)))
      ]

  pub session_from_cookie-cases :
      (cookie : Option String) (now : ℕ) (sessions : Option Sessions) (u v : String)
      → session_from_cookie s cookie now sessions ≡ some (u, v)
      → (c : Claim) × (load_cookie s cookie now ≡ some c)
        × IsListed c now sessions
        × (c.username ≡ u)
        × (c.version ≡ v)
  unfolding session_from_cookie
  session_from_cookie-cases cookie now sessions u v h =
      elim (Option-cases (live_claim s (load_cookie s cookie now) now sessions)) [
        | inl dead ↦ ground (arith, h, dead)
        | inr (c, live) ↦
            let (signed, listed) =
              live_claim-IsListed (load_cookie s cookie now) c now sessions live in
            (c, signed, listed, ground (arith, h, live), ground (arith, h, live))
      ]
