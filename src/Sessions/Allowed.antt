-- ===== src/Sessions/Allowed.antt =====
-- The requests that pass `require_login` of src/frfw/webui/deps.py.
use fr_os_pblk.Base.{
  ℕ, String, ◌≡◌, ◌≢◌, refl, sym, ap, ◌∙◌, subst, Bool, true, false, not, ◌&&◌, Option, none, some,
  ◌==◌, string_eq, arith, Bool-cases, Option-cases, inl, inr, ◌⊎◌,
}
use fr_os_pblk.Accounts.Account.{AdminAccount, File, has_mfa, is_admin, find_account, policy}
use fr_os_pblk.Sessions.Listed.{Sessions}
use fr_os_pblk.Sessions.Manager.{
  Signing, Claim, load_cookie, session_from_cookie, generate_csrf_token, verify_csrf,
}
use fr_os_pblk.Sessions.Login.{
  PageRequest, allowed, safe_methods, viewer_allowed_paths, setup_paths, one_of, enrols, owes_mfa,
  may_change, session_account, check_account, require_login,
}
use fr_os_pblk.Sessions.Live.{IsListed, verify_csrf_sound, session_from_cookie-cases}

module _ (s : Signing) where
  -- What holds of a request that is let through under a name.
  pub record IsAllowed (username : String) (r : PageRequest) (now : ℕ) (sessions : Option Sessions)
      (file : File) : Type 0 where
    pub claimed : Claim
    pub account : AdminAccount
    pub signed : load_cookie s r.cookie now ≡ some claimed
    pub listed : IsListed s claimed now sessions
    pub known : find_account file claimed.username ≡ some account
    pub version : claimed.version ≡ s.session_version account
    pub named : username ≡ account.username
    pub set_up : (account.must_change ≡ false) ⊎ (one_of r.path setup_paths ≡ true)
    -- No second factor is required here: of this role, with one, on these paths, or by the policy.
    pub enrolled :
        (is_admin account ≡ false)
        ⊎ ((has_mfa account ≡ true)
            ⊎ ((enrols r.path ≡ true)
                ⊎ ((one_of r.path setup_paths ≡ true) ⊎ (policy file ≡ false))))
    pub harmless :
        (one_of r.method safe_methods ≡ true)
        ⊎ ((r.token ≡ generate_csrf_token s claimed.sid)
            × ((is_admin account ≡ true) ⊎ (one_of r.path viewer_allowed_paths ≡ true)))

  -- What a request that passes the last checks is.
  abbrev Passes : AdminAccount → PageRequest → ℕ → Option Sessions → String → Type 0
  Passes account r now sessions username =
      (username ≡ account.username)
      × ((one_of r.method safe_methods ≡ true)
          ⊎ ((verify_csrf s r.cookie (some r.token) now sessions ≡ true)
              × ((is_admin account ≡ true) ⊎ (one_of r.path viewer_allowed_paths ≡ true))))

  allowed_name : (a b : String) → allowed a ≡ allowed b → a ≡ b
  allowed_name a b h = ap (λ r. elim r [ allowed x ↦ x | other ↦ a ]) h

  no_block : (a b : Bool) → (not a && not b) ≡ false → (a ≡ true) ⊎ (b ≡ true)
  no_block a b h = ground arith

  one_false :
      (a b c d e : Bool)
      → (a && not b && not c && not d && e) ≡ false
      → (a ≡ false) ⊎ ((b ≡ true) ⊎ ((c ≡ true) ⊎ ((d ≡ true) ⊎ (e ≡ false))))
  one_false a b c d e h = ground arith

  no_setup : (a b : Bool) → (a && not b) ≡ false → (a ≡ false) ⊎ (b ≡ true)
  no_setup a b h = ground arith

  may_change-Passes :
      (account : AdminAccount) (r : PageRequest) (now : ℕ) (sessions : Option Sessions)
      (username : String)
      → may_change s account r now sessions ≡ allowed username
      → Passes account r now sessions username
  unfolding may_change
  may_change-Passes account r now sessions username h =
      elim (Bool-cases (one_of r.method safe_methods)) [
        | inl safe ↦ (allowed_name username account.username (sym (rw safe at h)), inl safe)
        | inr changes ↦ elim (Bool-cases (verify_csrf s r.cookie (some r.token) now sessions)) [
          | inr forged ↦ ground (arith, h, changes, forged)
          | inl token ↦
              elim (Bool-cases
                (not (is_admin account) && not (one_of r.path viewer_allowed_paths))) [
                  | inl viewer ↦ ground (arith, h, changes, token, viewer)
                  | inr free ↦ (
                    ground (arith, h, changes, token, free),
                    inr (
                      token,
                      no_block (is_admin account) (one_of r.path viewer_allowed_paths) free,
                    ),
                  )
                ]
        ]
      ]

  check_account-cases :
      (account : AdminAccount) (r : PageRequest) (now : ℕ) (sessions : Option Sessions)
      (file : File) (username : String)
      → check_account s (some account) r now sessions file ≡ allowed username
      → ((account.must_change ≡ false) ⊎ (one_of r.path setup_paths ≡ true))
        × (owes_mfa account r.path (policy file) ≡ false)
        × (may_change s account r now sessions ≡ allowed username)
  unfolding check_account
  check_account-cases account r now sessions file username h =
      elim (Bool-cases (account.must_change && not (one_of r.path setup_paths))) [
        | inl must ↦ ground (arith, h, must)
        | inr may ↦ elim (Bool-cases (owes_mfa account r.path (policy file))) [
          | inl owes ↦ ground (arith, h, may, owes)
          | inr enrolled ↦ (
            no_setup account.must_change (one_of r.path setup_paths) may,
            enrolled,
            ground (arith, h, may, enrolled),
          )
        ]
      ]

  session_account-cases :
      (session : Option (String × String)) (file : File) (account : AdminAccount)
      → session_account s session file ≡ some account
      → (u : String) × (v : String) × (session ≡ some (u, v))
        × (find_account file u ≡ some account)
        × (v ≡ s.session_version account)
  unfolding session_account
  session_account-cases none file account h = ground (arith, h)
  session_account-cases (some (u, v)) file account h = elim (Option-cases (find_account file u)) [
    | inl absent ↦ ground (arith, h, absent)
    | inr (a, there) ↦ elim (Bool-cases (v == s.session_version a)) [
      | inr old ↦ ground (arith, h, there, old)
      | inl version ↦
          let same : a ≡ account = ground (arith, h, there, version) in
          (
            u,
            v,
            refl,
            there ∙ ap some same,
            subst (λ x. v ≡ s.session_version x) same
                ((string_eq.test_iff v (s.session_version a)).0 version),
          )
    ]
  ]

  nobody_allowed :
      (r : PageRequest) (now : ℕ) (sessions : Option Sessions) (file : File) (username : String)
      → check_account s none r now sessions file ≢ allowed username
  unfolding check_account
  nobody_allowed r now sessions file username h = ground (arith, h)

  genuine :
      (r : PageRequest) (now : ℕ) (sessions : Option Sessions) (c : Claim) (account : AdminAccount)
      → load_cookie s r.cookie now ≡ some c
      → (one_of r.method safe_methods ≡ true)
        ⊎ ((verify_csrf s r.cookie (some r.token) now sessions ≡ true)
            × ((is_admin account ≡ true) ⊎ (one_of r.path viewer_allowed_paths ≡ true)))
      → (one_of r.method safe_methods ≡ true)
        ⊎ ((r.token ≡ generate_csrf_token s c.sid)
            × ((is_admin account ≡ true) ⊎ (one_of r.path viewer_allowed_paths ≡ true)))
  genuine r now sessions c account signed (inl safe) = inl safe
  genuine r now sessions c account signed (inr (token, role)) =
      inr (verify_csrf_sound s r.cookie r.token now sessions c signed token, role)

  owes_mfa-cases :
      (account : AdminAccount) (path : String) (required : Bool)
      → owes_mfa account path required ≡ false
      → (is_admin account ≡ false)
        ⊎ ((has_mfa account ≡ true)
            ⊎ ((enrols path ≡ true) ⊎ ((one_of path setup_paths ≡ true) ⊎ (required ≡ false))))
  unfolding owes_mfa
  owes_mfa-cases account path required h =
      one_false (is_admin account) (has_mfa account) (enrols path) (one_of path setup_paths)
        required h

  -- A request that is let through carries a signed cookie that is not too old, whose session the server
  -- still lists for the cookie's user and has not expired, and that user's account is there with the
  -- password version of the cookie. An account with a generated password gets to the setup and logout
  -- only. Where the policy requires a second factor of admins, an admin without one gets to its
  -- enrolment, the setup and the logout only. Anything but a safe method carries
  -- the CSRF token of the session, and is an admin's, or on a path that viewers may use.
  pub require_login-IsAllowed :
      (r : PageRequest) (now : ℕ) (sessions : Option Sessions) (file : File) (username : String)
      → require_login s r now sessions file ≡ allowed username
      → IsAllowed username r now sessions file
  unfolding require_login
  require_login-IsAllowed r now sessions file username h =
      elim (Option-cases (session_account s (session_from_cookie s r.cookie now sessions) file)) [
        | inl nobody ↦ absurd (
            nobody_allowed r now sessions file username
              (subst (λ o. check_account s o r now sessions file ≡ allowed username) nobody h))
        | inr (account, there) ↦
            let (u, v, session, known, version) =
              session_account-cases (session_from_cookie s r.cookie now sessions) file account
                there in
            let (c, signed, listed, name, v_is) =
              session_from_cookie-cases s r.cookie now sessions u v session in
            let (set_up, enrolled, last) =
              check_account-cases account r now sessions file username
                (subst (λ o. check_account s o r now sessions file ≡ allowed username) there h) in
            let (named, harmless) = may_change-Passes account r now sessions username last in
            record {
              claimed = c;
              account = account;
              signed = signed;
              listed = listed;
              known = subst (λ n. find_account file n ≡ some account) (sym name) known;
              version = v_is ∙ version;
              named = named;
              set_up = set_up;
              enrolled = owes_mfa-cases account r.path (policy file) enrolled;
              harmless = genuine r now sessions c account signed harmless;
            }
      ]
