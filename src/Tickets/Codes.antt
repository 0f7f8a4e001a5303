-- ===== src/Tickets/Codes.antt =====
-- `totp_step` of src/frfw/webui/mfa.py.
use mathlib.Core.Option.{some-injective}
use fr_os_pblk.Base.{
  ℕ, zero, suc, ◌+◌, ◌/◌, ◌≤◌, String, ◌≡◌, sym, ap, ◌∙◌, subst, Bool, true, ◌&&◌, Option, none,
  some, List, [], ◌∷◌, ltb, ◌==◌, string_eq, if◌then◌else◌, arith, All, Bool-cases, Option-cases,
  inl, inr,
}

-- pyotp's code of a secret at a time step and the length of a step, and the code that was typed in,
-- without its spaces: None unless it is six digits.
pub record Otp : Type 0 where
  pub interval : ℕ
  pub code_at : String → ℕ → String
  pub six_digits : String → Option String

-- `candidate > last_step`, None standing for -1
unfoldable pub is_newer : ℕ → Option ℕ → Bool
is_newer candidate none = true
is_newer candidate (some last_step) = ltb last_step candidate

-- `(step - 1, step, step + 1)`; step -1 is never newer.
unfoldable pub candidates : ℕ → List ℕ
candidates zero = 0 ∷ 1 ∷ []
candidates (suc n) = n ∷ suc n ∷ suc (suc n) ∷ []

module _ (otp : Otp) (secret : String) where
  unfoldable pub first_match : String → Option ℕ → List ℕ → Option ℕ
  first_match code last_step [] = none
  first_match code last_step (candidate ∷ rest) =
      if is_newer candidate last_step && (otp.code_at secret candidate == code)
      then some candidate
      else first_match code last_step rest

  unfoldable pub totp_step : String → Option ℕ → ℕ → Option ℕ
  totp_step code last_step now = elim (otp.six_digits code) [
    | none ↦ none
    | some digits ↦ first_match digits last_step (candidates (now / otp.interval))
  ]

  -- A step that a code is accepted for, of candidates that all have a property.
  first_match-cases :
      (P : ℕ → Type 0) (code : String) (last_step : Option ℕ) (cs : List ℕ) (step : ℕ)
      → All P cs
      → first_match code last_step cs ≡ some step
      → (is_newer step last_step ≡ true) × (otp.code_at secret step ≡ code) × P step
  unfolding first_match
  first_match-cases P code last_step [] step all h = ground (arith, h)
  first_match-cases P code last_step (c ∷ cs) step (p, all) h =
      elim (Bool-cases (is_newer c last_step && (otp.code_at secret c == code))) [
        | inl hit ↦
            let same : c ≡ step = some-injective c step (rw hit at h) in
            subst (λ x. (is_newer x last_step ≡ true) × (otp.code_at secret x ≡ code) × P x) same
              (
                ground (arith, hit),
                (string_eq.test_iff (otp.code_at secret c) code).0 (ground (arith, hit)),
                p,
              )
        | inr miss ↦ first_match-cases P code last_step cs step all (rw miss at h)
      ]

  abbrev pub IsNear : ℕ → ℕ → Type 0
  IsNear step candidate = (step ≤ candidate + 1) × (candidate ≤ step + 1)

  candidates-IsNear : (step : ℕ) → All (IsNear step) (candidates step)
  unfolding candidates
  candidates-IsNear zero = ((omega arith, omega arith), ((omega arith, omega arith), tt))
  candidates-IsNear (suc n) =
      ((omega arith, omega arith), ((omega arith, omega arith), ((omega arith, omega arith), tt)))

  -- A code that is accepted is six digits, the code of a time step that is the present one or one off,
  -- and that step is newer than the last one.
  pub totp_step-cases :
      (code : String) (last_step : Option ℕ) (now step : ℕ)
      → totp_step code last_step now ≡ some step
      → (is_newer step last_step ≡ true)
        × (otp.six_digits code ≡ some (otp.code_at secret step))
        × IsNear (now / otp.interval) step
  unfolding totp_step
  totp_step-cases code last_step now step h = elim (Option-cases (otp.six_digits code)) [
    | inl bad ↦ ground (arith, h, bad)
    | inr (digits, good) ↦
        let (newer, matches, near) =
          first_match-cases (IsNear (now / otp.interval)) digits last_step
            (candidates (now / otp.interval)) step (candidates-IsNear (now / otp.interval))
            (ap
                (λ o. elim o [
                  | none ↦ none
                  | some d ↦ first_match d last_step (candidates (now / otp.interval))
                ])
                (sym good)
              ∙ h) in
        (newer, good ∙ ap some (sym matches), near)
  ]
