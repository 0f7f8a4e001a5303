-- ===== src/Tickets/Totp.antt =====
-- The codes of an authenticator app at the sign-in: what `mfa_totp` of src/frfw/webui/routes/mfa.py does
-- under its lock, with the account file.
use fr_os_pblk.Base.{
  ℕ, String, ◌≡◌, refl, sym, ap, ◌∙◌, subst, true, Option, none, some, List, [], ◌∷◌, ◌==◌,
  string_eq, if◌then◌else◌, arith, Bool-cases, inl, inr, ◌⊎◌,
}
use fr_os_pblk.Accounts.Account.{Totp, Mfa, AdminAccount, File, find_account}
use fr_os_pblk.Accounts.Store.{Changed, refused, raises, changed, set_mfa, replace_account}
use fr_os_pblk.Accounts.Changes.{named_account}
use fr_os_pblk.Accounts.Signing.{find_account-write}
use fr_os_pblk.Tickets.Codes.{Otp, is_newer, totp_step, totp_step-cases}

-- `{**account.mfa, "totp": {**totp, "last_step": step}}`
unfoldable pub with_step : Mfa → Totp → ℕ → Mfa
with_step mfa totp step = record mfa { totp = some (record totp { last_step = step }) }

-- The file after a change, the old one if it raises.
unfoldable pub file_after : File → Changed → File
file_after file (changed file') = file'
file_after file (refused problem) = file
file_after file raises = file

-- One try: the user, the code and the time.
pub record Try : Type 0 where
  pub username : String
  pub code : String
  pub now : ℕ

module _ (otp : Otp) where
  unfoldable pub keep_step : String → AdminAccount → Totp → Option ℕ → File → File × Option ℕ
  keep_step username account totp none file = (file, none)
  keep_step username account totp (some step) file =
      (file_after file (set_mfa username (with_step account.mfa totp step) file), some step)

  unfoldable pub with_totp : Try → AdminAccount → Option Totp → File → File × Option ℕ
  with_totp t account none file = (file, none)
  with_totp t account (some totp) file =
      keep_step t.username account totp
        (totp_step otp totp.secret t.code (some totp.last_step) t.now) file

  -- An account that is gone raises.
  unfoldable pub with_account : Try → Option AdminAccount → File → File × Option ℕ
  with_account t none file = (file, none)
  with_account t (some account) file = with_totp t account account.mfa.totp file

  -- The block under `_TOTP_LOCK`: the file, and the step that the code is accepted for.
  unfoldable pub mfa_totp : Try → File → File × Option ℕ
  mfa_totp t file = with_account t (find_account file t.username) file

  -- The steps for which the tries of one user are accepted, of a run of tries of all users.
  unfoldable pub accepted_steps : String → List Try → File → List ℕ
  accepted_steps username [] file = []
  accepted_steps username (t ∷ rest) file =
      let (file', step) = mfa_totp t file in
      let others = accepted_steps username rest file' in
      elim step [
        | none ↦ others
        | some accepted ↦ if t.username == username then accepted ∷ others else others
      ]

abbrev pub step_of : Option AdminAccount → Option ℕ
step_of none = none
step_of (some account) = elim account.mfa.totp [ none ↦ none | some totp ↦ some totp.last_step ]

-- The last step on file for a user.
abbrev pub last_step_of : String → File → Option ℕ
last_step_of username file = step_of (find_account file username)

-- Each step of the list comes after the ones before it.
abbrev pub Increasing : Option ℕ → List ℕ → Type 0
Increasing last_step [] = Unit
Increasing last_step (step ∷ steps) =
    (is_newer step last_step ≡ true) × Increasing (some step) steps

-- A try that is refused leaves the file; one that is accepted is newer than the step on file, and
-- is on file afterwards, for this user only.
abbrev pub Tried : String → File → File × Option ℕ → Type 0
Tried username file (file', none) = file' ≡ file
Tried username file (file', some step) =
    (is_newer step (last_step_of username file) ≡ true)
    × (last_step_of username file' ≡ some step)
    × ((name : String) → (name ≡ username) ⊎ (last_step_of name file' ≡ last_step_of name file))

step_of-totp :
    (account : AdminAccount) (o : Option AdminAccount) (totp : Totp)
    → o ≡ some account
    → account.mfa.totp ≡ some totp
    → step_of o ≡ some totp.last_step
step_of-totp account o totp there has =
    ap step_of there ∙ ap (λ t. elim t [ none ↦ none | some totp ↦ some totp.last_step ]) has

replaced-Tried :
    (username : String) (account : AdminAccount) (totp : Totp) (step : ℕ) (file : File)
    (found : Option AdminAccount)
    → found ≡ some account
    → find_account file username ≡ some account
    → account.mfa.totp ≡ some totp
    → is_newer step (some totp.last_step) ≡ true
    → Tried username file (
      file_after file (
          replace_account file username found
            (λ a. record a { mfa = with_step account.mfa totp step })),
      some step,
    )
unfolding replace_account file_after with_step find_account
replaced-Tried username account totp step file none same there has newer = ground (arith, same)
replaced-Tried username account totp step file (some a) same there has newer =
    let account' : AdminAccount = record a { mfa = with_step account.mfa totp step } in
    let named = named_account file username a (there ∙ sym same) in
    let (written, others) = find_account-write file username account' named in
    (
      ap (λ l. is_newer step l) (step_of-totp account (find_account file username) totp there has)
          ∙ newer,
      ap step_of written,
      λ name. elim (others name) [ inl own ↦ inl own | inr other ↦ inr (ap step_of other) ],
    )

module _ (otp : Otp) where
  keep_step-Tried :
      (username code : String) (now : ℕ) (account : AdminAccount) (totp : Totp) (file : File)
      (o : Option ℕ)
      → totp_step otp totp.secret code (some totp.last_step) now ≡ o
      → find_account file username ≡ some account
      → account.mfa.totp ≡ some totp
      → Tried username file (keep_step otp username account totp o file)
  unfolding keep_step set_mfa find_account
  keep_step-Tried username code now account totp file none found there has = refl
  keep_step-Tried username code now account totp file (some step) found there has =
      replaced-Tried username account totp step file (find_account file username) there there has
        (totp_step-cases otp totp.secret code (some totp.last_step) now step found).0

  with_totp-Tried :
      (t : Try) (account : AdminAccount) (o : Option Totp) (file : File)
      → find_account file t.username ≡ some account
      → account.mfa.totp ≡ o
      → Tried t.username file (with_totp otp t account o file)
  unfolding with_totp
  with_totp-Tried t account none file there has = refl
  with_totp-Tried t account (some totp) file there has =
      keep_step-Tried t.username t.code t.now account totp file _ refl there has

  with_account-Tried :
      (t : Try) (o : Option AdminAccount) (file : File)
      → find_account file t.username ≡ o
      → Tried t.username file (with_account otp t o file)
  unfolding with_account
  with_account-Tried t none file there = refl
  with_account-Tried t (some account) file there =
      with_totp-Tried t account account.mfa.totp file there refl

  mfa_totp-Tried : (t : Try) (file : File) → Tried t.username file (mfa_totp otp t file)
  unfolding mfa_totp
  mfa_totp-Tried t file = with_account-Tried t (find_account file t.username) file refl

  accepted_step :
      (username : String) (t : Try) (rest : List Try) (file : File) (result : File × Option ℕ)
      → Tried t.username file result
      → ((file' : File)
          → Increasing (last_step_of username file') (accepted_steps otp username rest file'))
      → Increasing (last_step_of username file) (elim result.1 [
        | none ↦ accepted_steps otp username rest result.0
        | some accepted ↦
            if t.username == username
            then accepted ∷ accepted_steps otp username rest result.0
            else accepted_steps otp username rest result.0
      ])
  accepted_step username t rest file (file', none) same later =
      subst (λ f. Increasing (last_step_of username f) (accepted_steps otp username rest file'))
        same (later file')
  accepted_step username t rest file (file', some step) (newer, kept, others) later =
      elim (Bool-cases (t.username == username)) [
        | inl own ↦
            let same : t.username ≡ username = (string_eq.test_iff t.username username).0 own in
            rw own (
              subst (λ u. is_newer step (last_step_of u file) ≡ true) same newer,
              subst (λ l. Increasing l (accepted_steps otp username rest file'))
                  (subst (λ u. last_step_of u file' ≡ some step) same kept) (later file'),
            )
        | inr other ↦ rw other (elim (others username) [
          | inl same ↦ ground (arith, other, (string_eq.test_iff t.username username).1 (sym same))
          | inr as_before ↦
              subst (λ l. Increasing l (accepted_steps otp username rest file')) as_before
                (later file')
        ])
      ]

  -- Whatever codes the users try at the sign-in, one after the other, at whatever times, repeated or
  -- not, and nothing else changing the account file in between: the time steps for which the codes
  -- of one user are accepted are strictly increasing, and after the last one on file for that user
  -- at first, so that each step is accepted once.
  pub mfa_totp-Increasing :
      (username : String) (tries : List Try) (file : File)
      → Increasing (last_step_of username file) (accepted_steps otp username tries file)
  unfolding accepted_steps
  mfa_totp-Increasing username [] file = tt
  mfa_totp-Increasing username (t ∷ rest) file =
      accepted_step username t rest file (mfa_totp otp t file) (mfa_totp-Tried t file)
        (λ file'. mfa_totp-Increasing username rest file')
