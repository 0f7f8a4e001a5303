-- ===== src/Accounts/Written.antt =====
-- `AdminStore._write` and `AdminStore.users` of src/frfw/admin_account.py, one after the other.
use fr_os_pblk.Base.{
  String, ◌≡◌, refl, sym, ap, subst, ◌∙◌, Bool, true, false, List, Option, none, some, [], ◌∷◌, map,
  string_eq, All,
}
use fr_os_pblk.Base.Dict.{Dict}
use fr_os_pblk.Accounts.Account.{
  policy_of, or_false, or_no_mfa, only_true, only_factors, only_mfa, Totp, SecurityKey,
  AdminAccount, AccountEntry, File, missing, single, current, Users, users, policy, write,
  read_entry, write_entry,
}

-- Each account stands under its own name.
abbrev pub IsNamed : Users → Type 0
IsNamed accounts = All (λ (name, account). account.username ≡ name) accounts

or_false-only_true : (b : Bool) → or_false (only_true b) ≡ b
or_false-only_true true = refl
or_false-only_true false = refl

or_no_mfa-only_factors :
    (totp : Option Totp) (keys : List SecurityKey)
    → or_no_mfa (only_factors totp keys) ≡ record { totp = totp; webauthn = keys }
or_no_mfa-only_factors none [] = refl
or_no_mfa-only_factors none (key ∷ keys) = refl
or_no_mfa-only_factors (some totp) keys = refl

read-write_entry :
    (name : String) (a : AdminAccount)
    → a.username ≡ name
    → read_entry (write_entry (name, a)) ≡ (name, a)
read-write_entry name a h =
    ap
      (λ n. (
        name,
        record a {
          username = n;
          must_change = or_false (only_true a.must_change);
          mfa = or_no_mfa (only_mfa a.mfa);
        },
      ))
      (sym h)
    ∙ (ap (λ b. (name, record a { must_change = b; mfa = or_no_mfa (only_mfa a.mfa) }))
          (or_false-only_true a.must_change)
        ∙ ap (λ m. (name, record a { mfa = m })) (or_no_mfa-only_factors a.mfa.totp a.mfa.webauthn))

read-write :
    (accounts : Users) → IsNamed accounts → map read_entry (map write_entry accounts) ≡ accounts
read-write [] h = refl
read-write ((name, a) ∷ rest) (h, hs) =
    subst (λ e. e ∷ map read_entry (map write_entry rest) ≡ (name, a) ∷ rest)
      (sym (read-write_entry name a h)) (ap (λ l. (name, a) ∷ l) (read-write rest hs))

entries-IsNamed : (entries : Dict String AccountEntry) → IsNamed (map read_entry entries)
entries-IsNamed [] = tt
entries-IsNamed ((name, entry) ∷ rest) = (refl, entries-IsNamed rest)

pub users-IsNamed : (file : File) → IsNamed (users file)
unfolding users
users-IsNamed missing = tt
users-IsNamed (single name hash) = (refl, tt)
users-IsNamed (current entries p) = entries-IsNamed entries

-- When each account stands under its own name: reading what was written gives the accounts back, each with all its fields, also those whose keys
-- are left out where they are empty; and the policy: the one given, or else the file's own, which is
-- that of a file of the old format, or of none, too.
pub users-write :
    (file : File) (accounts : Users) (given : Option Bool)
    → IsNamed accounts
    → (users (write file accounts given) ≡ accounts)
      × (policy (write file accounts given) ≡ elim given [ none ↦ policy file | some p ↦ p ])
unfolding users write policy policy_of
users-write file accounts none h = (read-write accounts h, refl)
users-write file accounts (some p) h = (read-write accounts h, refl)
