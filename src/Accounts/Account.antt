-- ===== src/Accounts/Account.antt =====
-- `AdminAccount` of src/frfw/admin_account.py, the account file and what `AdminStore` reads and writes
-- of it. The order in which a file lists the accounts is not kept: nothing reads it.
use Prim.Native.Char.{code}
use fr_os_pblk.Base.{
  ℕ, zero, suc, String, Bool, true, false, ◌&&◌, ◌||◌, Option, none, some, List, [], ◌∷◌, map, leb,
  ◌==◌, nat_eq, string_eq,
}
use fr_os_pblk.Base.Dict.{Dict, get}
use fr_os_pblk.Accounts.Password.{Stored}

abbrev pub role_admin : String
role_admin = "admin"

abbrev pub role_viewer : String
role_viewer = "viewer"

-- `{"secret", "last_step"}`
pub record Totp : Type 0 where
  pub secret : String
  pub last_step : ℕ

-- `{"id", "public_key", "sign_count", "rp_id", "name", "added"}`
pub record SecurityKey : Type 0 where
  pub id : String
  pub public_key : String
  pub sign_count : ℕ
  pub rp_id : String
  pub name : String
  pub added : ℕ

pub record Mfa : Type 0 where
  pub totp : Option Totp
  pub webauthn : List SecurityKey

abbrev pub no_mfa : Mfa
no_mfa = record { totp = none; webauthn = [] }

pub record AdminAccount : Type 0 where
  pub username : String
  pub password_hash : Stored
  pub role : String
  pub must_change : Bool
  pub mfa : Mfa

unfoldable pub has_mfa : AdminAccount → Bool
has_mfa account = elim account.mfa.totp [
  | some totp ↦ true
  | none ↦ elim account.mfa.webauthn [ [] ↦ false | key ∷ keys ↦ true ]
]

unfoldable pub is_admin : AdminAccount → Bool
is_admin account = account.role == role_admin

-- An account as the file holds it, under its name: the keys that may be missing are None.
pub record AccountEntry : Type 0 where
  pub password_hash : Stored
  pub role : Option String
  pub must_change : Option Bool
  pub mfa : Option Mfa

-- No file, the format of one account, or the present one, with the `require_mfa_for_admins` of its
-- policy, None without a policy.
pub data File : Type 0 where
  missing : File
  single : String → Stored → File
  current : Dict String AccountEntry → Option Bool → File

abbrev pub Users : Type 0
Users = Dict String AdminAccount

abbrev pub role_of : Option String → String
role_of none = role_admin
role_of (some role) = role

-- `bool(entry.get("must_change", False))`
abbrev pub or_false : Option Bool → Bool
or_false none = false
or_false (some b) = b

-- `dict(entry.get("mfa") or {})`
abbrev pub or_no_mfa : Option Mfa → Mfa
or_no_mfa none = no_mfa
or_no_mfa (some mfa) = mfa

-- `{"must_change": True} if a.must_change else {}`
abbrev pub only_true : Bool → Option Bool
only_true true = some true
only_true false = none

abbrev pub only_factors : Option Totp → List SecurityKey → Option Mfa
only_factors none [] = none
only_factors none (key ∷ keys) = some (record { totp = none; webauthn = key ∷ keys })
only_factors (some totp) keys = some (record { totp = some totp; webauthn = keys })

-- `{"mfa": a.mfa} if a.mfa else {}`; no second factor counts as an empty dict.
abbrev pub only_mfa : Mfa → Option Mfa
only_mfa mfa = only_factors mfa.totp mfa.webauthn

abbrev pub read_entry : String × AccountEntry → String × AdminAccount
read_entry (name, entry) = (
  name,
  record {
    username = name;
    password_hash = entry.password_hash;
    role = role_of entry.role;
    must_change = or_false entry.must_change;
    mfa = or_no_mfa entry.mfa;
  },
)

abbrev pub write_entry : String × AdminAccount → String × AccountEntry
write_entry (name, a) = (
  name,
  record {
    password_hash = a.password_hash;
    role = some a.role;
    must_change = only_true a.must_change;
    mfa = only_mfa a.mfa;
  },
)

unfoldable pub users : File → Users
users missing = []
users (single username password_hash) =
    (
      username,
      record {
        username = username;
        password_hash = password_hash;
        role = role_admin;
        must_change = false;
        mfa = no_mfa;
      },
    )
    ∷ []
users (current entries policy) = map read_entry entries

-- The policy dict of the file, None when it is empty.
unfoldable pub policy_of : File → Option Bool
policy_of missing = none
policy_of (single username password_hash) = none
policy_of (current entries require_mfa) = require_mfa

-- `AdminStore.policy().get("require_mfa_for_admins")`
unfoldable pub policy : File → Bool
policy file = or_false (policy_of file)

-- `_write`, with the policy of the file unless another is given
unfoldable pub write : File → Users → Option Bool → File
write file accounts none = current (map write_entry accounts) (policy_of file)
write file accounts (some require_mfa) = current (map write_entry accounts) (some require_mfa)

-- `AdminStore.exists`
unfoldable pub exists : File → Bool
exists file = elim (users file) [ [] ↦ false | account ∷ accounts ↦ true ]

-- `AdminStore.get`
unfoldable pub find_account : File → String → Option AdminAccount
find_account file username = get username (users file)

abbrev lower : ℕ → Bool
lower c = (leb 97 c && leb c 122) || (c == 95)

abbrev pub name_start : ℕ → Bool
name_start c = lower c

abbrev pub name_char : ℕ → Bool
name_char c = lower c || (leb 48 c && leb c 57) || (c == 46) || (c == 45)

-- At most so many characters, all of them of names.
unfoldable pub name_tail : ℕ → String → Bool
name_tail n String.[] = true
name_tail zero (String.◌∷◌ ch rest) = false
name_tail (suc n) (String.◌∷◌ ch rest) = name_char (code ch) && name_tail n rest

-- `_USERNAME_RE.match`
unfoldable pub is_username : String → Bool
is_username String.[] = false
is_username (String.◌∷◌ ch rest) = name_start (code ch) && name_tail 31 rest
