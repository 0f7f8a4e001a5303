-- ===== src/Accounts/Store.antt =====
-- The operations of `AdminStore` in src/frfw/admin_account.py. A salt is an argument.
use fr_os_pblk.Base.{
  String, Bool, true, false, not, ◌&&◌, ◌||◌, Option, none, some, List, [], ◌∷◌, ◌==◌, opt_eq,
  string_eq, if◌then◌else◌,
}
use fr_os_pblk.Base.Dict.{get, put, del}
use fr_os_pblk.Accounts.Password.{
  Random, Hashing, Stored, hash_password, verify_password, stored_eq,
}
use fr_os_pblk.Accounts.Account.{
  role_admin, role_viewer, Mfa, no_mfa, AdminAccount, is_admin, File, Users, users, write,
  is_username,
}

-- Why a change is an AccountError.
pub data Refusal : Type 0 where
  bad_username : Refusal
  reserved_username : Refusal
  bad_password : String → Refusal
  unknown_role : Refusal
  no_such_user : Refusal
  already_exists : Refusal
  already_set_up : Refusal
  generated_password : Refusal
  last_admin : Refusal

-- `raises` is any other exception, from the hash.
pub data Changed : Type 0 where
  refused : Refusal → Changed
  raises : Changed
  changed : File → Changed

abbrev pub reserved_usernames : List String
reserved_usernames = "admin" ∷ "administrator" ∷ "root" ∷ "user" ∷ "fr_os" ∷ "fros" ∷ []

unfoldable pub is_reserved : String → List String → Bool
is_reserved name [] = false
is_reserved name (r ∷ rs) = (name == r) || is_reserved name rs

abbrev pub known_role : String → Bool
known_role role = (role == role_admin) || (role == role_viewer)

unfoldable pub other_admin : String → Users → Bool
other_admin username [] = false
other_admin username ((name, account) ∷ rest) =
    (is_admin account && not (name == username)) || other_admin username rest

-- `_check_keeps_an_admin`
unfoldable pub keeps_an_admin : Users → String → Option String → Bool
keeps_an_admin accounts username new_role =
    opt_eq new_role (some role_admin) || other_admin username accounts

-- `role or (existing.role if existing else ROLE_ADMIN)`
unfoldable pub existing_role : Option AdminAccount → String
existing_role none = role_admin
existing_role (some existing) = existing.role

unfoldable pub chosen_role : Option String → Option AdminAccount → String
chosen_role none existing = existing_role existing
chosen_role (some role) existing = if role == "" then existing_role existing else role

abbrev pub mfa_of : Option AdminAccount → Mfa
mfa_of none = no_mfa
mfa_of (some existing) = existing.mfa

abbrev pub with_hash : Option Stored → (Stored → Changed) → Changed
with_hash none store = raises
with_hash (some password_hash) store = store password_hash

-- The bodies of the changes that leave another account in place of one.
unfoldable pub replace_account :
    File → String → Option AdminAccount → (AdminAccount → AdminAccount) → Changed
replace_account file username none change = refused no_such_user
replace_account file username (some account) change =
    changed (write file (put username (change account) (users file)) none)

unfoldable pub set_password :
    Hashing → Random → String → String → Option String → Bool → File → Changed
set_password h salt username password role must_change file =
    let existing = get username (users file) in
    let new_role = chosen_role role existing in
    if not (known_role new_role)
    then refused unknown_role
    else if not (keeps_an_admin (users file) username (some new_role))
    then refused last_admin
    else with_hash (hash_password h salt password) (λ password_hash. changed (
        write file
          (put username
            (record {
              username = username;
              password_hash = password_hash;
              role = new_role;
              must_change = must_change;
              mfa = mfa_of existing;
            })
            (users file))
          none))

-- `username in users`
unfoldable pub is_user : String → Users → Bool
is_user username accounts = elim (get username accounts) [ none ↦ false | some account ↦ true ]

-- What `complete_setup` does to the account that it finds.
unfoldable pub set_up :
    Hashing → Random → String → String → String → Option AdminAccount → File → Changed
set_up h salt current_name new_username password none file = refused already_set_up
set_up h salt current_name new_username password (some account) file =
    if not account.must_change
    then refused already_set_up
    else if not (new_username == current_name) && is_user new_username (users file)
    then refused already_exists
    else if verify_password h password account.password_hash
    then refused generated_password
    else with_hash (hash_password h salt password) (λ password_hash. changed (
        write file
          (put new_username
            (record {
              username = new_username;
              password_hash = password_hash;
              role = account.role;
              must_change = false;
              mfa = no_mfa;
            })
            (del current_name (users file)))
          none))

-- What the account checks of the source say: `problem` is that of src/frfw/passwords.py.
abbrev pub Problem : Type 0
Problem = String → String → Option String

abbrev pub unless_weak : Option String → Changed → Changed
unless_weak none next = next
unless_weak (some reason) next = refused (bad_password reason)

unfoldable pub complete_setup :
    Problem → Hashing → Random → String → String → String → File → Changed
complete_setup problem h salt current_name new_username password file =
    if not (is_username new_username)
    then refused bad_username
    else if is_reserved new_username reserved_usernames
    then refused reserved_username
    else unless_weak (problem password new_username)
        (set_up h salt current_name new_username password (get current_name (users file)) file)

unfoldable pub add_user : Problem → Hashing → Random → String → String → String → File → Changed
add_user problem h salt username password role file =
    if not (is_username username)
    then refused bad_username
    else unless_weak (problem password username) (
        if not (known_role role)
        then refused unknown_role
        else if is_user username (users file)
        then refused already_exists
        else set_password h salt username password (some role) false file)

unfoldable pub set_role : String → String → File → Changed
set_role username role file =
    if not (known_role role)
    then refused unknown_role
    else if not (is_user username (users file))
    then refused no_such_user
    else if not (keeps_an_admin (users file) username (some role))
    then refused last_admin
    else replace_account file username (get username (users file)) (λ a. record a { role = role })

unfoldable pub delete_user : String → File → Changed
delete_user username file =
    if not (is_user username (users file))
    then refused no_such_user
    else if not (keeps_an_admin (users file) username none)
    then refused last_admin
    else changed (write file (del username (users file)) none)

unfoldable pub set_mfa : String → Mfa → File → Changed
set_mfa username mfa file =
    replace_account file username (get username (users file)) (λ a. record a { mfa = mfa })

unfoldable pub reset_mfa : String → File → Changed
reset_mfa username file = set_mfa username no_mfa file

unfoldable pub set_policy : Bool → File → Changed
set_policy require_mfa file = changed (write file (users file) (some require_mfa))
