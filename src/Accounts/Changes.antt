-- ===== src/Accounts/Changes.antt =====
-- The operations of `AdminStore` in src/frfw/admin_account.py, one by one, and the administrators.
use mathlib.Core.Option.{some-injective}
use fr_os_pblk.Base.{
  String, ◌≡◌, refl, sym, ap, ◌∙◌, subst, Bool, true, false, not, Option, none, some, ◌==◌,
  string_eq, arith, Bool-cases, if_ind, if_ind_eq, inl, inr, ◌⊎◌,
}
use fr_os_pblk.Base.Dict.{get, put, del, get-del}
use fr_os_pblk.Base.Dict.Keys.{Unique, put-Unique, del-Unique}
use fr_os_pblk.Base.Dict.Entries.{put-All, del-All, get-All}
use fr_os_pblk.Accounts.Password.{Random, Hashing, Stored, hash_password}
use fr_os_pblk.Accounts.Account.{
  role_admin, Mfa, AdminAccount, is_admin, File, Users, users, write, find_account,
}
use fr_os_pblk.Accounts.Store.{
  Changed, changed, known_role, keeps_an_admin, chosen_role, with_hash, replace_account,
  set_password, is_user, set_role, delete_user, set_mfa,
}
use fr_os_pblk.Accounts.Written.{users-IsNamed}
use fr_os_pblk.Accounts.Admins.{
  AdminIn, IsGoverned, Governs, write-Governs, other_admin-OtherAdmin, put-AdminIn, put-OtherAdmin,
  del-OtherAdmin, keeps_an_admin-cases, role-IsAdmin,
}

-- Another account in place of one, or a new one, that leaves an administrator.
put-Governs :
    (file : File) (k : String) (v : AdminAccount)
    → Unique (users file)
    → v.username ≡ k
    → keeps_an_admin (users file) k (some v.role) ≡ true
    → Governs (changed (write file (put k v (users file)) none))
put-Governs file k v u named keeps =
    write-Governs file (put k v (users file)) none
      (put-All (λ (entry : String × AdminAccount). entry.1.username ≡ entry.0) k v (users file)
        (λ j same. named ∙ sym ((string_eq.test_iff j k).0 same)) named (users-IsNamed file))
      (put-Unique k v (users file) u)
      (elim (keeps_an_admin-cases (users file) k v.role u keeps) [
        | inl admin ↦ put-AdminIn k v (users file) (role-IsAdmin v admin)
        | inr other ↦ put-OtherAdmin k v (users file) other
      ])

pub with_hash-Governs :
    (o : Option Stored) (f : Stored → Changed)
    → ((s : Stored) → Governs (f s))
    → Governs (with_hash o f)
with_hash-Governs none f h = tt
with_hash-Governs (some s) f h = h s

pub not-false : (b : Bool) → not b ≡ false → b ≡ true
not-false b h = ground arith

-- Setting a password, of a new account or of one that is there, with or without a role: if it writes
-- the file, the new one lists each name once and has an administrator, whatever file there was that
-- lists each name once, also none.
pub set_password-Governs :
    (h : Hashing) (salt : Random) (username password : String) (role : Option String)
    (must_change : Bool) (file : File)
    → Unique (users file)
    → Governs (set_password h salt username password role must_change file)
unfolding set_password
set_password-Governs h salt username password role must_change file u =
    let existing = get username (users file) in
    let new_role = chosen_role role existing in
    if_ind Governs (not (known_role new_role)) _ _ tt (
      if_ind_eq Governs (not (keeps_an_admin (users file) username (some new_role))) _ _ (λ r. tt)
        (λ keeps.
          with_hash-Governs (hash_password h salt password) _
            (λ s. put-Governs file username _ u refl (not-false _ keeps))))

pub del-Governs :
    (username : String) (file : File) → Unique (users file) → Governs (delete_user username file)
unfolding delete_user keeps_an_admin
del-Governs username file u = if_ind Governs (not (is_user username (users file))) _ _ tt (
    if_ind_eq Governs (not (keeps_an_admin (users file) username none)) _ _ (λ r. tt)
      (λ keeps.
        let (name, a, ne, there, admin) =
          del-OtherAdmin username (users file)
            (other_admin-OtherAdmin username (users file) u (not-false _ keeps)) in
        write-Governs file (del username (users file)) none
          (del-All (λ (entry : String × AdminAccount). entry.1.username ≡ entry.0) username
            (users file) (users-IsNamed file))
          (del-Unique username (users file) u) (name, a, there, admin)))

pub named_account :
    (file : File) (k : String) (a : AdminAccount) → get k (users file) ≡ some a → a.username ≡ k
named_account file k a h =
    let (j, same, named) =
      get-All (λ (entry : String × AdminAccount). entry.1.username ≡ entry.0) k a (users file)
        (users-IsNamed file) h in
    named ∙ same

replace_account-Governs :
    (file : File) (username : String) (change : AdminAccount → AdminAccount)
    → ((a : AdminAccount)
        → get username (users file) ≡ some a
        → Governs (changed (write file (put username (change a) (users file)) none)))
    → (o : Option AdminAccount) → get username (users file) ≡ o
    → Governs (replace_account file username o change)
unfolding replace_account
replace_account-Governs file username change h none found = tt
replace_account-Governs file username change h (some a) found = h a found

pub set_role-Governs :
    (username role : String) (file : File)
    → Unique (users file)
    → Governs (set_role username role file)
unfolding set_role
set_role-Governs username role file u = if_ind Governs (not (known_role role)) _ _ tt (
    if_ind Governs (not (is_user username (users file))) _ _ tt (
      if_ind_eq Governs (not (keeps_an_admin (users file) username (some role))) _ _ (λ r. tt)
        (λ keeps.
          replace_account-Governs file username (λ a. record a { role = role })
            (λ a found.
              put-Governs file username (record a { role = role }) u
                (named_account file username a found) (not-false _ keeps))
            (get username (users file)) refl)))

-- The same role in place of one keeps an administrator.
put_same_role :
    (k : String) (a v : AdminAccount) (accounts : Users)
    → get k accounts ≡ some a
    → v.role ≡ a.role
    → AdminIn accounts
    → AdminIn (put k v accounts)
unfolding is_admin
put_same_role k a v accounts found same (name, b, there, admin) = elim (Bool-cases (name == k)) [
  | inl hit ↦
      let here : get k accounts ≡ some b =
        subst (λ n. get n accounts ≡ some b) ((string_eq.test_iff name k).0 hit) there in
      let b_is_a : b ≡ a = some-injective b a (sym here ∙ found) in
      put-AdminIn k v accounts (
        subst (λ r. (r == role_admin) ≡ true) (ap (λ (x : AdminAccount). x.role) b_is_a ∙ sym same)
          admin)
  | inr miss ↦
      put-OtherAdmin k v accounts
        (name, b, ground (arith, string_eq.test_iff name k, miss), there, admin)
]

pub set_mfa-Governs :
    (username : String) (mfa : Mfa) (file : File)
    → IsGoverned file
    → Governs (set_mfa username mfa file)
unfolding set_mfa find_account
set_mfa-Governs username mfa file g =
    replace_account-Governs file username (λ a. record a { mfa = mfa })
      (λ a found.
        let v : AdminAccount = record a { mfa = mfa } in
        write-Governs file (put username v (users file)) none
          (put-All (λ (entry : String × AdminAccount). entry.1.username ≡ entry.0) username v
            (users file)
            (λ j same.
              named_account file username a found ∙ sym ((string_eq.test_iff j username).0 same))
            (named_account file username a found) (users-IsNamed file))
          (put-Unique username v (users file) g.unique)
          (put_same_role username a v (users file) found refl g.governed))
      (get username (users file)) refl

-- The account that is set up takes the place of the generated one.
pub moved-AdminIn :
    (current_name new_username : String) (a v : AdminAccount) (accounts : Users)
    → get current_name accounts ≡ some a
    → v.role ≡ a.role
    → (new_username ≡ current_name) ⊎ (get new_username accounts ≡ none)
    → AdminIn accounts
    → AdminIn (put new_username v (del current_name accounts))
unfolding is_admin
moved-AdminIn current_name new_username a v accounts found same free (name, b, there, admin) =
    elim (Bool-cases (name == current_name)) [
      | inl hit ↦
          let here : get current_name accounts ≡ some b =
            subst (λ n. get n accounts ≡ some b) ((string_eq.test_iff name current_name).0 hit)
              there in
          put-AdminIn new_username v (del current_name accounts) (
            subst (λ r. (r == role_admin) ≡ true)
              (ap (λ (x : AdminAccount). x.role) (some-injective b a (sym here ∙ found)) ∙ sym same)
              admin)
      | inr miss ↦ put-OtherAdmin new_username v (del current_name accounts) (
        name,
        b,
        ground (arith, free, there, string_eq.test_iff name current_name, miss),
        ground (
          arith,
          get-del current_name name accounts,
          string_eq.test_iff current_name name,
          there,
          miss,
          string_eq.test_iff name current_name,
        ),
        admin,
      )
    ]
