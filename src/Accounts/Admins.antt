-- ===== src/Accounts/Admins.antt =====
-- The administrators in the file of `AdminStore`, src/frfw/admin_account.py, change by change.
use fr_os_pblk.Base.{
  String, ◌≡◌, ◌≢◌, refl, sym, subst, Bool, true, not, ◌&&◌, Option, none, some, [], ◌∷◌, ◌==◌,
  string_eq, arith, Bool-cases, inl, inr, ◌⊎◌,
}
use fr_os_pblk.Base.Dict.{get, put, del, get-put, get-del}
use fr_os_pblk.Base.Dict.Keys.{Unique}
use fr_os_pblk.Accounts.Account.{
  role_admin, AdminAccount, is_admin, File, Users, users, write, find_account,
}
use fr_os_pblk.Accounts.Store.{Changed, refused, raises, changed, other_admin, keeps_an_admin}
use fr_os_pblk.Accounts.Written.{IsNamed, users-write}

abbrev pub AdminIn : Users → Type 0
AdminIn accounts =
    (name : String) × (a : AdminAccount) × (get name accounts ≡ some a) × (is_admin a ≡ true)

abbrev pub OtherAdmin : String → Users → Type 0
OtherAdmin username accounts =
    (name : String) × (a : AdminAccount) × (name ≢ username)
    × (get name accounts ≡ some a)
    × (is_admin a ≡ true)

-- A file that lists each name once and has an administrator.
pub record IsGoverned (file : File) : Type 0 where
  pub unique : Unique (users file)
  pub governed :
      (name : String) × (a : AdminAccount) × (find_account file name ≡ some a) × (is_admin a ≡ true)

-- The file that a change writes, if it writes one.
abbrev pub Governs : Changed → Type 0
Governs (refused why) = Unit
Governs raises = Unit
Governs (changed file) = IsGoverned file

pub write-Governs :
    (file : File) (accounts : Users) (given : Option Bool)
    → IsNamed accounts
    → Unique accounts
    → AdminIn accounts
    → Governs (changed (write file accounts given))
unfolding find_account
write-Governs file accounts given named unique admin =
    let read = sym ((users-write file accounts given named).0) in
    record { unique = subst Unique read unique; governed = subst AdminIn read admin }

get_first : (name : String) (a : AdminAccount) (rest : Users) → get name ((name, a) ∷ rest) ≡ some a
unfolding get
get_first name a rest = ground (arith, (string_eq.test_iff name name).1 refl)

get_later :
    (name n : String) (a : AdminAccount) (rest : Users) (b : AdminAccount)
    → get n rest ≡ none
    → get name rest ≡ some b
    → get name ((n, a) ∷ rest) ≡ some b
unfolding get
get_later name n a rest b absent there = ground (arith, string_eq.test_iff n name, absent, there)

pub other_admin-OtherAdmin :
    (username : String) (accounts : Users)
    → Unique accounts
    → other_admin username accounts ≡ true
    → OtherAdmin username accounts
unfolding other_admin
other_admin-OtherAdmin username [] u h = ground arith
other_admin-OtherAdmin username ((n, a) ∷ rest) u h =
    elim (Bool-cases (is_admin a && not (n == username))) [
      | inl here ↦ (
        n,
        a,
        ground (arith, string_eq.test_iff n username),
        get_first n a rest,
        ground (arith, here),
      )
      | inr elsewhere ↦
          let (name, b, ne, there, admin) =
            other_admin-OtherAdmin username rest u.1 (rw elsewhere at h) in
          (name, b, ne, get_later name n a rest b u.0 there, admin)
    ]

pub put-AdminIn :
    (k : String) (v : AdminAccount) (accounts : Users)
    → is_admin v ≡ true
    → AdminIn (put k v accounts)
put-AdminIn k v accounts h =
    (k, v, ground (arith, get-put k k v accounts, (string_eq.test_iff k k).1 refl), h)

pub put-OtherAdmin :
    (k : String) (v : AdminAccount) (accounts : Users)
    → OtherAdmin k accounts
    → AdminIn (put k v accounts)
put-OtherAdmin k v accounts (name, a, ne, there, admin) = (
  name,
  a,
  ground (arith, get-put k name v accounts, string_eq.test_iff k name, there, ne),
  admin,
)

pub del-OtherAdmin :
    (k : String) (accounts : Users) → OtherAdmin k accounts → OtherAdmin k (del k accounts)
del-OtherAdmin k accounts (name, a, ne, there, admin) = (
  name,
  a,
  ne,
  ground (arith, get-del k name accounts, string_eq.test_iff k name, there, ne),
  admin,
)

pub keeps_an_admin-cases :
    (accounts : Users) (username role : String)
    → Unique accounts
    → keeps_an_admin accounts username (some role) ≡ true
    → (role ≡ role_admin) ⊎ OtherAdmin username accounts
unfolding keeps_an_admin
keeps_an_admin-cases accounts username role u h = elim (Bool-cases (role == role_admin)) [
  | inl admin ↦ inl ((string_eq.test_iff role role_admin).0 admin)
  | inr not_admin ↦ inr (other_admin-OtherAdmin username accounts u (rw not_admin at h))
]

pub role-IsAdmin : (a : AdminAccount) → a.role ≡ role_admin → is_admin a ≡ true
unfolding is_admin
role-IsAdmin a h = (string_eq.test_iff a.role role_admin).1 h
