-- ===== src/Accounts/Signing.antt =====
-- `AdminStore.verify` of src/frfw/admin_account.py: the file is read without the lock, and read again
-- under it when the hash is to be replaced.
use fr_os_pblk.Base.{
  String, ◌≡◌, refl, sym, ap, subst, ◌∙◌, true, false, not, Option, none, some, ◌==◌, string_eq,
  if◌then◌else◌, arith, Bool-cases, if_ind_eq, inl, inr, ◌⊎◌,
}
use fr_os_pblk.Base.Dict.{get, put, get-put}
use fr_os_pblk.Base.Dict.Entries.{put-All}
use fr_os_pblk.Accounts.Password.{
  Random, Hashing, Stored, stored_eq, hash_password, verify_password, needs_rehash,
}
use fr_os_pblk.Accounts.Account.{AdminAccount, File, Users, users, write, find_account}
use fr_os_pblk.Accounts.Written.{users-IsNamed, users-write}
use fr_os_pblk.Accounts.Changes.{named_account, not-false}

-- The account, None, or an exception from the hash.
pub data SignIn : Type 0 where
  granted : AdminAccount → SignIn
  denied : SignIn
  fails : SignIn

put_there : (k : String) (v : AdminAccount) (d : Users) → get k (put k v d) ≡ some v
put_there k v d = ground (arith, get-put k k v d, (string_eq.test_iff k k).1 refl)

put_other :
    (k j : String) (v : AdminAccount) (d : Users) → (j == k) ≡ false → get j (put k v d) ≡ get j d
put_other k j v d h =
    ground (arith, get-put k j v d, h, string_eq.test_iff j k, string_eq.test_iff k j)

-- What writing an account under its name leaves: that account, and the other ones.
pub find_account-write :
    (file : File) (username : String) (account : AdminAccount)
    → account.username ≡ username
    → (find_account (write file (put username account (users file)) none) username ≡ some account)
      × ((name : String)
          → (name ≡ username)
            ⊎ (find_account (write file (put username account (users file)) none) name
                ≡ find_account file name))
unfolding find_account
find_account-write file username account named =
    let written = users-write file (put username account (users file)) none (
      put-All (λ (entry : String × AdminAccount). entry.1.username ≡ entry.0) username account
        (users file) (λ j same. named ∙ sym ((string_eq.test_iff j username).0 same)) named
        (users-IsNamed file)) in
    (
      ap (get username) written.0 ∙ put_there username account (users file),
      λ name. elim (Bool-cases (name == username)) [
        | inl same ↦ inl ((string_eq.test_iff name username).0 same)
        | inr other ↦
            inr (ap (get name) written.0 ∙ put_other username name account (users file) other)
      ],
    )

module _ (h : Hashing) (salt : Random) (username password : String) where
  -- No such account: a hash is made all the same.
  unfoldable pub deny_unknown : Option Stored → SignIn
  deny_unknown none = fails
  deny_unknown (some password_hash) = denied

  unfoldable pub rehash : Option Stored → AdminAccount → File → SignIn × File
  rehash none account file = (fails, file)
  rehash (some password_hash) account file =
      let account' : AdminAccount = record account { password_hash = password_hash } in
      (granted account', write file (put username account' (users file)) none)

  -- Under the lock, with the account that is there now.
  unfoldable pub upgrade : AdminAccount → Option AdminAccount → File → SignIn × File
  upgrade account none file = (denied, file)
  upgrade account (some now) file =
      if not (now.password_hash == account.password_hash)
      then (if verify_password h password now.password_hash
          then (granted now, file)
          else (denied, file))
      else rehash (hash_password h salt password) now file

  unfoldable pub verify_account : Option AdminAccount → File → SignIn × File
  verify_account none file = (deny_unknown (hash_password h salt password), file)
  verify_account (some account) file =
      if not (verify_password h password account.password_hash)
      then (denied, file)
      else if needs_rehash account.password_hash
      then upgrade account (find_account file username) file
      else (granted account, file)

  -- `verify`, with the file as it is first read and as it is under the lock
  unfoldable pub verify : File → File → SignIn × File
  verify first file = verify_account (find_account first username) file

  -- The accounts of the other names are as they were.
  abbrev pub OthersKept : File → File → Type 0
  OthersKept file file' =
      (name : String) → (name ≡ username) ⊎ (find_account file' name ≡ find_account file name)

  abbrev pub Accepts : AdminAccount → Type 0
  Accepts a = verify_password h password a.password_hash ≡ true

  -- The account granted is the one first read, and the file stays; or it is the one under the lock,
  -- and the file stays; or it is that one with a new hash of the password, and stands in the file. The
  -- hash that accepted the password is that of the same account in the same file.
  abbrev pub Granted : File → File → AdminAccount → File → Type 0
  Granted first file account file' =
      ((find_account first username ≡ some account)
        × Accepts account
        × (needs_rehash account.password_hash ≡ false)
        × (file' ≡ file))
      ⊎ ((now : AdminAccount) × (find_account file username ≡ some now)
          × Accepts now
          × (((account ≡ now) × (file' ≡ file))
              ⊎ ((s : Stored) × (hash_password h salt password ≡ some s)
                  × (account ≡ record now { password_hash = s })
                  × (find_account file' username ≡ some account))))

  abbrev pub Outcome : File → File → SignIn × File → Type 0
  Outcome first file (granted account, file') =
      (account.username ≡ username) × Granted first file account file' × OthersKept file file'
  Outcome first file (denied, file') = file' ≡ file
  Outcome first file (fails, file') = file' ≡ file

  rehash-Outcome :
      (first file : File) (now : AdminAccount) (o : Option Stored)
      → hash_password h salt password ≡ o
      → Accepts now
      → find_account file username ≡ some now
      → Outcome first file (rehash o now file)
  unfolding rehash get find_account
  rehash-Outcome first file now none made right there = refl
  rehash-Outcome first file now (some s) made right there =
      let named = named_account file username now there in
      let (written, others) =
        find_account-write file username (record now { password_hash = s }) named in
      (named, inr (now, there, right, inr (s, made, refl, written)), others)

  unchanged : (file : File) → OthersKept file file
  unchanged file name = inr refl

  same_hash :
      (now account : AdminAccount)
      → not (now.password_hash == account.password_hash) ≡ false
      → Accepts account
      → Accepts now
  same_hash now account same right =
      subst (λ x. verify_password h password x ≡ true)
        (sym ((stored_eq.test_iff now.password_hash account.password_hash).0 (not-false _ same)))
        right

  upgrade-Outcome :
      (first file : File) (account : AdminAccount) (o : Option AdminAccount)
      → Accepts account
      → find_account file username ≡ o
      → Outcome first file (upgrade account o file)
  unfolding upgrade find_account
  upgrade-Outcome first file account none right there = refl
  upgrade-Outcome first file account (some now) right there =
      if_ind_eq (Outcome first file) (not (now.password_hash == account.password_hash)) _ _
        (λ changed.
          if_ind_eq (Outcome first file) (verify_password h password now.password_hash) _ _
            (λ checked. (
              named_account file username now there,
              inr (now, there, checked, inl (refl, refl)),
              unchanged file,
            ))
            (λ wrong. refl))
        (λ same.
          rehash-Outcome first file now (hash_password h salt password) refl
            (same_hash now account same right) there)

  deny_unknown-Outcome :
      (first file : File) (o : Option Stored) → Outcome first file (deny_unknown o, file)
  unfolding deny_unknown
  deny_unknown-Outcome first file none = refl
  deny_unknown-Outcome first file (some s) = refl

  verify_account-Outcome :
      (first file : File) (o : Option AdminAccount)
      → find_account first username ≡ o
      → Outcome first file (verify_account o file)
  unfolding verify_account find_account
  verify_account-Outcome first file none there =
      deny_unknown-Outcome first file (hash_password h salt password)
  verify_account-Outcome first file (some account) there =
      if_ind_eq (Outcome first file) (not (verify_password h password account.password_hash)) _ _
        (λ wrong. refl)
        (λ right.
          if_ind_eq (Outcome first file) (needs_rehash account.password_hash) _ _
            (λ old.
              upgrade-Outcome first file account (find_account file username) (not-false _ right)
                refl)
            (λ new. (
              named_account first username account there,
              inl (there, not-false _ right, new, refl),
              unchanged file,
            )))

  -- Whatever the file is at the first reading and under the lock. An account is granted only under the
  -- name that was given, and the accounts of the other names stay as they are. It is the account of the
  -- first reading, whose hash accepts the password and needs no rehash; or the account under the lock,
  -- when its own hash there accepts the password, as it is, or with a new hash of the password that
  -- stands in the file after. When none is granted, the file stays as it is.
  pub verify-Outcome : (first file : File) → Outcome first file (verify first file)
  unfolding verify
  verify-Outcome first file = verify_account-Outcome first file (find_account first username) refl
