-- ===== src/Accounts/Governed.antt =====
-- Runs of changes of `AdminStore` in src/frfw/admin_account.py.
use fr_os_pblk.Base.{
  String, ◌≡◌, refl, sym, Bool, false, not, ◌&&◌, Option, none, some, List, [], ◌∷◌, ◌==◌,
  string_eq, arith, Bool-cases, Option-cases, if_ind, if_ind_eq, inl, inr, ◌⊎◌,
}
use fr_os_pblk.Base.Dict.{get, put, del}
use fr_os_pblk.Base.Dict.Keys.{put-Unique, del-Unique}
use fr_os_pblk.Base.Dict.Entries.{put-All, del-All}
use fr_os_pblk.Accounts.Password.{Random, Hashing, hash_password, verify_password}
use fr_os_pblk.Accounts.Account.{
  Mfa, no_mfa, AdminAccount, File, Users, users, find_account, is_username,
}
use fr_os_pblk.Accounts.Store.{
  Changed, refused, raises, changed, known_role, set_password, is_user, set_up, Problem,
  unless_weak, complete_setup, add_user, set_role, delete_user, set_mfa, reset_mfa, set_policy,
  is_reserved, reserved_usernames,
}
use fr_os_pblk.Accounts.Written.{users-IsNamed}
use fr_os_pblk.Accounts.Admins.{IsGoverned, Governs, write-Governs}
use fr_os_pblk.Accounts.Changes.{
  with_hash-Governs, set_password-Governs, del-Governs, set_role-Governs, set_mfa-Governs,
  moved-AdminIn,
}

free_name :
    (new_username current_name : String) (accounts : Users)
    → (not (new_username == current_name) && is_user new_username accounts) ≡ false
    → (new_username ≡ current_name) ⊎ (get new_username accounts ≡ none)
unfolding is_user
free_name new_username current_name accounts h = elim (Bool-cases (new_username == current_name)) [
  | inl same ↦ inl ((string_eq.test_iff new_username current_name).0 same)
  | inr other ↦ elim (Option-cases (get new_username accounts)) [
    | inl absent ↦ inr absent
    | inr (a, there) ↦ ground (arith, h, other, there)
  ]
]

set_up-Governs :
    (h : Hashing) (salt : Random) (current_name new_username password : String) (file : File)
    → IsGoverned file
    → (o : Option AdminAccount) → get current_name (users file) ≡ o
    → Governs (set_up h salt current_name new_username password o file)
unfolding set_up find_account
set_up-Governs h salt current_name new_username password file g none found = tt
set_up-Governs h salt current_name new_username password file g (some a) found =
    if_ind Governs (not a.must_change) _ _ tt (
      if_ind_eq Governs (not (new_username == current_name) && is_user new_username (users file)) _
        _ (λ taken. tt)
        (λ free. if_ind Governs (verify_password h password a.password_hash) _ _ tt (
          with_hash-Governs (hash_password h salt password) _ (λ s.
            let v : AdminAccount = record {
              username = new_username;
              password_hash = s;
              role = a.role;
              must_change = false;
              mfa = no_mfa;
            } in
            write-Governs file (put new_username v (del current_name (users file))) none
              (put-All (λ (entry : String × AdminAccount). entry.1.username ≡ entry.0) new_username
                v (del current_name (users file))
                (λ j same. sym ((string_eq.test_iff j new_username).0 same)) refl
                (del-All (λ (entry : String × AdminAccount). entry.1.username ≡ entry.0)
                  current_name (users file) (users-IsNamed file)))
              (put-Unique new_username v (del current_name (users file))
                (del-Unique current_name (users file) g.unique))
              (moved-AdminIn current_name new_username a v (users file) found refl
                (free_name new_username current_name (users file) free) g.governed)))))

unless_weak-Governs :
    (o : Option String) (next : Changed) → Governs next → Governs (unless_weak o next)
unless_weak-Governs none next h = h
unless_weak-Governs (some reason) next h = tt

-- The changes, each with its arguments: a salt, names, a password, a role.
pub data Change : Type 0 where
  sets_password : Random → String → String → Option String → Bool → Change
  completes_setup : Random → String → String → String → Change
  adds_user : Random → String → String → String → Change
  sets_role : String → String → Change
  deletes_user : String → Change
  sets_mfa : String → Mfa → Change
  resets_mfa : String → Change
  sets_policy : Bool → Change

module _ (problem : Problem) (h : Hashing) where
  unfoldable pub change : Change → File → Changed
  change (sets_password salt name password role must_change) file =
      set_password h salt name password role must_change file
  change (completes_setup salt current_name name password) file =
      complete_setup problem h salt current_name name password file
  change (adds_user salt name password role) file = add_user problem h salt name password role file
  change (sets_role name role) file = set_role name role file
  change (deletes_user name) file = delete_user name file
  change (sets_mfa name mfa) file = set_mfa name mfa file
  change (resets_mfa name) file = reset_mfa name file
  change (sets_policy require_mfa) file = set_policy require_mfa file

  -- A change that is refused or raises leaves the file as it is.
  abbrev pub after : File → Changed → File
  after file (refused why) = file
  after file raises = file
  after file (changed file') = file'

  unfoldable pub change_all : List Change → File → File
  change_all [] file = file
  change_all (c ∷ cs) file = change_all cs (after file (change c file))

  change-Governs : (c : Change) (file : File) → IsGoverned file → Governs (change c file)
  unfolding change complete_setup add_user set_policy reset_mfa find_account
  change-Governs (sets_password salt name password role must_change) file g =
      set_password-Governs h salt name password role must_change file g.unique
  change-Governs (completes_setup salt current_name name password) file g =
      if_ind Governs (not (is_username name)) _ _ tt (
        if_ind Governs (is_reserved name reserved_usernames) _ _ tt (
          unless_weak-Governs (problem password name) _ (
            set_up-Governs h salt current_name name password file g (get current_name (users file))
              refl)))
  change-Governs (adds_user salt name password role) file g =
      if_ind Governs (not (is_username name)) _ _ tt (
        unless_weak-Governs (problem password name) _ (
          if_ind Governs (not (known_role role)) _ _ tt (
            if_ind Governs (is_user name (users file)) _ _ tt
              (set_password-Governs h salt name password (some role) false file g.unique))))
  change-Governs (sets_role name role) file g = set_role-Governs name role file g.unique
  change-Governs (deletes_user name) file g = del-Governs name file g.unique
  change-Governs (sets_mfa name mfa) file g = set_mfa-Governs name mfa file g
  change-Governs (resets_mfa name) file g = set_mfa-Governs name no_mfa file g
  change-Governs (sets_policy require_mfa) file g =
      write-Governs file (users file) (some require_mfa) (users-IsNamed file) g.unique g.governed

  after-IsGoverned :
      (file : File) (c : Changed) → IsGoverned file → Governs c → IsGoverned (after file c)
  after-IsGoverned file (refused why) g k = g
  after-IsGoverned file raises g k = g
  after-IsGoverned file (changed file') g k = k

  -- From a file that lists each name once and has an administrator, any run of changes, refused ones
  -- and ones that raise among them, leaves a file that lists each name once and has an administrator.
  pub change_all-IsGoverned :
      (cs : List Change) (file : File) → IsGoverned file → IsGoverned (change_all cs file)
  unfolding change_all
  change_all-IsGoverned [] file g = g
  change_all-IsGoverned (c ∷ cs) file g =
      change_all-IsGoverned cs (after file (change c file))
        (after-IsGoverned file (change c file) g (change-Governs c file g))
