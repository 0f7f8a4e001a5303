-- ===== src/Accounts/Tests.antt =====
-- src/frfw/admin_account.py: accounts of a small router, and the theorems at concrete inputs.
use mathlib.Core.Option.{some-injective}
use fr_os_pblk.Base.{
  ℕ, zero, suc, ap, ◌≡◌, refl, subst, true, false, none, some, List, [], ◌∷◌, length, nat_eq,
}
use fr_os_pblk.Base.Dict.{get}
use fr_os_pblk.Accounts.Password.{
  Hashing, Stored, scrypt_hash, pbkdf2_hash, scrypt_n, scrypt_r, scrypt_p, same_bytes,
  same_bytes_iff, hash_password, digest_matches, weak_pbkdf2, verify_password, needs_rehash,
}
use fr_os_pblk.Accounts.Account.{
  policy_of, no_mfa, is_admin, File, current, Users, users, policy, write, find_account,
}
use fr_os_pblk.Accounts.Store.{Problem}
use fr_os_pblk.Accounts.Written.{users-write}
use fr_os_pblk.Accounts.Admins.{IsGoverned}
use fr_os_pblk.Accounts.Governed.{
  Change, sets_role, deletes_user, adds_user, sets_policy, change_all, change_all-IsGoverned,
}
use fr_os_pblk.Accounts.Hashes.{IsCostly, verify_password-IsCostly, verify_password-hash_password}
use fr_os_pblk.Accounts.Signing.{verify, Outcome, verify-Outcome}

abbrev sixteen : List ℕ
sixteen = 1 ∷ 2 ∷ 3 ∷ 4 ∷ 5 ∷ 6 ∷ 7 ∷ 8 ∷ 9 ∷ 10 ∷ 11 ∷ 12 ∷ 13 ∷ 14 ∷ 15 ∷ 16 ∷ []

abbrev thirty_two : List ℕ → List ℕ
thirty_two rest = 1 ∷ 2 ∷ 3 ∷ 4 ∷ 5 ∷ 6 ∷ 7 ∷ 8 ∷ 9 ∷ 10 ∷ 11 ∷ 12 ∷ 13 ∷ 14 ∷ 15 ∷ 16 ∷ rest

abbrev digest : List ℕ
digest = thirty_two sixteen

abbrev zeros : ℕ → List ℕ
zeros zero = []
zeros (suc n) = 0 ∷ zeros n

length-zeros : (n : ℕ) → length (zeros n) ≡ n
length-zeros zero = refl
length-zeros (suc n) = ap suc (length-zeros n)

-- Hash functions of one digest.
abbrev hashing : Hashing
hashing = record {
  scrypt = λ password salt n r p dklen. some (zeros dklen);
  pbkdf2_hmac = λ password salt iterations. some digest;
  compare_digest = same_bytes;
}

abbrev anything : Problem
anything = λ password username. none

abbrev old_hash : Stored
old_hash = pbkdf2_hash 200000 sixteen digest

abbrev router : File
router =
    current
      (("alice", record { password_hash = old_hash; role = none; must_change = none; mfa = none })
        ∷ (
          "bob",
          record {
            password_hash = old_hash;
            role = some "viewer";
            must_change = some true;
            mfa = none;
          },
        )
        ∷ [])
      none

router-IsGoverned : IsGoverned router
unfolding users find_account get is_admin
router-IsGoverned = record { unique = (refl, (refl, tt)); governed = ("alice", _, refl, refl) }

abbrev requests : List Change
requests =
    sets_role "alice" "viewer"
    ∷ sets_role "bob" "admin"
    ∷ deletes_user "alice"
    ∷ adds_user zeros "carol" "correct horse battery" "viewer"
    ∷ deletes_user "bob"
    ∷ sets_policy true
    ∷ []

change_all-IsGoverned_example : IsGoverned (change_all anything hashing requests router)
change_all-IsGoverned_example =
    change_all-IsGoverned anything hashing requests router router-IsGoverned

abbrev accounts : Users
accounts =
    (
      "dave",
      record {
        username = "dave";
        password_hash = old_hash;
        role = "admin";
        must_change = true;
        mfa = no_mfa;
      },
    )
    ∷ []

users-write_example :
    (users (write router accounts none) ≡ accounts) × (policy (write router accounts none) ≡ false)
unfolding policy policy_of
users-write_example = users-write router accounts none (refl, tt)

old_hash_verified : verify_password hashing "any" old_hash ≡ true
unfolding verify_password weak_pbkdf2 digest_matches
old_hash_verified = refl

verify_password-IsCostly_example : IsCostly old_hash
verify_password-IsCostly_example = verify_password-IsCostly hashing "any" old_hash old_hash_verified

abbrev new_hash : Stored
new_hash = scrypt_hash scrypt_n scrypt_r scrypt_p (zeros 16) (zeros 32)

new_hash_made : hash_password hashing zeros "any" ≡ some new_hash
unfolding hash_password
new_hash_made = refl

verify_password-hash_password_example :
    (verify_password hashing "any" new_hash ≡ true) × (needs_rehash new_hash ≡ false)
verify_password-hash_password_example =
    verify_password-hash_password hashing zeros "any" new_hash (λ d. (same_bytes_iff d d).1 refl)
      length-zeros
      (λ salt d n r p dklen h.
        subst (λ x. length x ≡ dklen) (some-injective (zeros dklen) d h) (length-zeros dklen))
      new_hash_made

verify-Outcome_example :
    Outcome hashing zeros "alice" "any" router router
      (verify hashing zeros "alice" "any" router router)
verify-Outcome_example = verify-Outcome hashing zeros "alice" "any" router router
