-- ===== src/Accounts/Password.antt =====
-- `hash_password`, `verify_password` and `needs_rehash` of src/frfw/admin_account.py. A stored hash is
-- held as the fields between its dollar signs, its numbers as they are written without leading zeros.
use Prim.Native.Nat.{bit_and}
use fr_os_pblk.Base.{
  ℕ, ◌-◌, ◌*◌, ◌^◌, String, Bool, true, false, not, ◌&&◌, ◌||◌, Option, none, some, List, [], ◌∷◌,
  length, ltb, ◌==◌, Eq, nat_eq, string_eq, ◌≡◌, ◌↔◌, arith, if◌then◌else◌,
}

-- hashlib's functions on a password, a salt and their costs, scrypt's last argument being `dklen`;
-- None where they raise.
pub record Hashing : Type 0 where
  pub scrypt : String → List ℕ → ℕ → ℕ → ℕ → ℕ → Option (List ℕ)
  pub pbkdf2_hmac : String → List ℕ → ℕ → Option (List ℕ)
  pub compare_digest : List ℕ → List ℕ → Bool

abbrev pub scrypt_n : ℕ
scrypt_n = 2 ^ 15

abbrev pub scrypt_r : ℕ
scrypt_r = 8

abbrev pub scrypt_p : ℕ
scrypt_p = 3

abbrev pub scrypt_min_cost : ℕ
scrypt_min_cost = scrypt_n * scrypt_r * scrypt_p

abbrev pub min_pbkdf2_iterations : ℕ
min_pbkdf2_iterations = 200000

-- A stored hash; `unreadable` is every text that is neither of the two forms.
pub data Stored : Type 0 where
  scrypt_hash : ℕ → ℕ → ℕ → List ℕ → List ℕ → Stored
  pbkdf2_hash : ℕ → List ℕ → List ℕ → Stored
  unreadable : String → Stored

abbrev pub same_bytes : List ℕ → List ℕ → Bool
same_bytes [] [] = true
same_bytes (a ∷ as') (b ∷ bs) = (a == b) && same_bytes as' bs
same_bytes _ _ = false

pub same_bytes_iff : (xs ys : List ℕ) → (same_bytes xs ys ≡ true) ↔ (xs ≡ ys)
same_bytes_iff [] [] = ground arith
same_bytes_iff [] (y ∷ ys) = ground arith
same_bytes_iff (x ∷ xs) [] = ground arith
same_bytes_iff (x ∷ xs) (y ∷ ys) = ground (arith, same_bytes_iff xs ys, nat_eq.test_iff x y)

-- `==` on two stored hashes
abbrev same_stored : Stored → Stored → Bool
same_stored (scrypt_hash n r p salt digest) (scrypt_hash n' r' p' salt' digest') =
    (n == n') && (r == r') && (p == p') && same_bytes salt salt' && same_bytes digest digest'
same_stored (pbkdf2_hash i salt digest) (pbkdf2_hash i' salt' digest') =
    (i == i') && same_bytes salt salt' && same_bytes digest digest'
same_stored (unreadable text) (unreadable text') = text == text'
same_stored _ _ = false

pub same_stored_iff : (a b : Stored) → (same_stored a b ≡ true) ↔ (a ≡ b)
same_stored_iff (scrypt_hash n r p salt digest) (scrypt_hash n' r' p' salt' digest') = ground (
  arith,
  nat_eq.test_iff n n',
  nat_eq.test_iff r r',
  nat_eq.test_iff p p',
  same_bytes_iff salt salt',
  same_bytes_iff digest digest',
)
same_stored_iff (pbkdf2_hash i salt digest) (pbkdf2_hash i' salt' digest') =
    ground (arith, nat_eq.test_iff i i', same_bytes_iff salt salt', same_bytes_iff digest digest')
same_stored_iff (unreadable text) (unreadable text') = ground (arith, string_eq.test_iff text text')
same_stored_iff (scrypt_hash n r p salt digest) (pbkdf2_hash i' salt' digest') = ground arith
same_stored_iff (scrypt_hash n r p salt digest) (unreadable text') = ground arith
same_stored_iff (pbkdf2_hash i salt digest) (scrypt_hash n' r' p' salt' digest') = ground arith
same_stored_iff (pbkdf2_hash i salt digest) (unreadable text') = ground arith
same_stored_iff (unreadable text) (scrypt_hash n' r' p' salt' digest') = ground arith
same_stored_iff (unreadable text) (pbkdf2_hash i' salt' digest') = ground arith

instance abbrev pub stored_eq : Eq Stored
stored_eq = record { test = same_stored; test_iff = same_stored_iff }

-- What `secrets.token_bytes` draws for a call, by the number of bytes.
abbrev pub Random : Type 0
Random = ℕ → List ℕ

abbrev pub salt_bytes : ℕ
salt_bytes = 16

abbrev pub digest_bytes : ℕ
digest_bytes = 32

-- None where scrypt raises.
unfoldable pub hash_password : Hashing → Random → String → Option Stored
hash_password h token_bytes password =
    let salt = token_bytes salt_bytes in
    elim (h.scrypt password salt scrypt_n scrypt_r scrypt_p digest_bytes) [
      | none ↦ none
      | some digest ↦ some (scrypt_hash scrypt_n scrypt_r scrypt_p salt digest)
    ]

unfoldable pub digest_matches : Hashing → Option (List ℕ) → List ℕ → Bool
digest_matches h none expected = false
digest_matches h (some actual) expected = h.compare_digest actual expected

-- The costs that a stored hash may not have.
unfoldable pub weak_scrypt : ℕ → ℕ → ℕ → List ℕ → List ℕ → Bool
weak_scrypt n r p salt expected =
    ltb (n * r * p) scrypt_min_cost
    || ltb r scrypt_r
    || not (bit_and n (n - 1) == 0)
    || ltb (length salt) 16
    || not (length expected == 32)

unfoldable pub weak_pbkdf2 : ℕ → List ℕ → List ℕ → Bool
weak_pbkdf2 iterations salt expected =
    ltb iterations min_pbkdf2_iterations || ltb (length salt) 16 || not (length expected == 32)

unfoldable pub verify_password : Hashing → String → Stored → Bool
verify_password h password (scrypt_hash n r p salt expected) =
    if weak_scrypt n r p salt expected
    then false
    else digest_matches h (h.scrypt password salt n r p digest_bytes) expected
verify_password h password (pbkdf2_hash iterations salt expected) =
    if weak_pbkdf2 iterations salt expected
    then false
    else digest_matches h (h.pbkdf2_hmac password salt iterations) expected
verify_password h password (unreadable text) = false

unfoldable pub needs_rehash : Stored → Bool
needs_rehash (scrypt_hash n r p salt digest) =
    not ((n == scrypt_n) && (r == scrypt_r) && (p == scrypt_p))
needs_rehash (pbkdf2_hash iterations salt digest) = true
needs_rehash (unreadable text) = true
