-- ===== src/Accounts/Hashes.antt =====
-- `hash_password` and `verify_password` of src/frfw/admin_account.py, and their costs.
use mathlib.Core.Option.{some-injective}
use fr_os_pblk.Base.{
  ℕ, ◌*◌, ◌≤◌, String, ◌≡◌, refl, sym, ap, ◌∙◌, subst, Bool, true, false, not, ◌||◌, none, some,
  List, length, ltb, ◌==◌, nat_eq, arith, Option-cases, Bool-cases, inl, inr,
}
use fr_os_pblk.Accounts.Password.{
  Random, salt_bytes, digest_bytes, Hashing, Stored, scrypt_hash, pbkdf2_hash, unreadable, scrypt_n,
  scrypt_r, scrypt_p, scrypt_min_cost, min_pbkdf2_iterations, hash_password, digest_matches,
  weak_scrypt, weak_pbkdf2, verify_password, needs_rehash,
}

-- The least that it costs to check a password against the hash.
abbrev pub IsCostly : Stored → Type 0
IsCostly (scrypt_hash n r p salt expected) =
    (scrypt_min_cost ≤ n * r * p) × (scrypt_r ≤ r) × (16 ≤ length salt) × (length expected ≡ 32)
IsCostly (pbkdf2_hash iterations salt expected) =
    (min_pbkdf2_iterations ≤ iterations) × (16 ≤ length salt) × (length expected ≡ 32)
IsCostly (unreadable text) = ⊥

none_true :
    (a b c d e : Bool)
    → (a || b || c || d || e) ≡ false
    → (a ≡ false) × (b ≡ false) × (d ≡ false) × (e ≡ false)
none_true a b c d e h = (ground (arith, h), ground (arith, h), ground (arith, h), ground (arith, h))

at_least : (a b : ℕ) → ltb a b ≡ false → b ≤ a
at_least a b h = ground (arith, h)

is_equal : (a b : ℕ) → not (a == b) ≡ false → a ≡ b
is_equal a b h = ground (arith, h)

strong_scrypt :
    (n r p : ℕ) (salt expected : List ℕ)
    → weak_scrypt n r p salt expected ≡ false
    → IsCostly (scrypt_hash n r p salt expected)
unfolding weak_scrypt
strong_scrypt n r p salt expected h =
    let (cost, block, long, size) = none_true _ _ _ _ _ h in
    (
      at_least (n * r * p) scrypt_min_cost cost,
      at_least r scrypt_r block,
      at_least (length salt) 16 long,
      is_equal (length expected) 32 size,
    )

strong_pbkdf2 :
    (iterations : ℕ) (salt expected : List ℕ)
    → weak_pbkdf2 iterations salt expected ≡ false
    → IsCostly (pbkdf2_hash iterations salt expected)
unfolding weak_pbkdf2
strong_pbkdf2 iterations salt expected h = (ground (arith, h), ground (arith, h), ground (arith, h))

-- Whatever the file holds: a password that is accepted was checked against a hash of at least the
-- costs of a new one, for scrypt, or of at least 200000 rounds, for PBKDF2, with a salt of at least
-- 16 bytes and a digest of 32.
pub verify_password-IsCostly :
    (h : Hashing) (password : String) (stored : Stored)
    → verify_password h password stored ≡ true
    → IsCostly stored
unfolding verify_password
verify_password-IsCostly h password (scrypt_hash n r p salt expected) v =
    elim (Bool-cases (weak_scrypt n r p salt expected)) [
      | inl weak ↦ ground (arith, v, weak)
      | inr strong ↦ strong_scrypt n r p salt expected strong
    ]
verify_password-IsCostly h password (pbkdf2_hash iterations salt expected) v =
    elim (Bool-cases (weak_pbkdf2 iterations salt expected)) [
      | inl weak ↦ ground (arith, v, weak)
      | inr strong ↦ strong_pbkdf2 iterations salt expected strong
    ]
verify_password-IsCostly h password (unreadable text) v = ground (arith, v)

abbrev fresh_hash : List ℕ → List ℕ → Stored
fresh_hash salt digest = scrypt_hash scrypt_n scrypt_r scrypt_p salt digest

fresh-strong :
    (salt digest : List ℕ)
    → 16 ≤ length salt
    → length digest ≡ 32
    → weak_scrypt scrypt_n scrypt_r scrypt_p salt digest ≡ false
unfolding weak_scrypt
fresh-strong salt digest long size = ground (arith, long, size)

fresh-accepted :
    (h : Hashing) (salt : List ℕ) (password : String) (d : List ℕ)
    → ((d : List ℕ) → h.compare_digest d d ≡ true)
    → 16 ≤ length salt
    → length d ≡ 32
    → h.scrypt password salt scrypt_n scrypt_r scrypt_p digest_bytes ≡ some d
    → (verify_password h password (fresh_hash salt d) ≡ true)
      × (needs_rehash (fresh_hash salt d) ≡ false)
unfolding verify_password digest_matches needs_rehash
fresh-accepted h salt password d reflexive long size there =
    (rw (fresh-strong salt d long size) (rw there (reflexive d)), refl)

-- When `secrets.token_bytes` gives as many bytes as it is asked for, scrypt as many as its `dklen`, and
-- a digest is equal to itself: the hash that is made of a password accepts that password, and needs
-- no rehash.
pub verify_password-hash_password :
    (h : Hashing) (token_bytes : Random) (password : String) (stored : Stored)
    → ((d : List ℕ) → h.compare_digest d d ≡ true)
    → ((n : ℕ) → length (token_bytes n) ≡ n)
    → ((salt d : List ℕ) (n r p dklen : ℕ)
        → h.scrypt password salt n r p dklen ≡ some d
        → length d ≡ dklen)
    → hash_password h token_bytes password ≡ some stored
    → (verify_password h password stored ≡ true) × (needs_rehash stored ≡ false)
unfolding hash_password
verify_password-hash_password h token_bytes password stored reflexive drawn sized made =
    let salt = token_bytes salt_bytes in
    elim (Option-cases (h.scrypt password salt scrypt_n scrypt_r scrypt_p digest_bytes)) [
      | inl raises ↦ ground (arith, made, raises)
      | inr (d, there) ↦
          let is_fresh : fresh_hash salt d ≡ stored = some-injective (fresh_hash salt d) stored (
            sym (ap (λ o. elim o [ none ↦ none | some x ↦ some (fresh_hash salt x) ]) there)
            ∙ made) in
          subst (λ s. (verify_password h password s ≡ true) × (needs_rehash s ≡ false)) is_fresh
            (fresh-accepted h salt password d reflexive (omega (arith, drawn salt_bytes))
              (sized salt d scrypt_n scrypt_r scrypt_p digest_bytes there) there)
    ]
