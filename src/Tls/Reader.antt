-- ===== src/Tls/Reader.antt =====
-- `_Reader` of src/frfw/tlsfp/clienthello.py: what is left of its bytes. None is a ParseError.
use fr_os_pblk.Base.{
  ℕ, ◌+◌, ◌*◌, ◌/◌, ◌%◌, ◌≡◌, refl, Option, none, some, List, [], ◌∷◌, ◌++◌, length, take, drop,
  ltb, if◌then◌else◌, arith, take-length, drop-length, length-append, ap,
}
use fr_os_pblk.Tls.Records.{Bytes}

abbrev pub Reader : Type 0 → Type 0
Reader A = Bytes → Option (A × Bytes)

infixl 5 ◌>>=◌ ◌>>◌
abbrev pub ◌>>=◌ : {A B : Type 0} → Reader A → (A → Reader B) → Reader B
◌>>=◌ m f r = elim (m r) [ none ↦ none | some (a, r') ↦ f a r' ]

abbrev pub ◌>>◌ : {A B : Type 0} → Reader A → Reader B → Reader B
m >> k = m >>= λ _. k

pub bind_some :
    {A B : Type 0} (m : Reader A) (f : A → Reader B) (a : A) (r r' : Bytes)
    → m r ≡ some (a, r')
    → (m >>= f) r ≡ f a r'
bind_some m f a r r' h = ap (λ o. elim o [ none ↦ none | some (x, s) ↦ f x s ]) h

abbrev pub give : {A : Type 0} → A → Reader A
give a r = some (a, r)

-- `take`
unfoldable pub take_bytes : ℕ → Reader Bytes
take_bytes n r = if ltb (length r) n then none else some (take n r, drop n r)

unfoldable pub u8 : Reader ℕ
u8 [] = none
u8 (b ∷ r) = some (b, r)

unfoldable pub u16 : Reader ℕ
u16 (a ∷ b ∷ r) = some (a * 256 + b, r)
u16 r = none

unfoldable pub u24 : Reader ℕ
u24 (a ∷ b ∷ c ∷ r) = some ((a * 65536 + b * 256) + c, r)
u24 r = none

-- `vec(1)` and `vec(2)`
unfoldable pub vec8 : Reader Bytes
vec8 = do n ← u8; take_bytes n

unfoldable pub vec16 : Reader Bytes
vec16 = do n ← u16; take_bytes n

-- `_u16_list`; None for an odd length.
unfoldable pub u16_list : Bytes → Option (List ℕ)
u16_list [] = some []
u16_list (a ∷ []) = none
u16_list (a ∷ b ∷ bytes) = elim (u16_list bytes) [
  | none ↦ none
  | some values ↦ some ((a * 256 + b) ∷ values)
]

-- The same values as they are written.
abbrev pub word : ℕ → Bytes → Bytes
word n rest = (n / 256) ∷ (n % 256) ∷ rest

abbrev pub block8 : Bytes → Bytes → Bytes
block8 bytes rest = length bytes ∷ (bytes ++ rest)

abbrev pub block16 : Bytes → Bytes → Bytes
block16 bytes rest = word (length bytes) (bytes ++ rest)

abbrev pub words : List ℕ → Bytes
words [] = []
words (n ∷ ns) = word n (words ns)

pub take_bytes-append :
    (bytes rest : Bytes) → take_bytes (length bytes) (bytes ++ rest) ≡ some (bytes, rest)
unfolding take_bytes
take_bytes-append bytes rest =
    ground (arith, length-append bytes rest, take-length bytes rest, drop-length bytes rest)

pub u16-word : (n : ℕ) (rest : Bytes) → u16 (word n rest) ≡ some (n, rest)
unfolding u16
u16-word n rest = ap (λ v. some (v, rest)) (omega arith)

pub vec8-block8 : (bytes rest : Bytes) → vec8 (block8 bytes rest) ≡ some (bytes, rest)
unfolding vec8 u8
vec8-block8 bytes rest = take_bytes-append bytes rest

pub vec16-block16 : (bytes rest : Bytes) → vec16 (block16 bytes rest) ≡ some (bytes, rest)
unfolding vec16 u16
vec16-block16 bytes rest =
    let size : (length bytes / 256) * 256 + (length bytes % 256) ≡ length bytes = omega arith in
    rw size (take_bytes-append bytes rest)

pub u16_list-words : (ns : List ℕ) → u16_list (words ns) ≡ some ns
unfolding u16_list
u16_list-words [] = refl
u16_list-words (n ∷ ns) = rw (u16_list-words ns) (ap (λ v. some (v ∷ ns)) (omega arith))
