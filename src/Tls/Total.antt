-- ===== src/Tls/Total.antt =====
-- `parse_client_hello` of src/frfw/tlsfp/clienthello.py, on any bytes.
use fr_os_pblk.Base.{
  ℕ, zero, suc, ◌+◌, ◌*◌, ◌<◌, ◌≤◌, ◌≡◌, refl, ap, ◌∙◌, subst, Option, none, some, List, [], ◌∷◌,
  length, length-drop, ltb, if◌then◌else◌, arith, Bool-cases, Option-cases, inl, inr, ◌⊎◌,
}
use fr_os_pblk.Tls.Records.{Bytes}
use fr_os_pblk.Tls.Reader.{Reader, ◌>>=◌, give, take_bytes, u16, vec8, vec16, u16_list}
use fr_os_pblk.Tls.Hello.{
  ClientHello, Parsed, parsed, malformed, max_extensions, extension, add_extension,
  parse_extensions, hello_start, hello_end, hello_body, parse_client_hello, inner, give_ciphers,
}
use fr_os_pblk.Tls.Wire.{parse_extensions_step, add_extension-length}

-- A hello without more extensions than are allowed.
abbrev pub IsBounded : Parsed → Type 0
IsBounded (parsed hello) = length hello.extensions ≤ max_extensions
IsBounded malformed = Unit

abbrev pub length_left : {A : Type 0} → ℕ → Option (A × Bytes) → ℕ
length_left n none = n
length_left n (some (a, r)) = length r

pub take_bytes-left : (n : ℕ) (r : Bytes) → length_left (length r) (take_bytes n r) ≤ length r
unfolding take_bytes
take_bytes-left n r = elim (Bool-cases (ltb (length r) n)) [
  | inl short ↦ rw short (omega arith)
  | inr enough ↦ rw enough (omega (arith, length-drop n r))
]

pub left_paired :
    (n m k : ℕ) (o : Option (Bytes × Bytes))
    → n ≤ m
    → length_left n o ≤ m
    → length_left {A = ℕ × Bytes} m (elim o [ none ↦ none | some (a, r) ↦ give (k, a) r ]) ≤ m
left_paired n m k none le h = omega arith
left_paired n m k (some (a, r)) le h = h

-- What an extension leaves is shorter than what it was read from.
extension-left :
    (b : ℕ) (bytes : Bytes) → length_left (length bytes) (extension (b ∷ bytes)) ≤ length bytes
unfolding extension u16 vec16
extension-left b [] = omega arith
extension-left b (c ∷ []) = omega arith
extension-left b (c ∷ d ∷ []) = omega arith
extension-left b (c ∷ d ∷ e ∷ bytes) =
    left_paired (length bytes) (length (c ∷ d ∷ e ∷ bytes)) (b * 256 + c)
      (take_bytes (d * 256 + e) bytes) (omega arith)
      (omega (arith, take_bytes-left (d * 256 + e) bytes))

parse_extensions_stop :
    (fuel b : ℕ) (bytes : Bytes) (hello : ClientHello)
    → extension (b ∷ bytes) ≡ none
    → parse_extensions (suc fuel) (b ∷ bytes) hello ≡ some malformed
unfolding parse_extensions
parse_extensions_stop fuel b bytes hello h = ground (arith, h)

if_over :
    (n : ℕ) (x y : Option Parsed) → max_extensions < n → (if ltb max_extensions n then x else y) ≡ x
if_over n x y h = ground arith

if_within :
    (n : ℕ) (x y : Option Parsed) → n ≤ max_extensions → (if ltb max_extensions n then x else y) ≡ y
if_within n x y h = ground arith

abbrev Ends : Option Parsed → Type 0
Ends o = (result : Parsed) × (o ≡ some result) × IsBounded result

within_or_over : (n : ℕ) → (n ≤ max_extensions) ⊎ (max_extensions < n)
within_or_over n = ground arith

parse_extensions-Ends :
    (fuel : ℕ) (bytes : Bytes) (hello : ClientHello)
    → length bytes < fuel
    → length hello.extensions ≤ max_extensions
    → Ends (parse_extensions fuel bytes hello)
parse_extensions-Ends zero bytes hello h few = ground arith
parse_extensions-Ends (suc fuel) [] hello h few =
    unfold parse_extensions in (parsed hello, refl, few)
parse_extensions-Ends (suc fuel) (b ∷ bytes) hello h few =
    elim (Option-cases (extension (b ∷ bytes))) [
      | inl short ↦ (malformed, parse_extensions_stop fuel b bytes hello short, tt)
      | inr ((e, rest), there) ↦
          let left : length rest ≤ length bytes =
            subst (λ o. length_left (length bytes) o ≤ length bytes) there
              (extension-left b bytes) in
          let step = parse_extensions_step fuel b bytes rest e hello there in
          elim (within_or_over (length hello.extensions + 1)) [
            | inr over ↦ (malformed, step ∙ if_over _ _ _ over, tt)
            | inl within ↦
                let added = add_extension-length hello e.0 e.1 in
                let (result, ends, bound) =
                  parse_extensions-Ends fuel rest (add_extension hello e.0 e.1) (omega arith)
                    (omega arith) in
                (result, step ∙ (if_within _ _ _ within ∙ ends), bound)
          ]
    ]

hello_end-Ends :
    (hello : ClientHello) (bytes : Bytes)
    → length hello.extensions ≤ max_extensions
    → Ends (hello_end hello bytes)
unfolding hello_end
hello_end-Ends hello [] few = (parsed hello, refl, few)
hello_end-Ends hello (b ∷ bytes) few =
    elim (inner vec16 (b ∷ bytes))
      as (λ o. Ends (elim o [
        | none ↦ some malformed
        | some contents ↦ parse_extensions (suc (length contents)) contents hello
      ])) [
        | none ↦ (malformed, refl, tt)
        | some contents ↦
            parse_extensions-Ends (suc (length contents)) contents hello (omega arith) few
      ]

-- The hello that `hello_start` gives has no extensions yet.
abbrev StartsEmpty : Option (ClientHello × Bytes) → Type 0
StartsEmpty none = Unit
StartsEmpty (some (hello, rest)) = hello.extensions ≡ []

StartsEmpty-bind :
    {A : Type 0} (m : Reader A) (f : A → Reader ClientHello) (r : Bytes)
    → ((a : A) (r' : Bytes) → StartsEmpty (f a r'))
    → StartsEmpty ((m >>= f) r)
StartsEmpty-bind m f r h =
    elim (m r) as (λ o. StartsEmpty (elim o [ none ↦ none | some (a, r') ↦ f a r' ])) [
      | none ↦ tt
      | some (a, r') ↦ h a r'
    ]

StartsEmpty-give :
    (version : ℕ) (o : Option (List ℕ)) (r : Bytes) → StartsEmpty (give_ciphers version o r)
StartsEmpty-give version none r = tt
StartsEmpty-give version (some ciphers) r = refl

hello_start-StartsEmpty : (r : Bytes) → StartsEmpty (hello_start r)
unfolding hello_start
hello_start-StartsEmpty r = StartsEmpty-bind u16 _ r (λ version r₁.
    StartsEmpty-bind (take_bytes 32) _ r₁ (λ random r₂. StartsEmpty-bind vec8 _ r₂ (λ session_id r₃.
      StartsEmpty-bind vec16 _ r₃ (λ suites r₄.
        StartsEmpty-bind vec8 _ r₄
          (λ compression r₅. StartsEmpty-give version (u16_list suites) r₅)))))

started :
    (o : Option (ClientHello × Bytes))
    → StartsEmpty o
    → Ends (elim o [ none ↦ some malformed | some (hello, rest') ↦ hello_end hello rest' ])
started none h = (malformed, refl, tt)
started (some (hello, rest)) h = hello_end-Ends hello rest (omega (arith, ap (length {A = ℕ}) h))

-- Whatever bytes arrive, parsing ends within the fuel that it is given, with a ParseError or a
-- hello of at most 256 extensions.
pub parse_client_hello-Ends :
    (message : Bytes)
    → (result : Parsed) × (parse_client_hello message ≡ some result) × IsBounded result
unfolding parse_client_hello
parse_client_hello-Ends message =
    elim (hello_body message)
      as (λ o. Ends (elim o [
        | none ↦ some malformed
        | some (body, rest) ↦ elim (hello_start body) [
          | none ↦ some malformed
          | some (hello, rest') ↦ hello_end hello rest'
        ]
      ])) [
        | none ↦ (malformed, refl, tt)
        | some (body, rest) ↦ started (hello_start body) (hello_start-StartsEmpty body)
      ]
