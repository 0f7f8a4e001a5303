-- ===== src/Tls/Wire.antt =====
-- A ClientHello as it is written, for `parse_client_hello` of src/frfw/tlsfp/clienthello.py.
use fr_os_pblk.Base.{
  ℕ, zero, suc, ◌+◌, ◌/◌, ◌%◌, ◌<◌, ◌≤◌, ◌≡◌, refl, ap, ◌∙◌, not, ◌&&◌, Option, none, some, List,
  [], ◌∷◌, ◌++◌, length, length-append, ltb, ◌==◌, nat_eq, if◌then◌else◌, if_ind, arith,
}
use fr_os_pblk.Tls.Records.{Bytes}
use fr_os_pblk.Tls.Reader.{
  u16, vec8, vec16, word, block8, block16, words, u16-word, vec16-block16, bind_some,
}
use fr_os_pblk.Tls.Hello.{
  ClientHello, Parsed, parsed, malformed, max_extensions, extension, add_extension,
  parse_extensions, parse_extension, inner, inner_list, no_bytes, set_list, in_vec16, server_names,
  protocols, note_name, server_entry,
}

abbrev pub Extension : Type 0
Extension = ℕ × Bytes

abbrev pub write_extension : Extension → Bytes → Bytes
write_extension (ext_type, contents) rest = word ext_type (block16 contents rest)

abbrev pub write_extensions : List Extension → Bytes
write_extensions [] = []
write_extensions (e ∷ es) = write_extension e (write_extensions es)

abbrev pub write_body : ℕ → Bytes → Bytes → List ℕ → Bytes → List Extension → Bytes
write_body version random session_id ciphers compression es = word version (
    random
    ++ block8 session_id
        (block16 (words ciphers) (block8 compression (block16 (write_extensions es) []))))

abbrev pub size24 : ℕ → Bytes → Bytes
size24 n rest = (n / 65536) ∷ (n / 256 % 256) ∷ (n % 256) ∷ rest

-- The handshake message of a body, with anything behind it.
abbrev pub write_message : Bytes → Bytes → Bytes
write_message body rest = 1 ∷ size24 (length body) (body ++ rest)

abbrev pub add_extensions : List Extension → ClientHello → ClientHello
add_extensions [] hello = hello
add_extensions (e ∷ es) hello = add_extensions es (add_extension hello e.0 e.1)

-- The fields that an extension's contents leave alone.
pub record SameHello (a b : ClientHello) : Type 0 where
  pub version : b.legacy_version ≡ a.legacy_version
  pub ciphers : b.ciphers ≡ a.ciphers
  pub extensions : b.extensions ≡ a.extensions

SameHello-refl : (a : ClientHello) → SameHello a a
SameHello-refl a = record { version = refl; ciphers = refl; extensions = refl }

SameHello-trans : (a b c : ClientHello) → SameHello a b → SameHello b c → SameHello a c
SameHello-trans a b c h i = record {
  version = i.version ∙ h.version;
  ciphers = i.ciphers ∙ h.ciphers;
  extensions = i.extensions ∙ h.extensions;
}

note_name-SameHello :
    (a : ClientHello) (kind : ℕ) (name : Bytes) → SameHello a (note_name a kind name)
unfolding note_name
note_name-SameHello a kind name =
    elim a.server_name
      as (λ o. SameHello a (elim o [
        | none ↦ if kind == 0 then record a { server_name = some name } else a
        | some known ↦ a
      ])) [
        | none ↦
            if_ind (SameHello a) (kind == 0) _ _
              (record { version = refl; ciphers = refl; extensions = refl }) (SameHello-refl a)
        | some known ↦ SameHello-refl a
      ]

server_names-SameHello :
    (fuel : ℕ) (bytes : Bytes) (a : ClientHello) → SameHello a (server_names fuel bytes a)
unfolding server_names
server_names-SameHello zero bytes a = SameHello-refl a
server_names-SameHello (suc fuel) [] a = SameHello-refl a
server_names-SameHello (suc fuel) (b ∷ bytes) a =
    elim (server_entry (b ∷ bytes))
      as (λ o. SameHello a (elim o [
        | none ↦ a
        | some ((kind, name), rest) ↦ server_names fuel rest (note_name a kind name)
      ])) [
        | none ↦ SameHello-refl a
        | some ((kind, name), rest) ↦
            SameHello-trans a (note_name a kind name) _ (note_name-SameHello a kind name)
              (server_names-SameHello fuel rest (note_name a kind name))
      ]

protocols-SameHello :
    (fuel : ℕ) (bytes : Bytes) (a : ClientHello) → SameHello a (protocols fuel bytes a)
unfolding protocols
protocols-SameHello zero bytes a = SameHello-refl a
protocols-SameHello (suc fuel) [] a = SameHello-refl a
protocols-SameHello (suc fuel) (b ∷ bytes) a =
    elim (vec8 (b ∷ bytes))
      as (λ o. SameHello a (elim o [
        | none ↦ a
        | some (name, rest) ↦ protocols fuel rest (record a { alpn = a.alpn ++ name ∷ [] })
      ])) [
        | none ↦ SameHello-refl a
        | some (name, rest) ↦
            let a' = record a { alpn = a.alpn ++ name ∷ [] } in
            let same : SameHello a a' = record {
              version = refl;
              ciphers = refl;
              extensions = refl;
            } in
            SameHello-trans a a' _ same (protocols-SameHello fuel rest a')
      ]

set_list-SameHello :
    (values : Option (List ℕ)) (a : ClientHello) (set : List ℕ → ClientHello)
    → ((l : List ℕ) → SameHello a (set l))
    → SameHello a (set_list values a set)
unfolding set_list
set_list-SameHello none a set h = SameHello-refl a
set_list-SameHello (some values) a set h = h values

in_vec16-SameHello :
    (bytes : Bytes) (a : ClientHello) (loop : ℕ → Bytes → ClientHello → ClientHello)
    → ((fuel : ℕ) (contents : Bytes) → SameHello a (loop fuel contents a))
    → SameHello a (in_vec16 bytes a loop)
unfolding in_vec16
in_vec16-SameHello bytes a loop h =
    elim (inner vec16 bytes)
      as (λ o.
        SameHello a (elim o [ none ↦ a | some contents ↦ loop (length contents) contents a ])) [
          | none ↦ SameHello-refl a
          | some contents ↦ h (length contents) contents
        ]

pub parse_extension-SameHello :
    (a : ClientHello) (ext_type : ℕ) (bytes : Bytes)
    → SameHello a (parse_extension a ext_type bytes)
unfolding parse_extension
parse_extension-SameHello a ext_type bytes =
    if_ind (SameHello a) ((ext_type == 0) && not (no_bytes bytes)) _ _
      (in_vec16-SameHello bytes a server_names (λ f c. server_names-SameHello f c a))
      (if_ind (SameHello a) (ext_type == 10) _ _
        (set_list-SameHello (inner_list vec16 bytes) a (λ l. record a { supported_groups = l })
          (λ l. record { version = refl; ciphers = refl; extensions = refl }))
        (if_ind (SameHello a) (ext_type == 11) _ _
          (set_list-SameHello (inner vec8 bytes) a (λ l. record a { ec_point_formats = l })
            (λ l. record { version = refl; ciphers = refl; extensions = refl }))
          (if_ind (SameHello a) (ext_type == 13) _ _
            (set_list-SameHello (inner_list vec16 bytes) a
              (λ l. record a { signature_algorithms = l })
              (λ l. record { version = refl; ciphers = refl; extensions = refl }))
            (if_ind (SameHello a) (ext_type == 43) _ _
              (set_list-SameHello (inner_list vec8 bytes) a
                (λ l. record a { supported_versions = l })
                (λ l. record { version = refl; ciphers = refl; extensions = refl }))
              (if_ind (SameHello a) ((ext_type == 16) && not (no_bytes bytes)) _ _
                (in_vec16-SameHello bytes a protocols (λ f c. protocols-SameHello f c a))
                (SameHello-refl a))))))

pub add_extension-types :
    (a : ClientHello) (ext_type : ℕ) (bytes : Bytes)
    → (add_extension a ext_type bytes).extensions ≡ a.extensions ++ ext_type ∷ []
unfolding add_extension
add_extension-types a ext_type bytes =
    let a' = record a { extensions = a.extensions ++ ext_type ∷ [] } in
    let same = parse_extension-SameHello a' ext_type bytes in same.extensions

pub add_extension-length :
    (a : ClientHello) (ext_type : ℕ) (bytes : Bytes)
    → length (add_extension a ext_type bytes).extensions ≡ length a.extensions + 1
add_extension-length a ext_type bytes =
    ap (length {A = ℕ}) (add_extension-types a ext_type bytes)
    ∙ length-append a.extensions (ext_type ∷ [])

extension-write :
    (e : Extension) (rest : Bytes) → extension (write_extension e rest) ≡ some (e, rest)
unfolding extension
extension-write (ext_type, contents) rest =
    bind_some u16 _ ext_type (write_extension (ext_type, contents) rest) (block16 contents rest)
      (u16-word ext_type (block16 contents rest))
    ∙ bind_some vec16 _ contents (block16 contents rest) rest (vec16-block16 contents rest)

few_enough :
    (n k : ℕ) (x y : Option Parsed)
    → n + suc k ≤ max_extensions
    → (if ltb max_extensions (n + 1) then x else y) ≡ y
few_enough n k x y h = ground arith

pub parse_extensions_step :
    (fuel b : ℕ) (bytes rest : Bytes) (e : Extension) (hello : ClientHello)
    → extension (b ∷ bytes) ≡ some (e, rest)
    → parse_extensions (suc fuel) (b ∷ bytes) hello ≡ (
        if ltb max_extensions (length hello.extensions + 1)
        then some malformed
        else parse_extensions fuel rest (add_extension hello e.0 e.1))
unfolding parse_extensions
parse_extensions_step fuel b bytes rest (ext_type, contents) hello h = ground (arith, h)

pub parse_extensions-write :
    (fuel : ℕ) (es : List Extension) (hello : ClientHello)
    → length (write_extensions es) < fuel
    → length hello.extensions + length es ≤ max_extensions
    → parse_extensions fuel (write_extensions es) hello ≡ some (parsed (add_extensions es hello))
parse_extensions-write zero es hello h few = ground arith
parse_extensions-write (suc fuel) [] hello h few = unfold parse_extensions in refl
parse_extensions-write (suc fuel) (e ∷ es) hello h few =
    let rest = write_extensions es in
    let added = add_extension-length hello e.0 e.1 in
    let shorter : length rest < length (write_extension e rest) =
      omega (arith, length-append e.1 rest) in
    parse_extensions_step fuel _ _ rest e hello (extension-write e rest)
    ∙ (few_enough (length hello.extensions) (length es) _ _ few
        ∙ parse_extensions-write fuel es (add_extension hello e.0 e.1) (omega arith) (omega arith))
