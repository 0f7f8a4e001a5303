-- ===== src/Tls/Hello.antt =====
-- `parse_client_hello` and `_parse_extension` of src/frfw/tlsfp/clienthello.py. A server name is
-- kept as its bytes.
use fr_os_pblk.Base.{
  ℕ, zero, suc, ◌+◌, Bool, true, false, not, ◌&&◌, Option, none, some, List, [], ◌∷◌, ◌++◌, length,
  ltb, ◌==◌, nat_eq, if◌then◌else◌,
}
use fr_os_pblk.Tls.Records.{Bytes, handshake_client_hello}
use fr_os_pblk.Tls.Reader.{
  Reader, ◌>>=◌, ◌>>◌, give, take_bytes, u8, u16, u24, vec8, vec16, u16_list,
}

pub record ClientHello : Type 0 where
  pub legacy_version : ℕ
  pub ciphers : List ℕ
  pub extensions : List ℕ
  pub supported_groups : List ℕ
  pub ec_point_formats : List ℕ
  pub signature_algorithms : List ℕ
  pub supported_versions : List ℕ
  pub alpn : List Bytes
  pub server_name : Option Bytes

-- A hello, or a ParseError.
pub data Parsed : Type 0 where
  parsed : ClientHello → Parsed
  malformed : Parsed

abbrev pub max_extensions : ℕ
max_extensions = 256

abbrev pub new_hello : ℕ → List ℕ → ClientHello
new_hello version ciphers = record {
  legacy_version = version;
  ciphers = ciphers;
  extensions = [];
  supported_groups = [];
  ec_point_formats = [];
  signature_algorithms = [];
  supported_versions = [];
  alpn = [];
  server_name = none;
}

-- The contents of a vector inside an extension, None for a ParseError.
unfoldable pub inner : Reader Bytes → Bytes → Option Bytes
inner vec bytes = elim (vec bytes) [ none ↦ none | some (contents, rest) ↦ some contents ]

unfoldable pub inner_list : Reader Bytes → Bytes → Option (List ℕ)
inner_list vec bytes = elim (inner vec bytes) [ none ↦ none | some contents ↦ u16_list contents ]

-- A name of the list: its type and its bytes.
unfoldable pub server_entry : Reader (ℕ × Bytes)
server_entry = do kind ← u8; name ← vec16; give (kind, name)

unfoldable pub note_name : ClientHello → ℕ → Bytes → ClientHello
note_name hello kind name = elim hello.server_name [
  | none ↦ if kind == 0 then record hello { server_name = some name } else hello
  | some known ↦ hello
]

-- The loop over the server names; an error ends it, and what was noted stays.
unfoldable pub server_names : ℕ → Bytes → ClientHello → ClientHello
server_names zero bytes hello = hello
server_names (suc fuel) [] hello = hello
server_names (suc fuel) (b ∷ bytes) hello = elim (server_entry (b ∷ bytes)) [
  | none ↦ hello
  | some ((kind, name), rest) ↦ server_names fuel rest (note_name hello kind name)
]

-- The loop over the protocols; an error ends it, and what was appended stays.
unfoldable pub protocols : ℕ → Bytes → ClientHello → ClientHello
protocols zero bytes hello = hello
protocols (suc fuel) [] hello = hello
protocols (suc fuel) (b ∷ bytes) hello = elim (vec8 (b ∷ bytes)) [
  | none ↦ hello
  | some (name, rest) ↦ protocols fuel rest (record hello { alpn = hello.alpn ++ name ∷ [] })
]

unfoldable pub set_list : Option (List ℕ) → ClientHello → (List ℕ → ClientHello) → ClientHello
set_list none hello set = hello
set_list (some values) hello set = set values

unfoldable pub in_vec16 :
    Bytes → ClientHello → (ℕ → Bytes → ClientHello → ClientHello) → ClientHello
in_vec16 bytes hello loop = elim (inner vec16 bytes) [
  | none ↦ hello
  | some contents ↦ loop (length contents) contents hello
]

unfoldable pub no_bytes : Bytes → Bool
no_bytes [] = true
no_bytes (b ∷ bytes) = false

-- `_parse_extension`, whose ParseError the caller drops: what it leaves of the hello.
unfoldable pub parse_extension : ClientHello → ℕ → Bytes → ClientHello
parse_extension hello ext_type bytes =
    if (ext_type == 0) && not (no_bytes bytes)
    then in_vec16 bytes hello server_names
    else if ext_type == 10
    then set_list (inner_list vec16 bytes) hello (λ l. record hello { supported_groups = l })
    else if ext_type == 11
    then set_list (inner vec8 bytes) hello (λ l. record hello { ec_point_formats = l })
    else if ext_type == 13
    then set_list (inner_list vec16 bytes) hello (λ l. record hello { signature_algorithms = l })
    else if ext_type == 43
    then set_list (inner_list vec8 bytes) hello (λ l. record hello { supported_versions = l })
    else if (ext_type == 16) && not (no_bytes bytes)
    then in_vec16 bytes hello protocols
    else hello

unfoldable pub extension : Reader (ℕ × Bytes)
extension = do ext_type ← u16; bytes ← vec16; give (ext_type, bytes)

unfoldable pub add_extension : ClientHello → ℕ → Bytes → ClientHello
add_extension hello ext_type bytes =
    parse_extension (record hello { extensions = hello.extensions ++ ext_type ∷ [] }) ext_type bytes

-- The loop over the extensions, with a round of fuel for each of them.
unfoldable pub parse_extensions : ℕ → Bytes → ClientHello → Option Parsed
parse_extensions zero bytes hello = none
parse_extensions (suc fuel) [] hello = some (parsed hello)
parse_extensions (suc fuel) (b ∷ bytes) hello = elim (extension (b ∷ bytes)) [
  | none ↦ some malformed
  | some ((ext_type, contents), rest) ↦
      let next = parse_extensions fuel rest (add_extension hello ext_type contents) in
      if ltb max_extensions (length hello.extensions + 1) then some malformed else next
]

abbrev pub give_ciphers : ℕ → Option (List ℕ) → Reader ClientHello
give_ciphers version none r = none
give_ciphers version (some ciphers) r = some (new_hello version ciphers, r)

-- The fields before the extensions.
unfoldable pub hello_start : Reader ClientHello
hello_start = do
  version ← u16
  random ← take_bytes 32
  session_id ← vec8
  suites ← vec16
  compression ← vec8
  give_ciphers version (u16_list suites)

unfoldable pub hello_end : ClientHello → Bytes → Option Parsed
hello_end hello [] = some (parsed hello)
hello_end hello (b ∷ bytes) = elim (inner vec16 (b ∷ bytes)) [
  | none ↦ some malformed
  | some contents ↦ parse_extensions (suc (length contents)) contents hello
]

abbrev pub guard : Bool → Reader (Unit {0})
guard true r = some (tt, r)
guard false r = none

unfoldable pub hello_body : Reader Bytes
hello_body = do kind ← u8; guard (kind == handshake_client_hello); size ← u24; take_bytes size

unfoldable pub parse_client_hello : Bytes → Option Parsed
parse_client_hello message = elim (hello_body message) [
  | none ↦ some malformed
  | some (body, rest) ↦ elim (hello_start body) [
    | none ↦ some malformed
    | some (hello, rest') ↦ hello_end hello rest'
  ]
]
