-- ===== src/Tls/Fuel.antt =====
-- The loops of `_parse_extension` in src/frfw/tlsfp/clienthello.py, and their fuel.
use fr_os_pblk.Base.{
  ℕ, zero, suc, ◌+◌, ◌*◌, ◌≤◌, ◌<◌, ◌≡◌, sym, subst, none, some, [], ◌∷◌, ◌++◌, length, arith,
  Option-cases, inl, inr, nat_eq,
}
use fr_os_pblk.Tls.Records.{Bytes}
use fr_os_pblk.Tls.Reader.{take_bytes, u8, u16, vec8, vec16}
use fr_os_pblk.Tls.Hello.{ClientHello, server_entry, note_name, server_names, protocols}
use fr_os_pblk.Tls.Total.{length_left, take_bytes-left, left_paired}

vec8-left : (b : ℕ) (bytes : Bytes) → length_left (length bytes) (vec8 (b ∷ bytes)) ≤ length bytes
unfolding vec8 u8
vec8-left b bytes = take_bytes-left b bytes

server_entry-left :
    (b : ℕ) (bytes : Bytes) → length_left (length bytes) (server_entry (b ∷ bytes)) ≤ length bytes
unfolding server_entry u8 u16 vec16
server_entry-left b [] = omega arith
server_entry-left b (c ∷ []) = omega arith
server_entry-left b (c ∷ d ∷ bytes) =
    left_paired (length bytes) (length (c ∷ d ∷ bytes)) b (take_bytes (c * 256 + d) bytes)
      (omega arith) (omega (arith, take_bytes-left (c * 256 + d) bytes))

-- A finite run of the rounds of the loop over the names: what each round leaves is shorter, and the
-- run ends where the bytes end or an entry is cut off.
pub data NamesRead : Bytes → ClientHello → ClientHello → Type 0 where
  names_end : {hello : ClientHello} → NamesRead [] hello hello
  names_cut :
      {bytes : Bytes}
      → {hello : ClientHello} → server_entry bytes ≡ none
      → NamesRead bytes hello hello
  names_next :
      {bytes rest : Bytes}
      → {e : ℕ × Bytes} → {hello result : ClientHello} → server_entry bytes ≡ some (e, rest)
      → length rest < length bytes
      → NamesRead rest (note_name hello e.0 e.1) result
      → NamesRead bytes hello result

-- The same of the loop over the protocols.
pub data ProtocolsRead : Bytes → ClientHello → ClientHello → Type 0 where
  protocols_end : {hello : ClientHello} → ProtocolsRead [] hello hello
  protocols_cut :
      {bytes : Bytes} → {hello : ClientHello} → vec8 bytes ≡ none → ProtocolsRead bytes hello hello
  protocols_next :
      {bytes rest name : Bytes}
      → {hello result : ClientHello} → vec8 bytes ≡ some (name, rest)
      → length rest < length bytes
      → ProtocolsRead rest (record hello { alpn = hello.alpn ++ name ∷ [] }) result
      → ProtocolsRead bytes hello result

protocols_stop :
    (fuel b : ℕ) (bytes : Bytes) (hello : ClientHello)
    → vec8 (b ∷ bytes) ≡ none
    → protocols (suc fuel) (b ∷ bytes) hello ≡ hello
unfolding protocols
protocols_stop fuel b bytes hello h = ground (arith, h)

protocols_step :
    (fuel b : ℕ) (bytes : Bytes) (hello : ClientHello) (e : Bytes) (rest : Bytes)
    → vec8 (b ∷ bytes) ≡ some (e, rest)
    → protocols (suc fuel) (b ∷ bytes) hello
      ≡ protocols fuel rest (record hello { alpn = hello.alpn ++ e ∷ [] })
unfolding protocols
protocols_step fuel b bytes hello e rest h = ground (arith, h)

protocols-ProtocolsRead :
    (fuel : ℕ) (bytes : Bytes) (hello : ClientHello)
    → length bytes ≤ fuel
    → ProtocolsRead bytes hello (protocols fuel bytes hello)
unfolding protocols
protocols-ProtocolsRead zero [] hello h = protocols_end
protocols-ProtocolsRead (suc fuel) [] hello h = protocols_end
protocols-ProtocolsRead zero (b ∷ bytes) hello h = ground arith
protocols-ProtocolsRead (suc fuel) (b ∷ bytes) hello h = elim (Option-cases (vec8 (b ∷ bytes))) [
  | inl short ↦
      subst (ProtocolsRead (b ∷ bytes) hello) (sym (protocols_stop fuel b bytes hello short))
        (protocols_cut short)
  | inr ((e, rest), there) ↦
      let left : length rest ≤ length bytes =
        subst (λ o. length_left (length bytes) o ≤ length bytes) there (vec8-left b bytes) in
      subst (ProtocolsRead (b ∷ bytes) hello) (sym (protocols_step fuel b bytes hello e rest there))
        (protocols_next there (omega arith) (
          protocols-ProtocolsRead fuel rest (record hello { alpn = hello.alpn ++ e ∷ [] })
            (omega arith)))
]

server_names_stop :
    (fuel b : ℕ) (bytes : Bytes) (hello : ClientHello)
    → server_entry (b ∷ bytes) ≡ none
    → server_names (suc fuel) (b ∷ bytes) hello ≡ hello
unfolding server_names
server_names_stop fuel b bytes hello h = ground (arith, h)

server_names_step :
    (fuel b : ℕ) (bytes : Bytes) (hello : ClientHello) (e : ℕ × Bytes) (rest : Bytes)
    → server_entry (b ∷ bytes) ≡ some (e, rest)
    → server_names (suc fuel) (b ∷ bytes) hello ≡ server_names fuel rest (note_name hello e.0 e.1)
unfolding server_names
server_names_step fuel b bytes hello e rest h = ground (arith, h)

server_names-NamesRead :
    (fuel : ℕ) (bytes : Bytes) (hello : ClientHello)
    → length bytes ≤ fuel
    → NamesRead bytes hello (server_names fuel bytes hello)
unfolding server_names
server_names-NamesRead zero [] hello h = names_end
server_names-NamesRead (suc fuel) [] hello h = names_end
server_names-NamesRead zero (b ∷ bytes) hello h = ground arith
server_names-NamesRead (suc fuel) (b ∷ bytes) hello h =
    elim (Option-cases (server_entry (b ∷ bytes))) [
      | inl short ↦
          subst (NamesRead (b ∷ bytes) hello) (sym (server_names_stop fuel b bytes hello short))
            (names_cut short)
      | inr ((e, rest), there) ↦
          let left : length rest ≤ length bytes =
            subst (λ o. length_left (length bytes) o ≤ length bytes) there
              (server_entry-left b bytes) in
          subst (NamesRead (b ∷ bytes) hello)
            (sym (server_names_step fuel b bytes hello e rest there))
            (names_next there (omega arith)
              (server_names-NamesRead fuel rest (note_name hello e.0 e.1) (omega arith)))
    ]

-- On any bytes, with one unit of fuel for each byte: what the loops over the names and over the
-- protocols give is what a finite run of their rounds gives, each round on fewer bytes than the one
-- before, that ends where the bytes end or an entry is cut off, and not for want of fuel.
pub extension_loops-end :
    (bytes : Bytes) (hello : ClientHello)
    → NamesRead bytes hello (server_names (length bytes) bytes hello)
      × ProtocolsRead bytes hello (protocols (length bytes) bytes hello)
extension_loops-end bytes hello = (
  server_names-NamesRead (length bytes) bytes hello (omega arith),
  protocols-ProtocolsRead (length bytes) bytes hello (omega arith),
)
