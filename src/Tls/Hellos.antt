-- ===== src/Tls/Hellos.antt =====
-- `parse_client_hello` of src/frfw/tlsfp/clienthello.py, on a hello that Tls/Wire writes.
use mathlib.Core.List.{append_assoc, append-nil}
use fr_os_pblk.Base.{
  ℕ, suc, ◌+◌, ◌≤◌, ◌≡◌, sym, ap, ◌∙◌, subst, none, some, List, [], ◌∷◌, ◌++◌, map, length, arith,
}
use fr_os_pblk.Tls.Records.{Bytes}
use fr_os_pblk.Tls.Reader.{
  take_bytes, u8, u16, u24, vec8, vec16, word, block8, block16, words, take_bytes-append, u16-word,
  vec8-block8, vec16-block16, u16_list-words, bind_some,
}
use fr_os_pblk.Tls.Hello.{
  ClientHello, parsed, malformed, max_extensions, new_hello, add_extension, parse_extensions,
  hello_start, hello_end, hello_body, parse_client_hello, inner, give_ciphers,
}
use fr_os_pblk.Tls.Wire.{
  Extension, write_extensions, write_body, size24, write_message, add_extensions,
  parse_extensions-write, add_extension-types,
}

hello_start-write :
    (version : ℕ) (random session_id : Bytes) (ciphers : List ℕ) (compression : Bytes)
    (es : List Extension)
    → length random ≡ 32
    → hello_start (write_body version random session_id ciphers compression es)
      ≡ some (new_hello version ciphers, block16 (write_extensions es) [])
unfolding hello_start
hello_start-write version random session_id ciphers compression es h =
    let r₄ = block16 (write_extensions es) [] in
    let r₃ = block8 compression r₄ in
    let r₂ = block16 (words ciphers) r₃ in
    let r₁ = block8 session_id r₂ in
    let taken : take_bytes 32 (random ++ r₁) ≡ some (random, r₁) =
      subst (λ n. take_bytes n (random ++ r₁) ≡ some (random, r₁)) h
        (take_bytes-append random r₁) in
    bind_some u16 _ version (word version (random ++ r₁)) (random ++ r₁)
      (u16-word version (random ++ r₁))
    ∙ (bind_some (take_bytes 32) _ random (random ++ r₁) r₁ taken
        ∙ (bind_some vec8 _ session_id r₁ r₂ (vec8-block8 session_id r₂)
            ∙ (bind_some vec16 _ (words ciphers) r₂ r₃ (vec16-block16 (words ciphers) r₃)
                ∙ (bind_some vec8 _ compression r₃ r₄ (vec8-block8 compression r₄)
                    ∙ ap (λ o. give_ciphers version o r₄) (u16_list-words ciphers)))))

u24-size24 : (n : ℕ) (rest : Bytes) → u24 (size24 n rest) ≡ some (n, rest)
unfolding u24
u24-size24 n rest = ap (λ v. some (v, rest)) (omega arith)

hello_body-write : (body rest : Bytes) → hello_body (write_message body rest) ≡ some (body, rest)
unfolding hello_body u8
hello_body-write body rest =
    bind_some u24 _ (length body) (size24 (length body) (body ++ rest)) (body ++ rest)
      (u24-size24 (length body) (body ++ rest))
    ∙ take_bytes-append body rest

inner-block16 : (contents : Bytes) → inner vec16 (block16 contents []) ≡ some contents
unfolding inner
inner-block16 contents =
    ap (λ o. elim o [ none ↦ none | some (c, r) ↦ some c ]) (vec16-block16 contents [])

hello_end-write :
    (es : List Extension) (hello : ClientHello)
    → length hello.extensions + length es ≤ max_extensions
    → hello_end hello (block16 (write_extensions es) []) ≡ some (parsed (add_extensions es hello))
unfolding hello_end
hello_end-write es hello few =
    let contents = write_extensions es in
    ap (λ o. elim o [ none ↦ some malformed | some c ↦ parse_extensions (suc (length c)) c hello ])
      (inner-block16 contents)
    ∙ parse_extensions-write (suc (length contents)) es hello (omega arith) few

parse_client_hello_steps :
    (message body rest rest' : Bytes) (hello : ClientHello)
    → hello_body message ≡ some (body, rest)
    → hello_start body ≡ some (hello, rest')
    → parse_client_hello message ≡ hello_end hello rest'
unfolding parse_client_hello
parse_client_hello_steps message body rest rest' hello h i = ground (arith, h, i)

add_extensions-types :
    (es : List Extension) (hello : ClientHello)
    → (add_extensions es hello).extensions ≡ hello.extensions ++ map (λ (e : Extension). e.0) es
add_extensions-types [] hello = sym (append-nil hello.extensions)
add_extensions-types (e ∷ es) hello =
    add_extensions-types es (add_extension hello e.0 e.1)
    ∙ (ap (λ l. l ++ map (λ (x : Extension). x.0) es) (add_extension-types hello e.0 e.1)
        ∙ append_assoc hello.extensions (e.0 ∷ []) (map (λ (x : Extension). x.0) es))

-- A ClientHello that is written field by field, with any version, 32 random bytes, any session id,
-- cipher suites, compression methods and at most 256 extensions, is parsed, whatever stands behind
-- it: the version and the cipher suites are those written, and the extensions are taken one by
-- one, in their order, from the hello without any, so that their types are those written, in order.
pub parse_client_hello-write :
    (version : ℕ) (random session_id : Bytes) (ciphers : List ℕ) (compression : Bytes)
    (es : List Extension) (rest : Bytes)
    → length random ≡ 32
    → length es ≤ max_extensions
    → (parse_client_hello
          (write_message (write_body version random session_id ciphers compression es) rest)
        ≡ some (parsed (add_extensions es (new_hello version ciphers))))
      × ((add_extensions es (new_hello version ciphers)).extensions
          ≡ map (λ (e : Extension). e.0) es)
parse_client_hello-write version random session_id ciphers compression es rest h few =
    let body = write_body version random session_id ciphers compression es in
    let hello = new_hello version ciphers in
    (
      parse_client_hello_steps (write_message body rest) body rest
            (block16 (write_extensions es) []) hello (hello_body-write body rest)
            (hello_start-write version random session_id ciphers compression es h)
          ∙ hello_end-write es hello (omega (arith, few)),
      add_extensions-types es hello,
    )
