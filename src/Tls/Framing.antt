-- ===== src/Tls/Framing.antt =====
-- `handshake_from_records` of src/frfw/tlsfp/clienthello.py, on a message cut into records.
use mathlib.Core.List.{append_assoc}
use fr_os_pblk.Base.{
  ℕ, ◌+◌, ◌*◌, ◌/◌, ◌%◌, ◌≤◌, ◌<◌, ◌≡◌, sym, ap, ◌∙◌, true, some, List, [], ◌∷◌, ◌++◌, length, take,
  take-append, take-length, drop-length, length-append, nat_eq, arith, inl, inr, ◌⊎◌, All,
}
use fr_os_pblk.Tls.Records.{
  Bytes, complete, ended, again, needed, starts_hello, take_record, read_record, round,
  handshake_from_records, max_record_bytes,
}
use fr_os_pblk.Tls.Scanned.{Scans, stops, goes, Scans-handshake_from_records}
use fr_os_pblk.Tls.Message.{IsMessage, needed-append, starts_hello-append}

-- A record of a TLS handshake, of any minor version.
abbrev pub frame : ℕ → Bytes → Bytes → Bytes
frame minor chunk rest =
    22 ∷ 3 ∷ minor ∷ (length chunk / 256) ∷ (length chunk % 256) ∷ (chunk ++ rest)

abbrev pub frames : ℕ → List Bytes → Bytes → Bytes
frames minor [] rest = rest
frames minor (chunk ∷ chunks) rest = frame minor chunk (frames minor chunks rest)

abbrev pub concat : List Bytes → Bytes
concat [] = []
concat (chunk ∷ chunks) = chunk ++ concat chunks

abbrev pub FitsRecord : Bytes → Type 0
FitsRecord chunk = (0 < length chunk) × (length chunk ≤ max_record_bytes)

le_cases : (a b : ℕ) → (a ≤ b) ⊎ (b < a)
le_cases a b = ground arith

module _ (m after : Bytes) (v : IsMessage m) where
  needed_so_far :
      (body rest : Bytes) → body ++ rest ≡ m ++ after → 4 ≤ length body → needed body ≡ length m
  needed_so_far body rest h four =
      sym (needed-append body rest four)
      ∙ (ap needed h ∙ (needed-append m after v.header ∙ v.sized))

  round_done :
      (body rest stream : Bytes)
      → body ++ rest ≡ m ++ after
      → length m ≤ length body
      → round body stream ≡ ended (complete m)
  unfolding round
  round_done body rest stream h long =
      let four : 4 ≤ length body = omega (arith, v.header) in
      let size = needed_so_far body rest h four in
      let taken : take (length m) body ≡ m =
        sym (take-append (length m) body rest long)
        ∙ (ap (take (length m)) h ∙ take-length m after) in
      rw (size) (ground (arith, four, long, v.bounded, taken))

  round_unready :
      (body rest stream : Bytes)
      → body ++ rest ≡ m ++ after
      → length body < length m
      → round body stream ≡ read_record body stream
  unfolding round
  round_unready body rest stream h short = elim (le_cases 4 (length body)) [
    | inl four ↦
        let size = needed_so_far body rest h four in rw size (ground (arith, short, v.bounded))
    | inr header ↦ ground (arith, header)
  ]

  read_record_framed :
      (minor : ℕ) (body chunk rest : Bytes)
      → FitsRecord chunk
      → starts_hello (body ++ chunk) ≡ true
      → read_record body (frame minor chunk rest) ≡ again (body ++ chunk) rest
  unfolding read_record take_record
  read_record_framed minor body chunk rest (some_bytes, fits) hello =
      let size : (length chunk / 256) * 256 + (length chunk % 256) ≡ length chunk = omega arith in
      rw size (
        ground
          (arith, take-length chunk rest, drop-length chunk rest, length-append chunk rest, hello))

  frames-Scans :
      (minor : ℕ) (chunks : List Bytes) (body junk : Bytes)
      → All FitsRecord chunks
      → body ++ concat chunks ≡ m ++ after
      → Scans body (frames minor chunks junk) (complete m)
  frames-Scans minor [] body junk fits h = stops (
      round_done body [] junk h
        (omega (arith, length-append body [], length-append m after, ap (length {A = ℕ}) h)))
  frames-Scans minor (chunk ∷ chunks) body junk (fit, fits) h =
      elim (le_cases (length m) (length body)) [
        | inl long ↦ stops (round_done body (concat (chunk ∷ chunks)) _ h long)
        | inr short ↦
            let next : (body ++ chunk) ++ concat chunks ≡ m ++ after =
              append_assoc body chunk (concat chunks) ∙ h in
            let starts : starts_hello (body ++ chunk) ≡ true =
              sym (
                starts_hello-append (body ++ chunk) (concat chunks)
                  (omega (arith, length-append body chunk, fit.0)))
              ∙ (ap starts_hello next
                  ∙ (starts_hello-append m after (omega (arith, v.header)) ∙ v.hello)) in
            goes
              (round_unready body (concat (chunk ∷ chunks)) _ h short
                ∙ read_record_framed minor body chunk (frames minor chunks junk) fit starts)
              (frames-Scans minor chunks (body ++ chunk) junk fits next)
      ]

-- However a message is cut into records of the protocol, of any minor version, none empty and
-- none over the limit, also with more bytes in the last one and anything behind it: the message is
-- taken out as it was.
pub handshake_from_records-frames :
    (minor : ℕ) (chunks : List Bytes) (m after junk : Bytes)
    → IsMessage m
    → All FitsRecord chunks
    → concat chunks ≡ m ++ after
    → handshake_from_records (frames minor chunks junk) ≡ some (complete m)
handshake_from_records-frames minor chunks m after junk v fits h =
    Scans-handshake_from_records (frames minor chunks junk) (complete m)
      (frames-Scans m after v minor chunks [] junk fits h)
