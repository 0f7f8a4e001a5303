-- ===== src/Tls/Tests.antt =====
-- src/frfw/tlsfp: a small hello, cut into records and segments, and the theorems at concrete inputs.
use fr_os_pblk.Base.{
  ℕ, ◌≤◌, ◌≡◌, refl, true, false, some, List, [], ◌∷◌, ◌++◌, length, take, drop, map, arith, All,
  inl, inr, ◌⊎◌, nat_eq,
}
use fr_os_pblk.Base.Dict.{get, put, del}
use fr_os_pblk.Tls.Records.{
  Bytes, Scan, complete, needs_more, needed, starts_hello, take_record, cut_record, read_record,
  round, scan, handshake_from_records,
}
use fr_os_pblk.Tls.Scanned.{handshake_from_records-append}
use fr_os_pblk.Tls.Message.{IsMessage, handshake_from_records-IsMessage}
use fr_os_pblk.Tls.Framing.{frames, handshake_from_records-frames}
use fr_os_pblk.Tls.Hello.{
  ClientHello, server_names, protocols, new_hello, Parsed, parsed, parse_client_hello,
}
use fr_os_pblk.Tls.Wire.{Extension, write_body, write_message, add_extensions}
use fr_os_pblk.Tls.Hellos.{parse_client_hello-write}
use fr_os_pblk.Tls.Fuel.{NamesRead, ProtocolsRead, extension_loops-end}
use fr_os_pblk.Tls.Total.{IsBounded, parse_client_hello-Ends}
use fr_os_pblk.Tls.Flows.{
  Limits, waits, delivers, insert_chunk, sort_chunks, join_chunks, contiguous, set_default, oldest,
  drop_oldest, expire, finish, feed, feed_later, add_unexpired, add,
}
use fr_os_pblk.Tls.Rebuilt.{Tells}
use fr_os_pblk.Tls.Delivered.{Segment, add_all, add_all-whole_stream}
use fr_os_pblk.Tls.Room.{length-add-le}
use fr_os_pblk.Tls.Pair.{add-pair}

-- A message of seven bytes.
abbrev small : Bytes
small = 1 ∷ 0 ∷ 0 ∷ 3 ∷ 7 ∷ 8 ∷ 9 ∷ []

abbrev two_records : Bytes
two_records = frames 1 ((1 ∷ 0 ∷ []) ∷ (0 ∷ 3 ∷ 7 ∷ 8 ∷ 9 ∷ []) ∷ []) (5 ∷ [])

small-IsMessage : IsMessage small
unfolding needed starts_hello
small-IsMessage = record { header = omega arith; sized = refl; bounded = omega arith; hello = refl }

two_records_scanned : handshake_from_records two_records ≡ some (complete small)
unfolding handshake_from_records scan round read_record cut_record take_record needed starts_hello
two_records_scanned = refl

half_record_scanned : handshake_from_records (take 10 two_records) ≡ some needs_more
unfolding handshake_from_records scan round read_record cut_record take_record needed starts_hello
half_record_scanned = refl

handshake_from_records-append_example :
    (result : Scan) × (handshake_from_records two_records ≡ some result)
    × ((result ≡ needs_more)
        ⊎ ((more : Bytes) → handshake_from_records (two_records ++ more) ≡ some result))
handshake_from_records-append_example = handshake_from_records-append two_records

handshake_from_records-IsMessage_example : IsMessage small
handshake_from_records-IsMessage_example =
    handshake_from_records-IsMessage two_records small two_records_scanned

handshake_from_records-frames_example : handshake_from_records two_records ≡ some (complete small)
handshake_from_records-frames_example =
    handshake_from_records-frames 1 ((1 ∷ 0 ∷ []) ∷ (0 ∷ 3 ∷ 7 ∷ 8 ∷ 9 ∷ []) ∷ []) small [] (5 ∷ [])
      small-IsMessage ((omega arith, omega arith), ((omega arith, omega arith), tt)) refl

abbrev random_rest : Bytes
random_rest = 0 ∷ 1 ∷ 2 ∷ 3 ∷ 4 ∷ 5 ∷ 6 ∷ 7 ∷ 8 ∷ 9 ∷ 10 ∷ 11 ∷ 12 ∷ 13 ∷ 14 ∷ 15 ∷ []

abbrev random : Bytes
random = 0 ∷ 1 ∷ 2 ∷ 3 ∷ 4 ∷ 5 ∷ 6 ∷ 7 ∷ 8 ∷ 9 ∷ 10 ∷ 11 ∷ 12 ∷ 13 ∷ 14 ∷ 15 ∷ random_rest

-- The groups x25519 and secp256r1, and the name "ab".
abbrev some_extensions : List Extension
some_extensions = (10, 0 ∷ 4 ∷ 0 ∷ 29 ∷ 0 ∷ 23 ∷ []) ∷ (0, 0 ∷ 5 ∷ 0 ∷ 0 ∷ 2 ∷ 97 ∷ 98 ∷ []) ∷ []

abbrev written : Bytes
written =
    write_message (write_body 771 random (6 ∷ []) (4865 ∷ 49195 ∷ []) (0 ∷ []) some_extensions) []

parse_client_hello-write_example :
    (parse_client_hello written
      ≡ some (parsed (add_extensions some_extensions (new_hello 771 (4865 ∷ 49195 ∷ [])))))
    × ((add_extensions some_extensions (new_hello 771 (4865 ∷ 49195 ∷ []))).extensions
        ≡ 10 ∷ 0 ∷ [])
parse_client_hello-write_example =
    parse_client_hello-write 771 random (6 ∷ []) (4865 ∷ 49195 ∷ []) (0 ∷ []) some_extensions []
      refl (omega arith)

parse_client_hello-Ends_example :
    (result : Parsed) × (parse_client_hello written ≡ some result) × IsBounded result
parse_client_hello-Ends_example = parse_client_hello-Ends written

abbrev blank_hello : ClientHello
blank_hello = new_hello 771 []

-- The protocol "h2", and one that is cut off.
abbrev names : Bytes
names = 2 ∷ 104 ∷ 50 ∷ 8 ∷ 104 ∷ []

extension_loops-end_example :
    NamesRead names blank_hello (server_names 5 names blank_hello)
    × ProtocolsRead names blank_hello (protocols 5 names blank_hello)
extension_loops-end_example = extension_loops-end names blank_hello

abbrev limits : Limits
limits = record { max_flows = 2; timeout = 5000 }

-- The sequence numbers of the flow 4 wrap inside the hello.
abbrev segments : List (Segment ℕ)
segments =
    record {
      flow_key = 4;
      seq = 4294967292;
      payload = take 10 two_records;
      now = 100;
      first = true;
    }
    ∷ record { flow_key = 5; seq = 9; payload = 22 ∷ []; now = 101; first = true }
    ∷ record { flow_key = 4; seq = 6; payload = drop 10 two_records; now = 102; first = false }
    ∷ record { flow_key = 4; seq = 6; payload = drop 10 two_records; now = 103; first = false }
    ∷ []

add_all-whole_stream_example :
    All (λ (k, fed). Tells 4 4294967292 two_records k fed) (add_all limits segments [])
add_all-whole_stream_example = add_all-whole_stream 4 4294967292 two_records limits segments (
  inr (inr refl, (10, refl)),
  (inl (ground arith), (inr (inl refl, (8, refl)), (inr (inl refl, (8, refl)), tt))),
)

segments_added :
    map (λ (k, fed). fed) (add_all limits segments []) ≡ waits ∷ waits ∷ delivers small ∷ waits ∷ []
unfolding add_all add expire add_unexpired drop_oldest oldest finish feed feed_later set_default
    contiguous sort_chunks insert_chunk join_chunks get put del handshake_from_records scan round
    read_record cut_record take_record needed starts_hello
segments_added = refl

length-add-le_example : length (add {K = ℕ} limits 7 0 (22 ∷ []) 50 true []).0 ≤ 2
length-add-le_example =
    length-add-le {K = ℕ} limits 7 0 (22 ∷ []) 50 true [] (omega arith) (omega arith)

add-pair_example :
    ((add {K = ℕ} limits 4 4294967292 (take 10 two_records) 100 true []).1 ≡ waits)
    × (add {K = ℕ} limits 4 6
          (drop 10 two_records)
          200
          false
          (add {K = ℕ} limits 4 4294967292 (take 10 two_records) 100 true []).0
        ≡ ([], delivers small))
add-pair_example =
    add-pair {K = ℕ} limits 4 4294967292 100 200 (take 10 two_records) (drop 10 two_records) small
      (omega arith) (omega arith) (omega arith) (omega arith) (omega arith) half_record_scanned
      two_records_scanned
