-- ===== src/Tls/Records.antt =====
-- `handshake_from_records` of src/frfw/tlsfp/clienthello.py.
use fr_os_pblk.Base.{
  ℕ, zero, suc, ◌+◌, ◌*◌, String, Bool, true, not, ◌&&◌, ◌||◌, Option, none, some, List, [], ◌∷◌,
  ◌++◌, length, take, drop, ltb, leb, ◌==◌, nat_eq, if◌then◌else◌,
}

abbrev pub Bytes : Type 0
Bytes = List ℕ

abbrev pub tls_handshake : ℕ
tls_handshake = 22

abbrev pub handshake_client_hello : ℕ
handshake_client_hello = 1

abbrev pub max_hello_bytes : ℕ
max_hello_bytes = 16 * 1024

abbrev pub max_record_bytes : ℕ
max_record_bytes = 16384 + 2048

-- The message, None, or a ParseError.
pub data Scan : Type 0 where
  complete : Bytes → Scan
  needs_more : Scan
  refused : String → Scan

-- Where a round of the loop ends: with a result, or with the body so far and the rest of the
-- stream.
pub data Round : Type 0 where
  ended : Scan → Round
  again : Bytes → Bytes → Round

-- The size of the message that starts here; 0 while its header is not there.
unfoldable pub needed : Bytes → ℕ
needed (kind ∷ b1 ∷ b2 ∷ b3 ∷ rest) = 4 + ((b1 * 65536 + b2 * 256) + b3)
needed body = 0

unfoldable pub starts_hello : Bytes → Bool
starts_hello [] = true
starts_hello (kind ∷ rest) = kind == handshake_client_hello

-- `body += stream[pos + 5:pos + 5 + length]` and the test after it.
unfoldable pub take_record : Bytes → ℕ → Bytes → Round
take_record body n payload =
    let body' = body ++ take n payload in
    if starts_hello body' then again body' (drop n payload) else ended (refused "not a ClientHello")

-- The record is longer than what is there.
unfoldable pub cut_record : Bytes → Bytes → Round
cut_record [] payload =
    if starts_hello payload then ended needs_more else ended (refused "not a ClientHello")
cut_record (b ∷ body) payload = ended needs_more

unfoldable pub read_record : Bytes → Bytes → Round
read_record body (kind ∷ major ∷ minor ∷ hi ∷ lo ∷ payload) =
    let n = hi * 256 + lo in
    if not (kind == tls_handshake) || not (major == 3)
    then ended (refused "not a TLS handshake record")
    else if (n == 0) || ltb max_record_bytes n
    then ended (refused "bad TLS record length")
    else if ltb (length payload) n
    then cut_record body payload
    else take_record body n payload
read_record body stream = ended needs_more

unfoldable pub round : Bytes → Bytes → Round
round body stream =
    if leb 4 (length body) && ltb max_hello_bytes (needed body)
    then ended (refused "handshake message too large")
    else if leb 4 (length body) && leb (needed body) (length body)
    then ended (complete (take (needed body) body))
    else read_record body stream

-- The loop, with a round of fuel for each record.
unfoldable pub scan : ℕ → Bytes → Bytes → Option Scan
scan zero body stream = none
scan (suc fuel) body stream = elim (round body stream) [
  | ended result ↦ some result
  | again body' stream' ↦ scan fuel body' stream'
]

unfoldable pub handshake_from_records : Bytes → Option Scan
handshake_from_records stream = scan (suc (length stream)) [] stream
