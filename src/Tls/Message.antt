-- ===== src/Tls/Message.antt =====
-- The messages that `handshake_from_records` of src/frfw/tlsfp/clienthello.py gives.
use fr_os_pblk.Base.{
  ℕ, ◌+◌, ◌*◌, ◌≤◌, ◌<◌, ◌≡◌, refl, sym, ap, ◌∙◌, subst, Bool, true, not, ◌&&◌, ◌||◌, some, [], ◌∷◌,
  ◌++◌, length, take, drop, take-drop, length-take, ltb, leb, ◌==◌, nat_eq, if◌then◌else◌, arith,
  if_ind, if_ind_eq, Bool-cases, inl, inr,
}
use fr_os_pblk.Tls.Records.{
  Bytes, Scan, complete, needs_more, refused, Round, ended, again, needed, starts_hello,
  take_record, cut_record, read_record, round, handshake_from_records, tls_handshake,
  max_record_bytes, max_hello_bytes,
}
use fr_os_pblk.Tls.Scanned.{Scans, stops, goes, handshake_from_records-Scans}

-- A ClientHello by its first byte, as long as its header says, and not too long.
pub record IsMessage (m : Bytes) : Type 0 where
  pub header : 4 ≤ length m
  pub sized : needed m ≡ length m
  pub bounded : length m ≤ max_hello_bytes
  pub hello : starts_hello m ≡ true

pub needed-append : (xs ys : Bytes) → 4 ≤ length xs → needed (xs ++ ys) ≡ needed xs
unfolding needed
needed-append [] ys h = ground arith
needed-append (a ∷ []) ys h = ground arith
needed-append (a ∷ b ∷ []) ys h = ground arith
needed-append (a ∷ b ∷ c ∷ []) ys h = ground arith
needed-append (a ∷ b ∷ c ∷ d ∷ xs) ys h = refl

pub starts_hello-append :
    (xs ys : Bytes) → 0 < length xs → starts_hello (xs ++ ys) ≡ starts_hello xs
unfolding starts_hello
starts_hello-append [] ys h = ground arith
starts_hello-append (a ∷ xs) ys h = refl

-- The message that a round takes out of a body that starts like a hello.
taken-IsMessage :
    (body : Bytes)
    → starts_hello body ≡ true
    → 4 ≤ length body
    → 4 ≤ needed body
    → needed body ≤ max_hello_bytes
    → needed body ≤ length body
    → IsMessage (take (needed body) body)
taken-IsMessage body hello four header bounded there =
    let m = take (needed body) body in
    let size : length m ≡ needed body = ground (arith, length-take (needed body) body, there) in
    let whole : m ++ drop (needed body) body ≡ body = take-drop (needed body) body in
    record {
      header = omega (arith, size);
      sized =
          sym (needed-append m (drop (needed body) body) (omega (arith, size)))
          ∙ (ap needed whole ∙ sym size);
      bounded = omega (arith, size);
      hello =
          sym (starts_hello-append m (drop (needed body) body) (omega (arith, size)))
          ∙ (ap starts_hello whole ∙ hello);
    }

-- What a round leaves of a body that starts like a hello.
abbrev Keeps : Round → Type 0
Keeps (ended (complete m)) = IsMessage m
Keeps (ended needs_more) = Unit
Keeps (ended (refused why)) = Unit
Keeps (again body stream) = starts_hello body ≡ true

Keeps-if : (b : Bool) (r s : Round) → Keeps r → Keeps s → Keeps (if b then r else s)
Keeps-if b r s hr hs = if_ind Keeps b r s hr hs

Keeps-take_record : (body payload : Bytes) (n : ℕ) → Keeps (take_record body n payload)
unfolding take_record
Keeps-take_record body payload n = elim (Bool-cases (starts_hello (body ++ take n payload))) [
  | inl hello ↦ rw hello hello
  | inr other ↦ rw other tt
]

Keeps-cut_record : (body payload : Bytes) → Keeps (cut_record body payload)
unfolding cut_record
Keeps-cut_record [] payload = Keeps-if (starts_hello payload) _ _ tt tt
Keeps-cut_record (b ∷ body) payload = tt

Keeps-read_record : (body stream : Bytes) → Keeps (read_record body stream)
unfolding read_record
Keeps-read_record body [] = tt
Keeps-read_record body (k ∷ []) = tt
Keeps-read_record body (k ∷ a ∷ []) = tt
Keeps-read_record body (k ∷ a ∷ b ∷ []) = tt
Keeps-read_record body (k ∷ a ∷ b ∷ c ∷ []) = tt
Keeps-read_record body (k ∷ a ∷ b ∷ hi ∷ lo ∷ payload) =
    let n = hi * 256 + lo in
    Keeps-if (not (k == tls_handshake) || not (a == 3)) _ _ tt (
      Keeps-if ((n == 0) || ltb max_record_bytes n) _ _ tt (
        Keeps-if (ltb (length payload) n) _ _ (Keeps-cut_record body payload)
          (Keeps-take_record body payload n)))

needed-header : (body : Bytes) → 4 ≤ length body → 4 ≤ needed body
unfolding needed
needed-header [] h = ground arith
needed-header (a ∷ []) h = ground arith
needed-header (a ∷ b ∷ []) h = ground arith
needed-header (a ∷ b ∷ c ∷ []) h = ground arith
needed-header (a ∷ b ∷ c ∷ d ∷ xs) h = omega arith

Keeps-round : (body stream : Bytes) → starts_hello body ≡ true → Keeps (round body stream)
unfolding round
Keeps-round body stream hello =
    if_ind_eq Keeps (leb 4 (length body) && ltb max_hello_bytes (needed body)) _ _ (λ large. tt)
      (λ small.
        if_ind_eq Keeps (leb 4 (length body) && leb (needed body) (length body)) _ _
          (λ there.
            let four : 4 ≤ length body = ground arith in
            taken-IsMessage body hello four (needed-header body four) (ground arith) (ground arith))
          (λ short. Keeps-read_record body stream))

Scans-IsMessage :
    (m : Bytes) {body stream : Bytes} {result : Scan}
    → result ≡ complete m
    → starts_hello body ≡ true
    → Scans body stream result
    → IsMessage m
Scans-IsMessage m same hello (stops {body} {stream} {result} ends) =
    subst Keeps (ends ∙ ap ended same) (Keeps-round body stream hello)
Scans-IsMessage m same hello (goes {body} {stream} {body'} {stream'} on rest) =
    Scans-IsMessage m same (subst Keeps on (Keeps-round body stream hello)) rest

-- A message that is taken out of a stream starts with the type of a ClientHello, is as long as its
-- three length bytes say, with the four bytes of its header, and is at most 16384 bytes long.
pub handshake_from_records-IsMessage :
    (stream m : Bytes) → handshake_from_records stream ≡ some (complete m) → IsMessage m
unfolding starts_hello
handshake_from_records-IsMessage stream m h =
    Scans-IsMessage m refl refl (handshake_from_records-Scans stream (complete m) h)
