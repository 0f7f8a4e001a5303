-- ===== src/Tls/Rounds.antt =====
-- A round of the loop of `handshake_from_records` in src/frfw/tlsfp/clienthello.py, over a longer
-- stream, and what it uses up.
use fr_os_pblk.Base.{
  ℕ, zero, suc, ◌+◌, ◌*◌, ◌≤◌, ◌<◌, ◌≡◌, refl, Bool, true, false, not, ◌&&◌, ◌||◌, some, [], ◌∷◌,
  ◌++◌, length, take, drop, take-append, drop-append, length-append, length-drop, ltb, leb, ◌==◌,
  nat_eq, if◌then◌else◌, arith, Bool-cases, inl, inr, ◌⊎◌, if_ind,
}
use fr_os_pblk.Tls.Records.{
  Bytes, Scan, complete, needs_more, refused, Round, ended, again, needed, starts_hello,
  take_record, cut_record, read_record, round, scan, tls_handshake, max_record_bytes,
  max_hello_bytes, handshake_client_hello,
}

-- What a round over a longer stream is: the same, unless this one asked for more.
abbrev pub Extends : Bytes → Round → Round → Type 0
Extends more (ended needs_more) r = Unit
Extends more (ended (complete message)) r = r ≡ ended (complete message)
Extends more (ended (refused why)) r = r ≡ ended (refused why)
Extends more (again body stream) r = r ≡ again body (stream ++ more)

Extends-if :
    (more : Bytes) (b : Bool) (r r' s s' : Round)
    → Extends more r s
    → Extends more r' s'
    → Extends more (if b then r else r') (if b then s else s')
Extends-if more true r r' s s' h i = h
Extends-if more false r r' s s' h i = i

Extends-take_record :
    (more body payload : Bytes) (n : ℕ)
    → n ≤ length payload
    → Extends more (take_record body n payload) (take_record body n (payload ++ more))
unfolding take_record
Extends-take_record more body payload n h =
    rw (take-append n payload more h, drop-append n payload more h)
      (Extends-if more (starts_hello (body ++ take n payload)) _ _ _ _ refl refl)

-- A record that was cut off, with more of it there.
Extends-cut_record :
    (more body payload : Bytes) (n : ℕ)
    → 0 < n
    → Extends more (cut_record body payload) (
        if ltb (length (payload ++ more)) n
        then cut_record body (payload ++ more)
        else take_record body n (payload ++ more))
unfolding cut_record take_record starts_hello
Extends-cut_record more [] [] n h = tt
Extends-cut_record more [] (b ∷ payload) zero h = ground arith
Extends-cut_record more [] (b ∷ payload) (suc n) h =
    elim (Bool-cases (b == handshake_client_hello)) [
      | inl hello ↦ rw hello tt
      | inr other ↦ rw other (if_ind (λ r. r ≡ ended (refused "not a ClientHello")) _ _ _ refl refl)
    ]
Extends-cut_record more (c ∷ body) payload n h = tt

whole_longer :
    (payload more : Bytes) (n : ℕ) → n ≤ length payload → ltb (length (payload ++ more)) n ≡ false
whole_longer payload more n h = ground (arith, length-append payload more)

-- The branches of a record whose header is there.
sized-Extends :
    (more body payload : Bytes) (n : ℕ)
    → (n == 0) ≡ false
    → Extends more
        (if ltb (length payload) n then cut_record body payload else take_record body n payload)
        (if ltb (length (payload ++ more)) n
          then cut_record body (payload ++ more)
          else take_record body n (payload ++ more))
sized-Extends more body payload n sized = elim (Bool-cases (ltb (length payload) n)) [
  | inl cut ↦
      rw cut (Extends-cut_record more body payload n (ground (arith, nat_eq.test_iff n 0, sized)))
  | inr whole ↦
      let room : n ≤ length payload = ground arith in
      rw (whole, whole_longer payload more n room) (Extends-take_record more body payload n room)
]

Extends-read_record :
    (more body stream : Bytes)
    → Extends more (read_record body stream) (read_record body (stream ++ more))
unfolding read_record
Extends-read_record more body [] = tt
Extends-read_record more body (k ∷ []) = tt
Extends-read_record more body (k ∷ a ∷ []) = tt
Extends-read_record more body (k ∷ a ∷ b ∷ []) = tt
Extends-read_record more body (k ∷ a ∷ b ∷ c ∷ []) = tt
Extends-read_record more body (k ∷ a ∷ b ∷ hi ∷ lo ∷ payload) =
    let n = hi * 256 + lo in
    Extends-if more (not (k == tls_handshake) || not (a == 3)) _ _ _ _ refl
      (elim (Bool-cases (n == 0)) [
        | inl empty ↦ rw empty refl
        | inr sized ↦ rw sized (
            Extends-if more (ltb max_record_bytes n) _ _ _ _ refl
              (sized-Extends more body payload n sized))
      ])

pub Extends-round :
    (more body stream : Bytes) → Extends more (round body stream) (round body (stream ++ more))
unfolding round
Extends-round more body stream =
    Extends-if more (leb 4 (length body) && ltb max_hello_bytes (needed body)) _ _ _ _ refl (
      Extends-if more (leb 4 (length body) && leb (needed body) (length body)) _ _ _ _ refl
        (Extends-read_record more body stream))

-- A round that goes on has used up its record's header at least.
abbrev pub Shrinks : Bytes → Round → Type 0
Shrinks stream (ended result) = Unit
Shrinks stream (again body rest) = length rest < length stream

Shrinks-if :
    (stream : Bytes) (b : Bool) (r s : Round)
    → Shrinks stream r
    → Shrinks stream s
    → Shrinks stream (if b then r else s)
Shrinks-if stream true r s h i = h
Shrinks-if stream false r s h i = i

Shrinks-cut_record : (stream body payload : Bytes) → Shrinks stream (cut_record body payload)
unfolding cut_record
Shrinks-cut_record stream [] payload = Shrinks-if stream (starts_hello payload) _ _ tt tt
Shrinks-cut_record stream (b ∷ body) payload = tt

Shrinks-read_record : (body stream : Bytes) → Shrinks stream (read_record body stream)
unfolding read_record take_record
Shrinks-read_record body [] = tt
Shrinks-read_record body (k ∷ []) = tt
Shrinks-read_record body (k ∷ a ∷ []) = tt
Shrinks-read_record body (k ∷ a ∷ b ∷ []) = tt
Shrinks-read_record body (k ∷ a ∷ b ∷ c ∷ []) = tt
Shrinks-read_record body (k ∷ a ∷ b ∷ hi ∷ lo ∷ payload) =
    let n = hi * 256 + lo in
    let stream : Bytes = k ∷ a ∷ b ∷ hi ∷ lo ∷ payload in
    let rest : Bytes = drop n payload in
    Shrinks-if stream (not (k == tls_handshake) || not (a == 3)) _ _ tt (
      Shrinks-if stream ((n == 0) || ltb max_record_bytes n) _ _ tt (
        Shrinks-if stream (ltb (length payload) n) _ _ (Shrinks-cut_record stream body payload) (
          Shrinks-if stream (starts_hello (body ++ take n payload)) _ _
            (omega (arith, length-drop n payload)) tt)))

pub Shrinks-round : (body stream : Bytes) → Shrinks stream (round body stream)
unfolding round
Shrinks-round body stream =
    Shrinks-if stream (leb 4 (length body) && ltb max_hello_bytes (needed body)) _ _ tt (
      Shrinks-if stream (leb 4 (length body) && leb (needed body) (length body)) _ _ tt
        (Shrinks-read_record body stream))

pub Round-cases :
    (r : Round)
    → ((result : Scan) × (r ≡ ended result))
      ⊎ ((body : Bytes) × (stream : Bytes) × (r ≡ again body stream))
Round-cases (ended result) = inl (result, refl)
Round-cases (again body stream) = inr (body, stream, refl)

pub scan_ended :
    (fuel : ℕ) (body stream : Bytes) (result : Scan)
    → round body stream ≡ ended result
    → scan (suc fuel) body stream ≡ some result
unfolding scan
scan_ended fuel body stream result h = ground arith

pub scan_again :
    (fuel : ℕ) (body stream body' stream' : Bytes)
    → round body stream ≡ again body' stream'
    → scan (suc fuel) body stream ≡ scan fuel body' stream'
unfolding scan
scan_again fuel body stream body' stream' h = ground arith
