-- ===== src/Tls/Scanned.antt =====
-- The loop of `handshake_from_records` in src/frfw/tlsfp/clienthello.py, without fuel.
use fr_os_pblk.Base.{
  ℕ, zero, suc, ◌<◌, ◌≡◌, refl, sym, ap, ◌∙◌, subst, none, some, [], ◌++◌, length, nat_eq, arith,
  inl, inr, ◌⊎◌,
}
use fr_os_pblk.Tls.Records.{
  Bytes, Scan, complete, needs_more, refused, Round, ended, again, round, scan,
  handshake_from_records,
}
use fr_os_pblk.Tls.Rounds.{
  Round-cases, scan_ended, scan_again, Extends, Shrinks, Extends-round, Shrinks-round,
}

-- The rounds of the loop, without fuel.
pub data Scans : Bytes → Bytes → Scan → Type 0 where
  stops :
      {body stream : Bytes} {result : Scan}
      → round body stream ≡ ended result
      → Scans body stream result
  goes :
      {body stream body' stream' : Bytes} {result : Scan}
      → round body stream ≡ again body' stream'
      → Scans body' stream' result
      → Scans body stream result

again-shrinks :
    (body stream body' stream' : Bytes)
    → round body stream ≡ again body' stream'
    → length stream' < length stream
again-shrinks body stream body' stream' h = subst (Shrinks stream) h (Shrinks-round body stream)

Scans-exists :
    (fuel : ℕ) (body stream : Bytes)
    → length stream < fuel
    → (result : Scan) × Scans body stream result
Scans-exists zero body stream h = ground arith
Scans-exists (suc fuel) body stream h = elim (Round-cases (round body stream)) [
  | inl (result, ends) ↦ (result, stops ends)
  | inr (body', stream', on) ↦
      let shrinks = again-shrinks body stream body' stream' on in
      let (result, rest) = Scans-exists fuel body' stream' (omega arith) in (result, goes on rest)
]

-- With a round for each byte and one more, the loop gives the result of its rounds.
Scans-scan :
    (fuel : ℕ) {body stream : Bytes} {result : Scan}
    → Scans body stream result
    → length stream < fuel
    → scan fuel body stream ≡ some result
Scans-scan zero rounds h = ground arith
Scans-scan (suc fuel) (stops {body} {stream} {result} ends) h =
    scan_ended fuel body stream result ends
Scans-scan (suc fuel) (goes {body} {stream} {body'} {stream'} on rest) h =
    let shrinks = again-shrinks body stream body' stream' on in
    scan_again fuel body stream body' stream' on ∙ Scans-scan fuel rest (omega arith)

pub Scans-handshake_from_records :
    (stream : Bytes) (result : Scan)
    → Scans [] stream result
    → handshake_from_records stream ≡ some result
unfolding handshake_from_records
Scans-handshake_from_records stream result rounds =
    Scans-scan (suc (length stream)) rounds (omega arith)

some_eq : {r r' : Scan} → some r ≡ some r' → r ≡ r'
some_eq {r} h = ap (λ o. elim o [ none ↦ r | some x ↦ x ]) h

pub handshake_from_records-Scans :
    (stream : Bytes) (result : Scan)
    → handshake_from_records stream ≡ some result
    → Scans [] stream result
handshake_from_records-Scans stream result h =
    let (found, rounds) = Scans-exists (suc (length stream)) [] stream (omega arith) in
    subst (Scans [] stream) (some_eq (sym (Scans-handshake_from_records stream found rounds) ∙ h))
      rounds

abbrev pub IsFinal : Scan → Type 0
IsFinal (complete message) = Unit
IsFinal needs_more = ⊥
IsFinal (refused why) = Unit

ended-final :
    (more : Bytes) (result : Scan) (r : Round)
    → IsFinal result
    → Extends more (ended result) r
    → r ≡ ended result
ended-final more (complete message) r f h = h
ended-final more needs_more r f h = absurd f
ended-final more (refused why) r f h = h

Scans-append :
    (more : Bytes) {body stream : Bytes} {result : Scan}
    → IsFinal result
    → Scans body stream result
    → Scans body (stream ++ more) result
Scans-append more f (stops {body} {stream} {result} ends) = stops (
    ended-final more result _ f (
      subst (λ r. Extends more r (round body (stream ++ more))) ends
        (Extends-round more body stream)))
Scans-append more f (goes {body} {stream} {body'} {stream'} on rest) =
    goes
      (subst (λ r. Extends more r (round body (stream ++ more))) on
        (Extends-round more body stream))
      (Scans-append more f rest)

pub IsFinal-cases : (result : Scan) → (result ≡ needs_more) ⊎ IsFinal result
IsFinal-cases (complete message) = inr tt
IsFinal-cases needs_more = inl refl
IsFinal-cases (refused why) = inr tt

-- The loop always ends, with a message, a refusal or the wish for more bytes; and once it is a
-- message or a refusal, more bytes behind the stream change nothing.
pub handshake_from_records-append :
    (stream : Bytes)
    → (result : Scan) × (handshake_from_records stream ≡ some result)
      × ((result ≡ needs_more)
          ⊎ ((more : Bytes) → handshake_from_records (stream ++ more) ≡ some result))
handshake_from_records-append stream =
    let (result, rounds) = Scans-exists (suc (length stream)) [] stream (omega arith) in
    (
      result,
      Scans-handshake_from_records stream result rounds,
      elim (IsFinal-cases result) [
        | inl more ↦ inl more
        | inr final ↦ inr (λ more.
            Scans-handshake_from_records (stream ++ more) result (Scans-append more final rounds))
      ],
    )

pub final-append :
    (stream more : Bytes) (result : Scan)
    → IsFinal result
    → handshake_from_records stream ≡ some result
    → handshake_from_records (stream ++ more) ≡ some result
final-append stream more result f h =
    Scans-handshake_from_records (stream ++ more) result
      (Scans-append more f (handshake_from_records-Scans stream result h))
