-- ===== src/Tls/Rebuilt.antt =====
-- `Reassembler.add` of src/frfw/tlsfp/reassembly.py, on segments of one stream and of other flows.
use fr_os_pblk.Base.{
  ℕ, zero, suc, ◌+◌, ◌-◌, ◌*◌, ◌≡◌, ◌≢◌, refl, sym, ap, ◌∙◌, subst, Bool, true, false, not, Option,
  none, some, List, [], ◌∷◌, ◌++◌, length, take, drop, take-drop, keep, ltb, leb, Eq, nat_eq, arith,
  All, inl, inr, ◌⊎◌, if_ind,
}
use fr_os_pblk.Base.Dict.Entries.{put-All, del-All, get-All}
use fr_os_pblk.Base.Dict.{get, put, del}
use fr_os_pblk.Tls.Records.{
  Bytes, Scan, complete, needs_more, refused, max_hello_bytes, handshake_from_records,
}
use fr_os_pblk.Tls.Scanned.{final-append, IsFinal}
use fr_os_pblk.Tls.Flows.{
  Flow, Limits, Fed, waits, delivers, fails, Flows, contiguous, set_default, offset_of, oldest,
  drop_oldest, expire, finish, scanned, feed, room_for, feed_later, add_unexpired, add,
}
use fr_os_pblk.Tls.Streams.{IsSlice, IsPrefix, contiguous-IsPrefix, set_default-All}

take_shorter : (a n : ℕ) (xs : Bytes) → (k : ℕ) × (take a (take n xs) ≡ take k xs)
take_shorter zero n xs = (0, refl)
take_shorter (suc a) zero xs = (0, refl)
take_shorter (suc a) (suc n) [] = (0, refl)
take_shorter (suc a) (suc n) (x ∷ xs) =
    let (k, same) = take_shorter a n xs in (suc k, ap (λ l. x ∷ l) same)

shorter-IsSlice :
    (stream : Bytes) (offset a : ℕ) (chunk : Bytes)
    → IsSlice stream (offset, chunk)
    → IsSlice stream (offset, take a chunk)
shorter-IsSlice stream offset a chunk (n, slice) =
    let (k, same) = take_shorter a n (drop offset stream) in (k, ap (take a) slice ∙ same)

-- What the beginning of a stream gives for good, the stream gives.
prefix-final :
    (stream out : Bytes) (result : Scan)
    → IsPrefix stream out
    → IsFinal result
    → handshake_from_records out ≡ some result
    → handshake_from_records stream ≡ some result
prefix-final stream out result (n, le, same) f h =
    subst (λ s. handshake_from_records s ≡ some result)
      (ap (λ o. o ++ drop n stream) same ∙ take-drop n stream)
      (final-append out (drop n stream) result f h)

keep-All :
    {A : Type 0} (P : A → Type 0) (test : A → Bool) (xs : List A) → All P xs → All P (keep test xs)
keep-All P test [] all = tt
keep-All P test (x ∷ xs) (p, all) =
    if_ind (All P) (test x) _ _ (p, keep-All P test xs all) (keep-All P test xs all)

module _ {K : Type 0} ⦃e : Eq K⦄ where
  -- The flow of one key carries one stream, whose first byte has the sequence number `isn`.
  module _ (key : K) (isn : ℕ) (stream : Bytes) where
    abbrev pub IsFlow : Flow → Type 0
    IsFlow flow = (flow.isn ≡ isn) × All (IsSlice stream) flow.chunks

    abbrev pub Fits : K × Flow → Type 0
    Fits (k, flow) = (k ≢ key) ⊎ IsFlow flow

    abbrev pub Carries : Flows K → Type 0
    Carries flows = All Fits flows

    -- A segment of this flow is a piece of the stream, and starts it if it is marked as first.
    abbrev pub IsSegment : K → ℕ → Bytes → Bool → Type 0
    IsSegment k seq payload first =
        (k ≢ key) ⊎ (((first ≡ false) ⊎ (seq ≡ isn)) × IsSlice stream (offset_of seq isn, payload))

    abbrev pub Tells : K → Fed → Type 0
    Tells k waits = Unit
    Tells k (delivers message) =
        (k ≢ key) ⊎ (handshake_from_records stream ≡ some (complete message))
    Tells k (fails why) = (k ≢ key) ⊎ (handshake_from_records stream ≡ some (refused why))

    abbrev Good : K → Flows K × Fed → Type 0
    Good k (flows, fed) = Carries flows × Tells k fed

    prefix-told :
        (k : K) (flow : Flow) (result : Scan)
        → Fits (k, flow)
        → IsFinal result
        → handshake_from_records (contiguous flow) ≡ some result
        → (k ≢ key) ⊎ (handshake_from_records stream ≡ some result)
    prefix-told k flow result (inl other) f h = inl other
    prefix-told k flow result (inr (same, slices)) f h =
        inr (
          prefix-final stream (contiguous flow) result (contiguous-IsPrefix stream flow slices) f h)

    finish-Good :
        (k : K) (flow : Flow) (found : Option Scan) (flows : Flows K)
        → Fits (k, flow)
        → handshake_from_records (contiguous flow) ≡ found
        → Carries flows
        → Good k (finish k (scanned found) flows)
    unfolding finish
    finish-Good k flow none flows fits h all = (all, tt)
    finish-Good k flow (some needs_more) flows fits h all = (all, tt)
    finish-Good k flow (some (complete message)) flows fits h all =
        (del-All Fits k flows all, prefix-told k flow (complete message) fits tt h)
    finish-Good k flow (some (refused why)) flows fits h all =
        (del-All Fits k flows all, prefix-told k flow (refused why) fits tt h)

    put-Carries :
        (k : K) (flow : Flow) (flows : Flows K)
        → Fits (k, flow)
        → Carries flows
        → Carries (put k flow flows)
    put-Carries k flow flows fits all =
        put-All Fits k flow flows
          (λ j same. subst (λ x. Fits (x, flow)) (sym ((e.test_iff j k).0 same)) fits) fits all

    chunk-Fits :
        (k : K) (seq : ℕ) (payload : Bytes) (flow : Flow)
        → Fits (k, flow)
        → (k ≢ key) ⊎ IsSlice stream (offset_of seq isn, payload)
        → Fits (
          k,
          record flow {
            chunks =
                set_default (offset_of seq flow.isn) (take max_hello_bytes payload) flow.chunks;
          },
        )
    chunk-Fits k seq payload flow (inl other) slice = inl other
    chunk-Fits k seq payload flow (inr good) (inl other) = inl other
    chunk-Fits k seq payload flow (inr (same, slices)) (inr slice) =
        let placed : IsSlice stream (offset_of seq flow.isn, payload) =
          subst (λ i. IsSlice stream (offset_of seq i, payload)) (sym same) slice in
        inr (
          same,
          set_default-All stream (offset_of seq flow.isn) (take max_hello_bytes payload) flow.chunks
              (shorter-IsSlice stream (offset_of seq flow.isn) max_hello_bytes payload placed)
              slices,
        )

    feed-Good :
        (k : K) (seq : ℕ) (payload : Bytes) (flow : Flow) (flows : Flows K)
        → Fits (k, flow)
        → (k ≢ key) ⊎ IsSlice stream (offset_of seq isn, payload)
        → Carries flows
        → Good k (feed k seq payload flow flows)
    unfolding feed
    feed-Good k seq payload flow flows fits slice all =
        let offset = offset_of seq flow.isn in
        let flow' = record flow {
          chunks = set_default offset (take max_hello_bytes payload) flow.chunks;
        } in
        let fits' = chunk-Fits k seq payload flow fits slice in
        if_ind (Good k) (leb (max_hello_bytes + 5 * 4) offset) _ _ (all, tt)
          (finish-Good k flow' (handshake_from_records (contiguous flow')) (put k flow' flows) fits'
            refl (put-Carries k flow' flows fits' all))

    room_for-Carries :
        (limits : Limits) (known : Option Flow) (flows : Flows K)
        → Carries flows
        → Carries (room_for limits known flows)
    unfolding drop_oldest
    room_for-Carries limits (some flow) flows all = all
    room_for-Carries limits none flows all =
        if_ind Carries (leb limits.max_flows (length flows)) _ _
          (elim (oldest flows)
            as (λ o. Carries (elim o [ none ↦ flows | some (k, started) ↦ del k flows ])) [
              | none ↦ all
              | some (k, started) ↦ del-All Fits k flows all
            ])
          all

    piece :
        (k : K) (seq : ℕ) (payload : Bytes) (first : Bool)
        → IsSegment k seq payload first
        → (k ≢ key) ⊎ IsSlice stream (offset_of seq isn, payload)
    piece k seq payload first (inl other) = inl other
    piece k seq payload first (inr (start, slice)) = inr slice

    fresh-Fits :
        (k : K) (seq now : ℕ) (payload : Bytes)
        → IsSegment k seq payload true
        → Fits (k, record { isn = seq; started = now; chunks = [] })
    fresh-Fits k seq now payload (inl other) = inl other
    fresh-Fits k seq now payload (inr (inl later, slice)) = ground (arith, later)
    fresh-Fits k seq now payload (inr (inr start, slice)) = inr (start, tt)

    feed_later-Good :
        (k : K) (seq : ℕ) (payload : Bytes) (known : Option Flow) (flows : Flows K)
        → get k flows ≡ known
        → (k ≢ key) ⊎ IsSlice stream (offset_of seq isn, payload)
        → Carries flows
        → Good k (feed_later k seq payload known flows)
    unfolding feed_later
    feed_later-Good k seq payload none flows h slice all = (all, tt)
    feed_later-Good k seq payload (some flow) flows h slice all =
        let (j, same, fits) = get-All Fits k flow flows all h in
        feed-Good k seq payload flow flows (subst (λ x. Fits (x, flow)) same fits) slice all

    add_unexpired-Good :
        (limits : Limits) (k : K) (seq : ℕ) (payload : Bytes) (now : ℕ) (first : Bool)
        (flows : Flows K)
        → IsSegment k seq payload first
        → Carries flows
        → Good k (add_unexpired limits k seq payload now first flows)
    unfolding add_unexpired
    add_unexpired-Good limits k seq payload now true flows segment all =
        let flow : Flow = record { isn = seq; started = now; chunks = [] } in
        let room = room_for limits (get k flows) flows in
        let fits = fresh-Fits k seq now payload segment in
        feed-Good k seq payload flow (put k flow room) fits (piece k seq payload true segment)
          (put-Carries k flow room fits (room_for-Carries limits (get k flows) flows all))
    add_unexpired-Good limits k seq payload now false flows segment all =
        feed_later-Good k seq payload (get k flows) flows refl (piece k seq payload false segment)
          all

    pub add-Good :
        (limits : Limits) (k : K) (seq : ℕ) (payload : Bytes) (now : ℕ) (first : Bool)
        (flows : Flows K)
        → IsSegment k seq payload first
        → Carries flows
        → Good k (add limits k seq payload now first flows)
    unfolding add expire
    add-Good limits k seq payload now first flows segment all =
        add_unexpired-Good limits k seq payload now first (expire limits now flows) segment (
          keep-All Fits (λ (entry : K × Flow). not (ltb limits.timeout (now - entry.1.started)))
            flows all)
