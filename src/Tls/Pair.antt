-- ===== src/Tls/Pair.antt =====
-- `Reassembler.add` of src/frfw/tlsfp/reassembly.py, on a hello in two segments that arrive in order.
use mathlib.Core.Option.{some-injective}
use fr_os_pblk.Base.{
  ℕ, zero, suc, ◌+◌, ◌-◌, ◌*◌, ◌%◌, ◌^◌, ◌≤◌, ◌<◌, ◌≡◌, refl, sym, ap, ◌∙◌, subst, true, false, not,
  Option, none, some, [], ◌∷◌, ◌++◌, length, take, drop, ltb, leb, Eq, nat_eq, arith, if_ind,
  if_ind_eq,
}
use fr_os_pblk.Base.Dict.{get, put, del}
use fr_os_pblk.Tls.Records.{
  Bytes, Scan, complete, needs_more, max_hello_bytes, handshake_from_records,
}
use fr_os_pblk.Tls.Flows.{
  Flow, Limits, Fed, waits, delivers, Flows, insert_chunk, sort_chunks, join_chunks, contiguous,
  set_default, offset_of, oldest, drop_oldest, expire, finish, scanned, feed, room_for, feed_later,
  add_unexpired, add,
}

fresh-offset : (isn : ℕ) → offset_of isn isn ≡ 0
fresh-offset isn = omega arith

next-offset : (isn n : ℕ) → isn < 2 ^ 32 → n < 2 ^ 32 → offset_of ((isn + n) % 2 ^ 32) isn ≡ n
next-offset isn n h k = omega arith

take_all : (n : ℕ) (xs : Bytes) → length xs ≤ n → take n xs ≡ xs
take_all zero [] h = refl
take_all (suc n) [] h = refl
take_all zero (x ∷ xs) h = ground arith
take_all (suc n) (x ∷ xs) h = ap (λ l. x ∷ l) (take_all n xs (omega arith))

abbrev started_flow : ℕ → ℕ → Bytes → Flow
started_flow isn started p = record { isn = isn; started = started; chunks = (0, p) ∷ [] }

abbrev longer_flow : ℕ → ℕ → Bytes → Bytes → Flow
longer_flow isn started p q = record {
  isn = isn;
  started = started;
  chunks = (0, p) ∷ (length p, q) ∷ [];
}

contiguous-one : (isn started : ℕ) (p : Bytes) → contiguous (started_flow isn started p) ≡ p
unfolding contiguous sort_chunks insert_chunk join_chunks
contiguous-one isn started p = refl

no_gap : (n : ℕ) (p : Bytes) → length p ≡ n → length p - n ≡ 0
no_gap n p h = omega arith

join-two : (n : ℕ) (p q : Bytes) → length p ≡ n → join_chunks p ((n, q) ∷ []) ≡ p ++ q
unfolding join_chunks
join-two n p q h =
    if_ind_eq (λ out. out ≡ p ++ q) (ltb (length p) n) _ _ (λ gap. ground (arith, gap, h))
      (λ joined. ap (λ k. p ++ drop k q) (no_gap n p h))

join-first : (p q : Bytes) → join_chunks [] ((0, p) ∷ (length p, q) ∷ []) ≡ p ++ q
unfolding join_chunks
join-first p q = join-two (length p) p q refl

contiguous-two :
    (isn started : ℕ) (p q : Bytes)
    → 1 ≤ length p
    → contiguous (longer_flow isn started p q) ≡ p ++ q
unfolding contiguous sort_chunks insert_chunk
contiguous-two isn started p q h =
    if_ind_eq (λ cs. join_chunks [] cs ≡ p ++ q) (leb 0 (length p)) _ _ (λ sorted. join-first p q)
      (λ swapped. ground (arith, swapped, h))

pieces :
    (p q : Bytes)
    → 1 ≤ length p
    → set_default (length p) q ((0, p) ∷ []) ≡ (0, p) ∷ (length p, q) ∷ []
unfolding set_default get put
pieces p q h = ground (arith, h)

first-piece :
    (isn started : ℕ) (p : Bytes)
    → length p ≤ max_hello_bytes
    → let flow : Flow = record { isn = isn; started = started; chunks = [] } in
      record flow { chunks = set_default (offset_of isn isn) (take max_hello_bytes p) flow.chunks }
      ≡ started_flow isn started p
unfolding set_default get put
first-piece isn started p size = rw (fresh-offset isn, take_all max_hello_bytes p size)

second-piece :
    (isn started : ℕ) (p q : Bytes)
    → isn < 2 ^ 32
    → 1 ≤ length p
    → length p ≤ max_hello_bytes
    → length q ≤ max_hello_bytes
    → let flow = started_flow isn started p in
      record flow {
        chunks =
            set_default
              (offset_of ((isn + length p) % 2 ^ 32) isn)
              (take max_hello_bytes q)
              flow.chunks;
      }
      ≡ longer_flow isn started p q
second-piece isn started p q low nonempty size size' = rw (
  next-offset isn (length p) low (omega arith),
  take_all max_hello_bytes q size',
  pieces p q nonempty,
)

module _ {K : Type 0} ⦃e : Eq K⦄ where
  feed-part :
      (key : K) (seq : ℕ) (payload : Bytes) (flow flow' : Flow) (flows : Flows K) (result : Scan)
      → offset_of seq flow.isn < max_hello_bytes + 20
      → record flow {
        chunks = set_default (offset_of seq flow.isn) (take max_hello_bytes payload) flow.chunks;
      }
        ≡ flow'
      → handshake_from_records (contiguous flow') ≡ some result
      → feed key seq payload flow flows ≡ finish key result (put key flow' flows)
  unfolding feed
  feed-part key seq payload flow flow' flows result near same h =
      if_ind_eq (λ (out : Flows K × Fed). out ≡ finish key result (put key flow' flows))
        (leb (max_hello_bytes + 5 * 4) (offset_of seq flow.isn)) _ _
        (λ far. ground (arith, near, far))
        (λ close.
          subst
            (λ f.
              finish key (scanned (handshake_from_records (contiguous f))) (put key f flows)
              ≡ finish key result (put key flow' flows))
            (sym same) (ap (λ o. finish key (scanned o) (put key flow' flows)) h))

  put_twice : (key : K) (a b : Flow) → put key b ((key, a) ∷ []) ≡ (key, b) ∷ []
  unfolding put
  put_twice key a b = ground (arith, (e.test_iff key key).1 refl)

  get_only : (key : K) (a : Flow) → get key ((key, a) ∷ []) ≡ some a
  unfolding get
  get_only key a = ground (arith, (e.test_iff key key).1 refl)

  room-empty : (limits : Limits) → room_for {K = K} limits none [] ≡ []
  unfolding drop_oldest oldest
  room-empty limits =
      if_ind (λ (fs : Flows K). fs ≡ []) (leb limits.max_flows 0) (drop_oldest []) [] refl refl

  first-feed :
      (limits : Limits) (key : K) (isn started : ℕ) (p : Bytes)
      → let flow : Flow = record { isn = isn; started = started; chunks = [] } in
        add limits key isn p started true [] ≡ feed key isn p flow ((key, flow) ∷ [])
  unfolding add expire add_unexpired get put
  first-feed limits key isn started p =
      let flow : Flow = record { isn = isn; started = started; chunks = [] } in
      ap (λ fs. feed key isn p flow (put key flow fs)) (room-empty limits)

  add-first :
      (limits : Limits) (key : K) (isn started : ℕ) (p : Bytes) (result : Scan)
      → length p ≤ max_hello_bytes
      → handshake_from_records p ≡ some result
      → add limits key isn p started true []
        ≡ finish key result ((key, started_flow isn started p) ∷ [])
  add-first limits key isn started p result size h =
      let flow : Flow = record { isn = isn; started = started; chunks = [] } in
      first-feed limits key isn started p
      ∙ feed-part key isn p flow (started_flow isn started p) ((key, flow) ∷ []) result
          (ground (arith, fresh-offset isn)) (first-piece isn started p size)
          (subst (λ s. handshake_from_records s ≡ some result) (sym (contiguous-one isn started p))
            h)
      ∙ ap (finish key result) (put_twice key flow (started_flow isn started p))

  expire-young :
      (limits : Limits) (now : ℕ) (key : K) (flow : Flow)
      → now ≤ flow.started + limits.timeout
      → expire limits now ((key, flow) ∷ []) ≡ (key, flow) ∷ []
  unfolding expire
  expire-young limits now key flow young =
      if_ind_eq (λ (fs : Flows K). fs ≡ (key, flow) ∷ [])
        (not (ltb limits.timeout (now - flow.started))) _ _ (λ kept. refl)
        (λ dropped. ground (arith, young, dropped))

  later-feed :
      (key : K) (seq : ℕ) (q : Bytes) (flow : Flow) (flows : Flows K) (known : Option Flow)
      → known ≡ some flow
      → feed_later key seq q known flows ≡ feed key seq q flow flows
  unfolding feed_later
  later-feed key seq q flow flows none h = ground (arith, h)
  later-feed key seq q flow flows (some other) h =
      ap (λ f. feed key seq q f flows) (some-injective other flow h)

  del_only : (key : K) (a : Flow) → del key ((key, a) ∷ []) ≡ []
  unfolding del
  del_only key a = ground (arith, (e.test_iff key key).1 refl)

  second-feed :
      (limits : Limits) (key : K) (seq isn started now : ℕ) (p q : Bytes)
      → now ≤ started + limits.timeout
      → let flow = started_flow isn started p in
        add limits key seq q now false ((key, flow) ∷ []) ≡ feed key seq q flow ((key, flow) ∷ [])
  unfolding add add_unexpired
  second-feed limits key seq isn started now p q young =
      let flow = started_flow isn started p in
      ap (λ fs. feed_later key seq q (get key fs) fs) (expire-young limits now key flow young)
      ∙ later-feed key seq q flow ((key, flow) ∷ []) (get key ((key, flow) ∷ []))
          (get_only key flow)

  -- Let the bytes `p` begin a hello and not complete it, and let `p` with `q` after it complete it to
  -- `message`, `p` and `q` being of at most 16384 bytes each and `p` not empty. From no flows, the
  -- segment `p`, marked as first, gives nothing, and the segment `q` at the next sequence number,
  -- which wraps at 2 ^ 32, gives `message` and leaves no flow, when it arrives within the timeout.
  pub add-pair :
      (limits : Limits) (key : K) (isn started now : ℕ) (p q message : Bytes)
      → isn < 2 ^ 32
      → 1 ≤ length p
      → length p ≤ max_hello_bytes
      → length q ≤ max_hello_bytes
      → now ≤ started + limits.timeout
      → handshake_from_records p ≡ some needs_more
      → handshake_from_records (p ++ q) ≡ some (complete message)
      → ((add limits key isn p started true []).1 ≡ waits)
        × (add limits key
              ((isn + length p) % 2 ^ 32)
              q
              now
              false
              (add limits key isn p started true []).0
            ≡ ([], delivers message))
  unfolding finish
  add-pair limits key isn started now p q message low nonempty size size' young part whole =
      let begun = add-first limits key isn started p needs_more size part in
      (
        ap (λ (out : Flows K × Fed). out.1) begun,
        subst
            (λ (out : Flows K × Fed).
              add limits key ((isn + length p) % 2 ^ 32) q now false out.0 ≡ ([], delivers message))
            (sym begun)
            (second-feed limits key ((isn + length p) % 2 ^ 32) isn started now p q young
              ∙ feed-part key ((isn + length p) % 2 ^ 32) q (started_flow isn started p)
                  (longer_flow isn started p q) ((key, started_flow isn started p) ∷ [])
                  (complete message) (ground (arith, next-offset isn (length p) low (omega arith)))
                  (second-piece isn started p q low nonempty size size')
                  (subst (λ s. handshake_from_records s ≡ some (complete message))
                    (sym (contiguous-two isn started p q nonempty)) whole)
              ∙ ap (λ fs. finish key (complete message) fs)
                  (put_twice key (started_flow isn started p) (longer_flow isn started p q))
              ∙ ap (λ fs. (fs, delivers message)) (del_only key (longer_flow isn started p q))),
      )
