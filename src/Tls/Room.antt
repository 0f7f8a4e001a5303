-- ===== src/Tls/Room.antt =====
-- How many flows `Reassembler` of src/frfw/tlsfp/reassembly.py holds.
use fr_os_pblk.Base.{
  ℕ, ◌+◌, ◌-◌, ◌*◌, ◌≤◌, ◌≡◌, ◌≢◌, refl, sym, subst, Bool, true, false, not, Option, none, some, [],
  ◌∷◌, length, length-keep-le, take, ltb, leb, Eq, if◌then◌else◌, arith, Option-cases, inl, inr,
  if_ind, if_ind_eq,
}
use fr_os_pblk.Base.Dict.{get, put, get-put, del, length-put-le, length-put_old, length-del-le}
use fr_os_pblk.Base.Dict.Keys.{length-del_old}
use fr_os_pblk.Tls.Records.{
  Bytes, Scan, complete, needs_more, refused, max_hello_bytes, handshake_from_records,
}
use fr_os_pblk.Tls.Flows.{
  Flow, Limits, Fed, Flows, contiguous, set_default, offset_of, oldest, drop_oldest, expire, finish,
  scanned, feed, room_for, feed_later, add_unexpired, add,
}

module _ {K : Type 0} ⦃e : Eq K⦄ where
  -- The oldest key is bound.
  unfoldable IsBound : (o : Option (K × ℕ)) (flows : Flows K) → Type 0
  IsBound none flows = flows ≡ []
  IsBound (some (k, started)) flows = get k flows ≢ none

  get_later :
      (k j : K) (flow : Flow) (flows : Flows K)
      → get k flows ≢ none
      → get k ((j, flow) ∷ flows) ≢ none
  unfolding get
  get_later k j flow flows h = ground (arith, h)

  get_first : (j : K) (flow : Flow) (flows : Flows K) → get j ((j, flow) ∷ flows) ≢ none
  unfolding get
  get_first j flow flows = ground (arith, (e.test_iff j j).1 refl)

  oldest-IsBound : (flows : Flows K) → IsBound (oldest flows) flows
  unfolding oldest IsBound
  oldest-IsBound [] = refl
  oldest-IsBound ((j, flow) ∷ flows) = elim (Option-cases (oldest flows)) [
    | inl n ↦
        subst
          (λ o.
            IsBound
              (elim o [
                | none ↦ some (j, flow.started)
                | some (k, started) ↦
                    if ltb started flow.started then some (k, started) else some (j, flow.started)
              ])
              ((j, flow) ∷ flows))
          (sym n) (get_first j flow flows)
    | inr ((k, started), s) ↦
        subst
          (λ o.
            IsBound
              (elim o [
                | none ↦ some (j, flow.started)
                | some (k, started) ↦
                    if ltb started flow.started then some (k, started) else some (j, flow.started)
              ])
              ((j, flow) ∷ flows))
          (sym s)
          (if_ind (λ o. IsBound o ((j, flow) ∷ flows)) (ltb started flow.started) _ _
            (get_later k j flow flows (subst (λ o. IsBound o flows) s (oldest-IsBound flows)))
            (get_first j flow flows))
  ]

  drop_bound :
      (o : Option (K × ℕ)) (flows : Flows K)
      → IsBound o flows
      → length (elim o [ none ↦ flows | some (key, started) ↦ del key flows ]) ≤ length flows - 1
  unfolding IsBound
  drop_bound none flows h = ground (arith, h)
  drop_bound (some (k, started)) flows h = ground (arith, length-del_old k flows h)

  length-drop_oldest : (flows : Flows K) → length (drop_oldest flows) ≤ length flows - 1
  unfolding drop_oldest
  length-drop_oldest flows = drop_bound (oldest flows) flows (oldest-IsBound flows)

  length-finish-le :
      (k : K) (result : Scan) (flows : Flows K) → length (finish k result flows).0 ≤ length flows
  unfolding finish
  length-finish-le k (complete message) flows = length-del-le k flows
  length-finish-le k needs_more flows = omega arith
  length-finish-le k (refused why) flows = length-del-le k flows

  length-feed-le :
      (k : K) (seq : ℕ) (payload : Bytes) (flow : Flow) (flows : Flows K)
      → get k flows ≢ none
      → length (feed k seq payload flow flows).0 ≤ length flows
  unfolding feed
  length-feed-le k seq payload flow flows old =
      if_ind (λ (out : Flows K × Fed). length out.0 ≤ length flows)
        (leb (max_hello_bytes + 5 * 4) (offset_of seq flow.isn)) _ _ (omega arith)
        (let flow' = record flow {
          chunks = set_default (offset_of seq flow.isn) (take max_hello_bytes payload) flow.chunks;
        } in
          ground (
            arith,
            length-put_old k flow' flows old,
            length-finish-le k (scanned (handshake_from_records (contiguous flow')))
                (put k flow' flows),
          ))

  get-put_same : (k : K) (flow : Flow) (flows : Flows K) → get k (put k flow flows) ≢ none
  get-put_same k flow flows = ground (arith, get-put k k flow flows, (e.test_iff k k).1 refl)

  -- The flow that a first segment starts has room.
  length-put-room_for-le :
      (limits : Limits) (k : K) (flow : Flow) (flows : Flows K)
      → 1 ≤ limits.max_flows
      → length flows ≤ limits.max_flows
      → (known : Option Flow) → get k flows ≡ known
      → length (put k flow (room_for limits known flows)) ≤ limits.max_flows
  length-put-room_for-le limits k flow flows most h (some old) known =
      ground (arith, length-put_old k flow flows (ground (arith, known)))
  length-put-room_for-le limits k flow flows most h none known =
      if_ind_eq (λ (fs : Flows K). length (put k flow fs) ≤ limits.max_flows)
        (leb limits.max_flows (length flows)) _ _
        (λ full. ground (arith, length-put-le k flow (drop_oldest flows), length-drop_oldest flows))
        (λ space. ground (arith, length-put-le k flow flows, space))

  length-feed_later-le :
      (k : K) (seq : ℕ) (payload : Bytes) (flows : Flows K)
      → (known : Option Flow) → get k flows ≡ known
      → length (feed_later k seq payload known flows).0 ≤ length flows
  unfolding feed_later
  length-feed_later-le k seq payload flows none h = omega arith
  length-feed_later-le k seq payload flows (some flow) h =
      length-feed-le k seq payload flow flows (ground (arith, h))

  length-add_unexpired-le :
      (limits : Limits) (k : K) (seq : ℕ) (payload : Bytes) (now : ℕ) (first : Bool)
      (flows : Flows K)
      → 1 ≤ limits.max_flows
      → length flows ≤ limits.max_flows
      → length (add_unexpired limits k seq payload now first flows).0 ≤ limits.max_flows
  unfolding add_unexpired
  length-add_unexpired-le limits k seq payload now true flows most h =
      let flow : Flow = record { isn = seq; started = now; chunks = [] } in
      let room = room_for limits (get k flows) flows in
      ground (
        arith,
        length-put-room_for-le limits k flow flows most h (get k flows) refl,
        length-feed-le k seq payload flow (put k flow room) (get-put_same k flow room),
      )
  length-add_unexpired-le limits k seq payload now false flows most h =
      ground (arith, length-feed_later-le k seq payload flows (get k flows) refl, h)

  -- From at most `max_flows` flows, `max_flows` being at least one, `add` leaves at most `max_flows`
  -- flows, whatever the segment is.
  pub length-add-le :
      (limits : Limits) (k : K) (seq : ℕ) (payload : Bytes) (now : ℕ) (first : Bool)
      (flows : Flows K)
      → 1 ≤ limits.max_flows
      → length flows ≤ limits.max_flows
      → length (add limits k seq payload now first flows).0 ≤ limits.max_flows
  unfolding add expire
  length-add-le limits k seq payload now first flows most h =
      let fresh : K × Flow → Bool = λ entry. not (ltb limits.timeout (now - entry.1.started)) in
      length-add_unexpired-le limits k seq payload now first (expire limits now flows) most
        (ground (arith, length-keep-le fresh flows, h))
