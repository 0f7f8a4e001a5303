-- ===== src/Tickets/Spent.antt =====
-- `TicketStore` of src/frfw/webui/mfa.py: runs of calls after a ticket is created.
use fr_os_pblk.Base.{
  ℕ, ◌+◌, ◌-◌, ◌≤◌, ◌<◌, String, ◌≡◌, ◌≢◌, refl, ◌∙◌, subst, Bool, true, false, ◌&&◌, Option, none,
  some, List, [], ◌∷◌, keep, ltb, leb, ◌==◌, string_eq, if◌then◌else◌, arith, All, Bool-cases,
  if_ind_eq, inl, inr,
}
use fr_os_pblk.Base.Dict.{Dict, get, put, del, get-put, get-del}
use fr_os_pblk.Base.Dict.Keys.{Unique, put-Unique, del-Unique, keep-Unique, get-keep}
use fr_os_pblk.Accounts.Account.{AdminAccount}
use fr_os_pblk.Tickets.Issued.{
  max_code_attempts, Ticket, TicketStore, account_locked, create, count_wrong, fail_code, use_up,
  consume,
}

-- The calls that change the store.
pub data TicketCall : Type 0 where
  creates : AdminAccount → String → ℕ → TicketCall
  fails : String → ℕ → TicketCall
  consumes : String → TicketCall
  asks_locked : String → ℕ → TicketCall

-- What is left of a ticket: one use, and the wrong codes that keep it.
abbrev uses_left : Option Ticket → ℕ
uses_left none = 0
uses_left (some entry) = 1

abbrev codes_left : Option Ticket → ℕ
codes_left none = 0
codes_left (some entry) = (max_code_attempts - 1) - entry.attempts

module _ (k j : String) (d : Dict String Ticket) where
  del_hit : (k == j) ≡ true → get j (del k d) ≡ none
  del_hit h = ground (arith, get-del k j d, h)

  del_miss : (k == j) ≡ false → get j (del k d) ≡ get j d
  del_miss h = ground (arith, get-del k j d, h)

  put_hit : (v : Ticket) → (k == j) ≡ true → get j (put k v d) ≡ some v
  put_hit v h = ground (arith, get-put k j v d, h)

  put_miss : (v : Ticket) → (k == j) ≡ false → get j (put k v d) ≡ get j d
  put_miss v h = ground (arith, get-put k j v d, h)

  same_key : (o : Option Ticket) → (k == j) ≡ true → get k d ≡ o → get j d ≡ o
  same_key o h there = subst (λ x. get x d ≡ o) ((string_eq.test_iff k j).0 h) there

abbrev if_kept : (Ticket → Bool) → Option Ticket → Option Ticket
if_kept live o = elim o [ none ↦ none | some e ↦ if live e then some e else none ]

less_left :
    (live : Ticket → Bool) (o : Option Ticket)
    → (0 + uses_left (if_kept live o) ≤ uses_left o)
      × (0 + codes_left (if_kept live o) ≤ codes_left o)
less_left live none = (omega arith, omega arith)
less_left live (some e) = (ground arith, ground arith)

module _ (sha256 : String → String) (session_version : AdminAccount → String) where
  -- The answer of a call, and the store after it. `create` answers with the ticket's id.
  unfoldable pub call : TicketCall → TicketStore → Bool × TicketStore
  call (creates account tid now) store = (true, create sha256 session_version account tid now store)
  call (fails tid now) store = fail_code sha256 tid now store
  call (consumes tid) store = consume sha256 tid store
  call (asks_locked username now) store = account_locked username now store

  abbrev pub uses_key : String → TicketCall → Bool
  uses_key key (consumes tid) = sha256 tid == key
  uses_key key c = false

  abbrev pub fails_key : String → TicketCall → Bool
  fails_key key (fails tid now) = sha256 tid == key
  fails_key key c = false

  -- How many calls of a kind were answered with True.
  unfoldable pub count_true : (TicketCall → Bool) → List TicketCall → TicketStore → ℕ
  count_true kind [] store = 0
  count_true kind (c ∷ cs) store =
      let (answer, store') = call c store in
      (if answer && kind c then 1 else 0) + count_true kind cs store'

  -- The call makes no ticket under the key.
  abbrev pub Spares : String → TicketCall → Type 0
  Spares key (creates account tid now) = sha256 tid ≢ key
  Spares key (fails tid now) = Unit
  Spares key (consumes tid) = Unit
  Spares key (asks_locked username now) = Unit

  -- After a call: each key still once, and less left of the ticket under the key.
  abbrev Spends : String → Bool → Bool → TicketStore → Bool × TicketStore → Type 0
  Spends key uses codes store (answer, store') =
      Unique store'.entries
      × ((if answer && uses then 1 else 0) + uses_left (get key store'.entries)
          ≤ uses_left (get key store.entries))
      × ((if answer && codes then 1 else 0) + codes_left (get key store'.entries)
          ≤ codes_left (get key store.entries))

  use_up-Spends :
      (key tid : String) (store : TicketStore) (o : Option Ticket)
      → Unique store.entries
      → get (sha256 tid) store.entries ≡ o
      → Spends key (sha256 tid == key) false store (use_up sha256 tid store o)
  use_up-Spends key tid store none u h = (u, omega arith, omega arith)
  use_up-Spends key tid store (some entry) u h =
      let k = sha256 tid in
      let d = store.entries in
      (
        del-Unique k d u,
        elim (Bool-cases (k == key)) [
          | inl hit ↦
              rw (hit, del_hit k key d hit, same_key k key d (some entry) hit h) (omega arith)
          | inr miss ↦ rw (miss, del_miss k key d miss) (omega arith)
        ],
        elim (Bool-cases (k == key)) [
          | inl hit ↦ rw (del_hit k key d hit) (omega arith)
          | inr miss ↦ rw (del_miss k key d miss) (omega arith)
        ],
      )

  count_wrong-Spends :
      (key tid : String) (now : ℕ) (store : TicketStore) (o : Option Ticket)
      → Unique store.entries
      → get (sha256 tid) store.entries ≡ o
      → Spends key false (sha256 tid == key) store (count_wrong sha256 tid now store o)
  count_wrong-Spends key tid now store none u h = (u, omega arith, omega arith)
  count_wrong-Spends key tid now store (some entry) u h =
      if_ind_eq (Spends key false (sha256 tid == key) store)
        (leb max_code_attempts (entry.attempts + 1)) _ _
        (λ last. (
          del-Unique (sha256 tid) store.entries u,
          elim (Bool-cases (sha256 tid == key)) [
            | inl hit ↦ rw (del_hit (sha256 tid) key store.entries hit) (omega arith)
            | inr miss ↦ rw (del_miss (sha256 tid) key store.entries miss) (omega arith)
          ],
          elim (Bool-cases (sha256 tid == key)) [
            | inl hit ↦ rw (del_hit (sha256 tid) key store.entries hit) (omega arith)
            | inr miss ↦ rw (del_miss (sha256 tid) key store.entries miss) (omega arith)
          ],
        ))
        (λ more.
          let k = sha256 tid in
          let d = store.entries in
          let entry' : Ticket = record entry { attempts = entry.attempts + 1 } in
          let few : entry.attempts + 1 < max_code_attempts = ground (arith, more) in
          (
            put-Unique k entry' d u,
            elim (Bool-cases (k == key)) [
              | inl hit ↦
                  rw (put_hit k key d entry' hit, same_key k key d (some entry) hit h) (omega arith)
              | inr miss ↦ rw (put_miss k key d entry' miss) (omega arith)
            ],
            elim (Bool-cases (k == key)) [
              | inl hit ↦
                  rw (hit, put_hit k key d entry' hit, same_key k key d (some entry) hit h)
                    (omega (arith, few))
              | inr miss ↦ rw (miss, put_miss k key d entry' miss) (omega arith)
            ],
          ))

  create-Spends :
      (key : String) (account : AdminAccount) (tid : String) (now : ℕ) (store : TicketStore)
      → Unique store.entries
      → sha256 tid ≢ key
      → Spends key false false store (true, create sha256 session_version account tid now store)
  unfolding create
  create-Spends key account tid now store u other =
      let live = λ (e : Ticket). ltb now e.expires in
      let kept = keep (λ (entry : String × Ticket). live entry.1) store.entries in
      let entry : Ticket = record {
        user = account.username;
        version = session_version account;
        expires = now + store.lifetime;
        attempts = 0;
      } in
      let miss : (sha256 tid == key) ≡ false =
        ground (arith, other, string_eq.test_iff (sha256 tid) key) in
      let found = put_miss (sha256 tid) key kept entry miss ∙ get-keep live key store.entries u in
      (
        put-Unique (sha256 tid) entry kept (keep-Unique live store.entries u),
        rw found (less_left live (get key store.entries)).0,
        rw found (less_left live (get key store.entries)).1,
      )

  call-Spends :
      (key : String) (c : TicketCall) (store : TicketStore)
      → Unique store.entries
      → Spares key c
      → Spends key (uses_key key c) (fails_key key c) store (call c store)
  unfolding call fail_code consume account_locked
  call-Spends key (creates account tid now) store u other =
      create-Spends key account tid now store u other
  call-Spends key (fails tid now) store u other =
      count_wrong-Spends key tid now store (get (sha256 tid) store.entries) u refl
  call-Spends key (consumes tid) store u other =
      use_up-Spends key tid store (get (sha256 tid) store.entries) u refl
  call-Spends key (asks_locked username now) store u other = (u, ground arith, ground arith)

  count_true-le :
      (key : String) (cs : List TicketCall) (store : TicketStore)
      → Unique store.entries
      → All (Spares key) cs
      → (count_true (uses_key key) cs store ≤ uses_left (get key store.entries))
        × (count_true (fails_key key) cs store ≤ codes_left (get key store.entries))
  unfolding count_true
  count_true-le key [] store u all = (omega arith, omega arith)
  count_true-le key (c ∷ cs) store u (other, all) =
      let (u', uses, codes) = call-Spends key c store u other in
      let (uses', codes') = count_true-le key cs (call c store).1 u' all in
      (omega (arith, uses, uses'), omega (arith, codes, codes'))

  created :
      (account : AdminAccount) (tid : String) (now : ℕ) (store : TicketStore)
      → (entry : Ticket) × (get
            (sha256 tid)
            (create sha256 session_version account tid now store).entries
          ≡ some entry)
        × (entry.attempts ≡ 0)
  unfolding create
  created account tid now store = (
    _,
    put_hit (sha256 tid) (sha256 tid)
        (keep (λ (e : String × Ticket). ltb now e.1.expires) store.entries) _
        ((string_eq.test_iff (sha256 tid) (sha256 tid)).1 refl),
    refl,
  )

  -- Once a ticket is created, in a store that has each key once, and as long as no other ticket is
  -- created under its key: whatever calls come in, in any order and for any tickets and users, at most
  -- one `consume` of the ticket is answered with True, and at most four wrong codes leave it usable.
  pub count_true-create :
      (account : AdminAccount) (tid : String) (now : ℕ) (store : TicketStore) (cs : List TicketCall)
      → Unique store.entries
      → All (Spares (sha256 tid)) cs
      → let store' = create sha256 session_version account tid now store in
        (count_true (uses_key (sha256 tid)) cs store' ≤ 1)
        × (count_true (fails_key (sha256 tid)) cs store' ≤ 4)
  count_true-create account tid now store cs u all =
      let store' = create sha256 session_version account tid now store in
      let u' : Unique store'.entries =
        unfold create in
        put-Unique (sha256 tid) _ _
          (keep-Unique (λ (e : Ticket). ltb now e.expires) store.entries u) in
      let (entry, found, fresh) = created account tid now store in
      let (uses, codes) = count_true-le (sha256 tid) cs store' u' all in
      (
        subst (λ o. count_true (uses_key (sha256 tid)) cs store' ≤ uses_left o) found uses,
        omega (
          arith,
          fresh,
          subst (λ o. count_true (fails_key (sha256 tid)) cs store' ≤ codes_left o) found codes,
        ),
      )
