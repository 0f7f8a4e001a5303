-- ===== src/Tls/Flows.antt =====
-- `Reassembler` of src/frfw/tlsfp/reassembly.py, for any type of flow keys. Times are milliseconds.
use fr_os_pblk.Base.{
  ℕ, ◌+◌, ◌-◌, ◌*◌, ◌%◌, ◌^◌, String, Bool, true, false, not, Option, none, some, List, [], ◌∷◌,
  ◌++◌, length, take, drop, keep, ltb, leb, Eq, nat_eq, if◌then◌else◌,
}
use fr_os_pblk.Base.Dict.{Dict, get, put, del}
use fr_os_pblk.Tls.Records.{
  Bytes, Scan, complete, needs_more, refused, max_hello_bytes, handshake_from_records,
}

-- `_Flow`
pub record Flow : Type 0 where
  pub isn : ℕ
  pub started : ℕ
  pub chunks : Dict ℕ Bytes

pub record Limits : Type 0 where
  pub max_flows : ℕ
  pub timeout : ℕ

-- What `add` gives: None, the message, or the ParseError that it raises.
pub data Fed : Type 0 where
  waits : Fed
  delivers : Bytes → Fed
  fails : String → Fed

abbrev pub Chunk : Type 0
Chunk = ℕ × Bytes

unfoldable pub insert_chunk : Chunk → List Chunk → List Chunk
insert_chunk c [] = c ∷ []
insert_chunk c (d ∷ ds) =
    let rest = insert_chunk c ds in if leb c.0 d.0 then c ∷ d ∷ ds else d ∷ rest

-- `sorted(flow.chunks)`, with the chunk of each offset.
unfoldable pub sort_chunks : List Chunk → List Chunk
sort_chunks [] = []
sort_chunks (c ∷ cs) = insert_chunk c (sort_chunks cs)

unfoldable pub join_chunks : Bytes → List Chunk → Bytes
join_chunks out [] = out
join_chunks out ((offset, chunk) ∷ chunks) =
    let more = join_chunks (out ++ drop (length out - offset) chunk) chunks in
    if ltb (length out) offset then out else more

-- `_contiguous`
unfoldable pub contiguous : Flow → Bytes
contiguous flow = join_chunks [] (sort_chunks flow.chunks)

-- `(seq - flow.isn) & 0xFFFFFFFF`, for sequence numbers of 32 bits
abbrev pub offset_of : ℕ → ℕ → ℕ
offset_of seq isn = ((seq + 2 ^ 32) - isn) % 2 ^ 32

-- `dict.setdefault`
unfoldable pub set_default : ℕ → Bytes → Dict ℕ Bytes → Dict ℕ Bytes
set_default offset chunk chunks = elim (get offset chunks) [
  | none ↦ put offset chunk chunks
  | some known ↦ chunks
]

abbrev pub Flows : Type 0 → Type 0
Flows K = Dict K Flow

-- A scan always ends with a result.
abbrev pub scanned : Option Scan → Scan
scanned none = needs_more
scanned (some result) = result

module _ {K : Type 0} ⦃e : Eq K⦄ where
  -- The key of the flow that started first, the first of them in the order of the dict.
  unfoldable pub oldest : Flows K → Option (K × ℕ)
  oldest [] = none
  oldest ((key, flow) ∷ flows) = elim (oldest flows) [
    | none ↦ some (key, flow.started)
    | some (k, started) ↦
        if ltb started flow.started then some (k, started) else some (key, flow.started)
  ]

  unfoldable pub drop_oldest : Flows K → Flows K
  drop_oldest flows = elim (oldest flows) [ none ↦ flows | some (key, started) ↦ del key flows ]

  -- `_expire`
  unfoldable pub expire : Limits → ℕ → Flows K → Flows K
  expire limits now flows =
      keep (λ (entry : K × Flow). not (ltb limits.timeout (now - entry.1.started))) flows

  -- What the segment does to the flow that it belongs to.
  unfoldable pub finish : K → Scan → Flows K → Flows K × Fed
  finish key (complete message) flows = (del key flows, delivers message)
  finish key needs_more flows = (flows, waits)
  finish key (refused why) flows = (del key flows, fails why)

  unfoldable pub feed : K → ℕ → Bytes → Flow → Flows K → Flows K × Fed
  feed key seq payload flow flows =
      let offset = offset_of seq flow.isn in
      let flow' = record flow {
        chunks = set_default offset (take max_hello_bytes payload) flow.chunks;
      } in
      if leb (max_hello_bytes + 5 * 4) offset
      then (flows, waits)
      else finish key (scanned (handshake_from_records (contiguous flow'))) (put key flow' flows)

  abbrev pub room_for : Limits → Option Flow → Flows K → Flows K
  room_for limits none flows =
      if leb limits.max_flows (length flows) then drop_oldest flows else flows
  room_for limits (some flow) flows = flows

  unfoldable pub feed_later : K → ℕ → Bytes → Option Flow → Flows K → Flows K × Fed
  feed_later key seq payload none flows = (flows, waits)
  feed_later key seq payload (some flow) flows = feed key seq payload flow flows

  unfoldable pub add_unexpired : Limits → K → ℕ → Bytes → ℕ → Bool → Flows K → Flows K × Fed
  add_unexpired limits key seq payload now true flows =
      let flow : Flow = record { isn = seq; started = now; chunks = [] } in
      feed key seq payload flow (put key flow (room_for limits (get key flows) flows))
  add_unexpired limits key seq payload now false flows =
      feed_later key seq payload (get key flows) flows

  -- `add`
  unfoldable pub add : Limits → K → ℕ → Bytes → ℕ → Bool → Flows K → Flows K × Fed
  add limits key seq payload now first flows =
      add_unexpired limits key seq payload now first (expire limits now flows)
