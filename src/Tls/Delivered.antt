-- ===== src/Tls/Delivered.antt =====
-- `Reassembler.add` of src/frfw/tlsfp/reassembly.py, called for the segments of several flows.
use fr_os_pblk.Base.{ℕ, Bool, List, [], ◌∷◌, Eq, All}
use fr_os_pblk.Tls.Records.{Bytes}
use fr_os_pblk.Tls.Flows.{Limits, Fed, Flows, add}
use fr_os_pblk.Tls.Rebuilt.{Carries, IsSegment, Tells, add-Good}

-- One call of `add`
pub record Segment (K : Type 0) : Type 0 where
  pub flow_key : K
  pub seq : ℕ
  pub payload : Bytes
  pub now : ℕ
  pub first : Bool

module _ {K : Type 0} ⦃e : Eq K⦄ where
  -- What each call gives, with the key of its flow.
  unfoldable pub add_all : Limits → List (Segment K) → Flows K → List (K × Fed)
  add_all limits [] flows = []
  add_all limits (s ∷ ss) flows =
      let (flows', fed) = add limits s.flow_key s.seq s.payload s.now s.first flows in
      (s.flow_key, fed) ∷ add_all limits ss flows'

  add_all-Tells :
      (key : K) (isn : ℕ) (stream : Bytes) (limits : Limits) (ss : List (Segment K))
      (flows : Flows K)
      → All (λ s. IsSegment key isn stream s.flow_key s.seq s.payload s.first) ss
      → Carries key isn stream flows
      → All (λ (k, fed). Tells key isn stream k fed) (add_all limits ss flows)
  unfolding add_all
  add_all-Tells key isn stream limits [] flows segments all = tt
  add_all-Tells key isn stream limits (s ∷ ss) flows (segment, segments) all =
      let (all', told) =
        add-Good key isn stream limits s.flow_key s.seq s.payload s.now s.first flows segment all in
      (told, add_all-Tells key isn stream limits ss _ segments all')

  -- Let every segment of the flow `key` be a piece of one stream, at the offset its sequence number
  -- gives, and be marked as first only at the sequence number `isn`. From no flows, in any order, with
  -- repeats, losses, expiries and any segments of other flows between, each call for that flow that
  -- gives a message gives the message that scanning the whole stream gives, and each call that raises
  -- raises the error of the whole stream.
  pub add_all-whole_stream :
      (key : K) (isn : ℕ) (stream : Bytes) (limits : Limits) (ss : List (Segment K))
      → All (λ s. IsSegment key isn stream s.flow_key s.seq s.payload s.first) ss
      → All (λ (k, fed). Tells key isn stream k fed) (add_all limits ss [])
  add_all-whole_stream key isn stream limits ss segments =
      add_all-Tells key isn stream limits ss [] segments tt
