-- ===== src/Tls/Streams.antt =====
-- `_contiguous` of src/frfw/tlsfp/reassembly.py, on chunks that are pieces of one stream.
use mathlib.Core.List.{append-nil}
use fr_os_pblk.Base.{
  ℕ, zero, suc, ◌+◌, ◌-◌, ◌≤◌, ◌≡◌, refl, sym, ap, subst, none, some, List, [], ◌∷◌, ◌++◌, length,
  length-take, take, drop, ltb, leb, nat_eq, arith, All, if_ind, if_ind_eq,
}
use fr_os_pblk.Base.Dict.Entries.{put-All}
use fr_os_pblk.Base.Dict.{Dict, get, put}
use fr_os_pblk.Tls.Records.{Bytes}
use fr_os_pblk.Tls.Flows.{
  Flow, Chunk, insert_chunk, sort_chunks, join_chunks, contiguous, set_default,
}

-- The chunk is a piece of the stream, from its offset on.
abbrev pub IsSlice : Bytes → Chunk → Type 0
IsSlice stream (offset, chunk) = (n : ℕ) × (chunk ≡ take n (drop offset stream))

abbrev pub IsPrefix : Bytes → Bytes → Type 0
IsPrefix stream out = (n : ℕ) × (n ≤ length stream) × (out ≡ take n stream)

take_longer : (n : ℕ) (xs : Bytes) → (k : ℕ) × (k ≤ length xs) × (take n xs ≡ take k xs)
take_longer zero xs = (0, omega arith, refl)
take_longer (suc n) [] = (0, omega arith, refl)
take_longer (suc n) (x ∷ xs) =
    let (k, le, same) = take_longer n xs in (suc k, omega arith, ap (λ l. x ∷ l) same)

overlap_zero :
    (n m : ℕ) (stream : Bytes)
    → n ≤ length stream
    → IsPrefix stream (take n stream ++ drop n (take m stream))
overlap_zero zero m stream h = take_longer m stream
overlap_zero (suc n) m [] h = ground arith
overlap_zero (suc n) zero (x ∷ xs) h = (suc n, h, append-nil (take (suc n) (x ∷ xs)))
overlap_zero (suc n) (suc m) (x ∷ xs) h =
    let (k, le, same) = overlap_zero n m xs (omega arith) in
    (suc k, omega arith, ap (λ l. x ∷ l) same)

-- A piece that begins within the prefix makes it longer, or leaves it.
overlap :
    (o d n m : ℕ) (stream : Bytes)
    → n ≡ o + d
    → n ≤ length stream
    → IsPrefix stream (take n stream ++ drop d (take m (drop o stream)))
overlap zero d n m stream e h =
    subst (λ x. IsPrefix stream (take n stream ++ drop x (take m stream))) (omega arith)
      (overlap_zero n m stream h)
overlap (suc o) d zero m stream e h = ground arith
overlap (suc o) d (suc n) m [] e h = ground arith
overlap (suc o) d (suc n) m (x ∷ xs) e h =
    let (k, le, same) = overlap o d n m xs (omega arith) (omega arith) in
    (suc k, omega arith, ap (λ l. x ∷ l) same)

join_chunks-IsPrefix :
    (stream out : Bytes) (chunks : List Chunk)
    → IsPrefix stream out
    → All (IsSlice stream) chunks
    → IsPrefix stream (join_chunks out chunks)
unfolding join_chunks
join_chunks-IsPrefix stream out [] h all = h
join_chunks-IsPrefix stream out ((offset, chunk) ∷ chunks) (n, le, same) ((m, slice), all) =
    if_ind_eq (IsPrefix stream) (ltb (length out) offset) _ _ (λ gap. (n, le, same))
      (λ reaches.
        let size : length out ≡ n =
          ground (arith, ap (length {A = ℕ}) same, length-take n stream, le) in
        let d = length out - offset in
        let longer : IsPrefix stream (out ++ drop d chunk) =
          subst (λ c. IsPrefix stream (out ++ drop d c)) (sym slice)
            (subst (λ o. IsPrefix stream (o ++ drop d (take m (drop offset stream)))) (sym same)
              (overlap offset d n m stream (ground (arith, size, reaches)) le)) in
        join_chunks-IsPrefix stream (out ++ drop d chunk) chunks longer all)

insert_chunk-All :
    (P : Chunk → Type 0) (c : Chunk) (cs : List Chunk) → P c → All P cs → All P (insert_chunk c cs)
unfolding insert_chunk
insert_chunk-All P c [] p all = (p, tt)
insert_chunk-All P c (d ∷ ds) p (q, all) =
    if_ind (All P) (leb c.0 d.0) _ _ (p, (q, all)) (q, insert_chunk-All P c ds p all)

sort_chunks-All : (P : Chunk → Type 0) (cs : List Chunk) → All P cs → All P (sort_chunks cs)
unfolding sort_chunks
sort_chunks-All P [] all = tt
sort_chunks-All P (c ∷ cs) (p, all) =
    insert_chunk-All P c (sort_chunks cs) p (sort_chunks-All P cs all)

pub contiguous-IsPrefix :
    (stream : Bytes) (flow : Flow)
    → All (IsSlice stream) flow.chunks
    → IsPrefix stream (contiguous flow)
unfolding contiguous
contiguous-IsPrefix stream flow all =
    join_chunks-IsPrefix stream [] (sort_chunks flow.chunks) (0, omega arith, refl)
      (sort_chunks-All (IsSlice stream) flow.chunks all)

pub set_default-All :
    (stream : Bytes) (offset : ℕ) (chunk : Bytes) (chunks : Dict ℕ Bytes)
    → IsSlice stream (offset, chunk)
    → All (IsSlice stream) chunks
    → All (IsSlice stream) (set_default offset chunk chunks)
unfolding set_default
set_default-All stream offset chunk chunks slice all =
    elim (get offset chunks)
      as (λ o.
        All (IsSlice stream) (elim o [ none ↦ put offset chunk chunks | some known ↦ chunks ])) [
          | none ↦
              put-All (IsSlice stream) offset chunk chunks
                (λ j same.
                  subst (λ x. IsSlice stream (x, chunk)) (sym ((nat_eq.test_iff j offset).0 same))
                    slice)
                slice all
          | some known ↦ all
        ]
