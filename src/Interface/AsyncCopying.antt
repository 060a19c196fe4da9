-- ===== src/Interface/AsyncCopying.antt =====
-- The loop of `asyncDMACopy`: the requests for its pieces, and what the DMA engine copies.
use radeonsi_compute.Base.{
  ℕ, zero, suc, ◌+◌, ◌-◌, ◌%◌, ◌^◌, ◌≤◌, ◌<◌, ◌≡◌, refl, sym, ap, ap₂, ◌∙◌, true, false, ltb, leb,
  if◌then◌else◌, Option, none, some, List, [], ◌∷◌, length, map, arith, Bool-cases, inl, inr,
  leb→le,
}
use mathlib.Core.Path.{subst}
use radeonsi_compute.Device.{GpuBuffer, CsRelocGem, Kernel}
use radeonsi_compute.Pool.{add64}
use radeonsi_compute.Submit.{Block}
use radeonsi_compute.Submit.Relocs.{IsWhole}
use radeonsi_compute.Submit.Dma.{compute_send_async_dma_req}
use radeonsi_compute.Submit.Copies.{Copy, copy, request_of}
use radeonsi_compute.Submit.AsyncCopy.{dma_engine, compute_send_async_dma_req-copies}
use radeonsi_compute.Interface.{cur_size, async_loop, async_dma_copy}
use radeonsi_compute.Interface.Pieces.{both_relocs, pieces, submits}
use radeonsi_compute.Interface.Moves.{run_copy, run_copies, Covers, Apart, Covers-whole}
use radeonsi_compute.Interface.KeptBytes.{
  kept_bytes, async_bytes-kept, kept_bytes-full, kept_bytes-last,
}

module _ {D : Type 0} (kernel : Kernel D) where
  module _ (dst src : GpuBuffer) (ds ss : Block) (dst_offset src_offset size : ℕ)
      (bufs : ℕ → ℕ → ℕ) where
    abbrev rs : List CsRelocGem
    rs = both_relocs (src ∷ ss) (dst ∷ ds)

    abbrev src_start : ℕ
    src_start = src.va + src_offset

    abbrev dst_start : ℕ
    dst_start = dst.va + dst_offset

    abbrev loop : ℕ → ℕ → D → Option D
    loop rounds i d =
        async_loop kernel rounds (dst ∷ ds) dst_offset (src ∷ ss) src_offset size bufs i d

    abbrev go_on : ℕ → ℕ → Option (ℕ × D) → Option D
    go_on rounds i o = elim o [ none ↦ none | some (_, d') ↦ loop rounds i d' ]

    at_end : (rounds : ℕ) (d : D) → loop (suc rounds) size d ≡ some d
    unfolding async_loop
    at_end rounds d = let no_more : ltb size size ≡ false = ground arith in rw no_more

    -- One round: a request for the next piece.
    one_round :
        (rounds i n : ℕ) (d : D)
        → IsWhole (src ∷ ss)
        → IsWhole (dst ∷ ds)
        → src_start + size < 2 ^ 40
        → dst_start + size < 2 ^ 40
        → i < size
        → n ≡ cur_size size i
        → (ws : List ℕ) × (loop (suc rounds) i d
            ≡ loop rounds (i + n) (kernel.submit (request_of kernel 1 2 rs ws) d).1)
          × (dma_engine ws
              ≡ some (
                  copy
                    (src_start + i)
                    (dst_start + i)
                    (kept_bytes (src_start + i) (dst_start + i) n)))
    unfolding async_loop
    one_round rounds i n d ws wd hs hd l e =
        let m = cur_size size i in
        let more : ltb i size ≡ true = ground arith in
        let next : add64 i m ≡ i + n = omega (arith, e) in
        let from : add64 src.va (add64 i src_offset) ≡ src_start + i = omega (arith, hs, l) in
        let to : add64 dst.va (add64 i dst_offset) ≡ dst_start + i = omega (arith, hd, l) in
        let (words, request, copies) =
          compute_send_async_dma_req-copies kernel dst src ds ss (add64 i dst_offset)
            (add64 i src_offset) m (bufs i) d ws wd (omega (arith, l)) (omega (arith, l))
            (omega (arith, from, hs, l)) (omega (arith, to, hd, l)) in
        let send : Option (ℕ × D) =
          compute_send_async_dma_req kernel (dst ∷ ds) (add64 i dst_offset) (src ∷ ss)
            (add64 i src_offset) m (bufs i) d in
        let sent = kernel.submit (request_of kernel 1 2 rs words) d in
        (
          words,
          ap (λ t. if t then go_on rounds (add64 i m) send else some d) more
              ∙ ap (go_on rounds (add64 i m)) request
              ∙ ap (λ k. loop rounds k sent.1) next,
          copies
              ∙ ap some
                  (ap (copy _ _) (async_bytes-kept _ _ m (omega arith)) ∙ rw (from, to, e) refl),
        )

    -- From a piece on, the loop sends the requests for the pieces that are left.
    async_loop-pieces :
        (rounds i : ℕ) (r : ℕ × D)
        → IsWhole (src ∷ ss)
        → IsWhole (dst ∷ ds)
        → src_start + size < 2 ^ 40
        → dst_start + size < 2 ^ 40
        → i < size
        → i % 2 ^ 19 ≡ 0
        → pieces (size - i) < rounds
        → (wss : List (List ℕ)) × (cs : List Copy) × (loop rounds i r.1
            ≡ some (submits kernel 2 rs wss r).1)
          × (length wss ≡ pieces (size - i))
          × (map dma_engine wss ≡ map some cs)
          × Covers src_start dst_start i (kept_bytes src_start dst_start size) cs
    async_loop-pieces zero i r ws wd hs hd l a enough = absurd (omega arith)
    async_loop-pieces (suc zero) i r ws wd hs hd l a enough = absurd (omega arith)
    async_loop-pieces (suc (suc rounds)) i r ws wd hs hd l a enough =
        let n = cur_size size i in
        let one = one_round (suc rounds) i n r.1 ws wd hs hd l refl in
        let sent = kernel.submit (request_of kernel 1 2 rs one.0) r.1 in
        let bytes = kept_bytes (src_start + i) (dst_start + i) n in
        let c = copy (src_start + i) (dst_start + i) bytes in
        elim (Bool-cases (leb size (i + n))) [
          | inl last ↦
              let end : i + n ≡ size = omega (arith, leb→le _ _ last) in
              (
                one.0 ∷ [],
                c ∷ [],
                one.1 ∙ ap (λ k. loop (suc rounds) k sent.1) end ∙ at_end rounds sent.1,
                omega (arith, end),
                ap (λ o. o ∷ []) one.2,
                (
                  refl,
                  refl,
                  kept_bytes-last src_start dst_start i n a
                      ∙ ap (kept_bytes src_start dst_start) end,
                ),
              )
          | inr further ↦
              let l' : i + n < size = ground arith in
              let full : n ≡ 2 ^ 19 = omega (arith, l') in
              let whole : bytes ≡ n =
                ap (kept_bytes (src_start + i) (dst_start + i)) full
                ∙ kept_bytes-full (src_start + i) (dst_start + i)
                ∙ sym full in
              let rest =
                async_loop-pieces (suc rounds) (i + n) sent ws wd hs hd l' (omega (arith, full, a))
                  (omega (arith, full, enough)) in
              (
                one.0 ∷ rest.0,
                c ∷ rest.1,
                one.1 ∙ rest.2,
                omega (arith, full, rest.3),
                ap₂ (◌∷◌) one.2 rest.4,
                (
                  refl,
                  refl,
                  subst
                      (λ k.
                        Covers src_start dst_start (i + k) (kept_bytes src_start dst_start size)
                          rest.1)
                      (sym whole) rest.5,
                ),
              )
        ]

    -- If both buffers are whole blocks, the copy ends below 2 ^ 40 in both, and source and
    -- destination have no byte in common, an asynchronous copy of 1 byte or more returns, with a
    -- round for each piece and one more. One request for each 512 KiB begun goes to the DMA ring,
    -- and the engine reads it as one copy. The copies leave the memory that one copy leaves, of
    -- `size` bytes, less the last `size % 4` where both addresses are multiples of 4.
    pub async_dma_copy-copies :
        (rounds : ℕ) (d : D)
        → IsWhole (src ∷ ss)
        → IsWhole (dst ∷ ds)
        → src_start + size < 2 ^ 40
        → dst_start + size < 2 ^ 40
        → 0 < size
        → pieces size < rounds
        → Apart src_start dst_start size
        → (wss : List (List ℕ)) × (cs : List Copy) × (async_dma_copy kernel rounds
              (dst ∷ ds)
              dst_offset
              (src ∷ ss)
              src_offset
              size
              bufs
              d
            ≡ some (submits kernel 2 rs wss (0, d)).1)
          × (length wss ≡ pieces size)
          × (map dma_engine wss ≡ map some cs)
          × ((m : ℕ → ℕ) (a : ℕ)
              → run_copies cs m a
                ≡ run_copy (copy src_start dst_start (kept_bytes src_start dst_start size)) m a)
    unfolding async_dma_copy
    async_dma_copy-copies rounds d ws wd hs hd pos enough apart =
        let (wss, cs, e, n, words, covers) =
          async_loop-pieces rounds 0 (0, d) ws wd hs hd pos (omega arith) (omega (arith, enough)) in
        (
          wss,
          cs,
          e,
          omega (arith, n),
          words,
          λ m a.
              Covers-whole src_start dst_start (kept_bytes src_start dst_start size) cs m a
                (shorter apart) covers,
        )
      where
        at_most : kept_bytes src_start dst_start size ≤ size
        at_most = ground arith

        shorter :
            Apart src_start dst_start size
            → Apart src_start dst_start (kept_bytes src_start dst_start size)
        shorter (inl x) = inl (omega (arith, at_most, x))
        shorter (inr x) = inr (omega (arith, at_most, x))
