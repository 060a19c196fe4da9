-- ===== src/Interface/SyncCopying.antt =====
-- The loop of `syncDMACopy`: pieces of at most 512 KiB that make up one copy.
use radeonsi_compute.Base.{
  ℕ, zero, suc, ◌+◌, ◌-◌, ◌^◌, ◌≤◌, ◌<◌, ◌≡◌, refl, ap, ap₂, ◌∙◌, Bool, true, false, ltb, leb, ◌==◌,
  if◌then◌else◌, Option, none, some, List, [], ◌∷◌, length, map, arith, Bool-cases, inl, inr,
  leb→le,
}
use radeonsi_compute.Device.{GpuBuffer, CsRelocGem, Kernel}
use radeonsi_compute.Pool.{add64}
use radeonsi_compute.Submit.{Block}
use radeonsi_compute.Submit.Relocs.{IsWhole}
use radeonsi_compute.Submit.Dma.{wait_both, compute_send_sync_dma_req}
use radeonsi_compute.Submit.Copies.{Copy, copy, request_of}
use radeonsi_compute.Submit.SyncCopy.{cp_dma, compute_send_sync_dma_req-copies}
use radeonsi_compute.Submit.Waiting.{WaitsFor}
use radeonsi_compute.Interface.{cur_size, sync_loop, sync_dma_copy}
use radeonsi_compute.Interface.Pieces.{
  sync_copy_of, both_relocs, pieces, submits, wait_both-returns,
}
use radeonsi_compute.Interface.Moves.{run_copy, run_copies, Covers, Apart, Covers-whole}

module _ {D : Type 0} (kernel : Kernel D) where
  module _ (dst src : GpuBuffer) (ds ss : Block) (dst_offset src_offset size fuel : ℕ)
      (bufs : ℕ → ℕ → ℕ) where
    abbrev rs : List CsRelocGem
    rs = both_relocs (src ∷ ss) (dst ∷ ds)

    abbrev src_start : ℕ
    src_start = src.va + src_offset

    abbrev dst_start : ℕ
    dst_start = dst.va + dst_offset

    abbrev loop : ℕ → ℕ → D → Option D
    loop rounds i d =
        sync_loop kernel rounds (dst ∷ ds) dst_offset (src ∷ ss) src_offset size fuel bufs i d

    -- What the loop does with the answer of a request.
    abbrev go_on : ℕ → ℕ → Option (ℕ × D) → Option D
    go_on rounds i o = elim o [ none ↦ none | some (_, d') ↦ loop rounds i d' ]

    abbrev waits : ℕ × D → Option (ℕ × D)
    waits r = wait_both kernel fuel (dst ∷ ds) (src ∷ ss) r

    abbrev branch : ℕ → ℕ → ℕ × D → Bool → Option D
    branch rounds i sent t = go_on rounds i (if t then waits sent else some sent)

    -- What the loop leaves when all requests are sent.
    abbrev ended : ℕ × D → Option D
    ended r = elim (waits r) [ none ↦ none | some (_, d') ↦ some d' ]

    at_end : (rounds : ℕ) (d : D) → loop (suc rounds) size d ≡ some d
    unfolding sync_loop
    at_end rounds d = let no_more : ltb size size ≡ false = ground arith in rw no_more

    finish :
        (rounds : ℕ) (o : Option (ℕ × D))
        → go_on (suc rounds) size o ≡ elim o [ none ↦ none | some (_, d') ↦ some d' ]
    finish rounds none = refl
    finish rounds (some (_, d')) = at_end rounds d'

    -- One round: a request for the next piece, with the waits where it is the last.
    one_round :
        (rounds i n : ℕ) (d : D)
        → IsWhole (src ∷ ss)
        → IsWhole (dst ∷ ds)
        → src_start + size < 2 ^ 48
        → dst_start + size < 2 ^ 48
        → i < size
        → n ≡ cur_size size i
        → (ws : List ℕ) × (loop (suc rounds) i d ≡ (
            let sent = kernel.submit (request_of kernel 1 1 rs ws) d in
            go_on rounds (i + n) (if leb size (i + n) then waits sent else some sent)))
          × (sync_copy_of ws ≡ some (copy (src_start + i) (dst_start + i) n))
    unfolding sync_loop
    one_round rounds i n d ws wd hs hd l e =
        let m = cur_size size i in
        let more : ltb i size ≡ true = ground arith in
        let next : add64 i m ≡ i + n = omega (arith, e) in
        let from : add64 src.va (add64 i src_offset) ≡ src_start + i = omega (arith, hs, l) in
        let to : add64 dst.va (add64 i dst_offset) ≡ dst_start + i = omega (arith, hd, l) in
        let (words, packets, request, parsed, copies) =
          compute_send_sync_dma_req-copies kernel dst src ds ss (add64 i dst_offset)
            (add64 i src_offset) m (leb size (add64 i m)) (i == 0) true fuel (bufs i) d ws wd
            (omega (arith, l)) (omega (arith, l)) (omega (arith, from, hs, l))
            (omega (arith, to, hd, l)) in
        let send : Option (ℕ × D) =
          compute_send_sync_dma_req kernel (dst ∷ ds) (add64 i dst_offset) (src ∷ ss)
            (add64 i src_offset) m (leb size (add64 i m)) (i == 0) true fuel (bufs i) d in
        let sent = kernel.submit (request_of kernel 1 1 rs words) d in
        (
          words,
          ap (λ t. if t then go_on rounds (add64 i m) send else some d) more
              ∙ ap (go_on rounds (add64 i m)) request
              ∙ ap (λ k. go_on rounds k (if leb size k then waits sent else some sent)) next,
          ap (λ o. elim o [ none ↦ none | some ks ↦ cp_dma ks ]) parsed
              ∙ copies
              ∙ rw (from, to, e) refl,
        )

    -- From a piece on, the loop sends the requests for the pieces that are left, then waits.
    sync_loop-pieces :
        (rounds i : ℕ) (r : ℕ × D)
        → IsWhole (src ∷ ss)
        → IsWhole (dst ∷ ds)
        → src_start + size < 2 ^ 48
        → dst_start + size < 2 ^ 48
        → i < size
        → pieces (size - i) < rounds
        → (wss : List (List ℕ)) × (cs : List Copy) × (loop rounds i r.1
            ≡ ended (submits kernel 1 rs wss r))
          × (length wss ≡ pieces (size - i))
          × (map sync_copy_of wss ≡ map some cs)
          × Covers src_start dst_start i size cs
    sync_loop-pieces zero i r ws wd hs hd l enough = absurd (omega arith)
    sync_loop-pieces (suc zero) i r ws wd hs hd l enough = absurd (omega arith)
    sync_loop-pieces (suc (suc rounds)) i r ws wd hs hd l enough =
        let n = cur_size size i in
        let one = one_round (suc rounds) i n r.1 ws wd hs hd l refl in
        let sent = kernel.submit (request_of kernel 1 1 rs one.0) r.1 in
        let c = copy (src_start + i) (dst_start + i) n in
        elim (Bool-cases (leb size (i + n))) [
          | inl last ↦
              let end : i + n ≡ size = omega (arith, leb→le _ _ last) in
              (
                one.0 ∷ [],
                c ∷ [],
                one.1
                    ∙ ap (branch (suc rounds) (i + n) sent) last
                    ∙ ap (λ k. go_on (suc rounds) k (waits sent)) end
                    ∙ finish rounds (waits sent),
                omega (arith, end),
                ap (λ o. o ∷ []) one.2,
                (refl, refl, end),
              )
          | inr further ↦
              let l' : i + n < size = ground arith in
              let full : n ≡ 2 ^ 19 = omega (arith, l') in
              let rest =
                sync_loop-pieces (suc rounds) (i + n) sent ws wd hs hd l'
                  (omega (arith, full, enough)) in
              (
                one.0 ∷ rest.0,
                c ∷ rest.1,
                one.1 ∙ ap (branch (suc rounds) (i + n) sent) further ∙ rest.2,
                omega (arith, full, rest.3),
                ap₂ (◌∷◌) one.2 rest.4,
                (refl, refl, rest.5),
              )
        ]

    -- The requests are bounded work: whichever are sent, at most as many as there are pieces, the
    -- patience of the kernel is then below the fuel.
    abbrev pub IsBounded : (D → ℕ) → ℕ → List CsRelocGem → D → Type 0
    IsBounded patience ring rs d =
        (wss : List (List ℕ))
        → length wss ≤ pieces size
        → patience (submits kernel ring rs wss (0, d)).1 < fuel

    -- If both buffers are whole blocks, the copy ends below 2 ^ 48 in both, and source and
    -- destination have no byte in common, a synchronous copy of 1 byte or more returns, with a round
    -- for each piece and one more and with fuel for the waits. One request for each 512 KiB begun
    -- goes to the compute ring, and the command processor reads it as one copy; then the waits for
    -- the destination and the source follow. The copies leave the memory that one copy of `size`
    -- bytes leaves.
    pub sync_dma_copy-copies :
        (Idle : ℕ → D → Type 0) (patience : D → ℕ) (rounds : ℕ) (d : D)
        → WaitsFor kernel Idle patience
        → IsBounded patience 1 rs d
        → IsWhole (src ∷ ss)
        → IsWhole (dst ∷ ds)
        → src_start + size < 2 ^ 48
        → dst_start + size < 2 ^ 48
        → 0 < size
        → pieces size < rounds
        → Apart src_start dst_start size
        → (d' : D) × (wss : List (List ℕ)) × (cs : List Copy) × (r : ℕ × D) × (sync_dma_copy kernel
              rounds
              (dst ∷ ds)
              dst_offset
              (src ∷ ss)
              src_offset
              size
              fuel
              bufs
              d
            ≡ some d')
          × (waits (submits kernel 1 rs wss (0, d)) ≡ some (r.0, d'))
          × (length wss ≡ pieces size)
          × (map sync_copy_of wss ≡ map some cs)
          × ((m : ℕ → ℕ) (a : ℕ) → run_copies cs m a ≡ run_copy (copy src_start dst_start size) m a)
    unfolding sync_dma_copy
    sync_dma_copy-copies Idle patience rounds d waiting bounded ws wd hs hd pos enough apart =
        let (wss, cs, e, n, words, covers) =
          sync_loop-pieces rounds 0 (0, d) ws wd hs hd pos (omega (arith, enough)) in
        let (q, w) =
          wait_both-returns kernel Idle patience fuel dst src ds ss (submits kernel 1 rs wss (0, d))
            waiting wd ws (bounded wss (omega (arith, n))) in
        (
          q.1,
          wss,
          cs,
          q,
          e ∙ ap (λ o. elim o [ none ↦ none | some (_, d') ↦ some d' ]) w,
          w,
          omega (arith, n),
          words,
          λ m a. Covers-whole src_start dst_start size cs m a apart covers,
        )
