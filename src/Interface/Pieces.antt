-- ===== src/Interface/Pieces.antt =====
-- What the two loops of copies share: the pieces, the requests for them, and the waits.
use radeonsi_compute.Base.{
  ℕ, ◌+◌, ◌-◌, ◌/◌, ◌^◌, ◌<◌, ◌≡◌, ap, ◌∙◌, Option, none, some, List, [], ◌∷◌, ◌++◌, map, arith,
}
use radeonsi_compute.Device.{GpuBuffer, CsRelocGem, Kernel}
use radeonsi_compute.Command.Packets.{parse}
use radeonsi_compute.Submit.{Block, reloc_of, compute_bo_wait}
use radeonsi_compute.Submit.Relocs.{IsWhole}
use radeonsi_compute.Submit.Dma.{wait_both}
use radeonsi_compute.Submit.Copies.{Copy, request_of}
use radeonsi_compute.Submit.SyncCopy.{cp_dma}
use radeonsi_compute.Submit.Waiting.{WaitsFor, block-Waited}

-- The copy that the command processor makes of the words of a request.
abbrev pub sync_copy_of : List ℕ → Option Copy
sync_copy_of ws = elim (parse 1 ws) [ none ↦ none | some ks ↦ cp_dma ks ]

abbrev pub both_relocs : Block → Block → List CsRelocGem
both_relocs src dst = map reloc_of src ++ map reloc_of dst

-- How many pieces are left.
abbrev pub pieces : ℕ → ℕ
pieces left = (left + 2 ^ 19 - 1) / 2 ^ 19

module _ {D : Type 0} (kernel : Kernel D) where
  -- The requests with these words, one after the other; the answer is that to the last.
  abbrev pub submits : ℕ → List CsRelocGem → List (List ℕ) → ℕ × D → ℕ × D
  submits ring rs [] r = r
  submits ring rs (ws ∷ rest) (r, d) =
      submits ring rs rest (kernel.submit (request_of kernel 1 ring rs ws) d)

  pub wait_both-returns :
      (Idle : ℕ → D → Type 0) (patience : D → ℕ) (fuel : ℕ) (dst src : GpuBuffer) (ds ss : Block)
      (r : ℕ × D)
      → WaitsFor kernel Idle patience
      → IsWhole (dst ∷ ds)
      → IsWhole (src ∷ ss)
      → patience r.1 < fuel
      → (q : ℕ × D) × (wait_both kernel fuel (dst ∷ ds) (src ∷ ss) r ≡ some q)
  unfolding wait_both
  wait_both-returns Idle patience fuel dst src ds ss r waits wd ws h =
      let (a, e1, w1) = block-Waited kernel Idle patience waits fuel dst ds r.1 h wd in
      let (b, e2, w2) =
        block-Waited kernel Idle patience waits fuel src ss a.1 (omega (arith, w1.patient, h)) ws in
      (
        (r.0, b.1),
        ap
              (λ o. elim o [
                | none ↦ none
                | some (_, d1) ↦ elim (compute_bo_wait kernel fuel (src ∷ ss) d1) [
                  | none ↦ none
                  | some (_, d2) ↦ some (r.0, d2)
                ]
              ])
              e1
            ∙ ap (λ o. elim o [ none ↦ none | some (_, d2) ↦ some (r.0, d2) ]) e2,
      )
