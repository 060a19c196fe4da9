-- ===== src/Submit/Copies.antt =====
-- The requests of the two kinds of copy.
use radeonsi_compute.Base.{
  ℕ, ◌+◌, ◌*◌, ◌^◌, ◌<◌, ◌≡◌, ap, ◌∙◌, true, none, some, List, [], ◌∷◌, ◌++◌, length, map, arith,
}
use radeonsi_compute.Base.Bits.{bit_and_mask}
use radeonsi_compute.Base.Stream.{puts, pos-puts, words-puts}
use radeonsi_compute.Device.{GpuBuffer, Cs, CsRelocGem, Kernel}
use radeonsi_compute.Submit.{
  Block, reloc_of, compute_init_relocs, compute_push_reloc, request, reloc_words,
}
use radeonsi_compute.Submit.Relocs.{IsWhole, with_relocs, push_whole}
use radeonsi_compute.Submit.Dma.{submit_copy, dma_size_ok, copy_relocs}

-- A copy that an engine makes.
pub record Copy : Type 0 where
  pub src : ℕ
  pub dst : ℕ
  pub bytes : ℕ

abbrev pub copy : ℕ → ℕ → ℕ → Copy
copy s d n = record { src = s; dst = d; bytes = n }

-- A request as the kernel is to see it: three chunks, each as long as its data.
abbrev pub request_of : {D : Type 0} → Kernel D → ℕ → ℕ → List CsRelocGem → List ℕ → Cs
request_of kernel id ring rs ws = record {
  num_chunks = 3;
  chunks =
      record { chunk_id = 3; length_dw = 2; chunk_data = 2 ∷ ring ∷ [] }
      ∷ record {
        chunk_id = kernel.chunk_id_relocs;
        length_dw = length rs * 4;
        chunk_data = reloc_words rs;
      }
      ∷ record { chunk_id = kernel.chunk_id_ib; length_dw = length ws; chunk_data = ws }
      ∷ [];
  cs_id = id;
}

module _ {D : Type 0} (kernel : Kernel D) where
  pub request-puts :
      (id ring : ℕ) (rs : List CsRelocGem) (ws : List ℕ) (buf : ℕ → ℕ)
      → request kernel id ring (with_relocs rs) (puts ws (record { cell = buf; pos = 0 }))
        ≡ request_of kernel id ring rs ws
  unfolding request
  request-puts id ring rs ws buf = rw (
    pos-puts ws (record { cell = buf; pos = 0 }),
    from_zero,
    words-puts ws [] (record { cell = buf; pos = 0 }),
  )
    where
      from_zero : 0 + length ws ≡ length ws
      from_zero = omega arith

  copy_relocs-both :
      (s d : GpuBuffer) (ss ds : Block)
      → IsWhole (s ∷ ss)
      → IsWhole (d ∷ ds)
      → copy_relocs (s ∷ ss) (d ∷ ds)
        ≡ some (with_relocs (map reloc_of (s ∷ ss) ++ map reloc_of (d ∷ ds)))
  unfolding copy_relocs compute_init_relocs
  copy_relocs-both s d ss ds hs hd =
      ap (λ o. elim o [ none ↦ none | some c ↦ compute_push_reloc c (d ∷ ds) ])
        (push_whole s ss [] hs)
      ∙ push_whole d ds (map reloc_of (s ∷ ss)) hd

  pub submit_copy-puts :
      (ring : ℕ) (s d : GpuBuffer) (ss ds : Block) (ws : List ℕ) (buf : ℕ → ℕ) (state : D)
      → IsWhole (s ∷ ss)
      → IsWhole (d ∷ ds)
      → submit_copy kernel ring
          (s ∷ ss)
          (d ∷ ds)
          (some (puts ws (record { cell = buf; pos = 0 })))
          state
        ≡ some (
            kernel.submit
              (request_of kernel 1 ring (map reloc_of (s ∷ ss) ++ map reloc_of (d ∷ ds)) ws)
              state)
  submit_copy-puts ring s d ss ds ws buf state hs hd =
      ap
        (λ o. elim o [
          | none ↦ none
          | some c ↦ some (
              kernel.submit (request kernel 1 ring c (puts ws (record { cell = buf; pos = 0 })))
                state)
        ])
        (copy_relocs-both s d ss ds hs hd)
      ∙ ap (λ r. some (kernel.submit r state))
          (request-puts 1 ring (map reloc_of (s ∷ ss) ++ map reloc_of (d ∷ ds)) ws buf)

pub size_ok : (size : ℕ) → 0 < size → size < 2 ^ 21 → dma_size_ok size ≡ true
size_ok size h0 h1 = ground (arith, bit_and_mask 21 size, h0, h1)
