-- ===== src/Submit.antt =====
-- computesi.c: relocations, waiting, and the requests that carry a command buffer to a ring. A
-- pointer to a fragment is the list of the block's fragments from that one on; an answer of the
-- kernel is an `int` by its pattern of 32 bits; `none` is an assertion or a read out of bounds.
pub mod Relocs
pub mod Dma
pub mod Copies
pub mod AsyncCopy
pub mod SyncCopy
pub mod Waiting
pub mod Launched
pub mod Tests
use radeonsi_compute.Base.{
  ℕ, zero, suc, ◌+◌, ◌-◌, ◌*◌, ◌==◌, if◌then◌else◌, Option, none, some, List, [], ◌∷◌, ◌++◌,
}
use radeonsi_compute.Base.Stream.{Stream, words}
use radeonsi_compute.Device.{
  ComputeState, GpuBuffer, Cs, CsChunk, CsRelocGem, ComputeRelocs, Kernel,
}
use radeonsi_compute.Command.{surface_sync}
use radeonsi_compute.Command.Build.{fill_launch}
use radeonsi_compute.Pool.{Pool, PoolNode}

abbrev pub Block : Type 0
Block = List GpuBuffer

-- The fragments from the given one on; a pointer behind the block is none.
abbrev pub drop : ℕ → Block → Block
drop zero bs = bs
drop (suc n) [] = []
drop (suc n) (b ∷ bs) = drop n bs

unfoldable pub compute_init_relocs : ComputeRelocs
compute_init_relocs = record { reloc_num = 0; relocs = [] }

-- The relocation of a buffer, as `compute_push_reloc_unfragmented` writes it.
abbrev pub reloc_of : GpuBuffer → CsRelocGem
reloc_of bo = record {
  handle = bo.handle;
  read_domain = bo.domain;
  write_domain = bo.domain;
  flags = 0;
}

unfoldable pub compute_push_reloc_unfragmented : ComputeRelocs → GpuBuffer → ComputeRelocs
compute_push_reloc_unfragmented c bo =
    if c.reloc_num == 0
    then record { reloc_num = 1; relocs = reloc_of bo ∷ [] }
    else record { reloc_num = c.reloc_num + 1; relocs = c.relocs ++ (reloc_of bo ∷ []) }

-- The loop over `bo+i`, with `left` rounds to go.
unfoldable pub push_fragments : ℕ → Block → ComputeRelocs → Option ComputeRelocs
unfolding compute_push_reloc_unfragmented
push_fragments zero bs c = some c
push_fragments (suc left) [] c = none
push_fragments (suc left) (b ∷ bs) c = push_fragments left bs (compute_push_reloc_unfragmented c b)

unfoldable pub compute_push_reloc : ComputeRelocs → Block → Option ComputeRelocs
unfolding push_fragments
compute_push_reloc c [] = none
compute_push_reloc c (bo ∷ bs) = push_fragments bo.fragment_number (bo ∷ bs) c

-- `n->bo` of a node, in the store of the blocks; that of the first node is never written.
abbrev pub bo_of : (ℕ → Block) → PoolNode → Block
bo_of blocks n = elim n.parent [ none ↦ [] | some base ↦ drop n.fragment (blocks base) ]

unfoldable pub push_nodes : (ℕ → Block) → Pool → ComputeRelocs → Option ComputeRelocs
unfolding compute_push_reloc
push_nodes blocks [] c = some c
push_nodes blocks (n ∷ rest) c = elim (compute_push_reloc c (bo_of blocks n)) [
  | none ↦ none
  | some d ↦ push_nodes blocks rest d
]

unfoldable pub compute_create_reloc_table : (ℕ → Block) → Pool → Option ComputeRelocs
unfolding push_nodes compute_init_relocs
compute_create_reloc_table blocks [] = none
compute_create_reloc_table blocks (first ∷ rest) = push_nodes blocks rest compute_init_relocs

-- The array of relocations as the words that the chunk refers to.
abbrev pub reloc_words : List CsRelocGem → List ℕ
reloc_words [] = []
reloc_words (r ∷ rs) = r.handle ∷ r.read_domain ∷ r.write_domain ∷ r.flags ∷ reloc_words rs

abbrev pub radeon_chunk_id_flags : ℕ
radeon_chunk_id_flags = 0x03

abbrev pub radeon_cs_use_vm : ℕ
radeon_cs_use_vm = 0x02

abbrev pub radeon_cs_ring_compute : ℕ
radeon_cs_ring_compute = 1

abbrev pub radeon_cs_ring_dma : ℕ
radeon_cs_ring_dma = 2

-- `sizeof(struct cs_reloc_gem) / sizeof(uint32_t)`.
abbrev pub reloc_size : ℕ
reloc_size = 4

module _ {D : Type 0} (kernel : Kernel D) where
  -- `flags`, `chunks` and `cs`, as each of the requests fills them.
  unfoldable pub request : ℕ → ℕ → ComputeRelocs → Stream → Cs
  request id ring c buf = record {
    num_chunks = 3;
    chunks =
        record {
          chunk_id = radeon_chunk_id_flags;
          length_dw = 2;
          chunk_data = radeon_cs_use_vm ∷ ring ∷ [];
        }
        ∷ record {
          chunk_id = kernel.chunk_id_relocs;
          length_dw = c.reloc_num * reloc_size;
          chunk_data = reloc_words c.relocs;
        }
        ∷ record {
          chunk_id = kernel.chunk_id_ib;
          length_dw = buf.pos;
          chunk_data = words buf.cell 0 buf.pos;
        }
        ∷ [];
    cs_id = id;
  }

  -- The loop while the answer is `-EBUSY`, cut off by fuel.
  unfoldable pub compute_bo_wait_unfragmented : ℕ → GpuBuffer → D → Option (ℕ × D)
  compute_bo_wait_unfragmented zero boi d = none
  compute_bo_wait_unfragmented (suc fuel) boi d =
      let (ret, d') = kernel.wait_idle boi.handle d in
      let again = compute_bo_wait_unfragmented fuel boi d' in
      if ret == kernel.minus_ebusy then again else some (ret, d')

  unfoldable pub wait_fragments : ℕ → ℕ → Block → D → Option (ℕ × D)
  unfolding compute_bo_wait_unfragmented
  wait_fragments fuel zero bs d = some (0, d)
  wait_fragments fuel (suc left) [] d = none
  wait_fragments fuel (suc left) (b ∷ bs) d = elim (compute_bo_wait_unfragmented fuel b d) [
    | none ↦ none
    | some r ↦ if r.0 == 0 then wait_fragments fuel left bs r.1 else some r
  ]

  unfoldable pub compute_bo_wait : ℕ → Block → D → Option (ℕ × D)
  unfolding wait_fragments
  compute_bo_wait fuel [] d = none
  compute_bo_wait fuel (bo ∷ bs) d = wait_fragments fuel bo.fragment_number (bo ∷ bs) d

  -- `buf` holds anything before it is filled.
  unfoldable pub compute_flush_caches : (ℕ → Block) → Pool → (ℕ → ℕ) → D → Option (ℕ × D)
  unfolding request surface_sync compute_create_reloc_table
  compute_flush_caches blocks pool buf d = elim (surface_sync (record { cell = buf; pos = 0 })) [
    | none ↦ none
    | some p ↦ elim (compute_create_reloc_table blocks pool) [
      | none ↦ none
      | some c ↦ some (kernel.submit (request 1 radeon_cs_ring_compute c p) d)
    ]
  ]

  unfoldable pub compute_emit_compute_state_manual_relocs :
      ComputeState → ComputeRelocs → (ℕ → ℕ) → D → Option (ℕ × D)
  unfolding request fill_launch
  compute_emit_compute_state_manual_relocs s c buf d =
      elim (fill_launch s (record { cell = buf; pos = 0 })) [
        | none ↦ none
        | some p ↦ some (kernel.submit (request s.id radeon_cs_ring_compute c p) d)
      ]

  unfoldable pub compute_emit_compute_state :
      (ℕ → Block) → Pool → ComputeState → (ℕ → ℕ) → D → Option (ℕ × D)
  unfolding compute_create_reloc_table compute_emit_compute_state_manual_relocs
  compute_emit_compute_state blocks pool s buf d = elim (compute_create_reloc_table blocks pool) [
    | none ↦ none
    | some c ↦ compute_emit_compute_state_manual_relocs s c buf d
  ]
