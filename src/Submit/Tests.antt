-- ===== src/Submit/Tests.antt =====
-- The theorems on the requests at a small device.
use radeonsi_compute.Base.{
  ℕ, ◌≡◌, ◌≢◌, ◌⊎◌, refl, true, false, some, List, [], ◌∷◌, ◌++◌, All, map, arith,
}
use radeonsi_compute.Device.{GpuBuffer}
use radeonsi_compute.Pool.{add64}
use radeonsi_compute.Command.Packets.{Packet, parse}
use radeonsi_compute.Command.Gpu.{Gpu}
use radeonsi_compute.Samples.{
  Toy, toy, toy_device, sample_buffer, sample_blocks, sample_first, sample_nodes,
}
use radeonsi_compute.Submit.{Block, reloc_of, compute_create_reloc_table, compute_bo_wait}
use radeonsi_compute.Submit.Relocs.{
  IsWhole, IsPlaced, with_relocs, pool_relocs, compute_create_reloc_table-pool,
}
use radeonsi_compute.Submit.Dma.{wait_both, compute_send_sync_dma_req, compute_send_async_dma_req}
use radeonsi_compute.Submit.Copies.{copy, request_of}
use radeonsi_compute.Submit.AsyncCopy.{dma_engine, async_bytes, compute_send_async_dma_req-copies}
use radeonsi_compute.Submit.SyncCopy.{cp_dma, compute_send_sync_dma_req-copies}
use radeonsi_compute.Submit.Waiting.{WaitsFor, compute_bo_wait-Waited}

abbrev idle_gpu : Gpu
idle_gpu = record { sh = λ _. 0; flushed = false; launches = [] }

abbrev blank : ℕ → ℕ
blank i = 0

abbrev source : GpuBuffer
source = sample_buffer 3 0x10000 2

abbrev source_rest : Block
source_rest = sample_buffer 4 0x12000 0 ∷ []

abbrev target : GpuBuffer
target = sample_buffer 5 0x14000 1

source-IsWhole : IsWhole (source ∷ source_rest)
source-IsWhole = (refl, (refl, tt))

target-IsWhole : IsWhole (target ∷ [])
target-IsWhole = (refl, tt)

sample_nodes-IsPlaced : All (IsPlaced sample_blocks) sample_nodes
sample_nodes-IsPlaced = (
  (omega arith, source-IsWhole),
  ((omega arith, source-IsWhole), ((omega arith, target-IsWhole), tt)),
)

compute_create_reloc_table-pool_example :
    compute_create_reloc_table sample_blocks (sample_first ∷ sample_nodes)
    ≡ some (with_relocs (pool_relocs sample_blocks sample_nodes))
compute_create_reloc_table-pool_example =
    compute_create_reloc_table-pool sample_blocks sample_first sample_nodes sample_nodes-IsPlaced

compute_send_async_dma_req-copies_example :
    (ws : List ℕ) × (compute_send_async_dma_req toy
        (target ∷ [])
        16
        (source ∷ source_rest)
        32
        4096
        blank
        toy_device
      ≡ some (
          toy.submit
            (request_of toy 1 2
              (map reloc_of (source ∷ source_rest) ++ map reloc_of (target ∷ []))
              ws)
            toy_device))
    × (dma_engine ws
        ≡ some (
            copy
              (add64 0x10000 32)
              (add64 0x14000 16)
              (async_bytes (add64 0x10000 32) (add64 0x14000 16) 4096)))
compute_send_async_dma_req-copies_example =
    compute_send_async_dma_req-copies toy target source [] source_rest 16 32 4096 blank toy_device
      source-IsWhole target-IsWhole (omega arith) (omega arith) (omega arith) (omega arith)

compute_send_sync_dma_req-copies_example :
    (ws : List ℕ) × (ks : List Packet) × (compute_send_sync_dma_req toy
        (target ∷ [])
        16
        (source ∷ source_rest)
        32
        4096
        true
        true
        true
        5
        blank
        toy_device
      ≡ wait_both toy 5 (target ∷ []) (source ∷ source_rest) (
          toy.submit
            (request_of toy 1 1
              (map reloc_of (source ∷ source_rest) ++ map reloc_of (target ∷ []))
              ws)
            toy_device))
    × (parse 1 ws ≡ some ks)
    × (cp_dma ks ≡ some (copy (add64 0x10000 32) (add64 0x14000 16) 4096))
compute_send_sync_dma_req-copies_example =
    compute_send_sync_dma_req-copies toy target source [] source_rest 16 32 4096 true true true 5
      blank toy_device source-IsWhole target-IsWhole (omega arith) (omega arith) (omega arith)
      (omega arith)

-- The device is idle once it is no longer busy.
abbrev pub IsIdle : ℕ → Toy → Type 0
IsIdle h d = d.busy ≡ 0

pub toy-WaitsFor : WaitsFor toy IsIdle (λ d. d.busy)
toy-WaitsFor = record {
  ebusy-nonzero = λ e. absurd (omega (arith, e));
  busy-patience = λ h d e. ground arith;
  patience-kept = λ h d. ground arith;
  zero-Idle = λ h d e. ground arith;
  Idle-kept = λ h i d e. ground arith;
}

compute_bo_wait-Waited_example :
    (r : ℕ × Toy) × (compute_bo_wait toy 3 (source ∷ source_rest) toy_device ≡ some r)
    × (r.0 ≢ 0xfffffff0)
    × ((r.0 ≢ 0) ⊎ All (λ b. IsIdle b.handle r.1) (source ∷ source_rest))
compute_bo_wait-Waited_example =
    compute_bo_wait-Waited toy IsIdle (λ d. d.busy) toy-WaitsFor 3 source source_rest toy_device
      (omega arith) source-IsWhole
