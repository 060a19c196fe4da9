-- ===== src/Interface.antt =====
-- compute_interface.cpp: the class `ComputeInterface`. An outer `none` is an assertion that fails
-- or a use of NULL; an `int` is its pattern of 32 bits and a `size_t` has 64 bits.
pub mod Moves
pub mod Pieces
pub mod SyncCopying
pub mod KeptBytes
pub mod AsyncCopying
pub mod Launch
pub mod Launching
pub mod Tests
use radeonsi_compute.Base.{
  ℕ, zero, suc, ◌+◌, ◌-◌, ◌*◌, ◌/◌, ◌%◌, ◌^◌, Bool, true, false, ◌&&◌, ◌||◌, ltb, leb, ◌==◌,
  if◌then◌else◌, Option, none, some, List, [], ◌∷◌, length, min,
}
use radeonsi_compute.Base.Bits.{u32}
use radeonsi_compute.Device.{GpuBuffer, Dim3, ComputeState, ComputeRelocs, Kernel}
use radeonsi_compute.Pool.{add64}
use radeonsi_compute.Submit.{
  Block, compute_init_relocs, compute_push_reloc, compute_bo_wait, compute_flush_caches,
  compute_emit_compute_state_manual_relocs,
}
use radeonsi_compute.Submit.Dma.{
  compute_send_sync_dma_req, compute_send_async_dma_req, compute_send_dma_fence,
}
use radeonsi_compute.Buffers.{World, compute_alloc_gpu_buffer, compute_free_gpu_buffer}
use radeonsi_compute.Context.{
  Held, Answers, ComputeContext, Outcome, compute_create_context, compute_free_context,
}
use radeonsi_compute.Transfer.{compute_copy_to_gpu, compute_copy_from_gpu}

-- How a call ends that can throw.
pub data Ending {ℓ} (A : Type ℓ) : Type ℓ where
  returned : A → Ending A
  thrown : Ending A

-- `RADEON_DOMAIN_VRAM` and `RADEON_DOMAIN_GTT`.
abbrev pub radeon_domain_gtt : ℕ
radeon_domain_gtt = 2

abbrev pub radeon_domain_vram : ℕ
radeon_domain_vram = 4

-- The constructor; the outer `none` is an assertion of `compute_create_context`.
unfoldable pub compute_interface : Answers → Option (Ending ComputeContext × Held)
unfolding compute_create_context
compute_interface a = elim (compute_create_context a) [
  | none ↦ none
  | some (none, h) ↦ some (thrown, h)
  | some (some c, h) ↦ some (returned c, h)
]

-- `size_t fragmentSize`.
abbrev pub dma_fragment_size : ℕ
dma_fragment_size = 512 * 1024

-- `std::min(fragmentSize, size-i)`; `i` is below `size` where it is taken.
abbrev pub cur_size : ℕ → ℕ → ℕ
cur_size size i = min dma_fragment_size (size - i)

-- A copy without a buffer fails its assertions.
abbrev pub if_there {ℓ} : {A : Type ℓ} → Block → Block → Option A → Option A
if_there [] dst r = none
if_there (s ∷ ss) [] r = none
if_there (s ∷ ss) (d ∷ ds) r = r

-- `getVirtualAddress` and `getHardwareMemorySize`.
unfoldable pub get_virtual_address : Block → Option ℕ
get_virtual_address [] = none
get_virtual_address (buf ∷ rest) = some buf.va

unfoldable pub get_hardware_memory_size : ComputeContext → ℕ
get_hardware_memory_size context = context.vram_size

module _ {D : Type 0} (kernel : Kernel D) where
  unfoldable pub buffer_alloc : ℕ → ℕ → World D → Option (Option ℕ × World D)
  unfolding compute_alloc_gpu_buffer
  buffer_alloc base size w =
      compute_alloc_gpu_buffer kernel base size radeon_domain_vram (8 * 1024) w

  unfoldable pub buffer_alloc_gtt : ℕ → ℕ → World D → Option (Option ℕ × World D)
  unfolding compute_alloc_gpu_buffer
  buffer_alloc_gtt base size w =
      compute_alloc_gpu_buffer kernel base size radeon_domain_gtt (8 * 1024) w

  -- The loop of `syncDMACopy` from `i` on, cut off by `rounds`; `bufs i` is what the buffer of the
  -- request at `i` holds before it is filled, and `fuel` is for the waits.
  unfoldable pub sync_loop : ℕ → Block → ℕ → Block → ℕ → ℕ → ℕ → (ℕ → ℕ → ℕ) → ℕ → D → Option D
  unfolding compute_send_sync_dma_req
  sync_loop zero dst dst_offset src src_offset size fuel bufs i d = none
  sync_loop (suc rounds) dst dst_offset src src_offset size fuel bufs i d =
      let n = cur_size size i in
      let round : Option D =
        elim (compute_send_sync_dma_req kernel dst (add64 i dst_offset) src (add64 i src_offset) n
          (leb size (add64 i n)) (i == 0) true fuel (bufs i) d) [
            | none ↦ none
            | some (r, d') ↦
                sync_loop rounds dst dst_offset src src_offset size fuel bufs (add64 i n) d'
          ] in
      if ltb i size then round else some d

  unfoldable pub sync_dma_copy : ℕ → Block → ℕ → Block → ℕ → ℕ → ℕ → (ℕ → ℕ → ℕ) → D → Option D
  unfolding sync_loop
  sync_dma_copy rounds dst dst_offset src src_offset size fuel bufs d =
      if_there src dst (sync_loop rounds dst dst_offset src src_offset size fuel bufs 0 d)

  -- The loop of `asyncDMACopy`.
  unfoldable pub async_loop : ℕ → Block → ℕ → Block → ℕ → ℕ → (ℕ → ℕ → ℕ) → ℕ → D → Option D
  unfolding compute_send_async_dma_req
  async_loop zero dst dst_offset src src_offset size bufs i d = none
  async_loop (suc rounds) dst dst_offset src src_offset size bufs i d =
      let n = cur_size size i in
      let round : Option D =
        elim (compute_send_async_dma_req kernel dst (add64 i dst_offset) src (add64 i src_offset) n
          (bufs i) d) [
            | none ↦ none
            | some (r, d') ↦
                async_loop rounds dst dst_offset src src_offset size bufs (add64 i n) d'
          ] in
      if ltb i size then round else some d

  unfoldable pub async_dma_copy : ℕ → Block → ℕ → Block → ℕ → ℕ → (ℕ → ℕ → ℕ) → D → Option D
  unfolding async_loop
  async_dma_copy rounds dst dst_offset src src_offset size bufs d =
      if_there src dst (async_loop rounds dst dst_offset src src_offset size bufs 0 d)

  unfoldable pub buffer_free : ℕ → World D → Option (World D)
  unfolding compute_free_gpu_buffer
  buffer_free base w = compute_free_gpu_buffer kernel base w

  -- The destructor, with fuel for the loop that it ends in.
  unfoldable pub close_interface : ℕ → World D → Held → Option (World D × Held)
  unfolding compute_free_context
  close_interface fuel w h = compute_free_context kernel fuel w h

  unfoldable pub async_dma_fence : ℕ → Block → D → Option (ℕ × D)
  unfolding compute_send_dma_fence
  async_dma_fence fuel bo d = compute_send_dma_fence kernel fuel bo d

  -- The two transfers drop the answer.
  unfoldable pub transfer_to_gpu : Block → ℕ → (ℕ → ℕ) → ℕ → ℕ → D → Option D
  unfolding compute_copy_to_gpu
  transfer_to_gpu buf offset mem at size d =
      elim (compute_copy_to_gpu kernel buf offset mem at size d) [
        | none ↦ none
        | some (_, d') ↦ some d'
      ]

  unfoldable pub transfer_from_gpu : Block → ℕ → (ℕ → ℕ) → ℕ → ℕ → D → Option ((ℕ → ℕ) × D)
  unfolding compute_copy_from_gpu
  transfer_from_gpu buf offset mem at size d =
      elim (compute_copy_from_gpu kernel buf offset mem at size d) [
        | none ↦ none
        | some (_, mem', d') ↦ some (mem', d')
      ]

  -- `waitBuffer`; no answer is looked at.
  unfoldable pub wait_buffer : ℕ → ℕ → (ℕ → ℕ) → World D → Option (World D)
  unfolding compute_bo_wait compute_flush_caches
  wait_buffer fuel base buf w = elim (compute_bo_wait kernel fuel (w.blocks base) w.device) [
    | none ↦ none
    | some (_, d1) ↦ elim (compute_flush_caches kernel w.blocks w.pool buf d1) [
      | none ↦ none
      | some (_, d2) ↦ elim (compute_bo_wait kernel fuel (w.blocks base) d2) [
        | none ↦ none
        | some (_, d3) ↦ some (record w { device = d3 })
      ]
    ]
  ]
