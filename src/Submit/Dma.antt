-- ===== src/Submit/Dma.antt =====
-- computesi.c: copies by the DMA engines, `compute_send_sync_dma_req` on the ring of the compute
-- processor and `compute_send_async_dma_req` on the ring of the DMA engine, and the fence.
use radeonsi_compute.Base.{
  ℕ, ◌-◌, ◌/◌, ◌^◌, bit_and, ◌==◌, if◌then◌else◌, ◌&&◌, not, Bool, Option, none, some, [], ◌∷◌,
  ◌<<◌, ◌|||◌,
}
use radeonsi_compute.Base.Stream.{Stream}
use radeonsi_compute.Device.{ComputeRelocs, Kernel}
use radeonsi_compute.Sid.{
  pkt3_cp_dma, pkt3_cp_dma_cp_sync, pkt3_cp_dma_engine, pkt3_cp_dma_cmd_raw_wait,
}
use radeonsi_compute.Command.{Fill, ◌>>◌, word, pkt3c}
use radeonsi_compute.Pool.{add64}
use radeonsi_compute.Submit.{
  Block, compute_init_relocs, compute_push_reloc, request, radeon_cs_ring_compute,
  radeon_cs_ring_dma, compute_bo_wait,
}

-- `assert(size)` and `assert((size & ((1<<21)-1)) == size)`.
abbrev pub dma_size_ok : ℕ → Bool
dma_size_ok size = not (size == 0) && (bit_and size (2 ^ 21 - 1) == size)

abbrev pub dma_packet_copy : ℕ
dma_packet_copy = 0x3

unfoldable pub dma_packet : ℕ → ℕ → ℕ → ℕ
dma_packet cmd sub_cmd n =
    bit_and cmd 0xF << 28 ||| bit_and sub_cmd 0xFF << 20 ||| bit_and n 0xFFFFF << 0

-- The buffer of the synchronous copy.
unfoldable pub fill_sync_dma : ℕ → ℕ → ℕ → Bool → Bool → Bool → Fill
unfolding pkt3c pkt3_cp_dma_engine
fill_sync_dma dst_va src_va size sync_flag raw_wait_flag use_pfp_engine =
    word (pkt3c pkt3_cp_dma 4 0)
    >> word (bit_and src_va 0xFFFFFFFF)
    >> word (
        (if sync_flag then pkt3_cp_dma_cp_sync else 0)
        ||| pkt3_cp_dma_engine (if use_pfp_engine then 1 else 0)
        ||| bit_and (src_va / 2 ^ 32) 0xFFFF)
    >> word (bit_and dst_va 0xFFFFFFFF)
    >> word (bit_and (dst_va / 2 ^ 32) 0xffff)
    >> word ((if raw_wait_flag then pkt3_cp_dma_cmd_raw_wait else 0) ||| size)

-- The buffer of the asynchronous copy.
unfoldable pub fill_async_dma : ℕ → ℕ → ℕ → Fill
unfolding dma_packet
fill_async_dma dst_va src_va size =
    word (
      if (bit_and src_va 3 == 0) && (bit_and dst_va 3 == 0)
      then dma_packet dma_packet_copy 0x00 (size / 4)
      else dma_packet dma_packet_copy 0x40 size)
    >> word (bit_and dst_va 0xFFFFFFFF)
    >> word (bit_and src_va 0xFFFFFFFF)
    >> word (bit_and (dst_va / 2 ^ 32) 0xFF ||| 0 << 8)
    >> word (bit_and (src_va / 2 ^ 32) 0xFF ||| 0 << 8)

-- The relocations of the two buffers of a copy.
unfoldable pub copy_relocs : Block → Block → Option ComputeRelocs
unfolding compute_init_relocs compute_push_reloc
copy_relocs src dst = elim (compute_push_reloc compute_init_relocs src) [
  | none ↦ none
  | some c ↦ compute_push_reloc c dst
]

module _ {D : Type 0} (kernel : Kernel D) where
  abbrev pub submit_copy : ℕ → Block → Block → Option Stream → D → Option (ℕ × D)
  submit_copy ring src dst filled d = elim filled [
    | none ↦ none
    | some p ↦ elim (copy_relocs src dst) [
      | none ↦ none
      | some c ↦ some (kernel.submit (request kernel 1 ring c p) d)
    ]
  ]

  -- The two waits of a synchronous copy, whose answers are not looked at.
  unfoldable pub wait_both : ℕ → Block → Block → ℕ × D → Option (ℕ × D)
  unfolding compute_bo_wait
  wait_both fuel dst src (r, d) = elim (compute_bo_wait kernel fuel dst d) [
    | none ↦ none
    | some (_, d1) ↦ elim (compute_bo_wait kernel fuel src d1) [
      | none ↦ none
      | some (_, d2) ↦ some (r, d2)
    ]
  ]

  unfoldable pub compute_send_sync_dma_req :
      Block → ℕ → Block → ℕ → ℕ → Bool → Bool → Bool → ℕ → (ℕ → ℕ) → D → Option (ℕ × D)
  unfolding fill_sync_dma copy_relocs request wait_both
  compute_send_sync_dma_req [] _ _ _ _ _ _ _ _ _ _ = none
  compute_send_sync_dma_req (_ ∷ _) _ [] _ _ _ _ _ _ _ _ = none
  compute_send_sync_dma_req (dst ∷ ds) dst_offset (src ∷ ss) src_offset size sync_flag raw_wait_flag
        use_pfp_engine fuel buf d =
      let src_va = add64 src.va src_offset in
      let dst_va = add64 dst.va dst_offset in
      let filled =
        fill_sync_dma dst_va src_va size sync_flag raw_wait_flag use_pfp_engine
          (record { cell = buf; pos = 0 }) in
      let sent : Option (ℕ × D) =
        submit_copy radeon_cs_ring_compute (src ∷ ss) (dst ∷ ds) filled d in
      let waited : Option (ℕ × D) = elim sent [
        | none ↦ none
        | some r ↦ wait_both fuel (dst ∷ ds) (src ∷ ss) r
      ] in
      if dma_size_ok size then if sync_flag then waited else sent else none

  unfoldable pub compute_send_async_dma_req :
      Block → ℕ → Block → ℕ → ℕ → (ℕ → ℕ) → D → Option (ℕ × D)
  unfolding fill_async_dma copy_relocs request
  compute_send_async_dma_req [] _ _ _ _ _ _ = none
  compute_send_async_dma_req (_ ∷ _) _ [] _ _ _ _ = none
  compute_send_async_dma_req (dst ∷ ds) dst_offset (src ∷ ss) src_offset size buf d =
      let src_va = add64 src.va src_offset in
      let dst_va = add64 dst.va dst_offset in
      let filled = fill_async_dma dst_va src_va size (record { cell = buf; pos = 0 }) in
      let sent = submit_copy radeon_cs_ring_dma (src ∷ ss) (dst ∷ ds) filled d in
      if dma_size_ok size && (src_va / 2 ^ 40 == 0) && (dst_va / 2 ^ 40 == 0) then sent else none

  -- The fence only waits; the packet is commented out.
  unfoldable pub compute_send_dma_fence : ℕ → Block → D → Option (ℕ × D)
  unfolding compute_bo_wait
  compute_send_dma_fence fuel bo d = elim (compute_bo_wait kernel fuel bo d) [
    | none ↦ none
    | some (_, d') ↦ some (0, d')
  ]
