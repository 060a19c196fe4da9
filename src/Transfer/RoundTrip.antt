-- ===== src/Transfer/RoundTrip.antt =====
-- Copies from the GPU, and the round trip of a copy to it and one from it.
use radeonsi_compute.Base.{
  ℕ, ◌+◌, ◌-◌, ◌*◌, ◌^◌, ◌≤◌, ◌<◌, ◌≡◌, ◌⊎◌, inl, inr, refl, ap, ◌∙◌, true, ltb, some, ◌∷◌, length,
  arith, Bool-cases, ltb→lt,
}
use radeonsi_compute.Device.{GpuBuffer, Kernel}
use radeonsi_compute.Submit.{Block}
use radeonsi_compute.Submit.Relocs.{IsWhole}
use radeonsi_compute.Buffers.Fragments.{total_size}
use radeonsi_compute.Transfer.{compute_copy_to_gpu, compute_copy_from_gpu}
use radeonsi_compute.Transfer.Whole.{IsFilled, Maps, compute_copy_to_gpu-copied}
use radeonsi_compute.Transfer.Bytes.{
  byte_of, IsApart, gathered, gathered-outside, gathered-byte_of, byte_of-copied, total_size-room,
}
use radeonsi_compute.Transfer.Reading.{Reads, fragments_gathered}

module _ {D : Type 0} (kernel : Kernel D) (contents : D → ℕ → ℕ → ℕ) (maps : Maps kernel contents)
    (reads : Reads kernel contents maps) where
  from_gpu-gathered :
      (bo : GpuBuffer) (bs : Block) (mem : ℕ → ℕ) (dst size : ℕ) (d : D)
      → IsWhole (bo ∷ bs)
      → IsFilled (bo ∷ bs)
      → 0 < size
      → size ≤ total_size (bo ∷ bs)
      → total_size (bo ∷ bs) < 2 ^ 64
      → (d' : D) × (compute_copy_from_gpu kernel (bo ∷ bs) 0 mem dst size d
          ≡ some (0, gathered (contents d) (bo ∷ bs) mem dst size, d'))
        × (contents d' ≡ contents d)
  unfolding compute_copy_from_gpu
  from_gpu-gathered bo bs mem dst size d (n, _) full pos room wide =
      let all =
        fragments_gathered kernel contents maps reads (bo ∷ bs) mem dst 0 size d pos (omega arith)
          (omega arith) (inl refl) (omega arith) wide full in
      let within : ltb 0 bo.fragment_number ≡ true = ground (arith, n) in
      let rounds : bo.fragment_number - 0 ≡ length (bo ∷ bs) = omega (arith, n) in
      (
        all.0,
        rw (within, rounds)
            (all.1
              ∙ ap (λ k. some (0, gathered (contents d) (bo ∷ bs) mem dst k, all.0)) (omega arith)),
        all.2,
      )

  -- On a kernel that grants every mapping and shows what a buffer holds, a copy of 1 byte or more
  -- from the start of a whole buffer, whose fragments but the last have 64 MiB and which is large
  -- enough, succeeds: the memory has the bytes of the buffer from `dst` on, the rest of the memory
  -- stays, and so does everything on the GPU.
  pub compute_copy_from_gpu-bytes :
      (bo : GpuBuffer) (bs : Block) (mem : ℕ → ℕ) (dst size : ℕ) (d : D)
      → IsWhole (bo ∷ bs)
      → IsFilled (bo ∷ bs)
      → 0 < size
      → size ≤ total_size (bo ∷ bs)
      → total_size (bo ∷ bs) < 2 ^ 64
      → (mem' : ℕ → ℕ) × (d' : D) × (compute_copy_from_gpu kernel (bo ∷ bs) 0 mem dst size d
          ≡ some (0, mem', d'))
        × ((i : ℕ) → (size ≤ i) ⊎ (mem' (dst + i) ≡ byte_of (contents d) (bo ∷ bs) i))
        × ((a : ℕ) → ((dst ≤ a) × (a < dst + size)) ⊎ (mem' a ≡ mem a))
        × (contents d' ≡ contents d)
  compute_copy_from_gpu-bytes bo bs mem dst size d whole full pos room wide =
      let (d', e, kept) = from_gpu-gathered bo bs mem dst size d whole full pos room wide in
      let fits : size ≤ 2 ^ 26 * length (bo ∷ bs) =
        omega (arith, total_size-room (bo ∷ bs) full, room) in
      (
        gathered (contents d) (bo ∷ bs) mem dst size,
        d',
        e,
        λ i. elim (Bool-cases (ltb i size)) [
          | inl within ↦
              inr (gathered-byte_of (contents d) (bo ∷ bs) mem dst size i fits (ltb→lt _ _ within))
          | inr beyond ↦ inl (ground arith)
        ],
        λ a. elim (Bool-cases (ltb a dst)) [
          | inl before ↦
              inr (gathered-outside (contents d) (bo ∷ bs) mem dst size a (inl (ltb→lt _ _ before)))
          | inr later ↦ elim (Bool-cases (ltb a (dst + size))) [
            | inl within ↦ inl (ground arith, ltb→lt _ _ within)
            | inr behind ↦
                inr (gathered-outside (contents d) (bo ∷ bs) mem dst size a (inr (ground arith)))
          ]
        ],
        kept,
      )

  -- On such a kernel and for such a buffer, whose fragments have handles of their own, bytes that
  -- are copied to the GPU and from there back are the bytes that were copied: both calls answer 0,
  -- and the memory at `back` then holds what the source held at `src`.
  pub compute_copy_from_gpu-to_gpu :
      (bo : GpuBuffer) (bs : Block) (mem mem2 : ℕ → ℕ) (src back size i : ℕ) (d : D)
      → IsWhole (bo ∷ bs)
      → IsFilled (bo ∷ bs)
      → IsApart (bo ∷ bs)
      → 0 < size
      → size ≤ total_size (bo ∷ bs)
      → total_size (bo ∷ bs) < 2 ^ 64
      → i < size
      → (d1 : D) × (mem' : ℕ → ℕ) × (d2 : D) × (compute_copy_to_gpu kernel
            (bo ∷ bs)
            0
            mem
            src
            size
            d
          ≡ some (0, d1))
        × (compute_copy_from_gpu kernel (bo ∷ bs) 0 mem2 back size d1 ≡ some (0, mem', d2))
        × (mem' (back + i) ≡ mem (src + i))
  compute_copy_from_gpu-to_gpu bo bs mem mem2 src back size i d whole full apart pos room wide h =
      let (d1, there, holds) =
        compute_copy_to_gpu-copied kernel contents maps bo bs mem src size d whole full pos room
          wide in
      let (d2, returns, kept) =
        from_gpu-gathered bo bs mem2 back size d1 whole full pos room wide in
      let fits : size ≤ 2 ^ 26 * length (bo ∷ bs) =
        omega (arith, total_size-room (bo ∷ bs) full, room) in
      (
        d1,
        gathered (contents d1) (bo ∷ bs) mem2 back size,
        d2,
        there,
        returns,
        gathered-byte_of (contents d1) (bo ∷ bs) mem2 back size i fits h
            ∙ ap (λ c. byte_of c (bo ∷ bs) i) holds
            ∙ byte_of-copied (contents d) (bo ∷ bs) mem src size i apart fits h,
      )
