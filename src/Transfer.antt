-- ===== src/Transfer.antt =====
-- computesi.c: `compute_copy_to_gpu` and `compute_copy_from_gpu`. The memory of the program is a
-- function from addresses to bytes; `none` is an assertion that fails or a read behind the block.
pub mod Offsets
pub mod Whole
pub mod Bytes
pub mod Reading
pub mod RoundTrip
pub mod Tests
use radeonsi_compute.Base.{
  ℕ, zero, suc, ◌+◌, ◌-◌, ◌*◌, ◌/◌, ◌%◌, ◌^◌, ltb, ◌==◌, if◌then◌else◌, Option, none, some, List,
  [], ◌∷◌,
}
use radeonsi_compute.Base.Stream.{store, words}
use radeonsi_compute.Device.{GpuBuffer, Kernel}
use radeonsi_compute.Pool.{add64, sub64}
use radeonsi_compute.Submit.{Block, drop}
use radeonsi_compute.Buffers.{fragment_size, minus_one}

-- The answers -2 and -3.
abbrev pub minus_two : ℕ
minus_two = 2 ^ 32 - 2

abbrev pub minus_three : ℕ
minus_three = 2 ^ 32 - 3

-- The memory with the bytes written from `a` on.
abbrev pub store_bytes : (ℕ → ℕ) → ℕ → List ℕ → ℕ → ℕ
store_bytes mem a [] = mem
store_bytes mem a (b ∷ bs) = store_bytes (store mem a b) (a + 1) bs

-- `local_size` before the offset is taken off.
unfoldable pub local_limit : ℕ → ℕ → ℕ
local_limit size start_gpu =
    let size_left = sub64 size start_gpu in
    if ltb size_left fragment_size then size_left else fragment_size

module _ {D : Type 0} (kernel : Kernel D) where
  -- What the two directions do up to the mapping: the answer of an error, or the mapping.
  unfoldable pub map_range : GpuBuffer → ℕ → ℕ → D → (ℕ × Option ℕ) × D
  map_range bo gpu_offset size d =
      let (r, addr_ptr, d1) = kernel.gem_mmap bo.handle gpu_offset size d in
      let (ptr, d2) = kernel.mmap size addr_ptr d1 in
      if ltb (add64 bo.size gpu_offset) size
      then ((minus_one, none), d)
      else if r == 0
      then (elim ptr [ none ↦ (minus_three, none) | some p ↦ (0, some p) ], d2)
      else ((minus_two, none), d1)

  unfoldable pub compute_copy_to_gpu_unfragmented : GpuBuffer → ℕ → (ℕ → ℕ) → ℕ → ℕ → D → ℕ × D
  unfolding map_range
  compute_copy_to_gpu_unfragmented bo gpu_offset mem src size d =
      let ((ret, ptr), d') = map_range bo gpu_offset size d in
      elim ptr [
        | none ↦ (ret, d')
        | some p ↦ (ret, kernel.munmap p size (kernel.write p (words mem src size) d'))
      ]

  unfoldable pub compute_copy_from_gpu_unfragmented :
      GpuBuffer → ℕ → (ℕ → ℕ) → ℕ → ℕ → D → ℕ × (ℕ → ℕ) × D
  unfolding map_range
  compute_copy_from_gpu_unfragmented bo gpu_offset mem dst size d =
      let ((ret, ptr), d') = map_range bo gpu_offset size d in
      elim ptr [
        | none ↦ (ret, mem, d')
        | some p ↦ (ret, store_bytes mem dst (kernel.read p size d'), kernel.munmap p size d')
      ]

  -- The end of both copies: the assertion assigns `size` and tests that it is not 0.
  abbrev pub ended {ℓ} : {A : Type ℓ} → ℕ → A → Option A
  ended size r = if size == 0 then none else some r

  -- The loop of `compute_copy_to_gpu`, with `left` rounds to go.
  unfoldable pub copy_to_fragments : ℕ → Block → (ℕ → ℕ) → ℕ → ℕ → ℕ → D → Option (ℕ × D)
  unfolding local_limit compute_copy_to_gpu_unfragmented
  copy_to_fragments zero bs mem src start_gpu size d = ended size (0, d)
  copy_to_fragments (suc left) [] mem src start_gpu size d = none
  copy_to_fragments (suc left) (b ∷ bs) mem src start_gpu size d =
      let limit = local_limit size start_gpu in
      let local_offset = start_gpu % fragment_size in
      let local_size = sub64 limit local_offset in
      let (ret, d') = compute_copy_to_gpu_unfragmented b local_offset mem src local_size d in
      let rest =
        copy_to_fragments left bs mem (src + local_size) (add64 start_gpu local_size) size d' in
      if limit == 0 then ended size (0, d) else if ret == 0 then rest else some (ret, d')

  unfoldable pub compute_copy_to_gpu : Block → ℕ → (ℕ → ℕ) → ℕ → ℕ → D → Option (ℕ × D)
  unfolding copy_to_fragments
  compute_copy_to_gpu [] gpu_offset mem src size d = none
  compute_copy_to_gpu (bo ∷ bs) gpu_offset mem src size d =
      let start_fragment = gpu_offset / fragment_size in
      if ltb start_fragment bo.fragment_number
      then copy_to_fragments (bo.fragment_number - start_fragment) (drop start_fragment (bo ∷ bs))
          mem src gpu_offset size d
      else none

  -- The loop of `compute_copy_from_gpu`, with `left` rounds to go.
  unfoldable pub copy_from_fragments :
      ℕ → Block → (ℕ → ℕ) → ℕ → ℕ → ℕ → D → Option (ℕ × (ℕ → ℕ) × D)
  unfolding local_limit compute_copy_from_gpu_unfragmented
  copy_from_fragments zero bs mem dst start_gpu size d = ended size (0, mem, d)
  copy_from_fragments (suc left) [] mem dst start_gpu size d = none
  copy_from_fragments (suc left) (b ∷ bs) mem dst start_gpu size d =
      let limit = local_limit size start_gpu in
      let local_offset = start_gpu % fragment_size in
      let local_size = sub64 limit local_offset in
      let (ret, mem', d') =
        compute_copy_from_gpu_unfragmented b local_offset mem dst local_size d in
      let rest =
        copy_from_fragments left bs mem' (dst + local_size) (add64 start_gpu local_size) size d' in
      if limit == 0 then ended size (0, mem, d) else if ret == 0 then rest else some (ret, mem', d')

  unfoldable pub compute_copy_from_gpu : Block → ℕ → (ℕ → ℕ) → ℕ → ℕ → D → Option (ℕ × (ℕ → ℕ) × D)
  unfolding copy_from_fragments
  compute_copy_from_gpu [] gpu_offset mem dst size d = none
  compute_copy_from_gpu (bo ∷ bs) gpu_offset mem dst size d =
      let start_fragment = gpu_offset / fragment_size in
      if ltb start_fragment bo.fragment_number
      then copy_from_fragments (bo.fragment_number - start_fragment) (drop start_fragment (bo ∷ bs))
          mem dst gpu_offset size d
      else none
