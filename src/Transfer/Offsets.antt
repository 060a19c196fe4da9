-- ===== src/Transfer/Offsets.antt =====
-- Copies that start at an offset: the source takes the offset off the size.
use radeonsi_compute.Base.{
  ℕ, zero, suc, ◌-◌, ◌/◌, ◌<◌, ◌≡◌, refl, ap, ◌∙◌, true, false, ltb, ◌==◌, some, [], ◌∷◌, length,
  arith,
}
use radeonsi_compute.Device.{GpuBuffer, Kernel}
use radeonsi_compute.Pool.{sub64}
use radeonsi_compute.Submit.{Block, drop}
use radeonsi_compute.Buffers.{fragment_size}
use radeonsi_compute.Transfer.{local_limit, copy_to_fragments, compute_copy_to_gpu}
use radeonsi_compute.Submit.Relocs.{IsWhole}

pub local_limit-none : (size : ℕ) → local_limit size size ≡ 0
unfolding local_limit
local_limit-none size = let z : sub64 size size ≡ 0 = omega arith in rw z

-- What is left of a block from one of its fragments on is not empty.
drop-cons :
    (i : ℕ) (bs : Block) → i < length bs → (c : GpuBuffer) × (cs : Block) × (drop i bs ≡ c ∷ cs)
drop-cons i [] h = absurd (omega arith)
drop-cons zero (b ∷ bs) h = (b, bs, refl)
drop-cons (suc i) (b ∷ bs) h = drop-cons i bs (omega arith)

module _ {D : Type 0} (kernel : Kernel D) where
  none_left :
      (left : ℕ) (c : GpuBuffer) (cs : Block) (mem : ℕ → ℕ) (src size : ℕ) (d : D)
      → 0 < size
      → copy_to_fragments kernel (suc left) (c ∷ cs) mem src size size d ≡ some (0, d)
  unfolding copy_to_fragments
  none_left left c cs mem src size d h =
      let some_bytes : (size == 0) ≡ false = ground arith in rw (local_limit-none size, some_bytes)

  -- A copy to the GPU whose size is its offset, into a whole block that has a fragment at that
  -- offset, copies nothing and answers 0, whatever the kernel would do: the device stays.
  pub compute_copy_to_gpu-nothing :
      (bo : GpuBuffer) (bs : Block) (mem : ℕ → ℕ) (src size : ℕ) (d : D)
      → IsWhole (bo ∷ bs)
      → 0 < size
      → size / fragment_size < length (bo ∷ bs)
      → compute_copy_to_gpu kernel (bo ∷ bs) size mem src size d ≡ some (0, d)
  unfolding compute_copy_to_gpu
  compute_copy_to_gpu-nothing bo bs mem src size d (n, _) pos inside =
      let (c, cs, e) = drop-cons (size / fragment_size) (bo ∷ bs) inside in
      let within : ltb (size / fragment_size) bo.fragment_number ≡ true =
        ground (arith, n, inside) in
      let some_rounds : bo.fragment_number - size / fragment_size
          ≡ suc (bo.fragment_number - size / fragment_size - 1) =
        omega (arith, n, inside) in
      rw (within, e)
        (ap (λ k. copy_to_fragments kernel k (c ∷ cs) mem src size size d) some_rounds
          ∙ none_left _ c cs mem src size d pos)
