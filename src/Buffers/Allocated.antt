-- ===== src/Buffers/Allocated.antt =====
-- What `compute_alloc_gpu_buffer` does with a world in order.
use radeonsi_compute.Base.{
  ℕ, ◌^◌, ◌<◌, ◌≡◌, ◌⊎◌, inl, inr, refl, ap, ◌∙◌, ◌==◌, Option, none, some, [], ◌∷◌, Bool-cases,
}
use radeonsi_compute.Device.{Kernel}
use radeonsi_compute.Submit.{Block}
use radeonsi_compute.Buffers.{
  World, set_block, minus_one, radeon_vm_page_snooped, compute_vm_map, after_map,
  compute_alloc_gpu_buffer,
}
use radeonsi_compute.Buffers.Fragments.{total_size, Grants}
use radeonsi_compute.Buffers.Mapping.{
  MapsRanges, RefusesRanges, compute_vm_map-some, compute_vm_map-mapped, compute_vm_map-refused,
}
use radeonsi_compute.Buffers.State.{IsWorld}
use radeonsi_compute.Buffers.Placing.{Placed-IsWorld}
use radeonsi_compute.Buffers.Allocating.{
  HasRoom, alloc-Reached, mapped_block, after_map-mapped, after_map-undoes, total_size-addressed,
}

module _ {D : Type 0} (kernel : Kernel D) where
  -- If the kernel grants and maps everything, a buffer of 1 byte to 2 ^ 57 - 1 bytes that has room
  -- behind the pool is allocated in a world in order, at an address where no block is: the world
  -- stays in order, the block there has the size that was asked for, and the other blocks stay.
  pub compute_alloc_gpu_buffer-IsWorld :
      (w : World D) (base size domain alignment : ℕ)
      → IsWorld w
      → w.blocks base ≡ []
      → Grants kernel size domain alignment
      → MapsRanges kernel
      → 0 < size
      → size < 2 ^ 57
      → HasRoom w.pool size
      → (w' : World D) × (block : Block) × (compute_alloc_gpu_buffer kernel base size domain
            alignment w
          ≡ some (some base, w'))
        × (w'.blocks ≡ set_block base block w.blocks)
        × (total_size block ≡ size)
        × IsWorld w'
  unfolding after_map
  compute_alloc_gpu_buffer-IsWorld w base size domain alignment h free grants maps pos wide room =
      let r = alloc-Reached kernel w base size domain alignment h grants pos wide room in
      let (c, cs, e, whole) = mapped_block kernel w base size domain alignment r in
      let m = compute_vm_map-mapped kernel 0 radeon_vm_page_snooped c cs r.between whole maps in
      (
        record { pool = r.pool'; blocks = set_block base r.block w.blocks; device = m.0 },
        r.block,
        r.goes_on (0, m.0)
            (ap (λ b. compute_vm_map kernel b 0 radeon_vm_page_snooped r.between) e ∙ m.1),
        refl,
        ap total_size r.placed.given
            ∙ total_size-addressed r.placed.start r.bo.fragment_number (r.bo ∷ r.bs)
            ∙ r.total,
        Placed-IsWorld w m.0 base r.bo r.bs r.pool' r.block h free r.whole r.placed,
      )

  -- Whatever the kernel answers to the mapping of a buffer that it has granted, the call returns
  -- and leaves a world in order: either with the new block, or with NULL and with the pool and the
  -- blocks exactly as before.
  pub compute_alloc_gpu_buffer-returns :
      (w : World D) (base size domain alignment : ℕ)
      → IsWorld w
      → w.blocks base ≡ []
      → Grants kernel size domain alignment
      → 0 < size
      → size < 2 ^ 57
      → HasRoom w.pool size
      → (answer : Option ℕ) × (w' : World D) × (compute_alloc_gpu_buffer kernel base size domain
            alignment w
          ≡ some (answer, w'))
        × IsWorld w'
        × ((answer ≡ some base) ⊎ ((answer ≡ none) × (w'.pool ≡ w.pool) × (w'.blocks ≡ w.blocks)))
  compute_alloc_gpu_buffer-returns w base size domain alignment h free grants pos wide room =
      let r = alloc-Reached kernel w base size domain alignment h grants pos wide room in
      let (c, cs, e, whole) = mapped_block kernel w base size domain alignment r in
      let m = compute_vm_map-some kernel 0 radeon_vm_page_snooped c cs r.between whole in
      let reached =
        r.goes_on m.0
          (ap (λ b. compute_vm_map kernel b 0 radeon_vm_page_snooped r.between) e ∙ m.1) in
      elim (Bool-cases (m.0.0 == 0)) [
        | inl good ↦ (
          some base,
          record { pool = r.pool'; blocks = set_block base r.block w.blocks; device = m.0.1 },
          reached ∙ after_map-mapped kernel w base r.pool' r.block m.0 good,
          Placed-IsWorld w m.0.1 base r.bo r.bs r.pool' r.block h free r.whole r.placed,
          inl refl,
        )
        | inr bad ↦
            let u = after_map-undoes kernel w base size domain alignment r m.0 h free bad in
            (
              none,
              record w { device = u.0 },
              reached ∙ u.1,
              record { ordered = h.ordered; rooted = h.rooted; tracked = h.tracked; led = h.led },
              inr (refl, refl, refl),
            )
      ]

  -- If the kernel grants a buffer and answers that its range is mapped already, the call returns
  -- NULL and leaves the pool and the blocks as they were, the new nodes and the block being gone.
  pub compute_alloc_gpu_buffer-refused :
      (w : World D) (base size domain alignment : ℕ)
      → IsWorld w
      → w.blocks base ≡ []
      → Grants kernel size domain alignment
      → RefusesRanges kernel
      → 0 < size
      → size < 2 ^ 57
      → HasRoom w.pool size
      → (d' : D) × (compute_alloc_gpu_buffer kernel base size domain alignment w
          ≡ some (none, record w { device = d' }))
  compute_alloc_gpu_buffer-refused w base size domain alignment h free grants refuses pos wide
        room =
      let r = alloc-Reached kernel w base size domain alignment h grants pos wide room in
      let (c, cs, e, whole) = mapped_block kernel w base size domain alignment r in
      let m = compute_vm_map-refused kernel 0 radeon_vm_page_snooped c cs r.between whole refuses in
      let u = after_map-undoes kernel w base size domain alignment r (minus_one, m.0) h free refl in
      (
        u.0,
        r.goes_on (minus_one, m.0)
              (ap (λ b. compute_vm_map kernel b 0 radeon_vm_page_snooped r.between) e ∙ m.1)
            ∙ u.1,
      )
