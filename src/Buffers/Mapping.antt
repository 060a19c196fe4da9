-- ===== src/Buffers/Mapping.antt =====
-- `compute_vm_map` over all fragments of a block.
use radeonsi_compute.Base.{
  ℕ, ◌≡◌, ◌≢◌, refl, ap, ◌∙◌, true, false, ◌==◌, ◌&&◌, not, some, [], ◌∷◌, length, arith,
  Bool-cases, inl, inr,
}
use radeonsi_compute.Device.{GpuBuffer, GemVa, Kernel}
use radeonsi_compute.Submit.{Block}
use radeonsi_compute.Submit.Relocs.{IsWhole}
use radeonsi_compute.Buffers.{minus_one, map_args, map_fragments, compute_vm_map}

-- The kernel maps every range that it is asked for.
abbrev pub MapsRanges : {D : Type 0} → Kernel D → Type 0
MapsRanges {D} kernel =
    (va : GemVa) (d : D) → ((kernel.gem_va va d).0 ≡ 0) × ((kernel.gem_va va d).1 ≢ 2)

-- The kernel answers that every range is mapped already.
abbrev pub RefusesRanges : {D : Type 0} → Kernel D → Type 0
RefusesRanges {D} kernel = (va : GemVa) (d : D) → (kernel.gem_va va d).1 ≡ 2

module _ {D : Type 0} (kernel : Kernel D) (vm_id flags : ℕ) where
  map_fragments-some :
      (bs : Block) (d : D)
      → (r : ℕ × D) × (map_fragments kernel vm_id flags (length bs) bs d ≡ some r)
  unfolding map_fragments
  map_fragments-some [] d = ((0, d), refl)
  map_fragments-some (b ∷ bs) d =
      let a = kernel.gem_va (map_args vm_id flags b) d in
      let rest = map_fragments-some bs a.2 in
      elim (Bool-cases (not (a.0 == 0) && (a.1 == 1))) [
        | inl error ↦ ((minus_one, a.2), rw error)
        | inr fine ↦ elim (Bool-cases (a.1 == 2)) [
          | inl twice ↦ ((minus_one, a.2), rw (fine, twice))
          | inr new ↦ (rest.0, rw (fine, new) rest.1)
        ]
      ]

  map_fragments-mapped :
      (bs : Block) (d : D)
      → MapsRanges kernel
      → (d' : D) × (map_fragments kernel vm_id flags (length bs) bs d ≡ some (0, d'))
  unfolding map_fragments
  map_fragments-mapped [] d maps = (d, refl)
  map_fragments-mapped (b ∷ bs) d maps =
      let a = kernel.gem_va (map_args vm_id flags b) d in
      let rest = map_fragments-mapped bs a.2 maps in
      let answer = maps (map_args vm_id flags b) d in
      let fine : (not (a.0 == 0) && (a.1 == 1)) ≡ false = ground (arith, answer) in
      let new : (a.1 == 2) ≡ false = ground (arith, answer) in (rest.0, rw (fine, new) rest.1)

  -- A whole block is walked through to an answer.
  pub compute_vm_map-some :
      (bo : GpuBuffer) (bs : Block) (d : D)
      → IsWhole (bo ∷ bs)
      → (r : ℕ × D) × (compute_vm_map kernel (bo ∷ bs) vm_id flags d ≡ some r)
  unfolding compute_vm_map
  compute_vm_map-some bo bs d (n, _) =
      let all = map_fragments-some (bo ∷ bs) d in
      (all.0, ap (λ k. map_fragments kernel vm_id flags k (bo ∷ bs) d) n ∙ all.1)

  pub compute_vm_map-mapped :
      (bo : GpuBuffer) (bs : Block) (d : D)
      → IsWhole (bo ∷ bs)
      → MapsRanges kernel
      → (d' : D) × (compute_vm_map kernel (bo ∷ bs) vm_id flags d ≡ some (0, d'))
  unfolding compute_vm_map
  compute_vm_map-mapped bo bs d (n, _) maps =
      let all = map_fragments-mapped (bo ∷ bs) d maps in
      (all.0, ap (λ k. map_fragments kernel vm_id flags k (bo ∷ bs) d) n ∙ all.1)

  pub compute_vm_map-refused :
      (bo : GpuBuffer) (bs : Block) (d : D)
      → IsWhole (bo ∷ bs)
      → RefusesRanges kernel
      → (d' : D) × (compute_vm_map kernel (bo ∷ bs) vm_id flags d ≡ some (minus_one, d'))
  unfolding compute_vm_map map_fragments
  compute_vm_map-refused bo bs d (n, _) refuses =
      let a = kernel.gem_va (map_args vm_id flags bo) d in
      let answer = refuses (map_args vm_id flags bo) d in
      let fine : (not (a.0 == 0) && (a.1 == 1)) ≡ false = ground (arith, answer) in
      let twice : (a.1 == 2) ≡ true = ground (arith, answer) in
      (a.2, ap (λ k. map_fragments kernel vm_id flags k (bo ∷ bs) d) n ∙ rw (fine, twice))
