-- ===== src/Transfer/Reading.antt =====
-- A copy from the GPU from the start of a buffer reads every fragment, and gives back what a copy
-- to the GPU has left there.
use radeonsi_compute.Base.{
  ℕ, ◌+◌, ◌-◌, ◌%◌, ◌^◌, ◌≤◌, ◌<◌, ◌≡◌, ◌⊎◌, inl, inr, refl, sym, ap, ap₂, ◌∙◌, true, false, ◌==◌,
  if◌then◌else◌, Option, none, some, [], ◌∷◌, length, arith, min, Bool-cases, ==→eq,
}
use radeonsi_compute.Base.Stream.{words}
use radeonsi_compute.Device.{GpuBuffer, Kernel}
use radeonsi_compute.Pool.{add64, sub64}
use radeonsi_compute.Submit.{Block}
use radeonsi_compute.Buffers.{fragment_size}
use radeonsi_compute.Buffers.Fragments.{total_size}
use radeonsi_compute.Transfer.Offsets.{local_limit-none}
use radeonsi_compute.Transfer.Whole.{IsFilled, Maps, limit_min, filling, next_start, range_mapped}
use radeonsi_compute.Transfer.Bytes.{gathered}
use radeonsi_compute.Transfer.{
  store_bytes, local_limit, compute_copy_from_gpu_unfragmented, copy_from_fragments,
}

-- What else is asked of the kernel: a mapping shows what the buffer holds from its offset on, and
-- mapping and unmapping change nothing.
pub record Reads {D : Type 0} (kernel : Kernel D) (contents : D → ℕ → ℕ → ℕ)
    (maps : Maps kernel contents) : Type 0 where
  pub shown :
      (h offset n : ℕ) (d : D)
      → kernel.read
          (maps.pointer h offset n d)
          n
          (kernel.mmap n (kernel.gem_mmap h offset n d).1 (kernel.gem_mmap h offset n d).2).1
        ≡ words (contents d h) offset n
  pub unmapped :
      (h offset n : ℕ) (d : D)
      → contents (
          kernel.munmap
            (maps.pointer h offset n d)
            n
            (kernel.mmap n (kernel.gem_mmap h offset n d).1 (kernel.gem_mmap h offset n d).2).1)
        ≡ contents d

module _ {D : Type 0} (kernel : Kernel D) (contents : D → ℕ → ℕ → ℕ) (maps : Maps kernel contents)
    (reads : Reads kernel contents maps) where
  one_fragment :
      (b : GpuBuffer) (mem : ℕ → ℕ) (dst n : ℕ) (d : D)
      → n ≤ b.size
      → b.size < 2 ^ 64
      → (d' : D) × (compute_copy_from_gpu_unfragmented kernel b 0 mem dst n d
          ≡ (0, store_bytes mem dst (words (contents d b.handle) 0 n), d'))
        × (contents d' ≡ contents d)
  unfolding compute_copy_from_gpu_unfragmented
  one_fragment b mem dst n d h w =
      let ended = kernel.munmap (maps.pointer b.handle 0 n d) n mapped in
      (
        ended,
        ap filled (range_mapped kernel contents maps b n d h w)
            ∙ ap (λ bytes. (0, store_bytes mem dst bytes, ended)) (reads.shown b.handle 0 n d),
        reads.unmapped b.handle 0 n d,
      )
    where
      mapped : D
      mapped =
          (kernel.mmap n (kernel.gem_mmap b.handle 0 n d).1 (kernel.gem_mmap b.handle 0 n d).2).1

      filled : (ℕ × Option ℕ) × D → ℕ × (ℕ → ℕ) × D
      filled ((ret, ptr), d') = elim ptr [
        | none ↦ (ret, mem, d')
        | some p ↦ (ret, store_bytes mem dst (kernel.read p n d'), kernel.munmap p n d')
      ]

  all_read :
      (bs : Block) (mem : ℕ → ℕ) (dst size : ℕ) (d : D)
      → 0 < size
      → copy_from_fragments kernel (length bs) bs mem dst size size d ≡ some (0, mem, d)
  unfolding copy_from_fragments
  all_read [] mem dst size d h =
      let some_bytes : (size == 0) ≡ false = ground arith in rw some_bytes
  all_read (b ∷ bs) mem dst size d h =
      let some_bytes : (size == 0) ≡ false = ground arith in
      let nothing : local_limit size size ≡ 0 = local_limit-none size in rw (nothing, some_bytes)

  nothing_gathered :
      (c : ℕ → ℕ → ℕ) (bs : Block) (mem : ℕ → ℕ) (dst n : ℕ) → n ≡ 0 → gathered c bs mem dst n ≡ mem
  nothing_gathered c [] mem dst n h = refl
  nothing_gathered c (b ∷ bs) mem dst n h =
      let none_left : (n == 0) ≡ true = ground arith in rw none_left

  -- A round in which bytes are left, once it is known what the call in it does.
  one_round :
      (b : GpuBuffer) (bs : Block) (mem mem' : ℕ → ℕ) (dst start size n : ℕ) (d d' : D)
      → local_limit size start ≡ n
      → start % fragment_size ≡ 0
      → 0 < n
      → start + n < 2 ^ 64
      → compute_copy_from_gpu_unfragmented kernel b 0 mem dst n d ≡ (0, mem', d')
      → copy_from_fragments kernel (length (b ∷ bs)) (b ∷ bs) mem dst start size d
        ≡ copy_from_fragments kernel (length bs) bs mem' (dst + n) (start + n) size d'
  unfolding copy_from_fragments
  one_round b bs mem mem' dst start size n d d' limit aligned pos wide call =
      let whole : sub64 n 0 ≡ n = omega arith in
      let sum : add64 start n ≡ start + n = omega arith in
      let more : (n == 0) ≡ false = ground arith in rw (limit, aligned, whole, more, call, sum)

  pub fragments_gathered :
      (bs : Block) (mem : ℕ → ℕ) (dst start size : ℕ) (d : D)
      → 0 < size
      → size < 2 ^ 64
      → start ≤ size
      → (start % fragment_size ≡ 0) ⊎ (start ≡ size)
      → size - start ≤ total_size bs
      → total_size bs < 2 ^ 64
      → IsFilled bs
      → (d' : D) × (copy_from_fragments kernel (length bs) bs mem dst start size d
          ≡ some (0, gathered (contents d) bs mem dst (size - start), d'))
        × (contents d' ≡ contents d)
  fragments_gathered bs mem dst start size d pos w h (inr e) room tw full = (
    d,
    ap (λ s. copy_from_fragments kernel (length bs) bs mem dst s size d) e
        ∙ all_read bs mem dst size d pos
        ∙ ap (λ m. some (0, m, d))
            (sym (nothing_gathered (contents d) bs mem dst (size - start) (omega (arith, e)))),
    refl,
  )
  fragments_gathered [] mem dst start size d pos w h (inl a) room tw full =
      let e : start ≡ size = omega arith in
      (
        d,
        ap (λ s. copy_from_fragments kernel 0 [] mem dst s size d) e
            ∙ all_read [] mem dst size d pos,
        refl,
      )
  fragments_gathered (b ∷ bs) mem dst start size d pos w h (inl a) room tw (most, fills, full) =
      elim (Bool-cases (size - start == 0)) [
        | inl z ↦
            let e : start ≡ size = omega (arith, ==→eq _ _ z) in
            (
              d,
              ap (λ s. copy_from_fragments kernel (length (b ∷ bs)) (b ∷ bs) mem dst s size d) e
                  ∙ all_read (b ∷ bs) mem dst size d pos
                  ∙ ap (λ m. some (0, m, d))
                      (sym (
                        nothing_gathered (contents d) (b ∷ bs) mem dst (size - start)
                          (==→eq _ _ z))),
              refl,
            )
        | inr some_left ↦
            let n = min (size - start) (2 ^ 26) in
            let left : 0 < size - start = ground arith in
            let fits = filling b bs (size - start) most fills room in
            let got = one_fragment b mem dst n d fits.0 (omega arith) in
            let mem' : ℕ → ℕ = store_bytes mem dst (words (contents d b.handle) 0 n) in
            let rest =
              fragments_gathered bs mem' (dst + n) (start + n) size got.0 pos w (omega arith)
                (next_start start size h a) (omega (arith, fits.1)) (omega arith) full in
            (
              rest.0,
              one_round b bs mem mem' dst start size n d got.0 (limit_min size start h w) a
                    (omega arith) (omega arith) got.1
                  ∙ rest.1
                  ∙ ap₂ (λ c k. some (0, gathered c bs mem' (dst + n) k, rest.0)) got.2
                      (omega arith)
                  ∙ sym (
                      ap
                        (λ t. some (
                          0,
                          if t
                              then mem
                              else gathered (contents d) bs mem' (dst + n) (size - start - n),
                          rest.0,
                        ))
                        some_left),
              rest.2 ∙ got.2,
            )
      ]
