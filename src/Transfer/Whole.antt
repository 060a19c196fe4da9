-- ===== src/Transfer/Whole.antt =====
-- A copy to the GPU from the start of a buffer reaches every fragment.
use radeonsi_compute.Base.{
  ℕ, ◌+◌, ◌-◌, ◌%◌, ◌^◌, ◌≤◌, ◌<◌, ◌≡◌, ◌⊎◌, inl, inr, refl, sym, ap, ap₂, ◌∙◌, true, false, ltb,
  ◌==◌, if◌then◌else◌, Option, none, some, List, [], ◌∷◌, length, arith, min, Bool-cases, ==→eq,
  leb, leb→le,
}
use radeonsi_compute.Base.Stream.{words}
use radeonsi_compute.Device.{GpuBuffer, Kernel}
use radeonsi_compute.Pool.{add64, sub64}
use radeonsi_compute.Submit.{Block}
use radeonsi_compute.Submit.Relocs.{IsWhole}
use radeonsi_compute.Buffers.{fragment_size}
use radeonsi_compute.Buffers.Fragments.{total_size}
use radeonsi_compute.Transfer.Offsets.{local_limit-none}
use radeonsi_compute.Transfer.{
  store_bytes, local_limit, map_range, compute_copy_to_gpu_unfragmented, copy_to_fragments,
  compute_copy_to_gpu,
}

-- The bytes of all buffers by their handles, with `bytes` in buffer `h` from `offset` on.
abbrev pub written : (ℕ → ℕ → ℕ) → ℕ → ℕ → List ℕ → ℕ → ℕ → ℕ
written c h offset bytes i = if h == i then store_bytes (c i) offset bytes else c i

-- What is meant: each fragment in turn takes 64 MiB, or what is left.
abbrev pub copied : (ℕ → ℕ → ℕ) → Block → (ℕ → ℕ) → ℕ → ℕ → ℕ → ℕ → ℕ
copied c [] mem src n = c
copied c (b ∷ bs) mem src n =
    let later =
      copied (written c b.handle 0 (words mem src (min n (2 ^ 26)))) bs mem (src + min n (2 ^ 26))
        (n - min n (2 ^ 26)) in
    if n == 0 then c else later

-- All fragments but the last have 64 MiB, and the last has no more.
abbrev pub IsFilled : Block → Type 0
IsFilled [] = Unit
IsFilled (b ∷ bs) = (b.size ≤ 2 ^ 26) × ((b.size ≡ 2 ^ 26) ⊎ (bs ≡ [])) × IsFilled bs

-- What is asked of the kernel: a mapping is granted, and what is written to it and unmapped is in
-- the buffer from the offset of the mapping on, and nothing else is changed.
pub record Maps {D : Type 0} (kernel : Kernel D) (contents : D → ℕ → ℕ → ℕ) : Type 0 where
  pub granted : (h offset n : ℕ) (d : D) → (kernel.gem_mmap h offset n d).0 ≡ 0
  pub pointer : ℕ → ℕ → ℕ → D → ℕ
  pub mapped :
      (h offset n : ℕ) (d : D)
      → (kernel.mmap n (kernel.gem_mmap h offset n d).1 (kernel.gem_mmap h offset n d).2).0
        ≡ some (pointer h offset n d)
  pub kept :
      (h offset n : ℕ) (d : D) (bytes : List ℕ)
      → contents (
          kernel.munmap (pointer h offset n d) n (
            kernel.write
              (pointer h offset n d)
              bytes
              (kernel.mmap n (kernel.gem_mmap h offset n d).1 (kernel.gem_mmap h offset n d).2).1))
        ≡ written (contents d) h offset bytes

pub limit_min :
    (size start : ℕ)
    → start ≤ size
    → size < 2 ^ 64
    → local_limit size start ≡ min (size - start) (2 ^ 26)
unfolding local_limit
limit_min size start h w =
    let left : sub64 size start ≡ size - start = omega arith in rw left (ground arith)

-- What is left fits into the fragment up to 64 MiB, and the rest into those that follow.
pub filling :
    (b : GpuBuffer) (bs : Block) (left : ℕ)
    → b.size ≤ 2 ^ 26
    → (b.size ≡ 2 ^ 26) ⊎ (bs ≡ [])
    → left ≤ total_size (b ∷ bs)
    → (min left (2 ^ 26) ≤ b.size) × (left - min left (2 ^ 26) ≤ total_size bs)
filling b bs left most (inl e) room = omega (arith, e)
filling b bs left most (inr e) room =
    let nothing : total_size bs ≡ 0 = ap total_size e in omega (arith, nothing)

-- A round ends at a multiple of 64 MiB or at the end of the copy.
pub next_start :
    (start size : ℕ)
    → start ≤ size
    → start % fragment_size ≡ 0
    → ((start + min (size - start) (2 ^ 26)) % fragment_size ≡ 0)
      ⊎ (start + min (size - start) (2 ^ 26) ≡ size)
next_start start size h a = elim (Bool-cases (leb (size - start) (2 ^ 26))) [
  | inl last ↦ inr (omega (arith, leb→le _ _ last))
  | inr more ↦ let far : 2 ^ 26 < size - start = ground arith in inl (omega (arith, far))
]

module _ {D : Type 0} (kernel : Kernel D) (contents : D → ℕ → ℕ → ℕ)
    (maps : Maps kernel contents) where
  pub range_mapped :
      (b : GpuBuffer) (n : ℕ) (d : D)
      → n ≤ b.size
      → b.size < 2 ^ 64
      → map_range kernel b 0 n d ≡ (
        (0, some (maps.pointer b.handle 0 n d)),
        (kernel.mmap n (kernel.gem_mmap b.handle 0 n d).1 (kernel.gem_mmap b.handle 0 n d).2).1,
      )
  unfolding map_range
  range_mapped b n d h w =
      let room : ltb (add64 b.size 0) n ≡ false = ground arith in
      rw (room, maps.granted b.handle 0 n d, maps.mapped b.handle 0 n d)

  one_fragment :
      (b : GpuBuffer) (mem : ℕ → ℕ) (src n : ℕ) (d : D)
      → n ≤ b.size
      → b.size < 2 ^ 64
      → (d' : D) × (compute_copy_to_gpu_unfragmented kernel b 0 mem src n d ≡ (0, d'))
        × (contents d' ≡ written (contents d) b.handle 0 (words mem src n))
  unfolding compute_copy_to_gpu_unfragmented
  one_fragment b mem src n d h w =
      (_, ap filled (range_mapped b n d h w), maps.kept b.handle 0 n d (words mem src n))
    where
      filled : (ℕ × Option ℕ) × D → ℕ × D
      filled ((ret, ptr), d') = elim ptr [
        | none ↦ (ret, d')
        | some p ↦ (ret, kernel.munmap p n (kernel.write p (words mem src n) d'))
      ]

  all_sent :
      (bs : Block) (mem : ℕ → ℕ) (src size : ℕ) (d : D)
      → 0 < size
      → copy_to_fragments kernel (length bs) bs mem src size size d ≡ some (0, d)
  unfolding copy_to_fragments
  all_sent [] mem src size d h =
      let some_bytes : (size == 0) ≡ false = ground arith in rw some_bytes
  all_sent (b ∷ bs) mem src size d h =
      let some_bytes : (size == 0) ≡ false = ground arith in
      let nothing : local_limit size size ≡ 0 = local_limit-none size in rw (nothing, some_bytes)

  nothing_copied :
      (c : ℕ → ℕ → ℕ) (bs : Block) (mem : ℕ → ℕ) (src n : ℕ) → n ≡ 0 → copied c bs mem src n ≡ c
  nothing_copied c [] mem src n h = refl
  nothing_copied c (b ∷ bs) mem src n h =
      let none_left : (n == 0) ≡ true = ground arith in rw none_left

  -- A round in which bytes are left, once it is known what the call in it does.
  one_round :
      (b : GpuBuffer) (bs : Block) (mem : ℕ → ℕ) (src start size n : ℕ) (d d' : D)
      → local_limit size start ≡ n
      → start % fragment_size ≡ 0
      → 0 < n
      → start + n < 2 ^ 64
      → compute_copy_to_gpu_unfragmented kernel b 0 mem src n d ≡ (0, d')
      → copy_to_fragments kernel (length (b ∷ bs)) (b ∷ bs) mem src start size d
        ≡ copy_to_fragments kernel (length bs) bs mem (src + n) (start + n) size d'
  unfolding copy_to_fragments
  one_round b bs mem src start size n d d' limit aligned pos wide call =
      let whole : sub64 n 0 ≡ n = omega arith in
      let sum : add64 start n ≡ start + n = omega arith in
      let more : (n == 0) ≡ false = ground arith in rw (limit, aligned, whole, more, call, sum)

  fragments_copied :
      (bs : Block) (mem : ℕ → ℕ) (src start size : ℕ) (d : D)
      → 0 < size
      → size < 2 ^ 64
      → start ≤ size
      → (start % fragment_size ≡ 0) ⊎ (start ≡ size)
      → size - start ≤ total_size bs
      → total_size bs < 2 ^ 64
      → IsFilled bs
      → (d' : D) × (copy_to_fragments kernel (length bs) bs mem src start size d ≡ some (0, d'))
        × (contents d' ≡ copied (contents d) bs mem src (size - start))
  fragments_copied bs mem src start size d pos w h (inr e) room tw full = (
    d,
    ap (λ s. copy_to_fragments kernel (length bs) bs mem src s size d) e
        ∙ all_sent bs mem src size d pos,
    sym (nothing_copied (contents d) bs mem src (size - start) (omega (arith, e))),
  )
  fragments_copied [] mem src start size d pos w h (inl a) room tw full =
      let e : start ≡ size = omega arith in
      (
        d,
        ap (λ s. copy_to_fragments kernel 0 [] mem src s size d) e ∙ all_sent [] mem src size d pos,
        refl,
      )
  fragments_copied (b ∷ bs) mem src start size d pos w h (inl a) room tw (most, fills, full) =
      elim (Bool-cases (size - start == 0)) [
        | inl z ↦
            let e : start ≡ size = omega (arith, ==→eq _ _ z) in
            (
              d,
              ap (λ s. copy_to_fragments kernel (length (b ∷ bs)) (b ∷ bs) mem src s size d) e
                  ∙ all_sent (b ∷ bs) mem src size d pos,
              sym (nothing_copied (contents d) (b ∷ bs) mem src (size - start) (==→eq _ _ z)),
            )
        | inr some_left ↦
            let n = min (size - start) (2 ^ 26) in
            let left : 0 < size - start = ground arith in
            let fits = filling b bs (size - start) most fills room in
            let sent = one_fragment b mem src n d fits.0 (omega arith) in
            let rest =
              fragments_copied bs mem (src + n) (start + n) size sent.0 pos w (omega arith)
                (next_start start size h a) (omega (arith, fits.1)) (omega arith) full in
            (
              rest.0,
              one_round b bs mem src start size n d sent.0 (limit_min size start h w) a
                    (omega arith) (omega arith) sent.1
                  ∙ rest.1,
              rest.2
                  ∙ ap₂ (λ c k. copied c bs mem (src + n) k) sent.2 (omega arith)
                  ∙ sym (
                      ap
                        (λ t.
                          if t
                          then contents d
                          else copied (written (contents d) b.handle 0 (words mem src n)) bs mem
                              (src + n) (size - start - n))
                        some_left),
            )
      ]

  -- On a kernel that grants every mapping, a copy of 1 byte or more from the start of a whole
  -- buffer, whose fragments but the last have 64 MiB and which is large enough, succeeds and leaves
  -- the bytes that are meant: each fragment in turn has the next 64 MiB of the source, or what is
  -- left of it, from its own start on, and nothing else is changed.
  pub compute_copy_to_gpu-copied :
      (bo : GpuBuffer) (bs : Block) (mem : ℕ → ℕ) (src size : ℕ) (d : D)
      → IsWhole (bo ∷ bs)
      → IsFilled (bo ∷ bs)
      → 0 < size
      → size ≤ total_size (bo ∷ bs)
      → total_size (bo ∷ bs) < 2 ^ 64
      → (d' : D) × (compute_copy_to_gpu kernel (bo ∷ bs) 0 mem src size d ≡ some (0, d'))
        × (contents d' ≡ copied (contents d) (bo ∷ bs) mem src size)
  unfolding compute_copy_to_gpu
  compute_copy_to_gpu-copied bo bs mem src size d (n, _) full pos room wide =
      let all =
        fragments_copied (bo ∷ bs) mem src 0 size d pos (omega arith) (omega arith) (inl refl)
          (omega arith) wide full in
      let within : ltb 0 bo.fragment_number ≡ true = ground (arith, n) in
      let rounds : bo.fragment_number - 0 ≡ length (bo ∷ bs) = omega (arith, n) in
      (
        all.0,
        rw (within, rounds) all.1,
        all.2 ∙ ap (copied (contents d) (bo ∷ bs) mem src) (omega arith),
      )
