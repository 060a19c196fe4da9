-- ===== src/Buffers/Fragments.antt =====
-- What `compute_alloc_fragmented_buffer` allocates when the kernel grants every fragment.
use radeonsi_compute.Base.{
  ℕ, zero, suc, ◌+◌, ◌-◌, ◌/◌, ◌%◌, ◌^◌, ◌≤◌, ◌<◌, ◌≡◌, refl, ap, ◌∙◌, true, leb, ◌==◌,
  if◌then◌else◌, Option, none, some, [], ◌∷◌, All, length, arith, Bool-cases, inl, inr, leb→le,
}
use radeonsi_compute.Base.Bits.{u32}
use radeonsi_compute.Device.{GpuBuffer, Kernel}
use radeonsi_compute.Pool.{add64, sub64}
use radeonsi_compute.Submit.{Block}
use radeonsi_compute.Submit.Relocs.{IsWhole}
use radeonsi_compute.Buffers.{
  fragment_size, next_size, fragment_of, create_fragments, compute_alloc_fragmented_buffer,
}

-- The bytes of the fragments together.
abbrev pub total_size : Block → ℕ
total_size [] = 0
total_size (b ∷ bs) = b.size + total_size bs

-- A fragment of at most 64 MiB, not empty, on the fewest pages of 4 KiB that hold it.
abbrev pub IsPaged : GpuBuffer → Type 0
IsPaged b =
    (0 < b.size)
    × (b.size ≤ 2 ^ 26)
    × (b.va_size % 4096 ≡ 0)
    × (b.size ≤ b.va_size)
    × (b.va_size < b.size + 4096)

-- Only the first fragment of all carries their number.
abbrev Numbered : ℕ → ℕ → Block → Type 0
Numbered num i [] = Unit
Numbered num i (b ∷ bs) =
    (b.fragment_number ≡ (if i == 0 then u32 num else 0)) × Numbered num (i + 1) bs

Numbered-later :
    (num i : ℕ) (bs : Block) → 0 < i → Numbered num i bs → All (λ b. b.fragment_number ≡ 0) bs
Numbered-later num i [] h n = tt
Numbered-later num i (b ∷ bs) h (e, n) =
    (ground arith, Numbered-later num (i + 1) bs (omega arith) n)

-- The number of fragments that the rest takes.
abbrev rounds : ℕ → ℕ
rounds n = (n + 67108863) / 67108864

-- The size of a round is at most one fragment, and the rounds that follow take what is left.
next_size-facts :
    (whole alloced left : ℕ)
    → alloced ≤ whole
    → whole < 2 ^ 57
    → suc left ≡ rounds (whole - alloced)
    → (0 < next_size whole alloced)
      × (next_size whole alloced ≤ 2 ^ 26)
      × (alloced + next_size whole alloced ≤ whole)
      × (left ≡ rounds (whole - (alloced + next_size whole alloced)))
unfolding next_size
next_size-facts whole alloced left h b e =
    elim (Bool-cases (leb (add64 alloced fragment_size) whole)) [
      | inl y ↦ let l = leb→le _ _ y in rw y (omega (arith, l, e, h, b))
      | inr n ↦
          let l : whole < alloced + 2 ^ 26 = ground (arith, n, b, h) in
          rw n (omega (arith, l, e, h, b))
    ]

module _ {D : Type 0} (kernel : Kernel D) (whole domain alignment : ℕ) where
  -- The kernel grants every request for a buffer.
  abbrev pub Grants : Type 0
  Grants = (size : ℕ) (d : D) → (kernel.gem_create size alignment domain d).0 ≡ 0

  record Made (num i alloced left : ℕ) (bs : Block) : Type 0 where
    total : total_size bs ≡ whole - alloced
    count : length bs ≡ left
    paged : All IsPaged bs
    numbered : Numbered num i bs

  create_fragments-Made :
      (num left i alloced : ℕ) (d : D)
      → Grants
      → whole < 2 ^ 57
      → alloced ≤ whole
      → left ≡ rounds (whole - alloced)
      → (bs : Block) × (d' : D) × (create_fragments kernel whole domain alignment num left i alloced
            d
          ≡ (some (bs, whole), d'))
        × Made num i alloced left bs
  unfolding create_fragments fragment_of
  create_fragments-Made num zero i alloced d grants b h e = (
    [],
    d,
    ap (λ n. (some ([], n), d)) (omega arith),
    record { total = omega arith; count = refl; paged = tt; numbered = tt },
  )
  create_fragments-Made num (suc left) i alloced d grants b h e =
      let size = next_size whole alloced in
      let answer = kernel.gem_create size alignment domain d in
      let facts = next_size-facts whole alloced left h b e in
      let sum : add64 alloced size ≡ alloced + size = omega (arith, facts) in
      let (bs, d', made, m) =
        create_fragments-Made num left (i + 1) (alloced + size) answer.2 grants b facts.2 facts.3 in
      (
        fragment_of num i size answer.1 ∷ bs,
        d',
        rw (grants size d, sum, made),
        record {
          total = omega (arith, m.total, facts);
          count = omega (arith, m.count);
          paged = (omega (arith, facts), m.paged);
          numbered = (refl, m.numbered);
        },
      )

  -- If the kernel grants every fragment, a buffer of 1 byte to 2 ^ 57 - 1 bytes is allocated: its
  -- fragments have exactly its size together, they are as few as 64 MiB for each allows, none is
  -- empty, each takes the fewest pages of 4 KiB that hold it, and the first and only the first
  -- carries their number.
  pub compute_alloc_fragmented_buffer-IsWhole :
      (d : D)
      → Grants
      → 0 < whole
      → whole < 2 ^ 57
      → (bs : Block) × (d' : D) × (compute_alloc_fragmented_buffer kernel whole domain alignment d
          ≡ some (some bs, d'))
        × (total_size bs ≡ whole)
        × (length bs ≡ (whole + 2 ^ 26 - 1) / 2 ^ 26)
        × All IsPaged bs
        × IsWhole bs
  unfolding compute_alloc_fragmented_buffer
  compute_alloc_fragmented_buffer-IsWhole d grants pos b =
      let num : sub64 (add64 whole fragment_size) 1 / fragment_size ≡ rounds whole = omega arith in
      let (bs, d', made, m) =
        create_fragments-Made (rounds whole) (rounds whole) 0 0 d grants b (omega arith)
          (omega arith) in
      let same : (whole == whole) ≡ true = ground arith in
      (
        bs,
        d',
        ap (λ n. checked (create_fragments kernel whole domain alignment n n 0 0 d)) num
            ∙ ap checked made
            ∙ ap (λ t. if t then some (some bs, d') else none) same,
        omega (arith, m.total),
        omega (arith, m.count),
        m.paged,
        Numbered-IsWhole bs m.count m.numbered,
      )
    where
      checked : Option (Block × ℕ) × D → Option (Option Block × D)
      checked (made, d') = elim made [
        | none ↦ some (none, d')
        | some (bs, size_alloced) ↦ if whole == size_alloced then some (some bs, d') else none
      ]

      Numbered-IsWhole :
          (bs : Block) → length bs ≡ rounds whole → Numbered (rounds whole) 0 bs → IsWhole bs
      Numbered-IsWhole [] c n = tt
      Numbered-IsWhole (x ∷ bs) c (e, n) =
          (e ∙ omega (arith, c, b), Numbered-later (rounds whole) 1 bs (omega arith) n)
