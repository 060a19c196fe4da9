-- ===== src/Buffers/Tests.antt =====
-- The theorems on buffers at a small device: 150 MiB in three fragments, and a world with a buffer
-- of 5000 bytes.
use radeonsi_compute.Base.{
  ◌<◌, ℕ, ◌≡◌, ◌⊎◌, inl, inr, refl, ap, ◌==◌, Option, none, some, [], ◌∷◌, All, length, arith,
  Bool-cases, ==→eq,
}
use radeonsi_compute.Device.{Kernel}
use radeonsi_compute.Pool.{is_of, node}
use radeonsi_compute.Pool.Free.{others}
use radeonsi_compute.Samples.{Toy, toy, toy_device, sample_first, sample_buffer}
use radeonsi_compute.Submit.{Block}
use radeonsi_compute.Submit.Relocs.{IsWhole}
use radeonsi_compute.Buffers.{
  World, set_block, compute_alloc_fragmented_buffer, compute_alloc_gpu_buffer,
  compute_free_gpu_buffer,
}
use radeonsi_compute.Buffers.Fragments.{
  total_size, IsPaged, Grants, compute_alloc_fragmented_buffer-IsWhole,
}
use radeonsi_compute.Buffers.Mapping.{MapsRanges}
use radeonsi_compute.Buffers.State.{IsWorld}
use radeonsi_compute.Buffers.Releasing.{compute_free_gpu_buffer-IsWorld}
use radeonsi_compute.Buffers.Allocated.{
  compute_alloc_gpu_buffer-IsWorld, compute_alloc_gpu_buffer-returns,
}

pub toy-Grants : (size domain alignment : ℕ) → Grants toy size domain alignment
toy-Grants whole domain alignment size d = refl

compute_alloc_fragmented_buffer-IsWhole_example :
    (bs : Block) × (d' : Toy) × (compute_alloc_fragmented_buffer toy 157286400 4 8192 toy_device
      ≡ some (some bs, d'))
    × (total_size bs ≡ 157286400)
    × (length bs ≡ 3)
    × All IsPaged bs
    × IsWhole bs
compute_alloc_fragmented_buffer-IsWhole_example =
    compute_alloc_fragmented_buffer-IsWhole toy 157286400 4 8192 toy_device
      (toy-Grants 157286400 4 8192) (omega arith) (omega arith)

-- One buffer, at 41.
abbrev pub one_world : World Toy
one_world = record {
  pool = sample_first ∷ node 0x14000 8192 41 0 ∷ [];
  blocks = set_block 41 (sample_buffer 5 0x14000 1 ∷ []) (λ base. []);
  device = toy_device;
}

pub one_world-IsWorld : IsWorld one_world
unfolding is_of
one_world-IsWorld = record {
  ordered = (omega arith, (omega arith, omega arith));
  rooted = (refl, omega arith, (((refl, tt), (refl, refl)), tt));
  tracked = λ base i l. elim (Bool-cases (41 == base)) [
    | inl same ↦ inr (inl (ap some (==→eq _ _ same), single i (rw same at l)))
    | inr other ↦ absurd (none_in i (rw other at l))
  ];
  led = λ base. inr (
    refl,
    elim (Bool-cases (41 == base)) [ inl same ↦ inl (same, refl) | inr other ↦ inr (other, tt) ],
  );
}
  where
    single : (i : ℕ) → i < 1 → 0 ≡ i
    single i l = omega arith

    none_in : (i : ℕ) → i < 0 → ⊥
    none_in i l = omega arith

compute_free_gpu_buffer-IsWorld_example :
    (w' : World Toy) × (compute_free_gpu_buffer toy 41 one_world ≡ some w')
    × (w'.pool ≡ others one_world.pool 41)
    × (w'.blocks ≡ set_block 41 [] one_world.blocks)
    × (w'.device ≡ toy.gem_close 5 toy_device)
    × IsWorld w'
compute_free_gpu_buffer-IsWorld_example =
    compute_free_gpu_buffer-IsWorld toy one_world 41 (sample_buffer 5 0x14000 1) []
      one_world-IsWorld refl

pub toy-MapsRanges : MapsRanges toy
toy-MapsRanges va d = (refl, λ e. absurd (omega (arith, e)))

compute_alloc_gpu_buffer-IsWorld_example :
    (w' : World Toy) × (block : Block) × (compute_alloc_gpu_buffer toy 42 157286400 4 8192 one_world
      ≡ some (some 42, w'))
    × (w'.blocks ≡ set_block 42 block one_world.blocks)
    × (total_size block ≡ 157286400)
    × IsWorld w'
compute_alloc_gpu_buffer-IsWorld_example =
    compute_alloc_gpu_buffer-IsWorld toy one_world 42 157286400 4 8192 one_world-IsWorld refl
      (toy-Grants 157286400 4 8192) toy-MapsRanges (omega arith) (omega arith) (omega arith)

-- A kernel that maps nothing.
abbrev refusing : Kernel Toy
refusing = record toy { gem_va = λ va d. (0, 2, d) }

refusing-Grants : (size domain alignment : ℕ) → Grants refusing size domain alignment
refusing-Grants whole domain alignment size d = refl

compute_alloc_gpu_buffer-returns_example :
    (answer : Option ℕ) × (w' : World Toy) × (compute_alloc_gpu_buffer refusing 42 157286400 4 8192
        one_world
      ≡ some (answer, w'))
    × IsWorld w'
    × ((answer ≡ some 42)
        ⊎ ((answer ≡ none) × (w'.pool ≡ one_world.pool) × (w'.blocks ≡ one_world.blocks)))
compute_alloc_gpu_buffer-returns_example =
    compute_alloc_gpu_buffer-returns refusing one_world 42 157286400 4 8192 one_world-IsWorld refl
      (refusing-Grants 157286400 4 8192) (omega arith) (omega arith) (omega arith)
