-- ===== src/Buffers.antt =====
-- computesi.c: buffers of several fragments, their creation, mapping and release. A pointer is the
-- address of a block, which `calloc` chooses and the model takes as an argument; the outer `none`
-- is an assertion that fails or a use of NULL, the inner one is NULL as the result.
pub mod Fragments
pub mod Mapping
pub mod Leading
pub mod State
pub mod Placing
pub mod Releasing
pub mod Undoing
pub mod Allocating
pub mod Allocated
pub mod Tests
use radeonsi_compute.Base.{
  ℕ, zero, suc, ◌+◌, ◌-◌, ◌*◌, ◌/◌, ◌%◌, ◌^◌, Bool, true, false, ◌&&◌, not, ltb, leb, ◌==◌,
  if◌then◌else◌, Option, none, some, List, [], ◌∷◌, ◌|||◌, length,
}
use radeonsi_compute.Base.Bits.{u32}
use radeonsi_compute.Device.{GpuBuffer, GemVa, Created, Kernel}
use radeonsi_compute.Pool.{Pool, add64, sub64, compute_pool_alloc, compute_pool_free}
use radeonsi_compute.Submit.{Block}

-- `FRAGMENT_SIZE`.
abbrev pub fragment_size : ℕ
fragment_size = 64 * 1024 * 1024

-- `RADEON_VA_MAP` and the answers, and the flags of a page.
abbrev pub radeon_va_map : ℕ
radeon_va_map = 1

abbrev pub radeon_va_result_error : ℕ
radeon_va_result_error = 1

abbrev pub radeon_va_result_va_exist : ℕ
radeon_va_result_va_exist = 2

abbrev pub radeon_vm_page_readable : ℕ
radeon_vm_page_readable = 2

abbrev pub radeon_vm_page_writeable : ℕ
radeon_vm_page_writeable = 4

abbrev pub radeon_vm_page_snooped : ℕ
radeon_vm_page_snooped = 16

-- The answer -1.
abbrev pub minus_one : ℕ
minus_one = 2 ^ 32 - 1

-- What the functions share: the pool of the context, the blocks that are allocated, the device.
pub record World (D : Type 0) : Type 0 where
  pub pool : Pool
  pub blocks : ℕ → Block
  pub device : D

abbrev pub set_block : ℕ → Block → (ℕ → Block) → ℕ → Block
set_block base bs blocks a = if base == a then bs else blocks a

-- `size` of round `i`, from what has been allocated.
unfoldable pub next_size : ℕ → ℕ → ℕ
next_size whole_size size_alloced =
    if leb (add64 size_alloced fragment_size) whole_size
    then fragment_size
    else sub64 whole_size size_alloced

-- One fragment. `size` is at most `fragment_size`, so that the `int` does not overflow.
unfoldable pub fragment_of : ℕ → ℕ → ℕ → Created → GpuBuffer
fragment_of fragment_num i size args = record {
  alignment = args.alignment;
  handle = args.handle;
  domain = args.initial_domain;
  flags = 0;
  size = size;
  va = 0;
  va_size = (size + 4095) / 4096 * 4096;
  fragment_number = if i == 0 then u32 fragment_num else 0;
}

-- `buf->va = 0`.
abbrev pub clear_va : Block → Block
clear_va [] = []
clear_va (b ∷ bs) = record b { va = 0 } ∷ bs

-- The arguments of one mapping.
abbrev pub map_args : ℕ → ℕ → GpuBuffer → GemVa
map_args vm_id flags b = record {
  handle = b.handle;
  operation = radeon_va_map;
  vm_id = vm_id;
  flags = flags ||| radeon_vm_page_readable ||| radeon_vm_page_writeable;
  offset = b.va;
}

module _ {D : Type 0} (kernel : Kernel D) where
  -- The loop from fragment `i` on, with `left` rounds to go: the fragments, and what has been
  -- allocated in the end.
  unfoldable pub create_fragments : ℕ → ℕ → ℕ → ℕ → ℕ → ℕ → ℕ → D → Option (Block × ℕ) × D
  unfolding next_size fragment_of
  create_fragments whole_size domain alignment fragment_num zero i size_alloced d =
      (some ([], size_alloced), d)
  create_fragments whole_size domain alignment fragment_num (suc left) i size_alloced d =
      let size = next_size whole_size size_alloced in
      let (r, args, d') = kernel.gem_create size alignment domain d in
      let (rest, d'') =
        create_fragments whole_size domain alignment fragment_num left (i + 1)
          (add64 size_alloced size) d' in
      if r == 0
      then (
        elim rest [
          | none ↦ none
          | some (bs, total) ↦ some (fragment_of fragment_num i size args ∷ bs, total)
        ],
        d'',
      )
      else (none, d')

  unfoldable pub compute_alloc_fragmented_buffer : ℕ → ℕ → ℕ → D → Option (Option Block × D)
  unfolding create_fragments
  compute_alloc_fragmented_buffer whole_size domain alignment d =
      let fragment_num = sub64 (add64 whole_size fragment_size) 1 / fragment_size in
      let (made, d') =
        create_fragments whole_size domain alignment fragment_num fragment_num 0 0 d in
      elim made [
        | none ↦ some (none, d')
        | some (bs, size_alloced) ↦ if whole_size == size_alloced then some (some bs, d') else none
      ]

  -- The loop of `compute_vm_map`, with `left` rounds to go.
  unfoldable pub map_fragments : ℕ → ℕ → ℕ → Block → D → Option (ℕ × D)
  map_fragments vm_id flags zero bs d = some (0, d)
  map_fragments vm_id flags (suc left) [] d = none
  map_fragments vm_id flags (suc left) (b ∷ bs) d =
      let (r, operation, d') = kernel.gem_va (map_args vm_id flags b) d in
      let rest = map_fragments vm_id flags left bs d' in
      if not (r == 0) && (operation == radeon_va_result_error)
      then some (minus_one, d')
      else if operation == radeon_va_result_va_exist
      then some (minus_one, d')
      else rest

  unfoldable pub compute_vm_map : Block → ℕ → ℕ → D → Option (ℕ × D)
  unfolding map_fragments
  compute_vm_map [] vm_id flags d = none
  compute_vm_map (bo ∷ bs) vm_id flags d = map_fragments vm_id flags bo.fragment_number (bo ∷ bs) d

  unfoldable pub compute_vm_remap : Block → D → Option (ℕ × D)
  unfolding compute_vm_map
  compute_vm_remap bo d = compute_vm_map bo 0 radeon_vm_page_snooped d

  -- It returns before it does anything.
  unfoldable pub compute_vm_unmap : ℕ → ℕ → ℕ → D → ℕ × D
  compute_vm_unmap vm_addr handle vm_id d = (0, d)

  -- What the release does to the pool and the mapping of a buffer that has an address.
  unfoldable pub release_va : ℕ → GpuBuffer → World D → Option (Pool × D)
  unfolding compute_vm_unmap
  release_va base bo w =
      let released : Option (Pool × D) = elim (compute_pool_free w.pool base) [
        | none ↦ none
        | some pool ↦ some (pool, (compute_vm_unmap bo.va bo.handle 0 w.device).1)
      ] in
      if bo.va == 0 then some (w.pool, w.device) else released

  -- The release of the block that `bo` points to, which stands at `base`.
  unfoldable pub free_block : ℕ → World D → Block → Option (World D)
  unfolding release_va
  free_block base w [] = none
  free_block base w (bo ∷ bs) = elim (release_va base bo w) [
    | none ↦ none
    | some (pool, d) ↦ some (record {
      pool = pool;
      blocks = set_block base [] w.blocks;
      device = kernel.gem_close bo.handle d;
    })
  ]

  unfoldable pub compute_free_gpu_buffer : ℕ → World D → Option (World D)
  unfolding free_block
  compute_free_gpu_buffer base w = free_block base w (w.blocks base)

  -- What follows a map that failed.
  unfoldable pub undo_alloc : ℕ → World D → Option (Option ℕ × World D)
  unfolding compute_free_gpu_buffer
  undo_alloc base w = elim (compute_pool_free w.pool base) [
    | none ↦ none
    | some pool ↦
        elim (compute_free_gpu_buffer base
          (record w { pool = pool; blocks = set_block base (clear_va (w.blocks base)) w.blocks })) [
            | none ↦ none
            | some w' ↦ some (none, w')
          ]
  ]

  -- What follows the answer of the mapping.
  unfoldable pub after_map : ℕ → World D → Pool → Block → ℕ × D → Option (Option ℕ × World D)
  unfolding undo_alloc
  after_map base w pool placed (r, d) =
      let w' : World D = record {
        pool = pool;
        blocks = set_block base placed w.blocks;
        device = d;
      } in
      if r == 0 then some (some base, w') else undo_alloc base w'

  -- What follows the pool.
  unfoldable pub after_pool : ℕ → World D → D → Pool × Block → Option (Option ℕ × World D)
  unfolding compute_vm_map after_map
  after_pool base w d (pool, placed) = elim (compute_vm_map placed 0 radeon_vm_page_snooped d) [
    | none ↦ none
    | some answer ↦ after_map base w pool placed answer
  ]

  -- What follows the fragments; NULL goes on into `compute_pool_alloc`.
  unfoldable pub after_fragments : ℕ → World D → Option Block × D → Option (Option ℕ × World D)
  unfolding after_pool
  after_fragments base w (none, d) = none
  after_fragments base w (some buf, d) = elim (compute_pool_alloc w.pool base buf) [
    | none ↦ none
    | some given ↦ after_pool base w d given
  ]

  -- `base` is where `calloc` puts the fragments.
  unfoldable pub compute_alloc_gpu_buffer : ℕ → ℕ → ℕ → ℕ → World D → Option (Option ℕ × World D)
  unfolding compute_alloc_fragmented_buffer after_fragments
  compute_alloc_gpu_buffer base size domain alignment w =
      elim (compute_alloc_fragmented_buffer size domain alignment w.device) [
        | none ↦ none
        | some made ↦ after_fragments base w made
      ]
