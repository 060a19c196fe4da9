-- ===== src/Context.antt =====
-- computesi.c: `compute_create_context` and `compute_free_context`. Each call of the system in
-- `compute_create_context` is made at most once, and its answer is a field of `Answers`; an `int`
-- is its pattern of 32 bits. `Held` says what the calls have taken and not given back.
pub mod Creating
pub mod Freeing
pub mod Naming
pub mod Reaching
pub mod Tests
use radeonsi_compute.Base.{
  ℕ, zero, suc, ◌+◌, ◌^◌, Bool, true, false, ◌||◌, not, ltb, leb, ◌==◌, if◌then◌else◌, Option, none,
  some, List, [], ◌∷◌,
}
use radeonsi_compute.Device.{Kernel}
use radeonsi_compute.Pool.{PoolNode, Pool, add64}
use radeonsi_compute.Submit.{Block}
use radeonsi_compute.Buffers.{World, compute_free_gpu_buffer}

-- The memory of the context, its descriptor, and its X display.
pub record Held : Type 0 where
  pub memory : Bool
  pub fd : Bool
  pub display : Bool

abbrev pub nothing_held : Held
nothing_held = record { memory = false; fd = false; display = false }

-- The answers of drmAvailable, of strstr, of open or drmOpen, of the queries in their order, of
-- drmGetMagic and XOpenDisplay, and what the queries write.
pub record Answers : Type 0 where
  pub available : Bool
  pub is_pci : Bool
  pub drm_open : ℕ
  pub open_file : ℕ
  pub first_info : ℕ
  pub magic : ℕ
  pub second_info : ℕ
  pub display_opens : Bool
  pub third_info : ℕ
  pub ring_working : ℕ
  pub start_info : ℕ
  pub reserved_mem : ℕ
  pub max_info : ℕ
  pub gem_info : ℕ
  pub gart_size : ℕ
  pub vram_size : ℕ
  pub vram_visible : ℕ

-- `struct compute_context`; the window and the pointers into the X library are left out.
pub record ComputeContext : Type 0 where
  pub fd : ℕ
  pub has_display : Bool
  pub vm_pool : Pool
  pub gart_size : ℕ
  pub vram_size : ℕ
  pub vram_visible : ℕ

-- The first node. Its `parent_bo` is not written; here it is that of no buffer.
unfoldable pub reserved_node : ℕ → PoolNode
reserved_node reserved_mem = record {
  va = 0;
  size = add64 reserved_mem 4096;
  parent = none;
  fragment = 0;
}

-- `if (ctx->display) XCloseDisplay(...); close(...); free(ctx)`.
unfoldable pub give_back : Held → Held
give_back h = record {
  memory = false;
  fd = false;
  display = if h.display then false else h.display;
}

abbrev pub Outcome : Type 0
Outcome = Option ComputeContext × Held

abbrev pub fail : Held → Outcome
fail h = (none, give_back h)

-- From the query of the reserved memory on.
unfoldable pub query_memory : Answers → ℕ → Held → Outcome
unfolding reserved_node give_back
query_memory a fd h =
    if not (a.start_info == 0)
    then fail h
    else if not (a.max_info == 0)
    then fail h
    else if not (a.gem_info == 0)
    then fail h
    else (
      some (record {
        fd = fd;
        has_display = h.display;
        vm_pool = reserved_node a.reserved_mem ∷ [];
        gart_size = a.gart_size;
        vram_size = a.vram_size;
        vram_visible = a.vram_visible;
      }),
      h,
    )

-- The query of the ring; a ring that does not work is not cleaned up after.
unfoldable pub query_ring : Answers → ℕ → Held → Outcome
unfolding query_memory give_back
query_ring a fd h =
    if not (a.third_info == 0)
    then fail h
    else if a.ring_working == 0
    then (none, h)
    else query_memory a fd h

-- The authentication where the first query is refused: with the local master, else with X.
unfoldable pub authenticate : Answers → ℕ → Held → Outcome
unfolding query_ring give_back
authenticate a fd h =
    if a.first_info == 0
    then query_ring a fd h
    else if not (a.magic == 0)
    then (none, record h { memory = false; fd = false })
    else if a.second_info == 0
    then query_ring a fd h
    else query_ring a fd (if a.display_opens then record h { display = true } else h)

abbrev pub descriptor : Answers → ℕ
descriptor a = if a.is_pci then a.drm_open else a.open_file

-- A descriptor below 1 is refused; a descriptor 0 is open and stays so.
abbrev pub refused : ℕ → Outcome
refused fd = (none, record { memory = false; fd = fd == 0; display = false })

-- The outer `none` is the assertion that the library is there.
unfoldable pub compute_create_context : Answers → Option Outcome
unfolding authenticate
compute_create_context a =
    let fd = descriptor a in
    if not a.available
    then none
    else if (fd == 0) || leb (2 ^ 31) fd
    then some (refused fd)
    else some (authenticate a fd (record { memory = true; fd = true; display = false }))

module _ {D : Type 0} (kernel : Kernel D) where
  -- `compute_free_gpu_buffer(ctx->vm_pool->next->bo)`; a pointer into a block is not its start.
  unfoldable pub free_next : PoolNode → World D → Option (World D)
  unfolding compute_free_gpu_buffer
  free_next n w = elim n.parent [
    | none ↦ none
    | some base ↦ if n.fragment == 0 then compute_free_gpu_buffer kernel base w else none
  ]

  -- `while (ctx->vm_pool->next)`, cut off by fuel.
  unfoldable pub free_buffers : ℕ → World D → Option (World D)
  unfolding free_next
  free_buffers zero w = none
  free_buffers (suc fuel) w = elim w.pool [
    | [] ↦ none
    | first ∷ [] ↦ some w
    | first ∷ n ∷ rest ↦ elim (free_next n w) [ none ↦ none | some w' ↦ free_buffers fuel w' ]
  ]

  -- The loop, then the display, the pool, the descriptor and the context itself.
  unfoldable pub compute_free_context : ℕ → World D → Held → Option (World D × Held)
  unfolding free_buffers give_back
  compute_free_context fuel w h = elim (free_buffers fuel w) [
    | none ↦ none
    | some w' ↦ some (record w' { pool = [] }, give_back h)
  ]
