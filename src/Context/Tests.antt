-- ===== src/Context/Tests.antt =====
-- The theorems on a context at concrete answers, and at a session with one buffer.
use radeonsi_compute.Base.{ℕ, ◌≡◌, refl, true, false, none, some, [], ◌∷◌, arith}
use radeonsi_compute.Device.{GpuBuffer}
use radeonsi_compute.Pool.{node, compute_pool_alloc}
use radeonsi_compute.Command.Gpu.{Gpu}
use radeonsi_compute.Samples.{Toy, toy, toy_device, sample_state}
use radeonsi_compute.Buffers.{World, set_block, compute_alloc_gpu_buffer}
use radeonsi_compute.Buffers.State.{IsWorld}
use radeonsi_compute.Buffers.Tests.{toy-Grants}
use radeonsi_compute.Context.{
  Held, nothing_held, Answers, Outcome, reserved_node, compute_create_context, compute_free_context,
}
use radeonsi_compute.Context.Creating.{IsSettled, compute_create_context-IsSettled}
use radeonsi_compute.Context.Reaching.{
  new_world, alloc, Reach, here, next, Reach-IsWorld, Reach-frees, LaunchesOnce, Reach-launches,
}

-- A device that answers everything with success.
abbrev good_answers : Answers
good_answers = record {
  available = true;
  is_pci = false;
  drm_open = 0;
  open_file = 5;
  first_info = 0;
  magic = 0;
  second_info = 0;
  display_opens = false;
  third_info = 0;
  ring_working = 1;
  start_info = 0;
  reserved_mem = 0x400000;
  max_info = 0;
  gem_info = 0;
  gart_size = 0x20000000;
  vram_size = 0x40000000;
  vram_visible = 0x10000000;
}

compute_create_context-IsSettled_example :
    (r : Outcome) × (compute_create_context good_answers ≡ some r) × IsSettled good_answers r
compute_create_context-IsSettled_example = compute_create_context-IsSettled good_answers refl

abbrev held : Held
held = record { memory = true; fd = true; display = true }

-- The buffer that is allocated at 41, and the world then.
abbrev first_buffer : GpuBuffer
first_buffer = record {
  alignment = 8192;
  handle = 7;
  domain = 4;
  flags = 0;
  size = 5000;
  va = 0x401000;
  va_size = 8192;
  fragment_number = 1;
}

abbrev next_world : World Toy
next_world = record {
  pool =
      record { va = 0; size = 0x401000; parent = none; fragment = 0 }
      ∷ node 0x401000 8192 41 0
      ∷ [];
  blocks = set_block 41 (first_buffer ∷ []) (λ base. []);
  device = record toy_device { next = 8 };
}

next_world-alloc :
    compute_alloc_gpu_buffer toy 41 5000 4 8192 (new_world 0x400000 toy_device)
    ≡ some (some 41, next_world)
unfolding compute_alloc_gpu_buffer reserved_node compute_pool_alloc
next_world-alloc = refl

next_world-Reach : Reach toy (new_world 0x400000 toy_device) next_world
unfolding reserved_node
next_world-Reach = next here (
    alloc 41 5000 4 8192 (some 41) refl (toy-Grants 5000 4 8192) (omega arith) (omega arith)
      (omega arith) next_world-alloc)

Reach-IsWorld_example : IsWorld next_world
Reach-IsWorld_example =
    Reach-IsWorld toy 0x400000 toy_device next_world (omega arith) next_world-Reach

Reach-frees_example :
    (w' : World Toy) × (compute_free_context toy 2 next_world held ≡ some (w', nothing_held))
    × (w'.pool ≡ [])
    × ((base : ℕ) → w'.blocks base ≡ [])
Reach-frees_example =
    Reach-frees toy 0x400000 2 toy_device next_world held (omega arith) next_world-Reach
      (omega arith)

abbrev idle_gpu : Gpu
idle_gpu = record { sh = λ a. 0; flushed = false; launches = [] }

Reach-launches_example :
    LaunchesOnce toy next_world.blocks sample_state
      (λ i. 0)
      next_world.device
      idle_gpu
      next_world.pool
Reach-launches_example =
    Reach-launches toy 0x400000 toy_device next_world sample_state (λ i. 0) idle_gpu (omega arith)
      next_world-Reach (omega arith, omega arith)
