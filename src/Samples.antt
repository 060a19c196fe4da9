-- ===== src/Samples.antt =====
-- A small device and small inputs, for the tests of the other modules.
use radeonsi_compute.Base.{ℕ, ◌+◌, ◌-◌, ◌==◌, if◌then◌else◌, none, some, List, [], ◌∷◌}
use radeonsi_compute.Device.{GpuBuffer, ComputeState, Dim3, Cs, Kernel}
use radeonsi_compute.Pool.{Pool, PoolNode, node}
use radeonsi_compute.Submit.{Block}

-- How often the device will still be busy, the next handle, and the requests that it has got.
pub record Toy : Type 0 where
  pub busy : ℕ
  pub next : ℕ
  pub sent : List Cs

abbrev pub toy_wait : ℕ → Toy → ℕ × Toy
toy_wait h d = if d.busy == 0 then (0, d) else (0xfffffff0, record d { busy = d.busy - 1 })

abbrev pub toy : Kernel Toy
toy = record {
  chunk_id_relocs = 1;
  chunk_id_ib = 2;
  minus_ebusy = 0xfffffff0;
  submit = λ cs d. (0, record d { sent = cs ∷ d.sent });
  wait_idle = toy_wait;
  gem_create = λ size alignment domain d. (
    0,
    record { handle = d.next; alignment = alignment; initial_domain = domain },
    record d { next = d.next + 1 },
  );
  gem_va = λ va d. (0, 0, d);
  gem_close = λ h d. d;
  gem_mmap = λ h offset size d. (0, h, d);
  mmap = λ size addr d. (some addr, d);
  munmap = λ ptr size d. d;
  write = λ ptr bytes d. d;
  read = λ ptr size d. [];
}

abbrev pub toy_device : Toy
toy_device = record { busy = 2; next = 7; sent = [] }

abbrev pub sample_buffer : ℕ → ℕ → ℕ → GpuBuffer
sample_buffer h va number = record {
  alignment = 8192;
  handle = h;
  domain = 4;
  flags = 0;
  size = 5000;
  va = va;
  va_size = 8192;
  fragment_number = number;
}

-- A buffer of two fragments at 40, and one of one fragment at 41.
abbrev pub sample_blocks : ℕ → Block
sample_blocks base =
    if base == 40
    then sample_buffer 3 0x10000 2 ∷ sample_buffer 4 0x12000 0 ∷ []
    else if base == 41
    then sample_buffer 5 0x14000 1 ∷ []
    else []

abbrev pub sample_first : PoolNode
sample_first = record { va = 0; size = 0x10000; parent = none; fragment = 0 }

abbrev pub sample_nodes : Pool
sample_nodes = node 0x10000 8192 40 0 ∷ node 0x12000 8192 40 1 ∷ node 0x14000 8192 41 0 ∷ []

abbrev pub ones : Dim3
ones = record { x = 1; y = 1; z = 1 }

abbrev pub zeros : Dim3
zeros = record { x = 0; y = 0; z = 0 }

-- A launch of 256 threads with two words of user data.
abbrev pub sample_state : ComputeState
sample_state = record {
  id = 9;
  user_data = 11 ∷ 22 ∷ 0 ∷ [];
  user_data_length = 2;
  dim = record { x = 4; y = 1; z = 1 };
  start = zeros;
  num_thread = record { x = 64; y = 1; z = 1 };
  sgpr_num = 2;
  vgpr_num = 3;
  priority = 0;
  debug_mode = 0;
  priv_mode = 0;
  trap_en = 0;
  ieee_mode = 1;
  scratch_en = 0;
  lds_size = 1;
  excp_en = 0;
  waves_per_sh = 0;
  thread_groups_per_cu = 0;
  lock_threshold = 0;
  simd_dest_cntl = 0;
  se0_sh0_cu_en = 0xFF;
  se0_sh1_cu_en = 0xFF;
  se1_sh0_cu_en = 0xFF;
  se1_sh1_cu_en = 0xFF;
  tmpring_waves = 0;
  tmpring_wavesize = 0;
  binary = sample_buffer 5 0x14000 1;
}
