-- ===== src/Device.antt =====
-- computesi.h: the data that the functions of computesi.c share, and what they ask of the kernel.
use radeonsi_compute.Base.{ℕ, List, Option}

-- `struct gpu_buffer`, without the pointer to the one context.
pub record GpuBuffer : Type 0 where
  pub alignment : ℕ
  pub handle : ℕ
  pub domain : ℕ
  pub flags : ℕ
  pub size : ℕ
  pub va : ℕ
  pub va_size : ℕ
  pub fragment_number : ℕ

-- `struct cs_reloc_gem`.
pub record CsRelocGem : Type 0 where
  pub handle : ℕ
  pub read_domain : ℕ
  pub write_domain : ℕ
  pub flags : ℕ

-- `int [3]`.
pub record Dim3 : Type 0 where
  pub x : ℕ
  pub y : ℕ
  pub z : ℕ

-- `struct compute_state`; an `int` is its pattern of 32 bits.
pub record ComputeState : Type 0 where
  pub id : ℕ
  pub user_data : List ℕ
  pub user_data_length : ℕ
  pub dim : Dim3
  pub start : Dim3
  pub num_thread : Dim3
  pub sgpr_num : ℕ
  pub vgpr_num : ℕ
  pub priority : ℕ
  pub debug_mode : ℕ
  pub priv_mode : ℕ
  pub trap_en : ℕ
  pub ieee_mode : ℕ
  pub scratch_en : ℕ
  pub lds_size : ℕ
  pub excp_en : ℕ
  pub waves_per_sh : ℕ
  pub thread_groups_per_cu : ℕ
  pub lock_threshold : ℕ
  pub simd_dest_cntl : ℕ
  pub se0_sh0_cu_en : ℕ
  pub se0_sh1_cu_en : ℕ
  pub se1_sh0_cu_en : ℕ
  pub se1_sh1_cu_en : ℕ
  pub tmpring_waves : ℕ
  pub tmpring_wavesize : ℕ
  pub binary : GpuBuffer

-- `struct drm_radeon_cs_chunk`, with the words that `chunk_data` points to.
pub record CsChunk : Type 0 where
  pub chunk_id : ℕ
  pub length_dw : ℕ
  pub chunk_data : List ℕ

-- `struct drm_radeon_cs`, with the chunks that `chunks` points to.
pub record Cs : Type 0 where
  pub num_chunks : ℕ
  pub chunks : List CsChunk
  pub cs_id : ℕ

-- `struct compute_relocs`, with the array that `relocs` points to.
pub record ComputeRelocs : Type 0 where
  pub reloc_num : ℕ
  pub relocs : List CsRelocGem

-- What `DRM_RADEON_GEM_CREATE` writes back into its arguments.
pub record Created : Type 0 where
  pub handle : ℕ
  pub alignment : ℕ
  pub initial_domain : ℕ

-- `struct drm_radeon_gem_va`.
pub record GemVa : Type 0 where
  pub handle : ℕ
  pub operation : ℕ
  pub vm_id : ℕ
  pub flags : ℕ
  pub offset : ℕ

-- What the functions ask of the kernel, a parameter of the model: `D` is the state of the kernel
-- and of the device, an answer 0 is success, and the two chunk ids
-- are constants of libdrm. `gem_create` takes size, alignment and domain and writes its arguments
-- back, and `gem_va` writes its operation back. `gem_mmap` takes
-- handle, offset and size and writes the address for `mmap` back, which takes size and address and
-- answers none for MAP_FAILED; `write` and `read` are what memcpy does to a mapping.
pub record Kernel (D : Type 0) : Type 0 where
  pub chunk_id_relocs : ℕ
  pub chunk_id_ib : ℕ
  pub minus_ebusy : ℕ
  pub submit : Cs → D → ℕ × D
  pub wait_idle : ℕ → D → ℕ × D
  pub gem_create : ℕ → ℕ → ℕ → D → ℕ × Created × D
  pub gem_va : GemVa → D → ℕ × ℕ × D
  pub gem_close : ℕ → D → D
  pub gem_mmap : ℕ → ℕ → ℕ → D → ℕ × ℕ × D
  pub mmap : ℕ → ℕ → D → Option ℕ × D
  pub munmap : ℕ → ℕ → D → D
  pub write : ℕ → List ℕ → D → D
  pub read : ℕ → ℕ → D → List ℕ
