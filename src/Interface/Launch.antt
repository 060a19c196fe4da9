-- ===== src/Interface/Launch.antt =====
-- compute_interface.cpp: `launch`, its assertions and the state that it fills.
use radeonsi_compute.Base.{
  ℕ, ◌+◌, ◌-◌, ◌*◌, ◌/◌, ◌%◌, ◌^◌, Bool, ◌&&◌, ◌||◌, ltb, leb, ◌==◌, if◌then◌else◌, Option, none,
  some, List, [], ◌∷◌, length,
}
use radeonsi_compute.Base.Bits.{u32}
use radeonsi_compute.Device.{GpuBuffer, Dim3, ComputeState, ComputeRelocs, Kernel}
use radeonsi_compute.Submit.{
  Block, compute_init_relocs, compute_push_reloc, compute_emit_compute_state_manual_relocs,
}
use radeonsi_compute.Interface.{Ending, returned, thrown}

-- `x < k` and `x <= k` of an `int` and a constant that is not negative.
abbrev pub int_lt : ℕ → ℕ → Bool
int_lt x k = ltb x k || leb (2 ^ 31) x

abbrev pub int_le : ℕ → ℕ → Bool
int_le x k = leb x k || leb (2 ^ 31) x

-- `x / k` of an `int` and a positive constant, rounded towards 0.
abbrev pub int_quot : ℕ → ℕ → ℕ
int_quot x k = if ltb x (2 ^ 31) then x / k else (2 ^ 32 - (2 ^ 32 - x) / k) % 2 ^ 32

-- `x + k` and `x - 1` of an `int`, where they do not overflow.
abbrev pub int_plus : ℕ → ℕ → ℕ
int_plus x k = (x + k) % 2 ^ 32

abbrev pub int_pred : ℕ → ℕ
int_pred x = (x + 2 ^ 32 - 1) % 2 ^ 32

-- `v.resize(3, fill)`, and its entries as `int`.
abbrev pub resized : ℕ → List ℕ → Dim3
resized fill [] = record { x = u32 fill; y = u32 fill; z = u32 fill }
resized fill (x ∷ []) = record { x = u32 x; y = u32 fill; z = u32 fill }
resized fill (x ∷ y ∷ []) = record { x = u32 x; y = u32 y; z = u32 fill }
resized fill (x ∷ y ∷ z ∷ rest) = record { x = u32 x; y = u32 y; z = u32 z }

-- The number of registers where it is 0 by default.
abbrev pub default_num : ℕ → ℕ → ℕ
default_num default n = if n == 0 then default else n

-- `state`; what is left of the array `user_data` has no value and is not there.
unfoldable pub launch_state :
    List ℕ → List ℕ → List ℕ → List ℕ → GpuBuffer → ℕ → ℕ → ℕ → ComputeState
launch_state user_data thread_offset block_dim local_size code local_mem_size vgprnum sgprnum =
    record {
      id = 0;
      user_data = user_data;
      user_data_length = length user_data;
      dim = resized 1 block_dim;
      start = resized 0 thread_offset;
      num_thread = resized 1 local_size;
      sgpr_num = int_pred (int_quot (int_plus (default_num 104 sgprnum) 7) 8);
      vgpr_num = int_pred (int_quot (int_plus (default_num 256 vgprnum) 3) 4);
      priority = 0;
      debug_mode = 0;
      priv_mode = 0;
      trap_en = 0;
      ieee_mode = 1;
      scratch_en = 0;
      lds_size = int_quot (int_plus local_mem_size 255) 256;
      excp_en = 0;
      waves_per_sh = 0;
      thread_groups_per_cu = 0;
      lock_threshold = 0;
      simd_dest_cntl = 0;
      se0_sh0_cu_en = 0xFF;
      se0_sh1_cu_en = 0xFF;
      se1_sh0_cu_en = 0xFF;
      se1_sh1_cu_en = 0xFF;
      tmpring_waves = 0;
      tmpring_wavesize = 0;
      binary = code;
    }

-- The assertions of `launch`.
unfoldable pub launch_ok : List ℕ → List ℕ → List ℕ → ℕ → ℕ → ℕ → Bool
launch_ok user_data block_dim local_size local_mem_size vgprnum sgprnum =
    int_le local_mem_size (32 * 1024)
    && int_lt vgprnum 257
    && int_lt sgprnum 129
    && (length local_size == length block_dim)
    && leb (length local_size) 3
    && ltb 0 (length local_size)
    && leb (length user_data) 16

-- `for (auto bo : usedMemories) compute_push_reloc(&crelocs, bo)`.
unfoldable pub push_memories : List Block → ComputeRelocs → Option ComputeRelocs
unfolding compute_push_reloc
push_memories [] c = some c
push_memories (bo ∷ rest) c = elim (compute_push_reloc c bo) [
  | none ↦ none
  | some c' ↦ push_memories rest c'
]

module _ {D : Type 0} (kernel : Kernel D) where
  -- The call of `compute_emit_compute_state_manual_relocs`, and the answer.
  unfoldable pub emit :
      ComputeState → Option ComputeRelocs → (ℕ → ℕ) → D → Option (Ending (Unit {0}) × D)
  unfolding compute_emit_compute_state_manual_relocs
  emit state none buf d = none
  emit state (some crelocs) buf d =
      elim (compute_emit_compute_state_manual_relocs kernel state crelocs buf d) [
        | none ↦ none
        | some (ret, d') ↦ some (if ret == 0 then returned tt else thrown, d')
      ]

  -- `launch`; the code is the fragment that the pointer points to.
  unfoldable pub launch :
      List ℕ
      → List ℕ
      → List ℕ
      → List ℕ
      → GpuBuffer
      → List Block
      → ℕ
      → ℕ
      → ℕ
      → (ℕ → ℕ)
      → D
      → Option (Ending (Unit {0}) × D)
  unfolding launch_ok launch_state push_memories compute_init_relocs emit
  launch user_data thread_offset block_dim local_size code used_memories local_mem_size vgprnum
        sgprnum buf d =
      let state =
        launch_state user_data thread_offset block_dim local_size code local_mem_size vgprnum
          sgprnum in
      if launch_ok user_data block_dim local_size local_mem_size vgprnum sgprnum
      then emit state (push_memories used_memories compute_init_relocs) buf d
      else none
