-- ===== src/Kernels/Experiments/States.antt =====
-- main.cpp, fma_test.cpp, read_test.cpp and write_test.cpp: the states that their launches start
-- from, and the trap handler of main.cpp.
use radeonsi_compute.Base.{ℕ, ◌*◌, ◌/◌, List, [], ◌∷◌, map}
use radeonsi_compute.Device.{GpuBuffer, ComputeState}
use radeonsi_compute.CodeHelper.Program.{
  s_nop, s_waitcnt, s_endpgm, s_swappc_b64, s_add_i32, s_and_b32, v_mov_b32, mtbuf,
}
use radeonsi_compute.CodeHelper.Resource.{resource_word}
use radeonsi_compute.Kernels.{Item, call, with_word}
use radeonsi_compute.Kernels.Pieces.{data_resource}

-- The trap handler of main.cpp.
unfoldable pub trap_handler : List Item
trap_handler =
    call s_nop
    ∷ call s_nop
    ∷ call s_nop
    ∷ call s_nop
    ∷ with_word (s_add_i32 112 112 255) 4
    ∷ call (v_mov_b32 4 113)
    ∷ call (mtbuf 4 4 4 0 0 1 0 0 128 0 0 0 4 2)
    ∷ call s_waitcnt
    ∷ with_word (s_and_b32 113 113 255) 0xFFFF
    ∷ call (s_swappc_b64 116 112)
    ∷ call s_endpgm
    ∷ call s_endpgm
    ∷ call s_endpgm
    ∷ []

-- `state`, for the settings in which the four programs differ.
unfoldable pub test_state : ℕ → ℕ → ℕ → ℕ → ℕ → GpuBuffer → ComputeState
unfolding resource_word
test_state num_records num_thread sgpr_num vgpr_num data_va code_bo = record {
  id = 0;
  user_data = map (resource_word (data_resource data_va 4 num_records)) (0 ∷ 1 ∷ 2 ∷ 3 ∷ []);
  user_data_length = 4;
  dim = record { x = 32; y = 1; z = 1 };
  start = record { x = 0; y = 0; z = 0 };
  num_thread = record { x = num_thread; y = 1; z = 1 };
  sgpr_num = sgpr_num;
  vgpr_num = vgpr_num;
  priority = 0;
  debug_mode = 0;
  priv_mode = 0;
  trap_en = 0;
  ieee_mode = 0;
  scratch_en = 0;
  lds_size = 0;
  excp_en = 0;
  waves_per_sh = 0;
  thread_groups_per_cu = 1;
  lock_threshold = 0;
  simd_dest_cntl = 0;
  se0_sh0_cu_en = 0xFF;
  se0_sh1_cu_en = 0xFF;
  se1_sh0_cu_en = 0xFF;
  se1_sh1_cu_en = 0xFF;
  tmpring_waves = 0;
  tmpring_wavesize = 0;
  binary = code_bo;
}

-- The states of main.cpp, fma_test.cpp, read_test.cpp and write_test.cpp, for the address of the
-- data and the buffer of the code.
unfoldable pub main_state : ℕ → GpuBuffer → ComputeState
unfolding test_state
main_state = test_state (1024 * 100) (256 * 1) 11 10

unfoldable pub fma_state : ℕ → GpuBuffer → ComputeState
unfolding test_state
fma_state = test_state (1024 * 100) (256 * 7) 5 5

unfoldable pub read_state : ℕ → GpuBuffer → ComputeState
unfolding test_state
read_state = test_state (1024 * 1024 * 64 / 4) (64 * 8) 5 5

unfoldable pub write_state : ℕ → GpuBuffer → ComputeState
unfolding test_state
write_state = test_state (1024 * 1024 * 64 / 4) (64 * 4) 5 5
