-- ===== src/Kernels/Experiments.antt =====
-- main.cpp, fma_test.cpp, read_test.cpp and write_test.cpp: the kernels that measure how long a
-- loop takes. `state.num_thread` and `state.dim` are constants of the programs, and so is
-- `iternum`, which is greater than 1.
pub mod Branching
pub mod Landing
pub mod Fitting
pub mod Granted
pub mod States
use radeonsi_compute.Base.{
  ℕ, zero, suc, ◌+◌, ◌-◌, ◌*◌, ◌/◌, ◌%◌, ◌^◌, List, [], ◌∷◌, ◌++◌, length, map,
}
use radeonsi_compute.Base.Bits.{u32}
use radeonsi_compute.Device.{GpuBuffer, ComputeState}
use radeonsi_compute.Base.Stream.{Stream}
use radeonsi_compute.CodeHelper.Program.{
  Call, assemble, s_nop, s_mov_imm32, s_getreg_b32, s_waitcnt, s_endpgm, s_swappc_b64, s_memtime,
  s_cmp_lt_i32, s_cbranch_scc0, s_add_i32, s_and_b32, v_mov_b32, v_mov_imm32, v_mul_i32_i24_imm32,
  v_add_i32_imm32, v_add_f32, v_add_i32, v_fma_f32, mtbuf, mubuf,
}
use radeonsi_compute.CodeHelper.Vector.{floatconv}
use radeonsi_compute.CodeHelper.Resource.{BufferResource, resource_word, new_resource}
use radeonsi_compute.Kernels.{Item, call, with_word, emit_code}
use radeonsi_compute.Kernels.Arithmetic.{Floats, bits_of}
use radeonsi_compute.Kernels.Pieces.{
  repeated, label_displacement, set_exec, kernel_opening, counting, closing, loop_program,
  data_resource, load_resource,
}

-- The registers of the loops of main.cpp and fma_test.cpp.
unfoldable pub float_set_up : Floats → List Item
unfolding floatconv
float_set_up fl =
    set_exec 0xFFFFFFFF 0xFFFFFFFF
    ++ (call (s_mov_imm32 8 0)
        ∷ call (v_mov_imm32 4 (bits_of fl (fl.float_of 2)))
        ∷ call (v_mov_imm32 5 (bits_of fl (fl.float_of 1)))
        ∷ [])

-- The kernel of main.cpp: what it does before the loop, the loop, and the whole.
unfoldable pub main_set_up : Floats → ℕ → List Item
unfolding kernel_opening float_set_up
main_set_up fl trap_va =
    call (s_mov_imm32 108 (u32 trap_va))
      ∷ call (s_mov_imm32 109 (u32 (trap_va / 2 ^ 32)))
      ∷ kernel_opening
    ++ float_set_up fl

unfoldable pub main_loop : List Item
unfolding repeated
main_loop = repeated (1024 * 4) (call (v_add_f32 4 4 (256 + 4)) ∷ [])

unfoldable pub main_end : List Item
unfolding closing
main_end = closing [] ++ (call s_endpgm ∷ call s_endpgm ∷ call s_endpgm ∷ [])

unfoldable pub main_program : Floats → ℕ → Stream → Stream
unfolding loop_program main_set_up main_loop main_end
main_program fl trap_va = loop_program (main_set_up fl trap_va) (λ p. p) main_loop 10000 main_end

-- The kernel of fma_test.cpp.
unfoldable pub fma_set_up : Floats → List Item
unfolding kernel_opening float_set_up
fma_set_up fl = kernel_opening ++ float_set_up fl

unfoldable pub fma_loop : List Item
unfolding repeated
fma_loop = repeated (1024 * 1) (call (v_fma_f32 4 0 0 (256 + 5) (256 + 4) (256 + 4) 0 0) ∷ [])

unfoldable pub fma_end : List Item
unfolding closing
fma_end = closing [] ++ (call s_endpgm ∷ [])

unfoldable pub fma_program : Floats → Stream → Stream
unfolding loop_program fma_set_up fma_loop fma_end
fma_program fl = loop_program (fma_set_up fl) (λ p. p) fma_loop 1000 fma_end

-- What read_test.cpp and write_test.cpp do before the loop: the memory that they read or write,
-- and the place of each lane.
unfoldable pub memory_set_up : ℕ → ℕ → List Item
unfolding kernel_opening load_resource
memory_set_up test_memory_va num_thread =
    kernel_opening
    ++ load_resource (data_resource test_memory_va (4 * 4) (1024 * 1024 * 64 / 4))
    ++ set_exec 0xFFFFFFFF 0xFFFFFFFF
    ++ (call (s_mov_imm32 8 0)
        ∷ call (v_mov_b32 3 4)
        ∷ call (v_mul_i32_i24_imm32 3 3 num_thread)
        ∷ call (v_add_i32 3 3 (256 + 0))
        ∷ call (v_mov_b32 4 (256 + 3))
        ∷ call (v_mov_b32 5 (256 + 3))
        ∷ call (v_mov_b32 6 (256 + 3))
        ∷ call (v_mov_b32 7 (256 + 3))
        ∷ call (v_mov_b32 8 (256 + 3))
        ∷ [])

-- What they do behind it: the data again, and the end.
unfoldable pub memory_end : ℕ → List Item
unfolding closing load_resource
memory_end data_va =
    closing (load_resource (data_resource data_va 4 (1024 * 1024 * 64 / 4))) ++ (call s_endpgm ∷ [])

-- The kernel of read_test.cpp, for the addresses of its data and of the memory that it reads.
unfoldable pub read_loop : List Item
unfolding repeated
read_loop =
    call (v_mul_i32_i24_imm32 3 8 1)
    ∷ repeated 32 (
        call (mtbuf 4 14 3 0 0 1 0 0 128 0 0 0 4 3)
        ∷ call (v_add_i32_imm32 3 3 (4 * 4 * 32 * (64 * 8) / 16))
        ∷ call s_waitcnt
        ∷ [])

unfoldable pub read_program : ℕ → ℕ → Stream → Stream
unfolding loop_program memory_set_up read_loop memory_end
read_program data_va test_memory_va =
    loop_program (memory_set_up test_memory_va (64 * 8)) (λ p. p - 1) read_loop 1000
      (memory_end data_va)

-- The kernel of write_test.cpp.
unfoldable pub write_loop : List Item
unfolding repeated
write_loop =
    call (v_mul_i32_i24_imm32 3 8 1)
    ∷ repeated 32 (
        call (mtbuf 4 14 7 0 0 1 0 0 128 0 0 0 4 3)
        ∷ call s_waitcnt
        ∷ call (v_add_i32_imm32 3 3 (4 * 4 * 32 * (64 * 4) / 16))
        ∷ [])

unfoldable pub write_program : ℕ → ℕ → Stream → Stream
unfolding loop_program memory_set_up write_loop memory_end
write_program data_va test_memory_va =
    loop_program (memory_set_up test_memory_va (64 * 4)) (λ p. p - 1) write_loop 1000
      (memory_end data_va)
