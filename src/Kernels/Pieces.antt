-- ===== src/Kernels/Pieces.antt =====
-- main.cpp, fma_test.cpp, read_test.cpp and write_test.cpp: the pieces that the four kernels share.
-- `iternum` is a constant of each program, and greater than 1.
use radeonsi_compute.Base.{ℕ, zero, suc, ◌+◌, ◌-◌, ◌%◌, ◌^◌, List, [], ◌∷◌, ◌++◌}
use radeonsi_compute.Base.Bits.{u32}
use radeonsi_compute.Base.Stream.{Stream}
use radeonsi_compute.CodeHelper.Program.{
  assemble, s_mov_imm32, s_getreg_b32, s_waitcnt, s_memtime, s_cmp_lt_i32, s_cbranch_scc0,
  s_add_i32, v_mov_b32, v_mov_imm32, v_mul_i32_i24_imm32, v_add_i32_imm32, mtbuf, mubuf,
}
use radeonsi_compute.CodeHelper.Resource.{BufferResource, resource_word, new_resource}
use radeonsi_compute.Kernels.{Item, call, with_word, emit_code}

-- `for (int i = 0; i < n; i++)` around the calls `is`.
unfoldable pub repeated : ℕ → List Item → List Item
repeated zero is = []
repeated (suc n) is = is ++ repeated n is

-- `eleje-p` as `int16_t`, for positions of words.
abbrev pub label_displacement : ℕ → ℕ → ℕ
label_displacement eleje p = (eleje + 2 ^ 16 - p % 2 ^ 16) % 2 ^ 16

-- EXEC, in its two words.
abbrev pub set_exec : ℕ → ℕ → List Item
set_exec lo hi = call (s_mov_imm32 126 lo) ∷ call (s_mov_imm32 127 hi) ∷ []

-- One lane takes its place in the data, and stores when it has started.
unfoldable pub kernel_opening : List Item
kernel_opening =
    (call (v_mov_imm32 1 0x0002) ∷ call (v_mov_imm32 2 0x0001) ∷ set_exec 1 0)
    ++ (call (v_mov_b32 1 4)
        ∷ call (v_mov_b32 2 4)
        ∷ call (v_mul_i32_i24_imm32 1 1 64)
        ∷ call (v_mov_imm32 1 0x00000000)
        ∷ call (v_mov_imm32 2 0x00000007)
        ∷ call (mubuf 128 0 0 0 2 0 50 0 0 1 0 0 0)
        ∷ call s_waitcnt
        ∷ call (v_mov_b32 1 4)
        ∷ call (s_mov_imm32 6 0x42)
        ∷ call (s_memtime 6)
        ∷ call s_waitcnt
        ∷ call (v_mov_b32 4 6)
        ∷ call (v_mov_b32 5 7)
        ∷ call (mtbuf 4 11 5 0 0 1 0 0 128 0 0 0 4 2)
        ∷ call s_waitcnt
        ∷ [])

-- The count in s8 and its comparison with `iternum`, in front of the branch.
unfoldable pub counting : ℕ → List Item
counting iternum =
    with_word (s_add_i32 8 8 255) 1 ∷ with_word (s_cmp_lt_i32 8 255) (u32 iternum) ∷ []

-- The lane stores when it has ended, and where it ran; `resource` are the calls that point to the
-- data again.
unfoldable pub closing : List Item → List Item
closing resource =
    set_exec 1 0
    ++ (call (s_memtime 6) ∷ call s_waitcnt ∷ [])
    ++ resource
    ++ (call (s_getreg_b32 8 31 0 4)
        ∷ call (s_getreg_b32 9 31 0 5)
        ∷ call (v_mov_b32 4 6)
        ∷ call (v_mov_b32 5 7)
        ∷ call (v_mov_b32 6 4)
        ∷ call (v_mov_b32 7 8)
        ∷ call (v_add_i32_imm32 2 2 2)
        ∷ call (mtbuf 4 14 7 0 0 1 0 0 128 0 0 0 4 2)
        ∷ call s_waitcnt
        ∷ call (v_mov_b32 4 9)
        ∷ call (v_add_i32_imm32 2 2 4)
        ∷ call (mtbuf 4 4 4 0 0 1 0 0 128 0 0 0 4 2)
        ∷ call s_waitcnt
        ∷ [])

-- A kernel: what comes before the loop, the label, given by the position of the loop, its body, and
-- what comes behind.
unfoldable pub loop_program : List Item → (ℕ → ℕ) → List Item → ℕ → List Item → Stream → Stream
unfolding emit_code assemble counting
loop_program before label body iternum after p =
    let start = emit_code before p in
    let branch = emit_code (body ++ counting iternum) start in
    emit_code (call (s_cbranch_scc0 (label_displacement (label start.pos) branch.pos)) ∷ after)
      branch

-- `bufres` and `bufres2`.
abbrev pub data_resource : ℕ → ℕ → ℕ → BufferResource
data_resource va stride num_records = record new_resource {
  base_addr = va;
  stride = stride;
  num_records = num_records;
  dst_sel_x = 4;
  dst_sel_y = 4;
  dst_sel_z = 4;
  dst_sel_w = 4;
  num_format = 4;
  data_format = 4;
  element_size = 1;
  add_tid_en = 0;
}

-- A resource into the scalar registers 0 to 3.
unfoldable pub load_resource : BufferResource → List Item
unfolding resource_word
load_resource r =
    call (s_mov_imm32 0 (resource_word r 0))
    ∷ call (s_mov_imm32 1 (resource_word r 1))
    ∷ call (s_mov_imm32 2 (resource_word r 2))
    ∷ call (s_mov_imm32 3 (resource_word r 3))
    ∷ []
