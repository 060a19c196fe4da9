-- ===== src/Kernels/BinaryOperation.antt =====
-- divide_precision.cpp: the kernel that `AMDBinaryOperationRunner` puts around a piece of binary
-- code, and the registers that it is started with.
pub mod Embedding
use radeonsi_compute.Base.{
  ℕ, ◌+◌, ◌*◌, ◌/◌, ◌==◌, if◌then◌else◌, Option, none, some, List, [], ◌∷◌, ◌++◌, map,
}
use radeonsi_compute.Base.Stream.{Stream, puts}
use radeonsi_compute.CodeHelper.Program.{
  Call, s_nop, s_waitcnt, s_endpgm, v_mov_b32, v_mul_i32_i24, v_add_i32, mubuf, v_rcp_f64, vop3a,
}
use radeonsi_compute.CodeHelper.Resource.{BufferResource, resource_word, new_resource}
use radeonsi_compute.Kernels.{Item, call, with_word, emit_code}

-- `LoadType`; none has been chosen for the size 0.
unfoldable pub load_type : ℕ → Option ℕ
load_type type_size =
    if type_size == 1
    then some 8
    else if type_size == 2
    then some 10
    else if type_size == 4
    then some 12
    else if type_size == 8
    then some 13
    else if type_size == 0
    then none
    else some 14

-- `StoreType`.
unfoldable pub store_type : ℕ → Option ℕ
store_type type_size =
    if type_size == 1
    then some 24
    else if type_size == 2
    then some 26
    else if type_size == 4
    then some 28
    else if type_size == 8
    then some 29
    else if type_size == 0
    then none
    else some 30

-- Register 7 gets the place of the lane, and the operands are loaded into 2 and 4.
unfoldable pub load_operands : ℕ → List Item
load_operands load =
    call s_nop
    ∷ call s_nop
    ∷ call s_nop
    ∷ call s_nop
    ∷ call s_nop
    ∷ call (v_mov_b32 6 8)
    ∷ with_word (v_mul_i32_i24 6 6 255) 256
    ∷ call (v_add_i32 7 0 (256 + 6))
    ∷ call (mubuf 128 0 0 0 2 7 load 0 0 0 1 0 0)
    ∷ call (mubuf 128 0 0 1 4 7 load 0 0 0 1 0 0)
    ∷ call s_waitcnt
    ∷ []

-- The result is stored from register 4.
unfoldable pub store_result : ℕ → List Item
store_result store =
    call (mubuf 128 0 0 1 4 7 store 0 0 0 1 0 0)
    ∷ call s_waitcnt
    ∷ call s_nop
    ∷ call s_nop
    ∷ call s_nop
    ∷ call s_nop
    ∷ call s_nop
    ∷ call s_endpgm
    ∷ []

temp_code : List ℕ → Option ℕ → Option ℕ → Stream → Option Stream
unfolding emit_code load_operands store_result
temp_code binary (some load) (some store) code =
    some (emit_code (store_result store) (puts binary (emit_code (load_operands load) code)))
temp_code binary load store code = none

-- `none` is a size for which the code of the load and the store is never set.
unfoldable pub generate_temp_code : List ℕ → ℕ → Stream → Option Stream
unfolding temp_code load_type store_type
generate_temp_code binary type_size code =
    temp_code binary (load_type type_size) (store_type type_size) code

-- `bufres` of `runCode`, and `bufres2` at the other address.
unfoldable pub operand_resource : ℕ → ℕ → ℕ → BufferResource
operand_resource va type_size mx = record new_resource {
  base_addr = va;
  stride = type_size;
  num_records = mx;
  dst_sel_x = 4;
  dst_sel_y = 4;
  dst_sel_z = 4;
  dst_sel_w = 4;
  num_format = 4;
  data_format = 4;
  element_size = 1;
  add_tid_en = 0;
}

-- `user_data` of `runCode`.
unfoldable pub run_code_user_data : ℕ → ℕ → ℕ → ℕ → List ℕ
unfolding operand_resource resource_word
run_code_user_data va1 va2 type_size mx =
    map (resource_word (operand_resource va1 type_size mx)) (0 ∷ 1 ∷ 2 ∷ 3 ∷ [])
    ++ map (resource_word (operand_resource va2 type_size mx)) (0 ∷ 1 ∷ 2 ∷ 3 ∷ [])

-- The operation that `main` gives to the runner: a first guess of the reciprocal, and one step.
unfoldable pub divide_operation : List Item
divide_operation =
    call (v_rcp_f64 4 (256 + 2))
    ∷ call (vop3a 10 0 0 332 (256 + 2) (256 + 4) 245 0 0)
    ∷ call (vop3a 4 0 0 357 (256 + 4) (256 + 10) 0 0 1)
    ∷ []
