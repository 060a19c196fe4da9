-- ===== src/Kernels/Mandelbrot.antt =====
-- mandelbrot.cpp: `set_program`, the kernel that colours an image of the Mandelbrot set.
pub mod Loop
pub mod Whole
use radeonsi_compute.Base.{ℕ, ◌+◌, ◌-◌, ◌*◌, ◌%◌, ◌^◌, List, [], ◌∷◌, ◌++◌}
use radeonsi_compute.Base.Bits.{u32}
use radeonsi_compute.Base.Stream.{Stream}
use radeonsi_compute.CodeHelper.Program.{
  Call, assemble, s_nop, s_mov_imm32, s_mov_b64, s_waitcnt, s_endpgm, s_cmp_lt_i32, s_cbranch_scc0,
  s_cbranch_execz, s_add_i32, v_mov_b32, v_mov_imm32, v_sin_f32, v_log_f32, v_sqrt_f32,
  v_cvt_i32_f32, v_cvt_f32_i32, v_mul_i32_i24, v_mul_f32, v_add_f32, v_sub_f32, v_add_i32,
  v_cmpx_gt_f32, mtbuf,
}
use radeonsi_compute.CodeHelper.Vector.{floatconv}
use radeonsi_compute.Kernels.Arithmetic.{Floats, whole, bits_of}
use radeonsi_compute.Interface.Launch.{int_quot}
use radeonsi_compute.Kernels.{Item, call, with_word, emit_code}

-- `-x` of an `int`.
abbrev pub int_neg : ℕ → ℕ
int_neg x = (2 ^ 32 - x % 2 ^ 32) % 2 ^ 32

module _ (fl : Floats) where
  -- `N`.
  abbrev pub radius : fl.Real
  radius = fl.rounded (fl.sqrt (fl.double_of 25))

  -- `scaleFactor`.
  abbrev scale_factor : fl.Real
  scale_factor = fl.rounded (fl.over (fl.float_of 1) (fl.log2 radius))

  -- `1.0/cscale`.
  abbrev colour_scale : fl.Real
  colour_scale = fl.over (whole fl 1) (fl.rounded (whole fl 5))

  -- The place of a lane in the image: v6 and v8.
  unfoldable pub placing : ℕ → ℕ → fl.Real → fl.Real → fl.Real → List Item
  unfolding floatconv
  placing mx my image_scale offset_x offset_y =
      call (v_mov_imm32 8 0xFFFFFF)
      ∷ call (v_mov_b32 5 4)
      ∷ with_word (v_mul_i32_i24 5 5 255) 256
      ∷ call (v_add_i32 6 0 (256 + 5))
      ∷ call (v_mov_b32 8 5)
      ∷ with_word (v_mul_i32_i24 0 8 255) (u32 mx)
      ∷ call (v_add_i32 0 0 (256 + 6))
      ∷ call (v_cvt_f32_i32 6 (256 + 6))
      ∷ call (v_cvt_f32_i32 8 (256 + 8))
      ∷ with_word (v_add_f32 6 6 255) (bits_of fl (fl.float_of (int_quot (int_neg mx) 2)))
      ∷ with_word (v_add_f32 8 8 255) (bits_of fl (fl.float_of (int_quot (int_neg my) 2)))
      ∷ with_word (v_mul_f32 6 6 255)
          (bits_of fl (fl.over (fl.over (whole fl 1) (fl.float_of (int_quot mx 2))) image_scale))
      ∷ with_word (v_mul_f32 8 8 255) (
          bits_of fl (
            fl.over (fl.over (whole fl 1) (fl.float_of (int_quot my 2)))
              (fl.over (fl.times image_scale (fl.double_of mx)) (fl.double_of my))))
      ∷ with_word (v_add_f32 6 6 255) (bits_of fl offset_x)
      ∷ with_word (v_add_f32 8 8 255) (bits_of fl offset_y)
      ∷ []

  -- The vector registers that the loop starts with.
  unfoldable pub zeroing : List Item
  unfolding floatconv
  zeroing =
      call (v_mov_imm32 10 (bits_of fl (fl.float_of 0)))
      ∷ call (v_mov_imm32 12 (bits_of fl (fl.float_of 0)))
      ∷ call (v_mov_imm32 35 (bits_of fl (fl.float_of 0)))
      ∷ call (v_mov_imm32 36 (bits_of fl (fl.float_of 0)))
      ∷ []

  -- All that stands before the label `eleje`.
  unfoldable pub prologue : ℕ → ℕ → fl.Real → fl.Real → fl.Real → List Item
  unfolding placing zeroing
  prologue mx my image_scale offset_x offset_y =
      (call s_nop ∷ call s_nop ∷ call s_nop ∷ call s_nop ∷ call s_nop ∷ [])
      ++ placing mx my image_scale offset_x offset_y
      ++ (call (s_mov_b64 12 126) ∷ call (s_mov_imm32 8 0) ∷ [])
      ++ zeroing

  -- From the label `eleje` to the branch back.
  unfoldable pub loop_body : List Item
  unfolding floatconv
  loop_body =
      call (v_add_f32 10 10 242)
      ∷ call (s_add_i32 8 8 129)
      ∷ call (v_mul_f32 32 35 (256 + 35))
      ∷ call (v_add_f32 32 32 (256 + 6))
      ∷ call (v_mul_f32 33 36 (256 + 36))
      ∷ call (v_sub_f32 40 33 (256 + 32))
      ∷ with_word (v_mul_f32 32 35 255) (bits_of fl (whole fl 2))
      ∷ call (v_mul_f32 33 32 (256 + 36))
      ∷ call (v_add_f32 36 33 (256 + 8))
      ∷ call (v_mov_b32 35 (256 + 40))
      ∷ call (v_mul_f32 32 35 (256 + 35))
      ∷ call (v_mul_f32 33 36 (256 + 36))
      ∷ call (v_add_f32 12 32 (256 + 33))
      ∷ with_word (v_cmpx_gt_f32 12 255) (bits_of fl (fl.times radius radius))
      ∷ call (s_cbranch_execz 3)
      ∷ with_word (s_cmp_lt_i32 8 255) 0x4FF
      ∷ []

  -- One channel of the colour, in register `v`.
  channel : ℕ → fl.Real → List Item → List Item
  unfolding floatconv
  channel v phase rest =
      with_word (v_mul_f32 v 10 255) (bits_of fl colour_scale)
      ∷ with_word (v_add_f32 v v 255) (bits_of fl phase)
      ∷ call (v_sin_f32 v (256 + v))
      ∷ with_word (v_add_f32 v v 255) (bits_of fl (fl.decimal 10001 4))
      ∷ with_word (v_mul_f32 v v 255) (bits_of fl (whole fl 127))
      ∷ rest

  third : fl.Real
  third = fl.over (whole fl 1) (whole fl 3)

  -- The colour of a lane, and its store into the image.
  unfoldable pub colour : fl.Real → List Item
  unfolding floatconv channel third
  colour shift =
      call (v_sqrt_f32 12 (256 + 12))
      ∷ call (v_log_f32 12 (256 + 12))
      ∷ with_word (v_mul_f32 12 12 255) (bits_of fl scale_factor)
      ∷ call (v_log_f32 12 (256 + 12))
      ∷ call (v_sub_f32 10 12 (256 + 10))
      ∷ channel 11 (fl.plus (fl.over (fl.minus (whole fl 1)) (whole fl 3)) shift) (
          channel 12 (fl.plus (whole fl 0) shift) (
            channel 13 (fl.plus third shift) (
              call (v_cvt_i32_f32 11 (256 + 11))
              ∷ call (v_cvt_i32_f32 12 (256 + 12))
              ∷ call (v_cvt_i32_f32 13 (256 + 13))
              ∷ with_word (v_mul_i32_i24 12 12 255) 256
              ∷ with_word (v_mul_i32_i24 13 13 255) (256 * 256)
              ∷ call (v_mov_b32 10 (256 + 11))
              ∷ call (v_add_i32 10 10 (256 + 12))
              ∷ call (v_add_i32 10 10 (256 + 13))
              ∷ call (mtbuf 4 4 4 0 0 1 0 0 128 0 0 0 10 0)
              ∷ [])))

  -- All that stands behind the branch back to the label.
  unfoldable pub epilogue : fl.Real → List Item
  unfolding colour
  epilogue shift =
      call (s_mov_b64 126 12) ∷ colour shift
      ++ (call s_waitcnt ∷ call s_nop ∷ call s_nop ∷ call s_nop ∷ call s_nop ∷ call s_endpgm ∷ [])

  -- `eleje-p-1` as `int16_t`, for positions of words.
  abbrev pub label_distance : ℕ → ℕ → ℕ
  label_distance eleje p = (eleje + 2 ^ 16 - (p + 1) % 2 ^ 16) % 2 ^ 16

  -- The code before the branch back, the label, and the branch with what follows it.
  unfoldable pub set_program : ℕ → ℕ → fl.Real → fl.Real → fl.Real → fl.Real → Stream → Stream
  unfolding emit_code assemble prologue loop_body epilogue
  set_program mx my image_scale offset_x offset_y shift p =
      let eleje = emit_code (prologue mx my image_scale offset_x offset_y) p in
      let branch = emit_code loop_body eleje in
      emit_code (call (s_cbranch_scc0 (label_distance eleje.pos branch.pos)) ∷ epilogue shift)
        branch
