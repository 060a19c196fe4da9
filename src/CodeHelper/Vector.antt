-- ===== src/CodeHelper/Vector.antt =====
-- code_helper.h: the helpers of the vector unit.
use radeonsi_compute.Base.{ℕ, ◌<<◌, ◌|||◌}
use radeonsi_compute.Base.Stream.{Stream, put}

-- A `float` by the pattern of its bits.
pub record Float32 : Type 0 where
  pub bits : ℕ

unfoldable pub floatconv : Float32 → ℕ
floatconv f = f.bits

unfoldable pub v_mov_b32 : ℕ → ℕ → Stream → Stream
v_mov_b32 vdst src0 = put (0x7E000000 ||| src0 ||| 1 << 9 ||| vdst << 17)

unfoldable pub v_sin_f32 : ℕ → ℕ → Stream → Stream
v_sin_f32 vdst src0 = put (0x7E000000 ||| src0 ||| 53 << 9 ||| vdst << 17)

unfoldable pub v_log_f32 : ℕ → ℕ → Stream → Stream
v_log_f32 vdst src0 = put (0x7E000000 ||| src0 ||| 39 << 9 ||| vdst << 17)

unfoldable pub v_rcp_f32 : ℕ → ℕ → Stream → Stream
v_rcp_f32 vdst src0 = put (0x7E000000 ||| src0 ||| 42 << 9 ||| vdst << 17)

unfoldable pub v_rcp_f64 : ℕ → ℕ → Stream → Stream
v_rcp_f64 vdst src0 = put (0x7E000000 ||| src0 ||| 47 << 9 ||| vdst << 17)

unfoldable pub v_sqrt_f32 : ℕ → ℕ → Stream → Stream
v_sqrt_f32 vdst src0 = put (0x7E000000 ||| src0 ||| 51 << 9 ||| vdst << 17)

unfoldable pub v_sqrt_f64 : ℕ → ℕ → Stream → Stream
v_sqrt_f64 vdst src0 = put (0x7E000000 ||| src0 ||| 52 << 9 ||| vdst << 17)

unfoldable pub v_bfrev_b32 : ℕ → ℕ → Stream → Stream
v_bfrev_b32 vdst src0 = put (0x7E000000 ||| src0 ||| 56 << 9 ||| vdst << 17)

-- Named `sop1` in the source, but the word is one of the vector format VOP1.
unfoldable pub sop1 : ℕ → ℕ → ℕ → Stream → Stream
sop1 op vdst src0 = put (0x7E000000 ||| src0 ||| op << 9 ||| vdst << 17)

unfoldable pub v_mov_imm32 : ℕ → ℕ → Stream → Stream
unfolding v_mov_b32
v_mov_imm32 vdst imm p = put imm (v_mov_b32 vdst 255 p)

unfoldable pub v_mul_i32_i24 : ℕ → ℕ → ℕ → Stream → Stream
v_mul_i32_i24 vdst vsrc1 src0 = put (0 ||| src0 ||| vsrc1 << 9 ||| vdst << 17 ||| 9 << 25)

unfoldable pub v_mul_f32 : ℕ → ℕ → ℕ → Stream → Stream
v_mul_f32 vdst vsrc1 src0 = put (0 ||| src0 ||| vsrc1 << 9 ||| vdst << 17 ||| 8 << 25)

unfoldable pub v_add_f32 : ℕ → ℕ → ℕ → Stream → Stream
v_add_f32 vdst vsrc1 src0 = put (0 ||| src0 ||| vsrc1 << 9 ||| vdst << 17 ||| 3 << 25)

unfoldable pub v_and_b32 : ℕ → ℕ → ℕ → Stream → Stream
v_and_b32 vdst vsrc1 src0 = put (0 ||| src0 ||| vsrc1 << 9 ||| vdst << 17 ||| 27 << 25)

unfoldable pub v_sub_f32 : ℕ → ℕ → ℕ → Stream → Stream
v_sub_f32 vdst vsrc1 src0 = put (0 ||| src0 ||| vsrc1 << 9 ||| vdst << 17 ||| 4 << 25)

unfoldable pub v_add_i32 : ℕ → ℕ → ℕ → Stream → Stream
v_add_i32 vdst vsrc1 src0 = put (0 ||| src0 ||| vsrc1 << 9 ||| vdst << 17 ||| 37 << 25)

unfoldable pub v_mul_i32_i24_imm32 : ℕ → ℕ → ℕ → Stream → Stream
unfolding v_mul_i32_i24
v_mul_i32_i24_imm32 vdst vsrc1 imm32 p = put imm32 (v_mul_i32_i24 vdst vsrc1 255 p)

unfoldable pub v_add_i32_imm32 : ℕ → ℕ → ℕ → Stream → Stream
unfolding v_add_i32
v_add_i32_imm32 vdst vsrc1 imm32 p = put imm32 (v_add_i32 vdst vsrc1 255 p)

unfoldable pub v_mul_f32_imm32 : ℕ → ℕ → Float32 → Stream → Stream
unfolding v_mul_f32 floatconv
v_mul_f32_imm32 vdst vsrc1 f p = put (floatconv f) (v_mul_f32 vdst vsrc1 255 p)

unfoldable pub v_add_f32_imm32 : ℕ → ℕ → Float32 → Stream → Stream
unfolding v_add_f32 floatconv
v_add_f32_imm32 vdst vsrc1 f p = put (floatconv f) (v_add_f32 vdst vsrc1 255 p)

unfoldable pub v_cvt_i32_f32 : ℕ → ℕ → Stream → Stream
unfolding sop1
v_cvt_i32_f32 vdst src0 = sop1 8 vdst src0

unfoldable pub v_cvt_f32_i32 : ℕ → ℕ → Stream → Stream
unfolding sop1
v_cvt_f32_i32 vdst src0 = sop1 5 vdst src0

unfoldable pub vop3a : ℕ → ℕ → ℕ → ℕ → ℕ → ℕ → ℕ → ℕ → ℕ → Stream → Stream
vop3a vdst abs clamp op src0 src1 src2 omod neg p =
    put (0 ||| src0 << 0 ||| src1 << 9 ||| src2 << 18 ||| omod << 27 ||| neg << 29)
      (put (0xD0000000 ||| vdst << 0 ||| abs << 8 ||| clamp << 11 ||| op << 17) p)

unfoldable pub v_fma_f32 : ℕ → ℕ → ℕ → ℕ → ℕ → ℕ → ℕ → ℕ → Stream → Stream
unfolding vop3a
v_fma_f32 vdst abs clamp src0 src1 src2 omod neg = vop3a vdst abs clamp 331 src0 src1 src2 omod neg

unfoldable pub v_mul_lo_i32 : ℕ → ℕ → ℕ → Stream → Stream
unfolding vop3a
v_mul_lo_i32 vdst src0 src1 = vop3a vdst 0 0 363 src0 src1 0 0 0

unfoldable pub v_mul_hi_i32 : ℕ → ℕ → ℕ → Stream → Stream
unfolding vop3a
v_mul_hi_i32 vdst src0 src1 = vop3a vdst 0 0 364 src0 src1 0 0 0

-- The second source goes to bit 8 in three of the comparisons and to bit 9 in the fourth.
unfoldable pub v_cmp_lt_f32 : ℕ → ℕ → Stream → Stream
v_cmp_lt_f32 vsrc1 src0 = put (0x7C000000 ||| src0 << 0 ||| vsrc1 << 8 ||| 1 << 17)

unfoldable pub v_cmpx_lt_f32 : ℕ → ℕ → Stream → Stream
v_cmpx_lt_f32 vsrc1 src0 = put (0x7C000000 ||| src0 << 0 ||| vsrc1 << 8 ||| 17 << 17)

unfoldable pub v_cmp_gt_f32 : ℕ → ℕ → Stream → Stream
v_cmp_gt_f32 vsrc1 src0 = put (0x7C000000 ||| src0 << 0 ||| vsrc1 << 8 ||| 4 << 17)

unfoldable pub v_cmpx_gt_f32 : ℕ → ℕ → Stream → Stream
v_cmpx_gt_f32 vsrc1 src0 = put (0x7C000000 ||| src0 << 0 ||| vsrc1 << 9 ||| 20 << 17)
