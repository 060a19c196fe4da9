-- ===== src/CodeHelper/Program.antt =====
-- Programs that are written with the helpers of code_helper.h: a call of each helper, what it
-- does to the stream, the line of code that it stands for, and the operands that fit.
pub mod Lines
pub mod CallWords
pub mod RoundTrip
pub mod Comparisons
pub mod Tests
use radeonsi_compute.Base.{
  ◌≡◌, ◌≢◌, ◌<◌, ◌+◌, ◌*◌, ℕ, List, [], ◌∷◌, refl, zero, suc, arith, map, All, length, Option, none,
  some, ap, sym, ◌∙◌, ◌|||◌, ◌<<◌,
}
use radeonsi_compute.Base.Stream.{Stream}
use radeonsi_compute.CodeHelper.Scalar
use radeonsi_compute.CodeHelper.Vector
use radeonsi_compute.CodeHelper.Memory
use radeonsi_compute.CodeHelper.Vector.{Float32}
use radeonsi_compute.CodeHelper.Isa.{Inst, Line, plain, with_literal}

pub data Call : Type 0 where
  s_load_dword : (sbase sdst offset imm : ℕ) → Call
  s_mov_imm32 : (sdst imm : ℕ) → Call
  s_mov_b32 : (sdst src : ℕ) → Call
  s_mov_b64 : (sdst src : ℕ) → Call
  s_getreg_b32 : (sdst size offset hwregid : ℕ) → Call
  s_waitcnt : Call
  s_sleep : (imm : ℕ) → Call
  s_endpgm : Call
  s_getpc_b64 : (sdst : ℕ) → Call
  s_swappc_b64 : (sdst ssrc0 : ℕ) → Call
  s_jump : (rel : ℕ) → Call
  smrd : (op sdst sbase imm offset : ℕ) → Call
  s_memtime : (sdst : ℕ) → Call
  sopc : (op ssrc1 ssrc0 : ℕ) → Call
  s_cmp_lt_i32 : (ssrc1 ssrc0 : ℕ) → Call
  s_cmp_gt_i32 : (ssrc1 ssrc0 : ℕ) → Call
  s_trap : (trap_id : ℕ) → Call
  s_nop : Call
  s_cbranch_scc0 : (imm : ℕ) → Call
  s_cbranch_execz : (imm : ℕ) → Call
  s_branch : (imm : ℕ) → Call
  sop2 : (op sdst ssrc1 ssrc0 : ℕ) → Call
  s_add_i32 : (sdst ssrc1 ssrc0 : ℕ) → Call
  s_and_b32 : (sdst ssrc1 ssrc0 : ℕ) → Call
  s_and_b64 : (sdst ssrc1 ssrc0 : ℕ) → Call
  s_rfe_b64 : Call
  v_mov_b32 : (vdst src0 : ℕ) → Call
  v_sin_f32 : (vdst src0 : ℕ) → Call
  v_log_f32 : (vdst src0 : ℕ) → Call
  v_rcp_f32 : (vdst src0 : ℕ) → Call
  v_rcp_f64 : (vdst src0 : ℕ) → Call
  v_sqrt_f32 : (vdst src0 : ℕ) → Call
  v_sqrt_f64 : (vdst src0 : ℕ) → Call
  v_bfrev_b32 : (vdst src0 : ℕ) → Call
  v_cvt_i32_f32 : (vdst src0 : ℕ) → Call
  v_cvt_f32_i32 : (vdst src0 : ℕ) → Call
  sop1 : (op vdst src0 : ℕ) → Call
  v_mov_imm32 : (vdst imm : ℕ) → Call
  v_mul_i32_i24 : (vdst vsrc1 src0 : ℕ) → Call
  v_mul_f32 : (vdst vsrc1 src0 : ℕ) → Call
  v_add_f32 : (vdst vsrc1 src0 : ℕ) → Call
  v_and_b32 : (vdst vsrc1 src0 : ℕ) → Call
  v_sub_f32 : (vdst vsrc1 src0 : ℕ) → Call
  v_add_i32 : (vdst vsrc1 src0 : ℕ) → Call
  v_mul_i32_i24_imm32 : (vdst vsrc1 imm32 : ℕ) → Call
  v_add_i32_imm32 : (vdst vsrc1 imm32 : ℕ) → Call
  v_mul_f32_imm32 : (vdst vsrc1 : ℕ) (f : Float32) → Call
  v_add_f32_imm32 : (vdst vsrc1 : ℕ) (f : Float32) → Call
  vop3a : (vdst abs clamp op src0 src1 src2 omod neg : ℕ) → Call
  v_fma_f32 : (vdst abs clamp src0 src1 src2 omod neg : ℕ) → Call
  v_mul_lo_i32 : (vdst src0 src1 : ℕ) → Call
  v_mul_hi_i32 : (vdst src0 src1 : ℕ) → Call
  v_cmp_lt_f32 : (vsrc1 src0 : ℕ) → Call
  v_cmpx_lt_f32 : (vsrc1 src0 : ℕ) → Call
  v_cmp_gt_f32 : (vsrc1 src0 : ℕ) → Call
  v_cmpx_gt_f32 : (vsrc1 src0 : ℕ) → Call
  mtbuf : (nfmt dfmt op addr64 glc idxen offen offset soffset tfe slc srsrc vdata vaddr : ℕ) → Call
  mubuf : (soffset tfe slc srsrc vdata vaddr op lds addr64 glc idxen offen offset : ℕ) → Call

unfoldable pub assemble : Call → Stream → Stream
unfolding Scalar.s_load_dword Scalar.s_mov_imm32 Scalar.s_mov_b32 Scalar.s_mov_b64
    Scalar.s_getreg_b32 Scalar.s_waitcnt Scalar.s_sleep Scalar.s_endpgm Scalar.s_getpc_b64
    Scalar.s_swappc_b64 Scalar.s_jump Scalar.smrd Scalar.s_memtime Scalar.sopc Scalar.s_cmp_lt_i32
    Scalar.s_cmp_gt_i32 Scalar.s_trap Scalar.s_nop Scalar.s_cbranch_scc0 Scalar.s_cbranch_execz
    Scalar.s_branch Scalar.sop2 Scalar.s_add_i32 Scalar.s_and_b32 Scalar.s_and_b64 Scalar.s_rfe_b64
    Vector.v_mov_b32 Vector.v_sin_f32 Vector.v_log_f32 Vector.v_rcp_f32 Vector.v_rcp_f64
    Vector.v_sqrt_f32 Vector.v_sqrt_f64 Vector.v_bfrev_b32 Vector.v_cvt_i32_f32 Vector.v_cvt_f32_i32
    Vector.sop1 Vector.v_mov_imm32 Vector.v_mul_i32_i24 Vector.v_mul_f32 Vector.v_add_f32
    Vector.v_and_b32 Vector.v_sub_f32 Vector.v_add_i32 Vector.v_mul_i32_i24_imm32
    Vector.v_add_i32_imm32 Vector.v_mul_f32_imm32 Vector.v_add_f32_imm32 Vector.vop3a
    Vector.v_fma_f32 Vector.v_mul_lo_i32 Vector.v_mul_hi_i32 Vector.v_cmp_lt_f32
    Vector.v_cmpx_lt_f32 Vector.v_cmp_gt_f32 Vector.v_cmpx_gt_f32 Memory.mtbuf Memory.mubuf
assemble (s_load_dword sbase sdst offset imm) = Scalar.s_load_dword sbase sdst offset imm
assemble (s_mov_imm32 sdst imm) = Scalar.s_mov_imm32 sdst imm
assemble (s_mov_b32 sdst src) = Scalar.s_mov_b32 sdst src
assemble (s_mov_b64 sdst src) = Scalar.s_mov_b64 sdst src
assemble (s_getreg_b32 sdst size offset hwregid) = Scalar.s_getreg_b32 sdst size offset hwregid
assemble s_waitcnt = Scalar.s_waitcnt
assemble (s_sleep imm) = Scalar.s_sleep imm
assemble s_endpgm = Scalar.s_endpgm
assemble (s_getpc_b64 sdst) = Scalar.s_getpc_b64 sdst
assemble (s_swappc_b64 sdst ssrc0) = Scalar.s_swappc_b64 sdst ssrc0
assemble (s_jump rel) = Scalar.s_jump rel
assemble (smrd op sdst sbase imm offset) = Scalar.smrd op sdst sbase imm offset
assemble (s_memtime sdst) = Scalar.s_memtime sdst
assemble (sopc op ssrc1 ssrc0) = Scalar.sopc op ssrc1 ssrc0
assemble (s_cmp_lt_i32 ssrc1 ssrc0) = Scalar.s_cmp_lt_i32 ssrc1 ssrc0
assemble (s_cmp_gt_i32 ssrc1 ssrc0) = Scalar.s_cmp_gt_i32 ssrc1 ssrc0
assemble (s_trap trap_id) = Scalar.s_trap trap_id
assemble s_nop = Scalar.s_nop
assemble (s_cbranch_scc0 imm) = Scalar.s_cbranch_scc0 imm
assemble (s_cbranch_execz imm) = Scalar.s_cbranch_execz imm
assemble (s_branch imm) = Scalar.s_branch imm
assemble (sop2 op sdst ssrc1 ssrc0) = Scalar.sop2 op sdst ssrc1 ssrc0
assemble (s_add_i32 sdst ssrc1 ssrc0) = Scalar.s_add_i32 sdst ssrc1 ssrc0
assemble (s_and_b32 sdst ssrc1 ssrc0) = Scalar.s_and_b32 sdst ssrc1 ssrc0
assemble (s_and_b64 sdst ssrc1 ssrc0) = Scalar.s_and_b64 sdst ssrc1 ssrc0
assemble s_rfe_b64 = Scalar.s_rfe_b64
assemble (v_mov_b32 vdst src0) = Vector.v_mov_b32 vdst src0
assemble (v_sin_f32 vdst src0) = Vector.v_sin_f32 vdst src0
assemble (v_log_f32 vdst src0) = Vector.v_log_f32 vdst src0
assemble (v_rcp_f32 vdst src0) = Vector.v_rcp_f32 vdst src0
assemble (v_rcp_f64 vdst src0) = Vector.v_rcp_f64 vdst src0
assemble (v_sqrt_f32 vdst src0) = Vector.v_sqrt_f32 vdst src0
assemble (v_sqrt_f64 vdst src0) = Vector.v_sqrt_f64 vdst src0
assemble (v_bfrev_b32 vdst src0) = Vector.v_bfrev_b32 vdst src0
assemble (v_cvt_i32_f32 vdst src0) = Vector.v_cvt_i32_f32 vdst src0
assemble (v_cvt_f32_i32 vdst src0) = Vector.v_cvt_f32_i32 vdst src0
assemble (sop1 op vdst src0) = Vector.sop1 op vdst src0
assemble (v_mov_imm32 vdst imm) = Vector.v_mov_imm32 vdst imm
assemble (v_mul_i32_i24 vdst vsrc1 src0) = Vector.v_mul_i32_i24 vdst vsrc1 src0
assemble (v_mul_f32 vdst vsrc1 src0) = Vector.v_mul_f32 vdst vsrc1 src0
assemble (v_add_f32 vdst vsrc1 src0) = Vector.v_add_f32 vdst vsrc1 src0
assemble (v_and_b32 vdst vsrc1 src0) = Vector.v_and_b32 vdst vsrc1 src0
assemble (v_sub_f32 vdst vsrc1 src0) = Vector.v_sub_f32 vdst vsrc1 src0
assemble (v_add_i32 vdst vsrc1 src0) = Vector.v_add_i32 vdst vsrc1 src0
assemble (v_mul_i32_i24_imm32 vdst vsrc1 imm32) = Vector.v_mul_i32_i24_imm32 vdst vsrc1 imm32
assemble (v_add_i32_imm32 vdst vsrc1 imm32) = Vector.v_add_i32_imm32 vdst vsrc1 imm32
assemble (v_mul_f32_imm32 vdst vsrc1 f) = Vector.v_mul_f32_imm32 vdst vsrc1 f
assemble (v_add_f32_imm32 vdst vsrc1 f) = Vector.v_add_f32_imm32 vdst vsrc1 f
assemble (vop3a vdst abs clamp op src0 src1 src2 omod neg) =
    Vector.vop3a vdst abs clamp op src0 src1 src2 omod neg
assemble (v_fma_f32 vdst abs clamp src0 src1 src2 omod neg) =
    Vector.v_fma_f32 vdst abs clamp src0 src1 src2 omod neg
assemble (v_mul_lo_i32 vdst src0 src1) = Vector.v_mul_lo_i32 vdst src0 src1
assemble (v_mul_hi_i32 vdst src0 src1) = Vector.v_mul_hi_i32 vdst src0 src1
assemble (v_cmp_lt_f32 vsrc1 src0) = Vector.v_cmp_lt_f32 vsrc1 src0
assemble (v_cmpx_lt_f32 vsrc1 src0) = Vector.v_cmpx_lt_f32 vsrc1 src0
assemble (v_cmp_gt_f32 vsrc1 src0) = Vector.v_cmp_gt_f32 vsrc1 src0
assemble (v_cmpx_gt_f32 vsrc1 src0) = Vector.v_cmpx_gt_f32 vsrc1 src0
assemble (mtbuf nfmt dfmt op addr64 glc idxen offen offset soffset tfe slc srsrc vdata vaddr) =
    Memory.mtbuf nfmt dfmt op addr64 glc idxen offen offset soffset tfe slc srsrc vdata vaddr
assemble (mubuf soffset tfe slc srsrc vdata vaddr op lds addr64 glc idxen offen offset) =
    Memory.mubuf soffset tfe slc srsrc vdata vaddr op lds addr64 glc idxen offen offset

-- The calls of a program, one after the other.
unfoldable pub assemble_all : List Call → Stream → Stream
assemble_all [] p = p
assemble_all (k ∷ ks) p = assemble_all ks (assemble k p)
