-- ===== src/CodeHelper/Program/Lines.antt =====
-- What each call of a helper stands for in the instruction set, and which operands fit its
-- fields. A source of code 255 is left to the helpers with a literal.
use radeonsi_compute.Base.{◌≡◌, ◌≢◌, ◌<◌, ◌+◌, ◌*◌}
use radeonsi_compute.CodeHelper.Program.{
  Call, s_load_dword, s_mov_imm32, s_mov_b32, s_mov_b64, s_getreg_b32, s_waitcnt, s_sleep, s_endpgm,
  s_getpc_b64, s_swappc_b64, s_jump, smrd, s_memtime, sopc, s_cmp_lt_i32, s_cmp_gt_i32, s_trap,
  s_nop, s_cbranch_scc0, s_cbranch_execz, s_branch, sop2, s_add_i32, s_and_b32, s_and_b64,
  s_rfe_b64, v_mov_b32, v_sin_f32, v_log_f32, v_rcp_f32, v_rcp_f64, v_sqrt_f32, v_sqrt_f64,
  v_bfrev_b32, v_cvt_i32_f32, v_cvt_f32_i32, sop1, v_mov_imm32, v_mul_i32_i24, v_mul_f32, v_add_f32,
  v_and_b32, v_sub_f32, v_add_i32, v_mul_i32_i24_imm32, v_add_i32_imm32, v_mul_f32_imm32,
  v_add_f32_imm32, vop3a, v_fma_f32, v_mul_lo_i32, v_mul_hi_i32, v_cmp_lt_f32, v_cmpx_lt_f32,
  v_cmp_gt_f32, v_cmpx_gt_f32, mtbuf, mubuf,
}
use radeonsi_compute.CodeHelper.Isa.{Inst, Line, plain, with_literal}

-- The line that a call means.
unfoldable pub line : Call → Line
line (s_load_dword sbase sdst offset imm) = plain (Inst.smrd 0 sdst sbase imm offset)
line (s_mov_imm32 sdst imm) = with_literal (Inst.sop1 3 sdst 255) imm
line (s_mov_b32 sdst src) = plain (Inst.sop1 3 sdst src)
line (s_mov_b64 sdst src) = plain (Inst.sop1 4 sdst src)
line (s_getreg_b32 sdst size offset hwregid) =
    plain (Inst.sopk 18 sdst (size * 2048 + offset * 64 + hwregid))
line s_waitcnt = plain (Inst.sopp 12 0)
line (s_sleep imm) = plain (Inst.sopp 14 imm)
line s_endpgm = plain (Inst.sopp 1 0)
line (s_getpc_b64 sdst) = plain (Inst.sop1 31 sdst 0)
line (s_swappc_b64 sdst ssrc0) = plain (Inst.sop1 33 sdst ssrc0)
line (s_jump rel) = plain (Inst.sopp 2 rel)
line (smrd op sdst sbase imm offset) = plain (Inst.smrd op sdst sbase imm offset)
line (s_memtime sdst) = plain (Inst.smrd 30 sdst 0 0 0)
line (sopc op ssrc1 ssrc0) = plain (Inst.sopc op ssrc1 ssrc0)
line (s_cmp_lt_i32 ssrc1 ssrc0) = plain (Inst.sopc 4 ssrc1 ssrc0)
line (s_cmp_gt_i32 ssrc1 ssrc0) = plain (Inst.sopc 2 ssrc1 ssrc0)
line (s_trap trap_id) = plain (Inst.sopp 18 trap_id)
line s_nop = plain (Inst.sopp 0 0)
line (s_cbranch_scc0 imm) = plain (Inst.sopp 4 imm)
line (s_cbranch_execz imm) = plain (Inst.sopp 8 imm)
line (s_branch imm) = plain (Inst.sopp 2 imm)
line (sop2 op sdst ssrc1 ssrc0) = plain (Inst.sop2 op sdst ssrc1 ssrc0)
line (s_add_i32 sdst ssrc1 ssrc0) = plain (Inst.sop2 2 sdst ssrc1 ssrc0)
line (s_and_b32 sdst ssrc1 ssrc0) = plain (Inst.sop2 14 sdst ssrc1 ssrc0)
line (s_and_b64 sdst ssrc1 ssrc0) = plain (Inst.sop2 15 sdst ssrc1 ssrc0)
line s_rfe_b64 = plain (Inst.sop1 34 0 0)
line (v_mov_b32 vdst src0) = plain (Inst.vop1 1 vdst src0)
line (v_sin_f32 vdst src0) = plain (Inst.vop1 53 vdst src0)
line (v_log_f32 vdst src0) = plain (Inst.vop1 39 vdst src0)
line (v_rcp_f32 vdst src0) = plain (Inst.vop1 42 vdst src0)
line (v_rcp_f64 vdst src0) = plain (Inst.vop1 47 vdst src0)
line (v_sqrt_f32 vdst src0) = plain (Inst.vop1 51 vdst src0)
line (v_sqrt_f64 vdst src0) = plain (Inst.vop1 52 vdst src0)
line (v_bfrev_b32 vdst src0) = plain (Inst.vop1 56 vdst src0)
line (v_cvt_i32_f32 vdst src0) = plain (Inst.vop1 8 vdst src0)
line (v_cvt_f32_i32 vdst src0) = plain (Inst.vop1 5 vdst src0)
line (sop1 op vdst src0) = plain (Inst.vop1 op vdst src0)
line (v_mov_imm32 vdst imm) = with_literal (Inst.vop1 1 vdst 255) imm
line (v_mul_i32_i24 vdst vsrc1 src0) = plain (Inst.vop2 9 vdst vsrc1 src0)
line (v_mul_f32 vdst vsrc1 src0) = plain (Inst.vop2 8 vdst vsrc1 src0)
line (v_add_f32 vdst vsrc1 src0) = plain (Inst.vop2 3 vdst vsrc1 src0)
line (v_and_b32 vdst vsrc1 src0) = plain (Inst.vop2 27 vdst vsrc1 src0)
line (v_sub_f32 vdst vsrc1 src0) = plain (Inst.vop2 4 vdst vsrc1 src0)
line (v_add_i32 vdst vsrc1 src0) = plain (Inst.vop2 37 vdst vsrc1 src0)
line (v_mul_i32_i24_imm32 vdst vsrc1 imm32) = with_literal (Inst.vop2 9 vdst vsrc1 255) imm32
line (v_add_i32_imm32 vdst vsrc1 imm32) = with_literal (Inst.vop2 37 vdst vsrc1 255) imm32
line (v_mul_f32_imm32 vdst vsrc1 f) = with_literal (Inst.vop2 8 vdst vsrc1 255) f.bits
line (v_add_f32_imm32 vdst vsrc1 f) = with_literal (Inst.vop2 3 vdst vsrc1 255) f.bits
line (vop3a vdst abs clamp op src0 src1 src2 omod neg) =
    plain (Inst.vop3 op vdst abs clamp src0 src1 src2 omod neg)
line (v_fma_f32 vdst abs clamp src0 src1 src2 omod neg) =
    plain (Inst.vop3 331 vdst abs clamp src0 src1 src2 omod neg)
line (v_mul_lo_i32 vdst src0 src1) = plain (Inst.vop3 363 vdst 0 0 src0 src1 0 0 0)
line (v_mul_hi_i32 vdst src0 src1) = plain (Inst.vop3 364 vdst 0 0 src0 src1 0 0 0)
line (v_cmp_lt_f32 vsrc1 src0) = plain (Inst.vopc 1 vsrc1 src0)
line (v_cmpx_lt_f32 vsrc1 src0) = plain (Inst.vopc 17 vsrc1 src0)
line (v_cmp_gt_f32 vsrc1 src0) = plain (Inst.vopc 4 vsrc1 src0)
line (v_cmpx_gt_f32 vsrc1 src0) = plain (Inst.vopc 20 vsrc1 src0)
line (mtbuf nfmt dfmt op addr64 glc idxen offen offset soffset tfe slc srsrc vdata vaddr) =
    plain (Inst.mtbuf op dfmt nfmt offset offen idxen glc addr64 vaddr vdata srsrc slc tfe soffset)
line (mubuf soffset tfe slc srsrc vdata vaddr op lds addr64 glc idxen offen offset) =
    plain (Inst.mubuf op offset offen idxen glc addr64 lds vaddr vdata srsrc slc tfe soffset)

-- The operands fit their fields. Three of the comparisons put the second source one bit too
-- low, so that it must be 0.
abbrev pub InRange : Call → Type 0
InRange (s_load_dword sbase sdst offset imm) =
    (sbase < 64) × (sdst < 128) × (offset < 256) × (imm < 2)
InRange (s_mov_imm32 sdst imm) = sdst < 128
InRange (s_mov_b32 sdst src) = (sdst < 128) × (src < 256) × (src ≢ 255)
InRange (s_mov_b64 sdst src) = (sdst < 128) × (src < 256) × (src ≢ 255)
InRange (s_getreg_b32 sdst size offset hwregid) =
    (sdst < 128) × (size < 32) × (offset < 32) × (hwregid < 64)
InRange s_waitcnt = Unit
InRange (s_sleep imm) = imm < 65536
InRange s_endpgm = Unit
InRange (s_getpc_b64 sdst) = sdst < 128
InRange (s_swappc_b64 sdst ssrc0) = (sdst < 128) × (ssrc0 < 256) × (ssrc0 ≢ 255)
InRange (s_jump rel) = rel < 65536
InRange (smrd op sdst sbase imm offset) =
    (op < 32) × (sdst < 128) × (sbase < 64) × (imm < 2) × (offset < 256)
InRange (s_memtime sdst) = sdst < 128
InRange (sopc op ssrc1 ssrc0) =
    (op < 128) × (ssrc1 < 256) × (ssrc1 ≢ 255) × (ssrc0 < 256) × (ssrc0 ≢ 255)
InRange (s_cmp_lt_i32 ssrc1 ssrc0) = (ssrc1 < 256) × (ssrc1 ≢ 255) × (ssrc0 < 256) × (ssrc0 ≢ 255)
InRange (s_cmp_gt_i32 ssrc1 ssrc0) = (ssrc1 < 256) × (ssrc1 ≢ 255) × (ssrc0 < 256) × (ssrc0 ≢ 255)
InRange (s_trap trap_id) = trap_id < 256
InRange s_nop = Unit
InRange (s_cbranch_scc0 imm) = imm < 65536
InRange (s_cbranch_execz imm) = imm < 65536
InRange (s_branch imm) = imm < 65536
InRange (sop2 op sdst ssrc1 ssrc0) =
    (op < 96) × (sdst < 128) × (ssrc1 < 256) × (ssrc1 ≢ 255) × (ssrc0 < 256) × (ssrc0 ≢ 255)
InRange (s_add_i32 sdst ssrc1 ssrc0) =
    (sdst < 128) × (ssrc1 < 256) × (ssrc1 ≢ 255) × (ssrc0 < 256) × (ssrc0 ≢ 255)
InRange (s_and_b32 sdst ssrc1 ssrc0) =
    (sdst < 128) × (ssrc1 < 256) × (ssrc1 ≢ 255) × (ssrc0 < 256) × (ssrc0 ≢ 255)
InRange (s_and_b64 sdst ssrc1 ssrc0) =
    (sdst < 128) × (ssrc1 < 256) × (ssrc1 ≢ 255) × (ssrc0 < 256) × (ssrc0 ≢ 255)
InRange s_rfe_b64 = Unit
InRange (v_mov_b32 vdst src0) = (vdst < 256) × (src0 < 512) × (src0 ≢ 255)
InRange (v_sin_f32 vdst src0) = (vdst < 256) × (src0 < 512) × (src0 ≢ 255)
InRange (v_log_f32 vdst src0) = (vdst < 256) × (src0 < 512) × (src0 ≢ 255)
InRange (v_rcp_f32 vdst src0) = (vdst < 256) × (src0 < 512) × (src0 ≢ 255)
InRange (v_rcp_f64 vdst src0) = (vdst < 256) × (src0 < 512) × (src0 ≢ 255)
InRange (v_sqrt_f32 vdst src0) = (vdst < 256) × (src0 < 512) × (src0 ≢ 255)
InRange (v_sqrt_f64 vdst src0) = (vdst < 256) × (src0 < 512) × (src0 ≢ 255)
InRange (v_bfrev_b32 vdst src0) = (vdst < 256) × (src0 < 512) × (src0 ≢ 255)
InRange (v_cvt_i32_f32 vdst src0) = (vdst < 256) × (src0 < 512) × (src0 ≢ 255)
InRange (v_cvt_f32_i32 vdst src0) = (vdst < 256) × (src0 < 512) × (src0 ≢ 255)
InRange (sop1 op vdst src0) = (op < 256) × (vdst < 256) × (src0 < 512) × (src0 ≢ 255)
InRange (v_mov_imm32 vdst imm) = vdst < 256
InRange (v_mul_i32_i24 vdst vsrc1 src0) = (vdst < 256) × (vsrc1 < 256) × (src0 < 512) × (src0 ≢ 255)
InRange (v_mul_f32 vdst vsrc1 src0) = (vdst < 256) × (vsrc1 < 256) × (src0 < 512) × (src0 ≢ 255)
InRange (v_add_f32 vdst vsrc1 src0) = (vdst < 256) × (vsrc1 < 256) × (src0 < 512) × (src0 ≢ 255)
InRange (v_and_b32 vdst vsrc1 src0) = (vdst < 256) × (vsrc1 < 256) × (src0 < 512) × (src0 ≢ 255)
InRange (v_sub_f32 vdst vsrc1 src0) = (vdst < 256) × (vsrc1 < 256) × (src0 < 512) × (src0 ≢ 255)
InRange (v_add_i32 vdst vsrc1 src0) = (vdst < 256) × (vsrc1 < 256) × (src0 < 512) × (src0 ≢ 255)
InRange (v_mul_i32_i24_imm32 vdst vsrc1 imm32) = (vdst < 256) × (vsrc1 < 256)
InRange (v_add_i32_imm32 vdst vsrc1 imm32) = (vdst < 256) × (vsrc1 < 256)
InRange (v_mul_f32_imm32 vdst vsrc1 f) = (vdst < 256) × (vsrc1 < 256)
InRange (v_add_f32_imm32 vdst vsrc1 f) = (vdst < 256) × (vsrc1 < 256)
InRange (vop3a vdst abs clamp op src0 src1 src2 omod neg) =
    (op < 512)
    × (vdst < 256)
    × (abs < 8)
    × (clamp < 2)
    × (src0 < 512)
    × (src1 < 512)
    × (src2 < 512)
    × (omod < 4)
    × (neg < 8)
InRange (v_fma_f32 vdst abs clamp src0 src1 src2 omod neg) =
    (vdst < 256)
    × (abs < 8)
    × (clamp < 2)
    × (src0 < 512)
    × (src1 < 512)
    × (src2 < 512)
    × (omod < 4)
    × (neg < 8)
InRange (v_mul_lo_i32 vdst src0 src1) = (vdst < 256) × (src0 < 512) × (src1 < 512)
InRange (v_mul_hi_i32 vdst src0 src1) = (vdst < 256) × (src0 < 512) × (src1 < 512)
InRange (v_cmp_lt_f32 vsrc1 src0) = (vsrc1 ≡ 0) × (src0 < 512) × (src0 ≢ 255)
InRange (v_cmpx_lt_f32 vsrc1 src0) = (vsrc1 ≡ 0) × (src0 < 512) × (src0 ≢ 255)
InRange (v_cmp_gt_f32 vsrc1 src0) = (vsrc1 ≡ 0) × (src0 < 512) × (src0 ≢ 255)
InRange (v_cmpx_gt_f32 vsrc1 src0) = (vsrc1 < 256) × (src0 < 512) × (src0 ≢ 255)
InRange (mtbuf nfmt dfmt op addr64 glc idxen offen offset soffset tfe slc srsrc vdata vaddr) =
    (op < 8)
    × (dfmt < 16)
    × (nfmt < 8)
    × (offset < 4096)
    × (offen < 2)
    × (idxen < 2)
    × (glc < 2)
    × (addr64 < 2)
    × (vaddr < 256)
    × (vdata < 256)
    × (srsrc < 32)
    × (slc < 2)
    × (tfe < 2)
    × (soffset < 256)
InRange (mubuf soffset tfe slc srsrc vdata vaddr op lds addr64 glc idxen offen offset) =
    (op < 128)
    × (offset < 4096)
    × (offen < 2)
    × (idxen < 2)
    × (glc < 2)
    × (addr64 < 2)
    × (lds < 2)
    × (vaddr < 256)
    × (vdata < 256)
    × (srsrc < 32)
    × (slc < 2)
    × (tfe < 2)
    × (soffset < 256)
