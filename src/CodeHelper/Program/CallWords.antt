-- ===== src/CodeHelper/Program/CallWords.antt =====
-- Every call writes the words of its line.
use radeonsi_compute.Base.{◌≡◌, ℕ, List, refl, arith}
use radeonsi_compute.Base.Stream.{Stream, puts, words}
use radeonsi_compute.CodeHelper.Encodes.{Encodes}
use radeonsi_compute.CodeHelper.Encodes.Scalar.{
  Encodes-sop2, Encodes-sopc, Encodes-sop1, Encodes-sop1_literal, Encodes-sop1_last, Encodes-sopp,
}
use radeonsi_compute.CodeHelper.Encodes.Vector.{
  Encodes-vop1, Encodes-vop1_literal, Encodes-vop2, Encodes-vop2_literal, Encodes-vopc,
  Encodes-vop3,
}
use radeonsi_compute.CodeHelper.Encodes.Memory.{
  Encodes-smrd, Encodes-smrd_last, Encodes-mubuf, Encodes-mtbuf,
}
use radeonsi_compute.CodeHelper.Encodes.Special.{
  Encodes-getreg, Encodes-sleep, Encodes-getpc, Encodes-branch, Encodes-vopc_low,
}
use radeonsi_compute.CodeHelper.Program.{
  Call, assemble, s_load_dword, s_mov_imm32, s_mov_b32, s_mov_b64, s_getreg_b32, s_waitcnt, s_sleep,
  s_endpgm, s_getpc_b64, s_swappc_b64, s_jump, smrd, s_memtime, sopc, s_cmp_lt_i32, s_cmp_gt_i32,
  s_trap, s_nop, s_cbranch_scc0, s_cbranch_execz, s_branch, sop2, s_add_i32, s_and_b32, s_and_b64,
  s_rfe_b64, v_mov_b32, v_sin_f32, v_log_f32, v_rcp_f32, v_rcp_f64, v_sqrt_f32, v_sqrt_f64,
  v_bfrev_b32, v_cvt_i32_f32, v_cvt_f32_i32, sop1, v_mov_imm32, v_mul_i32_i24, v_mul_f32, v_add_f32,
  v_and_b32, v_sub_f32, v_add_i32, v_mul_i32_i24_imm32, v_add_i32_imm32, v_mul_f32_imm32,
  v_add_f32_imm32, vop3a, v_fma_f32, v_mul_lo_i32, v_mul_hi_i32, v_cmp_lt_f32, v_cmpx_lt_f32,
  v_cmp_gt_f32, v_cmpx_gt_f32, mtbuf, mubuf,
}
use radeonsi_compute.CodeHelper.Program.Lines.{line, InRange}

abbrev blank : Stream
blank = record { cell = λ _. 0; pos = 0 }

-- The words that a call writes: what it leaves in an empty buffer.
unfoldable pub call_words : Call → List ℕ
unfolding assemble
call_words k = words (assemble k blank).cell 0 (assemble k blank).pos

-- A call does nothing but to write its words at the cursor.
pub assemble-puts : (k : Call) (p : Stream) → assemble k p ≡ puts (call_words k) p
unfolding call_words
assemble-puts s_nop p = refl
assemble-puts k p = refl

pub Encodes-call : (k : Call) → InRange k → Encodes (line k) (call_words k)
unfolding call_words line
Encodes-call (s_load_dword sbase sdst offset imm) h =
    Encodes-smrd_last 0 sdst sbase imm offset (omega arith) h.1 h.0 h.3 h.2
Encodes-call (s_mov_imm32 sdst imm) h = Encodes-sop1_literal 3 sdst imm (omega arith) h
Encodes-call (s_mov_b32 sdst src) h = Encodes-sop1 3 sdst src (omega arith) h.0 h.1 h.2
Encodes-call (s_mov_b64 sdst src) h = Encodes-sop1 4 sdst src (omega arith) h.0 h.1 h.2
Encodes-call (s_getreg_b32 sdst size offset hwregid) h =
    Encodes-getreg sdst size offset hwregid h.0 h.1 h.2 h.3
Encodes-call s_waitcnt h = Encodes-sopp 12 0 (omega arith) (omega arith)
Encodes-call (s_sleep imm) h = Encodes-sleep imm h
Encodes-call s_endpgm h = Encodes-sopp 1 0 (omega arith) (omega arith)
Encodes-call (s_getpc_b64 sdst) h = Encodes-getpc sdst h
Encodes-call (s_swappc_b64 sdst ssrc0) h = Encodes-sop1_last 33 sdst ssrc0 (omega arith) h.0 h.1 h.2
Encodes-call (s_jump rel) h = Encodes-sopp 2 rel (omega arith) h
Encodes-call (smrd op sdst sbase imm offset) h =
    Encodes-smrd op sdst sbase imm offset h.0 h.1 h.2 h.3 h.4
Encodes-call (s_memtime sdst) h =
    Encodes-smrd 30 sdst 0 0 0 (omega arith) h (omega arith) (omega arith) (omega arith)
Encodes-call (sopc op ssrc1 ssrc0) h = Encodes-sopc op ssrc1 ssrc0 h.0 h.1 h.2 h.3 h.4
Encodes-call (s_cmp_lt_i32 ssrc1 ssrc0) h = Encodes-sopc 4 ssrc1 ssrc0 (omega arith) h.0 h.1 h.2 h.3
Encodes-call (s_cmp_gt_i32 ssrc1 ssrc0) h = Encodes-sopc 2 ssrc1 ssrc0 (omega arith) h.0 h.1 h.2 h.3
Encodes-call (s_trap trap_id) h = Encodes-sopp 18 trap_id (omega arith) (omega arith)
Encodes-call s_nop h = Encodes-sopp 0 0 (omega arith) (omega arith)
Encodes-call (s_cbranch_scc0 imm) h = Encodes-branch 4 imm (omega arith) h
Encodes-call (s_cbranch_execz imm) h = Encodes-branch 8 imm (omega arith) h
Encodes-call (s_branch imm) h = Encodes-branch 2 imm (omega arith) h
Encodes-call (sop2 op sdst ssrc1 ssrc0) h = Encodes-sop2 op sdst ssrc1 ssrc0 h.0 h.1 h.2 h.3 h.4 h.5
Encodes-call (s_add_i32 sdst ssrc1 ssrc0) h =
    Encodes-sop2 2 sdst ssrc1 ssrc0 (omega arith) h.0 h.1 h.2 h.3 h.4
Encodes-call (s_and_b32 sdst ssrc1 ssrc0) h =
    Encodes-sop2 14 sdst ssrc1 ssrc0 (omega arith) h.0 h.1 h.2 h.3 h.4
Encodes-call (s_and_b64 sdst ssrc1 ssrc0) h =
    Encodes-sop2 15 sdst ssrc1 ssrc0 (omega arith) h.0 h.1 h.2 h.3 h.4
Encodes-call s_rfe_b64 h =
    Encodes-sop1 34 0 0 (omega arith) (omega arith) (omega arith) (omega arith)
Encodes-call (v_mov_b32 vdst src0) h = Encodes-vop1 1 vdst src0 (omega arith) h.0 h.1 h.2
Encodes-call (v_sin_f32 vdst src0) h = Encodes-vop1 53 vdst src0 (omega arith) h.0 h.1 h.2
Encodes-call (v_log_f32 vdst src0) h = Encodes-vop1 39 vdst src0 (omega arith) h.0 h.1 h.2
Encodes-call (v_rcp_f32 vdst src0) h = Encodes-vop1 42 vdst src0 (omega arith) h.0 h.1 h.2
Encodes-call (v_rcp_f64 vdst src0) h = Encodes-vop1 47 vdst src0 (omega arith) h.0 h.1 h.2
Encodes-call (v_sqrt_f32 vdst src0) h = Encodes-vop1 51 vdst src0 (omega arith) h.0 h.1 h.2
Encodes-call (v_sqrt_f64 vdst src0) h = Encodes-vop1 52 vdst src0 (omega arith) h.0 h.1 h.2
Encodes-call (v_bfrev_b32 vdst src0) h = Encodes-vop1 56 vdst src0 (omega arith) h.0 h.1 h.2
Encodes-call (v_cvt_i32_f32 vdst src0) h = Encodes-vop1 8 vdst src0 (omega arith) h.0 h.1 h.2
Encodes-call (v_cvt_f32_i32 vdst src0) h = Encodes-vop1 5 vdst src0 (omega arith) h.0 h.1 h.2
Encodes-call (sop1 op vdst src0) h = Encodes-vop1 op vdst src0 h.0 h.1 h.2 h.3
Encodes-call (v_mov_imm32 vdst imm) h = Encodes-vop1_literal 1 vdst imm (omega arith) h
Encodes-call (v_mul_i32_i24 vdst vsrc1 src0) h =
    Encodes-vop2 9 vdst vsrc1 src0 (omega arith) h.0 h.1 h.2 h.3
Encodes-call (v_mul_f32 vdst vsrc1 src0) h =
    Encodes-vop2 8 vdst vsrc1 src0 (omega arith) h.0 h.1 h.2 h.3
Encodes-call (v_add_f32 vdst vsrc1 src0) h =
    Encodes-vop2 3 vdst vsrc1 src0 (omega arith) h.0 h.1 h.2 h.3
Encodes-call (v_and_b32 vdst vsrc1 src0) h =
    Encodes-vop2 27 vdst vsrc1 src0 (omega arith) h.0 h.1 h.2 h.3
Encodes-call (v_sub_f32 vdst vsrc1 src0) h =
    Encodes-vop2 4 vdst vsrc1 src0 (omega arith) h.0 h.1 h.2 h.3
Encodes-call (v_add_i32 vdst vsrc1 src0) h =
    Encodes-vop2 37 vdst vsrc1 src0 (omega arith) h.0 h.1 h.2 h.3
Encodes-call (v_mul_i32_i24_imm32 vdst vsrc1 imm32) h =
    Encodes-vop2_literal 9 vdst vsrc1 imm32 (omega arith) h.0 h.1
Encodes-call (v_add_i32_imm32 vdst vsrc1 imm32) h =
    Encodes-vop2_literal 37 vdst vsrc1 imm32 (omega arith) h.0 h.1
Encodes-call (v_mul_f32_imm32 vdst vsrc1 f) h =
    Encodes-vop2_literal 8 vdst vsrc1 f.bits (omega arith) h.0 h.1
Encodes-call (v_add_f32_imm32 vdst vsrc1 f) h =
    Encodes-vop2_literal 3 vdst vsrc1 f.bits (omega arith) h.0 h.1
Encodes-call (vop3a vdst abs clamp op src0 src1 src2 omod neg) h =
    Encodes-vop3 op vdst abs clamp src0 src1 src2 omod neg h.0 h.1 h.2 h.3 h.4 h.5 h.6 h.7 h.8
Encodes-call (v_fma_f32 vdst abs clamp src0 src1 src2 omod neg) h =
    Encodes-vop3 331 vdst abs clamp src0 src1 src2 omod neg (omega arith) h.0 h.1 h.2 h.3 h.4 h.5
      h.6 h.7
Encodes-call (v_mul_lo_i32 vdst src0 src1) h =
    Encodes-vop3 363 vdst 0 0 src0 src1 0 0 0 (omega arith) h.0 (omega arith) (omega arith) h.1 h.2
      (omega arith) (omega arith) (omega arith)
Encodes-call (v_mul_hi_i32 vdst src0 src1) h =
    Encodes-vop3 364 vdst 0 0 src0 src1 0 0 0 (omega arith) h.0 (omega arith) (omega arith) h.1 h.2
      (omega arith) (omega arith) (omega arith)
Encodes-call (v_cmp_lt_f32 vsrc1 src0) h = Encodes-vopc_low 1 vsrc1 src0 (omega arith) h.0 h.1 h.2
Encodes-call (v_cmpx_lt_f32 vsrc1 src0) h = Encodes-vopc_low 17 vsrc1 src0 (omega arith) h.0 h.1 h.2
Encodes-call (v_cmp_gt_f32 vsrc1 src0) h = Encodes-vopc_low 4 vsrc1 src0 (omega arith) h.0 h.1 h.2
Encodes-call (v_cmpx_gt_f32 vsrc1 src0) h = Encodes-vopc 20 vsrc1 src0 (omega arith) h.0 h.1 h.2
Encodes-call (mtbuf nfmt dfmt op addr64 glc idxen offen offset soffset tfe slc srsrc vdata vaddr)
      h =
    Encodes-mtbuf op dfmt nfmt offset offen idxen glc addr64 vaddr vdata srsrc slc tfe soffset h.0
      h.1 h.2 h.3 h.4 h.5 h.6 h.7 h.8 h.9 h.10 h.11 h.12 h.13
Encodes-call (mubuf soffset tfe slc srsrc vdata vaddr op lds addr64 glc idxen offen offset) h =
    Encodes-mubuf op offset offen idxen glc addr64 lds vaddr vdata srsrc slc tfe soffset h.0 h.1 h.2
      h.3 h.4 h.5 h.6 h.7 h.8 h.9 h.10 h.11 h.12
