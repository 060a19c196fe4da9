-- ===== src/CodeHelper/Program/Tests.antt =====
-- Tests of the helpers, and the theorems on programs at a small kernel.
use radeonsi_compute.Base.{◌≡◌, refl, some, List, [], ◌∷◌, map, All, arith}
use radeonsi_compute.Base.Stream.{Stream, words}
use radeonsi_compute.CodeHelper.Isa.{Inst, decode, disassemble}
use radeonsi_compute.CodeHelper.Program.{Call, assemble, assemble_all}
use radeonsi_compute.CodeHelper.Program.Lines.{line, InRange}
use radeonsi_compute.CodeHelper.Program.RoundTrip.{disassemble-assemble_all}
use radeonsi_compute.CodeHelper.Program.Comparisons.{comparisons_read_half}

abbrev code : Stream
code = record { cell = λ _. 0; pos = 5 }

abbrev kernel : List Call
kernel =
    Call.v_mov_imm32 1 0x3f800000
    ∷ Call.v_mul_f32 2 1 258
    ∷ Call.mubuf 128 0 0 2 2 1 28 0 0 0 1 0 0
    ∷ Call.s_waitcnt
    ∷ Call.s_branch 0xfffb
    ∷ Call.s_endpgm
    ∷ []

kernel-words :
    words (assemble_all kernel code).cell 5 8
    ≡ 0x7e0202ff ∷ 0x3f800000 ∷ 0x10040302 ∷ 0xe0702000 ∷ 0x80020201 ∷ 0xbf8c0000 ∷ 0xbf82fffb
      ∷ 0xbf810000 ∷ []
unfolding assemble_all assemble
kernel-words = refl

kernel-InRange : All InRange kernel
kernel-InRange = omega arith

disassemble-assemble_all_example :
    disassemble 6 (assemble_all kernel code).cell 5 ≡ some (map line kernel)
disassemble-assemble_all_example = disassemble-assemble_all kernel code kernel-InRange

comparisons_read_half_example :
    (decode ((assemble (Call.v_cmp_lt_f32 3 2) code).cell 5) 0 ≡ some (Inst.vopc 1 1 258))
    × (decode ((assemble (Call.v_cmpx_lt_f32 3 2) code).cell 5) 0 ≡ some (Inst.vopc 17 1 258))
    × (decode ((assemble (Call.v_cmp_gt_f32 3 2) code).cell 5) 0 ≡ some (Inst.vopc 4 1 258))
comparisons_read_half_example = comparisons_read_half 3 2 0 code (omega arith) (omega arith)
