-- ===== src/CodeHelper/Scalar.antt =====
-- code_helper.h: the helpers of the scalar unit.
use radeonsi_compute.Base.{ℕ, ◌+◌, ltb, if◌then◌else◌, bit_and, ◌<<◌, ◌|||◌}
use radeonsi_compute.Base.Stream.{Stream, put}

-- `uint32_t(imm)` of an `int16_t`, whose pattern of 16 bits is given.
unfoldable pub sign_extend16 : ℕ → ℕ
sign_extend16 imm = if ltb imm 0x8000 then imm else imm + 0xffff0000

unfoldable pub s_load_dword : ℕ → ℕ → ℕ → ℕ → Stream → Stream
s_load_dword sbase sdst offset imm =
    put (0xC0000000 ||| offset ||| imm << 8 ||| sbase << 9 ||| sdst << 15 ||| 0 << 22)

unfoldable pub s_mov_imm32 : ℕ → ℕ → Stream → Stream
s_mov_imm32 sdst imm p = put imm (put (0xBE800000 ||| 255 ||| 3 << 8 ||| sdst << 16) p)

unfoldable pub s_mov_b32 : ℕ → ℕ → Stream → Stream
s_mov_b32 sdst src = put (0xBE800000 ||| src ||| 3 << 8 ||| sdst << 16)

unfoldable pub s_mov_b64 : ℕ → ℕ → Stream → Stream
s_mov_b64 sdst src = put (0xBE800000 ||| src ||| 4 << 8 ||| sdst << 16)

unfoldable pub s_getreg_b32 : ℕ → ℕ → ℕ → ℕ → Stream → Stream
s_getreg_b32 sdst size offset hwregid =
    put (0xB0000000 ||| (size << 11 ||| offset << 6 ||| hwregid) ||| 18 << 23 ||| sdst << 16)

unfoldable pub s_waitcnt : Stream → Stream
s_waitcnt = put (0xBF800000 ||| 12 << 16)

unfoldable pub s_sleep : ℕ → Stream → Stream
s_sleep imm = put (0xBF800000 ||| 14 << 16 ||| bit_and imm 0xFFFF)

unfoldable pub s_endpgm : Stream → Stream
s_endpgm = put (0xBF800000 ||| 1 << 16)

unfoldable pub s_getpc_b64 : ℕ → Stream → Stream
s_getpc_b64 sdst = put (0xBE800000 ||| 31 << 8 ||| sdst << 16)

unfoldable pub s_swappc_b64 : ℕ → ℕ → Stream → Stream
s_swappc_b64 sdst ssrc0 = put (0xBE800000 ||| 33 << 8 ||| sdst << 16 ||| ssrc0)

unfoldable pub s_jump : ℕ → Stream → Stream
s_jump rel = put (0xBF800000 ||| 2 << 16 ||| rel)

unfoldable pub smrd : ℕ → ℕ → ℕ → ℕ → ℕ → Stream → Stream
smrd op sdst sbase imm offset =
    put (0xC0000000 ||| op << 22 ||| sdst << 15 ||| sbase << 9 ||| imm << 8 ||| offset << 0)

unfoldable pub s_memtime : ℕ → Stream → Stream
unfolding smrd
s_memtime sdst = smrd 30 sdst 0 0 0

unfoldable pub sopc : ℕ → ℕ → ℕ → Stream → Stream
sopc op ssrc1 ssrc0 = put (0xBF000000 ||| ssrc0 ||| ssrc1 << 8 ||| op << 16)

unfoldable pub s_cmp_lt_i32 : ℕ → ℕ → Stream → Stream
unfolding sopc
s_cmp_lt_i32 ssrc1 ssrc0 = sopc 4 ssrc1 ssrc0

unfoldable pub s_cmp_gt_i32 : ℕ → ℕ → Stream → Stream
unfolding sopc
s_cmp_gt_i32 ssrc1 ssrc0 = sopc 2 ssrc1 ssrc0

-- `trapID` is a `uint8_t`.
unfoldable pub s_trap : ℕ → Stream → Stream
s_trap trap_id = put (0xBF800000 ||| 18 << 16 ||| trap_id)

unfoldable pub s_nop : Stream → Stream
s_nop = put 0xBF800000

unfoldable pub s_cbranch_scc0 : ℕ → Stream → Stream
unfolding sign_extend16
s_cbranch_scc0 imm = put (0xBF800000 ||| 4 << 16 ||| bit_and (sign_extend16 imm) 0xFFFF)

unfoldable pub s_cbranch_execz : ℕ → Stream → Stream
unfolding sign_extend16
s_cbranch_execz imm = put (0xBF800000 ||| 8 << 16 ||| bit_and (sign_extend16 imm) 0xFFFF)

unfoldable pub s_branch : ℕ → Stream → Stream
unfolding sign_extend16
s_branch imm = put (0xBF800000 ||| 2 << 16 ||| bit_and (sign_extend16 imm) 0xFFFF)

unfoldable pub sop2 : ℕ → ℕ → ℕ → ℕ → Stream → Stream
sop2 op sdst ssrc1 ssrc0 =
    put (0x80000000 ||| op << 23 ||| sdst << 16 ||| ssrc1 << 8 ||| ssrc0 << 0)

unfoldable pub s_add_i32 : ℕ → ℕ → ℕ → Stream → Stream
unfolding sop2
s_add_i32 sdst ssrc1 ssrc0 = sop2 2 sdst ssrc1 ssrc0

unfoldable pub s_and_b32 : ℕ → ℕ → ℕ → Stream → Stream
unfolding sop2
s_and_b32 sdst ssrc1 ssrc0 = sop2 14 sdst ssrc1 ssrc0

unfoldable pub s_and_b64 : ℕ → ℕ → ℕ → Stream → Stream
unfolding sop2
s_and_b64 sdst ssrc1 ssrc0 = sop2 15 sdst ssrc1 ssrc0

unfoldable pub s_rfe_b64 : Stream → Stream
s_rfe_b64 = put (0xBE800000 ||| 34 << 8)
