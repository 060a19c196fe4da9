-- ===== src/Command.antt =====
-- computesi.c: the command buffers that are sent to the rings. `buf` and `cdw` are the stream.
pub mod Packets
pub mod Gpu
pub mod Build
pub mod Settings
pub mod Configured
pub mod Launch
pub mod Running
pub mod Tests
use radeonsi_compute.Base.{
  ℕ, zero, suc, ◌+◌, ◌-◌, ◌*◌, ◌/◌, ◌%◌, ◌^◌, bit_and, ltb, leb, ◌==◌, if◌then◌else◌, ◌&&◌, Option,
  none, some, List, [], ◌∷◌, get_elem?, ◌<<◌, ◌|||◌,
}
use radeonsi_compute.Base.Bits.{u32}
use radeonsi_compute.Base.Stream.{Stream, put}
use radeonsi_compute.Device.{ComputeState, GpuBuffer, Dim3}
use radeonsi_compute.Sid.{
  pkt3_surface_sync, pkt3_set_sh_reg, pkt3_cp_dma, pkt3, pkt3_cp_dma_cp_sync, pkt3_cp_dma_engine,
  pkt3_cp_dma_cmd_raw_wait,
}
use radeonsi_compute.Sid.Registers

-- A step of filling the buffer; `none` is an assertion that fails or a read out of bounds.
abbrev pub Fill : Type 0
Fill = Stream → Option Stream

infixl 5 ◌>>◌
abbrev pub ◌>>◌ : Fill → Fill → Fill
◌>>◌ f g p = elim (f p) [ none ↦ none | some q ↦ g q ]

-- `buf[cdw++] = w`, where `w` is converted to `unsigned`.
abbrev pub word : ℕ → Fill
word w p = some (put w p)

unfoldable pub pkt3c : ℕ → ℕ → ℕ → ℕ
unfolding pkt3
pkt3c a b c = pkt3 a b c ||| 1 << 1

unfoldable pub set_compute_reg : ℕ → ℕ → Fill
unfolding pkt3c
set_compute_reg reg val =
    let fill =
      word (pkt3c pkt3_set_sh_reg 1 0)
      >> word ((reg - Registers.si_sh_reg_offset) / 2 ^ 2)
      >> word val in
    if leb Registers.si_sh_reg_offset reg && leb reg Registers.si_sh_reg_end then fill else λ p.
    none

-- The cache flush, in `compute_flush_caches` and before a launch.
unfoldable pub surface_sync : Fill
unfolding pkt3c Registers.s_0085f0_tcl1_action_ena Registers.s_0085f0_sh_icache_action_ena
    Registers.s_0085f0_sh_kcache_action_ena Registers.s_0085f0_tc_action_ena
surface_sync =
    word (pkt3c pkt3_surface_sync 3 0)
    >> word (
        Registers.s_0085f0_tcl1_action_ena 1
        ||| Registers.s_0085f0_sh_icache_action_ena 1
        ||| Registers.s_0085f0_sh_kcache_action_ena 1
        ||| Registers.s_0085f0_tc_action_ena 1)
    >> word 0xffffffff
    >> word 0
    >> word 0xA

-- `S_00B84C_TRAP_EN`, which computesi.c defines itself.
unfoldable pub s_00b84c_trap_en : ℕ → ℕ
s_00b84c_trap_en x = bit_and x 0x1 << 6

unfoldable pub g_00b84c_trap_en : ℕ → ℕ
g_00b84c_trap_en x = bit_and (x / 2 ^ 6) 0x1

unfoldable pub pgm_rsrc1 : ComputeState → ℕ
unfolding Registers.s_00b848_vgprs Registers.s_00b848_sgprs Registers.s_00b848_priority
    Registers.s_00b848_float_mode Registers.s_00b848_priv Registers.s_00b848_dx10_clamp
    Registers.s_00b848_debug_mode Registers.s_00b848_ieee_mode
pgm_rsrc1 s =
    Registers.s_00b848_vgprs s.vgpr_num
    ||| Registers.s_00b848_sgprs s.sgpr_num
    ||| Registers.s_00b848_priority s.priority
    ||| Registers.s_00b848_float_mode 0
    ||| Registers.s_00b848_priv s.priv_mode
    ||| Registers.s_00b848_dx10_clamp 0
    ||| Registers.s_00b848_debug_mode s.debug_mode
    ||| Registers.s_00b848_ieee_mode s.ieee_mode

unfoldable pub pgm_rsrc2 : ComputeState → ℕ
unfolding Registers.s_00b84c_scratch_en Registers.s_00b84c_user_sgpr s_00b84c_trap_en
    Registers.s_00b84c_tgid_x_en Registers.s_00b84c_tgid_y_en Registers.s_00b84c_tgid_z_en
    Registers.s_00b84c_tg_size_en Registers.s_00b84c_tidig_comp_cnt Registers.s_00b84c_lds_size
    Registers.s_00b84c_excp_en
pgm_rsrc2 s =
    Registers.s_00b84c_scratch_en s.scratch_en
    ||| Registers.s_00b84c_user_sgpr s.user_data_length
    ||| s_00b84c_trap_en s.trap_en
    ||| Registers.s_00b84c_tgid_x_en 1
    ||| Registers.s_00b84c_tgid_y_en 1
    ||| Registers.s_00b84c_tgid_z_en 1
    ||| Registers.s_00b84c_tg_size_en 1
    ||| Registers.s_00b84c_tidig_comp_cnt 0
    ||| Registers.s_00b84c_lds_size s.lds_size
    ||| Registers.s_00b84c_excp_en s.excp_en

unfoldable pub resource_limits : ComputeState → ℕ
unfolding Registers.s_00b854_waves_per_sh Registers.s_00b854_tg_per_cu
    Registers.s_00b854_lock_threshold Registers.s_00b854_simd_dest_cntl
resource_limits s =
    Registers.s_00b854_waves_per_sh s.waves_per_sh
    ||| Registers.s_00b854_tg_per_cu s.thread_groups_per_cu
    ||| Registers.s_00b854_lock_threshold s.lock_threshold
    ||| Registers.s_00b854_simd_dest_cntl s.simd_dest_cntl

unfoldable pub thread_mgmt_se0 : ComputeState → ℕ
unfolding Registers.s_00b858_sh0_cu_en Registers.s_00b858_sh1_cu_en
thread_mgmt_se0 s =
    Registers.s_00b858_sh0_cu_en s.se0_sh0_cu_en ||| Registers.s_00b858_sh1_cu_en s.se0_sh1_cu_en

unfoldable pub thread_mgmt_se1 : ComputeState → ℕ
unfolding Registers.s_00b85c_sh0_cu_en Registers.s_00b85c_sh1_cu_en
thread_mgmt_se1 s =
    Registers.s_00b85c_sh0_cu_en s.se1_sh0_cu_en ||| Registers.s_00b85c_sh1_cu_en s.se1_sh1_cu_en
