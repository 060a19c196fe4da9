-- ===== src/Sid/Registers.antt =====
-- sid.h: the addresses of the compute registers and the macros that put a value
-- into one of their fields.
use radeonsi_compute.Base.{ℕ, bit_and, ◌<<◌}

abbrev pub si_sh_reg_offset : ℕ
si_sh_reg_offset = 0x0000B000

abbrev pub si_sh_reg_end : ℕ
si_sh_reg_end = 0x0000C000

abbrev pub r_00b800_compute_dispatch_initiator : ℕ
r_00b800_compute_dispatch_initiator = 0x00B800

abbrev pub r_00b804_compute_dim_x : ℕ
r_00b804_compute_dim_x = 0x00B804

abbrev pub r_00b808_compute_dim_y : ℕ
r_00b808_compute_dim_y = 0x00B808

abbrev pub r_00b80c_compute_dim_z : ℕ
r_00b80c_compute_dim_z = 0x00B80C

abbrev pub r_00b810_compute_start_x : ℕ
r_00b810_compute_start_x = 0x00B810

abbrev pub r_00b814_compute_start_y : ℕ
r_00b814_compute_start_y = 0x00B814

abbrev pub r_00b818_compute_start_z : ℕ
r_00b818_compute_start_z = 0x00B818

abbrev pub r_00b81c_compute_num_thread_x : ℕ
r_00b81c_compute_num_thread_x = 0x00B81C

abbrev pub r_00b820_compute_num_thread_y : ℕ
r_00b820_compute_num_thread_y = 0x00B820

abbrev pub r_00b824_compute_num_thread_z : ℕ
r_00b824_compute_num_thread_z = 0x00B824

abbrev pub r_00b82c_compute_max_wave_id : ℕ
r_00b82c_compute_max_wave_id = 0x00B82C

abbrev pub r_00b830_compute_pgm_lo : ℕ
r_00b830_compute_pgm_lo = 0x00B830

abbrev pub r_00b834_compute_pgm_hi : ℕ
r_00b834_compute_pgm_hi = 0x00B834

abbrev pub r_00b848_compute_pgm_rsrc1 : ℕ
r_00b848_compute_pgm_rsrc1 = 0x00B848

abbrev pub r_00b84c_compute_pgm_rsrc2 : ℕ
r_00b84c_compute_pgm_rsrc2 = 0x00B84C

abbrev pub r_00b854_compute_resource_limits : ℕ
r_00b854_compute_resource_limits = 0x00B854

abbrev pub r_00b858_compute_static_thread_mgmt_se0 : ℕ
r_00b858_compute_static_thread_mgmt_se0 = 0x00B858

abbrev pub r_00b85c_compute_static_thread_mgmt_se1 : ℕ
r_00b85c_compute_static_thread_mgmt_se1 = 0x00B85C

abbrev pub r_00b900_compute_user_data_0 : ℕ
r_00b900_compute_user_data_0 = 0x00B900

-- `((x) & mask) << shift`.
abbrev pub put_bits : ℕ → ℕ → ℕ → ℕ
put_bits mask shift x = bit_and x mask << shift

unfoldable pub s_0085f0_tcl1_action_ena : ℕ → ℕ
s_0085f0_tcl1_action_ena = put_bits 0x1 22

unfoldable pub s_0085f0_sh_icache_action_ena : ℕ → ℕ
s_0085f0_sh_icache_action_ena = put_bits 0x1 29

unfoldable pub s_0085f0_sh_kcache_action_ena : ℕ → ℕ
s_0085f0_sh_kcache_action_ena = put_bits 0x1 27

unfoldable pub s_0085f0_tc_action_ena : ℕ → ℕ
s_0085f0_tc_action_ena = put_bits 0x1 23

unfoldable pub s_00b800_compute_shader_en : ℕ → ℕ
s_00b800_compute_shader_en = put_bits 0x1 0

unfoldable pub s_00b800_partial_tg_en : ℕ → ℕ
s_00b800_partial_tg_en = put_bits 0x1 1

unfoldable pub s_00b800_force_start_at_000 : ℕ → ℕ
s_00b800_force_start_at_000 = put_bits 0x1 2

unfoldable pub s_00b800_ordered_append_enbl : ℕ → ℕ
s_00b800_ordered_append_enbl = put_bits 0x1 3

unfoldable pub s_00b81c_num_thread_full : ℕ → ℕ
s_00b81c_num_thread_full = put_bits 0xFFFF 0

unfoldable pub s_00b820_num_thread_full : ℕ → ℕ
s_00b820_num_thread_full = put_bits 0xFFFF 0

unfoldable pub s_00b824_num_thread_full : ℕ → ℕ
s_00b824_num_thread_full = put_bits 0xFFFF 0

unfoldable pub s_00b82c_max_wave_id : ℕ → ℕ
s_00b82c_max_wave_id = put_bits 0xFFF 0

unfoldable pub s_00b848_vgprs : ℕ → ℕ
s_00b848_vgprs = put_bits 0x3F 0

unfoldable pub s_00b848_sgprs : ℕ → ℕ
s_00b848_sgprs = put_bits 0xF 6

unfoldable pub s_00b848_priority : ℕ → ℕ
s_00b848_priority = put_bits 0x3 10

unfoldable pub s_00b848_float_mode : ℕ → ℕ
s_00b848_float_mode = put_bits 0xFF 12

unfoldable pub s_00b848_priv : ℕ → ℕ
s_00b848_priv = put_bits 0x1 20

unfoldable pub s_00b848_dx10_clamp : ℕ → ℕ
s_00b848_dx10_clamp = put_bits 0x1 21

unfoldable pub s_00b848_debug_mode : ℕ → ℕ
s_00b848_debug_mode = put_bits 0x1 22

unfoldable pub s_00b848_ieee_mode : ℕ → ℕ
s_00b848_ieee_mode = put_bits 0x1 23

unfoldable pub s_00b84c_scratch_en : ℕ → ℕ
s_00b84c_scratch_en = put_bits 0x1 0

unfoldable pub s_00b84c_user_sgpr : ℕ → ℕ
s_00b84c_user_sgpr = put_bits 0x1F 1

unfoldable pub s_00b84c_tgid_x_en : ℕ → ℕ
s_00b84c_tgid_x_en = put_bits 0x1 7

unfoldable pub s_00b84c_tgid_y_en : ℕ → ℕ
s_00b84c_tgid_y_en = put_bits 0x1 8

unfoldable pub s_00b84c_tgid_z_en : ℕ → ℕ
s_00b84c_tgid_z_en = put_bits 0x1 9

unfoldable pub s_00b84c_tg_size_en : ℕ → ℕ
s_00b84c_tg_size_en = put_bits 0x1 10

unfoldable pub s_00b84c_tidig_comp_cnt : ℕ → ℕ
s_00b84c_tidig_comp_cnt = put_bits 0x3 11

unfoldable pub s_00b84c_lds_size : ℕ → ℕ
s_00b84c_lds_size = put_bits 0x1FF 15

unfoldable pub s_00b84c_excp_en : ℕ → ℕ
s_00b84c_excp_en = put_bits 0x7F 24

unfoldable pub s_00b854_waves_per_sh : ℕ → ℕ
s_00b854_waves_per_sh = put_bits 0x3F 0

unfoldable pub s_00b854_tg_per_cu : ℕ → ℕ
s_00b854_tg_per_cu = put_bits 0xF 12

unfoldable pub s_00b854_lock_threshold : ℕ → ℕ
s_00b854_lock_threshold = put_bits 0x3F 16

unfoldable pub s_00b854_simd_dest_cntl : ℕ → ℕ
s_00b854_simd_dest_cntl = put_bits 0x1 22

unfoldable pub s_00b858_sh0_cu_en : ℕ → ℕ
s_00b858_sh0_cu_en = put_bits 0xFFFF 0

unfoldable pub s_00b858_sh1_cu_en : ℕ → ℕ
s_00b858_sh1_cu_en = put_bits 0xFFFF 16

unfoldable pub s_00b85c_sh0_cu_en : ℕ → ℕ
s_00b85c_sh0_cu_en = put_bits 0xFFFF 0

unfoldable pub s_00b85c_sh1_cu_en : ℕ → ℕ
s_00b85c_sh1_cu_en = put_bits 0xFFFF 16
