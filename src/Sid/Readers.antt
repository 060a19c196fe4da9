-- ===== src/Sid/Readers.antt =====
-- sid.h: the macros that read a field of a compute register.
use radeonsi_compute.Base.{ℕ, ◌/◌, ◌^◌, bit_and}

-- `((x) >> shift) & mask`.
abbrev pub get_bits : ℕ → ℕ → ℕ → ℕ
get_bits mask shift x = bit_and (x / 2 ^ shift) mask

unfoldable pub g_00b800_compute_shader_en : ℕ → ℕ
g_00b800_compute_shader_en = get_bits 0x1 0

unfoldable pub g_00b800_partial_tg_en : ℕ → ℕ
g_00b800_partial_tg_en = get_bits 0x1 1

unfoldable pub g_00b800_force_start_at_000 : ℕ → ℕ
g_00b800_force_start_at_000 = get_bits 0x1 2

unfoldable pub g_00b800_ordered_append_enbl : ℕ → ℕ
g_00b800_ordered_append_enbl = get_bits 0x1 3

unfoldable pub g_00b81c_num_thread_full : ℕ → ℕ
g_00b81c_num_thread_full = get_bits 0xFFFF 0

unfoldable pub g_00b820_num_thread_full : ℕ → ℕ
g_00b820_num_thread_full = get_bits 0xFFFF 0

unfoldable pub g_00b824_num_thread_full : ℕ → ℕ
g_00b824_num_thread_full = get_bits 0xFFFF 0

unfoldable pub g_00b82c_max_wave_id : ℕ → ℕ
g_00b82c_max_wave_id = get_bits 0xFFF 0

unfoldable pub g_00b848_vgprs : ℕ → ℕ
g_00b848_vgprs = get_bits 0x3F 0

unfoldable pub g_00b848_sgprs : ℕ → ℕ
g_00b848_sgprs = get_bits 0xF 6

unfoldable pub g_00b848_priority : ℕ → ℕ
g_00b848_priority = get_bits 0x3 10

unfoldable pub g_00b848_float_mode : ℕ → ℕ
g_00b848_float_mode = get_bits 0xFF 12

unfoldable pub g_00b848_priv : ℕ → ℕ
g_00b848_priv = get_bits 0x1 20

unfoldable pub g_00b848_dx10_clamp : ℕ → ℕ
g_00b848_dx10_clamp = get_bits 0x1 21

unfoldable pub g_00b848_debug_mode : ℕ → ℕ
g_00b848_debug_mode = get_bits 0x1 22

unfoldable pub g_00b848_ieee_mode : ℕ → ℕ
g_00b848_ieee_mode = get_bits 0x1 23

unfoldable pub g_00b84c_scratch_en : ℕ → ℕ
g_00b84c_scratch_en = get_bits 0x1 0

unfoldable pub g_00b84c_user_sgpr : ℕ → ℕ
g_00b84c_user_sgpr = get_bits 0x1F 1

unfoldable pub g_00b84c_tgid_x_en : ℕ → ℕ
g_00b84c_tgid_x_en = get_bits 0x1 7

unfoldable pub g_00b84c_tgid_y_en : ℕ → ℕ
g_00b84c_tgid_y_en = get_bits 0x1 8

unfoldable pub g_00b84c_tgid_z_en : ℕ → ℕ
g_00b84c_tgid_z_en = get_bits 0x1 9

unfoldable pub g_00b84c_tg_size_en : ℕ → ℕ
g_00b84c_tg_size_en = get_bits 0x1 10

unfoldable pub g_00b84c_tidig_comp_cnt : ℕ → ℕ
g_00b84c_tidig_comp_cnt = get_bits 0x3 11

unfoldable pub g_00b84c_lds_size : ℕ → ℕ
g_00b84c_lds_size = get_bits 0x1FF 15

unfoldable pub g_00b84c_excp_en : ℕ → ℕ
g_00b84c_excp_en = get_bits 0x7F 24

unfoldable pub g_00b854_waves_per_sh : ℕ → ℕ
g_00b854_waves_per_sh = get_bits 0x3F 0

unfoldable pub g_00b854_tg_per_cu : ℕ → ℕ
g_00b854_tg_per_cu = get_bits 0xF 12

unfoldable pub g_00b854_lock_threshold : ℕ → ℕ
g_00b854_lock_threshold = get_bits 0x3F 16

unfoldable pub g_00b854_simd_dest_cntl : ℕ → ℕ
g_00b854_simd_dest_cntl = get_bits 0x1 22

unfoldable pub g_00b858_sh0_cu_en : ℕ → ℕ
g_00b858_sh0_cu_en = get_bits 0xFFFF 0

unfoldable pub g_00b858_sh1_cu_en : ℕ → ℕ
g_00b858_sh1_cu_en = get_bits 0xFFFF 16

unfoldable pub g_00b85c_sh0_cu_en : ℕ → ℕ
g_00b85c_sh0_cu_en = get_bits 0xFFFF 0

unfoldable pub g_00b85c_sh1_cu_en : ℕ → ℕ
g_00b85c_sh1_cu_en = get_bits 0xFFFF 16
