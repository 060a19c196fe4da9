-- ===== src/Command/Tests.antt =====
-- The theorems on the register settings and on the packet headers at concrete values.
use radeonsi_compute.Base.{◌%◌, ◌^◌, ◌≡◌}
use radeonsi_compute.Sid.Readers
use radeonsi_compute.Samples.{sample_state}
use radeonsi_compute.Command.{
  pgm_rsrc1, pgm_rsrc2, resource_limits, thread_mgmt_se0, thread_mgmt_se1, g_00b84c_trap_en,
}
use radeonsi_compute.Command.Configured.{settings_come_back}
use radeonsi_compute.Device.{ComputeState}

settings_come_back_example :
    let s : ComputeState = sample_state in
    ((Readers.g_00b848_vgprs (pgm_rsrc1 s) ≡ s.vgpr_num % 2 ^ 6)
      × (Readers.g_00b848_sgprs (pgm_rsrc1 s) ≡ s.sgpr_num % 2 ^ 4)
      × (Readers.g_00b848_priority (pgm_rsrc1 s) ≡ s.priority % 2 ^ 2)
      × (Readers.g_00b848_float_mode (pgm_rsrc1 s) ≡ 0)
      × (Readers.g_00b848_priv (pgm_rsrc1 s) ≡ s.priv_mode % 2 ^ 1)
      × (Readers.g_00b848_dx10_clamp (pgm_rsrc1 s) ≡ 0)
      × (Readers.g_00b848_debug_mode (pgm_rsrc1 s) ≡ s.debug_mode % 2 ^ 1)
      × (Readers.g_00b848_ieee_mode (pgm_rsrc1 s) ≡ s.ieee_mode % 2 ^ 1))
    × ((Readers.g_00b84c_scratch_en (pgm_rsrc2 s) ≡ s.scratch_en % 2 ^ 1)
        × (Readers.g_00b84c_user_sgpr (pgm_rsrc2 s) ≡ s.user_data_length % 2 ^ 5)
        × (g_00b84c_trap_en (pgm_rsrc2 s) ≡ s.trap_en % 2 ^ 1)
        × (Readers.g_00b84c_tgid_x_en (pgm_rsrc2 s) ≡ 1)
        × (Readers.g_00b84c_tgid_y_en (pgm_rsrc2 s) ≡ 1)
        × (Readers.g_00b84c_tgid_z_en (pgm_rsrc2 s) ≡ 1)
        × (Readers.g_00b84c_tg_size_en (pgm_rsrc2 s) ≡ 1)
        × (Readers.g_00b84c_tidig_comp_cnt (pgm_rsrc2 s) ≡ 0)
        × (Readers.g_00b84c_lds_size (pgm_rsrc2 s) ≡ s.lds_size % 2 ^ 9)
        × (Readers.g_00b84c_excp_en (pgm_rsrc2 s) ≡ s.excp_en % 2 ^ 7))
    × ((Readers.g_00b854_waves_per_sh (resource_limits s) ≡ s.waves_per_sh % 2 ^ 6)
        × (Readers.g_00b854_tg_per_cu (resource_limits s) ≡ s.thread_groups_per_cu % 2 ^ 4)
        × (Readers.g_00b854_lock_threshold (resource_limits s) ≡ s.lock_threshold % 2 ^ 6)
        × (Readers.g_00b854_simd_dest_cntl (resource_limits s) ≡ s.simd_dest_cntl % 2 ^ 1))
    × ((Readers.g_00b858_sh0_cu_en (thread_mgmt_se0 s) ≡ s.se0_sh0_cu_en % 2 ^ 16)
        × (Readers.g_00b858_sh1_cu_en (thread_mgmt_se0 s) ≡ s.se0_sh1_cu_en % 2 ^ 16))
    × ((Readers.g_00b85c_sh0_cu_en (thread_mgmt_se1 s) ≡ s.se1_sh0_cu_en % 2 ^ 16)
        × (Readers.g_00b85c_sh1_cu_en (thread_mgmt_se1 s) ≡ s.se1_sh1_cu_en % 2 ^ 16))
settings_come_back_example = settings_come_back sample_state
