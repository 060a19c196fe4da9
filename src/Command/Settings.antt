-- ===== src/Command/Settings.antt =====
-- The fields of the registers of a launch, read by the macros of sid.h.
use radeonsi_compute.Base.{ℕ, ◌-◌, ◌/◌, ◌%◌, ◌^◌, ◌≡◌, refl, ◌∙◌, [], ◌∷◌, arith, bit_and}
use radeonsi_compute.Base.Bits.{field, bit_and_mask}
use radeonsi_compute.Base.Fields.{slot, pack_first-Reads}
use radeonsi_compute.Device.{ComputeState}
use radeonsi_compute.Sid.Readers
use radeonsi_compute.Sid.Readers.{get_bits}
use radeonsi_compute.Command.{
  pgm_rsrc1, pgm_rsrc2, resource_limits, thread_mgmt_se0, thread_mgmt_se1, g_00b84c_trap_en,
}

get_bits-field : (k lo w : ℕ) → get_bits (2 ^ k - 1) lo w ≡ field lo k w
unfolding field
get_bits-field k lo w = bit_and_mask k (w / 2 ^ lo)

-- Each setting of the state that COMPUTE_PGM_RSRC1 holds comes back from its field, cut to the
-- width of the field, and no setting disturbs another; float mode and clamp are 0.
pub pgm_rsrc1_fields :
    (s : ComputeState)
    → (Readers.g_00b848_vgprs (pgm_rsrc1 s) ≡ s.vgpr_num % 2 ^ 6)
      × (Readers.g_00b848_sgprs (pgm_rsrc1 s) ≡ s.sgpr_num % 2 ^ 4)
      × (Readers.g_00b848_priority (pgm_rsrc1 s) ≡ s.priority % 2 ^ 2)
      × (Readers.g_00b848_float_mode (pgm_rsrc1 s) ≡ 0)
      × (Readers.g_00b848_priv (pgm_rsrc1 s) ≡ s.priv_mode % 2 ^ 1)
      × (Readers.g_00b848_dx10_clamp (pgm_rsrc1 s) ≡ 0)
      × (Readers.g_00b848_debug_mode (pgm_rsrc1 s) ≡ s.debug_mode % 2 ^ 1)
      × (Readers.g_00b848_ieee_mode (pgm_rsrc1 s) ≡ s.ieee_mode % 2 ^ 1)
unfolding pgm_rsrc1 Readers.g_00b848_vgprs Readers.g_00b848_sgprs Readers.g_00b848_priority
    Readers.g_00b848_float_mode Readers.g_00b848_priv Readers.g_00b848_dx10_clamp
    Readers.g_00b848_debug_mode Readers.g_00b848_ieee_mode
pgm_rsrc1_fields s =
    let r =
      pack_first-Reads (slot 0 6 (bit_and s.vgpr_num 0x3F))
        (slot 6 4 (bit_and s.sgpr_num 0xF)
          ∷ slot 10 2 (bit_and s.priority 0x3)
          ∷ slot 12 8 0
          ∷ slot 20 1 (bit_and s.priv_mode 0x1)
          ∷ slot 21 1 0
          ∷ slot 22 1 (bit_and s.debug_mode 0x1)
          ∷ slot 23 1 (bit_and s.ieee_mode 0x1)
          ∷ [])
        refl
        (omega (
          arith,
          bit_and_mask 1 s.debug_mode,
          bit_and_mask 1 s.ieee_mode,
          bit_and_mask 1 s.priv_mode,
          bit_and_mask 2 s.priority,
          bit_and_mask 4 s.sgpr_num,
          bit_and_mask 6 s.vgpr_num,
        )) in
    (
      get_bits-field 6 0 (pgm_rsrc1 s) ∙ r.0 ∙ bit_and_mask 6 s.vgpr_num,
      get_bits-field 4 6 (pgm_rsrc1 s) ∙ r.1.0 ∙ bit_and_mask 4 s.sgpr_num,
      get_bits-field 2 10 (pgm_rsrc1 s) ∙ r.1.1.0 ∙ bit_and_mask 2 s.priority,
      get_bits-field 8 12 (pgm_rsrc1 s) ∙ r.1.1.1.0,
      get_bits-field 1 20 (pgm_rsrc1 s) ∙ r.1.1.1.1.0 ∙ bit_and_mask 1 s.priv_mode,
      get_bits-field 1 21 (pgm_rsrc1 s) ∙ r.1.1.1.1.1.0,
      get_bits-field 1 22 (pgm_rsrc1 s) ∙ r.1.1.1.1.1.1.0 ∙ bit_and_mask 1 s.debug_mode,
      get_bits-field 1 23 (pgm_rsrc1 s) ∙ r.1.1.1.1.1.1.1.0 ∙ bit_and_mask 1 s.ieee_mode,
    )

-- Each setting of the state that COMPUTE_PGM_RSRC2 holds comes back from its field, cut to the
-- width of the field; the three group ids and the group size are on, the thread id count is 0.
pub pgm_rsrc2_fields :
    (s : ComputeState)
    → (Readers.g_00b84c_scratch_en (pgm_rsrc2 s) ≡ s.scratch_en % 2 ^ 1)
      × (Readers.g_00b84c_user_sgpr (pgm_rsrc2 s) ≡ s.user_data_length % 2 ^ 5)
      × (g_00b84c_trap_en (pgm_rsrc2 s) ≡ s.trap_en % 2 ^ 1)
      × (Readers.g_00b84c_tgid_x_en (pgm_rsrc2 s) ≡ 1)
      × (Readers.g_00b84c_tgid_y_en (pgm_rsrc2 s) ≡ 1)
      × (Readers.g_00b84c_tgid_z_en (pgm_rsrc2 s) ≡ 1)
      × (Readers.g_00b84c_tg_size_en (pgm_rsrc2 s) ≡ 1)
      × (Readers.g_00b84c_tidig_comp_cnt (pgm_rsrc2 s) ≡ 0)
      × (Readers.g_00b84c_lds_size (pgm_rsrc2 s) ≡ s.lds_size % 2 ^ 9)
      × (Readers.g_00b84c_excp_en (pgm_rsrc2 s) ≡ s.excp_en % 2 ^ 7)
unfolding pgm_rsrc2 Readers.g_00b84c_scratch_en Readers.g_00b84c_user_sgpr g_00b84c_trap_en
    Readers.g_00b84c_tgid_x_en Readers.g_00b84c_tgid_y_en Readers.g_00b84c_tgid_z_en
    Readers.g_00b84c_tg_size_en Readers.g_00b84c_tidig_comp_cnt Readers.g_00b84c_lds_size
    Readers.g_00b84c_excp_en
pgm_rsrc2_fields s =
    let r =
      pack_first-Reads (slot 0 1 (bit_and s.scratch_en 0x1))
        (slot 1 5 (bit_and s.user_data_length 0x1F)
          ∷ slot 6 1 (bit_and s.trap_en 0x1)
          ∷ slot 7 1 1
          ∷ slot 8 1 1
          ∷ slot 9 1 1
          ∷ slot 10 1 1
          ∷ slot 11 2 0
          ∷ slot 15 9 (bit_and s.lds_size 0x1FF)
          ∷ slot 24 7 (bit_and s.excp_en 0x7F)
          ∷ [])
        refl
        (omega (
          arith,
          bit_and_mask 1 s.scratch_en,
          bit_and_mask 1 s.trap_en,
          bit_and_mask 5 s.user_data_length,
          bit_and_mask 7 s.excp_en,
          bit_and_mask 9 s.lds_size,
        )) in
    (
      get_bits-field 1 0 (pgm_rsrc2 s) ∙ r.0 ∙ bit_and_mask 1 s.scratch_en,
      get_bits-field 5 1 (pgm_rsrc2 s) ∙ r.1.0 ∙ bit_and_mask 5 s.user_data_length,
      get_bits-field 1 6 (pgm_rsrc2 s) ∙ r.1.1.0 ∙ bit_and_mask 1 s.trap_en,
      get_bits-field 1 7 (pgm_rsrc2 s) ∙ r.1.1.1.0,
      get_bits-field 1 8 (pgm_rsrc2 s) ∙ r.1.1.1.1.0,
      get_bits-field 1 9 (pgm_rsrc2 s) ∙ r.1.1.1.1.1.0,
      get_bits-field 1 10 (pgm_rsrc2 s) ∙ r.1.1.1.1.1.1.0,
      get_bits-field 2 11 (pgm_rsrc2 s) ∙ r.1.1.1.1.1.1.1.0,
      get_bits-field 9 15 (pgm_rsrc2 s) ∙ r.1.1.1.1.1.1.1.1.0 ∙ bit_and_mask 9 s.lds_size,
      get_bits-field 7 24 (pgm_rsrc2 s) ∙ r.1.1.1.1.1.1.1.1.1.0 ∙ bit_and_mask 7 s.excp_en,
    )

-- Each limit of the state comes back from its field of COMPUTE_RESOURCE_LIMITS, cut to the width
-- of the field.
pub resource_limits_fields :
    (s : ComputeState)
    → (Readers.g_00b854_waves_per_sh (resource_limits s) ≡ s.waves_per_sh % 2 ^ 6)
      × (Readers.g_00b854_tg_per_cu (resource_limits s) ≡ s.thread_groups_per_cu % 2 ^ 4)
      × (Readers.g_00b854_lock_threshold (resource_limits s) ≡ s.lock_threshold % 2 ^ 6)
      × (Readers.g_00b854_simd_dest_cntl (resource_limits s) ≡ s.simd_dest_cntl % 2 ^ 1)
unfolding resource_limits Readers.g_00b854_waves_per_sh Readers.g_00b854_tg_per_cu
    Readers.g_00b854_lock_threshold Readers.g_00b854_simd_dest_cntl
resource_limits_fields s =
    let r =
      pack_first-Reads (slot 0 6 (bit_and s.waves_per_sh 0x3F))
        (slot 12 4 (bit_and s.thread_groups_per_cu 0xF)
          ∷ slot 16 6 (bit_and s.lock_threshold 0x3F)
          ∷ slot 22 1 (bit_and s.simd_dest_cntl 0x1)
          ∷ [])
        refl
        (omega (
          arith,
          bit_and_mask 1 s.simd_dest_cntl,
          bit_and_mask 4 s.thread_groups_per_cu,
          bit_and_mask 6 s.lock_threshold,
          bit_and_mask 6 s.waves_per_sh,
        )) in
    (
      get_bits-field 6 0 (resource_limits s) ∙ r.0 ∙ bit_and_mask 6 s.waves_per_sh,
      get_bits-field 4 12 (resource_limits s) ∙ r.1.0 ∙ bit_and_mask 4 s.thread_groups_per_cu,
      get_bits-field 6 16 (resource_limits s) ∙ r.1.1.0 ∙ bit_and_mask 6 s.lock_threshold,
      get_bits-field 1 22 (resource_limits s) ∙ r.1.1.1.0 ∙ bit_and_mask 1 s.simd_dest_cntl,
    )

-- The two masks of compute units of shader engine 0 come back from their halves, cut to 16 bits.
pub thread_mgmt_se0_fields :
    (s : ComputeState)
    → (Readers.g_00b858_sh0_cu_en (thread_mgmt_se0 s) ≡ s.se0_sh0_cu_en % 2 ^ 16)
      × (Readers.g_00b858_sh1_cu_en (thread_mgmt_se0 s) ≡ s.se0_sh1_cu_en % 2 ^ 16)
unfolding thread_mgmt_se0 Readers.g_00b858_sh0_cu_en Readers.g_00b858_sh1_cu_en
thread_mgmt_se0_fields s =
    let r =
      pack_first-Reads (slot 0 16 (bit_and s.se0_sh0_cu_en 0xFFFF))
        (slot 16 16 (bit_and s.se0_sh1_cu_en 0xFFFF) ∷ []) refl
        (omega (arith, bit_and_mask 16 s.se0_sh0_cu_en, bit_and_mask 16 s.se0_sh1_cu_en)) in
    (
      get_bits-field 16 0 (thread_mgmt_se0 s) ∙ r.0 ∙ bit_and_mask 16 s.se0_sh0_cu_en,
      get_bits-field 16 16 (thread_mgmt_se0 s) ∙ r.1.0 ∙ bit_and_mask 16 s.se0_sh1_cu_en,
    )

-- The two masks of compute units of shader engine 1 come back from their halves, cut to 16 bits.
pub thread_mgmt_se1_fields :
    (s : ComputeState)
    → (Readers.g_00b85c_sh0_cu_en (thread_mgmt_se1 s) ≡ s.se1_sh0_cu_en % 2 ^ 16)
      × (Readers.g_00b85c_sh1_cu_en (thread_mgmt_se1 s) ≡ s.se1_sh1_cu_en % 2 ^ 16)
unfolding thread_mgmt_se1 Readers.g_00b85c_sh0_cu_en Readers.g_00b85c_sh1_cu_en
thread_mgmt_se1_fields s =
    let r =
      pack_first-Reads (slot 0 16 (bit_and s.se1_sh0_cu_en 0xFFFF))
        (slot 16 16 (bit_and s.se1_sh1_cu_en 0xFFFF) ∷ []) refl
        (omega (arith, bit_and_mask 16 s.se1_sh0_cu_en, bit_and_mask 16 s.se1_sh1_cu_en)) in
    (
      get_bits-field 16 0 (thread_mgmt_se1 s) ∙ r.0 ∙ bit_and_mask 16 s.se1_sh0_cu_en,
      get_bits-field 16 16 (thread_mgmt_se1 s) ∙ r.1.0 ∙ bit_and_mask 16 s.se1_sh1_cu_en,
    )
