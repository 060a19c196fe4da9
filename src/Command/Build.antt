-- ===== src/Command/Build.antt =====
-- computesi.c: the command buffer of a launch.
use radeonsi_compute.Base.{
  ℕ, zero, suc, ◌+◌, ◌-◌, ◌/◌, ◌^◌, ltb, ◌==◌, if◌then◌else◌, none, some, List, get_elem?, ◌|||◌,
}
use radeonsi_compute.Base.Bits.{u32}
use radeonsi_compute.Base.Stream.{put}
use radeonsi_compute.Device.{ComputeState}
use radeonsi_compute.Sid.{pkt3_set_sh_reg}
use radeonsi_compute.Sid.Registers
use radeonsi_compute.Command.{
  Fill, ◌>>◌, word, pkt3c, set_compute_reg, surface_sync, pgm_rsrc1, pgm_rsrc2, resource_limits,
  thread_mgmt_se0, thread_mgmt_se1,
}

-- `for (i = 0; i < n; i++) buf[cdw++] = user_data[i]`, with `left` rounds to go.
unfoldable pub copy_user_data : List ℕ → ℕ → ℕ → Fill
copy_user_data xs zero i p = some p
copy_user_data xs (suc left) i p = elim (get_elem? xs i) [
  | none ↦ none
  | some w ↦ copy_user_data xs left (i + 1) (put w p)
]

-- The rounds of that loop for a limit of type `int`.
unfoldable pub int_rounds : ℕ → ℕ
int_rounds n = if ltb n (2 ^ 31) then n else 0

unfoldable pub fill_user_data : ComputeState → Fill
fill_user_data s =
    let fill =
      word (pkt3c pkt3_set_sh_reg s.user_data_length 0)
      >> word ((Registers.r_00b900_compute_user_data_0 - Registers.si_sh_reg_offset) / 2 ^ 2)
      >> copy_user_data s.user_data (int_rounds s.user_data_length) 0 in
    if s.user_data_length == 0 then some else fill

-- The registers of a launch, up to the user data.
unfoldable pub fill_registers : ComputeState → Fill
unfolding set_compute_reg Registers.s_00b81c_num_thread_full Registers.s_00b820_num_thread_full
    Registers.s_00b824_num_thread_full Registers.s_00b82c_max_wave_id pgm_rsrc1 pgm_rsrc2
    resource_limits thread_mgmt_se0 thread_mgmt_se1
fill_registers s =
    set_compute_reg Registers.r_00b804_compute_dim_x s.dim.x
    >> set_compute_reg Registers.r_00b808_compute_dim_y s.dim.y
    >> set_compute_reg Registers.r_00b80c_compute_dim_z s.dim.z
    >> set_compute_reg Registers.r_00b810_compute_start_x s.start.x
    >> set_compute_reg Registers.r_00b814_compute_start_y s.start.y
    >> set_compute_reg Registers.r_00b818_compute_start_z s.start.z
    >> set_compute_reg Registers.r_00b81c_compute_num_thread_x
        (Registers.s_00b81c_num_thread_full s.num_thread.x)
    >> set_compute_reg Registers.r_00b820_compute_num_thread_y
        (Registers.s_00b820_num_thread_full s.num_thread.y)
    >> set_compute_reg Registers.r_00b824_compute_num_thread_z
        (Registers.s_00b824_num_thread_full s.num_thread.z)
    >> set_compute_reg Registers.r_00b82c_compute_max_wave_id (Registers.s_00b82c_max_wave_id 0xF00)
    >> set_compute_reg Registers.r_00b830_compute_pgm_lo (u32 (s.binary.va / 2 ^ 8))
    >> set_compute_reg Registers.r_00b834_compute_pgm_hi (u32 (s.binary.va / 2 ^ 40))
    >> set_compute_reg Registers.r_00b848_compute_pgm_rsrc1 (pgm_rsrc1 s)
    >> set_compute_reg Registers.r_00b84c_compute_pgm_rsrc2 (pgm_rsrc2 s)
    >> set_compute_reg Registers.r_00b854_compute_resource_limits (resource_limits s)
    >> set_compute_reg Registers.r_00b858_compute_static_thread_mgmt_se0 (thread_mgmt_se0 s)
    >> set_compute_reg Registers.r_00b85c_compute_static_thread_mgmt_se1 (thread_mgmt_se1 s)

-- `compute_emit_compute_state_manual_relocs`, all that it puts into `buf`.
unfoldable pub fill_launch : ComputeState → Fill
unfolding set_compute_reg Registers.s_00b800_compute_shader_en Registers.s_00b800_partial_tg_en
    Registers.s_00b800_force_start_at_000 Registers.s_00b800_ordered_append_enbl
fill_launch s =
    fill_registers s
    >> fill_user_data s
    >> surface_sync
    >> set_compute_reg Registers.r_00b800_compute_dispatch_initiator (
        Registers.s_00b800_compute_shader_en 1
        ||| Registers.s_00b800_partial_tg_en 0
        ||| Registers.s_00b800_force_start_at_000 0
        ||| Registers.s_00b800_ordered_append_enbl 0)
    >> set_compute_reg Registers.r_00b800_compute_dispatch_initiator 0
