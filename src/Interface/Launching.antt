-- ===== src/Interface/Launching.antt =====
-- `launch`: the settings that it computes, and the request that it sends.
use radeonsi_compute.Base.{
  ℕ, ◌+◌, ◌-◌, ◌*◌, ◌/◌, ◌^◌, ◌≤◌, ◌<◌, ◌≡◌, refl, sym, ap, ◌∙◌, true, ltb, ◌==◌, if◌then◌else◌,
  none, some, List, [], ◌∷◌, ◌++◌, All, length, map, arith,
}
use mathlib.Core.List.{append_assoc, append-nil}
use radeonsi_compute.Device.{GpuBuffer, ComputeState, CsRelocGem, Kernel}
use radeonsi_compute.Sid.Readers
use radeonsi_compute.Command.{pgm_rsrc1, pgm_rsrc2}
use radeonsi_compute.Command.Settings.{pgm_rsrc1_fields, pgm_rsrc2_fields}
use radeonsi_compute.Command.Packets.{Packet, parse, buffer_words, parse-buffer_words}
use radeonsi_compute.Command.Gpu.{Gpu, Found, exec}
use radeonsi_compute.Command.Launch.{UserDataFits, launch_packets}
use radeonsi_compute.Command.Running.{
  IsLaunchOf, exec-launch_packets, launch_packets-IsPacket, launch_packets-length,
}
use radeonsi_compute.Submit.{Block, reloc_of, compute_init_relocs}
use radeonsi_compute.Submit.Relocs.{IsWhole, with_relocs, push_whole}
use radeonsi_compute.Submit.Copies.{request_of}
use radeonsi_compute.Submit.Launched.{manual_relocs-request}
use radeonsi_compute.Interface.{returned, thrown}
use radeonsi_compute.Interface.Launch.{
  default_num, int_plus, int_quot, int_pred, launch_state, launch_ok, push_memories, emit, launch,
}

-- A buffer with all its fragments.
abbrev pub IsBuffer : Block → Type 0
IsBuffer [] = ⊥
IsBuffer (b ∷ bs) = IsWhole (b ∷ bs)

abbrev pub all_relocs : List Block → List CsRelocGem
all_relocs [] = []
all_relocs (bo ∷ rest) = map reloc_of bo ++ all_relocs rest

push_memories-relocs :
    (bos : List Block) (rs : List CsRelocGem)
    → All IsBuffer bos
    → push_memories bos (with_relocs rs) ≡ some (with_relocs (rs ++ all_relocs bos))
unfolding push_memories
push_memories-relocs [] rs h = ap (λ x. some (with_relocs x)) (sym (append-nil rs))
push_memories-relocs ([] ∷ rest) rs (h, hs) = absurd h
push_memories-relocs ((b ∷ bs) ∷ rest) rs (h, hs) =
    ap (λ o. elim o [ none ↦ none | some c ↦ push_memories rest c ]) (push_whole b bs rs h)
    ∙ push_memories-relocs rest (rs ++ map reloc_of (b ∷ bs)) hs
    ∙ ap (λ x. some (with_relocs x)) (append_assoc rs (map reloc_of (b ∷ bs)) (all_relocs rest))

-- Where no sum overflows and nothing is negative, the `int` arithmetic is that on numbers.
four : (n : ℕ) → 0 < n → n ≤ 256 → int_pred (int_quot (int_plus n 3) 4) ≡ (n + 3) / 4 - 1
four n pos h =
    let sum : int_plus n 3 ≡ n + 3 = omega arith in
    let plain : ltb (n + 3) (2 ^ 31) ≡ true = ground arith in rw (sum, plain) (omega arith)

eight : (n : ℕ) → 0 < n → n ≤ 128 → int_pred (int_quot (int_plus n 7) 8) ≡ (n + 7) / 8 - 1
eight n pos h =
    let sum : int_plus n 7 ≡ n + 7 = omega arith in
    let plain : ltb (n + 7) (2 ^ 31) ≡ true = ground arith in rw (sum, plain) (omega arith)

units : (n : ℕ) → n ≤ 32 * 1024 → int_quot (int_plus n 255) 256 ≡ (n + 255) / 256
units n h =
    let sum : int_plus n 255 ≡ n + 255 = omega arith in
    let plain : ltb (n + 255) (2 ^ 31) ≡ true = ground arith in rw (sum, plain) refl

module _ (user_data thread_offset block_dim local_size : List ℕ) (code : GpuBuffer)
    (local_mem_size vgprnum sgprnum : ℕ) where
  abbrev state : ComputeState
  state =
      launch_state user_data thread_offset block_dim local_size code local_mem_size vgprnum sgprnum

  -- For sizes that `launch` accepts and that are not negative, the registers of the launch grant
  -- at least the vector registers (4 at a time), the scalar registers (8 at a time) and the bytes
  -- of local memory (256 at a time) that were asked for, and less than one unit more; 0 asks for
  -- 256 vector registers and for 104 scalar ones.
  pub launch_state-grants :
      local_mem_size ≤ 32 * 1024
      → vgprnum ≤ 256
      → sgprnum ≤ 128
      → (default_num 256 vgprnum ≤ (Readers.g_00b848_vgprs (pgm_rsrc1 state) + 1) * 4)
        × ((Readers.g_00b848_vgprs (pgm_rsrc1 state) + 1) * 4 < default_num 256 vgprnum + 4)
        × (default_num 104 sgprnum ≤ (Readers.g_00b848_sgprs (pgm_rsrc1 state) + 1) * 8)
        × ((Readers.g_00b848_sgprs (pgm_rsrc1 state) + 1) * 8 < default_num 104 sgprnum + 8)
        × (local_mem_size ≤ Readers.g_00b84c_lds_size (pgm_rsrc2 state) * 256)
        × (Readers.g_00b84c_lds_size (pgm_rsrc2 state) * 256 < local_mem_size + 256)
  unfolding launch_state
  launch_state-grants mem v s =
      let one = pgm_rsrc1_fields state in
      let two = pgm_rsrc2_fields state in
      let vw : default_num 256 vgprnum ≤ 256 = ground arith in
      let vp : 0 < default_num 256 vgprnum = ground arith in
      let sw : default_num 104 sgprnum ≤ 128 = ground arith in
      let sp : 0 < default_num 104 sgprnum = ground arith in
      let vn : state.vgpr_num ≡ (default_num 256 vgprnum + 3) / 4 - 1 =
        four (default_num 256 vgprnum) vp vw in
      let sn : state.sgpr_num ≡ (default_num 104 sgprnum + 7) / 8 - 1 =
        eight (default_num 104 sgprnum) sp sw in
      let ln : state.lds_size ≡ (local_mem_size + 255) / 256 = units local_mem_size mem in
      (
        omega (arith, one.0, vn, vp, vw),
        omega (arith, one.0, vn, vp, vw),
        omega (arith, one.1, sn, sp, sw),
        omega (arith, one.1, sn, sp, sw),
        omega (arith, two.8, ln, mem),
        omega (arith, two.8, ln, mem),
      )

  launch_ok-short :
      launch_ok user_data block_dim local_size local_mem_size vgprnum sgprnum ≡ true
      → length user_data ≤ 16
  unfolding launch_ok
  launch_ok-short ok = ground arith

  -- With the assertions met and every used buffer given with all its fragments, `launch` sends one
  -- request to the compute ring that names these fragments, in the order of the buffers. Its words
  -- are whole packets that start, from any state of the processor, exactly one launch: that of the
  -- state with the settings. The call throws exactly where the answer to the request is not 0.
  pub launch-starts :
      {D : Type 0} (kernel : Kernel D) (used_memories : List Block) (buf : ℕ → ℕ) (d : D) (g : Gpu)
      → launch_ok user_data block_dim local_size local_mem_size vgprnum sgprnum ≡ true
      → All IsBuffer used_memories
      → (ws : List ℕ) × (ks : List Packet) × (h : Gpu) × (f : Found) × (launch kernel user_data
            thread_offset block_dim local_size code used_memories local_mem_size vgprnum sgprnum buf
            d
          ≡ (let answer = kernel.submit (request_of kernel 0 1 (all_relocs used_memories) ws) d in
              some (if answer.0 == 0 then returned tt else thrown, answer.1)))
        × (length ws ≤ 80)
        × (parse 21 ws ≡ some ks)
        × (exec ks g ≡ some h)
        × (h.launches ≡ f ∷ g.launches)
        × IsLaunchOf state f
  unfolding launch launch_state compute_init_relocs
  launch-starts kernel used_memories buf d g ok buffers =
      let fits : UserDataFits state = (omega arith, launch_ok-short ok) in
      let (h, f, runs, launched, is) = exec-launch_packets state g fits in
      let sizes = launch_packets-length state fits in
      (
        buffer_words (launch_packets state),
        launch_packets state,
        h,
        f,
        rw (ok) (
            ap (λ o. emit kernel state o buf d) (push_memories-relocs used_memories [] buffers)
            ∙ ap
                (λ o. elim o [
                  | none ↦ none
                  | some (ret, d') ↦ some (if ret == 0 then returned tt else thrown, d')
                ])
                (manual_relocs-request kernel state (all_relocs used_memories) buf d fits)),
        sizes.1,
        parse-buffer_words (launch_packets state) 21 (launch_packets-IsPacket state fits) sizes.0,
        runs,
        launched,
        is,
      )
