-- ===== src/Submit/Launched.antt =====
-- The requests of a launch and of a flush, down to what the processor does with them.
use radeonsi_compute.Base.{ℕ, ◌≤◌, ◌≡◌, ap, ◌∙◌, none, some, List, ◌∷◌, All, length}
use radeonsi_compute.Base.Stream.{Stream}
use radeonsi_compute.Device.{ComputeState, CsRelocGem, Kernel}
use radeonsi_compute.Pool.{Pool, PoolNode}
use radeonsi_compute.Command.Packets.{Packet, parse, buffer_words, parse-buffer_words}
use radeonsi_compute.Command.Gpu.{Gpu, Found, exec}
use radeonsi_compute.Command.Launch.{UserDataFits, launch_packets, fill_launch-puts}
use radeonsi_compute.Command.Running.{
  IsLaunchOf, exec-launch_packets, launch_packets-IsPacket, launch_packets-length,
}
use radeonsi_compute.Submit.{
  Block, request, compute_emit_compute_state, compute_emit_compute_state_manual_relocs,
}
use radeonsi_compute.Submit.Relocs.{
  IsPlaced, pool_relocs, with_relocs, compute_create_reloc_table-pool,
}
use radeonsi_compute.Submit.Copies.{request_of, request-puts}

module _ {D : Type 0} (kernel : Kernel D) where
  pub manual_relocs-request :
      (s : ComputeState) (rs : List CsRelocGem) (buf : ℕ → ℕ) (d : D)
      → UserDataFits s
      → compute_emit_compute_state_manual_relocs kernel s (with_relocs rs) buf d
        ≡ some (kernel.submit (request_of kernel s.id 1 rs (buffer_words (launch_packets s))) d)
  unfolding compute_emit_compute_state_manual_relocs
  manual_relocs-request s rs buf d fits =
      ap
        (λ o. elim o [
          | none ↦ none
          | some p ↦ some (kernel.submit (request kernel s.id 1 (with_relocs rs) p) d)
        ])
        (fill_launch-puts s (record { cell = buf; pos = 0 }) fits)
      ∙ ap (λ r. some (kernel.submit r d))
          (request-puts kernel s.id 1 rs (buffer_words (launch_packets s)) buf)

  pub compute_emit_compute_state-launches :
      (blocks : ℕ → Block) (first : PoolNode) (pool : Pool) (s : ComputeState) (buf : ℕ → ℕ) (d : D)
      (g : Gpu)
      → All (IsPlaced blocks) pool
      → UserDataFits s
      → (ws : List ℕ) × (ks : List Packet) × (h : Gpu) × (f : Found) × (compute_emit_compute_state
            kernel blocks
            (first ∷ pool)
            s
            buf
            d
          ≡ some (kernel.submit (request_of kernel s.id 1 (pool_relocs blocks pool) ws) d))
        × (length ws ≤ 80)
        × (parse 21 ws ≡ some ks)
        × (exec ks g ≡ some h)
        × (h.launches ≡ f ∷ g.launches)
        × IsLaunchOf s f
  unfolding compute_emit_compute_state
  compute_emit_compute_state-launches blocks first pool s buf d g placed fits =
      let (h, f, runs, launched, is) = exec-launch_packets s g fits in
      let sizes = launch_packets-length s fits in
      (
        buffer_words (launch_packets s),
        launch_packets s,
        h,
        f,
        ap
              (λ o. elim o [
                | none ↦ none
                | some c ↦ compute_emit_compute_state_manual_relocs kernel s c buf d
              ])
              (compute_create_reloc_table-pool blocks first pool placed)
            ∙ manual_relocs-request s (pool_relocs blocks pool) buf d fits,
        sizes.1,
        parse-buffer_words (launch_packets s) 21 (launch_packets-IsPacket s fits) sizes.0,
        runs,
        launched,
        is,
      )
