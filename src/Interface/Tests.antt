-- ===== src/Interface/Tests.antt =====
-- The theorems on the C++ interface at a small device: copies in two pieces, and a launch.
use radeonsi_compute.Base.{
  ℕ, ◌+◌, ◌*◌, ◌≤◌, ◌<◌, ◌≡◌, refl, inl, true, false, ◌==◌, if◌then◌else◌, some, List, [], ◌∷◌, map,
  length, arith,
}
use radeonsi_compute.Device.{GpuBuffer, ComputeState, CsRelocGem}
use radeonsi_compute.Sid.Readers
use radeonsi_compute.Command.{pgm_rsrc1, pgm_rsrc2}
use radeonsi_compute.Command.Packets.{Packet, parse}
use radeonsi_compute.Command.Gpu.{Gpu, Found, exec}
use radeonsi_compute.Command.Running.{IsLaunchOf}
use radeonsi_compute.Samples.{Toy, toy, toy_device, sample_buffer}
use radeonsi_compute.Submit.{Block}
use radeonsi_compute.Submit.Relocs.{IsWhole}
use radeonsi_compute.Submit.Dma.{wait_both}
use radeonsi_compute.Submit.Copies.{Copy, copy, request_of}
use radeonsi_compute.Submit.AsyncCopy.{dma_engine}
use radeonsi_compute.Submit.Tests.{toy-WaitsFor, IsIdle}
use radeonsi_compute.Interface.{returned, thrown, sync_dma_copy, async_dma_copy}
use radeonsi_compute.Interface.Pieces.{sync_copy_of, both_relocs, submits}
use radeonsi_compute.Interface.Moves.{run_copy, run_copies}
use radeonsi_compute.Interface.SyncCopying.{IsBounded, sync_dma_copy-copies}
use radeonsi_compute.Interface.AsyncCopying.{async_dma_copy-copies}
use radeonsi_compute.Interface.Launch.{launch_state, launch_ok, launch}
use radeonsi_compute.Interface.Launching.{all_relocs, launch_state-grants, launch-starts}

abbrev source : GpuBuffer
source = sample_buffer 3 0x10000 1

abbrev target : GpuBuffer
target = sample_buffer 5 0x1000000 1

source-IsWhole : IsWhole (source ∷ [])
source-IsWhole = (refl, tt)

target-IsWhole : IsWhole (target ∷ [])
target-IsWhole = (refl, tt)

-- Requests do not change how often the device will be busy.
busy-submits :
    (rs : List CsRelocGem) (wss : List (List ℕ)) (r : ℕ × Toy)
    → (submits toy 1 rs wss r).1.busy ≡ r.1.busy
busy-submits rs [] r = refl
busy-submits rs (ws ∷ wss) r = busy-submits rs wss (toy.submit (request_of toy 1 1 rs ws) r.1)

abbrev rs : List CsRelocGem
rs = both_relocs (source ∷ []) (target ∷ [])

bounded : IsBounded toy target source [] [] 0 4 600001 3 (λ i j. 0) (λ d. d.busy) 1 rs toy_device
bounded wss l = omega (arith, busy-submits rs wss (0, toy_device))

sync_dma_copy-copies_example :
    (d' : Toy) × (wss : List (List ℕ)) × (cs : List Copy) × (r : ℕ × Toy) × (sync_dma_copy toy 3
        (target ∷ [])
        0
        (source ∷ [])
        4
        600001
        3
        (λ i j. 0)
        toy_device
      ≡ some d')
    × (wait_both toy 3 (target ∷ []) (source ∷ []) (submits toy 1 rs wss (0, toy_device))
        ≡ some (r.0, d'))
    × (length wss ≡ 2)
    × (map sync_copy_of wss ≡ map some cs)
    × ((m : ℕ → ℕ) (a : ℕ) → run_copies cs m a ≡ run_copy (copy 0x10004 0x1000000 600001) m a)
sync_dma_copy-copies_example =
    sync_dma_copy-copies toy target source [] [] 0 4 600001 3 (λ i j. 0) IsIdle (λ d. d.busy) 3
      toy_device toy-WaitsFor bounded source-IsWhole target-IsWhole (omega arith) (omega arith)
      (omega arith) (omega arith) (inl (omega arith))

async_dma_copy-copies_example :
    (wss : List (List ℕ)) × (cs : List Copy) × (async_dma_copy toy 3
        (target ∷ [])
        0
        (source ∷ [])
        4
        600001
        (λ i j. 0)
        toy_device
      ≡ some (submits toy 2 rs wss (0, toy_device)).1)
    × (length wss ≡ 2)
    × (map dma_engine wss ≡ map some cs)
    × ((m : ℕ → ℕ) (a : ℕ) → run_copies cs m a ≡ run_copy (copy 0x10004 0x1000000 600000) m a)
async_dma_copy-copies_example =
    async_dma_copy-copies toy target source [] [] 0 4 600001 (λ i j. 0) 3 toy_device source-IsWhole
      target-IsWhole (omega arith) (omega arith) (omega arith) (omega arith) (inl (omega arith))

abbrev arguments : List ℕ
arguments = 11 ∷ 22 ∷ []

abbrev code : GpuBuffer
code = sample_buffer 5 0x14000 1

abbrev used : List Block
used = (source ∷ []) ∷ (code ∷ []) ∷ []

abbrev state : ComputeState
state = launch_state arguments [] (4 ∷ []) (64 ∷ []) code 1000 0 33

launch_state-grants_example :
    (256 ≤ (Readers.g_00b848_vgprs (pgm_rsrc1 state) + 1) * 4)
    × ((Readers.g_00b848_vgprs (pgm_rsrc1 state) + 1) * 4 < 260)
    × (33 ≤ (Readers.g_00b848_sgprs (pgm_rsrc1 state) + 1) * 8)
    × ((Readers.g_00b848_sgprs (pgm_rsrc1 state) + 1) * 8 < 41)
    × (1000 ≤ Readers.g_00b84c_lds_size (pgm_rsrc2 state) * 256)
    × (Readers.g_00b84c_lds_size (pgm_rsrc2 state) * 256 < 1256)
launch_state-grants_example =
    launch_state-grants arguments [] (4 ∷ []) (64 ∷ []) code 1000 0 33 (omega arith) (omega arith)
      (omega arith)

abbrev idle_gpu : Gpu
idle_gpu = record { sh = λ a. 0; flushed = false; launches = [] }

arguments-launch_ok : launch_ok arguments (4 ∷ []) (64 ∷ []) 1000 0 33 ≡ true
unfolding launch_ok
arguments-launch_ok = refl

launch-starts_example :
    (ws : List ℕ) × (ks : List Packet) × (h : Gpu) × (f : Found) × (launch toy arguments []
        (4 ∷ [])
        (64 ∷ [])
        code
        used
        1000
        0
        33
        (λ i. 0)
        toy_device
      ≡ (let answer = toy.submit (request_of toy 0 1 (all_relocs used) ws) toy_device in
          some (if answer.0 == 0 then returned tt else thrown, answer.1)))
    × (length ws ≤ 80)
    × (parse 21 ws ≡ some ks)
    × (exec ks idle_gpu ≡ some h)
    × (h.launches ≡ f ∷ [])
    × IsLaunchOf state f
launch-starts_example =
    launch-starts arguments [] (4 ∷ []) (64 ∷ []) code 1000 0 33 toy used (λ i. 0) toy_device
      idle_gpu arguments-launch_ok ((refl, tt), ((refl, tt), tt))
