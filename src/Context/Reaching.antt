-- ===== src/Context/Reaching.antt =====
-- A session with one context: the worlds that its calls reach from the new context.
use radeonsi_compute.Base.{
  ℕ, ◌+◌, ◌^◌, ◌≤◌, ◌<◌, ◌≡◌, inr, refl, sym, ap, ◌∙◌, Option, some, List, [], ◌∷◌, length, arith,
}
use mathlib.Core.Path.{subst}
use radeonsi_compute.Device.{GpuBuffer, ComputeState, Kernel}
use radeonsi_compute.Pool.{PoolNode, Pool, is_of}
use radeonsi_compute.Command.Packets.{Packet, parse}
use radeonsi_compute.Command.Gpu.{Gpu, Found, exec}
use radeonsi_compute.Command.Launch.{UserDataFits}
use radeonsi_compute.Command.Running.{IsLaunchOf}
use radeonsi_compute.Submit.{Block, compute_emit_compute_state}
use radeonsi_compute.Submit.Relocs.{IsPlaced, pool_relocs}
use radeonsi_compute.Submit.Copies.{request_of}
use radeonsi_compute.Submit.Launched.{compute_emit_compute_state-launches}
use radeonsi_compute.Buffers.{World, compute_alloc_gpu_buffer, compute_free_gpu_buffer}
use radeonsi_compute.Buffers.Fragments.{Grants}
use radeonsi_compute.Buffers.State.{IsNode, IsRooted, IsWorld, IsNode-IsPlaced, All-weaken}
use radeonsi_compute.Buffers.Allocating.{HasRoom}
use radeonsi_compute.Buffers.Allocated.{compute_alloc_gpu_buffer-returns}
use radeonsi_compute.Buffers.Releasing.{compute_free_gpu_buffer-IsWorld}
use radeonsi_compute.Context.{Held, nothing_held, reserved_node, compute_free_context}
use radeonsi_compute.Context.Naming.{NamesAll, IsWorld-NamesAll}
use radeonsi_compute.Context.Freeing.{compute_free_context-frees}

-- The world of a new context.
abbrev pub new_world : {D : Type 0} → ℕ → D → World D
new_world reserved_mem d = record {
  pool = reserved_node reserved_mem ∷ [];
  blocks = λ base. [];
  device = d;
}

-- The driver's reserved range and the page behind it lie in the address space.
new_world-IsWorld :
    {D : Type 0} (reserved_mem : ℕ) (d : D)
    → reserved_mem + 4096 < 2 ^ 64
    → IsWorld (new_world reserved_mem d)
unfolding reserved_node is_of
new_world-IsWorld reserved_mem d small = record {
  ordered = (omega arith, omega arith);
  rooted = (refl, omega arith, tt);
  tracked = λ base i l. absurd (no_fragment i l);
  led = λ base. inr (refl, tt);
}
  where
    no_fragment : (i : ℕ) → i < 0 → ⊥
    no_fragment i l = omega arith

module _ {D : Type 0} (kernel : Kernel D) where
  -- A call that allocates, where `calloc` takes an address without a block and the kernel grants
  -- the fragments, whether it maps them or not; a call that frees; and any other call, which
  -- changes neither the pool nor a block.
  pub data Step : World D → World D → Type 0 where
    alloc :
        {w w' : World D} (base size domain alignment : ℕ) (answer : Option ℕ)
        → w.blocks base ≡ []
        → Grants kernel size domain alignment
        → 0 < size
        → size < 2 ^ 57
        → HasRoom w.pool size
        → compute_alloc_gpu_buffer kernel base size domain alignment w ≡ some (answer, w')
        → Step w w'
    free :
        {w w' : World D} (base : ℕ) (bo : GpuBuffer) (bs : Block)
        → w.blocks base ≡ bo ∷ bs
        → compute_free_gpu_buffer kernel base w ≡ some w'
        → Step w w'
    run : {w : World D} (d : D) → Step w (record w { device = d })

  pub data Reach (start : World D) : World D → Type 0 where
    here : Reach start start
    next : {v w : World D} → Reach start v → Step v w → Reach start w

  some_world : {A : Type 0} {x y : A} → some x ≡ some y → x ≡ y
  some_world e = cc

  Step-IsWorld : {v w : World D} → Step v w → IsWorld v → IsWorld w
  Step-IsWorld {v} (alloc base size domain alignment answer fresh grants pos wide room e) h =
      let (b, w1, returns, h1, _) =
        compute_alloc_gpu_buffer-returns kernel v base size domain alignment h fresh grants pos wide
          room in
      subst IsWorld (ap (λ r. r.1) (some_world (sym returns ∙ e))) h1
  Step-IsWorld {v} (free base bo bs there e) h =
      let (w1, freed, _, _, _, h1) = compute_free_gpu_buffer-IsWorld kernel v base bo bs h there in
      subst IsWorld (some_world (sym freed ∙ e)) h1
  Step-IsWorld (run d) h = record {
    ordered = h.ordered;
    rooted = h.rooted;
    tracked = h.tracked;
    led = h.led;
  }

  -- Every world that a session reaches from a new context, whose reserved range and one page lie
  -- in 64 bits, is in order: no two nodes overlap, each node behind the first has the address and
  -- the size of a fragment of a whole block, and each fragment of each block has its node.
  pub Reach-IsWorld :
      (reserved_mem : ℕ) (d : D) (w : World D)
      → reserved_mem + 4096 < 2 ^ 64
      → Reach (new_world reserved_mem d) w
      → IsWorld w
  Reach-IsWorld reserved_mem d w small here = new_world-IsWorld reserved_mem d small
  Reach-IsWorld reserved_mem d w small (next {v} r st) =
      Step-IsWorld st (Reach-IsWorld reserved_mem d v small r)

  -- A session can be ended from every world that it reaches: with a round for each node of the
  -- pool, the release of the context returns, no block and no node is left, and nothing is held.
  pub Reach-frees :
      (reserved_mem fuel : ℕ) (d : D) (w : World D) (h : Held)
      → reserved_mem + 4096 < 2 ^ 64
      → Reach (new_world reserved_mem d) w
      → length w.pool ≤ fuel
      → (w' : World D) × (compute_free_context kernel fuel w h ≡ some (w', nothing_held))
        × (w'.pool ≡ [])
        × ((base : ℕ) → w'.blocks base ≡ [])
  Reach-frees reserved_mem fuel d w h small r enough =
      compute_free_context-frees kernel fuel w h (Reach-IsWorld reserved_mem d w small r) enough

  -- One request goes out, which names every fragment of every block, and the processor reads it as
  -- packets that start one launch, that of the state.
  abbrev pub LaunchesOnce : (ℕ → Block) → ComputeState → (ℕ → ℕ) → D → Gpu → Pool → Type 0
  LaunchesOnce blocks s buf d g pool =
      (first : PoolNode) × (nodes : Pool) × (pool ≡ first ∷ nodes)
      × NamesAll blocks (pool_relocs blocks nodes)
      × (ws : List ℕ) × (ks : List Packet) × (h : Gpu) × (f : Found) × (compute_emit_compute_state
            kernel blocks pool s buf d
          ≡ some (kernel.submit (request_of kernel s.id 1 (pool_relocs blocks nodes) ws) d))
      × (length ws ≤ 80)
      × (parse 21 ws ≡ some ks)
      × (exec ks g ≡ some h)
      × (h.launches ≡ f ∷ g.launches)
      × IsLaunchOf s f

  -- In every world that a session reaches, a state whose user data fits its array is launched: one
  -- request goes out, whose table holds the relocations of all fragments of every block, those of a
  -- block side by side, and the processor starts exactly one launch, with the program, the
  -- dimensions, the settings and the user data of the state.
  pub Reach-launches :
      (reserved_mem : ℕ) (d : D) (w : World D) (s : ComputeState) (buf : ℕ → ℕ) (g : Gpu)
      → reserved_mem + 4096 < 2 ^ 64
      → Reach (new_world reserved_mem d) w
      → UserDataFits s
      → LaunchesOnce w.blocks s buf w.device g w.pool
  Reach-launches reserved_mem d w s buf g small r fits =
      of_pool w.pool refl (Reach-IsWorld reserved_mem d w small r).rooted
    where
      of_pool :
          (pool : Pool)
          → w.pool ≡ pool
          → IsRooted w.blocks pool
          → LaunchesOnce w.blocks s buf w.device g pool
      of_pool [] e rooted = absurd rooted
      of_pool (first ∷ nodes) e (_, _, hs) =
          let (ws, ks, h, f, request, short, read, runs, launched, is) =
            compute_emit_compute_state-launches kernel w.blocks first nodes s buf w.device g
              (All-weaken (IsNode w.blocks) (IsPlaced w.blocks) nodes (IsNode-IsPlaced w.blocks) hs)
              fits in
          let named = IsWorld-NamesAll w first nodes e (Reach-IsWorld reserved_mem d w small r) in
          (first, nodes, refl, named, ws, ks, h, f, request, short, read, runs, launched, is)
