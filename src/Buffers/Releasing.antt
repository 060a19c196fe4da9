-- ===== src/Buffers/Releasing.antt =====
-- A release takes a block and its nodes away and keeps the invariant of the world.
use radeonsi_compute.Base.{
  ==→eq, ℕ, ◌<◌, ◌≡◌, ◌⊎◌, inl, inr, refl, sym, ap, ◌∙◌, true, false, ◌==◌, if◌then◌else◌, Option,
  none, some, [], ◌∷◌, All, get_elem?, length, arith, Bool-cases,
}
use mathlib.Core.Path.{subst}
use radeonsi_compute.Device.{GpuBuffer, Kernel}
use radeonsi_compute.Pool.{PoolNode, Pool, is_of}
use radeonsi_compute.Pool.Order.{Ordered, Chain, end_of}
use radeonsi_compute.Pool.Free.{
  others, Without-others, others-Chain, IsBehind, compute_pool_free-found,
}
use radeonsi_compute.Submit.{Block}
use radeonsi_compute.Buffers.{
  World, set_block, release_va, free_block, compute_vm_unmap, compute_free_gpu_buffer,
}
use radeonsi_compute.Buffers.Leading.{IsLed, Without-IsLed, others-IsLed}
use radeonsi_compute.Buffers.State.{
  HasRange, IsRange, IsNode, IsRooted, Tracks, IsWorld, Tracks-Without, is_of-some, is_of-none,
}

IsRange-others :
    (blocks : ℕ → Block) (base : ℕ) (n : PoolNode) (o : Option ℕ)
    → n.parent ≡ o
    → is_of base n ≡ false
    → IsRange blocks o n.va n.size n.fragment
    → IsRange (set_block base [] blocks) o n.va n.size n.fragment
IsRange-others blocks base n none e other h = absurd h
IsRange-others blocks base n (some b) e other h =
    let apart : (b == base) ≡ false = sym (is_of-some base b n e) ∙ other in
    let apart' : (base == b) ≡ false = ground arith in rw apart' h

others-IsNode :
    (blocks : ℕ → Block) (base : ℕ) (ns : Pool)
    → All (IsNode blocks) ns
    → All (IsNode (set_block base [] blocks)) (others ns base)
others-IsNode blocks base [] hs = tt
others-IsNode blocks base (n ∷ ns) (h, hs) = elim (Bool-cases (is_of base n)) [
  | inl mine ↦ rw mine (others-IsNode blocks base ns hs)
  | inr other ↦
      subst (All (IsNode (set_block base [] blocks)))
        (ap (λ t. if t then others ns base else n ∷ others ns base) (sym other))
        (IsRange-others blocks base n n.parent refl other h, others-IsNode blocks base ns hs)
]

others-IsRooted :
    (blocks : ℕ → Block) (base : ℕ) (pool : Pool)
    → IsRooted blocks pool
    → IsRooted (set_block base [] blocks) (others pool base)
others-IsRooted blocks base [] r = absurd r
others-IsRooted blocks base (n ∷ ns) (p, s, hs) =
    subst (IsRooted (set_block base [] blocks))
      (ap (λ t. if t then others ns base else n ∷ others ns base) (sym (is_of-none base n p)))
      (p, s, others-IsNode blocks base ns hs)

others-Tracks :
    (base a i : ℕ) (pool : Pool)
    → (base == a) ≡ false
    → Tracks a i pool
    → Tracks a i (others pool base)
others-Tracks base a i [] apart t = absurd t
others-Tracks base a i (n ∷ ns) apart t = elim (Bool-cases (is_of base n)) [
  | inl mine ↦ rw mine (others-Tracks base a i ns apart (not_first mine t))
  | inr other ↦
      subst (Tracks a i) (ap (λ b. if b then others ns base else n ∷ others ns base) (sym other))
        (stays (others-Tracks base a i ns apart) t)
]
  where
    not_first :
        is_of base n ≡ true
        → ((n.parent ≡ some a) × (n.fragment ≡ i)) ⊎ Tracks a i ns
        → Tracks a i ns
    not_first mine (inl (p, _)) =
        let other : is_of base n ≡ (a == base) = is_of-some base a n p in absurd (ground arith)
    not_first mine (inr t) = t

    stays :
        (Tracks a i ns → Tracks a i (others ns base))
        → ((n.parent ≡ some a) × (n.fragment ≡ i)) ⊎ Tracks a i ns
        → Tracks a i (n ∷ others ns base)
    stays later (inl h) = inl h
    stays later (inr t) = inr (later t)

pub others-IsWorld :
    {D : Type 0} (w : World D) (d : D) (base : ℕ)
    → IsWorld w
    → IsWorld
        (record { pool = others w.pool base; blocks = set_block base [] w.blocks; device = d })
others-IsWorld w d base h = record {
  ordered = others-Chain 0 w.pool base h.ordered;
  rooted = others-IsRooted w.blocks base w.pool h.rooted;
  tracked = λ a i l. elim (Bool-cases (base == a)) [
    | inl same ↦ absurd (none_in i (rw same at l))
    | inr other ↦ others-Tracks base a i w.pool other (h.tracked a i (rw other at l))
  ];
  led = λ a. elim (Bool-cases (base == a)) [
    | inl same ↦
        subst (λ b. IsLed b (others w.pool base)) (==→eq _ _ same)
          (Without-IsLed base (others w.pool base) (Without-others w.pool base))
    | inr other ↦ others-IsLed base a w.pool other (h.led a)
  ];
}
  where
    none_in : (i : ℕ) → i < 0 → ⊥
    none_in i l = omega arith

-- The address of a block that is there is not 0.
tracked_va :
    (blocks : ℕ → Block) (base a : ℕ) (bo : GpuBuffer) (bs : Block) (ns : Pool)
    → blocks base ≡ bo ∷ bs
    → 0 < a
    → Chain a ns
    → All (IsNode blocks) ns
    → Tracks base 0 ns
    → 0 < bo.va
tracked_va blocks base a bo bs [] e pos c hs t = absurd t
tracked_va blocks base a bo bs (n ∷ ns) e pos (c, cs) (h, hs) (inr t) =
    tracked_va blocks base (end_of n) bo bs ns e (omega arith) cs hs t
tracked_va blocks base a bo bs (n ∷ ns) e pos (c, cs) (h, hs) (inl (p, f)) =
    let r : IsRange blocks (some base) n.va n.size n.fragment =
      subst (λ o. IsRange blocks o n.va n.size n.fragment) p h in
    let at : HasRange (get_elem? (bo ∷ bs) 0) n.va n.size =
      subst (λ b. HasRange (get_elem? b 0) n.va n.size) e
        (subst (λ i. HasRange (get_elem? (blocks base) i) n.va n.size) f r.1) in
    omega (arith, at.0)

pool_va :
    (blocks : ℕ → Block) (base : ℕ) (bo : GpuBuffer) (bs : Block) (pool : Pool)
    → blocks base ≡ bo ∷ bs
    → Ordered pool
    → IsRooted blocks pool
    → Tracks base 0 pool
    → 0 < bo.va
pool_va blocks base bo bs [] e c r t = absurd t
pool_va blocks base bo bs (n ∷ ns) e c (p, s, hs) (inl (q, _)) =
    let none_some : ◌≡◌ {A = Option ℕ} none (some base) = sym p ∙ q in cc
pool_va blocks base bo bs (n ∷ ns) e (c, cs) (p, s, hs) (inr t) =
    tracked_va blocks base (end_of n) bo bs ns e (omega arith) cs hs t

-- What is there is tracked.
pub IsWorld-Tracks :
    {D : Type 0} (w : World D) (base : ℕ) (bo : GpuBuffer) (bs : Block)
    → IsWorld w
    → w.blocks base ≡ bo ∷ bs
    → Tracks base 0 w.pool
IsWorld-Tracks w base bo bs h e = h.tracked base 0 (omega (arith, ap length e))

IsRooted-IsBehind :
    (blocks : ℕ → Block) (base : ℕ) (pool : Pool) → IsRooted blocks pool → IsBehind base pool
IsRooted-IsBehind blocks base [] r = absurd r
IsRooted-IsBehind blocks base (n ∷ ns) (p, _, _) = is_of-none base n p

module _ {D : Type 0} (kernel : Kernel D) where
  release_va-others :
      (w : World D) (base : ℕ) (bo : GpuBuffer) (bs : Block)
      → IsWorld w
      → w.blocks base ≡ bo ∷ bs
      → release_va kernel base bo w ≡ some (others w.pool base, w.device)
  unfolding release_va compute_vm_unmap
  release_va-others w base bo bs h e =
      let t = IsWorld-Tracks w base bo bs h e in
      let placed : (bo.va == 0) ≡ false =
        ground (arith, pool_va w.blocks base bo bs w.pool e h.ordered h.rooted t) in
      let freed =
        compute_pool_free-found w.pool base (IsRooted-IsBehind w.blocks base w.pool h.rooted)
          (Tracks-Without base 0 w.pool t) in
      rw (placed, freed)

  -- In a world in order, the release of a block that is there succeeds: its nodes leave the pool,
  -- the block is gone, the handle of its first fragment is closed, everything else stays, and the
  -- world is in order again.
  pub compute_free_gpu_buffer-IsWorld :
      (w : World D) (base : ℕ) (bo : GpuBuffer) (bs : Block)
      → IsWorld w
      → w.blocks base ≡ bo ∷ bs
      → (w' : World D) × (compute_free_gpu_buffer kernel base w ≡ some w')
        × (w'.pool ≡ others w.pool base)
        × (w'.blocks ≡ set_block base [] w.blocks)
        × (w'.device ≡ kernel.gem_close bo.handle w.device)
        × IsWorld w'
  unfolding compute_free_gpu_buffer free_block
  compute_free_gpu_buffer-IsWorld w base bo bs h e = (
    record {
      pool = others w.pool base;
      blocks = set_block base [] w.blocks;
      device = kernel.gem_close bo.handle w.device;
    },
    ap (free_block kernel base w) e
        ∙ ap
            (λ o. elim o [
              | none ↦ none
              | some (pool, d) ↦ some (record {
                pool = pool;
                blocks = set_block base [] w.blocks;
                device = kernel.gem_close bo.handle d;
              })
            ])
            (release_va-others w base bo bs h e),
    refl,
    refl,
    refl,
    others-IsWorld w (kernel.gem_close bo.handle w.device) base h,
  )
