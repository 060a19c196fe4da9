-- ===== src/Pool/Heap/Allocating.antt =====
-- `compute_pool_alloc` on linked nodes does what it does on the list of the nodes.
use radeonsi_compute.Base.{
  ℕ, ◌%◌, ◌≤◌, ◌<◌, ◌≡◌, ◌≢◌, ◌∙◌, true, some, List, ◌∷◌, length, arith, ltb, bit_and,
}
use radeonsi_compute.Base.Bits.{bit_and_mask}
use radeonsi_compute.Device.{GpuBuffer}
use radeonsi_compute.Pool.{PoolNode, compute_pool_alloc}
use radeonsi_compute.Pool.Heap.{Heap, compute_pool_alloc_linked}
use radeonsi_compute.Pool.Heap.Links.{Cells, nodes_of, Away, Linked}
use radeonsi_compute.Pool.Heap.Appending.{NotIn, Fresh}
use radeonsi_compute.Pool.Heap.Placing.{Apart, place-Linked}

-- The first node of the pool is at `a`, and `malloc` gives the addresses `fs`, none of which holds
-- a node. For a block with an address for each fragment, and with a round for each node,
-- `compute_pool_alloc` on the nodes that are linked in memory does what it does on their list: it
-- comes back with the nodes of the new list linked both ways and with the block that the list
-- gives, and writes neither beside the nodes nor beside the new addresses.
pub compute_pool_alloc_linked-refines :
    (base : ℕ) (bo : GpuBuffer) (bs : List GpuBuffer) (a : ℕ) (n : PoolNode) (xs : Cells) (h : Heap)
    (fs : List ℕ) (fuel : ℕ)
    → bo.va_size % 4096 ≡ 0
    → 0 < bo.fragment_number
    → bo.fragment_number ≤ length (bo ∷ bs)
    → bo.fragment_number ≤ length fs
    → length xs < fuel
    → Linked h 0 ((a, n) ∷ xs)
    → Fresh fs
    → Apart ((a, n) ∷ xs) fs
    → (g : Heap) × (ys : Cells) × (cs : List GpuBuffer) × (compute_pool_alloc
          (nodes_of ((a, n) ∷ xs))
          base
          (bo ∷ bs)
        ≡ some (nodes_of ((a, n) ∷ ys), cs))
      × (compute_pool_alloc_linked fuel a base (bo ∷ bs) fs h ≡ some (g, cs))
      × Linked g 0 ((a, n) ∷ ys)
      × ((x : ℕ) → x ≢ a → Away x xs → NotIn x fs → g x ≡ h x)
unfolding compute_pool_alloc compute_pool_alloc_linked
compute_pool_alloc_linked-refines base bo bs a n xs h fs fuel pages some_fragment enough room rounds
      (there, at_a, away, l) fresh (a_fs, apart) =
    let whole : bit_and bo.va_size 4095 ≡ 0 = bit_and_mask 12 bo.va_size ∙ pages in
    let positive : ltb 0 bo.fragment_number ≡ true = ground arith in
    let (g, ys, cs, list, memory, at_a', l', away', same) =
      place-Linked base bo bs xs h a 0 n fs fuel enough room rounds there at_a away l fresh a_fs
        apart in
    (
      g,
      ys,
      cs,
      rw (whole, positive) list,
      rw (whole, positive) memory,
      (there, at_a', away' a away a_fs, l'),
      same,
    )
