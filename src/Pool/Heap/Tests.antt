-- ===== src/Pool/Heap/Tests.antt =====
-- Tests of the pool on linked nodes, and the theorems on it at two buffers with a hole.
use radeonsi_compute.Base.{
  ℕ, ◌≡◌, ◌≢◌, ◌⊎◌, refl, none, some, List, [], ◌∷◌, arith, ◌==◌, if◌then◌else◌, Option,
}
use mathlib.Core.Option
use radeonsi_compute.Device.{GpuBuffer}
use radeonsi_compute.Pool.{PoolNode, node, compute_pool_alloc, compute_pool_free}
use radeonsi_compute.Pool.Heap.{Heap, HeapNode, compute_pool_alloc_linked, compute_pool_free_linked}
use radeonsi_compute.Pool.Heap.Links.{Cells, nodes_of, Away, Linked, linked_node}
use radeonsi_compute.Pool.Heap.Appending.{NotIn, Fresh}
use radeonsi_compute.Pool.Heap.Placing.{Apart}
use radeonsi_compute.Pool.Heap.Freeing.{kept, compute_pool_free_linked-refines}
use radeonsi_compute.Pool.Heap.Allocating.{compute_pool_alloc_linked-refines}

abbrev first_node : PoolNode
first_node = record { va = 0; size = 8192; parent = none; fragment = 0 }

abbrev page : ℕ → GpuBuffer
page number = record {
  alignment = 4096;
  handle = 5;
  domain = 4;
  flags = 0;
  size = 4000;
  va = 0;
  va_size = 4096;
  fragment_number = number;
}

-- The nodes behind the first one, which is at 64.
abbrev behind : Cells
behind = (96, node 8192 4096 10 0) ∷ (32, node 20480 4096 11 0) ∷ []

abbrev memory : Heap
memory x =
    if x == 64
    then some (linked_node first_node 0 96)
    else if x == 96
    then some (linked_node (node 8192 4096 10 0) 64 32)
    else if x == 32
    then some (linked_node (node 20480 4096 11 0) 96 0)
    else none

memory-Linked : Linked memory 0 ((64, first_node) ∷ behind)
memory-Linked = (
  omega arith,
  refl,
  (omega arith, (omega arith, tt)),
  (omega arith, refl, (omega arith, tt), (omega arith, refl, tt, tt)),
)

-- A buffer of one page goes into the hole.
abbrev nodes_at : Heap × List GpuBuffer → List (Option HeapNode)
nodes_at (g, cs) = g 64 ∷ g 96 ∷ g 128 ∷ g 32 ∷ []

in_memory :
    Option.map nodes_at (compute_pool_alloc_linked 3 64 12 (page 1 ∷ []) (128 ∷ []) memory)
    ≡ some (
        some (linked_node first_node 0 96)
        ∷ some (linked_node (node 8192 4096 10 0) 64 128)
        ∷ some (linked_node (node 12288 4096 12 0) 96 32)
        ∷ some (linked_node (node 20480 4096 11 0) 128 0)
        ∷ [])
unfolding compute_pool_alloc_linked
in_memory = refl

abbrev addresses : List ℕ
addresses = 128 ∷ 160 ∷ []

addresses-Fresh : Fresh addresses
addresses-Fresh = (omega arith, (omega arith, tt), (omega arith, tt, tt))

addresses-Apart : Apart ((64, first_node) ∷ behind) addresses
addresses-Apart = (
  (omega arith, (omega arith, tt)),
  ((omega arith, (omega arith, tt)), ((omega arith, (omega arith, tt)), tt)),
)

compute_pool_alloc_linked-refines_example :
    (g : Heap) × (ys : Cells) × (cs : List GpuBuffer) × (compute_pool_alloc
        (nodes_of ((64, first_node) ∷ behind))
        12
        (page 2 ∷ page 0 ∷ [])
      ≡ some (nodes_of ((64, first_node) ∷ ys), cs))
    × (compute_pool_alloc_linked 3 64 12 (page 2 ∷ page 0 ∷ []) addresses memory ≡ some (g, cs))
    × Linked g 0 ((64, first_node) ∷ ys)
    × ((x : ℕ) → x ≢ 64 → Away x behind → NotIn x addresses → g x ≡ memory x)
compute_pool_alloc_linked-refines_example =
    compute_pool_alloc_linked-refines 12 (page 2) (page 0 ∷ []) 64 first_node behind memory
      addresses 3 refl (omega arith) (omega arith) (omega arith) (omega arith) memory-Linked
      addresses-Fresh addresses-Apart

compute_pool_free_linked-refines_example :
    ((compute_pool_free (nodes_of ((64, first_node) ∷ behind)) 10 ≡ none)
      × (compute_pool_free_linked 4 64 10 memory ≡ none))
    ⊎ ((g : Heap) × (compute_pool_free (nodes_of ((64, first_node) ∷ behind)) 10
          ≡ some (nodes_of ((64, first_node) ∷ kept 10 behind)))
        × (compute_pool_free_linked 4 64 10 memory ≡ some g)
        × Linked g 0 ((64, first_node) ∷ kept 10 behind)
        × ((x : ℕ) → x ≢ 64 → Away x behind → g x ≡ memory x))
compute_pool_free_linked-refines_example =
    compute_pool_free_linked-refines 10 64 first_node behind memory 4 memory-Linked (omega arith)
