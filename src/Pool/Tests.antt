-- ===== src/Pool/Tests.antt =====
-- Tests of the pool, and the theorems on it at a pool with one hole.
use radeonsi_compute.Base.{ℕ, ◌≡◌, ◌≢◌, ◌⊎◌, refl, none, some, List, [], ◌∷◌, arith}
use radeonsi_compute.Device.{GpuBuffer}
use radeonsi_compute.Pool.{PoolNode, Pool, node, is_of, compute_pool_alloc, compute_pool_free}
use radeonsi_compute.Pool.Order.{Ordered}
use radeonsi_compute.Pool.Alloc.{Success, compute_pool_alloc-Placed}
use radeonsi_compute.Pool.Free.{
  Without, IsBehind, others, compute_pool_free-others, compute_pool_free-alloc,
}

abbrev first_node : PoolNode
first_node = record { va = 0; size = 8192; parent = none; fragment = 0 }

-- Two buffers with a hole of two pages between them.
abbrev two_buffers : Pool
two_buffers = first_node ∷ node 8192 4096 10 0 ∷ node 20480 4096 11 0 ∷ []

abbrev page : ℕ → ℕ → GpuBuffer
page alignment number = record {
  alignment = alignment;
  handle = 5;
  domain = 4;
  flags = 0;
  size = 4000;
  va = 0;
  va_size = 4096;
  fragment_number = number;
}

-- A buffer of one page goes into the hole.
into_hole :
    compute_pool_alloc two_buffers 12 (page 4096 1 ∷ [])
    ≡ some (
      first_node ∷ node 8192 4096 10 0 ∷ node 12288 4096 12 0 ∷ node 20480 4096 11 0 ∷ [],
      record (page 4096 1) { va = 12288 } ∷ [],
    )
unfolding compute_pool_alloc
into_hole = refl

-- The same buffer with an alignment of two pages goes behind all.
behind_all :
    compute_pool_alloc two_buffers 12 (page 8192 1 ∷ [])
    ≡ some (
      first_node ∷ node 8192 4096 10 0 ∷ node 20480 4096 11 0 ∷ node 24576 4096 12 0 ∷ [],
      record (page 8192 1) { va = 24576 } ∷ [],
    )
unfolding compute_pool_alloc
behind_all = refl

-- The release of a buffer that the first node belongs to writes through NULL.
first_of_buffer : compute_pool_free (node 0 8192 9 0 ∷ node 8192 4096 9 1 ∷ []) 9 ≡ none
unfolding compute_pool_free
first_of_buffer = refl

two_buffers-Ordered : Ordered two_buffers
two_buffers-Ordered = omega arith

two_buffers-some : two_buffers ≢ []
two_buffers-some = λ e. cc

two_buffers-Without : Without 12 two_buffers
unfolding is_of
two_buffers-Without = (refl, (refl, (refl, tt)))

abbrev block : List GpuBuffer
block = page 0 0 ∷ []

compute_pool_alloc-Placed_example :
    Success 0 two_buffers 12
      (page 4096 2)
      block
      (compute_pool_alloc two_buffers 12 (page 4096 2 ∷ block))
compute_pool_alloc-Placed_example =
    compute_pool_alloc-Placed two_buffers 12 (page 4096 2) block two_buffers-some
      two_buffers-Ordered refl (omega arith) (omega arith) (omega arith)

compute_pool_free-others_example :
    (((¬ IsBehind 10 two_buffers) ⊎ Without 10 two_buffers)
      × (compute_pool_free two_buffers 10 ≡ none))
    ⊎ (IsBehind 10 two_buffers
        × (¬ Without 10 two_buffers)
        × (compute_pool_free two_buffers 10 ≡ some (others two_buffers 10))
        × Without 10 (others two_buffers 10)
        × Ordered (others two_buffers 10))
compute_pool_free-others_example = compute_pool_free-others two_buffers 10 two_buffers-Ordered

compute_pool_free-alloc_example :
    (pool' : Pool) × (given : List GpuBuffer) × (compute_pool_alloc two_buffers 12
        (page 4096 2 ∷ block)
      ≡ some (pool', given))
    × (compute_pool_free pool' 12 ≡ some two_buffers)
compute_pool_free-alloc_example =
    compute_pool_free-alloc two_buffers 12 (page 4096 2) block two_buffers-some two_buffers-Ordered
      two_buffers-Without refl (omega arith) (omega arith) (omega arith)
