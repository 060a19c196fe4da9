-- ===== src/Pool.antt =====
-- computesi.c: `compute_pool_alloc` and `compute_pool_free`. The pool is the list of the nodes in
-- the order of their links, from `vm_pool` on; a buffer is the block of its fragments, and a
-- pointer to a fragment is the address of the block with the index in it.
pub mod Order
pub mod Alloc
pub mod Free
pub mod Heap
pub mod Tests
use radeonsi_compute.Base.{
  ℕ, zero, suc, ◌+◌, ◌-◌, ◌*◌, ◌%◌, ◌^◌, Bool, true, false, ◌&&◌, not, ltb, leb, ◌==◌,
  if◌then◌else◌, Option, none, some, List, [], ◌∷◌, bit_and,
}
use mathlib.Core.Option
use radeonsi_compute.Device.{GpuBuffer}

-- `struct pool_node`. `parent` is `parent_bo`; that of the first node is never written.
pub record PoolNode : Type 0 where
  pub va : ℕ
  pub size : ℕ
  pub parent : Option ℕ
  pub fragment : ℕ

abbrev pub Pool : Type 0
Pool = List PoolNode

-- `uint64_t` sums and differences.
abbrev pub add64 : ℕ → ℕ → ℕ
add64 a b = (a + b) % 2 ^ 64

abbrev pub sub64 : ℕ → ℕ → ℕ
sub64 a b = (a + 2 ^ 64 - b) % 2 ^ 64

abbrev pub node : ℕ → ℕ → ℕ → ℕ → PoolNode
node va size base i = record { va = va; size = size; parent = some base; fragment = i }

-- The inner loop at the end of the pool: one node behind the other for each fragment, from
-- fragment `i` on, with `left` rounds to go; `none` is a read behind the block.
unfoldable pub append_fragments :
    PoolNode → ℕ → ℕ → ℕ → List GpuBuffer → Option (Pool × List GpuBuffer)
append_fragments n base i zero bs = some ([], bs)
append_fragments n base i (suc left) [] = none
append_fragments n base i (suc left) (b ∷ bs) =
    let m : PoolNode = node (add64 n.va n.size) b.va_size base i in
    Option.map (λ (ns, cs). (m ∷ ns, record b { va = m.va } ∷ cs))
      (append_fragments m base (i + 1) left bs)

-- `(int64_t)n->next->va - n->va - n->size > bo->va_size && bo->alignment <= 4096`; the operands
-- are unsigned.
unfoldable pub hole_fits : PoolNode → PoolNode → GpuBuffer → Bool
hole_fits n next bo = ltb bo.va_size (sub64 (sub64 next.va n.va) n.size) && leb bo.alignment 4096

-- A buffer of one fragment in the hole behind `n`.
abbrev pub in_hole : PoolNode → ℕ → GpuBuffer → List GpuBuffer → Pool → Pool × List GpuBuffer
in_hole n base bo bs rest = (
  n ∷ node (add64 n.va n.size) bo.va_size base 0 ∷ rest,
  record bo { va = add64 n.va n.size } ∷ bs,
)

-- The outer loop, for the buffer `bo ∷ bs` at `base`; `none` is the assertion behind the loop.
unfoldable pub place : Pool → ℕ → GpuBuffer → List GpuBuffer → Option (Pool × List GpuBuffer)
unfolding append_fragments hole_fits
place [] base bo bs = none
place (n ∷ []) base bo bs =
    Option.map (λ (ns, cs). (n ∷ ns, cs)) (append_fragments n base 0 bo.fragment_number (bo ∷ bs))
place (n ∷ m ∷ rest) base bo bs =
    let later = Option.map (λ (ns, cs). (n ∷ ns, cs)) (place (m ∷ rest) base bo bs) in
    if (bo.fragment_number == 1) && hole_fits n m bo
    then some (in_hole n base bo bs (m ∷ rest))
    else later

-- The pool and the block once the buffer has its addresses; `none` is an assertion that fails.
unfoldable pub compute_pool_alloc : Pool → ℕ → List GpuBuffer → Option (Pool × List GpuBuffer)
unfolding place
compute_pool_alloc pool base [] = none
compute_pool_alloc pool base (bo ∷ bs) =
    if (bit_and bo.va_size 4095 == 0) && ltb 0 bo.fragment_number
    then place pool base bo bs
    else none

unfoldable pub is_of : ℕ → PoolNode → Bool
is_of base n = elim n.parent [ none ↦ false | some p ↦ p == base ]

-- The loop of `compute_pool_free` behind the first node: the nodes that stay, and how many were
-- found.
unfoldable pub unlink : Pool → ℕ → Pool × ℕ
unfolding is_of
unlink [] base = ([], 0)
unlink (n ∷ rest) base =
    let (kept, found) = unlink rest base in
    if is_of base n then (kept, found + 1) else (n ∷ kept, found)

-- `none` is the assertion behind the loop, or a write through the NULL in front of the first node.
unfoldable pub compute_pool_free : Pool → ℕ → Option Pool
unfolding unlink
compute_pool_free [] base = none
compute_pool_free (n ∷ rest) base =
    let (kept, found) = unlink rest base in
    if is_of base n then none else if found == 0 then none else some (n ∷ kept)
