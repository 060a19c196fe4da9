-- ===== src/Pool/Heap.antt =====
-- computesi.c: `compute_pool_alloc` and `compute_pool_free` on the nodes in memory, which are
-- linked both ways. A node is at an address, of which 0 is NULL; `none` is a read or a write
-- through NULL or of memory that is not there, or an assertion that fails.
pub mod Links
pub mod Freeing
pub mod Appending
pub mod Placing
pub mod Allocating
pub mod Tests
use radeonsi_compute.Base.{
  ℕ, zero, suc, ◌+◌, ◌-◌, ◌*◌, ◌%◌, ◌^◌, Bool, true, false, ◌&&◌, not, ltb, leb, ◌==◌,
  if◌then◌else◌, Option, none, some, List, [], ◌∷◌, bit_and,
}
use mathlib.Core.Option
use radeonsi_compute.Device.{GpuBuffer}
use radeonsi_compute.Pool.{PoolNode, add64, node, hole_fits, is_of}

-- `struct pool_node` with its links.
pub record HeapNode : Type 0 where
  pub info : PoolNode
  pub prev : ℕ
  pub next : ℕ

abbrev pub Heap : Type 0
Heap = ℕ → Option HeapNode

abbrev pub update : Heap → ℕ → Option HeapNode → Heap
update h a c x = if a == x then c else h x

-- `a->next = v` and `a->prev = v`.
unfoldable pub set_next : ℕ → ℕ → Heap → Option Heap
set_next a v h =
    if a == 0 then none else Option.map (λ c. update h a (some (record c { next = v }))) (h a)

unfoldable pub set_prev : ℕ → ℕ → Heap → Option Heap
set_prev a v h =
    if a == 0 then none else Option.map (λ c. update h a (some (record c { prev = v }))) (h a)

-- `if (n->next) n->next->prev = n->prev; free(n);`
unfoldable pub close_gap : ℕ → HeapNode → Heap → Option Heap
unfolding set_prev
close_gap n c h =
    let closed = Option.map (λ (g : Heap). update g n none) (set_prev c.next c.prev h) in
    if c.next == 0 then some (update h n none) else closed

unfoldable pub close_read : ℕ → Option HeapNode → Heap → Option Heap
unfolding close_gap
close_read n none h = none
close_read n (some c) h = close_gap n c h

-- `n->next` and `n->prev` are read again after the write to the node before.
unfoldable pub after_next : ℕ → Option Heap → Option Heap
unfolding close_read
after_next n none = none
after_next n (some h) = close_read n (h n) h

-- The node `n`, which holds `c`, is taken out of its list and given back.
unfoldable pub remove_node : ℕ → HeapNode → Heap → Option Heap
unfolding set_next after_next
remove_node n c h = after_next n (set_next c.prev c.next h)

-- The loop of `compute_pool_free` from the node `n` on, with fuel for its rounds: the heap
-- behind it, and how many nodes were found.
unfoldable pub free_loop : ℕ → ℕ → ℕ → ℕ → Heap → Option (Heap × ℕ)
unfolding is_of remove_node
free_loop zero n base found h = none
free_loop (suc fuel) n base found h =
    let go = free_loop fuel in
    if n == 0 then some (h, found) else elim (h n) [
      | none ↦ none
      | some c ↦
          if is_of base c.info
          then elim (remove_node n c h) [ none ↦ none | some g ↦ go c.next base (found + 1) g ]
          else go c.next base found h
    ]

-- The assertion behind the loop.
unfoldable pub found_some : Option (Heap × ℕ) → Option Heap
found_some none = none
found_some (some (h, found)) = if found == 0 then none else some h

unfoldable pub compute_pool_free_linked : ℕ → ℕ → ℕ → Heap → Option Heap
unfolding free_loop found_some
compute_pool_free_linked fuel vm_pool base h = found_some (free_loop fuel vm_pool base 0 h)

-- The inner loop at the end of the pool, behind the node `n`, with the addresses that `malloc`
-- gives: the node `f` is written, with no node behind it, and `n->next` leads to it.
unfoldable pub append_linked :
    ℕ → ℕ → ℕ → ℕ → List GpuBuffer → List ℕ → Heap → Option (Heap × List GpuBuffer)
unfolding set_next
append_linked n base i zero bs fresh h = some (h, bs)
append_linked n base i (suc left) [] fresh h = none
append_linked n base i (suc left) (b ∷ bs) [] h = none
append_linked n base i (suc left) (b ∷ bs) (f ∷ fs) h = elim (h n) [
  | none ↦ none
  | some c ↦
      let m : PoolNode = node (add64 c.info.va c.info.size) b.va_size base i in
      let go = append_linked f base (i + 1) left bs fs in
      elim (set_next n f (update h f (some (record { info = m; prev = n; next = 0 })))) [
        | none ↦ none
        | some g ↦ Option.map (λ (g', cs). (g', record b { va = m.va } ∷ cs)) (go g)
      ]
]

-- The new node in the hole behind the node `n`, which holds `c`.
unfoldable pub insert_linked :
    ℕ → HeapNode → ℕ → GpuBuffer → List GpuBuffer → List ℕ → Heap → Option (Heap × List GpuBuffer)
unfolding set_next set_prev
insert_linked n c base bo bs [] h = none
insert_linked n c base bo bs (f ∷ fs) h =
    let m : PoolNode = node (add64 c.info.va c.info.size) bo.va_size base 0 in
    elim (set_prev c.next f (update h f (some (record { info = m; prev = n; next = c.next })))) [
      | none ↦ none
      | some g ↦ Option.map (λ g'. (g', record bo { va = m.va } ∷ bs)) (set_next n f g)
    ]

-- A round of the outer loop at the node `n`, which holds `c`; `go` are the rounds behind it.
unfoldable pub place_at :
    Option (Heap × List GpuBuffer)
    → ℕ
    → HeapNode
    → ℕ
    → GpuBuffer
    → List GpuBuffer
    → List ℕ
    → Heap
    → Option (Heap × List GpuBuffer)
unfolding append_linked insert_linked hole_fits
place_at go n c base bo bs fresh h =
    if c.next == 0
    then append_linked n base 0 bo.fragment_number (bo ∷ bs) fresh h
    else if bo.fragment_number == 1
    then elim (h c.next) [
      | none ↦ none
      | some d ↦ if hole_fits c.info d.info bo then insert_linked n c base bo bs fresh h else go
    ]
    else go

-- The outer loop from the node `n` on, with fuel for its rounds; NULL fails the last assertion.
unfoldable pub place_linked :
    ℕ → ℕ → ℕ → GpuBuffer → List GpuBuffer → List ℕ → Heap → Option (Heap × List GpuBuffer)
unfolding place_at
place_linked zero n base bo bs fresh h = none
place_linked (suc fuel) n base bo bs fresh h =
    let go = place_linked fuel in
    if n == 0 then none else elim (h n) [
      | none ↦ none
      | some c ↦ place_at (go c.next base bo bs fresh h) n c base bo bs fresh h
    ]

unfoldable pub compute_pool_alloc_linked :
    ℕ → ℕ → ℕ → List GpuBuffer → List ℕ → Heap → Option (Heap × List GpuBuffer)
unfolding place_linked
compute_pool_alloc_linked fuel vm_pool base [] fresh h = none
compute_pool_alloc_linked fuel vm_pool base (bo ∷ bs) fresh h =
    if (bit_and bo.va_size 4095 == 0) && ltb 0 bo.fragment_number
    then place_linked fuel vm_pool base bo bs fresh h
    else none
