-- ===== src/Pool/Order.antt =====
-- The order of a pool: every node ends before the next one begins, in the 64-bit address space.
use radeonsi_compute.Base.{
  ℕ, zero, suc, ◌+◌, ◌-◌, ◌^◌, ◌≤◌, ◌<◌, ◌≡◌, refl, ap, true, some, List, [], ◌∷◌, length, arith,
}
use mathlib.Core.Option
use radeonsi_compute.Device.{GpuBuffer}
use radeonsi_compute.Pool.{PoolNode, Pool, node, add64, sub64, append_fragments, hole_fits}

abbrev pub end_of : PoolNode → ℕ
end_of n = n.va + n.size

-- From address `a` on the nodes follow one another without overlap.
abbrev pub Chain : ℕ → Pool → Type 0
Chain a [] = a < 2 ^ 64
Chain a (n ∷ ns) = (a ≤ n.va) × Chain (end_of n) ns

abbrev pub Ordered : Pool → Type 0
Ordered = Chain 0

-- Where the last node ends.
abbrev pub pool_end : ℕ → Pool → ℕ
pool_end a [] = a
pool_end a (n ∷ ns) = pool_end (end_of n) ns

-- The addresses that the first `k` fragments take up.
abbrev pub span : ℕ → List GpuBuffer → ℕ
span zero bs = 0
span (suc k) [] = 0
span (suc k) (b ∷ bs) = b.va_size + span k bs

-- What is meant: the fragments lie side by side from address `a` on.
abbrev pub fragment_nodes : ℕ → ℕ → ℕ → ℕ → List GpuBuffer → Pool
fragment_nodes a base i zero bs = []
fragment_nodes a base i (suc k) [] = []
fragment_nodes a base i (suc k) (b ∷ bs) =
    node a b.va_size base i ∷ fragment_nodes (a + b.va_size) base (i + 1) k bs

abbrev pub addressed : ℕ → ℕ → List GpuBuffer → List GpuBuffer
addressed a zero bs = bs
addressed a (suc k) [] = []
addressed a (suc k) (b ∷ bs) = record b { va = a } ∷ addressed (a + b.va_size) k bs

pub Chain-lt : (a : ℕ) (ns : Pool) → Chain a ns → a < 2 ^ 64
Chain-lt a [] h = h
Chain-lt a (n ∷ ns) (h, hs) = omega (arith, Chain-lt (end_of n) ns hs)

pub append_fragments-eq :
    (n : PoolNode) (base i k : ℕ) (bs : List GpuBuffer)
    → k ≤ length bs
    → end_of n + span k bs < 2 ^ 64
    → append_fragments n base i k bs
      ≡ some (fragment_nodes (end_of n) base i k bs, addressed (end_of n) k bs)
unfolding append_fragments
append_fragments-eq n base i zero bs h room = refl
append_fragments-eq n base i (suc k) [] h room = absurd (omega arith)
append_fragments-eq n base i (suc k) (b ∷ bs) h room =
    let no_wrap : add64 n.va n.size ≡ end_of n = omega arith in
    rw no_wrap (
      ap
        (Option.map
          (λ (ns, cs). (node (end_of n) b.va_size base i ∷ ns, record b { va = end_of n } ∷ cs)))
        (append_fragments-eq (node (end_of n) b.va_size base i) base (i + 1) k bs (omega arith)
          (omega arith)))

pub fragment_nodes-Chain :
    (a base i k : ℕ) (bs : List GpuBuffer)
    → k ≤ length bs
    → a + span k bs < 2 ^ 64
    → Chain a (fragment_nodes a base i k bs)
fragment_nodes-Chain a base i zero bs h room = omega arith
fragment_nodes-Chain a base i (suc k) [] h room = absurd (omega arith)
fragment_nodes-Chain a base i (suc k) (b ∷ bs) h room = (
  omega arith,
  fragment_nodes-Chain (a + b.va_size) base (i + 1) k bs (omega arith) (omega arith),
)

-- The unsigned test of a hole, where the next node comes behind this one.
pub hole_fits-room :
    (n m : PoolNode) (bo : GpuBuffer)
    → end_of n ≤ m.va
    → m.va < 2 ^ 64
    → hole_fits n m bo ≡ true
    → (end_of n + bo.va_size < m.va) × (bo.alignment ≤ 4096)
unfolding hole_fits
hole_fits-room n m bo h1 h2 t =
    let gap : sub64 (sub64 m.va n.va) n.size ≡ m.va - n.va - n.size = omega arith in ground arith
