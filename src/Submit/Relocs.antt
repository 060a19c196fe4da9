-- ===== src/Submit/Relocs.antt =====
-- The relocations that a request names: one for each fragment of each buffer.
use radeonsi_compute.Base.{
  ℕ, zero, suc, ◌*◌, ◌<◌, ◌≡◌, refl, sym, ap, ◌∙◌, Option, none, some, List, [], ◌∷◌, ◌++◌, length,
  length-append, map, All, arith, ◌==◌, if◌then◌else◌,
}
use mathlib.Core.List.{append_assoc, append-nil}
use radeonsi_compute.Device.{GpuBuffer, CsRelocGem, ComputeRelocs}
use radeonsi_compute.Pool.{Pool, PoolNode}
use radeonsi_compute.Submit.{
  Block, drop, reloc_of, compute_init_relocs, compute_push_reloc_unfragmented, push_fragments,
  compute_push_reloc, bo_of, push_nodes, compute_create_reloc_table, reloc_words,
}

-- The count is the length of the array.
abbrev pub Counted : ComputeRelocs → Type 0
Counted c = c.reloc_num ≡ length c.relocs

abbrev pub with_relocs : List CsRelocGem → ComputeRelocs
with_relocs rs = record { reloc_num = length rs; relocs = rs }

not_first : {A : Type 0} (n : ℕ) (x y : A) → (if suc n == 0 then x else y) ≡ y
not_first n x y = ground arith

push_one-Counted :
    (rs : List CsRelocGem) (b : GpuBuffer)
    → compute_push_reloc_unfragmented (with_relocs rs) b ≡ with_relocs (rs ++ (reloc_of b ∷ []))
unfolding compute_push_reloc_unfragmented
push_one-Counted [] b = refl
push_one-Counted (r ∷ rs) b =
    not_first (length rs) _ _
    ∙ ap with_count (omega (arith, length-append (r ∷ rs) (reloc_of b ∷ [])))
  where
    with_count : ℕ → ComputeRelocs
    with_count n = record { reloc_num = n; relocs = (r ∷ rs) ++ (reloc_of b ∷ []) }

push_fragments-all :
    (bs : Block) (rs : List CsRelocGem)
    → push_fragments (length bs) bs (with_relocs rs) ≡ some (with_relocs (rs ++ map reloc_of bs))
unfolding push_fragments
push_fragments-all [] rs = ap (λ x. some (with_relocs x)) (sym (append-nil rs))
push_fragments-all (b ∷ bs) rs =
    ap (push_fragments (length bs) bs) (push_one-Counted rs b)
    ∙ push_fragments-all bs (rs ++ (reloc_of b ∷ []))
    ∙ ap (λ x. some (with_relocs x)) (append_assoc rs (reloc_of b ∷ []) (map reloc_of bs))

-- The first fragment carries the number of the fragments, the others carry 0.
abbrev pub IsWhole : Block → Type 0
IsWhole [] = Unit
IsWhole (b ∷ bs) = (b.fragment_number ≡ length (b ∷ bs)) × All (λ c. c.fragment_number ≡ 0) bs

pub push_whole :
    (b : GpuBuffer) (bs : Block) (rs : List CsRelocGem)
    → IsWhole (b ∷ bs)
    → compute_push_reloc (with_relocs rs) (b ∷ bs)
      ≡ some (with_relocs (rs ++ map reloc_of (b ∷ bs)))
unfolding compute_push_reloc
push_whole b bs rs (h, _) =
    ap (λ n. push_fragments n (b ∷ bs) (with_relocs rs)) h ∙ push_fragments-all (b ∷ bs) rs

push_later :
    (i : ℕ) (bs : Block) (c : ComputeRelocs)
    → i < length bs
    → All (λ b. b.fragment_number ≡ 0) bs
    → compute_push_reloc c (drop i bs) ≡ some c
unfolding compute_push_reloc push_fragments
push_later i [] c h z = absurd (omega arith)
push_later zero (b ∷ bs) c h (z, zs) = ap (λ n. push_fragments n (b ∷ bs) c) z
push_later (suc i) (b ∷ bs) c h (z, zs) = push_later i bs c (omega arith) zs

-- What a node adds to the table, by the pool alone: all fragments for the first one.
abbrev pub node_relocs : (ℕ → Block) → PoolNode → List CsRelocGem
node_relocs blocks n = elim n.parent [
  | none ↦ []
  | some base ↦ if n.fragment == 0 then map reloc_of (blocks base) else []
]

abbrev pub pool_relocs : (ℕ → Block) → Pool → List CsRelocGem
pool_relocs blocks [] = []
pool_relocs blocks (n ∷ rest) = node_relocs blocks n ++ pool_relocs blocks rest

-- A node of a fragment of a whole block.
abbrev pub IsPlaced : (ℕ → Block) → PoolNode → Type 0
IsPlaced blocks n = elim n.parent [
  | none ↦ ⊥
  | some base ↦ (n.fragment < length (blocks base)) × IsWhole (blocks base)
]

push_block_from :
    (bs : Block) (i : ℕ) (rs : List CsRelocGem)
    → i < length bs
    → IsWhole bs
    → compute_push_reloc (with_relocs rs) (drop i bs)
      ≡ some (with_relocs (rs ++ (if i == 0 then map reloc_of bs else [])))
push_block_from [] i rs h w = absurd (omega arith)
push_block_from (b ∷ bs) zero rs h w = push_whole b bs rs w
push_block_from (b ∷ bs) (suc i) rs h (_, zs) =
    push_later i bs (with_relocs rs) (omega arith) zs
    ∙ ap (λ x. some (with_relocs x))
        (sym (append-nil rs) ∙ ap (λ x. rs ++ x) (sym (not_first i (map reloc_of (b ∷ bs)) [])))

push_parent :
    (blocks : ℕ → Block) (va size i : ℕ) (o : Option ℕ) (rs : List CsRelocGem)
    → IsPlaced blocks (record { va = va; size = size; parent = o; fragment = i })
    → compute_push_reloc
        (with_relocs rs)
        (bo_of blocks (record { va = va; size = size; parent = o; fragment = i }))
      ≡ some (
          with_relocs
            (rs ++ node_relocs blocks (record { va = va; size = size; parent = o; fragment = i })))
push_parent blocks va size i none rs h = absurd h
push_parent blocks va size i (some base) rs (h, w) = push_block_from (blocks base) i rs h w

push_node :
    (blocks : ℕ → Block) (n : PoolNode) (rs : List CsRelocGem)
    → IsPlaced blocks n
    → compute_push_reloc (with_relocs rs) (bo_of blocks n)
      ≡ some (with_relocs (rs ++ node_relocs blocks n))
push_node blocks n rs h = push_parent blocks n.va n.size n.fragment n.parent rs h

push_nodes_placed :
    (blocks : ℕ → Block) (pool : Pool) (rs : List CsRelocGem)
    → All (IsPlaced blocks) pool
    → push_nodes blocks pool (with_relocs rs) ≡ some (with_relocs (rs ++ pool_relocs blocks pool))
unfolding push_nodes
push_nodes_placed blocks [] rs h = ap (λ x. some (with_relocs x)) (sym (append-nil rs))
push_nodes_placed blocks (n ∷ rest) rs (h, hs) =
    ap (λ o. elim o [ none ↦ none | some d ↦ push_nodes blocks rest d ]) (push_node blocks n rs h)
    ∙ push_nodes_placed blocks rest (rs ++ node_relocs blocks n) hs
    ∙ ap (λ x. some (with_relocs x))
        (append_assoc rs (node_relocs blocks n) (pool_relocs blocks rest))

-- If every node behind the first belongs to a fragment of a block whose first fragment carries
-- the number of fragments and whose others carry 0, the table is built and lists, in the order of
-- the pool, every fragment of a block once for the node of its first fragment and nothing for the
-- nodes of its later ones, and the count is the length of the list.
pub compute_create_reloc_table-pool :
    (blocks : ℕ → Block) (first : PoolNode) (pool : Pool)
    → All (IsPlaced blocks) pool
    → compute_create_reloc_table blocks (first ∷ pool)
      ≡ some (with_relocs (pool_relocs blocks pool))
unfolding compute_create_reloc_table compute_init_relocs
compute_create_reloc_table-pool blocks first pool h = push_nodes_placed blocks pool [] h

pub length-reloc_words : (rs : List CsRelocGem) → length (reloc_words rs) ≡ length rs * 4
length-reloc_words [] = refl
length-reloc_words (r ∷ rs) = omega (arith, length-reloc_words rs)
