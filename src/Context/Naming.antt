-- ===== src/Context/Naming.antt =====
-- The relocations of a pool in order name every fragment of every block.
use radeonsi_compute.Base.{
  ℕ, ◌≡◌, inl, inr, refl, sym, ap, ◌∙◌, Option, none, some, List, [], ◌∷◌, ◌++◌, map, length, arith,
}
use mathlib.Core.Path.{subst}
use mathlib.Core.List.{append_assoc}
use radeonsi_compute.Device.{CsRelocGem}
use radeonsi_compute.Pool.{PoolNode, Pool}
use radeonsi_compute.Submit.{Block, reloc_of}
use radeonsi_compute.Submit.Relocs.{node_relocs, pool_relocs}
use radeonsi_compute.Buffers.{World}
use radeonsi_compute.Buffers.State.{IsRooted, Tracks, IsWorld}

-- The table of relocations has those of all fragments of each block, side by side.
abbrev pub NamesAll : (ℕ → Block) → List CsRelocGem → Type 0
NamesAll blocks rs =
    (base : ℕ)
    → (before : List CsRelocGem) × (after : List CsRelocGem) × (rs
        ≡ before ++ map reloc_of (blocks base) ++ after)

node_relocs-leading :
    (blocks : ℕ → Block) (base : ℕ) (n : PoolNode)
    → n.parent ≡ some base
    → n.fragment ≡ 0
    → node_relocs blocks n ≡ map reloc_of (blocks base)
node_relocs-leading blocks base n p f = rw (node_relocs, p, f) refl

relocs_tracked :
    (blocks : ℕ → Block) (base : ℕ) (pool : Pool)
    → Tracks base 0 pool
    → (before : List CsRelocGem) × (after : List CsRelocGem) × (pool_relocs blocks pool
        ≡ before ++ map reloc_of (blocks base) ++ after)
relocs_tracked blocks base [] t = absurd t
relocs_tracked blocks base (n ∷ rest) (inl (p, f)) = (
  [],
  pool_relocs blocks rest,
  ap (λ (rs : List CsRelocGem). rs ++ pool_relocs blocks rest)
      (node_relocs-leading blocks base n p f),
)
relocs_tracked blocks base (n ∷ rest) (inr t) =
    let (before, after, e) = relocs_tracked blocks base rest t in
    (
      node_relocs blocks n ++ before,
      after,
      ap (λ (rs : List CsRelocGem). node_relocs blocks n ++ rs) e
          ∙ sym (append_assoc (node_relocs blocks n) (before ++ map reloc_of (blocks base)) after)
          ∙ ap (λ (rs : List CsRelocGem). rs ++ after)
              (sym (append_assoc (node_relocs blocks n) before (map reloc_of (blocks base)))),
    )

pub IsWorld-NamesAll :
    {D : Type 0} (w : World D) (first : PoolNode) (nodes : Pool)
    → w.pool ≡ first ∷ nodes
    → IsWorld w
    → NamesAll w.blocks (pool_relocs w.blocks nodes)
IsWorld-NamesAll w first nodes e h base = of_block (w.blocks base) refl
  where
    behind : first.parent ≡ none → Tracks base 0 (first ∷ nodes) → Tracks base 0 nodes
    behind p (inl (q, _)) = let both : ◌≡◌ {A = Option ℕ} none (some base) = sym p ∙ q in cc
    behind p (inr t) = t

    of_block :
        (bs : Block)
        → w.blocks base ≡ bs
        → (before : List CsRelocGem) × (after : List CsRelocGem) × (pool_relocs w.blocks nodes
            ≡ before ++ map reloc_of (w.blocks base) ++ after)
    of_block [] is = (
      [],
      pool_relocs w.blocks nodes,
      ap (λ bs. map reloc_of bs ++ pool_relocs w.blocks nodes) (sym is),
    )
    of_block (b ∷ bs) is = relocs_tracked w.blocks base nodes (
        behind (subst (IsRooted w.blocks) e h.rooted).0
          (subst (Tracks base 0) e (h.tracked base 0 (omega (arith, ap length is)))))
