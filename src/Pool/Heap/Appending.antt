-- ===== src/Pool/Heap/Appending.antt =====
-- The inner loop of `compute_pool_alloc` on linked nodes.
use radeonsi_compute.Base.{
  ℕ, zero, suc, ◌+◌, ◌≤◌, ◌≡◌, ◌≢◌, refl, sym, ◌∙◌, some, List, [], ◌∷◌, All, length, arith,
}
use radeonsi_compute.Device.{GpuBuffer}
use radeonsi_compute.Pool.{PoolNode, add64, node, append_fragments}
use radeonsi_compute.Pool.Heap.{Heap, update, append_linked}
use radeonsi_compute.Pool.Heap.Links.{
  Cells, nodes_of, first, linked_node, Away, Linked, update-other, set_next-is,
}

-- None of the addresses is `x`.
abbrev pub NotIn : ℕ → List ℕ → Type 0
NotIn x = All (λ f. f ≢ x)

-- Addresses that `malloc` can give one after the other.
abbrev pub Fresh : List ℕ → Type 0
Fresh [] = Unit
Fresh (f ∷ fs) = (f ≢ 0) × NotIn f fs × Fresh fs

append_linked-step :
    (base i left : ℕ) (b : GpuBuffer) (bs cs : List GpuBuffer) (f : ℕ) (fs : List ℕ) (h g : Heap)
    (a p : ℕ) (n : PoolNode)
    → a ≢ 0
    → a ≢ f
    → h a ≡ some (linked_node n p 0)
    → let m : PoolNode = node (add64 n.va n.size) b.va_size base i in
      append_linked f base
          (i + 1)
          left
          bs
          fs
          (update (update h f (some (linked_node m a 0))) a (some (linked_node n p f)))
        ≡ some (g, cs)
      → append_linked a base i (suc left) (b ∷ bs) (f ∷ fs) h
        ≡ some (g, record b { va = m.va } ∷ cs)
unfolding append_linked
append_linked-step base i left b bs cs f fs h g a p n there other at_a rest =
    let m : PoolNode = node (add64 n.va n.size) b.va_size base i in
    let h1 : Heap = update h f (some (linked_node m a 0)) in
    rw
      (
        append_linked,
        at_a,
        set_next-is h1 a p 0 f n there (update-other h a f _ other ∙ at_a),
        rest,
      )
      refl

-- The nodes behind the last one.
pub append-Linked :
    (base i left : ℕ) (bs : List GpuBuffer) (fs : List ℕ) (h : Heap) (a p : ℕ) (n : PoolNode)
    → left ≤ length bs
    → left ≤ length fs
    → a ≢ 0
    → h a ≡ some (linked_node n p 0)
    → Fresh fs
    → NotIn a fs
    → (g : Heap) × (xs : Cells) × (cs : List GpuBuffer) × (append_fragments n base i left bs
        ≡ some (nodes_of xs, cs))
      × (append_linked a base i left bs fs h ≡ some (g, cs))
      × (g a ≡ some (linked_node n p (first xs)))
      × Linked g a xs
      × ((x : ℕ) → NotIn x fs → Away x xs)
      × ((x : ℕ) → x ≢ a → NotIn x fs → g x ≡ h x)
unfolding append_fragments append_linked
append-Linked base i zero bs fs h a p n enough room there at_a fresh apart =
    (h, [], bs, refl, refl, at_a, tt, λ x away. tt, λ x not_a away. refl)
append-Linked base i (suc left) [] fs h a p n enough room there at_a fresh apart =
    absurd (omega arith)
append-Linked base i (suc left) (b ∷ bs) [] h a p n enough room there at_a fresh apart =
    absurd (omega arith)
append-Linked base i (suc left) (b ∷ bs) (f ∷ fs) h a p n enough room there at_a
      (f_there, f_apart, fresh) (f_a, apart) =
    let m : PoolNode = node (add64 n.va n.size) b.va_size base i in
    let h1 : Heap = update h f (some (linked_node m a 0)) in
    let h2 : Heap = update h1 a (some (linked_node n p f)) in
    let at_f : h2 f ≡ some (linked_node m a 0) = ground arith in
    let (g, xs, cs, list, memory, g_f, l, away, same) =
      append-Linked base (i + 1) left bs fs h2 f a m (omega arith) (omega arith) f_there at_f fresh
        f_apart in
    (
      g,
      (f, m) ∷ xs,
      record b { va = m.va } ∷ cs,
      rw list refl,
      append_linked-step base i left b bs cs f fs h g a p n there (λ e. f_a (sym e)) at_a memory,
      same a (λ e. f_a (sym e)) apart ∙ ground arith,
      (f_there, g_f, away f f_apart, l),
      λ x (not_f, away_x). (not_f, away x away_x),
      λ x not_a (not_f, away_x). same x (λ e. not_f (sym e)) away_x ∙ ground arith,
    )
