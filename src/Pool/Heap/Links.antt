-- ===== src/Pool/Heap/Links.antt =====
-- Nodes that are linked both ways, and what a write leaves of them.
use radeonsi_compute.Base.{
  ℕ, ◌≡◌, ◌≢◌, refl, ap, ◌∙◌, false, ◌==◌, Option, none, some, List, [], ◌∷◌, map, All, arith,
}
use radeonsi_compute.Pool.{PoolNode, Pool}
use radeonsi_compute.Pool.Heap.{
  HeapNode, Heap, update, set_next, set_prev, close_gap, close_read, after_next, remove_node,
}

-- What a list of nodes in memory stands for: the address and the data of each node, in order.
abbrev pub Cells : Type 0
Cells = List (ℕ × PoolNode)

abbrev pub nodes_of : Cells → Pool
nodes_of = map (λ c. c.1)

abbrev pub first : Cells → ℕ
first [] = 0
first ((a, n) ∷ xs) = a

abbrev pub linked_node : PoolNode → ℕ → ℕ → HeapNode
linked_node n prev next = record { info = n; prev = prev; next = next }

-- No node is at `a`.
abbrev pub Away : ℕ → Cells → Type 0
Away a = All (λ c. c.0 ≢ a)

-- The nodes stand in the heap, at different addresses; the first points back to `prev`, each
-- other one to the node before it, each to the one behind it, and the last to NULL.
abbrev pub Linked : Heap → ℕ → Cells → Type 0
Linked h prev [] = Unit
Linked h prev ((a, n) ∷ xs) =
    (a ≢ 0) × (h a ≡ some (linked_node n prev (first xs))) × Away a xs × Linked h a xs

-- A write beside the nodes leaves them linked.
pub Linked-update :
    (h : Heap) (prev : ℕ) (xs : Cells) (b : ℕ) (c : Option HeapNode)
    → Away b xs
    → Linked h prev xs
    → Linked (update h b c) prev xs
Linked-update h prev [] b c away l = tt
Linked-update h prev ((a, n) ∷ xs) b c (other, away) (there, is, apart, l) =
    (there, ground arith, apart, Linked-update h a xs b c away l)

pub update-other : (h : Heap) (a b : ℕ) (c : Option HeapNode) → a ≢ b → update h b c a ≡ h a
update-other h a b c other = ground arith

pub set_next-is :
    (h : Heap) (q p x v : ℕ) (m : PoolNode)
    → q ≢ 0
    → h q ≡ some (linked_node m p x)
    → set_next q v h ≡ some (update h q (some (linked_node m p v)))
unfolding set_next
set_next-is h q p x v m there e =
    let no_null : (q == 0) ≡ false = ground arith in rw (no_null, e) refl

pub set_prev-is :
    (h : Heap) (q p x v : ℕ) (m : PoolNode)
    → q ≢ 0
    → h q ≡ some (linked_node m p x)
    → set_prev q v h ≡ some (update h q (some (linked_node m v x)))
unfolding set_prev
set_prev-is h q p x v m there e =
    let no_null : (q == 0) ≡ false = ground arith in rw (no_null, e) refl

close_gap-last :
    (a q : ℕ) (n : PoolNode) (h : Heap) → close_gap a (linked_node n q 0) h ≡ some (update h a none)
unfolding close_gap
close_gap-last a q n h = refl

close_gap-between :
    (a q b : ℕ) (n k : PoolNode) (y : ℕ) (h : Heap)
    → b ≢ 0
    → h b ≡ some (linked_node k a y)
    → close_gap a (linked_node n q b) h
      ≡ some (update (update h b (some (linked_node k q y))) a none)
unfolding close_gap set_prev
close_gap-between a q b n k y h there e =
    let no_null : (b == 0) ≡ false = ground arith in rw (no_null, e) refl

-- The node `a` between `q` and `xs` is taken out.
pub remove_node-Linked :
    (h : Heap) (q pq a : ℕ) (m n : PoolNode) (xs : Cells)
    → q ≢ 0
    → a ≢ q
    → h q ≡ some (linked_node m pq a)
    → h a ≡ some (linked_node n q (first xs))
    → Away q xs
    → Away a xs
    → Linked h a xs
    → (g : Heap) × (remove_node a (linked_node n q (first xs)) h ≡ some g)
      × (g q ≡ some (linked_node m pq (first xs)))
      × Linked g q xs
      × ((x : ℕ) → x ≢ q → x ≢ a → Away x xs → g x ≡ h x)
unfolding remove_node after_next close_read
remove_node-Linked h q pq a m n [] there other at_q at_a away_q away_a l =
    let h1 : Heap = update h q (some (linked_node m pq 0)) in
    (
      update h1 a none,
      ap (after_next a) (set_next-is h q pq a 0 m there at_q)
          ∙ ap (λ c. close_read a c h1) (update-other h a q _ other ∙ at_a)
          ∙ close_gap-last a q n h1,
      ground arith,
      tt,
      λ x not_q not_a away. ground arith,
    )
remove_node-Linked h q pq a m n ((b, k) ∷ ys) there other at_q at_a (b_q, away_q) (b_a, away_a)
      (b_there, at_b, away_b, l) =
    let h1 : Heap = update h q (some (linked_node m pq b)) in
    let h2 : Heap = update h1 b (some (linked_node k q (first ys))) in
    (
      update h2 a none,
      ap (after_next a) (set_next-is h q pq a b m there at_q)
          ∙ ap (λ c. close_read a c h1) (update-other h a q _ other ∙ at_a)
          ∙ close_gap-between a q b n k (first ys) h1 b_there (update-other h b q _ b_q ∙ at_b),
      ground arith,
      (
        b_there,
        ground arith,
        away_b,
        Linked-update h2 b ys a none away_a
            (Linked-update h1 b ys b _ away_b (Linked-update h b ys q _ away_q l)),
      ),
      λ x not_q not_a (not_b, away). ground arith,
    )
