-- ===== src/Pool/Heap/Freeing.antt =====
-- `compute_pool_free` on linked nodes does what it does on the list of the nodes.
use radeonsi_compute.Base.{
  ℕ, zero, suc, ◌+◌, ◌<◌, ◌≡◌, ◌≢◌, refl, sym, ap, ◌∙◌, true, false, ◌==◌, if◌then◌else◌, none,
  some, [], ◌∷◌, length, arith, Bool-cases, inl, inr, ◌⊎◌,
}
use radeonsi_compute.Pool.{PoolNode, is_of, unlink, compute_pool_free}
use radeonsi_compute.Pool.Heap.{
  Heap, free_loop, found_some, compute_pool_free_linked, remove_node, set_next, after_next,
}
use radeonsi_compute.Pool.Heap.Links.{
  Cells, nodes_of, first, linked_node, Away, Linked, remove_node-Linked,
}

-- The nodes that are not of the buffer at `base`, and the number of the others.
abbrev pub kept : ℕ → Cells → Cells
kept base [] = []
kept base ((a, n) ∷ xs) = if is_of base n then kept base xs else (a, n) ∷ kept base xs

abbrev pub taken : ℕ → Cells → ℕ
taken base [] = 0
taken base ((a, n) ∷ xs) = if is_of base n then taken base xs + 1 else taken base xs

unlink-nodes_of :
    (base : ℕ) (xs : Cells) → unlink (nodes_of xs) base ≡ (nodes_of (kept base xs), taken base xs)
unfolding unlink
unlink-nodes_of base [] = refl
unlink-nodes_of base ((a, n) ∷ xs) = elim (Bool-cases (is_of base n)) [
  | inl mine ↦ rw (mine, unlink-nodes_of base xs) refl
  | inr not_mine ↦ rw (not_mine, unlink-nodes_of base xs) refl
]

Away-kept : (base q : ℕ) (xs : Cells) → Away q xs → Away q (kept base xs)
Away-kept base q [] h = tt
Away-kept base q ((a, n) ∷ xs) (other, h) = elim (Bool-cases (is_of base n)) [
  | inl mine ↦ rw mine (Away-kept base q xs h)
  | inr not_mine ↦ rw not_mine (other, Away-kept base q xs h)
]

-- The loop from behind the node `q` on.
pub free_loop-Linked :
    (base : ℕ) (xs : Cells) (h : Heap) (q pq found fuel : ℕ) (m : PoolNode)
    → length xs < fuel
    → q ≢ 0
    → h q ≡ some (linked_node m pq (first xs))
    → Away q xs
    → Linked h q xs
    → (g : Heap) × (free_loop fuel (first xs) base found h ≡ some (g, found + taken base xs))
      × (g q ≡ some (linked_node m pq (first (kept base xs))))
      × Linked g q (kept base xs)
      × ((x : ℕ) → x ≢ q → Away x xs → g x ≡ h x)
unfolding free_loop
free_loop-Linked base xs h q pq found zero m enough there at_q away l = absurd (omega arith)
free_loop-Linked base [] h q pq found (suc fuel) m enough there at_q away l =
    (h, ap (λ n. some (h, n)) (omega arith), at_q, tt, λ x not_q away_x. refl)
free_loop-Linked base ((a, n) ∷ xs) h q pq found (suc fuel) m enough there at_q (other, away)
      (a_there, at_a, away_a, l) =
    let no_null : (a == 0) ≡ false = ground arith in
    elim (Bool-cases (is_of base n)) [
      | inl mine ↦
          let (g1, removed, q1, l1, same1) =
            remove_node-Linked h q pq a m n xs there other at_q at_a away away_a l in
          let (g, freed, q2, l2, same2) =
            free_loop-Linked base xs g1 q pq (found + 1) fuel m (omega arith) there q1 away l1 in
          (
            g,
            rw (no_null, at_a, mine, removed) (freed ∙ ap (λ n. some (g, n)) (omega arith)),
            rw mine q2,
            rw mine l2,
            λ x not_q (not_a, away_x).
                same2 x not_q away_x ∙ same1 x not_q (λ e. not_a (sym e)) away_x,
          )
      | inr not_mine ↦
          let (g, freed, a1, l1, same) =
            free_loop-Linked base xs h a q found fuel n (omega arith) a_there at_a away_a l in
          (
            g,
            rw (no_null, at_a, not_mine) freed,
            rw not_mine (same q (λ e. other (sym e)) away ∙ at_q),
            rw not_mine (a_there, a1, Away-kept base a xs away_a, l1),
            λ x not_q (not_a, away_x). same x (λ e. not_a (sym e)) away_x,
          )
    ]

list-free :
    (base a : ℕ) (n : PoolNode) (xs : Cells)
    → is_of base n ≡ false
    → compute_pool_free (nodes_of ((a, n) ∷ xs)) base
      ≡ (if taken base xs == 0 then none else some (nodes_of ((a, n) ∷ kept base xs)))
unfolding compute_pool_free unlink
list-free base a n xs not_mine = rw (not_mine, unlink-nodes_of base xs) refl

linked-free :
    (base a : ℕ) (n : PoolNode) (xs : Cells) (h g : Heap) (fuel : ℕ)
    → a ≢ 0
    → h a ≡ some (linked_node n 0 (first xs))
    → is_of base n ≡ false
    → free_loop fuel (first xs) base 0 h ≡ some (g, taken base xs)
    → compute_pool_free_linked (suc fuel) a base h ≡ (if taken base xs == 0 then none else some g)
unfolding compute_pool_free_linked free_loop found_some
linked-free base a n xs h g fuel there at_a not_mine freed =
    let no_null : (a == 0) ≡ false = ground arith in
    rw (no_null, at_a, not_mine) (ap found_some freed)

-- A first node of the buffer has NULL in front of it.
first-free :
    (base a : ℕ) (n : PoolNode) (xs : Cells) (h : Heap) (fuel : ℕ)
    → a ≢ 0
    → h a ≡ some (linked_node n 0 (first xs))
    → is_of base n ≡ true
    → (compute_pool_free (nodes_of ((a, n) ∷ xs)) base ≡ none)
      × (compute_pool_free_linked (suc fuel) a base h ≡ none)
unfolding compute_pool_free compute_pool_free_linked free_loop found_some remove_node set_next
    after_next
first-free base a n xs h fuel there at_a mine =
    let no_null : (a == 0) ≡ false = ground arith in (rw mine refl, rw (no_null, at_a, mine) refl)

-- On nodes that are linked in memory, with a round for each and one more, `compute_pool_free` does
-- what it does on their list: it comes back with the nodes linked that the list keeps, at their old
-- addresses, and writes nothing beside the nodes, or it fails where the list does.
pub compute_pool_free_linked-refines :
    (base a : ℕ) (n : PoolNode) (xs : Cells) (h : Heap) (fuel : ℕ)
    → Linked h 0 ((a, n) ∷ xs)
    → length xs + 1 < fuel
    → ((compute_pool_free (nodes_of ((a, n) ∷ xs)) base ≡ none)
        × (compute_pool_free_linked fuel a base h ≡ none))
      ⊎ ((g : Heap) × (compute_pool_free (nodes_of ((a, n) ∷ xs)) base
            ≡ some (nodes_of ((a, n) ∷ kept base xs)))
          × (compute_pool_free_linked fuel a base h ≡ some g)
          × Linked g 0 ((a, n) ∷ kept base xs)
          × ((x : ℕ) → x ≢ a → Away x xs → g x ≡ h x))
compute_pool_free_linked-refines base a n xs h zero l enough = absurd (omega arith)
compute_pool_free_linked-refines base a n xs h (suc fuel) (there, at_a, away, l) enough =
    elim (Bool-cases (is_of base n)) [
      | inl mine ↦ inl (first-free base a n xs h fuel there at_a mine)
      | inr not_mine ↦
          let (g, freed, g_a, lg, same) =
            free_loop-Linked base xs h a 0 0 fuel n (omega arith) there at_a away l in
          let on_list = list-free base a n xs not_mine in
          let in_memory =
            linked-free base a n xs h g fuel there at_a not_mine
              (freed ∙ ap (λ k. some (g, k)) (omega arith)) in
          elim (Bool-cases (taken base xs == 0)) [
            | inl nothing ↦ inl (rw nothing at on_list, rw nothing at in_memory)
            | inr something ↦ inr (
              g,
              rw something at on_list,
              rw something at in_memory,
              (there, g_a, Away-kept base a xs away, lg),
              same,
            )
          ]
    ]
