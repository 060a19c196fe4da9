-- ===== src/Pool/Heap/Placing.antt =====
-- The outer loop of `compute_pool_alloc` on linked nodes.
use radeonsi_compute.Base.{
  ℕ, zero, suc, ◌≤◌, ◌<◌, ◌≡◌, ◌≢◌, refl, sym, ◌∙◌, true, false, ◌&&◌, ◌==◌, some, List, [], ◌∷◌,
  All, length, arith, Bool-cases, inl, inr, ==→eq, &&→both,
}
use radeonsi_compute.Device.{GpuBuffer}
use radeonsi_compute.Pool.{PoolNode, add64, node, hole_fits, place}
use radeonsi_compute.Pool.Heap.{Heap, update, append_linked, insert_linked, place_at, place_linked}
use radeonsi_compute.Pool.Heap.Links.{
  Cells, nodes_of, first, linked_node, Away, Linked, Linked-update, update-other, set_next-is,
  set_prev-is,
}
use radeonsi_compute.Pool.Heap.Appending.{NotIn, Fresh, append-Linked}

-- The addresses of the nodes are none of those that `malloc` gives.
abbrev pub Apart : Cells → List ℕ → Type 0
Apart xs fs = All (λ c. NotIn c.0 fs) xs

Away-first : (f : ℕ) (fs : List ℕ) (xs : Cells) → Apart xs (f ∷ fs) → Away f xs
Away-first f fs [] h = tt
Away-first f fs ((a, n) ∷ xs) ((other, _), h) = ((λ e. other (sym e)), Away-first f fs xs h)

module _ (base : ℕ) (bo : GpuBuffer) (bs : List GpuBuffer) where
  -- The node that a buffer of one fragment gets behind `n`.
  abbrev new_node : PoolNode → PoolNode
  new_node n = node (add64 n.va n.size) bo.va_size base 0

  abbrev inserted : Heap → ℕ → ℕ → PoolNode → ℕ → PoolNode → ℕ → ℕ → Heap
  inserted h a p n b m y f =
      let h1 : Heap = update h f (some (linked_node (new_node n) a b)) in
      update (update h1 b (some (linked_node m f y))) a (some (linked_node n p f))

  insert_linked-is :
      (h : Heap) (a p : ℕ) (n : PoolNode) (b : ℕ) (m : PoolNode) (y f : ℕ) (fs : List ℕ)
      → a ≢ 0
      → b ≢ 0
      → a ≢ f
      → b ≢ f
      → a ≢ b
      → h a ≡ some (linked_node n p b)
      → h b ≡ some (linked_node m a y)
      → insert_linked a (linked_node n p b) base bo bs (f ∷ fs) h
        ≡ some (inserted h a p n b m y f, record bo { va = add64 n.va n.size } ∷ bs)
  unfolding insert_linked
  insert_linked-is h a p n b m y f fs a_there b_there a_f b_f a_b at_a at_b =
      let h1 : Heap = update h f (some (linked_node (new_node n) a b)) in
      let h2 : Heap = update h1 b (some (linked_node m f y)) in
      rw
        (
          insert_linked,
          set_prev-is h1 b a y f m b_there (update-other h b f _ b_f ∙ at_b),
          set_next-is h2 a p b f n a_there
              (update-other h1 a b _ a_b ∙ update-other h a f _ a_f ∙ at_a),
        )
        refl

  inserted-Linked :
      (h : Heap) (a p : ℕ) (n : PoolNode) (b : ℕ) (m : PoolNode) (xs : Cells) (f : ℕ)
      → f ≢ 0
      → a ≢ f
      → Away f ((b, m) ∷ xs)
      → Away a ((b, m) ∷ xs)
      → Linked h a ((b, m) ∷ xs)
      → Linked (inserted h a p n b m (first xs) f) a ((f, new_node n) ∷ (b, m) ∷ xs)
  inserted-Linked h a p n b m xs f f_there a_f (b_f, f_away) (b_a, a_away)
        (b_there, at_b, b_away, l) =
      (
        f_there,
        ground arith,
        (b_f, f_away),
        (
          b_there,
          ground arith,
          b_away,
          Linked-update _ b xs a _ a_away
              (Linked-update _ b xs b _ b_away (Linked-update h b xs f _ f_away l)),
        ),
      )

  -- The result of the loop at the node `a` on the list and in memory.
  abbrev pub Same : Heap → ℕ → ℕ → PoolNode → Cells → List ℕ → ℕ → Type 0
  Same h a p n xs fs fuel =
      (g : Heap) × (ys : Cells) × (cs : List GpuBuffer) × (place (n ∷ nodes_of xs) base bo bs
        ≡ some (n ∷ nodes_of ys, cs))
      × (place_linked fuel a base bo bs fs h ≡ some (g, cs))
      × (g a ≡ some (linked_node n p (first ys)))
      × Linked g a ys
      × ((x : ℕ) → Away x xs → NotIn x fs → Away x ys)
      × ((x : ℕ) → x ≢ a → Away x xs → NotIn x fs → g x ≡ h x)

  linked-last :
      (h : Heap) (a p : ℕ) (n : PoolNode) (fs : List ℕ) (fuel : ℕ)
      → a ≢ 0
      → h a ≡ some (linked_node n p 0)
      → place_linked (suc fuel) a base bo bs fs h
        ≡ append_linked a base 0 bo.fragment_number (bo ∷ bs) fs h
  unfolding place_linked place_at
  linked-last h a p n fs fuel there at_a =
      let no_null : (a == 0) ≡ false = ground arith in rw (no_null, at_a) refl

  linked-hole :
      (h : Heap) (a p : ℕ) (n : PoolNode) (b : ℕ) (m : PoolNode) (y : ℕ) (fs : List ℕ) (fuel : ℕ)
      → a ≢ 0
      → b ≢ 0
      → h a ≡ some (linked_node n p b)
      → h b ≡ some (linked_node m a y)
      → ((bo.fragment_number == 1) ≡ true) × (hole_fits n m bo ≡ true)
      → place_linked (suc fuel) a base bo bs fs h
        ≡ insert_linked a (linked_node n p b) base bo bs fs h
  unfolding place_linked place_at
  linked-hole h a p n b m y fs fuel a_there b_there at_a at_b (one, fits) =
      let no_null : (a == 0) ≡ false = ground arith in
      let not_last : (b == 0) ≡ false = ground arith in
      rw (no_null, at_a, not_last, one, at_b, fits) refl

  linked-later :
      (h : Heap) (a p : ℕ) (n : PoolNode) (b : ℕ) (m : PoolNode) (y : ℕ) (fs : List ℕ) (fuel : ℕ)
      → a ≢ 0
      → b ≢ 0
      → h a ≡ some (linked_node n p b)
      → h b ≡ some (linked_node m a y)
      → ((bo.fragment_number == 1) && hole_fits n m bo) ≡ false
      → place_linked (suc fuel) a base bo bs fs h ≡ place_linked fuel b base bo bs fs h
  unfolding place_linked place_at
  linked-later h a p n b m y fs fuel a_there b_there at_a at_b full =
      let no_null : (a == 0) ≡ false = ground arith in
      let not_last : (b == 0) ≡ false = ground arith in
      elim (Bool-cases (bo.fragment_number == 1)) [
        | inl one ↦
            let small : hole_fits n m bo ≡ false = rw one at full in
            rw (no_null, at_a, not_last, one, at_b, small) refl
        | inr many ↦ rw (no_null, at_a, not_last, many) refl
      ]

  hole-Linked :
      (xs : Cells) (b : ℕ) (m : PoolNode) (h : Heap) (a p : ℕ) (n : PoolNode) (fs : List ℕ)
      (fuel : ℕ)
      → bo.fragment_number ≤ length fs
      → ((bo.fragment_number == 1) && hole_fits n m bo) ≡ true
      → a ≢ 0
      → h a ≡ some (linked_node n p b)
      → Away a ((b, m) ∷ xs)
      → Linked h a ((b, m) ∷ xs)
      → Fresh fs
      → NotIn a fs
      → Apart ((b, m) ∷ xs) fs
      → Same h a p n ((b, m) ∷ xs) fs (suc fuel)
  unfolding place
  hole-Linked xs b m h a p n [] fuel room fits there at_a away l fresh a_fs apart =
      absurd (omega (arith, ==→eq bo.fragment_number 1 (&&→both _ _ fits).0))
  hole-Linked xs b m h a p n (f ∷ fs) fuel room fits there at_a (b_a, away)
        (b_there, at_b, b_away, l) (f_there, f_fs, fresh) (f_a, a_fs) ((f_b, b_fs), apart) =
      let both = &&→both (bo.fragment_number == 1) (hole_fits n m bo) fits in
      let a_f : a ≢ f = λ e. f_a (sym e) in
      let b_f : b ≢ f = λ e. f_b (sym e) in
      let a_b : a ≢ b = λ e. b_a (sym e) in
      (
        inserted h a p n b m (first xs) f,
        (f, new_node n) ∷ (b, m) ∷ xs,
        record bo { va = add64 n.va n.size } ∷ bs,
        rw fits refl,
        linked-hole h a p n b m (first xs) (f ∷ fs) fuel there b_there at_a at_b both
            ∙ insert_linked-is h a p n b m (first xs) f fs there b_there a_f b_f a_b at_a at_b,
        ground arith,
        inserted-Linked h a p n b m xs f f_there a_f (b_f, Away-first f fs xs apart) (b_a, away)
            (b_there, at_b, b_away, l),
        λ x x_away (not_f, _). (not_f, x_away),
        λ x not_a (not_b, _) (not_f, _). ground arith,
      )

  pub place-Linked :
      (xs : Cells) (h : Heap) (a p : ℕ) (n : PoolNode) (fs : List ℕ) (fuel : ℕ)
      → bo.fragment_number ≤ length (bo ∷ bs)
      → bo.fragment_number ≤ length fs
      → length xs < fuel
      → a ≢ 0
      → h a ≡ some (linked_node n p (first xs))
      → Away a xs
      → Linked h a xs
      → Fresh fs
      → NotIn a fs
      → Apart xs fs
      → Same h a p n xs fs fuel
  unfolding place
  place-Linked xs h a p n fs zero enough room rounds there at_a away l fresh a_fs apart =
      absurd (omega arith)
  place-Linked [] h a p n fs (suc fuel) enough room rounds there at_a away l fresh a_fs apart =
      let (g, ys, cs, list, memory, at_a', l', away', same) =
        append-Linked base 0 bo.fragment_number (bo ∷ bs) fs h a p n enough room there at_a fresh
          a_fs in
      (
        g,
        ys,
        cs,
        rw list refl,
        linked-last h a p n fs fuel there at_a ∙ memory,
        at_a',
        l',
        λ x _ x_fs. away' x x_fs,
        λ x not_a _ x_fs. same x not_a x_fs,
      )
  place-Linked ((b, m) ∷ xs) h a p n fs (suc fuel) enough room rounds there at_a (b_a, away)
        (b_there, at_b, b_away, l) fresh a_fs (b_fs, apart) =
      elim (Bool-cases ((bo.fragment_number == 1) && hole_fits n m bo)) [
        | inl fits ↦
            hole-Linked xs b m h a p n fs fuel room fits there at_a (b_a, away)
              (b_there, at_b, b_away, l) fresh a_fs (b_fs, apart)
        | inr full ↦
            let (g, ys, cs, list, memory, at_b', l', away', same) =
              place-Linked xs h b a m fs fuel enough room (omega arith) b_there at_b b_away l fresh
                b_fs apart in
            (
              g,
              (b, m) ∷ ys,
              cs,
              rw (full, list) refl,
              linked-later h a p n b m (first xs) fs fuel there b_there at_a at_b full ∙ memory,
              same a (λ e. b_a (sym e)) away a_fs ∙ at_a,
              (b_there, at_b', away' b b_away b_fs, l'),
              λ x (not_b, away_x) x_fs. (not_b, away' x away_x x_fs),
              λ x not_a (not_b, away_x) x_fs. same x (λ e. not_b (sym e)) away_x x_fs,
            )
      ]
