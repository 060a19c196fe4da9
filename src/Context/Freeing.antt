-- ===== src/Context/Freeing.antt =====
-- The loop of `compute_free_context` ends with every buffer released.
use radeonsi_compute.Base.{
  ℕ, zero, suc, ◌≤◌, ◌<◌, ◌≡◌, inl, inr, refl, sym, ap, ◌∙◌, Bool, true, false, if◌then◌else◌,
  Option, none, some, [], ◌∷◌, get_elem?, length, arith, Bool-cases,
}
use mathlib.Core.Path.{subst}
use radeonsi_compute.Device.{GpuBuffer, Kernel}
use radeonsi_compute.Pool.{PoolNode, Pool, is_of}
use radeonsi_compute.Pool.Free.{others}
use radeonsi_compute.Submit.{Block}
use radeonsi_compute.Buffers.{World, compute_free_gpu_buffer}
use radeonsi_compute.Buffers.Leading.{IsLed}
use radeonsi_compute.Buffers.State.{
  HasRange, IsRange, IsRooted, Tracks, IsWorld, is_of-none, is_of-parent,
}
use radeonsi_compute.Buffers.Releasing.{compute_free_gpu_buffer-IsWorld}
use radeonsi_compute.Context.{
  Held, nothing_held, give_back, free_next, free_buffers, compute_free_context,
}

others-length : (ns : Pool) (base : ℕ) → length (others ns base) ≤ length ns
others-length [] base = omega arith
others-length (n ∷ ns) base = elim (Bool-cases (is_of base n)) [
  | inl mine ↦ rw mine (omega (arith, others-length ns base))
  | inr other ↦ rw other (omega (arith, others-length ns base))
]

-- The first node stays, the node behind it goes.
others-first_two :
    (first n : PoolNode) (rest : Pool) (base : ℕ)
    → first.parent ≡ none
    → n.parent ≡ some base
    → others (first ∷ n ∷ rest) base ≡ first ∷ others rest base
others-first_two first n rest base p q = rw (is_of-none base first p, is_of-parent base n q) refl

there_is :
    (bs : Block) (i va size : ℕ)
    → HasRange (get_elem? bs i) va size
    → (b : GpuBuffer) × (cs : Block) × (bs ≡ b ∷ cs)
there_is [] i va size h = absurd h
there_is (b ∷ cs) i va size h = (b, cs, refl)

-- The node behind the first is that of the first fragment of its block.
record Behind {D : Type 0} (w : World D) (n : PoolNode) : Type 0 where
  base : ℕ
  bo : GpuBuffer
  bs : Block
  parent : n.parent ≡ some base
  leads : n.fragment ≡ 0
  block : w.blocks base ≡ bo ∷ bs

leads_of :
    (base : ℕ) (first n : PoolNode) (rest : Pool)
    → first.parent ≡ none
    → n.parent ≡ some base
    → IsLed base (first ∷ n ∷ rest)
    → n.fragment ≡ 0
leads_of base first n rest p q (inl (mine, _)) = absurd (by_none (is_of-none base first p) mine)
  where
    by_none : is_of base first ≡ false → is_of base first ≡ true → ⊥
    by_none x y = cc
leads_of base first n rest p q (inr (_, inl (_, f))) = f
leads_of base first n rest p q (inr (_, inr (other, _))) =
    absurd (by_parent (is_of-parent base n q) other)
  where
    by_parent : is_of base n ≡ true → is_of base n ≡ false → ⊥
    by_parent x y = cc

IsWorld-Behind :
    {D : Type 0} (w : World D) (first n : PoolNode) (rest : Pool)
    → IsWorld w
    → w.pool ≡ first ∷ n ∷ rest
    → (first.parent ≡ none) × Behind w n
IsWorld-Behind w first n rest h e =
    let r : IsRooted w.blocks (first ∷ n ∷ rest) = subst (IsRooted w.blocks) e h.rooted in
    (r.0, of_parent r.0 n.parent refl r.2.0)
  where
    of_parent :
        first.parent ≡ none
        → (o : Option ℕ) → n.parent ≡ o
        → IsRange w.blocks o n.va n.size n.fragment
        → Behind w n
    of_parent p none q r = absurd r
    of_parent p (some base) q r =
        let (b, cs, is) = there_is (w.blocks base) n.fragment n.va n.size r.1 in
        record {
          base = base;
          bo = b;
          bs = cs;
          parent = q;
          leads = leads_of base first n rest p q (subst (IsLed base) e (h.led base));
          block = is;
        }

-- Where only the first node is left, there is no block.
no_block :
    {D : Type 0} (w : World D) (first : PoolNode)
    → IsWorld w
    → w.pool ≡ first ∷ []
    → (base : ℕ) → w.blocks base ≡ []
no_block w first h e base = of_block (w.blocks base) refl
  where
    of_tracks : first.parent ≡ none → Tracks base 0 (first ∷ []) → ⊥
    of_tracks p (inl (q, _)) = let both : ◌≡◌ {A = Option ℕ} none (some base) = sym p ∙ q in cc
    of_tracks p (inr t) = t

    of_block : (bs : Block) → w.blocks base ≡ bs → w.blocks base ≡ []
    of_block [] is = is
    of_block (b ∷ bs) is = absurd (
        of_tracks (subst (IsRooted w.blocks) e h.rooted).0
          (subst (Tracks base 0) e (h.tracked base 0 (omega (arith, ap length is)))))

give_back-nothing : (h : Held) → give_back h ≡ nothing_held
unfolding give_back
give_back-nothing h = by_display h.display
  where
    by_display :
        (b : Bool)
        → record { memory = false; fd = false; display = if b then false else b } ≡ nothing_held
    by_display true = refl
    by_display false = refl

module _ {D : Type 0} (kernel : Kernel D) where
  free_next-frees :
      (w : World D) (n : PoolNode) (b : Behind w n)
      → free_next kernel n w ≡ compute_free_gpu_buffer kernel b.base w
  unfolding free_next
  free_next-frees w n b = rw (b.parent, b.leads) refl

  -- A round of the loop, by the pool it finds.
  abbrev round : ℕ → World D → Pool → Option (World D)
  round fuel w pool = elim pool [
    | [] ↦ none
    | first ∷ [] ↦ some w
    | first ∷ n ∷ rest ↦ elim (free_next kernel n w) [
      | none ↦ none
      | some w' ↦ free_buffers kernel fuel w'
    ]
  ]

  -- With a round for each node, the loop ends: the first node is left and there is no block.
  free_buffers-ends :
      (fuel : ℕ) (w : World D) (first : PoolNode) (ns : Pool)
      → IsWorld w
      → w.pool ≡ first ∷ ns
      → length ns < fuel
      → (w' : World D) × (free_buffers kernel fuel w ≡ some w')
        × (w'.pool ≡ first ∷ [])
        × ((base : ℕ) → w'.blocks base ≡ [])
  unfolding free_buffers
  free_buffers-ends zero w first ns h e l = absurd (omega arith)
  free_buffers-ends (suc fuel) w first [] h e l = (w, ap (round fuel w) e, e, no_block w first h e)
  free_buffers-ends (suc fuel) w first (n ∷ rest) h e l =
      let (p, b) = IsWorld-Behind w first n rest h e in
      let (w1, freed, pool, blocks, device, h1) =
        compute_free_gpu_buffer-IsWorld kernel w b.base b.bo b.bs h b.block in
      let left =
        pool ∙ ap (λ q. others q b.base) e ∙ others-first_two first n rest b.base p b.parent in
      let (w', ends, only, gone) =
        free_buffers-ends fuel w1 first (others rest b.base) h1 left
          (omega (arith, others-length rest b.base)) in
      (
        w',
        ap (round fuel w) e
            ∙ ap (λ o. elim o [ none ↦ none | some v ↦ free_buffers kernel fuel v ])
                (free_next-frees w n b ∙ freed)
            ∙ ends,
        only,
        gone,
      )

  -- From a world in order and with a round for each node behind the first, the call returns: every
  -- buffer is released, no node is left, and memory, descriptor and display are given back.
  pub compute_free_context-frees :
      (fuel : ℕ) (w : World D) (h : Held)
      → IsWorld w
      → length w.pool ≤ fuel
      → (w' : World D) × (compute_free_context kernel fuel w h ≡ some (w', nothing_held))
        × (w'.pool ≡ [])
        × ((base : ℕ) → w'.blocks base ≡ [])
  unfolding compute_free_context give_back
  compute_free_context-frees fuel w h world enough = of_pool w.pool refl
    where
      of_pool :
          (pool : Pool)
          → w.pool ≡ pool
          → (w' : World D) × (compute_free_context kernel fuel w h ≡ some (w', nothing_held))
            × (w'.pool ≡ [])
            × ((base : ℕ) → w'.blocks base ≡ [])
      of_pool [] e = absurd (subst (IsRooted w.blocks) e world.rooted)
      of_pool (first ∷ ns) e =
          let (w', ends, only, gone) =
            free_buffers-ends fuel w first ns world e (omega (arith, enough, ap length e)) in
          (
            record w' { pool = [] },
            ap (λ o. elim o [ none ↦ none | some v ↦ some (record v { pool = [] }, give_back h) ])
                  ends
                ∙ ap (λ g. some (record w' { pool = [] }, g)) (give_back-nothing h),
            refl,
            gone,
          )
