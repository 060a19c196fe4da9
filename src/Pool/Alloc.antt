-- ===== src/Pool/Alloc.antt =====
-- `compute_pool_alloc` finds room for a buffer and keeps the pool in order.
use radeonsi_compute.Base.{
  ℕ, ◌+◌, ◌%◌, ◌^◌, ◌≤◌, ◌<◌, ◌≡◌, ◌≢◌, ◌⊎◌, refl, sym, ap, ◌∙◌, true, ◌&&◌, ltb, ◌==◌, Option,
  none, some, List, [], ◌∷◌, ◌++◌, length, arith, &&→both, ==→eq, Bool-cases, inl, inr, bit_and,
}
use mathlib.Core.Option
use mathlib.Core.List.{append-nil}
use radeonsi_compute.Base.Bits.{bit_and_mask}
use radeonsi_compute.Device.{GpuBuffer}
use radeonsi_compute.Pool.{PoolNode, Pool, add64, hole_fits, in_hole, place, compute_pool_alloc}
use radeonsi_compute.Pool.Order.{
  end_of, Chain, Ordered, pool_end, span, fragment_nodes, addressed, Chain-lt, append_fragments-eq,
  fragment_nodes-Chain, hole_fits-room,
}

-- The buffer `bo ∷ bs` is given the addresses from `start` on, between the nodes `before`, which
-- end there, and the nodes `after`; nothing else changes, and no two nodes overlap.
pub record Placed (a : ℕ) (pool : Pool) (base : ℕ) (bo : GpuBuffer) (bs : List GpuBuffer)
    (pool' : Pool) (block : List GpuBuffer) : Type 0 where
  pub before : Pool
  pub after : Pool
  pub start : ℕ
  pub was : pool ≡ before ++ after
  pub now : pool' ≡ before ++ fragment_nodes start base 0 bo.fragment_number (bo ∷ bs) ++ after
  pub behind : start ≡ pool_end a before
  pub not_first : before ≢ []
  pub given : block ≡ addressed start bo.fragment_number (bo ∷ bs)
  pub ordered : Chain a pool'
  pub large_last : (bo.alignment ≤ 4096) ⊎ (after ≡ [])

abbrev pub Success :
    ℕ → Pool → ℕ → GpuBuffer → List GpuBuffer → Option (Pool × List GpuBuffer) → Type 0
Success a pool base bo bs r =
    (pool' : Pool) × (block : List GpuBuffer) × (r ≡ some (pool', block))
    × Placed a pool base bo bs pool' block

module _ (base : ℕ) (bo : GpuBuffer) (bs : List GpuBuffer) where
  Placed-last :
      (a : ℕ) (n : PoolNode)
      → Chain a (n ∷ [])
      → bo.fragment_number ≤ length (bo ∷ bs)
      → end_of n + span bo.fragment_number (bo ∷ bs) < 2 ^ 64
      → Success a (n ∷ []) base bo bs (place (n ∷ []) base bo bs)
  unfolding place
  Placed-last a n h k room = (
    n ∷ fragment_nodes (end_of n) base 0 bo.fragment_number (bo ∷ bs),
    addressed (end_of n) bo.fragment_number (bo ∷ bs),
    ap (Option.map (λ (ns, cs). (n ∷ ns, cs)))
        (append_fragments-eq n base 0 bo.fragment_number (bo ∷ bs) k room),
    record {
      before = n ∷ [];
      after = [];
      start = end_of n;
      was = refl;
      now = ap (◌∷◌ n) (sym (append-nil _));
      behind = refl;
      not_first = λ e. cc;
      given = refl;
      ordered = (h.0, fragment_nodes-Chain (end_of n) base 0 bo.fragment_number (bo ∷ bs) k room);
      large_last = inr refl;
    },
  )

  Placed-hole :
      (a : ℕ) (n m : PoolNode) (rest : Pool)
      → Chain a (n ∷ m ∷ rest)
      → bo.fragment_number ≡ 1
      → hole_fits n m bo ≡ true
      → let (pool', block) = in_hole n base bo bs (m ∷ rest) in
        Placed a (n ∷ m ∷ rest) base bo bs pool' block
  Placed-hole a n m rest h one fits =
      let below : m.va < 2 ^ 64 = omega (arith, Chain-lt (end_of m) rest h.1.1) in
      let room = hole_fits-room n m bo h.1.0 below fits in
      let no_wrap : add64 n.va n.size ≡ end_of n = omega arith in
      rw no_wrap (record {
        before = n ∷ [];
        after = m ∷ rest;
        start = end_of n;
        was = refl;
        now = ap (λ k. n ∷ (fragment_nodes (end_of n) base 0 k (bo ∷ bs) ++ m ∷ rest)) (sym one);
        behind = refl;
        not_first = λ e. cc;
        given = ap (λ k. addressed (end_of n) k (bo ∷ bs)) (sym one);
        ordered = (h.0, (omega arith, (omega arith, h.1.1)));
        large_last = inl (omega arith);
      })

  Placed-later :
      (a : ℕ) (n : PoolNode) (pool pool' : Pool) (block : List GpuBuffer)
      → a ≤ n.va
      → Placed (end_of n) pool base bo bs pool' block
      → Placed a (n ∷ pool) base bo bs (n ∷ pool') block
  Placed-later a n pool pool' block h p = record {
    before = n ∷ p.before;
    after = p.after;
    start = p.start;
    was = ap (◌∷◌ n) p.was;
    now = ap (◌∷◌ n) p.now;
    behind = p.behind;
    not_first = λ e. cc;
    given = p.given;
    ordered = (h, p.ordered);
    large_last = p.large_last;
  }

  -- One round of the loop, given the rounds that follow.
  place_step :
      (a : ℕ) (n m : PoolNode) (rest : Pool)
      → Chain a (n ∷ m ∷ rest)
      → Success (end_of n) (m ∷ rest) base bo bs (place (m ∷ rest) base bo bs)
      → Success a (n ∷ m ∷ rest) base bo bs (place (n ∷ m ∷ rest) base bo bs)
  unfolding place
  place_step a n m rest h (pool', block, e, p) =
      elim (Bool-cases ((bo.fragment_number == 1) && hole_fits n m bo)) [
        | inl fits ↦
            let both = &&→both _ _ fits in
            (_, _, rw fits refl, Placed-hole a n m rest h (==→eq _ _ both.0) both.1)
        | inr full ↦ (
          _,
          _,
          rw full (ap (Option.map (λ (ns, cs). (n ∷ ns, cs))) e),
          Placed-later a n (m ∷ rest) pool' block h.0 p,
        )
      ]

  place-Placed :
      (a : ℕ) (pool : Pool)
      → pool ≢ []
      → Chain a pool
      → bo.fragment_number ≤ length (bo ∷ bs)
      → pool_end a pool + span bo.fragment_number (bo ∷ bs) < 2 ^ 64
      → Success a pool base bo bs (place pool base bo bs)
  place-Placed a [] ne h k room = absurd (ne refl)
  place-Placed a (n ∷ []) ne h k room = Placed-last a n h k room
  place-Placed a (n ∷ m ∷ rest) ne h k room =
      place_step a n m rest h (place-Placed (end_of n) (m ∷ rest) (λ e. cc) h.1 k room)

-- A block of fragments whose size is a number of pages, and which fits behind the pool, gets its
-- addresses: the call succeeds, the nodes of the pool stay as they were, the fragments lie side by
-- side from the end of the node before them, and no two nodes of the new pool overlap. A buffer
-- with an alignment above one page is always put behind all the nodes.
pub compute_pool_alloc-Placed :
    (pool : Pool) (base : ℕ) (bo : GpuBuffer) (bs : List GpuBuffer)
    → pool ≢ []
    → Ordered pool
    → bo.va_size % 4096 ≡ 0
    → 0 < bo.fragment_number
    → bo.fragment_number ≤ length (bo ∷ bs)
    → pool_end 0 pool + span bo.fragment_number (bo ∷ bs) < 2 ^ 64
    → Success 0 pool base bo bs (compute_pool_alloc pool base (bo ∷ bs))
unfolding compute_pool_alloc
compute_pool_alloc-Placed pool base bo bs ne h pages some_fragment k room =
    let whole : bit_and bo.va_size 4095 ≡ 0 = bit_and_mask 12 bo.va_size ∙ pages in
    let positive : ltb 0 bo.fragment_number ≡ true = ground arith in
    rw (whole, positive) (place-Placed base bo bs 0 pool ne h k room)

-- The call fails an assertion where the size of the first fragment is not a number of pages, or
-- where the buffer has no fragment.
compute_pool_alloc-none :
    (pool : Pool) (base : ℕ) (bo : GpuBuffer) (bs : List GpuBuffer)
    → (bo.va_size % 4096 ≢ 0) ⊎ (bo.fragment_number ≡ 0)
    → compute_pool_alloc pool base (bo ∷ bs) ≡ none
unfolding compute_pool_alloc
compute_pool_alloc-none pool base bo bs bad = ground (arith, bit_and_mask 12 bo.va_size)
