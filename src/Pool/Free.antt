-- ===== src/Pool/Free.antt =====
-- `compute_pool_free` takes out the nodes of one buffer, and undoes `compute_pool_alloc`.
use radeonsi_compute.Base.{
  ℕ, zero, suc, ◌+◌, ◌%◌, ◌^◌, ◌≤◌, ◌<◌, ◌≡◌, ◌≢◌, ◌⊎◌, ==→eq, refl, sym, ap, ap₂, ◌∙◌, true, false,
  ◌==◌, if◌then◌else◌, none, some, List, [], ◌∷◌, ◌++◌, length, All, arith, Bool-cases, inl, inr,
}
use mathlib.Core.Path.{subst}
use mathlib.Core.List.{append-nil}
use radeonsi_compute.Device.{GpuBuffer}
use radeonsi_compute.Pool.{Pool, is_of, unlink, compute_pool_free, compute_pool_alloc}
use radeonsi_compute.Pool.Order.{end_of, Chain, Ordered, pool_end, span, fragment_nodes}
use radeonsi_compute.Pool.Alloc.{Placed, compute_pool_alloc-Placed}

-- No node belongs to the buffer at `base`.
abbrev pub Without : ℕ → Pool → Type 0
Without base = All (λ n. is_of base n ≡ false)

-- What is meant: the nodes of other buffers.
abbrev pub others : Pool → ℕ → Pool
others [] base = []
others (n ∷ ns) base = if is_of base n then others ns base else n ∷ others ns base

unlink-others : (pool : Pool) (base : ℕ) → (unlink pool base).0 ≡ others pool base
unfolding unlink
unlink-others [] base = refl
unlink-others (n ∷ ns) base = ground (arith, unlink-others ns base)

pub Without-others : (pool : Pool) (base : ℕ) → Without base (others pool base)
Without-others [] base = tt
Without-others (n ∷ ns) base = elim (Bool-cases (is_of base n)) [
  | inl mine ↦ rw mine (Without-others ns base)
  | inr other ↦ rw other (other, Without-others ns base)
]

others-Without : (pool : Pool) (base : ℕ) → Without base pool → others pool base ≡ pool
others-Without [] base h = refl
others-Without (n ∷ ns) base (h, hs) = rw h (ap (◌∷◌ n) (others-Without ns base hs))

others-append :
    (xs ys : Pool) (base : ℕ) → others (xs ++ ys) base ≡ others xs base ++ others ys base
others-append [] ys base = refl
others-append (n ∷ ns) ys base = ground (arith, others-append ns ys base)

others-fragment_nodes :
    (a base i k : ℕ) (bs : List GpuBuffer) → others (fragment_nodes a base i k bs) base ≡ []
unfolding is_of
others-fragment_nodes a base i zero bs = refl
others-fragment_nodes a base i (suc k) [] = refl
others-fragment_nodes a base i (suc k) (b ∷ bs) =
    let mine : (base == base) ≡ true = ground arith in
    rw mine (others-fragment_nodes (a + b.va_size) base (i + 1) k bs)

Chain-weaken : (a b : ℕ) (ns : Pool) → a ≤ b → Chain b ns → Chain a ns
Chain-weaken a b [] l h = omega arith
Chain-weaken a b (n ∷ ns) l h = (omega arith, h.1)

pub others-Chain : (a : ℕ) (pool : Pool) (base : ℕ) → Chain a pool → Chain a (others pool base)
others-Chain a [] base h = h
others-Chain a (n ∷ ns) base (h, hs) = elim (Bool-cases (is_of base n)) [
  | inl mine ↦ rw mine (
      Chain-weaken a (end_of n) (others ns base) (omega arith) (others-Chain (end_of n) ns base hs))
  | inr other ↦ rw other (h, others-Chain (end_of n) ns base hs)
]

-- Nothing is found exactly where no node belongs to the buffer.
unlink-zero : (pool : Pool) (base : ℕ) → (unlink pool base).1 ≡ 0 → Without base pool
unfolding unlink
unlink-zero [] base h = tt
unlink-zero (n ∷ ns) base h = elim (Bool-cases (is_of base n)) [
  | inl mine ↦ absurd (ground arith)
  | inr other ↦ (other, unlink-zero ns base (ground arith))
]

Without-unlink : (pool : Pool) (base : ℕ) → Without base pool → (unlink pool base).1 ≡ 0
unfolding unlink
Without-unlink [] base h = refl
Without-unlink (n ∷ ns) base (h, hs) = ground (arith, Without-unlink ns base hs)

Without-append :
    (xs ys : Pool) (base : ℕ) → Without base (xs ++ ys) → Without base xs × Without base ys
Without-append [] ys base h = (tt, h)
Without-append (n ∷ ns) ys base (h, hs) = let r = Without-append ns ys base hs in ((h, r.0), r.1)

-- The first node does not belong to the buffer at `base`.
abbrev pub IsBehind : ℕ → Pool → Type 0
IsBehind base [] = Unit
IsBehind base (n ∷ ns) = is_of base n ≡ false

-- The call succeeds where a node belongs to the buffer, but not the first one.
compute_pool_free-cases :
    (pool : Pool) (base : ℕ)
    → (((¬ IsBehind base pool) ⊎ Without base pool) × (compute_pool_free pool base ≡ none))
      ⊎ (IsBehind base pool
          × (¬ Without base pool)
          × (compute_pool_free pool base ≡ some (others pool base)))
unfolding compute_pool_free
compute_pool_free-cases [] base = inl (inr tt, refl)
compute_pool_free-cases (n ∷ ns) base = elim (Bool-cases (is_of base n)) [
  | inl mine ↦ inl (inl (λ other. clash mine other), rw mine refl)
  | inr other ↦ elim (Bool-cases ((unlink ns base).1 == 0)) [
    | inl nothing ↦
        inl (inr (other, unlink-zero ns base (==→eq _ _ nothing)), rw (other, nothing) refl)
    | inr something ↦ inr (
      other,
      λ w. absurd (omega (arith, Without-unlink ns base w.1, ne_of something)),
      rw (other, something, unlink-others ns base) refl,
    )
  ]
]
  where
    clash : is_of base n ≡ true → is_of base n ≡ false → ⊥
    clash x y = cc

    ne_of : ((unlink ns base).1 == 0) ≡ false → (unlink ns base).1 ≢ 0
    ne_of e = ground arith

-- Freeing fails where the first node of the pool belongs to the buffer, in front of which is
-- NULL, and where no node does. Otherwise exactly the nodes of the buffer go: the others stay in
-- their order, none of them belongs to the buffer, and no two overlap.
pub compute_pool_free-others :
    (pool : Pool) (base : ℕ)
    → Ordered pool
    → (((¬ IsBehind base pool) ⊎ Without base pool) × (compute_pool_free pool base ≡ none))
      ⊎ (IsBehind base pool
          × (¬ Without base pool)
          × (compute_pool_free pool base ≡ some (others pool base))
          × Without base (others pool base)
          × Ordered (others pool base))
compute_pool_free-others pool base h = elim (compute_pool_free-cases pool base) [
  | inl fails ↦ inl fails
  | inr (behind, some_node, freed) ↦
      inr (behind, some_node, freed, Without-others pool base, others-Chain 0 pool base h)
]

pub compute_pool_free-found :
    (pool : Pool) (base : ℕ)
    → IsBehind base pool
    → ¬ Without base pool
    → compute_pool_free pool base ≡ some (others pool base)
compute_pool_free-found pool base behind some_node = elim (compute_pool_free-cases pool base) [
  | inl (inl first, _) ↦ absurd (first behind)
  | inl (inr none_left, _) ↦ absurd (some_node none_left)
  | inr (_, _, freed) ↦ freed
]

others-Placed :
    (pool pool' : Pool) (block : List GpuBuffer) (base : ℕ) (bo : GpuBuffer) (bs : List GpuBuffer)
    → Placed 0 pool base bo bs pool' block
    → Without base pool
    → others pool' base ≡ pool
others-Placed pool pool' block base bo bs p h =
    let parts = Without-append p.before p.after base (subst (Without base) p.was h) in
    let mine = fragment_nodes p.start base 0 bo.fragment_number (bo ∷ bs) in
    ap (λ q. others q base) p.now
    ∙ others-append (p.before ++ mine) p.after base
    ∙ ap (λ q. q ++ others p.after base) (others-append p.before mine base)
    ∙ ap₂ (λ q r. others p.before base ++ q ++ r)
        (others-fragment_nodes p.start base 0 bo.fragment_number (bo ∷ bs))
        (others-Without p.after base parts.1)
    ∙ ap (λ q. q ++ p.after) (append-nil _ ∙ others-Without p.before base parts.0)
    ∙ sym p.was

first_of_fragments :
    (a base k : ℕ) (bo : GpuBuffer) (bs : List GpuBuffer)
    → 0 < k
    → ¬ Without base (fragment_nodes a base 0 k (bo ∷ bs))
unfolding is_of
first_of_fragments a base zero bo bs h w = absurd (omega arith)
first_of_fragments a base (suc k) bo bs h (w, ws) = absurd (ground arith)

pool_of_Placed :
    (pool pool' : Pool) (block : List GpuBuffer) (base : ℕ) (bo : GpuBuffer) (bs : List GpuBuffer)
    → Placed 0 pool base bo bs pool' block
    → 0 < bo.fragment_number
    → ¬ Without base pool'
pool_of_Placed pool pool' block base bo bs p h w =
    let mine = fragment_nodes p.start base 0 bo.fragment_number (bo ∷ bs) in
    first_of_fragments p.start base bo.fragment_number bo bs h
      (Without-append p.before mine base
        (Without-append (p.before ++ mine) p.after base (subst (Without base) p.now w)).0).1

-- The first node stays in front of a new buffer.
Placed-IsBehind :
    (pool pool' : Pool) (block : List GpuBuffer) (base : ℕ) (bo : GpuBuffer) (bs : List GpuBuffer)
    → Placed 0 pool base bo bs pool' block
    → Without base pool
    → IsBehind base pool'
Placed-IsBehind pool pool' block base bo bs p h = subst (IsBehind base) (sym p.now) (
    in_front p.before (fragment_nodes p.start base 0 bo.fragment_number (bo ∷ bs)) p.not_first
      (subst (Without base) p.was h))
  where
    in_front :
        (xs ys : Pool)
        → xs ≢ []
        → Without base (xs ++ p.after)
        → IsBehind base (xs ++ ys ++ p.after)
    in_front [] ys ne w = absurd (ne refl)
    in_front (n ∷ xs) ys ne (w, _) = w

pub compute_pool_free-Placed :
    (pool pool' : Pool) (block : List GpuBuffer) (base : ℕ) (bo : GpuBuffer) (bs : List GpuBuffer)
    → Placed 0 pool base bo bs pool' block
    → Without base pool
    → 0 < bo.fragment_number
    → compute_pool_free pool' base ≡ some pool
compute_pool_free-Placed pool pool' block base bo bs p h positive =
    compute_pool_free-found pool' base (Placed-IsBehind pool pool' block base bo bs p h)
      (pool_of_Placed pool pool' block base bo bs p positive)
    ∙ ap some (others-Placed pool pool' block base bo bs p h)

-- Freeing a buffer right after its allocation gives the pool back as it was, from any pool in
-- order that has a node, no node of that buffer, and room behind its nodes.
pub compute_pool_free-alloc :
    (pool : Pool) (base : ℕ) (bo : GpuBuffer) (bs : List GpuBuffer)
    → pool ≢ []
    → Ordered pool
    → Without base pool
    → bo.va_size % 4096 ≡ 0
    → 0 < bo.fragment_number
    → bo.fragment_number ≤ length (bo ∷ bs)
    → pool_end 0 pool + span bo.fragment_number (bo ∷ bs) < 2 ^ 64
    → (pool' : Pool) × (block : List GpuBuffer) × (compute_pool_alloc pool base (bo ∷ bs)
        ≡ some (pool', block))
      × (compute_pool_free pool' base ≡ some pool)
compute_pool_free-alloc pool base bo bs ne h w pages positive k room =
    let (pool', block, e, p) =
      compute_pool_alloc-Placed pool base bo bs ne h pages positive k room in
    (pool', block, e, compute_pool_free-Placed pool pool' block base bo bs p w positive)
