-- ===== src/Buffers/Leading.antt =====
-- The first node of a block in the pool is that of its first fragment.
use radeonsi_compute.Base.{
  ℕ, zero, suc, ◌+◌, ◌≡◌, ◌⊎◌, inl, inr, refl, sym, ap, ◌∙◌, Bool, true, false, ◌==◌, if◌then◌else◌,
  Option, none, some, [], ◌∷◌, ◌++◌, arith, Bool-cases, ==→eq,
}
use mathlib.Core.Path.{subst}
use radeonsi_compute.Pool.{PoolNode, Pool, is_of}
use radeonsi_compute.Pool.Order.{fragment_nodes}
use radeonsi_compute.Pool.Free.{Without, others}
use radeonsi_compute.Submit.{Block}

abbrev pub IsLed : ℕ → Pool → Type 0
IsLed base [] = Unit
IsLed base (n ∷ ns) =
    ((is_of base n ≡ true) × (n.fragment ≡ 0)) ⊎ ((is_of base n ≡ false) × IsLed base ns)

pub Without-IsLed : (base : ℕ) (ns : Pool) → Without base ns → IsLed base ns
Without-IsLed base [] h = tt
Without-IsLed base (n ∷ ns) (h, hs) = inr (h, Without-IsLed base ns hs)

pub Without-fragment_nodes :
    (b a base i k : ℕ) (bs : Block) → (base == b) ≡ false → Without b (fragment_nodes a base i k bs)
unfolding is_of
Without-fragment_nodes b a base i zero bs h = tt
Without-fragment_nodes b a base i (suc k) [] h = tt
Without-fragment_nodes b a base i (suc k) (x ∷ bs) h =
    (h, Without-fragment_nodes b (a + x.va_size) base (i + 1) k bs h)

skip-IsLed :
    (base : ℕ) (ns more : Pool) → Without base ns → IsLed base more → IsLed base (ns ++ more)
skip-IsLed base [] more h l = l
skip-IsLed base (n ∷ ns) more (h, hs) l = inr (h, skip-IsLed base ns more hs l)

-- Nodes of another block do not come between.
pub insert-IsLed :
    (base : ℕ) (before mine after : Pool)
    → Without base mine
    → IsLed base (before ++ after)
    → IsLed base (before ++ mine ++ after)
insert-IsLed base [] mine after h l = skip-IsLed base mine after h l
insert-IsLed base (n ∷ before) mine after h (inl l) = inl l
insert-IsLed base (n ∷ before) mine after h (inr (o, l)) =
    inr (o, insert-IsLed base before mine after h l)

-- The nodes of a new block begin with that of its first fragment.
pub new-IsLed :
    (base a k : ℕ) (bs : Block) (before after : Pool)
    → Without base before
    → Without base after
    → IsLed base (before ++ fragment_nodes a base 0 k bs ++ after)
unfolding is_of
new-IsLed base a zero bs [] after h g = Without-IsLed base after g
new-IsLed base a (suc k) [] [] after h g = Without-IsLed base after g
new-IsLed base a (suc k) (b ∷ bs) [] after h g =
    let self : (base == base) ≡ true = ground arith in inl (self, refl)
new-IsLed base a k bs (n ∷ before) after (h, hs) g =
    inr (h, new-IsLed base a k bs before after hs g)

is_of_unique : (a b : ℕ) (n : PoolNode) → is_of a n ≡ true → is_of b n ≡ true → a ≡ b
unfolding is_of
is_of_unique a b n = by_parent n.parent
  where
    by_parent :
        (o : Option ℕ)
        → elim o as (λ _. Bool) [ none ↦ false | some p ↦ p == a ] ≡ true
        → elim o as (λ _. Bool) [ none ↦ false | some p ↦ p == b ] ≡ true
        → a ≡ b
    by_parent none h g = cc
    by_parent (some p) h g = sym (==→eq _ _ h) ∙ ==→eq _ _ g

-- Taking the nodes of another block away changes nothing.
pub others-IsLed :
    (base b : ℕ) (ns : Pool) → (base == b) ≡ false → IsLed b ns → IsLed b (others ns base)
others-IsLed base b [] apart l = tt
others-IsLed base b (n ∷ ns) apart l = elim (Bool-cases (is_of base n)) [
  | inl mine ↦ rw mine (others-IsLed base b ns apart (later mine l))
  | inr other ↦
      subst (IsLed b) (ap (λ t. if t then others ns base else n ∷ others ns base) (sym other))
        (kept (others-IsLed base b ns apart) l)
]
  where
    later :
        is_of base n ≡ true
        → ((is_of b n ≡ true) × (n.fragment ≡ 0)) ⊎ ((is_of b n ≡ false) × IsLed b ns)
        → IsLed b ns
    later mine (inl (own, _)) =
        let same : base ≡ b = is_of_unique base b n mine own in absurd (ground arith)
    later mine (inr (_, l)) = l

    kept :
        (IsLed b ns → IsLed b (others ns base))
        → ((is_of b n ≡ true) × (n.fragment ≡ 0)) ⊎ ((is_of b n ≡ false) × IsLed b ns)
        → IsLed b (n ∷ others ns base)
    kept f (inl x) = inl x
    kept f (inr (o, l)) = inr (o, f l)
