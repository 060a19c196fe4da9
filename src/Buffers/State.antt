-- ===== src/Buffers/State.antt =====
-- What holds of the pool, the blocks and their addresses between the calls of computesi.c.
use radeonsi_compute.Base.{
  ℕ, zero, suc, ◌<◌, ◌≡◌, ◌⊎◌, inl, inr, true, false, ◌==◌, Option, none, some, List, [], ◌∷◌, ◌++◌,
  All, get_elem?, length, arith,
}
use radeonsi_compute.Device.{GpuBuffer}
use radeonsi_compute.Pool.{PoolNode, Pool, is_of}
use radeonsi_compute.Pool.Order.{Ordered}
use radeonsi_compute.Pool.Free.{Without}
use radeonsi_compute.Submit.{Block}
use radeonsi_compute.Submit.Relocs.{IsWhole, IsPlaced}
use radeonsi_compute.Buffers.Leading.{IsLed}
use radeonsi_compute.Buffers.{World}

-- The fragment has the address and the size of its node.
abbrev pub HasRange : Option GpuBuffer → ℕ → ℕ → Type 0
HasRange none va size = ⊥
HasRange (some b) va size = (b.va ≡ va) × (b.va_size ≡ size)

abbrev pub IsRange : (ℕ → Block) → Option ℕ → ℕ → ℕ → ℕ → Type 0
IsRange blocks none va size i = ⊥
IsRange blocks (some base) va size i =
    IsWhole (blocks base) × HasRange (get_elem? (blocks base) i) va size

-- A node of a fragment of a whole block, which has the address and the size of the node.
abbrev pub IsNode : (ℕ → Block) → PoolNode → Type 0
IsNode blocks n = IsRange blocks n.parent n.va n.size n.fragment

-- The first node belongs to no buffer and is not empty, and all others are nodes of fragments.
abbrev pub IsRooted : (ℕ → Block) → Pool → Type 0
IsRooted blocks [] = ⊥
IsRooted blocks (n ∷ rest) = (n.parent ≡ none) × (0 < n.size) × All (IsNode blocks) rest

-- The pool has a node for fragment `i` of the buffer at `base`.
abbrev pub Tracks : ℕ → ℕ → Pool → Type 0
Tracks base i [] = ⊥
Tracks base i (n ∷ rest) = ((n.parent ≡ some base) × (n.fragment ≡ i)) ⊎ Tracks base i rest

-- The invariant: no two nodes overlap, each node behind the first agrees with a fragment of a
-- whole block, and each fragment of each block has its node, that of the first fragment first.
pub record IsWorld {D : Type 0} (w : World D) : Type 0 where
  pub ordered : Ordered w.pool
  pub rooted : IsRooted w.blocks w.pool
  pub tracked : (base i : ℕ) → i < length (w.blocks base) → Tracks base i w.pool
  pub led : (base : ℕ) → IsLed base w.pool

pub All-append_parts :
    {A : Type 0} (P : A → Type 0) (xs ys : List A) → All P (xs ++ ys) → All P xs × All P ys
All-append_parts P [] ys h = (tt, h)
All-append_parts P (x ∷ xs) ys (h, hs) = let r = All-append_parts P xs ys hs in ((h, r.0), r.1)

pub All-weaken :
    {A : Type 0} (P Q : A → Type 0) (xs : List A) → ((x : A) → P x → Q x) → All P xs → All Q xs
All-weaken P Q [] f h = tt
All-weaken P Q (x ∷ xs) f (h, hs) = (f x h, All-weaken P Q xs f hs)

pub Tracks-append_left : (base i : ℕ) (xs ys : Pool) → Tracks base i xs → Tracks base i (xs ++ ys)
Tracks-append_left base i [] ys h = absurd h
Tracks-append_left base i (n ∷ xs) ys (inl h) = inl h
Tracks-append_left base i (n ∷ xs) ys (inr h) = inr (Tracks-append_left base i xs ys h)

pub Tracks-append_right : (base i : ℕ) (xs ys : Pool) → Tracks base i ys → Tracks base i (xs ++ ys)
Tracks-append_right base i [] ys h = h
Tracks-append_right base i (n ∷ xs) ys h = inr (Tracks-append_right base i xs ys h)

pub Tracks-append_cases :
    (base i : ℕ) (xs ys : Pool) → Tracks base i (xs ++ ys) → Tracks base i xs ⊎ Tracks base i ys
Tracks-append_cases base i [] ys h = inr h
Tracks-append_cases base i (n ∷ xs) ys (inl h) = inl (inl h)
Tracks-append_cases base i (n ∷ xs) ys (inr h) = elim (Tracks-append_cases base i xs ys h) [
  | inl x ↦ inl (inr x)
  | inr y ↦ inr y
]

pub is_of-some : (base b : ℕ) (n : PoolNode) → n.parent ≡ some b → is_of base n ≡ (b == base)
unfolding is_of
is_of-some base b n h = rw h

pub is_of-none : (base : ℕ) (n : PoolNode) → n.parent ≡ none → is_of base n ≡ false
unfolding is_of
is_of-none base n h = rw h

pub is_of-parent : (base : ℕ) (n : PoolNode) → n.parent ≡ some base → is_of base n ≡ true
unfolding is_of
is_of-parent base n h = rw h (ground arith)

pub Tracks-Without : (base i : ℕ) (pool : Pool) → Tracks base i pool → ¬ Without base pool
Tracks-Without base i [] t w = t
Tracks-Without base i (n ∷ rest) (inl (p, _)) (w, ws) =
    let mine : is_of base n ≡ true = is_of-parent base n p in cc
Tracks-Without base i (n ∷ rest) (inr t) (w, ws) = Tracks-Without base i rest t ws

-- A node of a world is placed in the sense of the table of relocations.
pub IsNode-IsPlaced : (blocks : ℕ → Block) (n : PoolNode) → IsNode blocks n → IsPlaced blocks n
IsNode-IsPlaced blocks n h = by_parent n.parent h
  where
    inside : (bs : Block) (i va size : ℕ) → HasRange (get_elem? bs i) va size → i < length bs
    inside [] i va size h = absurd h
    inside (b ∷ bs) zero va size h = omega arith
    inside (b ∷ bs) (suc i) va size h = omega (arith, inside bs i va size h)

    by_parent :
        (o : Option ℕ)
        → IsRange blocks o n.va n.size n.fragment
        → IsPlaced blocks (record { va = n.va; size = n.size; parent = o; fragment = n.fragment })
    by_parent none h = absurd h
    by_parent (some base) (w, r) = (inside (blocks base) n.fragment n.va n.size r, w)
