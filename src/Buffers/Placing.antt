-- ===== src/Buffers/Placing.antt =====
-- A new block with its nodes keeps the invariant of the world.
use radeonsi_compute.Base.{
  All-append, ℕ, zero, suc, ◌+◌, ◌<◌, ◌≤◌, ◌≡◌, ◌≢◌, ◌⊎◌, inl, inr, refl, sym, ap, ◌∙◌, true, false,
  ◌==◌, Option, none, some, [], ◌∷◌, ◌++◌, All, get_elem?, length, arith, Bool-cases, ==→eq,
}
use mathlib.Core.Path.{subst}
use radeonsi_compute.Device.{GpuBuffer}
use radeonsi_compute.Pool.{PoolNode, Pool, is_of}
use radeonsi_compute.Pool.Order.{fragment_nodes, addressed}
use radeonsi_compute.Pool.Alloc.{Placed}
use radeonsi_compute.Pool.Free.{Without}
use radeonsi_compute.Submit.{Block}
use radeonsi_compute.Submit.Relocs.{IsWhole}
use radeonsi_compute.Buffers.{World, set_block}
use radeonsi_compute.Buffers.Leading.{IsLed, Without-fragment_nodes, insert-IsLed, new-IsLed}
use radeonsi_compute.Buffers.State.{
  HasRange, IsRange, IsNode, IsRooted, Tracks, IsWorld, is_of-some, is_of-none, All-append_parts,
  All-weaken, Tracks-append_left, Tracks-append_right, Tracks-append_cases,
}

-- Nodes of other blocks do not see a block that is put where none was.
IsRange-set_block :
    (blocks : ℕ → Block) (base : ℕ) (new : Block) (o : Option ℕ) (va size i : ℕ)
    → blocks base ≡ []
    → IsRange blocks o va size i
    → IsRange (set_block base new blocks) o va size i
IsRange-set_block blocks base new none va size i free h = absurd h
IsRange-set_block blocks base new (some b) va size i free h = elim (Bool-cases (base == b)) [
  | inl same ↦
      let gone : blocks b ≡ [] = ap blocks (sym (==→eq _ _ same)) ∙ free in
      absurd (subst (λ bs. HasRange (get_elem? bs i) va size) gone h.1)
  | inr other ↦ rw other h
]

length-addressed : (a k : ℕ) (bs : Block) → length (addressed a k bs) ≡ length bs
length-addressed a zero bs = refl
length-addressed a (suc k) [] = refl
length-addressed a (suc k) (b ∷ bs) = ap suc (length-addressed (a + b.va_size) k bs)

addressed-later :
    (a k : ℕ) (bs : Block)
    → All (λ b. b.fragment_number ≡ 0) bs
    → All (λ b. b.fragment_number ≡ 0) (addressed a k bs)
addressed-later a zero bs h = h
addressed-later a (suc k) [] h = h
addressed-later a (suc k) (b ∷ bs) (h, hs) = (h, addressed-later (a + b.va_size) k bs hs)

pub addressed-IsWhole : (a k : ℕ) (bs : Block) → IsWhole bs → IsWhole (addressed a k bs)
addressed-IsWhole a zero bs h = h
addressed-IsWhole a (suc k) [] h = h
addressed-IsWhole a (suc k) (b ∷ bs) (n, zs) = (
  n ∙ ap suc (sym (length-addressed (a + b.va_size) k bs)),
  addressed-later (a + b.va_size) k bs zs,
)

-- The new nodes agree with the fragments that got their addresses.
fragment_nodes-IsNode :
    (blocks : ℕ → Block) (base a i k : ℕ) (bs : Block)
    → IsWhole (blocks base)
    → ((j : ℕ) → get_elem? (blocks base) (i + j) ≡ get_elem? (addressed a k bs) j)
    → All (IsNode blocks) (fragment_nodes a base i k bs)
fragment_nodes-IsNode blocks base a i zero bs w h = tt
fragment_nodes-IsNode blocks base a i (suc k) [] w h = tt
fragment_nodes-IsNode blocks base a i (suc k) (b ∷ bs) w h = (
  (
    w,
    subst (λ o. HasRange o a b.va_size) (sym (h 0) ∙ ap (get_elem? (blocks base)) (omega arith))
        (refl, refl),
  ),
  fragment_nodes-IsNode blocks base (a + b.va_size) (i + 1) k bs w
      (λ j. ap (get_elem? (blocks base)) (omega arith) ∙ h (suc j)),
)

fragment_nodes-Tracks :
    (a base i j k : ℕ) (bs : Block)
    → i ≤ j
    → j < i + k
    → k ≤ length bs
    → Tracks base j (fragment_nodes a base i k bs)
fragment_nodes-Tracks a base i j zero bs from to enough = absurd (omega arith)
fragment_nodes-Tracks a base i j (suc k) [] from to enough = absurd (omega arith)
fragment_nodes-Tracks a base i j (suc k) (b ∷ bs) from to enough = elim (Bool-cases (i == j)) [
  | inl same ↦ inl (refl, ==→eq _ _ same)
  | inr other ↦ inr (
      fragment_nodes-Tracks (a + b.va_size) base (i + 1) j k bs (ground arith) (omega arith)
        (omega arith))
]

IsRooted-insert :
    (blocks blocks' : ℕ → Block) (before mine after : Pool)
    → before ≢ []
    → ((n : PoolNode) → IsNode blocks n → IsNode blocks' n)
    → All (IsNode blocks') mine
    → IsRooted blocks (before ++ after)
    → IsRooted blocks' (before ++ mine ++ after)
IsRooted-insert blocks blocks' [] mine after ne f h r = absurd (ne refl)
IsRooted-insert blocks blocks' (n ∷ before) mine after ne f h (p, s, rest) =
    let parts = All-append_parts (IsNode blocks) before after rest in
    (
      p,
      s,
      All-append (IsNode blocks') (before ++ mine) after
          (All-append (IsNode blocks') before mine
            (All-weaken (IsNode blocks) (IsNode blocks') before f parts.0) h)
          (All-weaken (IsNode blocks) (IsNode blocks') after f parts.1),
    )

Tracks-insert :
    (base i : ℕ) (before mine after : Pool)
    → Tracks base i (before ++ after)
    → Tracks base i (before ++ mine ++ after)
Tracks-insert base i before mine after t = elim (Tracks-append_cases base i before after t) [
  | inl x ↦
      Tracks-append_left base i (before ++ mine) after (Tracks-append_left base i before mine x)
  | inr y ↦ Tracks-append_right base i (before ++ mine) after y
]

-- No node belongs to a block that is not there.
pub IsWorld-Without :
    {D : Type 0} (w : World D) (base : ℕ) → IsWorld w → w.blocks base ≡ [] → Without base w.pool
IsWorld-Without w base h free = of_pool w.pool h.rooted
  where
    of_range :
        (n : PoolNode) (o : Option ℕ)
        → n.parent ≡ o
        → IsRange w.blocks o n.va n.size n.fragment
        → is_of base n ≡ false
    of_range n none e r = absurd r
    of_range n (some b) e r = is_of-some base b n e ∙ elim (Bool-cases (b == base)) [
      | inl same ↦
          let gone : w.blocks b ≡ [] = ap w.blocks (==→eq _ _ same) ∙ free in
          absurd (subst (λ bs. HasRange (get_elem? bs n.fragment) n.va n.size) gone r.1)
      | inr other ↦ other
    ]

    of_nodes : (ns : Pool) → All (IsNode w.blocks) ns → Without base ns
    of_nodes [] hs = tt
    of_nodes (n ∷ ns) (h, hs) = (of_range n n.parent refl h, of_nodes ns hs)

    of_pool : (ns : Pool) → IsRooted w.blocks ns → Without base ns
    of_pool [] r = absurd r
    of_pool (n ∷ ns) (p, _, hs) = (is_of-none base n p, of_nodes ns hs)

pub Placed-IsWorld :
    {D : Type 0} (w : World D) (d : D) (base : ℕ) (bo : GpuBuffer) (bs : Block) (pool' : Pool)
    (block : Block)
    → IsWorld w
    → w.blocks base ≡ []
    → IsWhole (bo ∷ bs)
    → Placed 0 w.pool base bo bs pool' block
    → IsWorld (record { pool = pool'; blocks = set_block base block w.blocks; device = d })
Placed-IsWorld w d base bo bs pool' block h free whole p = record {
  ordered = p.ordered;
  rooted = subst (IsRooted after_blocks) (sym p.now) (
      IsRooted-insert w.blocks after_blocks p.before mine p.after p.not_first
        (λ n. IsRange-set_block w.blocks base block n.parent n.va n.size n.fragment free) new_nodes
        (subst (IsRooted w.blocks) p.was h.rooted));
  tracked = λ a i. tracked_at a i (Bool-cases (base == a));
  led = λ a. led_at a (Bool-cases (base == a));
}
  where
    mine : Pool
    mine = fragment_nodes p.start base 0 bo.fragment_number (bo ∷ bs)

    after_blocks : ℕ → Block
    after_blocks = set_block base block w.blocks

    here : after_blocks base ≡ addressed p.start bo.fragment_number (bo ∷ bs)
    here = let self : (base == base) ≡ true = ground arith in rw self p.given

    new_nodes : All (IsNode after_blocks) mine
    new_nodes =
        fragment_nodes-IsNode after_blocks base p.start 0 bo.fragment_number (bo ∷ bs)
          (subst IsWhole (sym here) (addressed-IsWhole p.start bo.fragment_number (bo ∷ bs) whole))
          (λ j.
            ap (λ b. get_elem? b (0 + j)) here
            ∙ ap (get_elem? (addressed p.start bo.fragment_number (bo ∷ bs))) (omega arith))

    length_here : length (after_blocks base) ≡ bo.fragment_number
    length_here =
        ap length here ∙ length-addressed p.start bo.fragment_number (bo ∷ bs) ∙ sym whole.0

    tracked_at :
        (a i : ℕ)
        → ((base == a) ≡ true) ⊎ ((base == a) ≡ false)
        → i < length (after_blocks a)
        → Tracks a i pool'
    tracked_at a i (inl same) l =
        let number : length (after_blocks a) ≡ bo.fragment_number =
          ap (λ b. length (after_blocks b)) (sym (==→eq _ _ same)) ∙ length_here in
        subst (Tracks a i) (sym p.now) (
          Tracks-append_left a i (p.before ++ mine) p.after (
            Tracks-append_right a i p.before mine (
              subst (λ b. Tracks b i mine) (==→eq _ _ same)
                (fragment_nodes-Tracks p.start base 0 i bo.fragment_number (bo ∷ bs) (omega arith)
                  (omega (arith, number, l)) (omega (arith, whole.0))))))
    tracked_at a i (inr other) l = subst (Tracks a i) (sym p.now) (
        Tracks-insert a i p.before mine p.after
          (subst (Tracks a i) p.was (h.tracked a i (rw other at l))))

    none_of : Without base (p.before ++ p.after)
    none_of = subst (Without base) p.was (IsWorld-Without w base h free)

    led_at : (a : ℕ) → ((base == a) ≡ true) ⊎ ((base == a) ≡ false) → IsLed a pool'
    led_at a (inl same) =
        let parts = All-append_parts (λ n. is_of base n ≡ false) p.before p.after none_of in
        subst (λ q. IsLed a q) (sym p.now)
          (subst (λ b. IsLed b (p.before ++ mine ++ p.after)) (==→eq _ _ same)
            (new-IsLed base p.start bo.fragment_number (bo ∷ bs) p.before p.after parts.0 parts.1))
    led_at a (inr other) =
        subst (λ q. IsLed a q) (sym p.now)
          (insert-IsLed a p.before mine p.after
            (Without-fragment_nodes a p.start base 0 bo.fragment_number (bo ∷ bs) other)
            (subst (λ q. IsLed a q) p.was (h.led a)))
