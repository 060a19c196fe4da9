-- ===== src/Interface/Moves.antt =====
-- What copies do to the memory of the GPU, and that contiguous copies do what one copy does.
use radeonsi_compute.Base.{
  ℕ, ◌+◌, ◌-◌, ◌≤◌, ◌<◌, ◌≡◌, ◌⊎◌, inl, inr, sym, ap, ap₂, ◌∙◌, true, false, ◌&&◌, ltb, leb,
  if◌then◌else◌, List, [], ◌∷◌, arith, Bool-cases, ltb→lt,
}
use radeonsi_compute.Submit.Copies.{Copy, copy}

-- The memory after a copy, byte by byte.
unfoldable pub run_copy : Copy → (ℕ → ℕ) → ℕ → ℕ
run_copy c m a = if leb c.dst a && ltb a (c.dst + c.bytes) then m (c.src + (a - c.dst)) else m a

-- The memory after copies that are made one after the other.
unfoldable pub run_copies : List Copy → (ℕ → ℕ) → ℕ → ℕ
unfolding run_copy
run_copies [] m a = m a
run_copies (c ∷ cs) m a = run_copies cs (run_copy c m) a

-- The copies begin at byte `at` of the ranges at `src` and `dst`, each begins where the one before
-- it ends, and the last ends at byte `lim`.
abbrev pub Covers : ℕ → ℕ → ℕ → ℕ → List Copy → Type 0
Covers src dst at lim [] = at ≡ lim
Covers src dst at lim (c ∷ cs) =
    (c.src ≡ src + at) × (c.dst ≡ dst + at) × Covers src dst (at + c.bytes) lim cs

abbrev pub Apart : ℕ → ℕ → ℕ → Type 0
Apart src dst n = (src + n ≤ dst) ⊎ (dst + n ≤ src)

Covers-le : (src dst at lim : ℕ) (cs : List Copy) → Covers src dst at lim cs → at ≤ lim
Covers-le src dst at lim [] h = omega (arith, h)
Covers-le src dst at lim (c ∷ cs) (_, _, h) =
    omega (arith, Covers-le src dst (at + c.bytes) lim cs h)

-- The value of a copy inside its range and outside.
inside :
    (s d n : ℕ) (m : ℕ → ℕ) (a : ℕ)
    → d ≤ a
    → a < d + n
    → run_copy (copy s d n) m a ≡ m (s + (a - d))
unfolding run_copy
inside s d n m a h l = let test : (leb d a && ltb a (d + n)) ≡ true = ground arith in rw test

outside : (s d n : ℕ) (m : ℕ → ℕ) (a : ℕ) → (a < d) ⊎ (d + n ≤ a) → run_copy (copy s d n) m a ≡ m a
unfolding run_copy
outside s d n m a h = let test : (leb d a && ltb a (d + n)) ≡ false = ground arith in rw test

module _ (src dst at n lim : ℕ) (m : ℕ → ℕ) where
  abbrev s1 : ℕ
  s1 = src + at

  abbrev d1 : ℕ
  d1 = dst + at

  abbrev s2 : ℕ
  s2 = src + (at + n)

  abbrev d2 : ℕ
  d2 = dst + (at + n)

  abbrev n2 : ℕ
  n2 = lim - (at + n)

  abbrev first : ℕ → ℕ
  first = run_copy (copy s1 d1 n) m

  untouched :
      (a : ℕ)
      → dst + (at + n) ≤ a
      → a < dst + lim
      → Apart src dst lim
      → (s2 + (a - d2) < d1) ⊎ (d1 + n ≤ s2 + (a - d2))
  untouched a g l (inl x) = inl (omega (arith, g, l, x))
  untouched a g l (inr x) = inr (omega (arith, g, l, x))

  -- One copy and the rest of the range behind it.
  two_copies :
      (a : ℕ)
      → Apart src dst lim
      → at + n ≤ lim
      → run_copy
          (copy (src + (at + n)) (dst + (at + n)) (lim - (at + n)))
          (run_copy (copy (src + at) (dst + at) n) m)
          a
        ≡ run_copy (copy (src + at) (dst + at) (lim - at)) m a
  two_copies a apart h = elim (Bool-cases (ltb a (dst + at))) [
    | inl low ↦
        let l : a < dst + at = ltb→lt _ _ low in
        outside s2 d2 n2 first a (inl (omega (arith, l)))
        ∙ outside s1 d1 n m a (inl l)
        ∙ sym (outside s1 d1 (lim - at) m a (inl l))
    | inr high ↦ elim (Bool-cases (ltb a (dst + (at + n)))) [
      | inl low ↦
          let g : dst + at ≤ a = ground arith in
          let l : a < dst + (at + n) = ltb→lt _ _ low in
          outside s2 d2 n2 first a (inl l)
          ∙ inside s1 d1 n m a g (omega arith)
          ∙ sym (inside s1 d1 (lim - at) m a g (omega arith))
      | inr later ↦ elim (Bool-cases (ltb a (dst + lim))) [
        | inl low ↦
            let g : dst + (at + n) ≤ a = ground arith in
            let l : a < dst + lim = ltb→lt _ _ low in
            inside s2 d2 n2 first a g (omega arith)
            ∙ outside s1 d1 n m (s2 + (a - d2)) (untouched a g l apart)
            ∙ ap m (omega arith)
            ∙ sym (inside s1 d1 (lim - at) m a (omega arith) (omega arith))
        | inr past ↦
            let g : dst + lim ≤ a = ground arith in
            outside s2 d2 n2 first a (inr (omega arith))
            ∙ outside s1 d1 n m a (inr (omega arith))
            ∙ sym (outside s1 d1 (lim - at) m a (inr (omega arith)))
      ]
    ]
  ]

-- Copies that cover a range do to it what one copy of the range does, if source and destination
-- have no byte in common.
Covers-run_copies :
    (src dst at lim : ℕ) (cs : List Copy) (m : ℕ → ℕ) (a : ℕ)
    → Apart src dst lim
    → Covers src dst at lim cs
    → run_copies cs m a ≡ run_copy (copy (src + at) (dst + at) (lim - at)) m a
unfolding run_copies
Covers-run_copies src dst at lim [] m a apart h =
    sym (outside (src + at) (dst + at) (lim - at) m a (beyond (Bool-cases (ltb a (dst + at)))))
  where
    beyond :
        (ltb a (dst + at) ≡ true) ⊎ (ltb a (dst + at) ≡ false)
        → (a < dst + at) ⊎ (dst + at + (lim - at) ≤ a)
    beyond (inl l) = inl (ltb→lt _ _ l)
    beyond (inr l) = inr (ground (arith, h))
Covers-run_copies src dst at lim (c ∷ cs) m a apart (s, d, h) =
    let first : run_copy c m ≡ run_copy (copy (src + at) (dst + at) c.bytes) m =
      ap₂ (λ x y. run_copy (copy x y c.bytes) m) s d in
    Covers-run_copies src dst (at + c.bytes) lim cs (run_copy c m) a apart h
    ∙ ap
        (λ m'.
          run_copy (copy (src + (at + c.bytes)) (dst + (at + c.bytes)) (lim - (at + c.bytes))) m' a)
        first
    ∙ two_copies src dst at c.bytes lim m a apart (Covers-le src dst (at + c.bytes) lim cs h)

pub Covers-whole :
    (src dst lim : ℕ) (cs : List Copy) (m : ℕ → ℕ) (a : ℕ)
    → Apart src dst lim
    → Covers src dst 0 lim cs
    → run_copies cs m a ≡ run_copy (copy src dst lim) m a
Covers-whole src dst lim cs m a apart h =
    Covers-run_copies src dst 0 lim cs m a apart h
    ∙ ap₂ (λ x y. run_copy (copy x y (lim - 0)) m a) (omega arith) (omega arith)
    ∙ ap (λ n. run_copy (copy src dst n) m a) (omega arith)
