-- ===== src/Base/Stream.antt =====
-- A buffer of words and a cursor: `p` of the instruction helpers, `buf` and `cdw` of the
-- command buffers. `p[0] = w; p++` and `buf[cdw++] = w` are both `put w`.
use mathlib.Core.Path.{◌≡◌, refl, ap₂, ◌∙◌}
use mathlib.Core.List.{List, [], ◌∷◌, ◌++◌}
use Prim.Native.Nat.{ℕ, zero, suc, ◌+◌, ◌≤◌, ◌<◌}
use native.Mathlib.Omega.{arith}
use radeonsi_compute.Base.Tests.{◌==◌, if◌then◌else◌}
use radeonsi_compute.Base.Lists.{length}

pub record Stream : Type 0 where
  pub cell : ℕ → ℕ
  pub pos : ℕ

abbrev pub store : (ℕ → ℕ) → ℕ → ℕ → ℕ → ℕ
store f a w i = if a == i then w else f i

abbrev pub put : ℕ → Stream → Stream
put w c = record { cell = store c.cell c.pos w; pos = c.pos + 1 }

abbrev pub puts : List ℕ → Stream → Stream
puts [] c = c
puts (w ∷ ws) c = puts ws (put w c)

-- The `n` words from `a` on.
abbrev pub words : (ℕ → ℕ) → ℕ → ℕ → List ℕ
words f a zero = []
words f a (suc n) = f a ∷ words f (a + 1) n

pub puts-append : (xs ys : List ℕ) (c : Stream) → puts (xs ++ ys) c ≡ puts ys (puts xs c)
puts-append [] ys c = refl
puts-append (x ∷ xs) ys c = puts-append xs ys (put x c)

pub pos-puts : (ws : List ℕ) (c : Stream) → (puts ws c).pos ≡ c.pos + length ws
pos-puts [] c = omega arith
pos-puts (w ∷ ws) c = omega (arith, pos-puts ws (put w c))

-- What lies before the cursor stays.
pub cell-puts_before :
    (ws : List ℕ) (c : Stream) (i : ℕ) → i < c.pos → (puts ws c).cell i ≡ c.cell i
cell-puts_before [] c i h = refl
cell-puts_before (w ∷ ws) c i h = cell-puts_before ws (put w c) i (omega arith) ∙ ground arith

pub cell-puts_after :
    (ws : List ℕ) (c : Stream) (i : ℕ) → c.pos + length ws ≤ i → (puts ws c).cell i ≡ c.cell i
cell-puts_after [] c i h = refl
cell-puts_after (w ∷ ws) c i h = cell-puts_after ws (put w c) i (omega arith) ∙ ground arith

-- The words that were put are found there, also when more is put behind them.
pub words-puts :
    (ws more : List ℕ) (c : Stream) → words (puts more (puts ws c)).cell c.pos (length ws) ≡ ws
words-puts [] more c = refl
words-puts (w ∷ ws) more c =
    ap₂ ◌∷◌
      (cell-puts_before more (puts ws (put w c)) c.pos (omega (arith, pos-puts ws (put w c)))
        ∙ cell-puts_before ws (put w c) c.pos (omega arith)
        ∙ ground arith)
      (words-puts ws more (put w c))

pub cell-put_self : (w : ℕ) (c : Stream) → (put w c).cell c.pos ≡ w
cell-put_self w c = ground arith
