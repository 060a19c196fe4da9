-- ===== src/Kernels/Reading.antt =====
-- Pieces of code are read back as they were written, literals and all.
use radeonsi_compute.Base.{
  ℕ, ◌+◌, ◌<◌, ◌≡◌, refl, sym, ap, ◌∙◌, some, List, [], ◌∷◌, ◌++◌, map, All, length, arith,
}
use mathlib.Core.Option
use radeonsi_compute.Base.Stream.{
  Stream, put, puts, puts-append, pos-puts, cell-puts_before, words-puts,
}
use radeonsi_compute.CodeHelper.Isa.{Line, fetch, disassemble}
use radeonsi_compute.CodeHelper.Encodes.{Encodes, fetch-Encodes}
use radeonsi_compute.CodeHelper.Encodes.Vector.{Encodes-vop2_literal}
use radeonsi_compute.CodeHelper.Encodes.Literal.{
  Encodes-sop2_literal, Encodes-sopc_literal, Encodes-vopc_literal,
}
use radeonsi_compute.CodeHelper.Program.{
  Call, assemble, s_add_i32, s_and_b32, s_cmp_lt_i32, v_mul_i32_i24, v_mul_f32, v_add_f32,
  v_cmpx_gt_f32,
}
use radeonsi_compute.CodeHelper.Program.Lines.{line, InRange}
use radeonsi_compute.CodeHelper.Program.CallWords.{call_words, assemble-puts, Encodes-call}
use radeonsi_compute.Kernels.{Item, call, with_word, emit_code, item_line}

-- The calls that the programs put a literal behind, with 255 as their last source.
abbrev pub TakesLiteral : Call → Type 0
TakesLiteral (s_add_i32 sdst ssrc1 ssrc0) = (sdst < 128) × (ssrc1 < 256) × (ssrc0 ≡ 255)
TakesLiteral (s_and_b32 sdst ssrc1 ssrc0) = (sdst < 128) × (ssrc1 < 256) × (ssrc0 ≡ 255)
TakesLiteral (s_cmp_lt_i32 ssrc1 ssrc0) = (ssrc1 < 256) × (ssrc0 ≡ 255)
TakesLiteral (v_mul_i32_i24 vdst vsrc1 src0) = (vdst < 256) × (vsrc1 < 256) × (src0 ≡ 255)
TakesLiteral (v_mul_f32 vdst vsrc1 src0) = (vdst < 256) × (vsrc1 < 256) × (src0 ≡ 255)
TakesLiteral (v_add_f32 vdst vsrc1 src0) = (vdst < 256) × (vsrc1 < 256) × (src0 ≡ 255)
TakesLiteral (v_cmpx_gt_f32 vsrc1 src0) = (vsrc1 < 256) × (src0 ≡ 255)
TakesLiteral k = ⊥

abbrev pub Fits : Item → Type 0
Fits (call k) = InRange k
Fits (with_word k w) = TakesLiteral k

unfoldable pub item_words : Item → List ℕ
item_words (call k) = call_words k
item_words (with_word k w) = call_words k ++ w ∷ []

Encodes-with_word :
    (k : Call) (w : ℕ)
    → TakesLiteral k
    → Encodes (item_line (with_word k w)) (call_words k ++ w ∷ [])
unfolding call_words line item_line
Encodes-with_word (s_add_i32 sdst ssrc1 ssrc0) w h =
    rw h.2 (Encodes-sop2_literal 2 sdst ssrc1 w (omega arith) h.0 h.1)
Encodes-with_word (s_and_b32 sdst ssrc1 ssrc0) w h =
    rw h.2 (Encodes-sop2_literal 14 sdst ssrc1 w (omega arith) h.0 h.1)
Encodes-with_word (s_cmp_lt_i32 ssrc1 ssrc0) w h =
    rw h.1 (Encodes-sopc_literal 4 ssrc1 w (omega arith) h.0)
Encodes-with_word (v_mul_i32_i24 vdst vsrc1 src0) w h =
    rw h.2 (Encodes-vop2_literal 9 vdst vsrc1 w (omega arith) h.0 h.1)
Encodes-with_word (v_mul_f32 vdst vsrc1 src0) w h =
    rw h.2 (Encodes-vop2_literal 8 vdst vsrc1 w (omega arith) h.0 h.1)
Encodes-with_word (v_add_f32 vdst vsrc1 src0) w h =
    rw h.2 (Encodes-vop2_literal 3 vdst vsrc1 w (omega arith) h.0 h.1)
Encodes-with_word (v_cmpx_gt_f32 vsrc1 src0) w h =
    rw h.1 (Encodes-vopc_literal 20 vsrc1 w (omega arith) h.0)
Encodes-with_word k w h = elim h [ ]

pub Encodes-item : (i : Item) → Fits i → Encodes (item_line i) (item_words i)
unfolding item_words item_line
Encodes-item (call k) h = Encodes-call k h
Encodes-item (with_word k w) h = Encodes-with_word k w h

-- All the words of a piece of code.
unfoldable pub code_words : List Item → List ℕ
code_words [] = []
code_words (i ∷ is) = item_words i ++ code_words is

pub emit_code-puts : (is : List Item) (p : Stream) → emit_code is p ≡ puts (code_words is) p
unfolding emit_code code_words item_words
emit_code-puts [] p = refl
emit_code-puts (call k ∷ is) p =
    emit_code-puts is (assemble k p)
    ∙ ap (puts (code_words is)) (assemble-puts k p)
    ∙ sym (puts-append (call_words k) (code_words is) p)
emit_code-puts (with_word k w ∷ is) p =
    emit_code-puts is (put w (assemble k p))
    ∙ ap (λ q. puts (code_words is) (put w q)) (assemble-puts k p)
    ∙ ap (puts (code_words is)) (sym (puts-append (call_words k) (w ∷ []) p))
    ∙ sym (puts-append (call_words k ++ w ∷ []) (code_words is) p)

-- The first item of a piece of code is read back, whatever is put behind it.
pub fetch-item :
    (i : Item) (more : List ℕ) (p : Stream)
    → Fits i
    → fetch (puts more (puts (item_words i) p)).cell p.pos
      ≡ some (item_line i, (puts (item_words i) p).pos)
fetch-item i more p h =
    rw (pos-puts (item_words i) p)
      (fetch-Encodes _ p.pos (Encodes-item i h) (words-puts (item_words i) more p))

-- The lines of a piece of code stand one behind the other, also when `more` comes behind them.
pub disassemble-code :
    (is : List Item) (more : List ℕ) (p : Stream)
    → All Fits is
    → disassemble (length is) (puts more (puts (code_words is) p)).cell p.pos
      ≡ some (map item_line is)
unfolding disassemble code_words
disassemble-code [] more p h = refl
disassemble-code (i ∷ is) more p (h, hs) =
    let q : Stream = puts (item_words i) p in
    let split : puts (code_words (i ∷ is)) p ≡ puts (code_words is) q =
      puts-append (item_words i) (code_words is) p in
    let behind : puts more (puts (code_words is) q) ≡ puts (code_words is ++ more) q =
      sym (puts-append (code_words is) more q) in
    rw (split, behind, fetch-item i (code_words is ++ more) p h, disassemble, split)
      (ap (Option.map (◌∷◌ (item_line i))) (disassemble-code is more q hs))

-- A piece of code whose operands fit their fields is read back by the processor, line by line,
-- wherever in memory it is written.
pub disassemble-emit_code :
    (is : List Item) (p : Stream)
    → All Fits is
    → disassemble (length is) (emit_code is p).cell p.pos ≡ some (map item_line is)
disassemble-emit_code is p h = rw (emit_code-puts is p) (disassemble-code is [] p h)

pub pos-emit_code :
    (is : List Item) (p : Stream) → (emit_code is p).pos ≡ p.pos + length (code_words is)
pos-emit_code is p = rw (emit_code-puts is p) (pos-puts (code_words is) p)

-- What a piece of code writes, from its first item on.
pub emit_code-first :
    (i : Item) (is : List Item) (p : Stream)
    → emit_code (i ∷ is) p ≡ puts (code_words is) (puts (item_words i) p)
unfolding code_words
emit_code-first i is p = emit_code-puts (i ∷ is) p ∙ puts-append (item_words i) (code_words is) p

pub fetch-emit_code :
    (i : Item) (is : List Item) (p : Stream)
    → Fits i
    → fetch (emit_code (i ∷ is) p).cell p.pos ≡ some (item_line i, p.pos + length (item_words i))
fetch-emit_code i is p h =
    rw (emit_code-first i is p) (
      fetch-item i (code_words is) p h
      ∙ ap (λ n. some (item_line i, n)) (pos-puts (item_words i) p))

pub emit_code-append :
    (xs ys : List Item) (p : Stream) → emit_code (xs ++ ys) p ≡ emit_code ys (emit_code xs p)
unfolding emit_code
emit_code-append [] ys p = refl
emit_code-append (call k ∷ xs) ys p = emit_code-append xs ys (assemble k p)
emit_code-append (with_word k w ∷ xs) ys p = emit_code-append xs ys (put w (assemble k p))

-- The word behind the first word of a piece of code, if its first item has one word and if it
-- has two.
pub fetch-second_item :
    (i j : Item) (is : List Item) (p : Stream)
    → length (item_words i) ≡ 1
    → Fits j
    → fetch (emit_code (i ∷ j ∷ is) p).cell (p.pos + 1)
      ≡ some (item_line j, p.pos + 1 + length (item_words j))
unfolding code_words
fetch-second_item i j is p h f =
    let q : Stream = puts (item_words i) p in
    let s : q.pos ≡ p.pos + 1 = pos-puts (item_words i) p ∙ ap (λ n. p.pos + n) h in
    let split : puts (code_words (j ∷ is)) q ≡ puts (code_words is) (puts (item_words j) q) =
      puts-append (item_words j) (code_words is) q in
    rw (emit_code-first i (j ∷ is) p, split, sym s)
      (fetch-item j (code_words is) q f
        ∙ ap (λ n. some (item_line j, n)) (pos-puts (item_words j) q))

pub fetch-second_word :
    (i : Item) (is : List Item) (p : Stream) (v w : ℕ) (l : Line)
    → item_words i ≡ v ∷ w ∷ []
    → Encodes l (w ∷ [])
    → fetch (emit_code (i ∷ is) p).cell (p.pos + 1) ≡ some (l, p.pos + 1 + 1)
fetch-second_word i is p v w l h e =
    rw (emit_code-first i is p, h)
      (fetch-Encodes _ (p.pos + 1) e (
        ap (λ n. n ∷ [])
          (cell-puts_before (code_words is) (puts (v ∷ w ∷ []) p) (p.pos + 1) (omega arith)
            ∙ ground arith)))
