-- ===== src/Kernels/Experiments/Landing.antt =====
-- Where the loops of main.cpp, fma_test.cpp, read_test.cpp and write_test.cpp go back to.
use radeonsi_compute.Base.{
  ℕ, zero, suc, ◌+◌, ◌-◌, ◌*◌, ◌≡◌, refl, sym, ap, ◌∙◌, some, List, [], ◌∷◌, ◌++◌, length,
  length-append, arith,
}
use radeonsi_compute.Base.Stream.{Stream}
use radeonsi_compute.CodeHelper.Isa.{Inst, plain, fetch, decode}
use radeonsi_compute.CodeHelper.Program.{v_add_f32, v_fma_f32}
use radeonsi_compute.CodeHelper.Program.Lines.{line}
use radeonsi_compute.CodeHelper.Program.CallWords.{call_words}
use radeonsi_compute.Kernels.{Item, call, emit_code, item_line}
use radeonsi_compute.Kernels.Arithmetic.{Floats}
use radeonsi_compute.CodeHelper.Encodes.{single}
use radeonsi_compute.Base.Bits.{field}
use radeonsi_compute.CodeHelper.Isa.{wants_literal, is_double}
use radeonsi_compute.Kernels.Reading.{
  fetch-second_item, fetch-second_word, item_words, code_words, pos-emit_code,
}
use radeonsi_compute.Kernels.Wave.{VectorUnit, Wave, goes, step}
use radeonsi_compute.Kernels.Pieces.{repeated, counting}
use radeonsi_compute.Kernels.Experiments.{
  main_program, fma_program, read_program, write_program, main_end, fma_end, main_set_up, main_loop,
  fma_set_up, fma_loop, memory_set_up, memory_end, read_loop, write_loop,
}
use radeonsi_compute.Kernels.Experiments.Branching.{
  at, branch_behind, from_start, to_second, to_first,
}

length-code_words :
    (xs ys : List Item)
    → length (code_words (xs ++ ys)) ≡ length (code_words xs) + length (code_words ys)
unfolding code_words
length-code_words [] ys = omega arith
length-code_words (x ∷ xs) ys =
    rw
      (
        length-append (item_words x) (code_words (xs ++ ys)),
        length-append (item_words x) (code_words xs),
        length-code_words xs ys,
      )
      (omega arith)

length-repeated_one :
    (n : ℕ) (i : Item) → length (item_words i) ≡ 1 → length (code_words (repeated n (i ∷ []))) ≡ n
unfolding repeated code_words
length-repeated_one zero i h = refl
length-repeated_one (suc n) i h =
    rw (length-append (item_words i) (code_words (repeated n (i ∷ []))))
      (omega (arith, length-repeated_one n i h))

length-repeated_two :
    (n : ℕ) (i : Item)
    → length (item_words i) ≡ 2
    → length (code_words (repeated n (i ∷ []))) ≡ 2 * n
unfolding repeated code_words
length-repeated_two zero i h = refl
length-repeated_two (suc n) i h =
    rw (length-append (item_words i) (code_words (repeated n (i ∷ []))))
      (omega (arith, length-repeated_two n i h))

pub set_up-words :
    (fl : Floats) (va n : ℕ)
    → (length (code_words (main_set_up fl va)) ≡ 43)
      × (length (code_words (fma_set_up fl)) ≡ 39)
      × (length (code_words (memory_set_up va n)) ≡ 52)
unfolding code_words item_words call_words main_set_up fma_set_up memory_set_up
set_up-words fl va n = (refl, refl, refl)

pub loop-words :
    (length (code_words (main_loop ++ counting 10000)) ≡ 4100)
    × (length (code_words (fma_loop ++ counting 1000)) ≡ 2052)
    × (length (code_words (read_loop ++ counting 1000)) ≡ 166)
    × (length (code_words (write_loop ++ counting 1000)) ≡ 166)
unfolding code_words item_words call_words main_loop fma_loop read_loop write_loop counting
loop-words = (
  length-code_words main_loop (counting 10000)
      ∙ ap (λ n. n + 4) (length-repeated_one 4096 (call (v_add_f32 4 4 260)) refl),
  length-code_words fma_loop (counting 1000)
      ∙ ap (λ n. n + 4) (length-repeated_two 1024 (call (v_fma_f32 4 0 0 261 260 260 0 0)) refl),
  refl,
  refl,
)

second_addition :
    (p : Stream) (more : List Item) (a : ℕ)
    → p.pos ≡ a
    → fetch (emit_code (main_loop ++ more) p).cell (a + 1)
      ≡ some (plain (Inst.vop2 3 4 4 260), a + 2)
unfolding main_loop repeated item_line line item_words call_words
second_addition p more a h =
    let one : Item = call (v_add_f32 4 4 260) in
    rw (sym h) (
      fetch-second_item one one (repeated 4094 (one ∷ []) ++ more) p refl (omega arith)
      ∙ ap (λ n. some (plain (Inst.vop2 3 4 4 260), n)) (omega arith))

half_of_fma :
    (p : Stream) (more : List Item) (a : ℕ)
    → p.pos ≡ a
    → fetch (emit_code (fma_loop ++ more) p).cell (a + 1)
      ≡ some (plain (Inst.vop2 2 9 4 261), a + 2)
unfolding fma_loop repeated item_words call_words decode field wants_literal is_double
half_of_fma p more a h =
    let one : Item = call (v_fma_f32 4 0 0 261 260 260 0 0) in
    rw (sym h) (
      fetch-second_word one (repeated 1023 (one ∷ []) ++ more) p _ 0x4120905
        (plain (Inst.vop2 2 9 4 261)) refl
        (single 0x4120905 (Inst.vop2 2 9 4 261) (λ x. refl) refl refl)
      ∙ ap (λ n. some (plain (Inst.vop2 2 9 4 261), n)) (omega arith))

-- With the branch of their loop taken, the kernels of read_test.cpp and write_test.cpp go on at the
-- first word of the loop, but that of main.cpp goes on one word behind it, at the second addition,
-- and that of fma_test.cpp goes on at the second word of its first `v_fma_f32`, which the
-- processor reads as an instruction of its own: number 2 of the two-operand vector format, on
-- the registers 9, 4 and 261.
pub branches-land :
    (fl : Floats) (trap_va data_va memory_va : ℕ) (p : Stream) {V : Type 0} (u : VectorUnit V)
    (w : Wave V)
    → (step u (read_program data_va memory_va p).cell (at (p.pos + 52 + 166) w)
        ≡ some (goes (at (p.pos + 52) w)))
      × (step u (write_program data_va memory_va p).cell (at (p.pos + 52 + 166) w)
          ≡ some (goes (at (p.pos + 52) w)))
      × (step u (main_program fl trap_va p).cell (at (p.pos + 43 + 4100) w)
          ≡ some (goes (at (p.pos + 43 + 1) w)))
      × (fetch (main_program fl trap_va p).cell (p.pos + 43 + 1)
          ≡ some (plain (Inst.vop2 3 4 4 260), p.pos + 43 + 2))
      × (step u (fma_program fl p).cell (at (p.pos + 39 + 2052) w)
          ≡ some (goes (at (p.pos + 39 + 1) w)))
      × (fetch (fma_program fl p).cell (p.pos + 39 + 1)
          ≡ some (plain (Inst.vop2 2 9 4 261), p.pos + 39 + 2))
unfolding read_program write_program main_program fma_program
branches-land fl trap_va data_va memory_va p u w =
    let (main_w, fma_w, memory_w) = set_up-words fl trap_va 0 in
    let (main_l, fma_l, read_l, write_l) = loop-words in
    let (_, _, read_w) = set_up-words fl memory_va 512 in
    let (_, _, write_w) = set_up-words fl memory_va 256 in
    (
      to_first (memory_set_up memory_va 512) (λ n. n - 1) read_loop 1000 (memory_end data_va) p u w
          52 166 read_w read_l (omega arith) (omega arith) (omega arith) (λ n. refl),
      to_first (memory_set_up memory_va 256) (λ n. n - 1) write_loop 1000 (memory_end data_va) p u w
          52 166 write_w write_l (omega arith) (omega arith) (omega arith) (λ n. refl),
      to_second (main_set_up fl trap_va) (λ n. n) main_loop 10000 main_end p u w 43 4100 main_w
          main_l (omega arith) (omega arith) (λ n. refl),
      ap (λ c. fetch c.cell (p.pos + 43 + 1))
            (from_start (main_set_up fl trap_va) (λ n. n) main_loop 10000 main_end p)
          ∙ second_addition (emit_code (main_set_up fl trap_va) p)
              (branch_behind (main_set_up fl trap_va) (λ n. n) main_loop 10000 main_end p)
              (p.pos + 43) (pos-emit_code (main_set_up fl trap_va) p ∙ ap (λ n. p.pos + n) main_w),
      to_second (fma_set_up fl) (λ n. n) fma_loop 1000 fma_end p u w 39 2052 fma_w fma_l
          (omega arith) (omega arith) (λ n. refl),
      ap (λ c. fetch c.cell (p.pos + 39 + 1))
            (from_start (fma_set_up fl) (λ n. n) fma_loop 1000 fma_end p)
          ∙ half_of_fma (emit_code (fma_set_up fl) p)
              (branch_behind (fma_set_up fl) (λ n. n) fma_loop 1000 fma_end p) (p.pos + 39)
              (pos-emit_code (fma_set_up fl) p ∙ ap (λ n. p.pos + n) fma_w),
    )
