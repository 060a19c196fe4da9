-- ===== src/Kernels/Experiments/Fitting.antt =====
-- The kernels of main.cpp, fma_test.cpp, read_test.cpp and write_test.cpp as the
-- processor reads them.
use radeonsi_compute.Base.{
  ℕ, zero, suc, ◌+◌, ◌-◌, ◌<◌, ◌≡◌, sym, ap, ap₂, ◌∙◌, some, List, [], ◌∷◌, ◌++◌, map, All,
  All-append, length, arith,
}
use radeonsi_compute.Base.Stream.{Stream}
use radeonsi_compute.CodeHelper.Isa.{disassemble}
use radeonsi_compute.CodeHelper.Program.{s_cbranch_scc0, v_add_f32, v_fma_f32}
use radeonsi_compute.Kernels.{Item, call, emit_code, item_line}
use radeonsi_compute.Kernels.Arithmetic.{Floats}
use radeonsi_compute.Kernels.Reading.{
  Fits, code_words, emit_code-append, disassemble-emit_code, pos-emit_code,
}
use radeonsi_compute.Kernels.Pieces.{repeated, label_displacement, counting, loop_program}
use radeonsi_compute.Kernels.Experiments.{
  main_program, fma_program, read_program, write_program, main_set_up, main_loop, main_end,
  fma_set_up, fma_loop, fma_end, memory_set_up, memory_end, read_loop, write_loop,
}
use radeonsi_compute.Kernels.Experiments.Landing.{set_up-words, loop-words}

All-repeated : (n : ℕ) (is : List Item) → All Fits is → All Fits (repeated n is)
unfolding repeated
All-repeated zero is h = tt
All-repeated (suc n) is h = All-append Fits is (repeated n is) h (All-repeated n is h)

set_up-Fits :
    (fl : Floats) (va n : ℕ)
    → All Fits (main_set_up fl va) × All Fits (fma_set_up fl) × All Fits (memory_set_up va n)
unfolding main_set_up fma_set_up memory_set_up
set_up-Fits fl va n = omega arith

end-Fits : (va : ℕ) → All Fits main_end × All Fits fma_end × All Fits (memory_end va)
unfolding main_end fma_end memory_end
end-Fits va = omega arith

loop-Fits : All Fits main_loop × All Fits fma_loop × All Fits read_loop × All Fits write_loop
unfolding main_loop fma_loop read_loop write_loop
loop-Fits = (
  All-repeated 4096 (call (v_add_f32 4 4 260) ∷ []) (omega arith),
  All-repeated 1024 (call (v_fma_f32 4 0 0 261 260 260 0 0) ∷ []) (omega arith),
  omega arith,
  omega arith,
)

-- The items of a kernel with a loop whose branch has the displacement `d`.
abbrev pub loop_items : List Item → List Item → ℕ → ℕ → List Item → List Item
loop_items before body iternum d after =
    before ++ (body ++ (counting iternum ++ (call (s_cbranch_scc0 d) ∷ after)))

loop_program-emit_code :
    (before : List Item) (label : ℕ → ℕ) (body : List Item) (iternum : ℕ) (after : List Item)
    (p : Stream) (d : ℕ)
    → label_displacement
        (label (emit_code before p).pos)
        (emit_code (body ++ counting iternum) (emit_code before p)).pos
      ≡ d
    → loop_program before label body iternum after p
      ≡ emit_code (loop_items before body iternum d after) p
unfolding loop_program
loop_program-emit_code before label body iternum after p d h =
    ap
      (λ n.
        emit_code (call (s_cbranch_scc0 n) ∷ after)
          (emit_code (body ++ counting iternum) (emit_code before p)))
      h
    ∙ ap (emit_code (call (s_cbranch_scc0 d) ∷ after))
        (emit_code-append body (counting iternum) (emit_code before p))
    ∙ sym (
        emit_code-append (counting iternum) (call (s_cbranch_scc0 d) ∷ after)
          (emit_code body (emit_code before p)))
    ∙ sym (
        emit_code-append body (counting iternum ++ (call (s_cbranch_scc0 d) ∷ after))
          (emit_code before p))
    ∙ sym (
        emit_code-append before (body ++ (counting iternum ++ (call (s_cbranch_scc0 d) ∷ after))) p)

module _ (before : List Item) (label : ℕ → ℕ) (body : List Item) (iternum : ℕ) (after : List Item)
    (p : Stream) (a b d : ℕ) (before_words : length (code_words before) ≡ a)
    (loop_words : length (code_words (body ++ counting iternum)) ≡ b)
    (distance : label_displacement (label (p.pos + a)) (p.pos + a + b) ≡ d) where
  distance_here :
      label_displacement
        (label (emit_code before p).pos)
        (emit_code (body ++ counting iternum) (emit_code before p)).pos
      ≡ d
  distance_here =
      let s : (emit_code before p).pos ≡ p.pos + a =
        pos-emit_code before p ∙ ap (λ n. p.pos + n) before_words in
      let e : (emit_code (body ++ counting iternum) (emit_code before p)).pos ≡ p.pos + a + b =
        pos-emit_code (body ++ counting iternum) (emit_code before p) ∙ ap₂ ◌+◌ s loop_words in
      rw (e, s) distance

  loop_program-read :
      All Fits before
      → All Fits body
      → All Fits after
      → d < 65536
      → disassemble
          (length (loop_items before body iternum d after))
          (loop_program before label body iternum after p).cell
          p.pos
        ≡ some (map item_line (loop_items before body iternum d after))
  unfolding counting
  loop_program-read h0 h1 h2 h3 =
      rw (loop_program-emit_code before label body iternum after p d distance_here) (
        disassemble-emit_code (loop_items before body iternum d after) p (
          All-append Fits before _ h0 (
            All-append Fits body _ h1 (
              All-append Fits (counting iternum) (call (s_cbranch_scc0 d) ∷ after) (omega arith)
                (h3, h2)))))

-- In memory at any place, the kernels of main.cpp, fma_test.cpp, read_test.cpp and write_test.cpp
-- are read by the processor, from their first word to the last, as the lines that their calls
-- stand for; the displacement of their branch is that of 4100, 2052, 167 and 167 words back.
pub experiments-read :
    (fl : Floats) (trap_va data_va memory_va : ℕ) (p : Stream)
    → let main : List Item = loop_items (main_set_up fl trap_va) main_loop 10000 61436 main_end in
      let fma : List Item = loop_items (fma_set_up fl) fma_loop 1000 63484 fma_end in
      let read : List Item =
        loop_items (memory_set_up memory_va 512) read_loop 1000 65369 (memory_end data_va) in
      let write : List Item =
        loop_items (memory_set_up memory_va 256) write_loop 1000 65369 (memory_end data_va) in
      (disassemble (length main) (main_program fl trap_va p).cell p.pos ≡ some (map item_line main))
      × (disassemble (length fma) (fma_program fl p).cell p.pos ≡ some (map item_line fma))
      × (disassemble (length read) (read_program data_va memory_va p).cell p.pos
          ≡ some (map item_line read))
      × (disassemble (length write) (write_program data_va memory_va p).cell p.pos
          ≡ some (map item_line write))
unfolding main_program fma_program read_program write_program
experiments-read fl trap_va data_va memory_va p =
    let (main_w, fma_w, _) = set_up-words fl trap_va 0 in
    let (main_l, fma_l, read_l, write_l) = loop-words in
    let (_, _, read_w) = set_up-words fl memory_va 512 in
    let (_, _, write_w) = set_up-words fl memory_va 256 in
    let (main_f, fma_f, _) = set_up-Fits fl trap_va 0 in
    let (_, _, read_f) = set_up-Fits fl memory_va 512 in
    let (_, _, write_f) = set_up-Fits fl memory_va 256 in
    let (main_b, fma_b, read_b, write_b) = loop-Fits in
    let (main_e, fma_e, memory_e) = end-Fits data_va in
    (
      loop_program-read (main_set_up fl trap_va) (λ n. n) main_loop 10000 main_end p 43 4100 61436
          main_w main_l (omega arith) main_f main_b main_e (omega arith),
      loop_program-read (fma_set_up fl) (λ n. n) fma_loop 1000 fma_end p 39 2052 63484 fma_w fma_l
          (omega arith) fma_f fma_b fma_e (omega arith),
      loop_program-read (memory_set_up memory_va 512) (λ n. n - 1) read_loop 1000
          (memory_end data_va) p 52 166 65369 read_w read_l (omega arith) read_f read_b memory_e
          (omega arith),
      loop_program-read (memory_set_up memory_va 256) (λ n. n - 1) write_loop 1000
          (memory_end data_va) p 52 166 65369 write_w write_l (omega arith) write_f write_b memory_e
          (omega arith),
    )
