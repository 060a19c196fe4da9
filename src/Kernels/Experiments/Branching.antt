-- ===== src/Kernels/Experiments/Branching.antt =====
-- The branch at the end of a loop, whatever the loop is.
use radeonsi_compute.Base.{
  ℕ, ◌+◌, ◌-◌, ◌^◌, ◌≤◌, ◌<◌, ◌≡◌, sym, ap, ap₂, ◌∙◌, false, some, List, ◌∷◌, ◌++◌, length, arith,
}
use radeonsi_compute.Base.Stream.{Stream}
use radeonsi_compute.CodeHelper.Isa.{Inst, plain, fetch}
use radeonsi_compute.CodeHelper.Program.{s_cbranch_scc0}
use radeonsi_compute.CodeHelper.Program.Lines.{line}
use radeonsi_compute.CodeHelper.Program.CallWords.{call_words}
use radeonsi_compute.Kernels.{Item, call, emit_code, item_line}
use radeonsi_compute.Kernels.Reading.{
  item_words, code_words, fetch-emit_code, emit_code-append, pos-emit_code,
}
use radeonsi_compute.Kernels.Wave.{VectorUnit, Wave, goes, step, branch_target}
use radeonsi_compute.Kernels.Wave.Stepping.{step-branch}
use radeonsi_compute.Kernels.Pieces.{label_displacement, counting, loop_program}

abbrev pub at : {V : Type 0} → ℕ → Wave V → Wave V
at pc w = record w { pc = pc; scc = false }

-- A displacement of `eleje-p` leads one word behind the label.
to_next :
    (start branch : ℕ)
    → start < branch
    → branch ≤ start + 2 ^ 15
    → branch_target (branch + 1) (label_displacement start branch) ≡ start + 1
to_next start branch h0 h1 = ground arith

to_label :
    (start branch : ℕ)
    → 1 ≤ start
    → start < branch
    → branch < start + 2 ^ 15
    → branch_target (branch + 1) (label_displacement (start - 1) branch) ≡ start
to_label start branch h0 h1 h2 = ground arith

module _ (before : List Item) (label : ℕ → ℕ) (body : List Item) (iternum : ℕ) (after : List Item)
    (p : Stream) where
  abbrev start : Stream
  start = emit_code before p

  abbrev branch : Stream
  branch = emit_code (body ++ counting iternum) start

  abbrev back : ℕ
  back = label_displacement (label start.pos) branch.pos

  -- What stands behind the body of the loop.
  abbrev pub branch_behind : List Item
  branch_behind = counting iternum ++ (call (s_cbranch_scc0 back) ∷ after)

  -- All that stands from the start of the loop on.
  pub from_start :
      loop_program before label body iternum after p ≡ emit_code (body ++ branch_behind) start
  unfolding loop_program
  from_start =
      ap (emit_code (call (s_cbranch_scc0 back) ∷ after))
        (emit_code-append body (counting iternum) start)
      ∙ sym (
          emit_code-append (counting iternum) (call (s_cbranch_scc0 back) ∷ after)
            (emit_code body start))
      ∙ sym (emit_code-append body (counting iternum ++ (call (s_cbranch_scc0 back) ∷ after)) start)

  fetch_branch :
      fetch (loop_program before label body iternum after p).cell branch.pos
      ≡ some (plain (Inst.sopp 4 back), branch.pos + 1)
  unfolding loop_program item_words call_words item_line line
  fetch_branch = fetch-emit_code (call (s_cbranch_scc0 back)) after branch (omega arith)

  -- Where the machine goes while the branch is taken.
  step_branch :
      {V : Type 0} (u : VectorUnit V) (w : Wave V)
      → step u (loop_program before label body iternum after p).cell (at branch.pos w)
        ≡ some (goes (at (branch_target (branch.pos + 1) back) w))
  step_branch u w = step-branch u _ back (branch.pos + 1) (at branch.pos w) fetch_branch

-- One turn back from the branch of a kernel whose set-up has `a` words and whose loop, with the
-- counting, has `b`.
module _ (before : List Item) (label : ℕ → ℕ) (body : List Item) (iternum : ℕ) (after : List Item)
    (p : Stream) {V : Type 0} (u : VectorUnit V) (w : Wave V) (a b : ℕ)
    (before_words : length (code_words before) ≡ a)
    (loop_words : length (code_words (body ++ counting iternum)) ≡ b) where
  goes_back :
      step u (loop_program before label body iternum after p).cell (at (p.pos + a + b) w)
      ≡ some (
          goes (
            at
              (branch_target
                (p.pos + a + b + 1)
                (label_displacement (label (p.pos + a)) (p.pos + a + b)))
              w))
  goes_back =
      let s : (emit_code before p).pos ≡ p.pos + a =
        pos-emit_code before p ∙ ap (λ n. p.pos + n) before_words in
      let e : (emit_code (body ++ counting iternum) (emit_code before p)).pos ≡ p.pos + a + b =
        pos-emit_code (body ++ counting iternum) (emit_code before p) ∙ ap₂ ◌+◌ s loop_words in
      rw (e, s) at (step_branch before label body iternum after p u w)

  pub to_second :
      1 ≤ b
      → b ≤ 2 ^ 15
      → ((n : ℕ) → label n ≡ n)
      → step u (loop_program before label body iternum after p).cell (at (p.pos + a + b) w)
        ≡ some (goes (at (p.pos + a + 1) w))
  to_second h0 h1 l =
      goes_back
      ∙ ap (λ n. some (goes (at n w)))
          (ap (λ n. branch_target (p.pos + a + b + 1) (label_displacement n (p.pos + a + b)))
              (l (p.pos + a))
            ∙ to_next (p.pos + a) (p.pos + a + b) (omega arith) (omega arith))

  pub to_first :
      1 ≤ a
      → 1 ≤ b
      → b < 2 ^ 15
      → ((n : ℕ) → label n ≡ n - 1)
      → step u (loop_program before label body iternum after p).cell (at (p.pos + a + b) w)
        ≡ some (goes (at (p.pos + a) w))
  to_first h0 h1 h2 l =
      goes_back
      ∙ ap (λ n. some (goes (at n w)))
          (ap (λ n. branch_target (p.pos + a + b + 1) (label_displacement n (p.pos + a + b)))
              (l (p.pos + a))
            ∙ to_label (p.pos + a) (p.pos + a + b) (omega arith) (omega arith) (omega arith))
