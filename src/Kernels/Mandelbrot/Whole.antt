-- ===== src/Kernels/Mandelbrot/Whole.antt =====
-- mandelbrot.cpp: `set_program` from the first word to the last: how the machine runs it, and
-- where it lies in the buffer.
use radeonsi_compute.Base.{ℕ, suc, ◌+◌, ◌-◌, ◌≤◌, Bool, some, map, ◌≡◌, refl, ◌∙◌, arith}
use radeonsi_compute.Base.Bits.{field}
use radeonsi_compute.Base.Stream.{store}
use radeonsi_compute.CodeHelper.Isa.{fetch, decode}
use radeonsi_compute.Kernels.{item_line}
use radeonsi_compute.Kernels.Wave.{Registers, VectorUnit, Wave, store_pair, steps, run}
use radeonsi_compute.Kernels.Wave.Stepping.{run-add}
use radeonsi_compute.Kernels.Arithmetic.{Floats}
use radeonsi_compute.Kernels.Mandelbrot.{placing, zeroing, colour, set_program}
use radeonsi_compute.Kernels.Mandelbrot.Loop.{
  wave, code, vectors, turns, turns-mask, turns-count, loop,
}

module _ (fl : Floats) (mx my : ℕ) (image_scale offset_x offset_y shift : fl.Real) (c : ℕ → ℕ)
    {V : Type 0} (u : VectorUnit V) where
  -- Before the loop: the place of each lane, EXEC saved in 12 and 13, and the count 0.
  unfoldable pub started : Registers × V → Registers × V
  unfolding vectors placing zeroing
  started (s, v) =
      let t : Registers = store (store_pair s 12 (s 126, s 127)) 8 0 in
      (
        t,
        vectors u (map item_line (zeroing fl)) t
            (vectors u (map item_line (placing fl mx my image_scale offset_x offset_y)) s v),
      )

  -- Behind the loop: EXEC comes back, and all its lanes store their colour.
  unfoldable pub finished : Registers × V → Registers × V
  unfolding vectors colour
  finished (s, v) =
      let t : Registers = store_pair s 126 (s 12, s 13) in
      (t, vectors u (map item_line (colour fl shift)) t v)

  abbrev program : ℕ → ℕ
  program = code fl mx my image_scale offset_x offset_y shift c u

  to_label :
      (sv : Registers × V) (b : Bool)
      → steps u 26 program (wave 0 sv b) ≡ some (wave 40 (started sv) b)
  unfolding steps set_program fetch decode field started item_line
  to_label sv b = refl

  to_end :
      (sv : Registers × V) (b : Bool)
      → steps u 35 program (wave 60 sv b) ≡ some (wave 111 (finished sv) b)
  unfolding steps set_program fetch decode field finished item_line
  to_end sv b = refl

  at_end :
      (n : ℕ) (sv : Registers × V) (b : Bool)
      → run u (suc n) program (wave 111 sv b) ≡ some (wave 112 sv b)
  unfolding run set_program fetch decode field
  at_end n sv b = refl

  -- The kernel of `set_program`, for any image, any zoom and any arithmetic, run from its first
  -- word on a processor with any vector unit and any registers, comes to its `s_endpgm` in at
  -- most 21822 steps, in the state that the reference computes: the set-up, between 1 and 1280
  -- turns of the iteration, one after the other until no lane is left in EXEC, and the colouring.
  pub set_program-runs :
      (sv : Registers × V) (b : Bool) (n : ℕ)
      → 21822 ≤ n
      → (b' : Bool) × (run u n program (wave 0 sv b)
          ≡ some (wave 112 (finished (turns u fl 1279 (started sv))) b'))
  unfolding started
  set_program-runs sv b n h =
      let (k, b', bound, r) =
        loop fl mx my image_scale offset_x offset_y shift c u 1279 (started sv) b refl in
      let rest : ℕ = n - 26 - k - 36 in
      let total : n ≡ 26 + (k + (35 + suc rest)) = omega arith in
      (
        b',
        rw total (
            run-add u program 26 (k + (35 + suc rest)) (wave 0 sv b) _ (to_label sv b)
            ∙ run-add u program k (35 + suc rest) (wave 40 (started sv) b) _ r
            ∙ run-add u program 35 (suc rest) (wave 60 _ b') _ (to_end _ b')
            ∙ at_end rest _ b'),
      )

  -- From its first word the kernel comes to its `s_endpgm` in at most 21822 steps, whatever the
  -- lanes compute; there EXEC is what it was at the start, and the loop has counted to at least 1
  -- and at most 1280.
  pub set_program-halts :
      (sv : Registers × V) (b : Bool) (n : ℕ)
      → 21822 ≤ n
      → (w : Wave V) × (run u n program (wave 0 sv b) ≡ some w)
        × (w.sgpr 126 ≡ sv.0 126)
        × (w.sgpr 127 ≡ sv.0 127)
        × (1 ≤ w.sgpr 8)
        × (w.sgpr 8 ≤ 1280)
  unfolding started finished
  set_program-halts sv b n h =
      let (b', r) = set_program-runs sv b n h in
      let (low, high) = turns-mask u fl 1279 (started sv) in
      let (least, most) = turns-count u fl 1279 (started sv) refl in (_, r, low, high, least, most)

-- The program is 112 words long.
