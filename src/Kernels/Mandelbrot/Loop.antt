-- ===== src/Kernels/Mandelbrot/Loop.antt =====
-- mandelbrot.cpp: the loop of the kernel, and what it comes to.
use radeonsi_compute.Base.{
  ℕ, zero, suc, ◌+◌, ◌*◌, ◌≤◌, ◌%◌, ◌^◌, not, Bool, true, false, if◌then◌else◌, some, List, [], ◌∷◌,
  ◌≡◌, refl, arith, ◌∙◌, Bool-cases, inl, inr,
}
use radeonsi_compute.Base.Bits.{field}
use radeonsi_compute.Base.Stream.{store}
use radeonsi_compute.CodeHelper.Isa.{Inst, Line, plain, with_literal, fetch, decode}
use radeonsi_compute.Kernels.Wave.{
  Registers, VectorUnit, Wave, int_below, overflows, compared, exec_zero, steps,
}
use radeonsi_compute.Kernels.Wave.Stepping.{steps-add}
use radeonsi_compute.Kernels.Mandelbrot.{radius, set_program}
use radeonsi_compute.Kernels.Arithmetic.{Floats, whole, bits_of}

abbrev pub wave : {V : Type 0} → ℕ → Registers × V → Bool → Wave V
wave pc (s, v) scc = record { pc = pc; sgpr = s; scc = scc; vector = v }

-- The lines of one turn that only the vector unit sees, but for the counter of iterations.
abbrev pub iteration : Floats → List Line
iteration fl =
    plain (Inst.vop2 8 32 35 291)
    ∷ plain (Inst.vop2 3 32 32 262)
    ∷ plain (Inst.vop2 8 33 36 292)
    ∷ plain (Inst.vop2 4 40 33 288)
    ∷ with_literal (Inst.vop2 8 32 35 255) (bits_of fl (whole fl 2))
    ∷ plain (Inst.vop2 8 33 32 292)
    ∷ plain (Inst.vop2 3 36 33 264)
    ∷ plain (Inst.vop1 1 35 296)
    ∷ plain (Inst.vop2 8 32 35 291)
    ∷ plain (Inst.vop2 8 33 36 292)
    ∷ plain (Inst.vop2 3 12 32 289)
    ∷ []

abbrev pub count_line : Line
count_line = plain (Inst.vop2 3 10 10 242)

-- The comparison with the square of the radius.
abbrev pub escaping : Floats → Line
escaping fl = with_literal (Inst.vopc 20 12 255) (bits_of fl (fl.times (radius fl) (radius fl)))

module _ {V : Type 0} (u : VectorUnit V) where
  -- Vector instructions one behind the other.
  unfoldable pub vectors : List Line → Registers → V → V
  vectors [] s v = v
  vectors (l ∷ ls) s v = vectors ls s (u.run l s v)

  -- One turn of the loop: the lanes that are still running iterate, and those that have escaped
  -- leave EXEC.
  unfoldable pub turn : Floats → Registers × V → Registers × V
  unfolding vectors
  turn fl (s, v) =
      let t : Registers = store s 8 ((1 + s 8) % 2 ^ 32) in
      let w : V = vectors (iteration fl) t (u.run count_line s v) in
      (compared 20 (u.compare (escaping fl) t w) t, w)

  -- At least one turn, and at most `n` more, until no lane is left.
  unfoldable pub turns : Floats → ℕ → Registers × V → Registers × V
  unfolding turn
  turns fl zero sv = turn fl sv
  turns fl (suc n) sv =
      let more = turns fl n (turn fl sv) in if exec_zero (turn fl sv).0 then turn fl sv else more

-- A turn counts in the scalar register 8, and keeps the mask that was saved in 12 and 13.
pub turn-registers :
    {V : Type 0} (u : VectorUnit V) (fl : Floats) (sv : Registers × V)
    → ((turn u fl sv).0 8 ≡ (1 + sv.0 8) % 2 ^ 32)
      × ((turn u fl sv).0 12 ≡ sv.0 12)
      × ((turn u fl sv).0 13 ≡ sv.0 13)
unfolding turn
turn-registers u fl sv = (refl, refl, refl)

module _ {V : Type 0} (u : VectorUnit V) (fl : Floats) where
  pub turns-mask :
      (n : ℕ) (sv : Registers × V)
      → ((turns u fl n sv).0 12 ≡ sv.0 12) × ((turns u fl n sv).0 13 ≡ sv.0 13)
  unfolding turns
  turns-mask zero sv = let (_, low, high) = turn-registers u fl sv in (low, high)
  turns-mask (suc n) sv = elim (Bool-cases (exec_zero (turn u fl sv).0)) [
    | inl e ↦ let (_, low, high) = turn-registers u fl sv in rw e (low, high)
    | inr e ↦
        let (low, high) = turns-mask n (turn u fl sv) in
        let (_, low', high') = turn-registers u fl sv in rw e (low ∙ low', high ∙ high')
  ]

  -- Where the count starts at `1279 - n`.
  pub turns-count :
      (n : ℕ) (sv : Registers × V)
      → sv.0 8 + n ≡ 1279
      → (1 ≤ (turns u fl n sv).0 8) × ((turns u fl n sv).0 8 ≤ 1280)
  unfolding turns
  turns-count zero sv h = omega (arith, (turn-registers u fl sv).0)
  turns-count (suc n) sv h = elim (Bool-cases (exec_zero (turn u fl sv).0)) [
    | inl e ↦ rw e (omega (arith, (turn-registers u fl sv).0))
    | inr e ↦ rw e (turns-count n (turn u fl sv) (omega (arith, (turn-registers u fl sv).0)))
  ]

module _ (fl : Floats) (mx my : ℕ) (image_scale offset_x offset_y shift : fl.Real) (c : ℕ → ℕ)
    {V : Type 0} (u : VectorUnit V) where
  -- The code in memory, whatever was there before.
  abbrev pub code : ℕ → ℕ
  code =
      (set_program fl mx my image_scale offset_x offset_y shift (record { cell = c; pos = 0 })).cell

  to_branch :
      (sv : Registers × V) (b : Bool)
      → steps u 15 code (wave 40 sv b)
        ≡ some (
            if exec_zero (turn u fl sv).0
            then wave 60 (turn u fl sv) (overflows 1 (sv.0 8))
            else wave 57 (turn u fl sv) (overflows 1 (sv.0 8)))
  unfolding steps set_program fetch turn decode field
  to_branch sv b = refl

  from_branch :
      (sv : Registers × V) (b : Bool)
      → let t : Bool = int_below 0x4FF (sv.0 8) in
        steps u 2 code (wave 57 sv b) ≡ some (if not t then wave 40 sv t else wave 60 sv t)
  unfolding steps set_program fetch decode field
  from_branch sv b = refl

  -- A turn of the machine, where some lane is left: it goes back to the label while the count is
  -- 1279 at most.
  around :
      (sv : Registers × V) (b : Bool)
      → exec_zero (turn u fl sv).0 ≡ false
      → let t : Bool = int_below 0x4FF ((turn u fl sv).0 8) in
        steps u 17 code (wave 40 sv b)
        ≡ some (if not t then wave 40 (turn u fl sv) t else wave 60 (turn u fl sv) t)
  around sv b h =
      steps-add u code 15 2 (wave 40 sv b) _ (rw h at (to_branch sv b))
      ∙ from_branch (turn u fl sv) _

  last : (sv : Registers × V) → sv.0 8 + 0 ≡ 1279 → int_below 0x4FF ((turn u fl sv).0 8) ≡ true
  last sv h = rw ((turn-registers u fl sv).0) (ground arith)

  not_last :
      (n : ℕ) (sv : Registers × V)
      → sv.0 8 + suc n ≡ 1279
      → int_below 0x4FF ((turn u fl sv).0 8) ≡ false
  not_last n sv h = rw ((turn-registers u fl sv).0) (ground arith)

  next_count : (n : ℕ) (sv : Registers × V) → sv.0 8 + suc n ≡ 1279 → (turn u fl sv).0 8 + n ≡ 1279
  next_count n sv h = omega (arith, (turn-registers u fl sv).0)

  -- The loop ends after at most as many turns as are left until the count is 1280, behind the
  -- branch, with the result of those turns.
  pub loop :
      (n : ℕ) (sv : Registers × V) (b : Bool)
      → sv.0 8 + n ≡ 1279
      → (k : ℕ) × (b' : Bool) × (k ≤ 17 * (n + 1))
        × (steps u k code (wave 40 sv b) ≡ some (wave 60 (turns u fl n sv) b'))
  unfolding turns
  loop zero sv b h = elim (Bool-cases (exec_zero (turn u fl sv).0)) [
    | inl e ↦ (15, overflows 1 (sv.0 8), omega arith, rw e at (to_branch sv b))
    | inr e ↦ (17, true, omega arith, rw (last sv h) at (around sv b e))
  ]
  loop (suc n) sv b h = elim (Bool-cases (exec_zero (turn u fl sv).0)) [
    | inl e ↦ (15, overflows 1 (sv.0 8), omega arith, rw e (rw e at (to_branch sv b)))
    | inr e ↦
        let (k, b', bound, r) = loop n (turn u fl sv) false (next_count n sv h) in
        (
          17 + k,
          b',
          omega arith,
          rw e (
              steps-add u code 17 k (wave 40 sv b) _ (rw (not_last n sv h) at (around sv b e)) ∙ r),
        )
  ]
