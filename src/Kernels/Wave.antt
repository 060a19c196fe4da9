-- ===== src/Kernels/Wave.antt =====
-- How a wave runs a program: the scalar unit of the Southern Islands processors for the
-- instructions that the kernels use, with the program counter in words. What the vector unit and
-- the memory do is a parameter.
pub mod Stepping
use radeonsi_compute.Base.{
  ℕ, zero, suc, ◌+◌, ◌-◌, ◌*◌, ◌%◌, ◌^◌, Bool, true, false, ◌&&◌, not, ltb, leb, ◌==◌,
  if◌then◌else◌, Option, none, some,
}
use radeonsi_compute.Base.Stream.{store}
use radeonsi_compute.CodeHelper.Isa.{
  Inst, Line, plain, with_literal, fetch, sop2, sop1, sopc, sopp, vop2, vop1, vopc, vop3, mubuf,
  mtbuf,
}
use mathlib.Core.Option

abbrev pub Registers : Type 0
Registers = ℕ → ℕ

-- What the vector unit does to its registers and to the memory, and the mask of lanes, in two
-- words, that a comparison finds; both see the scalar registers.
pub record VectorUnit (V : Type 0) : Type 0 where
  pub run : Line → Registers → V → V
  pub compare : Line → Registers → V → ℕ × ℕ

pub record Wave (V : Type 0) : Type 0 where
  pub pc : ℕ
  pub sgpr : Registers
  pub scc : Bool
  pub vector : V

pub data Next (V : Type 0) : Type 0 where
  goes : Wave V → Next V
  ended : Wave V → Next V

-- A scalar source: a register, a small constant, or the literal.
abbrev pub source : Option ℕ → Registers → ℕ → Option ℕ
source literal s n =
    if ltb n 128
    then some (s n)
    else if leb n 192
    then some (n - 128)
    else if leb n 208
    then some (2 ^ 32 + 192 - n)
    else if n == 255
    then literal
    else none

-- The order of two words as signed integers.
abbrev pub int_below : ℕ → ℕ → Bool
int_below a b = ltb ((a + 2 ^ 31) % 2 ^ 32) ((b + 2 ^ 31) % 2 ^ 32)

-- The sum of two words leaves the signed range.
abbrev pub overflows : ℕ → ℕ → Bool
overflows a b =
    if leb (2 ^ 31) a
    then leb (2 ^ 31) b && ltb ((a + b) % 2 ^ 32) (2 ^ 31)
    else ltb b (2 ^ 31) && leb (2 ^ 31) ((a + b) % 2 ^ 32)

-- Where a branch goes from `next`: its displacement has 16 bits and a sign.
abbrev pub branch_target : ℕ → ℕ → ℕ
branch_target next simm = if ltb simm (2 ^ 15) then next + simm else next + simm - 2 ^ 16

-- EXEC is in the registers 126 and 127, VCC in 106 and 107.
abbrev pub exec_zero : Registers → Bool
exec_zero s = (s 126 == 0) && (s 127 == 0)

abbrev pub store_pair : Registers → ℕ → ℕ × ℕ → Registers
store_pair s n (lo, hi) = store (store s n lo) (n + 1) hi

-- The comparisons of number 16 and more of each group of 32 leave their mask in EXEC, too.
abbrev pub compared : ℕ → ℕ × ℕ → Registers → Registers
compared op m s =
    if leb 16 (op % 32) then store_pair (store_pair s 106 m) 126 m else store_pair s 106 m

module _ {V : Type 0} (u : VectorUnit V) where
  moved : Wave V → ℕ → Option ℕ → Option (Next V)
  moved w d v = Option.map (λ x. goes (record w { sgpr = store w.sgpr d x })) v

  added : Wave V → ℕ → Option ℕ → Option ℕ → Option (Next V)
  added w d (some x) (some y) =
      some (goes (record w { sgpr = store w.sgpr d ((x + y) % 2 ^ 32); scc = overflows x y }))
  added w d x y = none

  tested : Wave V → Option ℕ → Option ℕ → Option (Next V)
  tested w (some x) (some y) = some (goes (record w { scc = int_below x y }))
  tested w x y = none

  jumped : Wave V → Bool → ℕ → Option (Next V)
  jumped w taken simm = some (goes (if taken then record w { pc = branch_target w.pc simm } else w))

  control : ℕ → ℕ → Wave V → Option (Next V)
  unfolding jumped
  control op simm w =
      if op == 0
      then some (goes w)
      else if op == 1
      then some (ended w)
      else if op == 2
      then jumped w true simm
      else if op == 4
      then jumped w (not w.scc) simm
      else if op == 8
      then jumped w (exec_zero w.sgpr) simm
      else if op == 12
      then some (goes w)
      else none

  -- An instruction, in a wave whose counter is behind it already; `none` for those that no
  -- kernel uses.
  execute : Line → Inst → Option ℕ → Wave V → Option (Next V)
  unfolding moved added tested control
  execute l (sop1 op sdst ssrc0) literal w =
      if op == 3
      then moved w sdst (source literal w.sgpr ssrc0)
      else if (op == 4) && ltb ssrc0 127
      then some
          (goes (record w { sgpr = store_pair w.sgpr sdst (w.sgpr ssrc0, w.sgpr (ssrc0 + 1)) }))
      else none
  execute l (sop2 op sdst ssrc1 ssrc0) literal w =
      if op == 2
      then added w sdst (source literal w.sgpr ssrc0) (source literal w.sgpr ssrc1)
      else none
  execute l (sopc op ssrc1 ssrc0) literal w =
      if op == 4
      then tested w (source literal w.sgpr ssrc0) (source literal w.sgpr ssrc1)
      else if op == 2
      then tested w (source literal w.sgpr ssrc1) (source literal w.sgpr ssrc0)
      else none
  execute l (sopp op simm) literal w = control op simm w
  execute l (vopc op vsrc1 src0) literal w =
      some (goes (record w { sgpr = compared op (u.compare l w.sgpr w.vector) w.sgpr }))
  execute l (vop1 op vdst src0) literal w =
      some (goes (record w { vector = u.run l w.sgpr w.vector }))
  execute l (vop2 op vdst vsrc1 src0) literal w =
      some (goes (record w { vector = u.run l w.sgpr w.vector }))
  execute l (vop3 op vdst abs clamp src0 src1 src2 omod neg) literal w =
      some (goes (record w { vector = u.run l w.sgpr w.vector }))
  execute l (mubuf op offset offen idxen glc addr64 lds vaddr vdata srsrc slc tfe soffset) literal
        w =
      some (goes (record w { vector = u.run l w.sgpr w.vector }))
  execute l (mtbuf op dfmt nfmt offset offen idxen glc addr64 vaddr vdata srsrc slc tfe soffset)
        literal w =
      some (goes (record w { vector = u.run l w.sgpr w.vector }))
  execute l i literal w = none

  execute_line : Line → Wave V → Option (Next V)
  unfolding execute
  execute_line (plain i) w = execute (plain i) i none w
  execute_line (with_literal i k) w = execute (with_literal i k) i (some k) w

  unfoldable pub execute_fetched : Wave V → Option (Line × ℕ) → Option (Next V)
  unfolding execute_line
  execute_fetched w none = none
  execute_fetched w (some (l, next)) = execute_line l (record w { pc = next })

  unfoldable pub step : (ℕ → ℕ) → Wave V → Option (Next V)
  unfolding execute_fetched
  step cell w = execute_fetched w (fetch cell w.pc)

  -- What comes after a step: `go` if the wave goes on, `stop` if it has ended.
  unfoldable pub onwards :
      (Wave V → Option (Wave V)) → (Wave V → Option (Wave V)) → Option (Next V) → Option (Wave V)
  onwards go stop none = none
  onwards go stop (some (goes w)) = go w
  onwards go stop (some (ended w)) = stop w

  -- The wave at its `s_endpgm`, if it comes there in fewer than `n` steps.
  unfoldable pub run : ℕ → (ℕ → ℕ) → Wave V → Option (Wave V)
  unfolding step onwards
  run zero cell w = none
  run (suc n) cell w = onwards (run n cell) some (step cell w)

  -- The wave after `n` steps, none of which is its `s_endpgm`.
  unfoldable pub steps : ℕ → (ℕ → ℕ) → Wave V → Option (Wave V)
  unfolding step onwards
  steps zero cell w = some w
  steps (suc n) cell w = onwards (steps n cell) (λ _. none) (step cell w)
