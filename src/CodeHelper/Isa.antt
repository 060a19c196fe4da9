-- ===== src/CodeHelper/Isa.antt =====
-- How the processor reads the words that the helpers of code_helper.h write: the formats of the
-- Southern Islands microcode, as a decoder that is independent of the helpers.
use radeonsi_compute.Base.{
  ℕ, zero, suc, ◌+◌, ◌==◌, if◌then◌else◌, Bool, true, false, ◌||◌, Option, none, some, List, [],
  ◌∷◌,
}
use radeonsi_compute.Base.Bits.{field}
use mathlib.Core.Option

pub data Inst : Type 0 where
  sop2 : (op sdst ssrc1 ssrc0 : ℕ) → Inst
  sopk : (op sdst simm : ℕ) → Inst
  sop1 : (op sdst ssrc0 : ℕ) → Inst
  sopc : (op ssrc1 ssrc0 : ℕ) → Inst
  sopp : (op simm : ℕ) → Inst
  smrd : (op sdst sbase imm offset : ℕ) → Inst
  vop2 : (op vdst vsrc1 src0 : ℕ) → Inst
  vop1 : (op vdst src0 : ℕ) → Inst
  vopc : (op vsrc1 src0 : ℕ) → Inst
  vop3 : (op vdst abs clamp src0 src1 src2 omod neg : ℕ) → Inst
  mubuf : (op offset offen idxen glc addr64 lds : ℕ) (vaddr vdata srsrc slc tfe soffset : ℕ) → Inst
  mtbuf :
      (op dfmt nfmt offset offen idxen glc addr64 : ℕ) (vaddr vdata srsrc slc tfe soffset : ℕ)
      → Inst

-- An instruction with the literal constant that follows it, if it has one.
pub data Line : Type 0 where
  plain : Inst → Line
  with_literal : Inst → ℕ → Line

decode_vector : ℕ → Inst
decode_vector w =
    if field 25 6 w == 63
    then vop1 (field 9 8 w) (field 17 8 w) (field 0 9 w)
    else if field 25 6 w == 62
    then vopc (field 17 8 w) (field 9 8 w) (field 0 9 w)
    else vop2 (field 25 6 w) (field 17 8 w) (field 9 8 w) (field 0 9 w)

decode_scalar : ℕ → Inst
decode_scalar w =
    if field 23 7 w == 125
    then sop1 (field 8 8 w) (field 16 7 w) (field 0 8 w)
    else if field 23 7 w == 126
    then sopc (field 16 7 w) (field 8 8 w) (field 0 8 w)
    else if field 23 7 w == 127
    then sopp (field 16 7 w) (field 0 16 w)
    else if field 28 2 w == 3
    then sopk (field 23 5 w) (field 16 7 w) (field 0 16 w)
    else sop2 (field 23 7 w) (field 16 7 w) (field 8 8 w) (field 0 8 w)

decode_wide : ℕ → ℕ → Option Inst
decode_wide w x =
    if field 27 3 w == 0
    then some (smrd (field 22 5 w) (field 15 7 w) (field 9 6 w) (field 8 1 w) (field 0 8 w))
    else if field 26 4 w == 4
    then some (
        vop3 (field 17 9 w) (field 0 8 w) (field 8 3 w) (field 11 1 w) (field 0 9 x) (field 9 9 x)
          (field 18 9 x) (field 27 2 x) (field 29 3 x))
    else if field 26 4 w == 8
    then some (
        mubuf (field 18 7 w) (field 0 12 w) (field 12 1 w) (field 13 1 w) (field 14 1 w)
          (field 15 1 w) (field 16 1 w) (field 0 8 x) (field 8 8 x) (field 16 5 x) (field 22 1 x)
          (field 23 1 x) (field 24 8 x))
    else if field 26 4 w == 10
    then some (
        mtbuf (field 16 3 w) (field 19 4 w) (field 23 3 w) (field 0 12 w) (field 12 1 w)
          (field 13 1 w) (field 14 1 w) (field 15 1 w) (field 0 8 x) (field 8 8 x) (field 16 5 x)
          (field 22 1 x) (field 23 1 x) (field 24 8 x))
    else none

-- The instruction in `w`, of which `x` is the second word if it has one.
unfoldable pub decode : ℕ → ℕ → Option Inst
unfolding decode_vector decode_scalar decode_wide
decode w x =
    if field 31 1 w == 0
    then some (decode_vector w)
    else if field 30 1 w == 0
    then some (decode_scalar w)
    else decode_wide w x

-- A source of code 255 stands for the literal that follows.
unfoldable pub wants_literal : Inst → Bool
wants_literal (sop2 op sdst ssrc1 ssrc0) = (ssrc1 == 255) || (ssrc0 == 255)
wants_literal (sop1 op sdst ssrc0) = ssrc0 == 255
wants_literal (sopc op ssrc1 ssrc0) = (ssrc1 == 255) || (ssrc0 == 255)
wants_literal (vop2 op vdst vsrc1 src0) = src0 == 255
wants_literal (vop1 op vdst src0) = src0 == 255
wants_literal (vopc op vsrc1 src0) = src0 == 255
wants_literal i = false

unfoldable pub is_double : Inst → Bool
is_double (vop3 op vdst abs clamp src0 src1 src2 omod neg) = true
is_double (mubuf op offset offen idxen glc addr64 lds vaddr vdata srsrc slc tfe soffset) = true
is_double (mtbuf op dfmt nfmt offset offen idxen glc addr64 vaddr vdata srsrc slc tfe soffset) =
    true
is_double i = false

-- The line that stands at `a`, and where the next one begins.
unfoldable pub fetch_decoded : (ℕ → ℕ) → ℕ → Inst → Line × ℕ
unfolding wants_literal is_double
fetch_decoded cell a i =
    if wants_literal i
    then (with_literal i (cell (a + 1)), a + 2)
    else if is_double i
    then (plain i, a + 2)
    else (plain i, a + 1)

unfoldable pub fetch : (ℕ → ℕ) → ℕ → Option (Line × ℕ)
unfolding fetch_decoded
fetch cell a = Option.map (fetch_decoded cell a) (decode (cell a) (cell (a + 1)))

-- The next `n` lines.
unfoldable pub disassemble : ℕ → (ℕ → ℕ) → ℕ → Option (List Line)
disassemble zero cell a = some []
disassemble (suc n) cell a = elim (fetch cell a) [
  | none ↦ none
  | some (l, next) ↦ Option.map (◌∷◌ l) (disassemble n cell next)
]
