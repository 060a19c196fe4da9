-- ===== src/CodeHelper/Encodes.antt =====
-- The words of each layout in code_helper.h, with the line that they are read as.
pub mod Scalar
pub mod Vector
pub mod Memory
pub mod Special
pub mod Literal
use radeonsi_compute.Base.{
  ℕ, ◌+◌, ◌*◌, ◌/◌, ◌%◌, ◌^◌, ◌<◌, ◌≡◌, ◌≢◌, refl, sym, ap, ◌∙◌, true, false, some, List, [], ◌∷◌,
  arith, ◌<<◌, ◌|||◌, length,
}
use radeonsi_compute.Base.Bits.{field, bit_or-zero}
use radeonsi_compute.Base.Fields.{slot, pack_zero-Reads}
use radeonsi_compute.Base.Stream.{words}
use radeonsi_compute.CodeHelper.Isa.{
  Inst, sop2, sopk, sop1, sopc, sopp, smrd, vop2, vop1, vopc, vop3, mubuf, mtbuf, decode, Line,
  plain, with_literal, wants_literal, is_double, fetch,
}
use radeonsi_compute.CodeHelper.Words.{
  decode-sop2, decode-sopk, decode-sop1, decode-sopc, decode-sopp, decode-smrd, decode-vop1,
  decode-vop2, decode-vopc, decode-vop3, decode-mubuf, decode-mtbuf,
}

-- The words of one line of code.
pub data Encodes : Line → List ℕ → Type 0 where
  single :
      (w : ℕ) (i : Inst)
      → ((x : ℕ) → decode w x ≡ some i)
      → wants_literal i ≡ false
      → is_double i ≡ false
      → Encodes (plain i) (w ∷ [])
  literal :
      (w k : ℕ) (i : Inst)
      → decode w k ≡ some i
      → wants_literal i ≡ true
      → Encodes (with_literal i k) (w ∷ k ∷ [])
  double :
      (w x : ℕ) (i : Inst)
      → decode w x ≡ some i
      → wants_literal i ≡ false
      → is_double i ≡ true
      → Encodes (plain i) (w ∷ x ∷ [])

-- Where the words of a line stand, the processor reads that line and goes on behind them.
pub fetch-Encodes :
    {l : Line} {ws : List ℕ} (cell : ℕ → ℕ) (a : ℕ)
    → Encodes l ws
    → words cell a (length ws) ≡ ws
    → fetch cell a ≡ some (l, a + length ws)
unfolding fetch
fetch-Encodes cell a (single w i d n m) e = ground (arith, d (cell (a + 1)))
fetch-Encodes cell a (literal w k i d n) e = ground arith
fetch-Encodes cell a (double w x i d n m) e = ground arith
