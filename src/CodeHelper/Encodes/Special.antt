-- ===== src/CodeHelper/Encodes/Special.antt =====
-- Layouts that a helper puts together in its own way.
use radeonsi_compute.Base.{
  ℕ, ◌+◌, ◌*◌, ◌%◌, ◌^◌, ◌<◌, ◌≡◌, ◌≢◌, ap, ◌∙◌, [], ◌∷◌, arith, ◌<<◌, ◌|||◌, bit_and,
}
use mathlib.Core.Path.{subst}
use radeonsi_compute.Base.Bits.{bit_or-add, bit_and_mask, bit_or-zero}
use radeonsi_compute.CodeHelper.Isa.{Inst, plain}
use radeonsi_compute.CodeHelper.Encodes.{Encodes}
use radeonsi_compute.CodeHelper.Encodes.Scalar.{Encodes-sop1_last, Encodes-sopp, Encodes-sopk}
use radeonsi_compute.CodeHelper.Encodes.Vector.{Encodes-vopc}
use radeonsi_compute.CodeHelper.Scalar.{sign_extend16}

hwreg_simm :
    (size offset hwregid : ℕ)
    → size < 32
    → offset < 32
    → hwregid < 64
    → (size << 11 ||| offset << 6 ||| hwregid) ≡ size * 2048 + offset * 64 + hwregid
hwreg_simm size offset hwregid h1 h2 h3 =
    ap (λ t. t ||| offset << 6 ||| hwregid) (omega arith)
    ∙ ap (λ t. t ||| hwregid) (bit_or-add 11 size (offset << 6) (omega arith) ∙ omega arith)
    ∙ bit_or-add 6 (size * 32 + offset) hwregid (omega arith)
    ∙ omega arith

pub Encodes-getreg :
    (sdst size offset hwregid : ℕ)
    → sdst < 128
    → size < 32
    → offset < 32
    → hwregid < 64
    → Encodes
        (plain (Inst.sopk 18 sdst (size * 2048 + offset * 64 + hwregid)))
        ((0xB0000000 ||| (size << 11 ||| offset << 6 ||| hwregid) ||| 18 << 23 ||| sdst << 16) ∷ [])
Encodes-getreg sdst size offset hwregid h0 h1 h2 h3 =
    rw (hwreg_simm size offset hwregid h1 h2 h3)
      (Encodes-sopk 18 sdst (size * 2048 + offset * 64 + hwregid) (omega arith) h0 (omega arith))

pub Encodes-sleep :
    (imm : ℕ)
    → imm < 65536
    → Encodes (plain (Inst.sopp 14 imm)) ((0xBF800000 ||| 14 << 16 ||| bit_and imm 0xFFFF) ∷ [])
Encodes-sleep imm h = rw (bit_and_mask 16 imm ∙ low) (Encodes-sopp 14 imm (omega arith) h)
  where
    low : imm % 2 ^ 16 ≡ imm
    low = omega arith

pub Encodes-getpc :
    (sdst : ℕ)
    → sdst < 128
    → Encodes (plain (Inst.sop1 31 sdst 0)) ((0xBE800000 ||| 31 << 8 ||| sdst << 16) ∷ [])
Encodes-getpc sdst h =
    subst (λ w. Encodes (plain (Inst.sop1 31 sdst 0)) (w ∷ [])) (bit_or-zero _)
      (Encodes-sop1_last 31 sdst 0 (omega arith) h (omega arith) (omega arith))

-- The displacement of a branch, an `int16_t`, comes back whole.
sign_mask : (imm : ℕ) → imm < 65536 → bit_and (sign_extend16 imm) 0xFFFF ≡ imm
unfolding sign_extend16
sign_mask imm h = bit_and_mask 16 _ ∙ ground arith

pub Encodes-branch :
    (op imm : ℕ)
    → op < 128
    → imm < 65536
    → Encodes
        (plain (Inst.sopp op imm))
        ((0xBF800000 ||| op << 16 ||| bit_and (sign_extend16 imm) 0xFFFF) ∷ [])
Encodes-branch op imm h0 h = rw (sign_mask imm h) (Encodes-sopp op imm h0 h)

pub Encodes-vopc_low :
    (op vsrc1 src0 : ℕ)
    → op < 256
    → vsrc1 ≡ 0
    → src0 < 512
    → src0 ≢ 255
    → Encodes
        (plain (Inst.vopc op vsrc1 src0))
        ((0x7C000000 ||| src0 << 0 ||| vsrc1 << 8 ||| op << 17) ∷ [])
Encodes-vopc_low op vsrc1 src0 h0 z h1 h2 = rw z (Encodes-vopc op 0 src0 h0 (omega arith) h1 h2)
