-- ===== src/CodeHelper/Encodes/Vector.antt =====
-- The layouts of the vector helpers.
use radeonsi_compute.Base.{ℕ, ◌<◌, ◌≢◌, refl, [], ◌∷◌, arith, ◌<<◌, ◌|||◌}
use radeonsi_compute.Base.Fields.{slot, pack_zero-Reads}
use radeonsi_compute.CodeHelper.Isa.{
  vop2, vop1, vopc, vop3, plain, with_literal, wants_literal, is_double,
}
use radeonsi_compute.CodeHelper.Words.{decode-vop1, decode-vop2, decode-vopc, decode-vop3}
use radeonsi_compute.CodeHelper.Encodes.{Encodes, single, literal, double}

pub Encodes-vop1 :
    (op vdst src0 : ℕ)
    → op < 256
    → vdst < 256
    → src0 < 512
    → src0 ≢ 255
    → Encodes (plain (vop1 op vdst src0)) ((0x7E000000 ||| src0 ||| op << 9 ||| vdst << 17) ∷ [])
unfolding wants_literal is_double
Encodes-vop1 op vdst src0 h0 h1 h2 h3 =
    let r =
      pack_zero-Reads
        (slot 31 1 0 ∷ slot 25 6 63 ∷ slot 0 9 src0 ∷ slot 9 8 op ∷ slot 17 8 vdst ∷ []) refl
        (omega arith) in
    single _ _ (λ x. decode-vop1 _ x op vdst src0 (assumption r)) (ground arith) refl

pub Encodes-vop1_literal :
    (op vdst k : ℕ)
    → op < 256
    → vdst < 256
    → Encodes
        (with_literal (vop1 op vdst 255) k)
        ((0x7E000000 ||| 255 ||| op << 9 ||| vdst << 17) ∷ k ∷ [])
unfolding wants_literal is_double
Encodes-vop1_literal op vdst k h0 h1 =
    let r =
      pack_zero-Reads
        (slot 31 1 0 ∷ slot 25 6 63 ∷ slot 0 9 255 ∷ slot 9 8 op ∷ slot 17 8 vdst ∷ []) refl
        (omega arith) in
    literal _ k _ (decode-vop1 _ k op vdst 255 (assumption r)) refl

pub Encodes-vop2 :
    (op vdst vsrc1 src0 : ℕ)
    → op < 62
    → vdst < 256
    → vsrc1 < 256
    → src0 < 512
    → src0 ≢ 255
    → Encodes
        (plain (vop2 op vdst vsrc1 src0))
        ((0 ||| src0 ||| vsrc1 << 9 ||| vdst << 17 ||| op << 25) ∷ [])
unfolding wants_literal is_double
Encodes-vop2 op vdst vsrc1 src0 h0 h1 h2 h3 h4 =
    let r =
      pack_zero-Reads
        (slot 31 1 0 ∷ slot 0 9 src0 ∷ slot 9 8 vsrc1 ∷ slot 17 8 vdst ∷ slot 25 6 op ∷ []) refl
        (omega arith) in
    single _ _ (λ x. decode-vop2 _ x op vdst vsrc1 src0 h0 (assumption r)) (ground arith) refl

pub Encodes-vop2_literal :
    (op vdst vsrc1 k : ℕ)
    → op < 62
    → vdst < 256
    → vsrc1 < 256
    → Encodes
        (with_literal (vop2 op vdst vsrc1 255) k)
        ((0 ||| 255 ||| vsrc1 << 9 ||| vdst << 17 ||| op << 25) ∷ k ∷ [])
unfolding wants_literal is_double
Encodes-vop2_literal op vdst vsrc1 k h0 h1 h2 =
    let r =
      pack_zero-Reads
        (slot 31 1 0 ∷ slot 0 9 255 ∷ slot 9 8 vsrc1 ∷ slot 17 8 vdst ∷ slot 25 6 op ∷ []) refl
        (omega arith) in
    literal _ k _ (decode-vop2 _ k op vdst vsrc1 255 h0 (assumption r)) refl

pub Encodes-vopc :
    (op vsrc1 src0 : ℕ)
    → op < 256
    → vsrc1 < 256
    → src0 < 512
    → src0 ≢ 255
    → Encodes
        (plain (vopc op vsrc1 src0))
        ((0x7C000000 ||| src0 << 0 ||| vsrc1 << 9 ||| op << 17) ∷ [])
unfolding wants_literal is_double
Encodes-vopc op vsrc1 src0 h0 h1 h2 h3 =
    let r =
      pack_zero-Reads
        (slot 31 1 0 ∷ slot 25 6 62 ∷ slot 0 9 src0 ∷ slot 9 8 vsrc1 ∷ slot 17 8 op ∷ []) refl
        (omega arith) in
    single _ _ (λ x. decode-vopc _ x op vsrc1 src0 (assumption r)) (ground arith) refl

pub Encodes-vop3 :
    (op vdst abs clamp src0 src1 src2 omod neg : ℕ)
    → op < 512
    → vdst < 256
    → abs < 8
    → clamp < 2
    → src0 < 512
    → src1 < 512
    → src2 < 512
    → omod < 4
    → neg < 8
    → Encodes (plain (vop3 op vdst abs clamp src0 src1 src2 omod neg)) (
        (0xD0000000 ||| vdst << 0 ||| abs << 8 ||| clamp << 11 ||| op << 17)
        ∷ (0 ||| src0 << 0 ||| src1 << 9 ||| src2 << 18 ||| omod << 27 ||| neg << 29)
        ∷ [])
unfolding wants_literal is_double
Encodes-vop3 op vdst abs clamp src0 src1 src2 omod neg h0 h1 h2 h3 h4 h5 h6 h7 h8 =
    let r =
      pack_zero-Reads
        (slot 31 1 1
          ∷ slot 30 1 1
          ∷ slot 26 4 4
          ∷ slot 0 8 vdst
          ∷ slot 8 3 abs
          ∷ slot 11 1 clamp
          ∷ slot 17 9 op
          ∷ [])
        refl (omega arith) in
    let s =
      pack_zero-Reads
        (slot 0 9 src0 ∷ slot 9 9 src1 ∷ slot 18 9 src2 ∷ slot 27 2 omod ∷ slot 29 3 neg ∷ []) refl
        (omega arith) in
    double _ _ _ (decode-vop3 _ _ op vdst abs clamp src0 src1 src2 omod neg (assumption r) s) refl
      refl
