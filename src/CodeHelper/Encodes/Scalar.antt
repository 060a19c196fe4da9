-- ===== src/CodeHelper/Encodes/Scalar.antt =====
-- The layouts of the scalar helpers.
use radeonsi_compute.Base.{ℕ, ◌<◌, ◌≢◌, refl, [], ◌∷◌, arith, ◌<<◌, ◌|||◌}
use radeonsi_compute.Base.Fields.{slot, pack_zero-Reads}
use radeonsi_compute.CodeHelper.Isa.{
  sop2, sopk, sop1, sopc, sopp, plain, with_literal, wants_literal, is_double,
}
use radeonsi_compute.CodeHelper.Words.{
  decode-sop2, decode-sopk, decode-sop1, decode-sopc, decode-sopp,
}
use radeonsi_compute.CodeHelper.Encodes.{Encodes, single, literal}

pub Encodes-sop2 :
    (op sdst ssrc1 ssrc0 : ℕ)
    → op < 96
    → sdst < 128
    → ssrc1 < 256
    → ssrc1 ≢ 255
    → ssrc0 < 256
    → ssrc0 ≢ 255
    → Encodes
        (plain (sop2 op sdst ssrc1 ssrc0))
        ((0x80000000 ||| op << 23 ||| sdst << 16 ||| ssrc1 << 8 ||| ssrc0 << 0) ∷ [])
unfolding wants_literal is_double
Encodes-sop2 op sdst ssrc1 ssrc0 h0 h1 h2 h3 h4 h5 =
    let r =
      pack_zero-Reads
        (slot 31 1 1
          ∷ slot 30 1 0
          ∷ slot 23 7 op
          ∷ slot 16 7 sdst
          ∷ slot 8 8 ssrc1
          ∷ slot 0 8 ssrc0
          ∷ [])
        refl (omega arith) in
    single _ _ (λ x. decode-sop2 _ x op sdst ssrc1 ssrc0 h0 (assumption r)) (ground arith) refl

pub Encodes-sopc :
    (op ssrc1 ssrc0 : ℕ)
    → op < 128
    → ssrc1 < 256
    → ssrc1 ≢ 255
    → ssrc0 < 256
    → ssrc0 ≢ 255
    → Encodes
        (plain (sopc op ssrc1 ssrc0))
        ((0xBF000000 ||| ssrc0 ||| ssrc1 << 8 ||| op << 16) ∷ [])
unfolding wants_literal is_double
Encodes-sopc op ssrc1 ssrc0 h0 h1 h2 h3 h4 =
    let r =
      pack_zero-Reads
        (slot 31 1 1
          ∷ slot 30 1 0
          ∷ slot 23 7 126
          ∷ slot 0 8 ssrc0
          ∷ slot 8 8 ssrc1
          ∷ slot 16 7 op
          ∷ [])
        refl (omega arith) in
    single _ _ (λ x. decode-sopc _ x op ssrc1 ssrc0 (assumption r)) (ground arith) refl

pub Encodes-sop1 :
    (op sdst ssrc0 : ℕ)
    → op < 256
    → sdst < 128
    → ssrc0 < 256
    → ssrc0 ≢ 255
    → Encodes (plain (sop1 op sdst ssrc0)) ((0xBE800000 ||| ssrc0 ||| op << 8 ||| sdst << 16) ∷ [])
unfolding wants_literal is_double
Encodes-sop1 op sdst ssrc0 h0 h1 h2 h3 =
    let r =
      pack_zero-Reads
        (slot 31 1 1
          ∷ slot 30 1 0
          ∷ slot 23 7 125
          ∷ slot 0 8 ssrc0
          ∷ slot 8 8 op
          ∷ slot 16 7 sdst
          ∷ [])
        refl (omega arith) in
    single _ _ (λ x. decode-sop1 _ x op sdst ssrc0 (assumption r)) (ground arith) refl

pub Encodes-sop1_literal :
    (op sdst k : ℕ)
    → op < 256
    → sdst < 128
    → Encodes
        (with_literal (sop1 op sdst 255) k)
        ((0xBE800000 ||| 255 ||| op << 8 ||| sdst << 16) ∷ k ∷ [])
unfolding wants_literal is_double
Encodes-sop1_literal op sdst k h0 h1 =
    let r =
      pack_zero-Reads
        (slot 31 1 1
          ∷ slot 30 1 0
          ∷ slot 23 7 125
          ∷ slot 0 8 255
          ∷ slot 8 8 op
          ∷ slot 16 7 sdst
          ∷ [])
        refl (omega arith) in
    literal _ k _ (decode-sop1 _ k op sdst 255 (assumption r)) refl

pub Encodes-sop1_last :
    (op sdst ssrc0 : ℕ)
    → op < 256
    → sdst < 128
    → ssrc0 < 256
    → ssrc0 ≢ 255
    → Encodes (plain (sop1 op sdst ssrc0)) ((0xBE800000 ||| op << 8 ||| sdst << 16 ||| ssrc0) ∷ [])
unfolding wants_literal is_double
Encodes-sop1_last op sdst ssrc0 h0 h1 h2 h3 =
    let r =
      pack_zero-Reads
        (slot 31 1 1
          ∷ slot 30 1 0
          ∷ slot 23 7 125
          ∷ slot 8 8 op
          ∷ slot 16 7 sdst
          ∷ slot 0 8 ssrc0
          ∷ [])
        refl (omega arith) in
    single _ _ (λ x. decode-sop1 _ x op sdst ssrc0 (assumption r)) (ground arith) refl

pub Encodes-sopp :
    (op simm : ℕ)
    → op < 128
    → simm < 65536
    → Encodes (plain (sopp op simm)) ((0xBF800000 ||| op << 16 ||| simm) ∷ [])
unfolding wants_literal is_double
Encodes-sopp op simm h0 h1 =
    let r =
      pack_zero-Reads
        (slot 31 1 1 ∷ slot 30 1 0 ∷ slot 23 7 127 ∷ slot 16 7 op ∷ slot 0 16 simm ∷ []) refl
        (omega arith) in
    single _ _ (λ x. decode-sopp _ x op simm (assumption r)) refl refl

pub Encodes-sopk :
    (op sdst simm : ℕ)
    → op < 29
    → sdst < 128
    → simm < 65536
    → Encodes (plain (sopk op sdst simm)) ((0xB0000000 ||| simm ||| op << 23 ||| sdst << 16) ∷ [])
unfolding wants_literal is_double
Encodes-sopk op sdst simm h0 h1 h2 =
    let r =
      pack_zero-Reads
        (slot 31 1 1
          ∷ slot 30 1 0
          ∷ slot 28 2 3
          ∷ slot 0 16 simm
          ∷ slot 23 5 op
          ∷ slot 16 7 sdst
          ∷ [])
        refl (omega arith) in
    single _ _ (λ x. decode-sopk _ x op sdst simm h0 (assumption r)) refl refl
