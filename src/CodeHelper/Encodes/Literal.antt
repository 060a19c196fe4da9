-- ===== src/CodeHelper/Encodes/Literal.antt =====
-- Layouts whose second source is the literal that the program puts behind them.
use radeonsi_compute.Base.{ℕ, ◌<◌, refl, [], ◌∷◌, arith, ◌<<◌, ◌|||◌}
use radeonsi_compute.Base.Fields.{slot, pack_zero-Reads}
use radeonsi_compute.CodeHelper.Isa.{sop2, sopc, vopc, with_literal, wants_literal, is_double}
use radeonsi_compute.CodeHelper.Words.{decode-sop2, decode-sopc, decode-vopc}
use radeonsi_compute.CodeHelper.Encodes.{Encodes, literal}

pub Encodes-sop2_literal :
    (op sdst ssrc1 k : ℕ)
    → op < 96
    → sdst < 128
    → ssrc1 < 256
    → Encodes
        (with_literal (sop2 op sdst ssrc1 255) k)
        ((0x80000000 ||| op << 23 ||| sdst << 16 ||| ssrc1 << 8 ||| 255 << 0) ∷ k ∷ [])
unfolding wants_literal is_double
Encodes-sop2_literal op sdst ssrc1 k h0 h1 h2 =
    let r =
      pack_zero-Reads
        (slot 31 1 1
          ∷ slot 30 1 0
          ∷ slot 23 7 op
          ∷ slot 16 7 sdst
          ∷ slot 8 8 ssrc1
          ∷ slot 0 8 255
          ∷ [])
        refl (omega arith) in
    literal _ k _ (decode-sop2 _ k op sdst ssrc1 255 h0 (assumption r)) (ground arith)

pub Encodes-sopc_literal :
    (op ssrc1 k : ℕ)
    → op < 128
    → ssrc1 < 256
    → Encodes
        (with_literal (sopc op ssrc1 255) k)
        ((0xBF000000 ||| 255 ||| ssrc1 << 8 ||| op << 16) ∷ k ∷ [])
unfolding wants_literal is_double
Encodes-sopc_literal op ssrc1 k h0 h1 =
    let r =
      pack_zero-Reads
        (slot 31 1 1
          ∷ slot 30 1 0
          ∷ slot 23 7 126
          ∷ slot 0 8 255
          ∷ slot 8 8 ssrc1
          ∷ slot 16 7 op
          ∷ [])
        refl (omega arith) in
    literal _ k _ (decode-sopc _ k op ssrc1 255 (assumption r)) (ground arith)

pub Encodes-vopc_literal :
    (op vsrc1 k : ℕ)
    → op < 256
    → vsrc1 < 256
    → Encodes
        (with_literal (vopc op vsrc1 255) k)
        ((0x7C000000 ||| 255 << 0 ||| vsrc1 << 9 ||| op << 17) ∷ k ∷ [])
unfolding wants_literal is_double
Encodes-vopc_literal op vsrc1 k h0 h1 =
    let r =
      pack_zero-Reads
        (slot 31 1 0 ∷ slot 25 6 62 ∷ slot 0 9 255 ∷ slot 9 8 vsrc1 ∷ slot 17 8 op ∷ []) refl
        (omega arith) in
    literal _ k _ (decode-vopc _ k op vsrc1 255 (assumption r)) refl
