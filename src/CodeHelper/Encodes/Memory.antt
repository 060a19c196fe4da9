-- ===== src/CodeHelper/Encodes/Memory.antt =====
-- The layouts of the loads and stores.
use radeonsi_compute.Base.{ℕ, ◌<◌, refl, [], ◌∷◌, arith, ◌<<◌, ◌|||◌}
use radeonsi_compute.Base.Fields.{slot, pack_zero-Reads}
use radeonsi_compute.CodeHelper.Isa.{smrd, mubuf, mtbuf, plain, wants_literal, is_double}
use radeonsi_compute.CodeHelper.Words.{decode-smrd, decode-mubuf, decode-mtbuf}
use radeonsi_compute.CodeHelper.Encodes.{Encodes, single, double}

pub Encodes-smrd :
    (op sdst sbase imm offset : ℕ)
    → op < 32
    → sdst < 128
    → sbase < 64
    → imm < 2
    → offset < 256
    → Encodes
        (plain (smrd op sdst sbase imm offset))
        ((0xC0000000 ||| op << 22 ||| sdst << 15 ||| sbase << 9 ||| imm << 8 ||| offset << 0) ∷ [])
unfolding wants_literal is_double
Encodes-smrd op sdst sbase imm offset h0 h1 h2 h3 h4 =
    let r =
      pack_zero-Reads
        (slot 31 1 1
          ∷ slot 30 1 1
          ∷ slot 27 3 0
          ∷ slot 22 5 op
          ∷ slot 15 7 sdst
          ∷ slot 9 6 sbase
          ∷ slot 8 1 imm
          ∷ slot 0 8 offset
          ∷ [])
        refl (omega arith) in
    single _ _ (λ x. decode-smrd _ x op sdst sbase imm offset (assumption r)) refl refl

pub Encodes-smrd_last :
    (op sdst sbase imm offset : ℕ)
    → op < 32
    → sdst < 128
    → sbase < 64
    → imm < 2
    → offset < 256
    → Encodes
        (plain (smrd op sdst sbase imm offset))
        ((0xC0000000 ||| offset ||| imm << 8 ||| sbase << 9 ||| sdst << 15 ||| op << 22) ∷ [])
unfolding wants_literal is_double
Encodes-smrd_last op sdst sbase imm offset h0 h1 h2 h3 h4 =
    let r =
      pack_zero-Reads
        (slot 31 1 1
          ∷ slot 30 1 1
          ∷ slot 27 3 0
          ∷ slot 0 8 offset
          ∷ slot 8 1 imm
          ∷ slot 9 6 sbase
          ∷ slot 15 7 sdst
          ∷ slot 22 5 op
          ∷ [])
        refl (omega arith) in
    single _ _ (λ x. decode-smrd _ x op sdst sbase imm offset (assumption r)) refl refl

pub Encodes-mubuf :
    (op offset offen idxen glc addr64 lds vaddr vdata srsrc slc tfe soffset : ℕ)
    → op < 128
    → offset < 4096
    → offen < 2
    → idxen < 2
    → glc < 2
    → addr64 < 2
    → lds < 2
    → vaddr < 256
    → vdata < 256
    → srsrc < 32
    → slc < 2
    → tfe < 2
    → soffset < 256
    → Encodes
        (plain (mubuf op offset offen idxen glc addr64 lds vaddr vdata srsrc slc tfe soffset))
        ((0xE0000000
            ||| offset
            ||| offen << 12
            ||| idxen << 13
            ||| glc << 14
            ||| addr64 << 15
            ||| lds << 16
            ||| op << 18)
          ∷ (0
              ||| vaddr
              ||| vdata << 8
              ||| srsrc << 16
              ||| slc << 22
              ||| tfe << 23
              ||| soffset << 24)
          ∷ [])
unfolding wants_literal is_double
Encodes-mubuf op offset offen idxen glc addr64 lds vaddr vdata srsrc slc tfe soffset h0 h1 h2 h3 h4
      h5 h6 h7 h8 h9 h10 h11 h12 =
    let r =
      pack_zero-Reads
        (slot 31 1 1
          ∷ slot 30 1 1
          ∷ slot 26 4 8
          ∷ slot 0 12 offset
          ∷ slot 12 1 offen
          ∷ slot 13 1 idxen
          ∷ slot 14 1 glc
          ∷ slot 15 1 addr64
          ∷ slot 16 1 lds
          ∷ slot 18 7 op
          ∷ [])
        refl (omega arith) in
    let s =
      pack_zero-Reads
        (slot 0 8 vaddr
          ∷ slot 8 8 vdata
          ∷ slot 16 5 srsrc
          ∷ slot 22 1 slc
          ∷ slot 23 1 tfe
          ∷ slot 24 8 soffset
          ∷ [])
        refl (omega arith) in
    double _ _ _
      (decode-mubuf _ _ op offset offen idxen glc addr64 lds vaddr vdata srsrc slc tfe soffset
        (assumption r) s)
      refl refl

pub Encodes-mtbuf :
    (op dfmt nfmt offset offen idxen glc addr64 vaddr vdata srsrc slc tfe soffset : ℕ)
    → op < 8
    → dfmt < 16
    → nfmt < 8
    → offset < 4096
    → offen < 2
    → idxen < 2
    → glc < 2
    → addr64 < 2
    → vaddr < 256
    → vdata < 256
    → srsrc < 32
    → slc < 2
    → tfe < 2
    → soffset < 256
    → Encodes
        (plain (mtbuf op dfmt nfmt offset offen idxen glc addr64 vaddr vdata srsrc slc tfe soffset))
        ((0xE8000000
            ||| offset
            ||| offen << 12
            ||| idxen << 13
            ||| glc << 14
            ||| addr64 << 15
            ||| op << 16
            ||| dfmt << 19
            ||| nfmt << 23)
          ∷ (0
              ||| vaddr
              ||| vdata << 8
              ||| srsrc << 16
              ||| slc << 22
              ||| tfe << 23
              ||| soffset << 24)
          ∷ [])
unfolding wants_literal is_double
Encodes-mtbuf op dfmt nfmt offset offen idxen glc addr64 vaddr vdata srsrc slc tfe soffset h0 h1 h2
      h3 h4 h5 h6 h7 h8 h9 h10 h11 h12 h13 =
    let r =
      pack_zero-Reads
        (slot 31 1 1
          ∷ slot 30 1 1
          ∷ slot 26 4 10
          ∷ slot 0 12 offset
          ∷ slot 12 1 offen
          ∷ slot 13 1 idxen
          ∷ slot 14 1 glc
          ∷ slot 15 1 addr64
          ∷ slot 16 3 op
          ∷ slot 19 4 dfmt
          ∷ slot 23 3 nfmt
          ∷ [])
        refl (omega arith) in
    let s =
      pack_zero-Reads
        (slot 0 8 vaddr
          ∷ slot 8 8 vdata
          ∷ slot 16 5 srsrc
          ∷ slot 22 1 slc
          ∷ slot 23 1 tfe
          ∷ slot 24 8 soffset
          ∷ [])
        refl (omega arith) in
    double _ _ _
      (decode-mtbuf _ _ op dfmt nfmt offset offen idxen glc addr64 vaddr vdata srsrc slc tfe soffset
        (assumption r) s)
      refl refl
