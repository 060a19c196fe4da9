-- ===== src/CodeHelper/Words.antt =====
-- Which bit fields make a word decode to which instruction.
use radeonsi_compute.Base.{ℕ, ◌+◌, ◌*◌, ◌<◌, ◌≡◌, some, List, [], ◌∷◌, arith}
use radeonsi_compute.Base.Bits.{field}
use radeonsi_compute.Base.Fields.{Slot, slot, Reads}
use radeonsi_compute.CodeHelper.Isa.{
  sop2, sopk, sop1, sopc, sopp, smrd, vop2, vop1, vopc, vop3, mubuf, mtbuf, decode,
}

abbrev pub sop2_slots : ℕ → ℕ → ℕ → ℕ → List Slot
sop2_slots op sdst ssrc1 ssrc0 =
    slot 31 1 1 ∷ slot 30 1 0 ∷ slot 23 7 op ∷ slot 16 7 sdst ∷ slot 8 8 ssrc1 ∷ slot 0 8 ssrc0 ∷ []

abbrev pub sopk_slots : ℕ → ℕ → ℕ → List Slot
sopk_slots op sdst simm =
    slot 31 1 1 ∷ slot 30 1 0 ∷ slot 28 2 3 ∷ slot 23 5 op ∷ slot 16 7 sdst ∷ slot 0 16 simm ∷ []

abbrev pub sop1_slots : ℕ → ℕ → ℕ → List Slot
sop1_slots op sdst ssrc0 =
    slot 31 1 1 ∷ slot 30 1 0 ∷ slot 23 7 125 ∷ slot 8 8 op ∷ slot 16 7 sdst ∷ slot 0 8 ssrc0 ∷ []

abbrev pub sopc_slots : ℕ → ℕ → ℕ → List Slot
sopc_slots op ssrc1 ssrc0 =
    slot 31 1 1 ∷ slot 30 1 0 ∷ slot 23 7 126 ∷ slot 16 7 op ∷ slot 8 8 ssrc1 ∷ slot 0 8 ssrc0 ∷ []

abbrev pub sopp_slots : ℕ → ℕ → List Slot
sopp_slots op simm = slot 31 1 1 ∷ slot 30 1 0 ∷ slot 23 7 127 ∷ slot 16 7 op ∷ slot 0 16 simm ∷ []

abbrev pub smrd_slots : ℕ → ℕ → ℕ → ℕ → ℕ → List Slot
smrd_slots op sdst sbase imm offset =
    slot 31 1 1
    ∷ slot 30 1 1
    ∷ slot 27 3 0
    ∷ slot 22 5 op
    ∷ slot 15 7 sdst
    ∷ slot 9 6 sbase
    ∷ slot 8 1 imm
    ∷ slot 0 8 offset
    ∷ []

abbrev pub vop1_slots : ℕ → ℕ → ℕ → List Slot
vop1_slots op vdst src0 =
    slot 31 1 0 ∷ slot 25 6 63 ∷ slot 9 8 op ∷ slot 17 8 vdst ∷ slot 0 9 src0 ∷ []

abbrev pub vop2_slots : ℕ → ℕ → ℕ → ℕ → List Slot
vop2_slots op vdst vsrc1 src0 =
    slot 31 1 0 ∷ slot 25 6 op ∷ slot 17 8 vdst ∷ slot 9 8 vsrc1 ∷ slot 0 9 src0 ∷ []

abbrev pub vopc_slots : ℕ → ℕ → ℕ → List Slot
vopc_slots op vsrc1 src0 =
    slot 31 1 0 ∷ slot 25 6 62 ∷ slot 17 8 op ∷ slot 9 8 vsrc1 ∷ slot 0 9 src0 ∷ []

abbrev pub vop3_slots : ℕ → ℕ → ℕ → ℕ → List Slot
vop3_slots op vdst abs clamp =
    slot 31 1 1
    ∷ slot 30 1 1
    ∷ slot 26 4 4
    ∷ slot 17 9 op
    ∷ slot 0 8 vdst
    ∷ slot 8 3 abs
    ∷ slot 11 1 clamp
    ∷ []

abbrev pub vop3_second : ℕ → ℕ → ℕ → ℕ → ℕ → List Slot
vop3_second src0 src1 src2 omod neg =
    slot 0 9 src0 ∷ slot 9 9 src1 ∷ slot 18 9 src2 ∷ slot 27 2 omod ∷ slot 29 3 neg ∷ []

abbrev pub mubuf_slots : ℕ → ℕ → ℕ → ℕ → ℕ → ℕ → ℕ → List Slot
mubuf_slots op offset offen idxen glc addr64 lds =
    slot 31 1 1
    ∷ slot 30 1 1
    ∷ slot 26 4 8
    ∷ slot 0 12 offset
    ∷ slot 12 1 offen
    ∷ slot 13 1 idxen
    ∷ slot 14 1 glc
    ∷ slot 15 1 addr64
    ∷ slot 16 1 lds
    ∷ slot 18 7 op
    ∷ []

abbrev pub mtbuf_slots : ℕ → ℕ → ℕ → ℕ → ℕ → ℕ → ℕ → ℕ → List Slot
mtbuf_slots op dfmt nfmt offset offen idxen glc addr64 =
    slot 31 1 1
    ∷ slot 30 1 1
    ∷ slot 26 4 10
    ∷ slot 0 12 offset
    ∷ slot 12 1 offen
    ∷ slot 13 1 idxen
    ∷ slot 14 1 glc
    ∷ slot 15 1 addr64
    ∷ slot 16 3 op
    ∷ slot 19 4 dfmt
    ∷ slot 23 3 nfmt
    ∷ []

abbrev pub buf_second : ℕ → ℕ → ℕ → ℕ → ℕ → ℕ → List Slot
buf_second vaddr vdata srsrc slc tfe soffset =
    slot 0 8 vaddr
    ∷ slot 8 8 vdata
    ∷ slot 16 5 srsrc
    ∷ slot 22 1 slc
    ∷ slot 23 1 tfe
    ∷ slot 24 8 soffset
    ∷ []

-- The tests of the decoder look at overlapping parts of a word.
op_halves : (w : ℕ) → field 23 7 w ≡ field 28 2 w * 32 + field 23 5 w
unfolding field
op_halves w = omega arith

format_halves : (w : ℕ) → field 26 4 w ≡ field 27 3 w * 2 + field 26 1 w
unfolding field
format_halves w = omega arith

field-lt : (w : ℕ) → (field 23 5 w < 32) × (field 28 2 w < 4) × (field 26 1 w < 2)
unfolding field
field-lt w = omega arith

module _ (w x : ℕ) where
  pub decode-sop2 :
      (op sdst ssrc1 ssrc0 : ℕ)
      → op < 96
      → Reads w (sop2_slots op sdst ssrc1 ssrc0)
      → decode w x ≡ some (sop2 op sdst ssrc1 ssrc0)
  unfolding decode
  decode-sop2 op sdst ssrc1 ssrc0 h r = ground (arith, op_halves w, field-lt w)

  pub decode-sopk :
      (op sdst simm : ℕ)
      → op < 29
      → Reads w (sopk_slots op sdst simm)
      → decode w x ≡ some (sopk op sdst simm)
  unfolding decode
  decode-sopk op sdst simm h r = ground (arith, op_halves w)

  pub decode-sop1 :
      (op sdst ssrc0 : ℕ)
      → Reads w (sop1_slots op sdst ssrc0)
      → decode w x ≡ some (sop1 op sdst ssrc0)
  unfolding decode
  decode-sop1 op sdst ssrc0 r = ground arith

  pub decode-sopc :
      (op ssrc1 ssrc0 : ℕ)
      → Reads w (sopc_slots op ssrc1 ssrc0)
      → decode w x ≡ some (sopc op ssrc1 ssrc0)
  unfolding decode
  decode-sopc op ssrc1 ssrc0 r = ground arith

  pub decode-sopp : (op simm : ℕ) → Reads w (sopp_slots op simm) → decode w x ≡ some (sopp op simm)
  unfolding decode
  decode-sopp op simm r = ground arith

  pub decode-smrd :
      (op sdst sbase imm offset : ℕ)
      → Reads w (smrd_slots op sdst sbase imm offset)
      → decode w x ≡ some (smrd op sdst sbase imm offset)
  unfolding decode
  decode-smrd op sdst sbase imm offset r = ground arith

  pub decode-vop1 :
      (op vdst src0 : ℕ) → Reads w (vop1_slots op vdst src0) → decode w x ≡ some (vop1 op vdst src0)
  unfolding decode
  decode-vop1 op vdst src0 r = ground arith

  pub decode-vop2 :
      (op vdst vsrc1 src0 : ℕ)
      → op < 62
      → Reads w (vop2_slots op vdst vsrc1 src0)
      → decode w x ≡ some (vop2 op vdst vsrc1 src0)
  unfolding decode
  decode-vop2 op vdst vsrc1 src0 h r = ground arith

  pub decode-vopc :
      (op vsrc1 src0 : ℕ)
      → Reads w (vopc_slots op vsrc1 src0)
      → decode w x ≡ some (vopc op vsrc1 src0)
  unfolding decode
  decode-vopc op vsrc1 src0 r = ground arith

  pub decode-vop3 :
      (op vdst abs clamp src0 src1 src2 omod neg : ℕ)
      → Reads w (vop3_slots op vdst abs clamp)
      → Reads x (vop3_second src0 src1 src2 omod neg)
      → decode w x ≡ some (vop3 op vdst abs clamp src0 src1 src2 omod neg)
  unfolding decode
  decode-vop3 op vdst abs clamp src0 src1 src2 omod neg r s =
      ground (arith, format_halves w, field-lt w)

  pub decode-mubuf :
      (op offset offen idxen glc addr64 lds vaddr vdata srsrc slc tfe soffset : ℕ)
      → Reads w (mubuf_slots op offset offen idxen glc addr64 lds)
      → Reads x (buf_second vaddr vdata srsrc slc tfe soffset)
      → decode w x
        ≡ some (mubuf op offset offen idxen glc addr64 lds vaddr vdata srsrc slc tfe soffset)
  unfolding decode
  decode-mubuf op offset offen idxen glc addr64 lds vaddr vdata srsrc slc tfe soffset r s =
      ground (arith, format_halves w, field-lt w)

  pub decode-mtbuf :
      (op dfmt nfmt offset offen idxen glc addr64 vaddr vdata srsrc slc tfe soffset : ℕ)
      → Reads w (mtbuf_slots op dfmt nfmt offset offen idxen glc addr64)
      → Reads x (buf_second vaddr vdata srsrc slc tfe soffset)
      → decode w x
        ≡ some (mtbuf op dfmt nfmt offset offen idxen glc addr64 vaddr vdata srsrc slc tfe soffset)
  unfolding decode
  decode-mtbuf op dfmt nfmt offset offen idxen glc addr64 vaddr vdata srsrc slc tfe soffset r s =
      ground (arith, format_halves w, field-lt w)
