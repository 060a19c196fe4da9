-- ===== src/CodeHelper/Program/Comparisons.antt =====
-- The three comparisons of code_helper.h that put their second source at bit 8.
use radeonsi_compute.Base.{
  ℕ, ◌+◌, ◌*◌, ◌/◌, ◌%◌, ◌<◌, ◌≡◌, refl, ap, ◌∙◌, some, [], ◌∷◌, arith, ◌<<◌, ◌|||◌,
}
use radeonsi_compute.Base.Bits.{field}
use radeonsi_compute.Base.Fields.{slot, pack_zero-Reads}
use radeonsi_compute.Base.Stream.{Stream, put, cell-put_self}
use radeonsi_compute.CodeHelper.Isa.{Inst, decode}
use radeonsi_compute.CodeHelper.Words.{decode-vopc}
use radeonsi_compute.CodeHelper.Program.{assemble, v_cmp_lt_f32, v_cmpx_lt_f32, v_cmp_gt_f32}

-- Bits 8 to 16 seen as the field of the second source and the top bit of the first.
straddle :
    (w : ℕ)
    → (field 9 8 w ≡ field 8 9 w / 2) × (field 0 9 w ≡ field 0 8 w + 256 * (field 8 9 w % 2))
unfolding field
straddle w = omega arith

decode-low :
    (op vsrc1 src0 x : ℕ)
    → op < 256
    → vsrc1 < 512
    → src0 < 256
    → decode (0x7C000000 ||| src0 << 0 ||| vsrc1 << 8 ||| op << 17) x
      ≡ some (Inst.vopc op (vsrc1 / 2) (src0 + 256 * (vsrc1 % 2)))
decode-low op vsrc1 src0 x h0 h1 h2 =
    let w : ℕ = 0x7C000000 ||| src0 << 0 ||| vsrc1 << 8 ||| op << 17 in
    let r =
      pack_zero-Reads
        (slot 31 1 0 ∷ slot 25 6 62 ∷ slot 0 8 src0 ∷ slot 8 9 vsrc1 ∷ slot 17 8 op ∷ []) refl
        (omega arith) in
    decode-vopc w x op (vsrc1 / 2) (src0 + 256 * (vsrc1 % 2)) (
      r.0,
      (
        r.1.0,
        (
          r.1.1.1.1.0,
          (
            (straddle w).0 ∙ ap (λ t. t / 2) r.1.1.1.0,
            ((straddle w).1 ∙ omega (arith, r.1.1.0, r.1.1.1.0), tt),
          ),
        ),
      ),
    )

-- With a first source below 256 and any second source below 256, the word of `v_cmp_lt_f32`,
-- `v_cmpx_lt_f32` and `v_cmp_gt_f32` is read with half of the second source as its register,
-- and with a first source that is 256 too large where the second is odd.
pub comparisons_read_half :
    (vsrc1 src0 x : ℕ) (p : Stream)
    → vsrc1 < 256
    → src0 < 256
    → let read = λ (op : ℕ). some (Inst.vopc op (vsrc1 / 2) (src0 + 256 * (vsrc1 % 2))) in
      (decode ((assemble (v_cmp_lt_f32 vsrc1 src0) p).cell p.pos) x ≡ read 1)
      × (decode ((assemble (v_cmpx_lt_f32 vsrc1 src0) p).cell p.pos) x ≡ read 17)
      × (decode ((assemble (v_cmp_gt_f32 vsrc1 src0) p).cell p.pos) x ≡ read 4)
unfolding assemble
comparisons_read_half vsrc1 src0 x p h1 h2 =
    (read_at 1 (omega arith), read_at 17 (omega arith), read_at 4 (omega arith))
  where
    read_at :
        (op : ℕ)
        → op < 256
        → decode ((put (0x7C000000 ||| src0 << 0 ||| vsrc1 << 8 ||| op << 17) p).cell p.pos) x
          ≡ some (Inst.vopc op (vsrc1 / 2) (src0 + 256 * (vsrc1 % 2)))
    read_at op h =
        ap (λ w. decode w x) (cell-put_self _ p) ∙ decode-low op vsrc1 src0 x h (omega arith) h2
