-- ===== src/Command/Gpu.antt =====
-- What the packets of a buffer do to the processor: its registers, whether its caches have been
-- flushed since the last launch, and the launches with what they found.
use radeonsi_compute.Base.{
  ℕ, zero, suc, ◌+◌, ◌*◌, ◌<◌, ◌≡◌, refl, ap, ◌∙◌, Bool, true, false, ◌==◌, ◌&&◌, if◌then◌else◌,
  Option, none, some, List, [], ◌∷◌, get_elem?, arith,
}
use radeonsi_compute.Base.Bits.{field}
use radeonsi_compute.Base.Stream.{store}
use radeonsi_compute.Command.Packets.{Packet}

-- What a launch finds: the registers by their byte address, and whether the caches are flushed.
pub record Found : Type 0 where
  pub regs : ℕ → ℕ
  pub flushed : Bool

pub record Gpu : Type 0 where
  pub sh : ℕ → ℕ
  pub flushed : Bool
  pub launches : List Found

-- A write to the dispatch initiator with bit 0 set is a launch.
unfoldable pub write_reg : ℕ → ℕ → Gpu → Gpu
write_reg a v g =
    if (a == 0xB800) && (field 0 1 v == 1)
    then record g {
      sh = store g.sh a v;
      flushed = false;
      launches = record { regs = g.sh; flushed = g.flushed } ∷ g.launches;
    }
    else record g { sh = store g.sh a v }

unfoldable pub write_regs : ℕ → List ℕ → Gpu → Gpu
unfolding write_reg
write_regs a [] g = g
write_regs a (v ∷ vs) g = write_regs (a + 4) vs (write_reg a v g)

-- SET_SH_REG and SURFACE_SYNC; no other packet belongs into a launch.
exec_op : ℕ → List ℕ → Gpu → Option Gpu
exec_op op [] g = none
exec_op op (b ∷ bs) g =
    if op == 0x76
    then some (write_regs (0xB000 + 4 * b) bs g)
    else if op == 0x43
    then some (record g { flushed = true })
    else none

unfoldable pub exec : List Packet → Gpu → Option Gpu
unfolding exec_op write_regs
exec [] g = some g
exec (k ∷ ks) g = elim (exec_op k.op k.body g) [ none ↦ none | some g' ↦ exec ks g' ]

-- Consecutive writes behind the dispatch initiator: no launch, and each value in its place.
pub record Wrote (a : ℕ) (vs : List ℕ) (g h : Gpu) : Type 0 where
  pub same_launches : h.launches ≡ g.launches
  pub same_flushed : h.flushed ≡ g.flushed
  pub below : (b : ℕ) → b < a → h.sh b ≡ g.sh b
  pub written : (i w : ℕ) → get_elem? vs i ≡ some w → h.sh (a + 4 * i) ≡ w

write_reg-plain :
    (a v : ℕ) (g : Gpu) → 0xB800 < a → write_reg a v g ≡ record g { sh = store g.sh a v }
unfolding write_reg
write_reg-plain a v g h = let other : (a == 0xB800) ≡ false = ground arith in rw other

-- One write in front of those that follow.
Wrote-cons :
    (a v : ℕ) (vs : List ℕ) (g h : Gpu)
    → Wrote (a + 4) vs (record g { sh = store g.sh a v }) h
    → Wrote a (v ∷ vs) g h
Wrote-cons a v vs g h r = record {
  same_launches = r.same_launches;
  same_flushed = r.same_flushed;
  below = λ b l. ground (arith, r.below b);
  written = at;
}
  where
    at : (i w : ℕ) → get_elem? (v ∷ vs) i ≡ some w → h.sh (a + 4 * i) ≡ w
    at zero w e = ap h.sh (omega arith) ∙ r.below a (omega arith) ∙ ground arith
    at (suc i) w e = ap h.sh (omega arith) ∙ r.written i w e

pub write_regs-Wrote :
    (a : ℕ) (vs : List ℕ) (g : Gpu) → 0xB800 < a → Wrote a vs g (write_regs a vs g)
unfolding write_regs
write_regs-Wrote a [] g h = record {
  same_launches = refl;
  same_flushed = refl;
  below = λ b l. refl;
  written = λ i w e. cc;
}
write_regs-Wrote a (v ∷ vs) g h = rw (write_reg-plain a v g h) (
    Wrote-cons a v vs g _
      (write_regs-Wrote (a + 4) vs (record g { sh = store g.sh a v }) (omega arith)))
