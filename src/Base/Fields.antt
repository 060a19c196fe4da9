-- ===== src/Base/Fields.antt =====
-- Words that are put together from bit fields, `w = 0; w |= a << i; w |= b << j; …`.
use mathlib.Core.Path.{◌≡◌, refl, ap, subst, ◌∙◌}
use mathlib.Core.Bool.{Bool, true, ◌&&◌, ◌||◌}
use mathlib.Core.List.{List, [], ◌∷◌}
use mathlib.Core.Logic.{◌⊎◌, inl, inr}
use Prim.Native.Nat.{ℕ, zero, suc, ◌+◌, ◌-◌, ◌*◌, ◌/◌, ◌%◌, ◌^◌, ◌≤◌, ◌<◌, bit_or}
use native.Mathlib.Omega.{arith}
use native.Mathlib.Nat.{
  pow-suc, pow-le-pow_right, mod-eq_of_lt, div-eq_of_lt, mul-div_left, mul-mod_left, le_trans,
  zero-div, zero-mod,
}
use radeonsi_compute.Base.Tests.{leb, &&→both}
use radeonsi_compute.Base.Lists.{All}
use radeonsi_compute.Base.Bits.{shl32, field, field-bit_or, zero-bit_or, bit_or-zero, two_pow_pos}

-- `value << shift`, meant for the bits `shift` to `shift + width - 1`.
pub record Slot : Type 0 where
  pub shift : ℕ
  pub width : ℕ
  pub value : ℕ

abbrev pub slot : ℕ → ℕ → ℕ → Slot
slot s w v = record { shift = s; width = w; value = v }

abbrev pub pack : ℕ → List Slot → ℕ
pack acc [] = acc
pack acc (s ∷ ss) = pack (bit_or acc (shl32 s.value s.shift)) ss

abbrev pub Fits : Slot → Type 0
Fits s = (s.value < 2 ^ s.width) × (s.shift + s.width ≤ 32)

-- The two slots share no bit.
abbrev pub apart : Slot → Slot → Bool
apart s t = leb (s.shift + s.width) t.shift || leb (t.shift + t.width) s.shift

abbrev pub all_apart : Slot → List Slot → Bool
all_apart s [] = true
all_apart s (t ∷ ts) = apart s t && all_apart s ts

abbrev pub disjoint : List Slot → Bool
disjoint [] = true
disjoint (s ∷ ss) = all_apart s ss && disjoint ss

abbrev read : Slot → ℕ → ℕ
read s w = field s.shift s.width w

-- What a reader of the word finds: each slot holds its value.
abbrev pub Reads : ℕ → List Slot → Type 0
Reads w = All (λ s. field s.shift s.width w ≡ s.value)

pub pow-add : (a b : ℕ) → 2 ^ (a + b) ≡ 2 ^ a * 2 ^ b
pow-add zero b = ground arith
pow-add (suc a) b =
    ap (λ t. 2 ^ t) (omega arith)
    ∙ pow-suc 2 (a + b)
    ∙ omega (arith, ap (λ (t : ℕ). t * 2) (pow-add a b), ap (λ (t : ℕ). t * 2 ^ b) (pow-suc 2 a))

shift_bound : (s w v : ℕ) → v < 2 ^ w → v * 2 ^ s < 2 ^ (s + w)
shift_bound s w v h = grind (arith, pow-add s w, two_pow_pos s)

shl32-no_wrap : (v k : ℕ) → v * 2 ^ k < 2 ^ 32 → shl32 v k ≡ v * 2 ^ k
shl32-no_wrap v zero h = omega arith
shl32-no_wrap v (suc k) h = mod-eq_of_lt h

shl32-Fits : (s : Slot) → Fits s → shl32 s.value s.shift ≡ s.value * 2 ^ s.shift
shl32-Fits s (h, k) =
    shl32-no_wrap s.value s.shift
      (le_trans (shift_bound s.shift s.width s.value h) (pow-le-pow_right (omega arith) k))

read_self : (s : Slot) → Fits s → read s (shl32 s.value s.shift) ≡ s.value
unfolding field
read_self s f =
    ap (read s) (shl32-Fits s f)
    ∙ ap (λ t. t % 2 ^ s.width) (mul-div_left s.value (two_pow_pos s.shift))
    ∙ mod-eq_of_lt f.0

read-below :
    (s t : Slot)
    → Fits s
    → s.shift + s.width ≤ t.shift
    → field t.shift t.width (s.value * 2 ^ s.shift) ≡ 0
unfolding field
read-below s t f h =
    ap (λ x. x % 2 ^ t.width)
      (div-eq_of_lt
        (le_trans (shift_bound s.shift s.width s.value f.0) (pow-le-pow_right (omega arith) h)))
    ∙ omega arith

read-above :
    (s t : Slot) (d : ℕ)
    → s.shift ≡ t.shift + t.width + d
    → field t.shift t.width (s.value * 2 ^ s.shift) ≡ 0
unfolding field
read-above s t d e =
    ap (λ x. x / 2 ^ t.shift % 2 ^ t.width) regroup
    ∙ ap (λ x. x % 2 ^ t.width) (mul-div_left (s.value * 2 ^ d * 2 ^ t.width) (two_pow_pos t.shift))
    ∙ mul-mod_left (s.value * 2 ^ d) (2 ^ t.width)
  where
    regroup : s.value * 2 ^ s.shift ≡ s.value * 2 ^ d * 2 ^ t.width * 2 ^ t.shift
    regroup = rw (e, pow-add (t.shift + t.width) d, pow-add t.shift t.width) (grind arith)

read-apart : (s t : Slot) → Fits s → apart s t ≡ true → read t (shl32 s.value s.shift) ≡ 0
read-apart s t f h = ap (read t) (shl32-Fits s f) ∙ elim (side s t h) [
  | inl below ↦ read-below s t f below
  | inr above ↦ read-above s t (s.shift - (t.shift + t.width)) (omega arith)
]
  where
    side :
        (s t : Slot)
        → apart s t ≡ true
        → (s.shift + s.width ≤ t.shift) ⊎ (t.shift + t.width ≤ s.shift)
    side s t h = ground arith

apart-sym : (s t : Slot) → apart s t ≡ true → apart t s ≡ true
apart-sym s t h = ground arith

-- `|` with a slot leaves what the others read, and fills its own place.
read-or_apart :
    (w : ℕ) (s t : Slot)
    → Fits s
    → apart s t ≡ true
    → read t (bit_or w (shl32 s.value s.shift)) ≡ read t w
read-or_apart w s t f h =
    field-bit_or t.shift t.width w (shl32 s.value s.shift)
    ∙ ap (bit_or (read t w)) (read-apart s t f h)
    ∙ bit_or-zero (read t w)

read-or_self :
    (w : ℕ) (s : Slot) → Fits s → read s w ≡ 0 → read s (bit_or w (shl32 s.value s.shift)) ≡ s.value
read-or_self w s f clear =
    field-bit_or s.shift s.width w (shl32 s.value s.shift)
    ∙ ap (λ t. bit_or t (read s (shl32 s.value s.shift))) clear
    ∙ zero-bit_or _
    ∙ read_self s f

read-pack_apart :
    (w : ℕ) (t : Slot) (ss : List Slot)
    → All Fits ss
    → all_apart t ss ≡ true
    → read t (pack w ss) ≡ read t w
read-pack_apart w t [] f h = refl
read-pack_apart w t (s ∷ ss) (f, fs) h =
    let both : (apart t s ≡ true) × (all_apart t ss ≡ true) = &&→both _ _ h in
    read-pack_apart (bit_or w (shl32 s.value s.shift)) t ss fs both.1
    ∙ read-or_apart w s t f (apart-sym t s both.0)

abbrev Clear : ℕ → List Slot → Type 0
Clear w = All (λ s. field s.shift s.width w ≡ 0)

Clear-or :
    (w : ℕ) (s : Slot) (ts : List Slot)
    → Fits s
    → all_apart s ts ≡ true
    → Clear w ts
    → Clear (bit_or w (shl32 s.value s.shift)) ts
Clear-or w s [] f h c = tt
Clear-or w s (t ∷ ts) f h (c, cs) =
    let both : (apart s t ≡ true) × (all_apart s ts ≡ true) = &&→both _ _ h in
    (read-or_apart w s t f both.0 ∙ c, Clear-or w s ts f both.1 cs)

-- Slots that fit and share no bit are read back from the word that they were packed into.
pub pack-Reads :
    (w : ℕ) (ss : List Slot) → disjoint ss ≡ true → All Fits ss → Clear w ss → Reads (pack w ss) ss
pack-Reads w [] d f c = tt
pack-Reads w (s ∷ ss) d (f, fs) (c, cs) =
    let both : (all_apart s ss ≡ true) × (disjoint ss ≡ true) = &&→both _ _ d in
    let w' : ℕ = bit_or w (shl32 s.value s.shift) in
    (
      read-pack_apart w' s ss fs both.0 ∙ read-or_self w s f c,
      pack-Reads w' ss both.1 fs (Clear-or w s ss f both.0 cs),
    )

Clear-zero : (ss : List Slot) → Clear 0 ss
unfolding field
Clear-zero [] = tt
Clear-zero (s ∷ ss) = (omega (arith, zero-div (2 ^ s.shift), zero-mod (2 ^ s.width)), Clear-zero ss)

pub pack_zero-Reads : (ss : List Slot) → disjoint ss ≡ true → All Fits ss → Reads (pack 0 ss) ss
pack_zero-Reads ss d f = pack-Reads 0 ss d f (Clear-zero ss)

-- The same where the first slot starts the word.
pub pack_first-Reads :
    (s : Slot) (ss : List Slot)
    → disjoint (s ∷ ss) ≡ true
    → All Fits (s ∷ ss)
    → Reads (pack (shl32 s.value s.shift) ss) (s ∷ ss)
pack_first-Reads s ss d f =
    subst (λ w. Reads (pack w ss) (s ∷ ss)) (zero-bit_or (shl32 s.value s.shift))
      (pack_zero-Reads (s ∷ ss) d f)
