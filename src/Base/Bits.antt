-- ===== src/Base/Bits.antt =====
-- Words of 32 bits: shifts that wrap, and the laws of `|` and `&` on bit fields.
use Prim.Native.Nat.{
  ℕ, zero, suc, ◌+◌, ◌-◌, ◌*◌, ◌/◌, ◌%◌, ◌^◌, ◌≤◌, ◌<◌, bit_and, bit_or, min, max, digits, bitwise,
  bit_and-bitwise, bit_or-bitwise,
}
use mathlib.Core.Path.{◌≡◌, refl, sym, ap, ap₂, ◌∙◌}
use mathlib.Core.Logic.{◌⊎◌, inl, inr}
use native.Mathlib.Omega.{arith}
use native.Mathlib.Nat.{
  pow-suc, one-le-pow, div-add-mod, mod-lt, mod-eq_of_lt, add-mul-mod_self_left, div-div-eq-div-mul,
  mul-div_left, mul-mod_left, div-eq_of_lt,
}

-- `(uint32_t) x`.
abbrev pub u32 : ℕ → ℕ
u32 x = x % 2 ^ 32

-- `x << k` on a value of 32 bits.
abbrev pub shl32 : ℕ → ℕ → ℕ
shl32 x zero = x
shl32 x (suc k) = u32 (x * 2 ^ suc k)

-- The `width` bits of `w` from bit `lo` up.
unfoldable pub field : ℕ → ℕ → ℕ → ℕ
field lo width w = w / 2 ^ lo % 2 ^ width

-- `bitwise` goes by the digits of its first argument, on as much fuel as that argument; more fuel
-- changes nothing, so that the lowest digit splits off from any argument.
module _ (rest : ℕ → ℕ) (pair : ℕ → ℕ → ℕ) where
  spare_fuel :
      (fuel x y : ℕ) → x ≤ fuel → digits rest pair (suc fuel) x y ≡ digits rest pair fuel x y
  spare_fuel zero zero y enough = refl
  spare_fuel zero (suc x) y enough = absurd (omega arith)
  spare_fuel (suc fuel) zero y enough = refl
  spare_fuel (suc fuel) (suc x) y enough =
      ap (λ t. t * 2 + pair (suc x % 2) (y % 2)) (spare_fuel fuel (suc x / 2) (y / 2) (omega arith))

  at_most : (x n : ℕ) → x ≤ suc n → (x ≤ n) ⊎ (suc n ≡ x)
  at_most x n h = ground arith

  digits-bitwise : (fuel x y : ℕ) → x ≤ fuel → digits rest pair fuel x y ≡ bitwise rest pair x y
  digits-bitwise zero zero y enough = refl
  digits-bitwise zero (suc x) y enough = absurd (omega arith)
  digits-bitwise (suc fuel) x y enough = elim (at_most x fuel enough) [
    | inl less ↦ spare_fuel fuel x y less ∙ digits-bitwise fuel x y less
    | inr same ↦ ap (λ n. digits rest pair n x y) same
  ]

  lowest_digit :
      ((y : ℕ) → rest y ≡ rest (y / 2) * 2 + pair 0 (y % 2))
      → (x y : ℕ)
      → bitwise rest pair x y ≡ bitwise rest pair (x / 2) (y / 2) * 2 + pair (x % 2) (y % 2)
  lowest_digit base zero y = base y
  lowest_digit base (suc x) y =
      ap (λ t. t * 2 + pair (suc x % 2) (y % 2))
        (digits-bitwise x (suc x / 2) (y / 2) (omega arith))

pub bit_or_step : (a b : ℕ) → bit_or a b ≡ bit_or (a / 2) (b / 2) * 2 + max (a % 2) (b % 2)
bit_or_step a b =
    bit_or-bitwise a b
    ∙ lowest_digit (λ y. y) max (λ y. omega arith) a b
    ∙ ap (λ t. t * 2 + max (a % 2) (b % 2)) (sym (bit_or-bitwise (a / 2) (b / 2)))

pub bit_and_step : (a b : ℕ) → bit_and a b ≡ bit_and (a / 2) (b / 2) * 2 + min (a % 2) (b % 2)
bit_and_step a b =
    bit_and-bitwise a b
    ∙ lowest_digit (λ y. 0) min (λ y. omega arith) a b
    ∙ ap (λ t. t * 2 + min (a % 2) (b % 2)) (sym (bit_and-bitwise (a / 2) (b / 2)))

pub zero-bit_or : (a : ℕ) → bit_or 0 a ≡ a
zero-bit_or a = bit_or-bitwise 0 a

-- What holds of 0 and of a number if it holds of its half, holds of all numbers.
module _ (P : ℕ → Type 0) (base : P 0) (double : (a : ℕ) → P (a / 2) → P a) where
  halving_within : (bound a : ℕ) → a ≤ bound → P a
  halving_within bound zero h = base
  halving_within zero (suc a) h = absurd (omega arith)
  halving_within (suc bound) (suc a) h =
      double (suc a) (halving_within bound (suc a / 2) (omega arith))

  halving : (a : ℕ) → P a
  halving a = halving_within a a (omega arith)

pub bit_or-zero : (a : ℕ) → bit_or a 0 ≡ a
bit_or-zero = halving (λ a. bit_or a 0 ≡ a) refl (λ a half. omega (arith, bit_or_step a 0, half))

bit_and-zero : (a : ℕ) → bit_and a 0 ≡ 0
bit_and-zero = halving (λ a. bit_and a 0 ≡ 0) refl (λ a half. omega (arith, bit_and_step a 0, half))

pub two_pow_pos : (k : ℕ) → 0 < 2 ^ k
two_pow_pos k = one-le-pow k 2 (omega arith)

-- A remainder by `2 ^ (k + 1)` from that of the half by `2 ^ k`.
mod_pow_suc : (a k : ℕ) → a % 2 ^ suc k ≡ a / 2 % 2 ^ k * 2 + a % 2
mod_pow_suc a k =
    ap (λ t. t % 2 ^ suc k) split ∙ add-mul-mod_self_left r (2 ^ suc k) q ∙ mod-eq_of_lt small
  where
    q : ℕ
    q = a / 2 / 2 ^ k

    r : ℕ
    r = a / 2 % 2 ^ k * 2 + a % 2

    small : r < 2 ^ suc k
    small = omega (arith, mod-lt (a / 2) (two_pow_pos k), pow-suc 2 k)

    split : a ≡ r + 2 ^ suc k * q
    split = omega (arith, div-add-mod (a / 2) (2 ^ k), ap (λ (t : ℕ). t * q) (pow-suc 2 k))

-- `x & (2^k - 1)` is the remainder by `2^k`.
pub bit_and_mask : (k a : ℕ) → bit_and a (2 ^ k - 1) ≡ a % 2 ^ k
bit_and_mask zero a = omega (arith, bit_and-zero a)
bit_and_mask (suc k) a = ground (
  arith,
  bit_and_step a (2 ^ suc k - 1),
  pow-suc 2 k,
  two_pow_pos k,
  mod_pow_suc a k,
  bit_and_mask k (a / 2),
)

bit_or-half : (a b : ℕ) → bit_or a b / 2 ≡ bit_or (a / 2) (b / 2)
bit_or-half a b = omega (arith, bit_or_step a b)

bit_or-div : (k a b : ℕ) → bit_or a b / 2 ^ k ≡ bit_or (a / 2 ^ k) (b / 2 ^ k)
bit_or-div zero a b = ground arith
bit_or-div (suc k) a b =
    halve (bit_or a b)
    ∙ ap (λ t. t / 2) (bit_or-div k a b)
    ∙ bit_or-half (a / 2 ^ k) (b / 2 ^ k)
    ∙ sym (ap (λ t. bit_or t (b / 2 ^ k / 2)) (halve a))
    ∙ sym (ap (λ t. bit_or (a / 2 ^ suc k) t) (halve b))
  where
    halve : (x : ℕ) → x / 2 ^ suc k ≡ x / 2 ^ k / 2
    halve x = ap (λ t. x / t) (pow-suc 2 k) ∙ sym (div-div-eq-div-mul x (2 ^ k) 2)

bit_or-mod : (k a b : ℕ) → bit_or a b % 2 ^ k ≡ bit_or (a % 2 ^ k) (b % 2 ^ k)
bit_or-mod zero a b = ground arith
bit_or-mod (suc k) a b = ground (
  arith,
  mod_pow_suc (bit_or a b) k,
  mod_pow_suc a k,
  mod_pow_suc b k,
  bit_or_step a b,
  bit_or_step (a % 2 ^ suc k) (b % 2 ^ suc k),
  bit_or-mod k (a / 2) (b / 2),
)

-- A bit field of `a | b` is the `|` of the two fields.
pub field-bit_or :
    (lo width a b : ℕ) → field lo width (bit_or a b) ≡ bit_or (field lo width a) (field lo width b)
unfolding field
field-bit_or lo width a b =
    ap (λ t. t % 2 ^ width) (bit_or-div lo a b) ∙ bit_or-mod width (a / 2 ^ lo) (b / 2 ^ lo)

-- `|` of a field above bit `k` and one below it is their sum.
pub bit_or-add : (k q r : ℕ) → r < 2 ^ k → bit_or (q * 2 ^ k) r ≡ q * 2 ^ k + r
bit_or-add k q r h =
    sym (div-add-mod (bit_or (q * 2 ^ k) r) (2 ^ k))
    ∙ ap₂ (λ d m. 2 ^ k * d + m) high low
    ∙ grind arith
  where
    high : bit_or (q * 2 ^ k) r / 2 ^ k ≡ q
    high =
        bit_or-div k (q * 2 ^ k) r
        ∙ ap₂ bit_or (mul-div_left q (two_pow_pos k)) (div-eq_of_lt h)
        ∙ bit_or-zero q

    low : bit_or (q * 2 ^ k) r % 2 ^ k ≡ r
    low =
        bit_or-mod k (q * 2 ^ k) r
        ∙ ap₂ bit_or (mul-mod_left q (2 ^ k)) (mod-eq_of_lt h)
        ∙ zero-bit_or r
