-- ===== src/Base/Shifts.antt =====
-- `<<` and `|` of C on words of 32 bits.
use Prim.Native.Nat.{ℕ, bit_or}
use radeonsi_compute.Base.Bits.{shl32}

infixl 75 ◌<<◌
abbrev pub ◌<<◌ : ℕ → ℕ → ℕ
x << k = shl32 x k

infixl 40 ◌|||◌
abbrev pub ◌|||◌ : ℕ → ℕ → ℕ
a ||| b = bit_or a b
