-- ===== src/Kernels/Arithmetic.antt =====
-- The floating-point numbers of the programs that write kernels.
use radeonsi_compute.Base.{ℕ}
use radeonsi_compute.CodeHelper.Vector.{Float32, floatconv}

-- The floating-point arithmetic of the compiler: `decimal n k` is the literal of value n / 10^k,
-- `float_of` and `double_of` convert an `int`, given by its pattern, and `rounded` and `single`
-- convert to `float`, once as a value and once as its bits.
pub record Floats : Type 1 where
  pub Real : Type 0
  pub decimal : ℕ → ℕ → Real
  pub float_of : ℕ → Real
  pub double_of : ℕ → Real
  pub plus : Real → Real → Real
  pub times : Real → Real → Real
  pub over : Real → Real → Real
  pub minus : Real → Real
  pub sqrt : Real → Real
  pub log2 : Real → Real
  pub rounded : Real → Real
  pub single : Real → Float32

module _ (fl : Floats) where
  abbrev pub whole : ℕ → fl.Real
  whole n = fl.decimal n 0

  -- `floatconv(x)`.
  abbrev pub bits_of : fl.Real → ℕ
  bits_of x = floatconv (fl.single x)
