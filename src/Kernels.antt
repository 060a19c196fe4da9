-- ===== src/Kernels.antt =====
-- The kernels that mandelbrot.cpp and divide_precision.cpp write with the helpers of
-- code_helper.h: pieces of code with the literals behind them.
pub mod Arithmetic
pub mod Reading
pub mod Wave
pub mod Mandelbrot
pub mod Pieces
pub mod Experiments
pub mod BinaryOperation
pub mod Tests
use radeonsi_compute.Base.{ℕ, List, [], ◌∷◌}
use radeonsi_compute.Base.Stream.{Stream, put}
use radeonsi_compute.CodeHelper.Isa.{Line, plain, with_literal}
use radeonsi_compute.CodeHelper.Program.{Call, assemble}
use radeonsi_compute.CodeHelper.Program.Lines.{line}

-- A call of a helper, alone or followed by `p[0] = w; p++`.
pub data Item : Type 0 where
  call : Call → Item
  with_word : Call → ℕ → Item

unfoldable pub emit_code : List Item → Stream → Stream
unfolding assemble
emit_code [] p = p
emit_code (call k ∷ rest) p = emit_code rest (assemble k p)
emit_code (with_word k w ∷ rest) p = emit_code rest (put w (assemble k p))

-- The line that an item means: the word behind a call is the literal of its instruction.
behind : Line → ℕ → Line
behind (plain i) w = with_literal i w
behind (with_literal i k) w = with_literal i k

abbrev pub item_line : Item → Line
unfolding line behind
item_line (call k) = line k
item_line (with_word k w) = behind (line k) w
