-- ===== src/Kernels/Tests.antt =====
-- The theorems on kernels at small cases: an arithmetic on whole numbers, and a processor whose
-- vector unit counts.
use radeonsi_compute.Base.{
  ℕ, ◌+◌, ◌*◌, ◌%◌, ◌/◌, ◌^◌, ◌≤◌, ◌≡◌, Bool, true, false, if◌then◌else◌, ltb, some, List, [], ◌∷◌,
  ◌++◌, map, All, length, arith,
}
use radeonsi_compute.Base.Stream.{Stream}
use radeonsi_compute.CodeHelper.Isa.{Inst, plain, fetch, disassemble}
use radeonsi_compute.Kernels.{call, Item, item_line}
use radeonsi_compute.Kernels.Arithmetic.{Floats}
use radeonsi_compute.Kernels.Reading.{Fits, code_words}
use radeonsi_compute.Kernels.Wave.{Registers, VectorUnit, Wave, goes, run, step}
use radeonsi_compute.Kernels.Mandelbrot.Loop.{wave, turns, code}
use radeonsi_compute.Kernels.Mandelbrot.Whole.{
  started, finished, set_program-runs, set_program-halts,
}
use radeonsi_compute.Kernels.Experiments.{
  main_program, fma_program, read_program, write_program, main_set_up, main_loop, main_end,
  fma_set_up, fma_loop, fma_end, memory_set_up, memory_end, read_loop, write_loop,
}
use radeonsi_compute.Kernels.Experiments.Branching.{at}
use radeonsi_compute.Kernels.Experiments.Landing.{branches-land}
use radeonsi_compute.Kernels.Experiments.Fitting.{loop_items, experiments-read}
use radeonsi_compute.Device.{GpuBuffer}
use radeonsi_compute.Samples.{sample_buffer}
use radeonsi_compute.Interface.Launch.{launch_state}
use radeonsi_compute.CodeHelper.Program.{s_cbranch_scc0}
use radeonsi_compute.Kernels.Mandelbrot.{prologue, loop_body, epilogue}
use radeonsi_compute.Kernels.Experiments.States.{main_state, fma_state, read_state, write_state}
use radeonsi_compute.Kernels.Experiments.Granted.{Within, kernels-granted}
use radeonsi_compute.Kernels.BinaryOperation.{generate_temp_code, divide_operation}
use radeonsi_compute.Kernels.BinaryOperation.Embedding.{
  opening_lines, closing_lines, loaded_bytes, stored_bytes, generate_temp_code-embeds,
}

abbrev wholes : Floats
wholes = record {
  Real = ℕ;
  decimal = λ n k. n / 10 ^ k;
  float_of = λ n. n;
  double_of = λ n. n;
  plus = λ a b. a + b;
  times = λ a b. a * b;
  over = λ a b. a / b;
  minus = λ a. a;
  sqrt = λ a. a;
  log2 = λ a. a;
  rounded = λ a. a;
  single = λ a. record { bits = a % 2 ^ 32 };
}

-- Every instruction adds one, and the only lane escapes once there are 50.
abbrev counter : VectorUnit ℕ
counter = record { run = λ l s v. v + 1; compare = λ l s v. (if ltb v 50 then 1 else 0, 0) }

abbrev empty : ℕ → ℕ
empty i = 0

abbrev begin : Registers × ℕ
begin = (λ n. if ltb n 126 then 0 else 1, 0)

abbrev image : ℕ → ℕ
image = code wholes 512 256 1 0 0 0 empty counter

set_program-runs_example :
    (b : Bool) × (run counter 21822 image (wave 0 begin false)
      ≡ some (
          wave 112
            (finished wholes 512 256 1 0 0 0 empty counter
              (turns counter wholes 1279 (started wholes 512 256 1 0 0 0 empty counter begin)))
            b))
set_program-runs_example =
    set_program-runs wholes 512 256 1 0 0 0 empty counter begin false 21822 (omega arith)

set_program-halts_example :
    (w : Wave ℕ) × (run counter 30000 image (wave 0 begin false) ≡ some w)
    × (w.sgpr 126 ≡ 1)
    × (w.sgpr 127 ≡ 1)
    × (1 ≤ w.sgpr 8)
    × (w.sgpr 8 ≤ 1280)
set_program-halts_example =
    set_program-halts wholes 512 256 1 0 0 0 empty counter begin false 30000 (omega arith)

abbrev memory : Stream
memory = record { cell = empty; pos = 7 }

abbrev waiting : Wave ℕ
waiting = record { pc = 0; sgpr = empty; scc = true; vector = 0 }

branches-land_example :
    (step counter (read_program 4096 8192 memory).cell (at 225 waiting)
      ≡ some (goes (at 59 waiting)))
    × (step counter (write_program 4096 8192 memory).cell (at 225 waiting)
        ≡ some (goes (at 59 waiting)))
    × (step counter (main_program wholes 4096 memory).cell (at 4150 waiting)
        ≡ some (goes (at 51 waiting)))
    × (fetch (main_program wholes 4096 memory).cell 51 ≡ some (plain (Inst.vop2 3 4 4 260), 52))
    × (step counter (fma_program wholes memory).cell (at 2098 waiting)
        ≡ some (goes (at 47 waiting)))
    × (fetch (fma_program wholes memory).cell 47 ≡ some (plain (Inst.vop2 2 9 4 261), 48))
branches-land_example = branches-land wholes 4096 4096 8192 memory counter waiting

experiments-read_example :
    let main : List Item = loop_items (main_set_up wholes 4096) main_loop 10000 61436 main_end in
    let fma : List Item = loop_items (fma_set_up wholes) fma_loop 1000 63484 fma_end in
    let read : List Item =
      loop_items (memory_set_up 8192 512) read_loop 1000 65369 (memory_end 4096) in
    let write : List Item =
      loop_items (memory_set_up 8192 256) write_loop 1000 65369 (memory_end 4096) in
    (disassemble (length main) (main_program wholes 4096 memory).cell 7 ≡ some (map item_line main))
    × (disassemble (length fma) (fma_program wholes memory).cell 7 ≡ some (map item_line fma))
    × (disassemble (length read) (read_program 4096 8192 memory).cell 7 ≡ some (map item_line read))
    × (disassemble (length write) (write_program 4096 8192 memory).cell 7
        ≡ some (map item_line write))
experiments-read_example = experiments-read wholes 4096 4096 8192 memory

divide_operation-Fits : All Fits divide_operation
unfolding divide_operation
divide_operation-Fits = omega arith

generate_temp_code-embeds_example :
    (load : ℕ) × (store : ℕ) × (q : Stream) × (generate_temp_code
        (code_words divide_operation)
        8
        memory
      ≡ some q)
    × (disassemble (length divide_operation + 19) q.cell 7
        ≡ some (opening_lines load ++ (map item_line divide_operation ++ closing_lines store)))
    × (q.pos ≡ 7 + length (code_words divide_operation) + 23)
    × (loaded_bytes load ≡ 8)
    × (stored_bytes store ≡ 8)
generate_temp_code-embeds_example =
    generate_temp_code-embeds divide_operation 8 memory (omega arith) divide_operation-Fits

abbrev some_code : GpuBuffer
some_code = sample_buffer 5 0x14000 1

kernels-granted_example :
    Within 44 (loop_items (main_set_up wholes 4096) main_loop 10000 61436 main_end)
    × Within 24 (loop_items (fma_set_up wholes) fma_loop 1000 61436 fma_end)
    × Within 24 (loop_items (memory_set_up 8192 512) read_loop 1000 61436 (memory_end 4096))
    × Within 24 (loop_items (memory_set_up 8192 256) write_loop 1000 61436 (memory_end 4096))
    × Within 52 (
        prologue wholes 512 256 1 0 0
        ++ (loop_body wholes ++ (call (s_cbranch_scc0 61436) ∷ epilogue wholes 0)))
unfolding main_state fma_state read_state write_state launch_state
kernels-granted_example =
    kernels-granted wholes 4096 4096 8192 61436 512 256 some_code [] [] 1 0 0 0
