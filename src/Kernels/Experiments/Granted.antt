-- ===== src/Kernels/Experiments/Granted.antt =====
-- The vector registers that the kernels name, and those that their launches grant.
use radeonsi_compute.Base.{
  ℕ, zero, suc, ◌+◌, ◌-◌, ◌*◌, ◌<◌, leb, if◌then◌else◌, List, [], ◌∷◌, ◌++◌, All, All-append, arith,
}
use radeonsi_compute.Device.{GpuBuffer}
use radeonsi_compute.CodeHelper.Isa.{
  Inst, Line, plain, with_literal, vop2, vop1, vopc, vop3, mubuf, mtbuf,
}
use radeonsi_compute.CodeHelper.Program.{v_add_f32, v_fma_f32, s_cbranch_scc0}
use radeonsi_compute.CodeHelper.Program.Lines.{line}
use radeonsi_compute.Interface.Launch.{launch_state}
use radeonsi_compute.Kernels.{Item, call, item_line}
use radeonsi_compute.Kernels.Arithmetic.{Floats}
use radeonsi_compute.Kernels.Mandelbrot.{prologue, loop_body, epilogue}
use radeonsi_compute.Kernels.Pieces.{repeated, counting}
use radeonsi_compute.Kernels.Experiments.States.{main_state, fma_state, read_state, write_state}
use radeonsi_compute.Kernels.Experiments.{
  main_set_up, main_loop, main_end, fma_set_up, fma_loop, fma_end, memory_set_up, memory_end,
  read_loop, write_loop,
}
use radeonsi_compute.Kernels.Experiments.Fitting.{loop_items}

-- The register that a source of a vector instruction names, if it names one.
abbrev pub source_registers : ℕ → List ℕ
source_registers s = if leb 256 s then (s - 256) ∷ [] else []

-- The vector registers that an instruction names; a load or a store of a buffer counts with four
-- registers of data.
unfoldable pub instruction_registers : Inst → List ℕ
instruction_registers (vop1 op vdst src0) = vdst ∷ source_registers src0
instruction_registers (vop2 op vdst vsrc1 src0) = vdst ∷ vsrc1 ∷ source_registers src0
instruction_registers (vopc op vsrc1 src0) = vsrc1 ∷ source_registers src0
instruction_registers (vop3 op vdst abs clamp src0 src1 src2 omod neg) =
    vdst ∷ (source_registers src0 ++ (source_registers src1 ++ source_registers src2))
instruction_registers
      (mubuf op offset offen idxen glc addr64 lds vaddr vdata srsrc slc tfe soffset) =
    vaddr ∷ (vdata + 3) ∷ []
instruction_registers
      (mtbuf op dfmt nfmt offset offen idxen glc addr64 vaddr vdata srsrc slc tfe soffset) =
    vaddr ∷ (vdata + 3) ∷ []
instruction_registers i = []

unfoldable pub line_registers : Line → List ℕ
unfolding instruction_registers
line_registers (plain i) = instruction_registers i
line_registers (with_literal i k) = instruction_registers i

-- A piece of code names registers below `n` only.
abbrev pub Within : ℕ → List Item → Type 0
Within n = All (λ i. All (λ r. r < n) (line_registers (item_line i)))

Within-repeated : (n k : ℕ) (is : List Item) → Within k is → Within k (repeated n is)
unfolding repeated
Within-repeated zero k is h = tt
Within-repeated (suc n) k is h = All-append _ is (repeated n is) h (Within-repeated n k is h)

Within-loop_items :
    (k d iternum : ℕ) (before body after : List Item)
    → Within k before
    → Within k body
    → Within k after
    → Within k (loop_items before body iternum d after)
unfolding counting line_registers item_line line
Within-loop_items k d iternum before body after h0 h1 h2 =
    All-append _ before _ h0 (All-append _ body _ h1 (tt, (tt, (tt, h2))))

main-Within :
    (fl : Floats) (va d : ℕ) → Within 44 (loop_items (main_set_up fl va) main_loop 10000 d main_end)
unfolding line_registers item_line line main_set_up main_loop main_end
main-Within fl va d =
    Within-loop_items 44 d 10000 (main_set_up fl va) main_loop main_end (omega arith)
      (Within-repeated 4096 44 (call (v_add_f32 4 4 260) ∷ []) (omega arith)) (omega arith)

fma-Within : (fl : Floats) (d : ℕ) → Within 24 (loop_items (fma_set_up fl) fma_loop 1000 d fma_end)
unfolding line_registers item_line line fma_set_up fma_loop fma_end
fma-Within fl d =
    Within-loop_items 24 d 1000 (fma_set_up fl) fma_loop fma_end (omega arith)
      (Within-repeated 1024 24 (call (v_fma_f32 4 0 0 261 260 260 0 0) ∷ []) (omega arith))
      (omega arith)

memory-Within :
    (va data_va n d : ℕ)
    → Within 24 (loop_items (memory_set_up va n) read_loop 1000 d (memory_end data_va))
      × Within 24 (loop_items (memory_set_up va n) write_loop 1000 d (memory_end data_va))
unfolding line_registers item_line line memory_set_up read_loop write_loop memory_end
memory-Within va data_va n d = (
  Within-loop_items 24 d 1000 (memory_set_up va n) read_loop (memory_end data_va) (omega arith)
      (omega arith) (omega arith),
  Within-loop_items 24 d 1000 (memory_set_up va n) write_loop (memory_end data_va) (omega arith)
      (omega arith) (omega arith),
)

-- The kernels of main.cpp, fma_test.cpp, read_test.cpp, write_test.cpp and mandelbrot.cpp, whatever
-- the displacement of their branch, name only vector registers below those that their launch
-- grants, four for each unit of `vgpr_num` and four more; mandelbrot.cpp asks for 50.
pub kernels-granted :
    (fl : Floats) (trap_va data_va memory_va d mx my : ℕ) (code : GpuBuffer)
    (user_data dim : List ℕ) (image_scale offset_x offset_y shift : fl.Real)
    → Within
        (((main_state data_va code).vgpr_num + 1) * 4)
        (loop_items (main_set_up fl trap_va) main_loop 10000 d main_end)
      × Within
          (((fma_state data_va code).vgpr_num + 1) * 4)
          (loop_items (fma_set_up fl) fma_loop 1000 d fma_end)
      × Within
          (((read_state data_va code).vgpr_num + 1) * 4)
          (loop_items (memory_set_up memory_va 512) read_loop 1000 d (memory_end data_va))
      × Within
          (((write_state data_va code).vgpr_num + 1) * 4)
          (loop_items (memory_set_up memory_va 256) write_loop 1000 d (memory_end data_va))
      × Within
          (((launch_state user_data (0 ∷ 0 ∷ 0 ∷ []) dim (256 ∷ 1 ∷ 1 ∷ []) code 0 50 50).vgpr_num
              + 1)
            * 4)
          (prologue fl mx my image_scale offset_x offset_y
            ++ (loop_body fl ++ (call (s_cbranch_scc0 d) ∷ epilogue fl shift)))
unfolding main_state fma_state read_state write_state launch_state line_registers item_line line
    prologue loop_body epilogue
kernels-granted fl trap_va data_va memory_va d mx my code user_data dim image_scale offset_x
      offset_y shift =
    (
      main-Within fl trap_va d,
      fma-Within fl d,
      (memory-Within memory_va data_va 512 d).0,
      (memory-Within memory_va data_va 256 d).1,
      omega arith,
    )
