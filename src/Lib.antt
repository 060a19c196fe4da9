-- ===== src/Lib.antt =====
-- A model of radeonsi_compute, a library that runs programs on the compute rings of Southern
-- Islands GPUs, and theorems about it.
--
-- The program has four parts. `code_helper.h` is an assembler: one helper for each instruction puts
-- its words into a buffer of code. `computesi.c`, with the data of `computesi.h` and the register
-- macros of `sid.h`, talks to the kernel: it gives out the addresses of the GPU (the pool),
-- allocates buffers in fragments, and sends requests, each with a command buffer for a ring and
-- the relocations of the buffers that it uses. A launch takes a buffer of code as its program.
-- `compute_interface.cpp` is a C++ class over `computesi.c`, which cuts copies into pieces and
-- computes the settings of a launch. The test programs write kernels with the assembler, and
-- launch them.
--
-- Base, and the files below it: numbers, bits and bit fields, lists, and the stream of words that
-- both `p` of the instruction helpers and `buf`, `cdw` of the command buffers are.
-- CodeHelper: the helpers of `code_helper.h` (Scalar, Vector, Memory), a decoder of the instruction
-- set that is independent of them (Isa), the words of each helper (Words, Encodes), and programs,
-- sequences of calls with a constructor for each helper (Program). Resource: `buffer_resource`.
-- Sid: the macros of `sid.h` that `computesi.c` uses, writers in Registers and readers in Readers.
-- Device: the structs of `computesi.h` and what is asked of the kernel.
-- Command: the command buffer of `compute_emit_compute_state_manual_relocs` (Build), a reader of
-- packets (Packets), a step function of the processor (Gpu), the fields of the settings (Settings).
-- Pool: `compute_pool_alloc` and `compute_pool_free` on the list of the nodes in their order, and
-- on the nodes in memory, which are linked both ways (Heap; Links, Freeing, Appending, Placing,
-- Allocating). All other parts use the list.
-- Submit: relocations, `compute_bo_wait`, `compute_flush_caches`, `compute_emit_compute_state`, and
-- the two kinds of DMA copy (Dma), with a reader of each engine's packet.
-- Buffers: `compute_alloc_fragmented_buffer`, `compute_vm_map`, `compute_alloc_gpu_buffer` and
-- `compute_free_gpu_buffer`; the invariant of pool, blocks and addresses (State, Leading), a new
-- block (Placing, Allocating, Allocated), its withdrawal (Undoing) and its release (Releasing).
-- Transfer: `compute_copy_to_gpu` and `compute_copy_from_gpu`; a buffer as an array of bytes (Bytes).
-- Context: `compute_create_context` with what it holds (Creating), `compute_free_context` (Freeing),
-- the worlds that a session reaches by allocations, releases and other calls (Reaching), and what
-- their requests name (Naming).
-- Interface: the class of `compute_interface.cpp`; its copies in pieces (Pieces, SyncCopying,
-- AsyncCopying) with what copies do to the memory (Moves), and `launch` (Launch, Launching).
-- Kernels: the kernels that the programs write. Wave: a machine that steps through the words of a
-- kernel, with the vector unit and the memory as a parameter (Stepping: steps in a row). Reading:
-- pieces of code with literals are read back. Mandelbrot: `set_program` of `mandelbrot.cpp`, its
-- loop (Loop) and the whole (Whole). Experiments and Pieces: the kernels of `main.cpp`,
-- `fma_test.cpp`, `read_test.cpp` and `write_test.cpp`, with the states of their launches (States),
-- the branches of their loops (Branching, Landing), how they are read (Fitting) and which registers
-- they name (Granted). BinaryOperation: `generateTempCode` of `divide_precision.cpp` (Embedding).
-- Arithmetic: the floating-point numbers of the compiler, as a parameter.
-- Master: the message of `authWithLocalMaster` in `ati_chip.cpp`, and the table of masters and the
-- server of `drm_master.cpp` that reads it (Serving), with numbers in decimal (Decimal).
-- Chip: `getAllAtiDevices` of `ati_chip.cpp`, with the names of PCI slots (Naming), their addresses
-- on the bus (Slots) and the search for the node of a device (Detecting).
-- Samples: a small device and small inputs, for the tests in the modules called Tests.
--
-- Numbers are natural numbers; an `int` or `unsigned` is its pattern of 32 bits, and the sums and
-- differences of `uint64_t` and `size_t` wrap at 2 ^ 64 where they can. An assertion that fails
-- and an access out of bounds are `none`. Loops are recursions on the rounds that are left. Some
-- run on fuel: the repeated wait of `compute_bo_wait` needs one round more than the busy answers
-- that the kernel gives, the loop of `compute_free_context` and `compute_pool_alloc` on linked
-- nodes one for each node of the pool, `compute_pool_free` on linked nodes one more, and the loops
-- of `syncDMACopy` and `asyncDMACopy` one more than there are pieces. A `long` is printed with
-- fuel for 19 digits. A wave runs on steps: 21822 are enough for the kernel of `mandelbrot.cpp`.
-- The kernel, libdrm and `mmap` are a parameter, the record Device.Kernel; `malloc` and `calloc`
-- succeed, and the address of a new block or node is an argument. A request is modelled with the
-- words that its pointers lead to, at the time of the call.
--
-- Not modelled: the questions to udev and the PCI bus in `ati_chip.cpp`, whose answers are
-- arguments like the table of `ati_pciids_gen.def`, and its `getAtiChipFamilyString`; the sockets,
-- the daemon mode and the log of `drm_master.cpp`; what the test programs do around their kernels;
-- the output to stderr; and memory that is never given back, but for that of a context.
pub mod Base
pub mod CodeHelper
pub mod Sid
pub mod Device
pub mod Command
pub mod Pool
pub mod Submit
pub mod Buffers
pub mod Transfer
pub mod Context
pub mod Interface
pub mod Kernels
pub mod Master
pub mod Chip
pub mod Samples
