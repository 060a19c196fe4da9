-- ===== src/Sid.antt =====
-- sid.h: the packet headers of the command processor and the compute registers.
pub mod Registers
pub mod Readers
use radeonsi_compute.Base.{ℕ, bit_and, ◌<<◌, ◌|||◌}

abbrev pub pkt3_surface_sync : ℕ
pkt3_surface_sync = 0x43

abbrev pub pkt3_set_sh_reg : ℕ
pkt3_set_sh_reg = 0x76

abbrev pub pkt3_cp_dma : ℕ
pkt3_cp_dma = 0x41

unfoldable pub pkt_type_s : ℕ → ℕ
pkt_type_s x = bit_and x 0x3 << 30

unfoldable pub pkt_count_s : ℕ → ℕ
pkt_count_s x = bit_and x 0x3FFF << 16

unfoldable pub pkt3_it_opcode_s : ℕ → ℕ
pkt3_it_opcode_s x = bit_and x 0xFF << 8

-- `((x) >> 0) & 0x1`.
unfoldable pub pkt3_predicate : ℕ → ℕ
pkt3_predicate x = bit_and x 0x1

unfoldable pub pkt3 : ℕ → ℕ → ℕ → ℕ
unfolding pkt_type_s pkt_count_s pkt3_it_opcode_s pkt3_predicate
pkt3 op count predicate =
    pkt_type_s 3 ||| pkt_count_s count ||| pkt3_it_opcode_s op ||| pkt3_predicate predicate

-- `1 << 31`, as an `unsigned` word.
abbrev pub pkt3_cp_dma_cp_sync : ℕ
pkt3_cp_dma_cp_sync = 1 << 31

unfoldable pub pkt3_cp_dma_engine : ℕ → ℕ
pkt3_cp_dma_engine x = x << 27

abbrev pub pkt3_cp_dma_cmd_raw_wait : ℕ
pkt3_cp_dma_cmd_raw_wait = 1 << 30
