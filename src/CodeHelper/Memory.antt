-- ===== src/CodeHelper/Memory.antt =====
-- code_helper.h: buffer loads and stores, with their operation codes.
use radeonsi_compute.Base.{ℕ, ◌<<◌, ◌|||◌}
use radeonsi_compute.Base.Stream.{Stream, put}

pub data MtbufOp : Type 0 where
  tbuffer_load_format_x tbuffer_load_format_xy : MtbufOp
  tbuffer_load_format_xyz tbuffer_load_format_xyzw : MtbufOp
  tbuffer_store_format_x tbuffer_store_format_xy : MtbufOp
  tbuffer_store_format_xyz tbuffer_store_format_xyzw : MtbufOp

unfoldable pub mtbuf_code : MtbufOp → ℕ
mtbuf_code tbuffer_load_format_x = 0
mtbuf_code tbuffer_load_format_xy = 1
mtbuf_code tbuffer_load_format_xyz = 2
mtbuf_code tbuffer_load_format_xyzw = 3
mtbuf_code tbuffer_store_format_x = 4
mtbuf_code tbuffer_store_format_xy = 5
mtbuf_code tbuffer_store_format_xyz = 6
mtbuf_code tbuffer_store_format_xyzw = 7

pub data MubufOp : Type 0 where
  buffer_load_format_x buffer_load_format_xy : MubufOp
  buffer_load_format_xyz buffer_load_format_xyzw : MubufOp
  buffer_store_format_x buffer_store_format_xy : MubufOp
  buffer_store_format_xyz buffer_store_format_xyzw : MubufOp
  buffer_load_ubyte buffer_load_sbyte buffer_load_ushort buffer_load_sshort : MubufOp
  buffer_load_dword buffer_load_dwordx2 buffer_load_dwordx4 : MubufOp
  buffer_store_byte buffer_store_short : MubufOp
  buffer_store_dword buffer_store_dwordx2 buffer_store_dwordx4 : MubufOp

unfoldable pub mubuf_code : MubufOp → ℕ
mubuf_code buffer_load_format_x = 0
mubuf_code buffer_load_format_xy = 1
mubuf_code buffer_load_format_xyz = 2
mubuf_code buffer_load_format_xyzw = 3
mubuf_code buffer_store_format_x = 4
mubuf_code buffer_store_format_xy = 5
mubuf_code buffer_store_format_xyz = 6
mubuf_code buffer_store_format_xyzw = 7
mubuf_code buffer_load_ubyte = 8
mubuf_code buffer_load_sbyte = 9
mubuf_code buffer_load_ushort = 10
mubuf_code buffer_load_sshort = 11
mubuf_code buffer_load_dword = 12
mubuf_code buffer_load_dwordx2 = 13
mubuf_code buffer_load_dwordx4 = 14
mubuf_code buffer_store_byte = 24
mubuf_code buffer_store_short = 26
mubuf_code buffer_store_dword = 28
mubuf_code buffer_store_dwordx2 = 29
mubuf_code buffer_store_dwordx4 = 30

abbrev pub buffer_atomic_add : ℕ
buffer_atomic_add = 50

unfoldable pub mtbuf : ℕ → ℕ → ℕ → ℕ → ℕ → ℕ → ℕ → ℕ → ℕ → ℕ → ℕ → ℕ → ℕ → ℕ → Stream → Stream
mtbuf nfmt dfmt op addr64 glc idxen offen offset soffset tfe slc srsrc vdata vaddr p =
    put (0 ||| vaddr ||| vdata << 8 ||| srsrc << 16 ||| slc << 22 ||| tfe << 23 ||| soffset << 24) (
      put
        (0xE8000000
          ||| offset
          ||| offen << 12
          ||| idxen << 13
          ||| glc << 14
          ||| addr64 << 15
          ||| op << 16
          ||| dfmt << 19
          ||| nfmt << 23)
        p)

unfoldable pub mubuf : ℕ → ℕ → ℕ → ℕ → ℕ → ℕ → ℕ → ℕ → ℕ → ℕ → ℕ → ℕ → ℕ → Stream → Stream
mubuf soffset tfe slc srsrc vdata vaddr op lds addr64 glc idxen offen offset p =
    put (0 ||| vaddr ||| vdata << 8 ||| srsrc << 16 ||| slc << 22 ||| tfe << 23 ||| soffset << 24) (
      put
        (0xE0000000
          ||| offset
          ||| offen << 12
          ||| idxen << 13
          ||| glc << 14
          ||| addr64 << 15
          ||| lds << 16
          ||| op << 18)
        p)
