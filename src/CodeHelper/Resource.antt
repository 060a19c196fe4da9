-- ===== src/CodeHelper/Resource.antt =====
-- code_helper.h: `struct buffer_resource`. Its bit fields are packed, and lie one behind the other
-- from bit 0 of `data[0]` on, as the compilers for the processors of this library lay them out.
pub mod Layout
pub mod Tests
use radeonsi_compute.Base.{ℕ, ◌+◌, ◌*◌, ◌/◌, ◌%◌, ◌^◌, ◌≡◌, refl, List, [], ◌∷◌, arith}
use radeonsi_compute.Base.Bits.{field}

pub record BufferResource : Type 0 where
  pub base_addr : ℕ
  pub stride : ℕ
  pub c_swizzle : ℕ
  pub swizzle_en : ℕ
  pub num_records : ℕ
  pub dst_sel_x : ℕ
  pub dst_sel_y : ℕ
  pub dst_sel_z : ℕ
  pub dst_sel_w : ℕ
  pub num_format : ℕ
  pub data_format : ℕ
  pub element_size : ℕ
  pub idx_stride : ℕ
  pub add_tid_en : ℕ
  pub reserved : ℕ
  pub hash_en : ℕ
  pub heap : ℕ
  pub unused : ℕ
  pub zero : ℕ

-- A bit field: how many bits, and what has been assigned to it.
abbrev pub BitField : Type 0
BitField = ℕ × ℕ

-- Bit fields one behind the other, the first in the lowest bits; an assignment cuts off.
unfoldable pub packed : List BitField → ℕ
packed [] = 0
packed ((bits, v) ∷ rest) = v % 2 ^ bits + 2 ^ bits * packed rest

abbrev pub bit_fields : BufferResource → List BitField
bit_fields r =
    (48, r.base_addr)
    ∷ (14, r.stride)
    ∷ (1, r.c_swizzle)
    ∷ (1, r.swizzle_en)
    ∷ (32, r.num_records)
    ∷ (3, r.dst_sel_x)
    ∷ (3, r.dst_sel_y)
    ∷ (3, r.dst_sel_z)
    ∷ (3, r.dst_sel_w)
    ∷ (3, r.num_format)
    ∷ (4, r.data_format)
    ∷ (2, r.element_size)
    ∷ (2, r.idx_stride)
    ∷ (1, r.add_tid_en)
    ∷ (1, r.reserved)
    ∷ (1, r.hash_en)
    ∷ (1, r.heap)
    ∷ (3, r.unused)
    ∷ (2, r.zero)
    ∷ []

-- Word `i` of `data`.
unfoldable pub resource_word : BufferResource → ℕ → ℕ
unfolding packed
resource_word r i = packed (bit_fields r) / 2 ^ (32 * i) % 2 ^ 32

-- What the constructor leaves.
abbrev pub new_resource : BufferResource
new_resource = record {
  base_addr = 0;
  stride = 0;
  c_swizzle = 0;
  swizzle_en = 0;
  num_records = 0;
  dst_sel_x = 0;
  dst_sel_y = 0;
  dst_sel_z = 0;
  dst_sel_w = 0;
  num_format = 0;
  data_format = 0;
  element_size = 0;
  idx_stride = 0;
  add_tid_en = 0;
  reserved = 0;
  hash_en = 0;
  heap = 0;
  unused = 0;
  zero = 0;
}
