-- ===== src/CodeHelper/Resource/Tests.antt =====
-- The theorem on the layout at a resource of 1000 records of 4 bytes.
use radeonsi_compute.Base.{◌+◌, ◌*◌, ◌^◌, ◌≡◌}
use radeonsi_compute.Base.Bits.{field}
use radeonsi_compute.CodeHelper.Resource.{BufferResource, new_resource, resource_word}
use radeonsi_compute.CodeHelper.Resource.Layout.{resource_word-fields}

abbrev sample : BufferResource
sample = record new_resource {
  base_addr = 0x123456789a;
  stride = 4;
  num_records = 1000;
  dst_sel_x = 4;
  dst_sel_y = 5;
  dst_sel_z = 6;
  dst_sel_w = 7;
  num_format = 7;
  data_format = 4;
  add_tid_en = 1;
}

resource_word-fields_example :
    (field 0 32 (resource_word sample 0) + field 0 16 (resource_word sample 1) * 2 ^ 32
      ≡ 0x123456789a)
    × (field 16 14 (resource_word sample 1) ≡ 4)
    × (field 30 1 (resource_word sample 1) ≡ 0)
    × (field 31 1 (resource_word sample 1) ≡ 0)
    × (field 0 32 (resource_word sample 2) ≡ 1000)
    × (field 0 3 (resource_word sample 3) ≡ 4)
    × (field 3 3 (resource_word sample 3) ≡ 5)
    × (field 6 3 (resource_word sample 3) ≡ 6)
    × (field 9 3 (resource_word sample 3) ≡ 7)
    × (field 12 3 (resource_word sample 3) ≡ 7)
    × (field 15 4 (resource_word sample 3) ≡ 4)
    × (field 19 2 (resource_word sample 3) ≡ 0)
    × (field 21 2 (resource_word sample 3) ≡ 0)
    × (field 23 1 (resource_word sample 3) ≡ 1)
    × (field 24 1 (resource_word sample 3) ≡ 0)
    × (field 25 1 (resource_word sample 3) ≡ 0)
    × (field 26 1 (resource_word sample 3) ≡ 0)
    × (field 27 3 (resource_word sample 3) ≡ 0)
    × (field 30 2 (resource_word sample 3) ≡ 0)
resource_word-fields_example = resource_word-fields sample
