-- ===== src/Transfer/Tests.antt =====
-- The theorems on copies at a small device, a disk of buffers with the last mapping.
use radeonsi_compute.Base.{ℕ, ◌+◌, ◌≤◌, ◌<◌, ◌⊎◌, ◌^◌, ◌≡◌, refl, inl, inr, some, [], ◌∷◌, arith}
use radeonsi_compute.Base.Stream.{words}
use radeonsi_compute.Device.{GpuBuffer, Kernel}
use radeonsi_compute.Samples.{toy, toy_device, sample_buffer}
use radeonsi_compute.Submit.{Block}
use radeonsi_compute.Submit.Relocs.{IsWhole}
use radeonsi_compute.Transfer.{compute_copy_to_gpu, compute_copy_from_gpu}
use radeonsi_compute.Transfer.Offsets.{compute_copy_to_gpu-nothing}
use radeonsi_compute.Transfer.Whole.{written, copied, IsFilled, Maps, compute_copy_to_gpu-copied}
use radeonsi_compute.Transfer.Bytes.{byte_of, IsApart}
use radeonsi_compute.Transfer.Reading.{Reads}
use radeonsi_compute.Transfer.RoundTrip.{compute_copy_from_gpu-bytes, compute_copy_from_gpu-to_gpu}

record Disk : Type 0 where
  bytes : ℕ → ℕ → ℕ
  handle : ℕ
  offset : ℕ

abbrev disk_kernel : Kernel Disk
disk_kernel = record {
  chunk_id_relocs = 1;
  chunk_id_ib = 2;
  minus_ebusy = 0xfffffff0;
  submit = λ cs d. (0, d);
  wait_idle = λ h d. (0, d);
  gem_create = λ size alignment domain d.
      (0, record { handle = 1; alignment = alignment; initial_domain = domain }, d);
  gem_va = λ va d. (0, 0, d);
  gem_close = λ h d. d;
  gem_mmap = λ h offset size d. (0, 0x1000, record d { handle = h; offset = offset });
  mmap = λ size addr d. (some 0x7000, d);
  munmap = λ ptr size d. d;
  write = λ ptr bytes d. record d { bytes = written d.bytes d.handle d.offset bytes };
  read = λ ptr size d. words (d.bytes d.handle) d.offset size;
}

abbrev contents_of : Disk → ℕ → ℕ → ℕ
contents_of d = d.bytes

disk-Maps : Maps disk_kernel contents_of
disk-Maps = record {
  granted = λ h offset n d. refl;
  pointer = λ h offset n d. 0x7000;
  mapped = λ h offset n d. refl;
  kept = λ h offset n d bytes. refl;
}

disk-Reads : Reads disk_kernel contents_of disk-Maps
disk-Reads = record { shown = λ h offset n d. refl; unmapped = λ h offset n d. refl }

abbrev empty_disk : Disk
empty_disk = record { bytes = λ h i. 0; handle = 0; offset = 0 }

abbrev full_fragment : GpuBuffer
full_fragment = record (sample_buffer 3 0x10000 2) { size = 2 ^ 26 }

-- The second fragment.
abbrev tail_fragment : Block
tail_fragment = sample_buffer 4 0x4010000 0 ∷ []

fragments-IsWhole : IsWhole (full_fragment ∷ tail_fragment)
fragments-IsWhole = (refl, (refl, tt))

fragments-IsFilled : IsFilled (full_fragment ∷ tail_fragment)
fragments-IsFilled = (omega arith, inl refl, (omega arith, inr refl, tt))

compute_copy_to_gpu-copied_example :
    (d' : Disk) × (compute_copy_to_gpu disk_kernel
        (full_fragment ∷ tail_fragment)
        0
        (λ i. i)
        0
        67108914
        empty_disk
      ≡ some (0, d'))
    × (contents_of d'
        ≡ copied (contents_of empty_disk) (full_fragment ∷ tail_fragment) (λ i. i) 0 67108914)
compute_copy_to_gpu-copied_example =
    compute_copy_to_gpu-copied disk_kernel contents_of disk-Maps full_fragment tail_fragment
      (λ i. i) 0 67108914 empty_disk fragments-IsWhole fragments-IsFilled (omega arith)
      (omega arith) (omega arith)

sample_buffer-IsWhole : IsWhole (sample_buffer 5 0x14000 1 ∷ [])
sample_buffer-IsWhole = (refl, tt)

compute_copy_to_gpu-nothing_example :
    compute_copy_to_gpu toy (sample_buffer 5 0x14000 1 ∷ []) 100 (λ i. i) 0 100 toy_device
    ≡ some (0, toy_device)
compute_copy_to_gpu-nothing_example =
    compute_copy_to_gpu-nothing toy (sample_buffer 5 0x14000 1) [] (λ i. i) 0 100 toy_device
      sample_buffer-IsWhole (omega arith) (omega arith)

-- A disk whose bytes tell their places.
abbrev marked_disk : Disk
marked_disk = record { bytes = λ h i. h + i; handle = 0; offset = 0 }

compute_copy_from_gpu-bytes_example :
    (mem' : ℕ → ℕ) × (d' : Disk) × (compute_copy_from_gpu disk_kernel
        (full_fragment ∷ tail_fragment)
        0
        (λ i. 0)
        100
        67108914
        marked_disk
      ≡ some (0, mem', d'))
    × ((i : ℕ)
        → (67108914 ≤ i)
          ⊎ (mem' (100 + i) ≡ byte_of (contents_of marked_disk) (full_fragment ∷ tail_fragment) i))
    × ((a : ℕ) → ((100 ≤ a) × (a < 100 + 67108914)) ⊎ (mem' a ≡ 0))
    × (contents_of d' ≡ contents_of marked_disk)
compute_copy_from_gpu-bytes_example =
    compute_copy_from_gpu-bytes disk_kernel contents_of disk-Maps disk-Reads full_fragment
      tail_fragment (λ i. 0) 100 67108914 marked_disk fragments-IsWhole fragments-IsFilled
      (omega arith) (omega arith) (omega arith)

fragments-IsApart : IsApart (full_fragment ∷ tail_fragment)
fragments-IsApart = ((refl, tt), (tt, tt))

-- Byte 67108900, in the second fragment.
compute_copy_from_gpu-to_gpu_example :
    (d1 : Disk) × (mem' : ℕ → ℕ) × (d2 : Disk) × (compute_copy_to_gpu disk_kernel
        (full_fragment ∷ tail_fragment)
        0
        (λ i. i)
        7
        67108914
        empty_disk
      ≡ some (0, d1))
    × (compute_copy_from_gpu disk_kernel (full_fragment ∷ tail_fragment) 0 (λ i. 0) 100 67108914 d1
        ≡ some (0, mem', d2))
    × (mem' (100 + 67108900) ≡ 7 + 67108900)
compute_copy_from_gpu-to_gpu_example =
    compute_copy_from_gpu-to_gpu disk_kernel contents_of disk-Maps disk-Reads full_fragment
      tail_fragment (λ i. i) (λ i. 0) 7 100 67108914 67108900 empty_disk fragments-IsWhole
      fragments-IsFilled fragments-IsApart (omega arith) (omega arith) (omega arith) (omega arith)
