-- ===== src/Submit/AsyncCopy.antt =====
-- What the DMA engine does with an asynchronous copy, by the layout of its packet.
use radeonsi_compute.Base.{
  ℕ, ◌+◌, ◌*◌, ◌/◌, ◌%◌, ◌^◌, ◌<◌, ◌≡◌, refl, ap, ◌∙◌, Bool, true, Option, none, some, List, [],
  ◌∷◌, ◌++◌, map, arith, bit_and, ◌==◌, if◌then◌else◌, ◌&&◌, ◌<<◌, ◌|||◌, Bool-cases, inl, inr,
}
use radeonsi_compute.Base.Bits.{field, bit_and_mask, bit_or-zero}
use radeonsi_compute.Base.Fields.{slot, pack_first-Reads}
use radeonsi_compute.Device.{GpuBuffer, Kernel}
use radeonsi_compute.Pool.{add64}
use radeonsi_compute.Submit.{Block, reloc_of}
use radeonsi_compute.Submit.Relocs.{IsWhole}
use radeonsi_compute.Submit.Dma.{
  dma_size_ok, dma_packet, fill_async_dma, compute_send_async_dma_req,
}
use radeonsi_compute.Submit.Copies.{Copy, copy, request_of, submit_copy-puts, size_ok}

-- A COPY packet of the DMA engine: operation 3 in bits 28 to 31, the kind in bits 20 to 27, 0 to
-- count words of 32 bits and 0x40 to count bytes, the count in bits 0 to 19; then the low words
-- of the addresses and the high 8 bits of each.
unfoldable pub dma_engine : List ℕ → Option Copy
dma_engine (h ∷ dl ∷ sl ∷ dh ∷ sh ∷ []) =
    let c = copy (field 0 32 sl + field 0 8 sh * 2 ^ 32) (field 0 32 dl + field 0 8 dh * 2 ^ 32) in
    if field 28 4 h == 3
    then if field 20 8 h == 0
      then some (c (field 0 20 h * 4))
      else if field 20 8 h == 0x40
      then some (c (field 0 20 h))
      else none
    else none
dma_engine _ = none

dma_packet_fields :
    (cmd sub n : ℕ)
    → (field 28 4 (dma_packet cmd sub n) ≡ cmd % 2 ^ 4)
      × (field 20 8 (dma_packet cmd sub n) ≡ sub % 2 ^ 8)
      × (field 0 20 (dma_packet cmd sub n) ≡ n % 2 ^ 20)
unfolding dma_packet
dma_packet_fields cmd sub n =
    let r =
      pack_first-Reads (slot 28 4 (bit_and cmd 0xF))
        (slot 20 8 (bit_and sub 0xFF) ∷ slot 0 20 (bit_and n 0xFFFFF) ∷ []) refl
        (omega (arith, bit_and_mask 4 cmd, bit_and_mask 8 sub, bit_and_mask 20 n)) in
    (r.0 ∙ bit_and_mask 4 cmd, r.1.0 ∙ bit_and_mask 8 sub, r.1.1.0 ∙ bit_and_mask 20 n)

abbrev aligned : ℕ → ℕ → Bool
aligned src dst = (bit_and src 3 == 0) && (bit_and dst 3 == 0)

abbrev async_words : ℕ → ℕ → ℕ → List ℕ
async_words dst src size =
    (if aligned src dst then dma_packet 3 0 (size / 4) else dma_packet 3 0x40 size)
    ∷ bit_and dst 0xFFFFFFFF
    ∷ bit_and src 0xFFFFFFFF
    ∷ (bit_and (dst / 2 ^ 32) 0xFF ||| 0 << 8)
    ∷ (bit_and (src / 2 ^ 32) 0xFF ||| 0 << 8)
    ∷ []

address :
    (a : ℕ)
    → a < 2 ^ 40
    → field 0 32 (bit_and a 0xFFFFFFFF) + field 0 8 (bit_and (a / 2 ^ 32) 0xFF ||| 0 << 8) * 2 ^ 32
      ≡ a
unfolding field
address a h =
    omega (
      arith,
      bit_and_mask 32 a,
      bit_and_mask 8 (a / 2 ^ 32),
      bit_or-zero (bit_and (a / 2 ^ 32) 0xFF),
    )

-- The bytes that are copied.
unfoldable pub async_bytes : ℕ → ℕ → ℕ → ℕ
async_bytes src dst size = if aligned src dst then size / 4 * 4 else size % 2 ^ 20

async_words-engine :
    (src dst size : ℕ)
    → src < 2 ^ 40
    → dst < 2 ^ 40
    → size < 2 ^ 21
    → dma_engine (async_words dst src size) ≡ some (copy src dst (async_bytes src dst size))
unfolding dma_engine async_bytes
async_words-engine src dst size hs hd hn = elim (Bool-cases (aligned src dst)) [
  | inl e ↦
      let f = dma_packet_fields 3 0 (size / 4) in
      rw (e, f.0, f.1, f.2, address src hs, address dst hd)
        (ap (λ n. some (copy src dst (n * 4))) (omega arith))
  | inr e ↦
      let f = dma_packet_fields 3 0x40 size in rw (e, f.0, f.1, f.2, address src hs, address dst hd)
]

module _ {D : Type 0} (kernel : Kernel D) where
  -- If both buffers are whole blocks, the size is not 0 and below 2 MiB, and both addresses are
  -- below 2 ^ 40, the asynchronous copy sends one request to the DMA ring that names all fragments
  -- of the source and of the destination, and the engine then copies from the source's address to
  -- the destination's: all but the last `size % 4` bytes if both addresses are multiples of 4, and
  -- `size % 2 ^ 20` bytes otherwise.
  pub compute_send_async_dma_req-copies :
      (dst src : GpuBuffer) (ds ss : Block) (dst_offset src_offset size : ℕ) (buf : ℕ → ℕ)
      (state : D)
      → IsWhole (src ∷ ss)
      → IsWhole (dst ∷ ds)
      → 0 < size
      → size < 2 ^ 21
      → add64 src.va src_offset < 2 ^ 40
      → add64 dst.va dst_offset < 2 ^ 40
      → (ws : List ℕ) × (compute_send_async_dma_req kernel
            (dst ∷ ds)
            dst_offset
            (src ∷ ss)
            src_offset
            size
            buf
            state
          ≡ some (
              kernel.submit
                (request_of kernel 1 2 (map reloc_of (src ∷ ss) ++ map reloc_of (dst ∷ ds)) ws)
                state))
        × (dma_engine ws
            ≡ some (
                copy
                  (add64 src.va src_offset)
                  (add64 dst.va dst_offset)
                  (async_bytes (add64 src.va src_offset) (add64 dst.va dst_offset) size)))
  unfolding compute_send_async_dma_req fill_async_dma
  compute_send_async_dma_req-copies dst src ds ss dst_offset src_offset size buf state ws wd n0 n1
        hs hd =
      let sa = add64 src.va src_offset in
      let da = add64 dst.va dst_offset in
      let ok : (dma_size_ok size && (sa / 2 ^ 40 == 0) && (da / 2 ^ 40 == 0)) ≡ true =
        ground (arith, size_ok size n0 n1, hs, hd) in
      (
        async_words da sa size,
        rw ok (submit_copy-puts kernel 2 src dst ss ds (async_words da sa size) buf state ws wd),
        async_words-engine sa da size hs hd n1,
      )
