-- ===== src/Submit/SyncCopy.antt =====
-- What the command processor does with a synchronous copy, by the layout of its packet.
use radeonsi_compute.Base.{
  ℕ, ◌+◌, ◌*◌, ◌/◌, ◌%◌, ◌^◌, ◌<◌, ◌≡◌, refl, ap, ◌∙◌, Bool, true, false, Option, none, some, List,
  [], ◌∷◌, ◌++◌, map, arith, bit_and, ◌==◌, if◌then◌else◌, ◌<<◌, ◌|||◌,
}
use radeonsi_compute.Base.Bits.{field, bit_and_mask}
use radeonsi_compute.Base.Fields.{slot, pack_first-Reads}
use radeonsi_compute.Device.{GpuBuffer, Kernel}
use radeonsi_compute.Pool.{add64}
use radeonsi_compute.Command.Packets.{Packet, packet, parse, buffer_words, parse-buffer_words}
use radeonsi_compute.Submit.{Block, reloc_of}
use radeonsi_compute.Submit.Relocs.{IsWhole}
use radeonsi_compute.Submit.Dma.{wait_both, fill_sync_dma, compute_send_sync_dma_req}
use radeonsi_compute.Submit.Copies.{Copy, copy, request_of, submit_copy-puts, size_ok}

-- The body of a CP_DMA packet: addresses of 48 bits and a count of 21 bits.
unfoldable pub cp_dma : List Packet → Option Copy
cp_dma (k ∷ []) = body k.op k.body
  where
    body : ℕ → List ℕ → Option Copy
    body o (sl ∷ sh ∷ dl ∷ dh ∷ n ∷ []) =
        if o == 0x41
        then some (
            copy (field 0 32 sl + field 0 16 sh * 2 ^ 32) (field 0 32 dl + field 0 16 dh * 2 ^ 32)
              (field 0 21 n))
        else none
    body o _ = none
cp_dma _ = none

-- The words of a synchronous copy behind the header.
abbrev sync_body : ℕ → ℕ → ℕ → Bool → Bool → Bool → List ℕ
sync_body dst src size sync raw pfp =
    bit_and src 0xFFFFFFFF
    ∷ ((if sync then 1 << 31 else 0)
        ||| (if pfp then 1 else 0) << 27
        ||| bit_and (src / 2 ^ 32) 0xFFFF)
    ∷ bit_and dst 0xFFFFFFFF
    ∷ bit_and (dst / 2 ^ 32) 0xffff
    ∷ ((if raw then 1 << 30 else 0) ||| size)
    ∷ []

high_pair :
    (x y a : ℕ) → x < 2 → y < 2 → field 0 16 (x << 31 ||| y << 27 ||| bit_and a 0xFFFF) ≡ a % 2 ^ 16
high_pair x y a hx hy =
    (pack_first-Reads (slot 31 1 x) (slot 27 1 y ∷ slot 0 16 (bit_and a 0xFFFF) ∷ []) refl
      (omega (arith, bit_and_mask 16 a))).1.1.0
    ∙ bit_and_mask 16 a

sync_src :
    (sync pfp : Bool) (a : ℕ)
    → field 0 16
        ((if sync then 1 << 31 else 0) ||| (if pfp then 1 else 0) << 27 ||| bit_and a 0xFFFF)
      ≡ a % 2 ^ 16
sync_src true true a = high_pair 1 1 a (omega arith) (omega arith)
sync_src true false a = high_pair 1 0 a (omega arith) (omega arith)
sync_src false true a = high_pair 0 1 a (omega arith) (omega arith)
sync_src false false a = high_pair 0 0 a (omega arith) (omega arith)

header_of :
    (n : ℕ) → n < 2 ^ 21 → (raw : Bool) → field 0 21 ((if raw then 1 << 30 else 0) ||| n) ≡ n
header_of n h true = (pack_first-Reads (slot 30 1 1) (slot 0 21 n ∷ []) refl (omega arith)).1.0
header_of n h false = (pack_first-Reads (slot 30 1 0) (slot 0 21 n ∷ []) refl (omega arith)).1.0

address :
    (a : ℕ) → a < 2 ^ 48 → field 0 32 (bit_and a 0xFFFFFFFF) + a / 2 ^ 32 % 2 ^ 16 * 2 ^ 32 ≡ a
unfolding field
address a h = omega (arith, bit_and_mask 32 a)

high_half : (a : ℕ) → field 0 16 (bit_and (a / 2 ^ 32) 0xffff) ≡ a / 2 ^ 32 % 2 ^ 16
unfolding field
high_half a = omega (arith, bit_and_mask 16 (a / 2 ^ 32))

sync_body-cp_dma :
    (src dst size : ℕ) (sync raw pfp : Bool)
    → src < 2 ^ 48
    → dst < 2 ^ 48
    → size < 2 ^ 21
    → cp_dma (packet 0x41 (sync_body dst src size sync raw pfp) ∷ []) ≡ some (copy src dst size)
unfolding cp_dma
sync_body-cp_dma src dst size sync raw pfp hs hd hn = rw (
  sync_src sync pfp (src / 2 ^ 32),
  high_half dst,
  header_of size hn raw,
  address src hs,
  address dst hd,
)

abbrev sync_words : ℕ → ℕ → ℕ → Bool → Bool → Bool → List ℕ
sync_words dst src size sync raw pfp =
    buffer_words (packet 0x41 (sync_body dst src size sync raw pfp) ∷ [])

module _ {D : Type 0} (kernel : Kernel D) where
  -- If both buffers are whole blocks, the size is not 0 and below 2 MiB, and both addresses are
  -- below 2 ^ 48, the synchronous copy sends one request to the compute ring that names all
  -- fragments of the source and of the destination, and the command processor reads it as one
  -- packet that copies `size` bytes from the source's address to the destination's. With the sync
  -- flag, the waits for the destination and then the source follow; without it, the answer of the
  -- request is returned at once.
  pub compute_send_sync_dma_req-copies :
      (dst src : GpuBuffer) (ds ss : Block) (dst_offset src_offset size : ℕ) (sync raw pfp : Bool)
      (fuel : ℕ) (buf : ℕ → ℕ) (state : D)
      → IsWhole (src ∷ ss)
      → IsWhole (dst ∷ ds)
      → 0 < size
      → size < 2 ^ 21
      → add64 src.va src_offset < 2 ^ 48
      → add64 dst.va dst_offset < 2 ^ 48
      → (ws : List ℕ) × (ks : List Packet) × (compute_send_sync_dma_req kernel
            (dst ∷ ds)
            dst_offset
            (src ∷ ss)
            src_offset
            size
            sync
            raw
            pfp
            fuel
            buf
            state
          ≡ (let answer =
                kernel.submit
                  (request_of kernel 1 1 (map reloc_of (src ∷ ss) ++ map reloc_of (dst ∷ ds)) ws)
                  state in
              if sync then wait_both kernel fuel (dst ∷ ds) (src ∷ ss) answer else some answer))
        × (parse 1 ws ≡ some ks)
        × (cp_dma ks ≡ some (copy (add64 src.va src_offset) (add64 dst.va dst_offset) size))
  unfolding compute_send_sync_dma_req fill_sync_dma
  compute_send_sync_dma_req-copies dst src ds ss dst_offset src_offset size sync raw pfp fuel buf
        state ws wd n0 n1 hs hd =
      let sa = add64 src.va src_offset in
      let da = add64 dst.va dst_offset in
      let k : Packet = packet 0x41 (sync_body da sa size sync raw pfp) in
      let sent = submit_copy-puts kernel 1 src dst ss ds (buffer_words (k ∷ [])) buf state ws wd in
      (
        buffer_words (k ∷ []),
        k ∷ [],
        rw (size_ok size n0 n1) (finish sync _ _ sent),
        parse-buffer_words (k ∷ []) 1 (omega arith) (omega arith),
        sync_body-cp_dma sa da size sync raw pfp hs hd n1,
      )
    where
      finish :
          (b : Bool) (o : Option (ℕ × D)) (r : ℕ × D)
          → o ≡ some r
          → (if b
              then elim o [ none ↦ none | some q ↦ wait_both kernel fuel (dst ∷ ds) (src ∷ ss) q ]
              else o)
            ≡ (if b then wait_both kernel fuel (dst ∷ ds) (src ∷ ss) r else some r)
      finish b o r e =
          ap
            (λ x.
              if b
              then elim x [ none ↦ none | some q ↦ wait_both kernel fuel (dst ∷ ds) (src ∷ ss) q ]
              else x)
            e
