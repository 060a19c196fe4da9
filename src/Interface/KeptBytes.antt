-- ===== src/Interface/KeptBytes.antt =====
-- The bytes that the DMA engine copies of a piece, and of the whole.
use radeonsi_compute.Base.{
  ℕ, ◌+◌, ◌*◌, ◌/◌, ◌%◌, ◌^◌, ◌<◌, ◌≡◌, refl, ap, ◌∙◌, Bool, true, false, ◌==◌, if◌then◌else◌, ◌&&◌,
  bit_and, arith,
}
use radeonsi_compute.Base.Bits.{bit_and_mask}
use radeonsi_compute.Submit.AsyncCopy.{async_bytes}

-- The bytes that an asynchronous copy makes: words only, where both addresses are multiples of 4.
abbrev pub kept_bytes : ℕ → ℕ → ℕ → ℕ
kept_bytes src dst size = if (src % 4 == 0) && (dst % 4 == 0) then size / 4 * 4 else size

pub async_bytes-kept : (src dst n : ℕ) → n < 2 ^ 20 → async_bytes src dst n ≡ kept_bytes src dst n
unfolding async_bytes
async_bytes-kept src dst n h =
    let low_src : bit_and src 3 ≡ src % 4 = bit_and_mask 2 src in
    let low_dst : bit_and dst 3 ≡ dst % 4 = bit_and_mask 2 dst in
    let small : n % 2 ^ 20 ≡ n = omega arith in rw (low_src, low_dst, small) refl

-- A whole piece is copied whole.
pub kept_bytes-full : (src dst : ℕ) → kept_bytes src dst (2 ^ 19) ≡ 2 ^ 19
kept_bytes-full src dst = ground arith

-- The last piece ends where the copy ends.
pub kept_bytes-last :
    (src dst i n : ℕ)
    → i % 2 ^ 19 ≡ 0
    → i + kept_bytes (src + i) (dst + i) n ≡ kept_bytes src dst (i + n)
kept_bytes-last src dst i n h =
    let low_src : (src + i) % 4 ≡ src % 4 = omega arith in
    let low_dst : (dst + i) % 4 ≡ dst % 4 = omega arith in
    ap (λ t. i + t) (rw (low_src, low_dst) refl) ∙ by_test ((src % 4 == 0) && (dst % 4 == 0))
  where
    by_test : (b : Bool) → i + (if b then n / 4 * 4 else n) ≡ (if b then (i + n) / 4 * 4 else i + n)
    by_test true = omega arith
    by_test false = refl
