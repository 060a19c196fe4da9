-- ===== src/Transfer/Bytes.antt =====
-- A buffer of several fragments as one array of bytes.
use radeonsi_compute.Base.{
  ℕ, zero, suc, ◌+◌, ◌-◌, ◌*◌, ◌^◌, ◌≤◌, ◌<◌, ◌≡◌, ◌⊎◌, inl, inr, refl, ap, ◌∙◌, true, false, ltb,
  ◌==◌, if◌then◌else◌, List, [], ◌∷◌, All, length, arith, min, Bool-cases, ltb→lt,
}
use radeonsi_compute.Base.Stream.{store, words}
use radeonsi_compute.Submit.{Block}
use radeonsi_compute.Buffers.Fragments.{total_size}
use radeonsi_compute.Transfer.{store_bytes}
use radeonsi_compute.Transfer.Whole.{written, copied, IsFilled}

-- Byte `i` of a buffer whose fragments but the last have 64 MiB.
abbrev pub byte_of : (ℕ → ℕ → ℕ) → Block → ℕ → ℕ
byte_of c [] i = 0
byte_of c (b ∷ bs) i =
    let later = byte_of c bs (i - 2 ^ 26) in if ltb i (2 ^ 26) then c b.handle i else later

-- The fragments have handles of their own.
abbrev pub IsApart : Block → Type 0
IsApart [] = Unit
IsApart (b ∷ bs) = All (λ x. (x.handle == b.handle) ≡ false) bs × IsApart bs

pub store_bytes-outside :
    (mem : ℕ → ℕ) (a : ℕ) (bs : List ℕ) (x : ℕ)
    → (x < a) ⊎ (a + length bs ≤ x)
    → store_bytes mem a bs x ≡ mem x
store_bytes-outside mem a [] x h = refl
store_bytes-outside mem a (b ∷ bs) x h =
    store_bytes-outside (store mem a b) (a + 1) bs x (moved h) ∙ other h
  where
    other : (x < a) ⊎ (a + length (b ∷ bs) ≤ x) → store mem a b x ≡ mem x
    other (inl l) = let apart : (a == x) ≡ false = ground arith in rw apart
    other (inr l) = let apart : (a == x) ≡ false = ground arith in rw apart

    moved : (x < a) ⊎ (a + length (b ∷ bs) ≤ x) → (x < a + 1) ⊎ (a + 1 + length bs ≤ x)
    moved (inl l) = inl (omega (arith, l))
    moved (inr l) = inr (omega (arith, l))

pub length-words : (mem : ℕ → ℕ) (s k : ℕ) → length (words mem s k) ≡ k
length-words mem s zero = refl
length-words mem s (suc k) = ap suc (length-words mem (s + 1) k)

pub store_bytes-words :
    (mem m : ℕ → ℕ) (a s k i : ℕ) → i < k → store_bytes mem a (words m s k) (a + i) ≡ m (s + i)
store_bytes-words mem m a s zero i h = absurd (omega arith)
store_bytes-words mem m a s (suc k) zero h =
    ap (store_bytes (store mem a (m s)) (a + 1) (words m (s + 1) k)) (omega arith)
    ∙ store_bytes-outside (store mem a (m s)) (a + 1) (words m (s + 1) k) a (inl (omega arith))
    ∙ here
    ∙ ap m (omega arith)
  where
    here : store mem a (m s) a ≡ m s
    here = let self : (a == a) ≡ true = ground arith in rw self
store_bytes-words mem m a s (suc k) (suc i) h =
    ap (store_bytes (store mem a (m s)) (a + 1) (words m (s + 1) k)) (omega arith)
    ∙ store_bytes-words (store mem a (m s)) m (a + 1) (s + 1) k i (omega arith)
    ∙ ap m (omega arith)

-- A fragment that is not among those that take bytes keeps its own.
copied-apart :
    (c : ℕ → ℕ → ℕ) (bs : Block) (mem : ℕ → ℕ) (src n h x : ℕ)
    → All (λ b. (b.handle == h) ≡ false) bs
    → copied c bs mem src n h x ≡ c h x
copied-apart c [] mem src n h x apart = refl
copied-apart c (b ∷ bs) mem src n h x (o, apart) = elim (Bool-cases (n == 0)) [
  | inl z ↦ rw z
  | inr z ↦ rw z (
      copied-apart (written c b.handle 0 (words mem src (min n (2 ^ 26)))) bs mem
        (src + min n (2 ^ 26)) (n - min n (2 ^ 26)) h x apart
      ∙ rw o refl)
]

-- After the copy the bytes of the buffer are those of the source.
pub byte_of-copied :
    (c : ℕ → ℕ → ℕ) (bs : Block) (mem : ℕ → ℕ) (src n i : ℕ)
    → IsApart bs
    → n ≤ 2 ^ 26 * length bs
    → i < n
    → byte_of (copied c bs mem src n) bs i ≡ mem (src + i)
byte_of-copied c [] mem src n i apart room h = absurd (omega arith)
byte_of-copied c (b ∷ bs) mem src n i (own, apart) room h =
    let some_left : (n == 0) ≡ false = ground arith in
    elim (Bool-cases (ltb i (2 ^ 26))) [
      | inl here ↦
          let l : i < 2 ^ 26 = ltb→lt _ _ here in
          rw (here, some_left)
            (copied-apart c1 bs mem (src + k) (n - k) b.handle i own ∙ in_fragment l)
      | inr there ↦
          let g : 2 ^ 26 ≤ i = ground arith in
          let whole : k ≡ 2 ^ 26 = omega (arith, g, h) in
          rw there (
            ap (λ t. byte_of (if t then c else copied c1 bs mem (src + k) (n - k)) bs (i - 2 ^ 26))
              some_left
            ∙ byte_of-copied c1 bs mem (src + k) (n - k) (i - 2 ^ 26) apart (omega (arith, whole))
                (omega (arith, whole, g, h))
            ∙ ap mem (omega (arith, whole, g)))
    ]
  where
    k : ℕ
    k = min n (2 ^ 26)

    c1 : ℕ → ℕ → ℕ
    c1 = written c b.handle 0 (words mem src k)

    in_fragment : i < 2 ^ 26 → c1 b.handle i ≡ mem (src + i)
    in_fragment l =
        let self : (b.handle == b.handle) ≡ true = ground arith in
        rw self (
          ap (store_bytes (c b.handle) 0 (words mem src k)) (omega arith)
          ∙ store_bytes-words (c b.handle) mem 0 src k i (omega (arith, l, h)))

-- What is meant: each fragment in turn gives 64 MiB, or what is left.
abbrev pub gathered : (ℕ → ℕ → ℕ) → Block → (ℕ → ℕ) → ℕ → ℕ → ℕ → ℕ
gathered c [] mem dst n = mem
gathered c (b ∷ bs) mem dst n =
    let later =
      gathered c bs (store_bytes mem dst (words (c b.handle) 0 (min n (2 ^ 26))))
        (dst + min n (2 ^ 26)) (n - min n (2 ^ 26)) in
    if n == 0 then mem else later

pub gathered-outside :
    (c : ℕ → ℕ → ℕ) (bs : Block) (mem : ℕ → ℕ) (dst n x : ℕ)
    → (x < dst) ⊎ (dst + n ≤ x)
    → gathered c bs mem dst n x ≡ mem x
gathered-outside c [] mem dst n x h = refl
gathered-outside c (b ∷ bs) mem dst n x h = elim (Bool-cases (n == 0)) [
  | inl z ↦ rw z
  | inr z ↦ rw z (
      gathered-outside c bs (store_bytes mem dst bytes) (dst + k) (n - k) x (later h)
      ∙ store_bytes-outside mem dst bytes x (first h))
]
  where
    k : ℕ
    k = min n (2 ^ 26)

    bytes : List ℕ
    bytes = words (c b.handle) 0 k

    later : (x < dst) ⊎ (dst + n ≤ x) → (x < dst + k) ⊎ (dst + k + (n - k) ≤ x)
    later (inl l) = inl (omega (arith, l))
    later (inr l) = inr (omega (arith, l))

    first : (x < dst) ⊎ (dst + n ≤ x) → (x < dst) ⊎ (dst + length bytes ≤ x)
    first (inl l) = inl l
    first (inr l) = inr (omega (arith, l, length-words (c b.handle) 0 k))

pub gathered-byte_of :
    (c : ℕ → ℕ → ℕ) (bs : Block) (mem : ℕ → ℕ) (dst n i : ℕ)
    → n ≤ 2 ^ 26 * length bs
    → i < n
    → gathered c bs mem dst n (dst + i) ≡ byte_of c bs i
gathered-byte_of c [] mem dst n i room h = absurd (omega arith)
gathered-byte_of c (b ∷ bs) mem dst n i room h =
    let some_left : (n == 0) ≡ false = ground arith in
    elim (Bool-cases (ltb i (2 ^ 26))) [
      | inl here ↦
          let l : i < 2 ^ 26 = ltb→lt _ _ here in
          rw (here, some_left)
            (gathered-outside c bs (store_bytes mem dst (words (c b.handle) 0 k)) (dst + k) (n - k)
                (dst + i) (inl (omega (arith, l, h)))
              ∙ store_bytes-words mem (c b.handle) dst 0 k i (omega (arith, l, h))
              ∙ ap (c b.handle) (omega arith))
      | inr there ↦
          let g : 2 ^ 26 ≤ i = ground arith in
          let whole : k ≡ 2 ^ 26 = omega (arith, g, h) in
          rw (there, some_left)
            (ap (gathered c bs (store_bytes mem dst (words (c b.handle) 0 k)) (dst + k) (n - k))
                (omega (arith, whole, g))
              ∙ gathered-byte_of c bs (store_bytes mem dst (words (c b.handle) 0 k)) (dst + k)
                  (n - k) (i - 2 ^ 26) (omega (arith, whole)) (omega (arith, whole, g, h)))
    ]
  where
    k : ℕ
    k = min n (2 ^ 26)

pub total_size-room : (bs : Block) → IsFilled bs → total_size bs ≤ 2 ^ 26 * length bs
total_size-room [] h = omega arith
total_size-room (b ∷ bs) (most, _, h) = omega (arith, most, total_size-room bs h)
