-- ===== src/Command/Packets.antt =====
-- How the command processor reads a buffer: packets of type 3, independent of computesi.c. Of a
-- header, bits 30 and 31 are the type, 16 to 29 the number of words behind it less one, 8 to 15
-- the operation, bit 1 is set for compute and bit 0 for predication.
use radeonsi_compute.Base.{
  ℕ, zero, suc, ◌+◌, ◌-◌, ◌*◌, ◌^◌, ◌≤◌, ◌<◌, ◌≡◌, refl, ap, ◌∙◌, Bool, true, false, ◌==◌,
  if◌then◌else◌, leb, Option, none, some, List, [], ◌∷◌, ◌++◌, All, length, length-append, arith,
  bit_and,
}
use mathlib.Core.Option
use radeonsi_compute.Base.Bits.{field, bit_and_mask}
use radeonsi_compute.Base.Fields.{slot, pack_zero-Reads}
use radeonsi_compute.Command.{pkt3c}

pub record Packet : Type 0 where
  pub op : ℕ
  pub body : List ℕ

abbrev pub packet : ℕ → List ℕ → Packet
packet o b = record { op = o; body = b }

abbrev pub take : ℕ → List ℕ → List ℕ
take zero xs = []
take (suc n) [] = []
take (suc n) (x ∷ xs) = x ∷ take n xs

abbrev pub drop : ℕ → List ℕ → List ℕ
drop zero xs = xs
drop (suc n) [] = []
drop (suc n) (x ∷ xs) = drop n xs

-- A header that starts a compute packet without predication.
abbrev is_header : ℕ → Bool
is_header w = if field 30 2 w == 3 then field 0 2 w == 2 else false

-- The packets of a buffer; `none` if it is no sequence of whole packets.
unfoldable pub parse : ℕ → List ℕ → Option (List Packet)
parse fuel [] = some []
parse zero (w ∷ ws) = none
parse (suc fuel) (w ∷ ws) =
    let n : ℕ = field 16 14 w + 1 in
    let rest = parse fuel (drop n ws) in
    if is_header w
    then if leb n (length ws)
      then Option.map (◌∷◌ (packet (field 8 8 w) (take n ws))) rest
      else none
    else none

-- A packet as computesi.c writes it.
abbrev pub packet_words : Packet → List ℕ
packet_words k = pkt3c k.op (length k.body - 1) 0 ∷ k.body

abbrev pub buffer_words : List Packet → List ℕ
buffer_words [] = []
buffer_words (k ∷ ks) = packet_words k ++ buffer_words ks

abbrev pub IsPacket : Packet → Type 0
IsPacket k = (k.op < 256) × (1 ≤ length k.body) × (length k.body ≤ 2 ^ 14)

low_pair : (w : ℕ) → field 0 2 w ≡ field 0 1 w + 2 * field 1 1 w
unfolding field
low_pair w = omega arith

-- The fields of a header that `PKT3C` puts together.
pub pkt3c_fields :
    (op count : ℕ)
    → op < 256
    → count < 2 ^ 14
    → (field 30 2 (pkt3c op count 0) ≡ 3)
      × (field 16 14 (pkt3c op count 0) ≡ count)
      × (field 8 8 (pkt3c op count 0) ≡ op)
      × (field 0 2 (pkt3c op count 0) ≡ 2)
unfolding pkt3c
pkt3c_fields op count h1 h2 =
    let c = bit_and_mask 14 count in
    let o = bit_and_mask 8 op in
    let r =
      pack_zero-Reads
        (slot 30 2 3
          ∷ slot 16 14 (bit_and count 0x3FFF)
          ∷ slot 8 8 (bit_and op 0xFF)
          ∷ slot 0 1 0
          ∷ slot 1 1 1
          ∷ [])
        refl (omega (arith, c, o)) in
    (
      r.0,
      r.1.0 ∙ omega (arith, c),
      r.1.1.0 ∙ omega (arith, o),
      low_pair _ ∙ omega (arith, r.1.1.1.0, r.1.1.1.1.0),
    )

take-append : (xs ys : List ℕ) → take (length xs) (xs ++ ys) ≡ xs
take-append [] ys = refl
take-append (x ∷ xs) ys = ap (◌∷◌ x) (take-append xs ys)

drop-append : (xs ys : List ℕ) → drop (length xs) (xs ++ ys) ≡ ys
drop-append [] ys = refl
drop-append (x ∷ xs) ys = drop-append xs ys

parse_step :
    (fuel : ℕ) (k : Packet) (more : List ℕ)
    → IsPacket k
    → parse (suc fuel) (packet_words k ++ more) ≡ Option.map (◌∷◌ k) (parse fuel more)
unfolding parse
parse_step fuel k more (h1, h2, h3) =
    let f = pkt3c_fields k.op (length k.body - 1) h1 (omega arith) in
    let n : length k.body - 1 + 1 ≡ length k.body = omega arith in
    let enough : leb (length k.body) (length (k.body ++ more)) ≡ true =
      ground (arith, length-append k.body more) in
    rw (f.0, f.3, f.1, f.2, n, enough, take-append k.body more, drop-append k.body more)

-- Whole packets are read back from their words.
pub parse-buffer_words :
    (ks : List Packet) (fuel : ℕ)
    → All IsPacket ks
    → length ks ≤ fuel
    → parse fuel (buffer_words ks) ≡ some ks
unfolding parse
parse-buffer_words [] fuel h f = refl
parse-buffer_words (k ∷ ks) zero h f = absurd (omega arith)
parse-buffer_words (k ∷ ks) (suc fuel) (h, hs) f =
    parse_step fuel k (buffer_words ks) h
    ∙ ap (Option.map (◌∷◌ k)) (parse-buffer_words ks fuel hs (omega arith))
