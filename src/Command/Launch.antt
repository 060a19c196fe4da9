-- ===== src/Command/Launch.antt =====
-- A launch: what `compute_emit_compute_state_manual_relocs` puts into the buffer, and what the
-- processor does with it.
use radeonsi_compute.Base.{
  ℕ, zero, suc, ◌+◌, ◌-◌, ◌/◌, ◌^◌, ◌≤◌, ◌<◌, ◌≡◌, refl, sym, ap, ◌∙◌, ◌==◌, if◌then◌else◌, Option,
  some, List, [], ◌∷◌, ◌++◌, get_elem?, length, arith, Bool-cases, inl, inr,
}
use mathlib.Core.List.{append_assoc, append-nil}
use radeonsi_compute.Base.Bits.{u32}
use radeonsi_compute.Base.Stream.{Stream, put, puts, puts-append}
use radeonsi_compute.Device.{ComputeState}
use radeonsi_compute.Sid.Registers
use radeonsi_compute.Command.{
  ◌>>◌, set_compute_reg, surface_sync, pgm_rsrc1, pgm_rsrc2, resource_limits, thread_mgmt_se0,
  thread_mgmt_se1,
}
use radeonsi_compute.Command.Build.{
  copy_user_data, int_rounds, fill_user_data, fill_registers, fill_launch,
}
use radeonsi_compute.Command.Packets.{Packet, packet, buffer_words, packet_words}

-- One register write.
abbrev pub set_reg : ℕ → ℕ → Packet
set_reg index v = packet 0x76 (index ∷ v ∷ [])

abbrev pub register_packets : ComputeState → List Packet
register_packets s =
    set_reg 0x201 s.dim.x
    ∷ set_reg 0x202 s.dim.y
    ∷ set_reg 0x203 s.dim.z
    ∷ set_reg 0x204 s.start.x
    ∷ set_reg 0x205 s.start.y
    ∷ set_reg 0x206 s.start.z
    ∷ set_reg 0x207 (Registers.s_00b81c_num_thread_full s.num_thread.x)
    ∷ set_reg 0x208 (Registers.s_00b820_num_thread_full s.num_thread.y)
    ∷ set_reg 0x209 (Registers.s_00b824_num_thread_full s.num_thread.z)
    ∷ set_reg 0x20b 0xF00
    ∷ set_reg 0x20c (u32 (s.binary.va / 2 ^ 8))
    ∷ set_reg 0x20d (u32 (s.binary.va / 2 ^ 40))
    ∷ set_reg 0x212 (pgm_rsrc1 s)
    ∷ set_reg 0x213 (pgm_rsrc2 s)
    ∷ set_reg 0x215 (resource_limits s)
    ∷ set_reg 0x216 (thread_mgmt_se0 s)
    ∷ set_reg 0x217 (thread_mgmt_se1 s)
    ∷ []

abbrev pub sync_packet : Packet
sync_packet = packet 0x43 (0x28c00000 ∷ 0xffffffff ∷ 0 ∷ 10 ∷ [])

fill_registers-puts :
    (s : ComputeState) (p : Stream)
    → fill_registers s p ≡ some (puts (buffer_words (register_packets s)) p)
unfolding fill_registers
fill_registers-puts s p = refl

-- The `n` values from place `i` on, 0 where there are none.
abbrev value_at : List ℕ → ℕ → ℕ
value_at [] i = 0
value_at (x ∷ xs) zero = x
value_at (x ∷ xs) (suc i) = value_at xs i

abbrev pub slice : List ℕ → ℕ → ℕ → List ℕ
slice xs i zero = []
slice xs i (suc n) = value_at xs i ∷ slice xs (i + 1) n

pub length-slice : (xs : List ℕ) (i n : ℕ) → length (slice xs i n) ≡ n
length-slice xs i zero = refl
length-slice xs i (suc n) = ap suc (length-slice xs (i + 1) n)

get_elem?-value_at : (xs : List ℕ) (i : ℕ) → i < length xs → get_elem? xs i ≡ some (value_at xs i)
get_elem?-value_at [] i h = absurd (omega arith)
get_elem?-value_at (x ∷ xs) zero h = refl
get_elem?-value_at (x ∷ xs) (suc i) h = get_elem?-value_at xs i (omega arith)

pub get_elem?-slice :
    (xs : List ℕ) (i n j : ℕ)
    → i + n ≤ length xs
    → j < n
    → get_elem? (slice xs i n) j ≡ get_elem? xs (i + j)
get_elem?-slice xs i zero j h l = absurd (omega arith)
get_elem?-slice xs i (suc n) zero h l =
    sym (get_elem?-value_at xs i (omega arith)) ∙ ap (get_elem? xs) (omega arith)
get_elem?-slice xs i (suc n) (suc j) h l =
    get_elem?-slice xs (i + 1) n j (omega arith) (omega arith) ∙ ap (get_elem? xs) (omega arith)

copy_user_data-puts :
    (xs : List ℕ) (n i : ℕ) (p : Stream)
    → i + n ≤ length xs
    → copy_user_data xs n i p ≡ some (puts (slice xs i n) p)
unfolding copy_user_data
copy_user_data-puts xs zero i p h = refl
copy_user_data-puts xs (suc n) i p h =
    rw (get_elem?-value_at xs i (omega arith), copy_user_data)
      (copy_user_data-puts xs n (i + 1) (put (value_at xs i) p) (omega arith))

abbrev pub user_packets : ComputeState → List Packet
user_packets s =
    if s.user_data_length == 0
    then []
    else packet 0x76 (0x240 ∷ slice s.user_data 0 s.user_data_length) ∷ []

-- The flush, the launch and the reset of the initiator.
abbrev pub start_packets : List Packet
start_packets = sync_packet ∷ set_reg 0x200 1 ∷ set_reg 0x200 0 ∷ []

abbrev pub launch_packets : ComputeState → List Packet
launch_packets s = register_packets s ++ user_packets s ++ start_packets

abbrev pub UserDataFits : ComputeState → Type 0
UserDataFits s = (s.user_data_length ≤ length s.user_data) × (length s.user_data ≤ 16)

int_rounds-small : (n : ℕ) → n ≤ 16 → int_rounds n ≡ n
unfolding int_rounds
int_rounds-small n h = ground arith

fill_user_data-puts :
    (s : ComputeState) (p : Stream)
    → UserDataFits s
    → fill_user_data s p ≡ some (puts (buffer_words (user_packets s)) p)
unfolding fill_user_data
fill_user_data-puts s p (h1, h2) = elim (Bool-cases (s.user_data_length == 0)) [
  | inl none_given ↦ rw none_given
  | inr some_given ↦ rw (
    some_given,
    int_rounds-small s.user_data_length (omega arith),
    copy_user_data-puts s.user_data s.user_data_length 0 _ (omega arith),
    append-nil,
    header,
  )
]
  where
    header : suc (length (slice s.user_data 0 s.user_data_length)) - 1 ≡ s.user_data_length
    header = omega (arith, length-slice s.user_data 0 s.user_data_length)

buffer_words-append :
    (xs ys : List Packet) → buffer_words (xs ++ ys) ≡ buffer_words xs ++ buffer_words ys
buffer_words-append [] ys = refl
buffer_words-append (x ∷ xs) ys =
    ap (λ ws. packet_words x ++ ws) (buffer_words-append xs ys)
    ∙ sym (append_assoc (packet_words x) (buffer_words xs) (buffer_words ys))

-- The buffer of a launch holds the packets of the launch and nothing else.
pub fill_launch-puts :
    (s : ComputeState) (p : Stream)
    → UserDataFits s
    → fill_launch s p ≡ some (puts (buffer_words (launch_packets s)) p)
unfolding fill_launch surface_sync
fill_launch-puts s p h = ap start both ∙ regroup
  where
    start : Option Stream → Option Stream
    start o =
        ((λ _. o)
            >> surface_sync
            >> set_compute_reg Registers.r_00b800_compute_dispatch_initiator 1
            >> set_compute_reg Registers.r_00b800_compute_dispatch_initiator 0)
          p

    both :
        (fill_registers s >> fill_user_data s) p
        ≡ some (puts (buffer_words (user_packets s)) (puts (buffer_words (register_packets s)) p))
    both =
        ap (λ o. ((λ _. o) >> fill_user_data s) p) (fill_registers-puts s p)
        ∙ fill_user_data-puts s (puts (buffer_words (register_packets s)) p) h

    regroup :
        some (
          puts
            (buffer_words start_packets)
            (puts (buffer_words (user_packets s)) (puts (buffer_words (register_packets s)) p)))
        ≡ some (puts (buffer_words (launch_packets s)) p)
    regroup = ap some (
        ap (puts (buffer_words start_packets))
          (sym (puts-append (buffer_words (register_packets s)) (buffer_words (user_packets s)) p))
        ∙ sym (
            puts-append (buffer_words (register_packets s) ++ buffer_words (user_packets s))
              (buffer_words start_packets) p)
        ∙ ap (λ ws. puts ws p)
            (ap (λ ws. ws ++ buffer_words start_packets)
                (sym (buffer_words-append (register_packets s) (user_packets s)))
              ∙ sym (buffer_words-append (register_packets s ++ user_packets s) start_packets)))
