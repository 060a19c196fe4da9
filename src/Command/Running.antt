-- ===== src/Command/Running.antt =====
-- What the processor does with the buffer of a launch.
use radeonsi_compute.Base.{
  ℕ, zero, suc, ◌+◌, ◌*◌, ◌/◌, ◌%◌, ◌^◌, ◌≤◌, ◌≡◌, refl, sym, ap, ap₂, ◌∙◌, true, ◌==◌, some, List,
  [], ◌∷◌, All, get_elem?, length, length-append, arith, Bool-cases, ==→eq, inl, inr,
}
use mathlib.Core.Path.{subst}
use radeonsi_compute.Base.Bits.{field, bit_and_mask}
use radeonsi_compute.Base.Stream.{store}
use radeonsi_compute.Device.{ComputeState}
use radeonsi_compute.Sid.Registers
use radeonsi_compute.Command.{
  pgm_rsrc1, pgm_rsrc2, resource_limits, thread_mgmt_se0, thread_mgmt_se1,
}
use radeonsi_compute.Command.Packets.{take, Packet, buffer_words, IsPacket}
use radeonsi_compute.Command.Gpu.{Gpu, Found, exec, write_regs, Wrote, write_regs-Wrote}
use radeonsi_compute.Command.Launch.{
  register_packets, start_packets, launch_packets, slice, UserDataFits, length-slice,
}

-- The values of the `n` registers from `a` on.
abbrev pub registers : (ℕ → ℕ) → ℕ → ℕ → List ℕ
registers regs a zero = []
registers regs a (suc n) = regs a ∷ registers regs (a + 4) n

-- The registers that a launch of `s` is to find.
pub record IsLaunchOf (s : ComputeState) (f : Found) : Type 0 where
  pub flushed : f.flushed ≡ true
  pub dim_x : f.regs 0xB804 ≡ s.dim.x
  pub dim_y : f.regs 0xB808 ≡ s.dim.y
  pub dim_z : f.regs 0xB80C ≡ s.dim.z
  pub start_x : f.regs 0xB810 ≡ s.start.x
  pub start_y : f.regs 0xB814 ≡ s.start.y
  pub start_z : f.regs 0xB818 ≡ s.start.z
  pub num_thread_x : f.regs 0xB81C ≡ s.num_thread.x % 2 ^ 16
  pub num_thread_y : f.regs 0xB820 ≡ s.num_thread.y % 2 ^ 16
  pub num_thread_z : f.regs 0xB824 ≡ s.num_thread.z % 2 ^ 16
  pub max_wave_id : f.regs 0xB82C ≡ 0xF00
  pub pgm_lo : f.regs 0xB830 ≡ s.binary.va / 2 ^ 8 % 2 ^ 32
  pub pgm_hi : f.regs 0xB834 ≡ s.binary.va / 2 ^ 40 % 2 ^ 32
  pub rsrc1 : f.regs 0xB848 ≡ pgm_rsrc1 s
  pub rsrc2 : f.regs 0xB84C ≡ pgm_rsrc2 s
  pub limits : f.regs 0xB854 ≡ resource_limits s
  pub se0 : f.regs 0xB858 ≡ thread_mgmt_se0 s
  pub se1 : f.regs 0xB85C ≡ thread_mgmt_se1 s
  pub user_data : registers f.regs 0xB900 s.user_data_length ≡ take s.user_data_length s.user_data

abbrev store_packet : (ℕ → ℕ) → List ℕ → ℕ → ℕ
store_packet sh [] = sh
store_packet sh (i ∷ []) = sh
store_packet sh (i ∷ v ∷ vs) = store sh (0xB000 + 4 * i) v

-- The registers once those in front of the user data are written.
abbrev stores : (ℕ → ℕ) → List Packet → ℕ → ℕ
stores sh [] = sh
stores sh (k ∷ ks) = stores (store_packet sh k.body) ks

abbrev after_registers : ComputeState → Gpu → Gpu
after_registers s g = record g { sh = stores g.sh (register_packets s) }

exec-user_data :
    (s : ComputeState) (g : Gpu)
    → (h : Gpu) × Wrote 0xB900 (slice s.user_data 0 s.user_data_length) (after_registers s g) h
      × (exec (launch_packets s) g ≡ exec start_packets h)
unfolding exec
exec-user_data s g = elim (Bool-cases (s.user_data_length == 0)) [
  | inl z ↦ (
    after_registers s g,
    subst (λ n. Wrote 0xB900 (slice s.user_data 0 n) (after_registers s g) (after_registers s g))
        (sym (==→eq _ _ z)) (write_regs-Wrote 0xB900 [] (after_registers s g) (omega arith)),
    rw z,
  )
  | inr z ↦ (
    write_regs 0xB900 (slice s.user_data 0 s.user_data_length) (after_registers s g),
    write_regs-Wrote 0xB900 _ _ (omega arith),
    rw z,
  )
]

registers-Wrote :
    (regs : ℕ → ℕ) (a : ℕ) (vs : List ℕ)
    → ((i w : ℕ) → get_elem? vs i ≡ some w → regs (a + 4 * i) ≡ w)
    → registers regs a (length vs) ≡ vs
registers-Wrote regs a [] h = refl
registers-Wrote regs a (v ∷ vs) h =
    ap₂ ◌∷◌ (ap regs (omega arith) ∙ h 0 v refl)
      (registers-Wrote regs (a + 4) vs (λ i w e. ap regs (omega arith) ∙ h (suc i) w e))

slice-suc : (x : ℕ) (xs : List ℕ) (i n : ℕ) → slice (x ∷ xs) (suc i) n ≡ slice xs i n
slice-suc x xs i zero = refl
slice-suc x xs i (suc n) =
    ap₂ ◌∷◌ refl (ap (λ j. slice (x ∷ xs) j n) (omega arith) ∙ slice-suc x xs (i + 1) n)

slice-take : (xs : List ℕ) (n : ℕ) → n ≤ length xs → slice xs 0 n ≡ take n xs
slice-take xs zero h = refl
slice-take [] (suc n) h = absurd (omega arith)
slice-take (x ∷ xs) (suc n) h = ap (◌∷◌ x) (slice-suc x xs 0 n ∙ slice-take xs n (omega arith))

abbrev found : Gpu → Found
found h = record { regs = h.sh; flushed = true }

found-IsLaunchOf :
    (s : ComputeState) (g h : Gpu)
    → UserDataFits s
    → Wrote 0xB900 (slice s.user_data 0 s.user_data_length) (after_registers s g) h
    → IsLaunchOf s (found h)
unfolding Registers.s_00b81c_num_thread_full Registers.s_00b820_num_thread_full
    Registers.s_00b824_num_thread_full
found-IsLaunchOf s g h fits w = record {
  flushed = refl;
  dim_x = w.below 0xB804 (omega arith);
  dim_y = w.below 0xB808 (omega arith);
  dim_z = w.below 0xB80C (omega arith);
  start_x = w.below 0xB810 (omega arith);
  start_y = w.below 0xB814 (omega arith);
  start_z = w.below 0xB818 (omega arith);
  num_thread_x = w.below 0xB81C (omega arith) ∙ bit_and_mask 16 s.num_thread.x;
  num_thread_y = w.below 0xB820 (omega arith) ∙ bit_and_mask 16 s.num_thread.y;
  num_thread_z = w.below 0xB824 (omega arith) ∙ bit_and_mask 16 s.num_thread.z;
  max_wave_id = w.below 0xB82C (omega arith);
  pgm_lo = w.below 0xB830 (omega arith);
  pgm_hi = w.below 0xB834 (omega arith);
  rsrc1 = w.below 0xB848 (omega arith);
  rsrc2 = w.below 0xB84C (omega arith);
  limits = w.below 0xB854 (omega arith);
  se0 = w.below 0xB858 (omega arith);
  se1 = w.below 0xB85C (omega arith);
  user_data =
      ap (registers h.sh 0xB900) (sym (length-slice s.user_data 0 s.user_data_length))
      ∙ registers-Wrote h.sh 0xB900 (slice s.user_data 0 s.user_data_length) w.written
      ∙ slice-take s.user_data s.user_data_length fits.0;
}

-- The packets of a launch start one launch, of what `s` describes.
pub exec-launch_packets :
    (s : ComputeState) (g : Gpu)
    → UserDataFits s
    → (h : Gpu) × (f : Found) × (exec (launch_packets s) g ≡ some h)
      × (h.launches ≡ f ∷ g.launches)
      × IsLaunchOf s f
unfolding exec field
exec-launch_packets s g fits =
    let (h, w, e) = exec-user_data s g in
    (_, found h, e ∙ refl, ap (◌∷◌ (found h)) w.same_launches, found-IsLaunchOf s g h fits w)

pub launch_packets-IsPacket : (s : ComputeState) → UserDataFits s → All IsPacket (launch_packets s)
launch_packets-IsPacket s fits = elim (Bool-cases (s.user_data_length == 0)) [
  | inl z ↦ rw z (omega arith)
  | inr z ↦ rw z (omega (arith, length-slice s.user_data 0 s.user_data_length))
]

pub launch_packets-length :
    (s : ComputeState)
    → UserDataFits s
    → (length (launch_packets s) ≤ 21) × (length (buffer_words (launch_packets s)) ≤ 80)
launch_packets-length s fits = elim (Bool-cases (s.user_data_length == 0)) [
  | inl z ↦ rw z (omega arith)
  | inr z ↦ rw z (
      omega (
        arith,
        length-append (slice s.user_data 0 s.user_data_length) (buffer_words start_packets),
        length-slice s.user_data 0 s.user_data_length,
      ))
]
