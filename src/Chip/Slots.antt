-- ===== src/Chip/Slots.antt =====
-- A device is at a slot where their addresses on the bus are the same.
use radeonsi_compute.Base.{
  ℕ, ◌+◌, ◌*◌, ◌<◌, ◌≡◌, refl, true, false, ◌==◌, ◌&&◌, Bool-cases, inl, inr, arith, ==→eq, &&→both,
}
use radeonsi_compute.Chip.{PciDevice, Slot, is_at}

-- A slot with numbers in the ranges of their fields.
abbrev pub InRange : Slot → Type 0
InRange s = (s.domain < 65536) × (s.bus < 256) × (s.dev < 256) × (s.func < 8)

abbrev pub slot_of : PciDevice → Slot
slot_of d = record { domain = d.domain; bus = d.bus; dev = d.dev; func = d.func }

-- The place on the bus as one number.
abbrev pub address_of : Slot → ℕ
address_of s = ((s.domain * 256 + s.bus) * 256 + s.dev) * 8 + s.func

pub is_at-address_of :
    (d : PciDevice) (s : Slot)
    → InRange (slot_of d)
    → InRange s
    → is_at d s ≡ (address_of s == address_of (slot_of d))
unfolding is_at
is_at-address_of d s (d0, d1, d2, d3) (s0, s1, s2, s3) =
    elim (Bool-cases (address_of s == address_of (slot_of d))) [
      | inl same ↦
          let e = ==→eq (address_of s) (address_of (slot_of d)) same in
          let e0 : (s.domain == d.domain) ≡ true = ground (arith, domain_of e) in
          let e1 : (s.bus == d.bus) ≡ true = ground (arith, bus_of e) in
          let e2 : (s.dev == d.dev) ≡ true = ground (arith, dev_of e) in
          let e3 : (s.func == d.func) ≡ true = ground (arith, func_of e) in
          rw (e0, e1, e2, e3, same) refl
      | inr other ↦ elim (Bool-cases (is_at d s)) [
        | inl at ↦ absurd (clash at other)
        | inr away ↦ rw (away, other) refl
      ]
    ]
  where
    domain_of : address_of s ≡ address_of (slot_of d) → s.domain ≡ d.domain
    domain_of e = omega arith

    bus_of : address_of s ≡ address_of (slot_of d) → s.bus ≡ d.bus
    bus_of e = omega arith

    dev_of : address_of s ≡ address_of (slot_of d) → s.dev ≡ d.dev
    dev_of e = omega arith

    func_of : address_of s ≡ address_of (slot_of d) → s.func ≡ d.func
    func_of e = omega arith

    different :
        s.domain ≡ d.domain
        → s.bus ≡ d.bus
        → s.dev ≡ d.dev
        → s.func ≡ d.func
        → (address_of s == address_of (slot_of d)) ≡ false
        → ⊥
    different e0 e1 e2 e3 other =
        let same : address_of s ≡ address_of (slot_of d) = omega (arith, e0, e1, e2, e3) in
        ground arith

    clash : is_at d s ≡ true → (address_of s == address_of (slot_of d)) ≡ false → ⊥
    clash at other =
        let t0 = s.domain == d.domain in
        let t1 = s.bus == d.bus in
        let t2 = s.dev == d.dev in
        let (abc, f) = &&→both (t0 && t1 && t2) (s.func == d.func) at in
        let (ab, c1) = &&→both (t0 && t1) t2 abc in
        let (a, b1) = &&→both t0 t1 ab in
        different (==→eq s.domain d.domain a) (==→eq s.bus d.bus b1) (==→eq s.dev d.dev c1)
          (==→eq s.func d.func f) other
