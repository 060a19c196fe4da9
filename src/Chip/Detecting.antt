-- ===== src/Chip/Detecting.antt =====
-- `getAllAtiDevices` finds the node of each device.
use radeonsi_compute.Base.{
  ℕ, ◌≡◌, ◌≢◌, refl, ap, ◌∙◌, false, ◌==◌, if◌then◌else◌, Option, none, some, List, [], ◌∷◌, ◌++◌,
  All, map, Bool-cases, inl, inr, arith,
}
use radeonsi_compute.Master.{Text}
use radeonsi_compute.Chip.{
  PciDevice, Chips, AtiDeviceData, is_ati_gpu, family_of, get_ati_chip_family, slot_name, busid_of,
  name_of, Slot, find_devpath, kept_device, probe, get_all_ati_devices,
}
use radeonsi_compute.Chip.Slots.{InRange, slot_of, address_of, is_at-address_of}
use radeonsi_compute.Chip.Naming.{scan_slot-slot_name}

-- The table of the nodes, with the names that the kernel gives.
abbrev pub nodes_at : List (Slot × Text) → List (Text × Text)
nodes_at = map (λ n. (slot_name n.0.domain n.0.bus n.0.dev n.0.func, n.1))

-- The values that a table has for a key, in order.
abbrev pub values_at : {A : Type 0} → List (ℕ × A) → ℕ → List A
values_at [] key = []
values_at ((k, v) ∷ rest) key = if k == key then v ∷ values_at rest key else values_at rest key

-- The paths of the nodes at the address of the device.
abbrev pub paths_at : List (Slot × Text) → PciDevice → List Text
paths_at nodes d = values_at (map (λ n. (address_of n.0, n.1)) nodes) (address_of (slot_of d))

-- The name of the device in its slot, or else that of the chip, or else no name.
abbrev pub title : Option Text → Option Text → Text
title none none = []
title none (some n) = n
title (some s) n = s

-- The device with the first family of its code and the path of the first node at its address, if
-- there are both and the path is not empty.
abbrev pub described : PciDevice → Text → List ℕ → List Text → List AtiDeviceData
described d vendor [] paths = []
described d vendor (f ∷ fs) [] = []
described d vendor (f ∷ fs) ([] ∷ paths) = []
described d vendor (f ∷ fs) ((c ∷ cs) ∷ paths) =
    (record {
      family = f;
      vendor_name = vendor;
      device_name = title d.subdevice_name d.device_name;
      busid = 112 ∷ 99 ∷ 105 ∷ 58 ∷ slot_name d.domain d.bus d.dev d.func;
      devpath = c ∷ cs;
    })
    ∷ []

-- What is to be found of a device whose vendor has the name `vendor`: the vendor has to be 0x1002.
abbrev pub found_of : Chips → List (Slot × Text) → PciDevice → Text → List AtiDeviceData
found_of chips nodes d vendor =
    if d.vendor_id == 0x1002
    then described d vendor (values_at chips d.device_id) (paths_at nodes d)
    else []

abbrev pub all_found : Chips → List (Slot × Text) → List (PciDevice × Text) → List AtiDeviceData
all_found chips nodes [] = []
all_found chips nodes ((d, vendor) ∷ ds) = found_of chips nodes d vendor ++ all_found chips nodes ds

-- The library has that name for the vendor, and the numbers of the device are in their ranges.
abbrev pub IsNamed : PciDevice × Text → Type 0
IsNamed (d, vendor) = (d.vendor_name ≡ some vendor) × InRange (slot_of d)

-- The first value, or a default.
abbrev head_or : {A : Type 0} → A → List A → A
head_or a [] = a
head_or a (x ∷ xs) = x

family_of-values_at :
    (chips : Chips) (code : ℕ) → family_of chips code ≡ head_or 0 (values_at chips code)
family_of-values_at [] code = refl
family_of-values_at ((k, f) ∷ rest) code = elim (Bool-cases (k == code)) [
  | inl here ↦ rw here refl
  | inr elsewhere ↦ rw elsewhere (family_of-values_at rest code)
]

find_devpath-nodes_at :
    (d : PciDevice) (nodes : List (Slot × Text))
    → InRange (slot_of d)
    → All (λ n. InRange n.0) nodes
    → find_devpath d (nodes_at nodes) ≡ some (head_or [] (paths_at nodes d))
unfolding find_devpath
find_devpath-nodes_at d [] r h = refl
find_devpath-nodes_at d ((s, path) ∷ rest) r ((h_domain, h_bus, h_dev, h_func), hs) =
    let read = scan_slot-slot_name s.domain s.bus s.dev s.func h_domain h_bus h_dev h_func in
    let same = is_at-address_of d s r (h_domain, h_bus, h_dev, h_func) in
    elim (Bool-cases (address_of s == address_of (slot_of d))) [
      | inl here ↦ rw (find_devpath, read, same, here) refl
      | inr elsewhere ↦ rw (find_devpath, read, same, elsewhere) (find_devpath-nodes_at d rest r hs)
    ]

name_of-title : (d : PciDevice) → name_of d ≡ title d.subdevice_name d.device_name
unfolding name_of
name_of-title d = by_names d.subdevice_name d.device_name
  where
    by_names :
        (sub dev : Option Text)
        → elim sub as (λ _. Text) [ none ↦ elim dev [ none ↦ [] | some n ↦ n ] | some n ↦ n ]
          ≡ title sub dev
    by_names none none = refl
    by_names none (some n) = refl
    by_names (some n) none = refl
    by_names (some n) (some m) = refl

-- The families of a code are not UNKNOWN where the table has no UNKNOWN.
values_at-known :
    (chips : Chips) (code : ℕ) → All (λ c. c.1 ≢ 0) chips → All (λ f. f ≢ 0) (values_at chips code)
values_at-known [] code h = tt
values_at-known ((k, f) ∷ rest) code (known, h) = elim (Bool-cases (k == code)) [
  | inl here ↦ rw here (known, values_at-known rest code h)
  | inr elsewhere ↦ rw elsewhere (values_at-known rest code h)
]

kept_device-described :
    (d : PciDevice) (vendor : Text) (fs : List ℕ) (paths : List Text)
    → All (λ f. f ≢ 0) fs
    → kept_device d (head_or 0 fs) vendor (head_or [] paths) ≡ described d vendor fs paths
unfolding kept_device busid_of
kept_device-described d vendor [] [] h = refl
kept_device-described d vendor [] ([] ∷ paths) h = refl
kept_device-described d vendor [] ((c ∷ cs) ∷ paths) h = refl
kept_device-described d vendor (f ∷ fs) [] h = refl
kept_device-described d vendor (f ∷ fs) ([] ∷ paths) h = refl
kept_device-described d vendor (f ∷ fs) ((c ∷ cs) ∷ paths) (known, h) =
    let not_unknown : (f == 0) ≡ false = ground arith in rw (not_unknown, name_of-title d) refl

probe-found :
    (chips : Chips) (nodes : List (Slot × Text)) (d : PciDevice) (vendor : Text)
    → All (λ c. c.1 ≢ 0) chips
    → All (λ n. InRange n.0) nodes
    → IsNamed (d, vendor)
    → probe chips (nodes_at nodes) d ≡ some (found_of chips nodes d vendor)
unfolding probe get_ati_chip_family is_ati_gpu
probe-found chips nodes d vendor known h (named, ranges) =
    let families = values_at chips d.device_id in
    let paths = paths_at nodes d in
    elim (Bool-cases (d.vendor_id == 0x1002)) [
      | inl ati ↦
          rw
            (
              ati,
              named,
              find_devpath-nodes_at d nodes ranges h,
              family_of-values_at chips d.device_id,
            )
            (ap some (
                kept_device-described d vendor families paths
                  (values_at-known chips d.device_id known))
              ∙ ap
                  (λ (o : Option Text).
                    some (described (record d { vendor_name = o }) vendor families paths))
                  named)
      | inr other ↦ rw other refl
    ]

-- Where the table of the chips has no UNKNOWN, the nodes are named after slots with numbers in the
-- ranges of their fields, and the library has a name for the vendor of each device, whose numbers
-- are in their ranges, `getAllAtiDevices` comes back without a failed assertion, and with exactly
-- the devices of the vendor 0x1002 whose code is in the table and at whose address on the bus is a
-- node with a path, in the order of the bus: each with the first family of its code, its names,
-- "pci:" and the name of its slot, and the path of the first node at its address.
pub get_all_ati_devices-finds :
    (chips : Chips) (nodes : List (Slot × Text)) (ds : List (PciDevice × Text))
    → All (λ c. c.1 ≢ 0) chips
    → All (λ n. InRange n.0) nodes
    → All IsNamed ds
    → get_all_ati_devices chips (nodes_at nodes) (map (λ d. d.0) ds)
      ≡ some (all_found chips nodes ds)
unfolding get_all_ati_devices
get_all_ati_devices-finds chips nodes [] known h named = refl
get_all_ati_devices-finds chips nodes ((d, vendor) ∷ ds) known h (n, named) =
    rw
      (
        get_all_ati_devices,
        probe-found chips nodes d vendor known h n,
        get_all_ati_devices-finds chips nodes ds known h named,
      )
      refl
