-- ===== src/Chip/Tests.antt =====
-- Tests of the names of slots, and the search for devices on a bus with three of them.
use radeonsi_compute.Base.{ℕ, ◌<◌, map, ◌≡◌, refl, none, some, List, [], ◌∷◌, arith}
use radeonsi_compute.Master.{Text}
use radeonsi_compute.Chip.{PciDevice, Chips, Slot, slot_name, scan_slot, get_all_ati_devices}
use radeonsi_compute.Chip.Detecting.{IsNamed, nodes_at, all_found, get_all_ati_devices-finds}

-- "0000:0a:00.1", "1:12:0", which has no function behind a dot and is read again in decimal, and
-- "0x1:2", which has two numbers.
whole_name :
    scan_slot (48 ∷ 48 ∷ 48 ∷ 48 ∷ 58 ∷ 48 ∷ 97 ∷ 58 ∷ 48 ∷ 48 ∷ 46 ∷ 49 ∷ [])
    ≡ some (record { domain = 0; bus = 10; dev = 0; func = 1 })
unfolding scan_slot
whole_name = refl

short_name :
    scan_slot (49 ∷ 58 ∷ 49 ∷ 50 ∷ 58 ∷ 48 ∷ [])
    ≡ some (record { domain = 0; bus = 1; dev = 12; func = 0 })
unfolding scan_slot
short_name = refl

two_numbers : scan_slot (48 ∷ 120 ∷ 49 ∷ 58 ∷ 50 ∷ []) ≡ none
unfolding scan_slot
two_numbers = refl

printed_slot : slot_name 0 10 31 7 ≡ 48 ∷ 48 ∷ 48 ∷ 48 ∷ 58 ∷ 48 ∷ 97 ∷ 58 ∷ 49 ∷ 102 ∷ 46 ∷ 55 ∷ []
unfolding slot_name
printed_slot = refl

-- A device of a vendor in a slot of the bus 1.
abbrev device_of : ℕ → ℕ → ℕ → PciDevice
device_of vendor code dev = record {
  vendor_id = vendor;
  device_id = code;
  domain = 0;
  bus = 1;
  dev = dev;
  func = 0;
  vendor_name = some (65 ∷ []);
  subdevice_name = none;
  device_name = some (66 ∷ []);
}

-- OLAND is 0x6600, CEDAR 0x68E0.
abbrev chips : Chips
chips = (0x6600, 17) ∷ (0x68e0, 6) ∷ []

abbrev slot_at : ℕ → Slot
slot_at dev = record { domain = 0; bus = 1; dev = dev; func = 0 }

abbrev card_nodes : List (Slot × Text)
card_nodes = (slot_at 0, 47 ∷ 48 ∷ []) ∷ (slot_at 2, 47 ∷ 49 ∷ []) ∷ []

abbrev on_the_bus : List (PciDevice × Text)
on_the_bus =
    (device_of 0x8086 1 0, 65 ∷ [])
    ∷ (device_of 0x1002 0x6600 2, 65 ∷ [])
    ∷ (device_of 0x1002 0x68e0 3, 65 ∷ [])
    ∷ []

-- One device is found: that of 0x1002 whose slot has a node.
one_found :
    get_all_ati_devices chips (nodes_at card_nodes) (map (λ d. d.0) on_the_bus)
    ≡ some (
        record {
          family = 17;
          vendor_name = 65 ∷ [];
          device_name = 66 ∷ [];
          busid =
              112 ∷ 99 ∷ 105 ∷ 58 ∷ 48 ∷ 48 ∷ 48 ∷ 48 ∷ 58 ∷ 48 ∷ 49 ∷ 58 ∷ 48 ∷ 50 ∷ 46 ∷ 48 ∷ [];
          devpath = 47 ∷ 49 ∷ [];
        }
        ∷ [])
unfolding get_all_ati_devices slot_name
one_found = refl

get_all_ati_devices-finds_example :
    get_all_ati_devices chips (nodes_at card_nodes) (map (λ d. d.0) on_the_bus)
    ≡ some (all_found chips card_nodes on_the_bus)
get_all_ati_devices-finds_example =
    get_all_ati_devices-finds chips card_nodes on_the_bus (omega arith)
      (
        (omega arith, omega arith, omega arith, omega arith),
        ((omega arith, omega arith, omega arith, omega arith), tt),
      )
      (
        named 0x8086 1 0 (omega arith),
        (named 0x1002 0x6600 2 (omega arith), (named 0x1002 0x68e0 3 (omega arith), tt)),
      )
  where
    named : (vendor code dev : ℕ) → dev < 256 → IsNamed (device_of vendor code dev, 65 ∷ [])
    named vendor code dev h = (refl, (omega arith, omega arith, h, omega arith))
