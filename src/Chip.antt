-- ===== src/Chip.antt =====
-- ati_chip.cpp: the search for the devices, `getAllAtiDevices`, with what it uses. What the PCI bus
-- and udev answer, and the table of `ati_pciids_gen.def`, are arguments. A string is the list of the
-- codes of its characters, an `int` the pattern of 32 bits, and `none` an assertion that fails or a
-- string that is made from NULL.
pub mod Naming
pub mod Slots
pub mod Detecting
pub mod Tests
use radeonsi_compute.Base.{
  ℕ, zero, suc, ◌+◌, ◌-◌, ◌*◌, ◌/◌, ◌%◌, ◌^◌, Bool, true, false, ◌&&◌, ◌||◌, not, ltb, leb, ◌==◌,
  if◌then◌else◌, Option, none, some, List, [], ◌∷◌, ◌++◌, min,
}
use radeonsi_compute.Master.{Text, is_space, skip_space, decimal}

-- The members of `struct pci_device` that are read, and the names that the library has for it.
pub record PciDevice : Type 0 where
  pub vendor_id : ℕ
  pub device_id : ℕ
  pub domain : ℕ
  pub bus : ℕ
  pub dev : ℕ
  pub func : ℕ
  pub vendor_name : Option Text
  pub subdevice_name : Option Text
  pub device_name : Option Text

-- The codes of the chips with their families; a family is its number in `AtiChipFamily`, and 0 is
-- UNKNOWN.
abbrev pub Chips : Type 0
Chips = List (ℕ × ℕ)

pub record AtiDeviceData : Type 0 where
  pub family : ℕ
  pub vendor_name : Text
  pub device_name : Text
  pub busid : Text
  pub devpath : Text

unfoldable pub is_ati_gpu : PciDevice → Bool
is_ati_gpu device = device.vendor_id == 0x1002

abbrev pub family_of : Chips → ℕ → ℕ
family_of [] device_id = 0
family_of ((code, family) ∷ rest) device_id =
    if code == device_id then family else family_of rest device_id

unfoldable pub get_ati_chip_family : Chips → PciDevice → Option ℕ
unfolding is_ati_gpu
get_ati_chip_family chips device =
    if is_ati_gpu device then some (family_of chips device.device_id) else none

abbrev pub hex_char : ℕ → ℕ
hex_char d = if ltb d 10 then 48 + d else 87 + d

-- `%x` with a width, 0 in front; the number has 32 bits.
unfoldable pub print_hex : ℕ → ℕ → ℕ → Text → Text
print_hex zero width n acc = acc
print_hex (suc fuel) width n acc =
    let more = print_hex fuel (width - 1) (n / 16) (hex_char (n % 16) ∷ acc) in
    if leb width 1 && (n / 16 == 0) then hex_char (n % 16) ∷ acc else more

-- "%04x:%02x:%02x.%d"
unfoldable pub slot_name : ℕ → ℕ → ℕ → ℕ → Text
unfolding print_hex decimal
slot_name domain bus dev func =
    print_hex 8 4 domain (58 ∷ print_hex 8 2 bus (58 ∷ print_hex 8 2 dev (46 ∷ decimal 10 func [])))

-- `"pci:"` in front.
unfoldable pub busid_of : PciDevice → Text
unfolding slot_name
busid_of d = 112 ∷ 99 ∷ 105 ∷ 58 ∷ slot_name d.domain d.bus d.dev d.func

abbrev pub digit_value : ℕ → Option ℕ
digit_value c =
    if leb 48 c && leb c 57
    then some (c - 48)
    else if leb 97 c && leb c 102
    then some (c - 87)
    else if leb 65 c && leb c 70
    then some (c - 55)
    else none

abbrev pub digit_in : ℕ → ℕ → Option ℕ
digit_in base c = elim (digit_value c) [
  | none ↦ none
  | some d ↦ if ltb d base then some d else none
]

-- The digits in front: the number behind `v`, and what follows.
unfoldable pub take_digits : ℕ → Text → ℕ → ℕ × Text
take_digits base [] v = (v, [])
take_digits base (c ∷ s) v =
    let more = take_digits base s in
    elim (digit_in base c) [ none ↦ (v, c ∷ s) | some d ↦ more (v * base + d) ]

unfoldable pub some_digits : ℕ → Text → Option (ℕ × Text)
unfolding take_digits
some_digits base [] = none
some_digits base (c ∷ s) = elim (digit_in base c) [
  | none ↦ none
  | some d ↦ some (take_digits base (c ∷ s) 0)
]

-- `%x` takes a "0x" in front.
unfoldable pub without_prefix : ℕ → Text → Text
without_prefix base [] = []
without_prefix base (c ∷ []) = c ∷ []
without_prefix base (c ∷ x ∷ s) =
    if (base == 16) && (c == 48) && ((x == 120) || (x == 88)) then s else c ∷ x ∷ s

-- The `int` of a number without and with a minus in front: that of a `long` for `%d`, and of an
-- `unsigned long` for `%x`, each with its bounds.
abbrev pub plus_int : ℕ → ℕ → ℕ
plus_int base v = min v (if base == 16 then 2 ^ 64 - 1 else 2 ^ 63 - 1) % 2 ^ 32

abbrev pub minus_int : ℕ → ℕ → ℕ
minus_int base v =
    if base == 16
    then (if ltb v (2 ^ 64) then (2 ^ 64 - v) % 2 ^ 32 else 2 ^ 32 - 1)
    else (2 ^ 64 - min v (2 ^ 63)) % 2 ^ 32

abbrev pub with_value : (ℕ → ℕ) → Option (ℕ × Text) → Option (ℕ × Text)
with_value f none = none
with_value f (some (v, rest)) = some (f v, rest)

-- The conversion `%x` or `%d`.
unfoldable pub scan_int : ℕ → Text → Option (ℕ × Text)
unfolding some_digits without_prefix
scan_int base [] = none
scan_int base (c ∷ s) =
    let number : Text → Option (ℕ × Text) = λ t. some_digits base (without_prefix base t) in
    let later = scan_int base s in
    if is_space c
    then later
    else if c == 45
    then with_value (minus_int base) (number s)
    else if c == 43
    then with_value (plus_int base) (number s)
    else with_value (plus_int base) (number (c ∷ s))

-- The values that `sscanf` converts, each with its base and the character that follows in the
-- format, 0 behind the last one.
unfoldable pub scan_fields : List (ℕ × ℕ) → Text → List ℕ
unfolding scan_int
scan_fields [] s = []
scan_fields ((base, mark) ∷ fs) s = elim (scan_int base s) [
  | none ↦ []
  | some (v, []) ↦ v ∷ []
  | some (v, c ∷ rest) ↦ v ∷ (if c == mark then scan_fields fs rest else [])
]

pub record Slot : Type 0 where
  pub domain : ℕ
  pub bus : ℕ
  pub dev : ℕ
  pub func : ℕ

-- "%d:%d:%d", with the assertion.
unfoldable pub decimal_slot : List ℕ → Option Slot
decimal_slot [] = none
decimal_slot (bus ∷ []) = none
decimal_slot (bus ∷ dev ∷ []) = none
decimal_slot (bus ∷ dev ∷ func ∷ more) =
    some (record { domain = 0; bus = bus; dev = dev; func = func })

-- "%x:%x:%x.%d", with the assertion; `s` is scanned again where it has three numbers.
unfoldable pub slot_from : Text → List ℕ → Option Slot
unfolding decimal_slot scan_fields
slot_from s [] = none
slot_from s (a ∷ []) = none
slot_from s (a ∷ b ∷ []) = none
slot_from s (a ∷ b ∷ c ∷ []) = decimal_slot (scan_fields ((10, 58) ∷ (10, 58) ∷ (10, 0) ∷ []) s)
slot_from s (a ∷ b ∷ c ∷ d ∷ more) = some (record { domain = a; bus = b; dev = c; func = d })

unfoldable pub scan_slot : Text → Option Slot
unfolding slot_from
scan_slot s = slot_from s (scan_fields ((16, 58) ∷ (16, 58) ∷ (16, 46) ∷ (10, 0) ∷ []) s)

unfoldable pub is_at : PciDevice → Slot → Bool
is_at d s = (s.domain == d.domain) && (s.bus == d.bus) && (s.dev == d.dev) && (s.func == d.func)

-- The loop over the table of the nodes; the path stays empty where no name fits.
unfoldable pub find_devpath : PciDevice → List (Text × Text) → Option Text
unfolding scan_slot is_at
find_devpath d [] = some []
find_devpath d ((name, path) ∷ rest) =
    let later = find_devpath d rest in
    elim (scan_slot name) [ none ↦ none | some s ↦ if is_at d s then some path else later ]

unfoldable pub name_of : PciDevice → Text
name_of d = elim d.subdevice_name [
  | none ↦ elim d.device_name [ none ↦ [] | some n ↦ n ]
  | some n ↦ n
]

-- The data of an ATI device, kept where its family is known and it has a node.
unfoldable pub kept_device : PciDevice → ℕ → Text → Text → List AtiDeviceData
unfolding busid_of name_of
kept_device d family vendor [] = []
kept_device d family vendor (c ∷ cs) =
    if family == 0
    then []
    else (record {
      family = family;
      vendor_name = vendor;
      device_name = name_of d;
      busid = busid_of d;
      devpath = c ∷ cs;
    })
      ∷ []

-- A round of the loop over the PCI devices: what it puts behind the devices.
unfoldable pub probe : Chips → List (Text × Text) → PciDevice → Option (List AtiDeviceData)
unfolding is_ati_gpu get_ati_chip_family find_devpath kept_device
probe chips nodes d =
    if is_ati_gpu d
    then elim (get_ati_chip_family chips d) [
      | none ↦ none
      | some family ↦ elim d.vendor_name [
        | none ↦ none
        | some vendor ↦ elim (find_devpath d nodes) [
          | none ↦ none
          | some path ↦ some (kept_device d family vendor path)
        ]
      ]
    ]
    else some []

unfoldable pub get_all_ati_devices :
    Chips → List (Text × Text) → List PciDevice → Option (List AtiDeviceData)
unfolding probe
get_all_ati_devices chips nodes [] = some []
get_all_ati_devices chips nodes (d ∷ ds) = elim (probe chips nodes d) [
  | none ↦ none
  | some found ↦ elim (get_all_ati_devices chips nodes ds) [
    | none ↦ none
    | some rest ↦ some (found ++ rest)
  ]
]
