-- ===== src/Chip/Naming.antt =====
-- The name of a slot is read back.
use radeonsi_compute.Base.{
  ℕ, ◌+◌, ◌*◌, ◌/◌, ◌%◌, ◌<◌, ◌≡◌, refl, ap, ◌∙◌, true, false, ◌==◌, none, some, List, [], ◌∷◌,
  arith, Bool-cases, inl, inr,
}
use radeonsi_compute.Master.{Text, is_space, decimal}
use radeonsi_compute.Chip.{
  hex_char, print_hex, slot_name, digit_in, take_digits, some_digits, without_prefix, with_value,
  plus_int, scan_int, scan_fields, slot_from, scan_slot,
}

print_hex-two :
    (n : ℕ) (acc : Text)
    → n < 256
    → print_hex 8 2 n acc ≡ hex_char (n / 16 % 16) ∷ hex_char (n % 16) ∷ acc
unfolding print_hex
print_hex-two n acc h = let small : (n / 16 / 16 == 0) ≡ true = ground arith in rw small refl

print_hex-four :
    (n : ℕ) (acc : Text)
    → n < 65536
    → print_hex 8 4 n acc
      ≡ hex_char (n / 16 / 16 / 16 % 16)
        ∷ hex_char (n / 16 / 16 % 16)
        ∷ hex_char (n / 16 % 16)
        ∷ hex_char (n % 16)
        ∷ acc
unfolding print_hex
print_hex-four n acc h =
    let small : (n / 16 / 16 / 16 / 16 == 0) ≡ true = ground arith in rw small refl

digit_in-hex : (d : ℕ) → d < 16 → digit_in 16 (hex_char d) ≡ some d
digit_in-hex d h = ground arith

take_digits-hex :
    (d : ℕ) (s : Text) (v : ℕ)
    → d < 16
    → take_digits 16 (hex_char d ∷ s) v ≡ take_digits 16 s (v * 16 + d)
unfolding take_digits
take_digits-hex d s v h = rw (take_digits, digit_in-hex d h) refl

no_space : (d : ℕ) → d < 16 → is_space (hex_char d) ≡ false
no_space d h = ground arith

no_sign : (d : ℕ) → d < 16 → ((hex_char d == 45) ≡ false) × ((hex_char d == 43) ≡ false)
no_sign d h = (ground arith, ground arith)

no_prefix :
    (d e : ℕ) (s : Text)
    → e < 16
    → without_prefix 16 (hex_char d ∷ hex_char e ∷ s) ≡ hex_char d ∷ hex_char e ∷ s
unfolding without_prefix
no_prefix d e s h =
    let small : (hex_char e == 120) ≡ false = ground arith in
    let large : (hex_char e == 88) ≡ false = ground arith in
    elim (Bool-cases (hex_char d == 48)) [
      | inl nought ↦ rw (nought, small, large) refl
      | inr other ↦ rw other refl
    ]

take_digits-stop :
    (base m : ℕ) (s : Text) (v : ℕ)
    → digit_in base m ≡ none
    → take_digits base (m ∷ s) v ≡ (v, m ∷ s)
unfolding take_digits
take_digits-stop base m s v h = rw (take_digits, h) refl

some_digits-hex :
    (d : ℕ) (s : Text) → d < 16 → some_digits 16 (hex_char d ∷ s) ≡ some (take_digits 16 s d)
unfolding some_digits
some_digits-hex d s h =
    rw (some_digits, digit_in-hex d h)
      (ap some (take_digits-hex d s 0 h ∙ ap (take_digits 16 s) (omega arith)))

scan_int-hex :
    (d e : ℕ) (s rest : Text) (v : ℕ)
    → d < 16
    → e < 16
    → v < 65536
    → take_digits 16 (hex_char e ∷ s) d ≡ (v, rest)
    → scan_int 16 (hex_char d ∷ hex_char e ∷ s) ≡ some (v, rest)
unfolding scan_int
scan_int-hex d e s rest v hd he hv digits =
    rw (scan_int, no_space d hd, (no_sign d hd).0, (no_sign d hd).1)
      (ap (λ t. with_value (plus_int 16) (some_digits 16 t)) (no_prefix d e s he)
        ∙ ap (with_value (plus_int 16)) (some_digits-hex d (hex_char e ∷ s) hd)
        ∙ ap (λ r. with_value (plus_int 16) (some r)) digits
        ∙ ap (λ k. some (k, rest)) (omega arith))

scan_int-two :
    (n m : ℕ) (s : Text)
    → n < 256
    → digit_in 16 m ≡ none
    → scan_int 16 (print_hex 8 2 n (m ∷ s)) ≡ some (n, m ∷ s)
scan_int-two n m s h stop =
    ap (scan_int 16) (print_hex-two n (m ∷ s) h)
    ∙ scan_int-hex (n / 16 % 16) (n % 16) (m ∷ s) (m ∷ s) n (omega arith) (omega arith)
        (omega arith)
        (take_digits-hex (n % 16) (m ∷ s) _ (omega arith)
          ∙ take_digits-stop 16 m s _ stop
          ∙ ap (λ k. (k, m ∷ s)) (omega arith))

scan_int-four :
    (n m : ℕ) (s : Text)
    → n < 65536
    → digit_in 16 m ≡ none
    → scan_int 16 (print_hex 8 4 n (m ∷ s)) ≡ some (n, m ∷ s)
scan_int-four n m s h stop =
    ap (scan_int 16) (print_hex-four n (m ∷ s) h)
    ∙ scan_int-hex (n / 16 / 16 / 16 % 16) (n / 16 / 16 % 16) _ (m ∷ s) n (omega arith)
        (omega arith) h
        (take_digits-hex (n / 16 / 16 % 16) _ _ (omega arith)
          ∙ take_digits-hex (n / 16 % 16) _ _ (omega arith)
          ∙ take_digits-hex (n % 16) (m ∷ s) _ (omega arith)
          ∙ take_digits-stop 16 m s _ stop
          ∙ ap (λ k. (k, m ∷ s)) (omega arith))

print_func : (n : ℕ) → n < 8 → decimal 10 n [] ≡ (48 + n) ∷ []
unfolding decimal
print_func n h =
    let small : (n / 10 == 0) ≡ true = ground arith in
    rw small (ap (λ k. (48 + k) ∷ []) (omega arith))

scan_func : (n : ℕ) → n < 8 → scan_int 10 (decimal 10 n []) ≡ some (n, [])
unfolding scan_int some_digits take_digits without_prefix
scan_func n h =
    let digit : digit_in 10 (48 + n) ≡ some n = ground arith in
    let space : is_space (48 + n) ≡ false = ground arith in
    let minus : ((48 + n) == 45) ≡ false = ground arith in
    let plus : ((48 + n) == 43) ≡ false = ground arith in
    let read : take_digits 10 ((48 + n) ∷ []) 0 ≡ (0 * 10 + n, []) = rw (take_digits, digit) refl in
    ap (scan_int 10) (print_func n h)
    ∙ rw (scan_int, space, minus, plus, some_digits, digit)
        (ap (λ r. with_value (plus_int 10) (some r)) read ∙ ap (λ k. some (k, [])) (omega arith))

scan_fields-more :
    (base m : ℕ) (fs : List (ℕ × ℕ)) (s rest : Text) (v : ℕ)
    → scan_int base s ≡ some (v, m ∷ rest)
    → scan_fields ((base, m) ∷ fs) s ≡ v ∷ scan_fields fs rest
unfolding scan_fields
scan_fields-more base m fs s rest v h =
    let same : (m == m) ≡ true = ground arith in rw (scan_fields, h, same) refl

scan_fields-last : (n : ℕ) → n < 8 → scan_fields ((10, 0) ∷ []) (decimal 10 n []) ≡ n ∷ []
unfolding scan_fields
scan_fields-last n h = rw (scan_fields, scan_func n h) refl

-- The name that the kernel gives to a PCI slot is read by `sscanf` as that slot.
pub scan_slot-slot_name :
    (domain bus dev func : ℕ)
    → domain < 65536
    → bus < 256
    → dev < 256
    → func < 8
    → scan_slot (slot_name domain bus dev func)
      ≡ some (record { domain = domain; bus = bus; dev = dev; func = func })
unfolding scan_slot slot_name slot_from
scan_slot-slot_name domain bus dev func h_domain h_bus h_dev h_func =
    let at_func = decimal 10 func [] in
    let at_dev = print_hex 8 2 dev (46 ∷ at_func) in
    let at_bus = print_hex 8 2 bus (58 ∷ at_dev) in
    ap (slot_from (slot_name domain bus dev func)) (
      scan_fields-more 16 58 ((16, 58) ∷ (16, 46) ∷ (10, 0) ∷ [])
        (print_hex 8 4 domain (58 ∷ at_bus)) at_bus domain
        (scan_int-four domain 58 at_bus h_domain refl)
      ∙ ap (◌∷◌ domain) (
          scan_fields-more 16 58 ((16, 46) ∷ (10, 0) ∷ []) at_bus at_dev bus
            (scan_int-two bus 58 at_dev h_bus refl))
      ∙ ap (λ r. domain ∷ bus ∷ r)
          (scan_fields-more 16 46 ((10, 0) ∷ []) at_dev at_func dev
            (scan_int-two dev 46 at_func h_dev refl))
      ∙ ap (λ r. domain ∷ bus ∷ dev ∷ r) (scan_fields-last func h_func))
