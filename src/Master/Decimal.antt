-- ===== src/Master/Decimal.antt =====
-- A number that is printed in decimal is read back.
use radeonsi_compute.Base.{
  ℕ, zero, suc, ◌+◌, ◌-◌, ◌/◌, ◌%◌, ◌^◌, ◌<◌, ◌≤◌, ◌≡◌, All, length, refl, sym, ap, ◌∙◌, true,
  false, ◌==◌, if◌then◌else◌, some, [], ◌∷◌, arith, min, none, ltb, Bool-cases, inl, inr, ==→eq,
}
use native.Mathlib.Nat.{pow-suc}
use radeonsi_compute.Master.{Text, decimal, print_long, is_digit, scan_digits, scan_long}

scan_digits-decimal :
    (fuel n : ℕ) (acc : Text)
    → n < 10 ^ fuel
    → scan_digits (decimal fuel n acc) 0 ≡ scan_digits acc n
unfolding decimal
scan_digits-decimal zero n acc h = ap (scan_digits acc) (omega arith)
scan_digits-decimal (suc fuel) n acc h =
    let digit : is_digit (48 + n % 10) ≡ true = ground arith in
    let rest : n / 10 < 10 ^ fuel = omega (arith, pow-suc 10 fuel) in
    elim (Bool-cases (n / 10 == 0)) [
      | inl last ↦ rw (last, digit) (ap (scan_digits acc) (omega (arith, ==→eq _ _ last)))
      | inr more ↦ rw more (
          scan_digits-decimal fuel (n / 10) ((48 + n % 10) ∷ acc) rest
          ∙ rw digit (ap (scan_digits acc) (omega arith)))
    ]

-- The printed number begins with a digit.
decimal-cons :
    (fuel n c : ℕ) (cs : Text)
    → is_digit c ≡ true
    → (e : ℕ) × (es : Text) × (decimal fuel n (c ∷ cs) ≡ e ∷ es) × (is_digit e ≡ true)
unfolding decimal
decimal-cons zero n c cs h = (c, cs, refl, h)
decimal-cons (suc fuel) n c cs h =
    let digit : is_digit (48 + n % 10) ≡ true = ground arith in
    elim (Bool-cases (n / 10 == 0)) [
      | inl last ↦ (48 + n % 10, c ∷ cs, rw last refl, digit)
      | inr more ↦
          let (e, es, eq, d) = decimal-cons fuel (n / 10) (48 + n % 10) (c ∷ cs) digit in
          (e, es, rw more eq, d)
    ]

-- A number that is printed with a digit or more begins with one.
print-cons : (n : ℕ) → (e : ℕ) × (es : Text) × (decimal 19 n [] ≡ e ∷ es) × (is_digit e ≡ true)
unfolding decimal
print-cons n =
    let digit : is_digit (48 + n % 10) ≡ true = ground arith in
    elim (Bool-cases (n / 10 == 0)) [
      | inl last ↦ (48 + n % 10, [], rw last refl, digit)
      | inr more ↦
          let (e, es, eq, d) = decimal-cons 18 (n / 10) (48 + n % 10) [] digit in
          (e, es, rw more eq, d)
    ]

decimal-HasNo :
    (fuel n : ℕ) (acc : Text)
    → All (λ c. (c == 0) ≡ false) acc
    → All (λ c. (c == 0) ≡ false) (decimal fuel n acc)
unfolding decimal
decimal-HasNo zero n acc h = h
decimal-HasNo (suc fuel) n acc h =
    let char : ((48 + n % 10) == 0) ≡ false = ground arith in
    elim (Bool-cases (n / 10 == 0)) [
      | inl last ↦ rw last (char, h)
      | inr more ↦ rw more (decimal-HasNo fuel (n / 10) ((48 + n % 10) ∷ acc) (char, h))
    ]

length-decimal : (fuel n : ℕ) (acc : Text) → length (decimal fuel n acc) ≤ fuel + length acc
unfolding decimal
length-decimal zero n acc = omega arith
length-decimal (suc fuel) n acc = elim (Bool-cases (n / 10 == 0)) [
  | inl last ↦ rw last (omega arith)
  | inr more ↦ rw more (omega (arith, length-decimal fuel (n / 10) ((48 + n % 10) ∷ acc)))
]

-- What a printed `long` that is not negative is: digits that are read back as the number.
pub record Printed (n : ℕ) (s : Text) : Type 0 where
  pub first : ℕ
  pub rest : Text
  pub begins : s ≡ first ∷ rest
  pub digit : is_digit first ≡ true
  pub chars : All (λ c. (c == 0) ≡ false) s
  pub short : length s ≤ 19
  pub read : scan_long s ≡ some n

pub print_long-Printed : (n : ℕ) → n < 2 ^ 63 → Printed n (print_long n)
unfolding print_long
print_long-Printed n h =
    let small : ltb n (2 ^ 63) ≡ true = ground arith in
    let (e, es, eq, d) = print-cons n in
    rw small (record {
      first = e;
      rest = es;
      begins = eq;
      digit = d;
      chars = decimal-HasNo 19 n [] tt;
      short = omega (arith, length-decimal 19 n []);
      read = ap scan_long eq ∙ plain e es d (ap (λ s. scan_digits s 0) (sym eq) ∙ value);
    })
  where
    value : scan_digits (decimal 19 n []) 0 ≡ n
    value = scan_digits-decimal 19 n [] (omega arith)

    plain :
        (e : ℕ) (es : Text)
        → is_digit e ≡ true
        → scan_digits (e ∷ es) 0 ≡ n
        → scan_long (e ∷ es) ≡ some n
    plain e es d v =
        let minus : (e == 45) ≡ false = ground arith in
        let plus : (e == 43) ≡ false = ground arith in
        rw (minus, plus)
          (ap (λ t. if t then some (min (scan_digits (e ∷ es) 0) (2 ^ 63 - 1)) else none) d
            ∙ ap (λ k. some (min k (2 ^ 63 - 1))) v
            ∙ ap some (omega (arith, h)))
