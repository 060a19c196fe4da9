-- ===== src/CodeHelper/Resource/Layout.antt =====
-- The words of a `buffer_resource`, as the processor reads them.
use radeonsi_compute.Base.{
  ℕ, zero, suc, ◌+◌, ◌*◌, ◌/◌, ◌%◌, ◌^◌, ◌≡◌, refl, sym, ap, ◌∙◌, List, [], ◌∷◌, ◌++◌, arith,
}
use native.Mathlib.Nat.{
  add-mul-div_left, div-div-eq-div-mul, add-mul-mod_self_left, mul-add-div, mul-add-mod_self_left,
  div-eq_of_lt, mod-lt, mod-add-div, mod-mod, add_comm, mul_assoc,
}
use radeonsi_compute.Base.Bits.{field, two_pow_pos}
use radeonsi_compute.Base.Fields.{pow-add}
use radeonsi_compute.CodeHelper.Resource.{
  BufferResource, BitField, packed, bit_fields, resource_word,
}

-- What is cut off above a field does not matter to it.
cut : (x lo k m : ℕ) → x % 2 ^ (lo + (k + m)) / 2 ^ lo % 2 ^ k ≡ x / 2 ^ lo % 2 ^ k
cut x lo k m = sym (
    ap (λ t. t / a % 2 ^ k) (sym (mod-add-div x (2 ^ (lo + (k + m)))))
    ∙ ap (λ t. t / a % 2 ^ k) regroup
    ∙ ap (λ t. t % 2 ^ k) (mul-add-div (two_pow_pos lo) (2 ^ k * (2 ^ m * q)) r)
    ∙ mul-add-mod_self_left (2 ^ k) (2 ^ m * q) (r / a))
  where
    a : ℕ
    a = 2 ^ lo

    r : ℕ
    r = x % 2 ^ (lo + (k + m))

    q : ℕ
    q = x / 2 ^ (lo + (k + m))

    regroup : r + 2 ^ (lo + (k + m)) * q ≡ a * (2 ^ k * (2 ^ m * q)) + r
    regroup =
        ap (λ t. r + t * q) (pow-add lo (k + m) ∙ ap (λ t. a * t) (pow-add k m))
        ∙ add_comm r (a * (2 ^ k * 2 ^ m) * q)
        ∙ ap (λ t. t + r)
            (mul_assoc a (2 ^ k * 2 ^ m) q ∙ ap (λ t. a * t) (mul_assoc (2 ^ k) (2 ^ m) q))

-- How many bits the fields take.
abbrev widths : List BitField → ℕ
widths [] = 0
widths ((bits, v) ∷ rest) = bits + widths rest

packed-at :
    (before : List BitField) (k v : ℕ) (after : List BitField)
    → packed (before ++ ((k, v) ∷ after)) / 2 ^ widths before % 2 ^ k ≡ v % 2 ^ k
unfolding packed
packed-at [] k v after =
    ap (λ t. t % 2 ^ k) (omega arith)
    ∙ add-mul-mod_self_left (v % 2 ^ k) (2 ^ k) (packed after)
    ∙ mod-mod v (2 ^ k)
packed-at ((b, u) ∷ before) k v after =
    ap (λ t. all / t % 2 ^ k) (pow-add b (widths before))
    ∙ ap (λ t. t % 2 ^ k) (sym (div-div-eq-div-mul all (2 ^ b) (2 ^ widths before)))
    ∙ ap (λ t. t / 2 ^ widths before % 2 ^ k) behind
    ∙ packed-at before k v after
  where
    rest : ℕ
    rest = packed (before ++ ((k, v) ∷ after))

    all : ℕ
    all = u % 2 ^ b + 2 ^ b * rest

    behind : all / 2 ^ b ≡ rest
    behind =
        add-mul-div_left (u % 2 ^ b) rest (two_pow_pos b)
        ∙ ap (λ t. t + rest) (div-eq_of_lt (mod-lt u (two_pow_pos b)))
        ∙ omega arith

-- A field that lies within word `i`: the `k` bits that begin `lo` bits above its start.
in_word :
    (r : BufferResource) (i lo k m : ℕ) (before : List BitField) (v : ℕ) (after : List BitField)
    → bit_fields r ≡ before ++ ((k, v) ∷ after)
    → 32 * i + lo ≡ widths before
    → lo + (k + m) ≡ 32
    → field lo k (resource_word r i) ≡ v % 2 ^ k
unfolding resource_word field
in_word r i lo k m before v after e start room =
    ap (λ n. packed (bit_fields r) / 2 ^ (32 * i) % 2 ^ n / 2 ^ lo % 2 ^ k) (sym room)
    ∙ cut (packed (bit_fields r) / 2 ^ (32 * i)) lo k m
    ∙ ap (λ t. t % 2 ^ k)
        (div-div-eq-div-mul (packed (bit_fields r)) (2 ^ (32 * i)) (2 ^ lo)
          ∙ ap (λ t. packed (bit_fields r) / t) (sym (pow-add (32 * i) lo) ∙ ap (λ n. 2 ^ n) start))
    ∙ ap (λ fs. packed fs / 2 ^ widths before % 2 ^ k) e
    ∙ packed-at before k v after

-- The first `j` fields, and those from field `j` on.
abbrev firsts : ℕ → List BitField → List BitField
firsts zero fs = []
firsts (suc j) [] = []
firsts (suc j) (f ∷ fs) = f ∷ firsts j fs

abbrev lasts : ℕ → List BitField → List BitField
lasts zero fs = fs
lasts (suc j) [] = []
lasts (suc j) (f ∷ fs) = lasts j fs

-- The base address is in the first word and the low half of the second.
two_words :
    (base rest n : ℕ)
    → n ≡ base % 2 ^ 48 + 2 ^ 48 * rest
    → n / 2 ^ 0 % 2 ^ 32 / 2 ^ 0 % 2 ^ 32 + n / 2 ^ 32 % 2 ^ 32 / 2 ^ 0 % 2 ^ 16 * 2 ^ 32
      ≡ base % 2 ^ 48
two_words base rest n h = omega (arith, h)

base_addr :
    (r : BufferResource)
    → field 0 32 (resource_word r 0) + field 0 16 (resource_word r 1) * 2 ^ 32
      ≡ r.base_addr % 2 ^ 48
unfolding resource_word field packed
base_addr r = two_words r.base_addr (packed (lasts 1 (bit_fields r))) (packed (bit_fields r)) refl

module _ (r : BufferResource) where
  -- Each field is read back from its bits of the four words, cut to its width: the base address
  -- from the first word and the low half of the second, which has the stride above it, the number
  -- of records from the third, and the selections, formats and flags from the fourth.
  pub resource_word-fields :
      (field 0 32 (resource_word r 0) + field 0 16 (resource_word r 1) * 2 ^ 32
        ≡ r.base_addr % 2 ^ 48)
      × (field 16 14 (resource_word r 1) ≡ r.stride % 2 ^ 14)
      × (field 30 1 (resource_word r 1) ≡ r.c_swizzle % 2 ^ 1)
      × (field 31 1 (resource_word r 1) ≡ r.swizzle_en % 2 ^ 1)
      × (field 0 32 (resource_word r 2) ≡ r.num_records % 2 ^ 32)
      × (field 0 3 (resource_word r 3) ≡ r.dst_sel_x % 2 ^ 3)
      × (field 3 3 (resource_word r 3) ≡ r.dst_sel_y % 2 ^ 3)
      × (field 6 3 (resource_word r 3) ≡ r.dst_sel_z % 2 ^ 3)
      × (field 9 3 (resource_word r 3) ≡ r.dst_sel_w % 2 ^ 3)
      × (field 12 3 (resource_word r 3) ≡ r.num_format % 2 ^ 3)
      × (field 15 4 (resource_word r 3) ≡ r.data_format % 2 ^ 4)
      × (field 19 2 (resource_word r 3) ≡ r.element_size % 2 ^ 2)
      × (field 21 2 (resource_word r 3) ≡ r.idx_stride % 2 ^ 2)
      × (field 23 1 (resource_word r 3) ≡ r.add_tid_en % 2 ^ 1)
      × (field 24 1 (resource_word r 3) ≡ r.reserved % 2 ^ 1)
      × (field 25 1 (resource_word r 3) ≡ r.hash_en % 2 ^ 1)
      × (field 26 1 (resource_word r 3) ≡ r.heap % 2 ^ 1)
      × (field 27 3 (resource_word r 3) ≡ r.unused % 2 ^ 3)
      × (field 30 2 (resource_word r 3) ≡ r.zero % 2 ^ 2)
  resource_word-fields = (
    base_addr r,
    at 1 1 16 14 2 r.stride refl refl refl,
    at 2 1 30 1 1 r.c_swizzle refl refl refl,
    at 3 1 31 1 0 r.swizzle_en refl refl refl,
    at 4 2 0 32 0 r.num_records refl refl refl,
    at 5 3 0 3 29 r.dst_sel_x refl refl refl,
    at 6 3 3 3 26 r.dst_sel_y refl refl refl,
    at 7 3 6 3 23 r.dst_sel_z refl refl refl,
    at 8 3 9 3 20 r.dst_sel_w refl refl refl,
    at 9 3 12 3 17 r.num_format refl refl refl,
    at 10 3 15 4 13 r.data_format refl refl refl,
    at 11 3 19 2 11 r.element_size refl refl refl,
    at 12 3 21 2 9 r.idx_stride refl refl refl,
    at 13 3 23 1 8 r.add_tid_en refl refl refl,
    at 14 3 24 1 7 r.reserved refl refl refl,
    at 15 3 25 1 6 r.hash_en refl refl refl,
    at 16 3 26 1 5 r.heap refl refl refl,
    at 17 3 27 3 2 r.unused refl refl refl,
    at 18 3 30 2 0 r.zero refl refl refl,
  )
    where
      at :
          (j i lo k m v : ℕ)
          → bit_fields r ≡ firsts j (bit_fields r) ++ ((k, v) ∷ lasts (suc j) (bit_fields r))
          → 32 * i + lo ≡ widths (firsts j (bit_fields r))
          → lo + (k + m) ≡ 32
          → field lo k (resource_word r i) ≡ v % 2 ^ k
      at j i lo k m v e start room =
          in_word r i lo k m (firsts j (bit_fields r)) v (lasts (suc j) (bit_fields r)) e start room
