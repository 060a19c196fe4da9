-- ===== src/Kernels/BinaryOperation/Embedding.antt =====
-- divide_precision.cpp: the kernel that `generateTempCode` makes, as the processor reads it.
use radeonsi_compute.Base.{
  ℕ, ◌+◌, ◌<◌, ◌≡◌, ◌≢◌, refl, sym, ap, ap₂, ◌∙◌, ◌==◌, ◌||◌, if◌then◌else◌, some, List, [], ◌∷◌,
  ◌++◌, map, All, All-append, length, length-append, arith, Bool-cases, inl, inr,
}
use mathlib.Core.List.{map-append}
use radeonsi_compute.Base.Stream.{Stream, puts, pos-puts}
use radeonsi_compute.CodeHelper.Isa.{
  Line, plain, with_literal, sopp, vop1, vop2, mubuf, disassemble,
}
use radeonsi_compute.CodeHelper.Program.CallWords.{call_words}
use radeonsi_compute.Kernels.{Item, emit_code, item_line}
use radeonsi_compute.Kernels.Reading.{
  Fits, item_words, code_words, emit_code-puts, emit_code-append, disassemble-emit_code,
  pos-emit_code,
}
use radeonsi_compute.Kernels.BinaryOperation.{
  load_type, store_type, load_operands, store_result, generate_temp_code,
}

-- How many bytes a lane loads with a `MUBUF` instruction of that number, by the manual of the
-- processor: UBYTE, USHORT, DWORD, DWORDX2, DWORDX4. Others are 0 here.
unfoldable pub loaded_bytes : ℕ → ℕ
loaded_bytes op =
    if op == 8
    then 1
    else if op == 10
    then 2
    else if op == 12
    then 4
    else if op == 13
    then 8
    else if op == 14
    then 16
    else 0

-- How many bytes a lane stores: BYTE, SHORT, DWORD, DWORDX2, DWORDX4.
unfoldable pub stored_bytes : ℕ → ℕ
stored_bytes op =
    if op == 24
    then 1
    else if op == 26
    then 2
    else if op == 28
    then 4
    else if op == 29
    then 8
    else if op == 30
    then 16
    else 0

-- An access of the buffer whose resource is the number `resource`, at the index in register 7.
abbrev pub buffer_access : ℕ → ℕ → ℕ → Line
buffer_access op resource register = plain (mubuf op 0 0 1 0 0 0 7 register resource 0 0 128)

abbrev pub nop_lines : List Line
nop_lines =
    plain (sopp 0 0)
    ∷ plain (sopp 0 0)
    ∷ plain (sopp 0 0)
    ∷ plain (sopp 0 0)
    ∷ plain (sopp 0 0)
    ∷ []

-- What is to come in front of the code: register 7 gets the lane plus 256 times the scalar
-- register 8, and the operands come from the buffers 0 and 1 into the registers 2 and 4.
abbrev pub opening_lines : ℕ → List Line
opening_lines load =
    nop_lines
    ++ (plain (vop1 1 6 8)
        ∷ with_literal (vop2 9 6 6 255) 256
        ∷ plain (vop2 37 7 0 (256 + 6))
        ∷ buffer_access load 0 2
        ∷ buffer_access load 1 4
        ∷ plain (sopp 12 0)
        ∷ [])

-- What is to come behind it: register 4 goes to the buffer 1, and the kernel ends.
abbrev pub closing_lines : ℕ → List Line
closing_lines store =
    buffer_access store 1 4 ∷ plain (sopp 12 0) ∷ (nop_lines ++ (plain (sopp 1 0) ∷ []))

-- The size itself where there is an instruction for it.
abbrev pub moved_size : ℕ → ℕ
moved_size type_size =
    if (type_size == 1) || (type_size == 2) || (type_size == 4) || (type_size == 8)
    then type_size
    else 16

abbrev pub whole_kernel : ℕ → List Item → ℕ → List Item
whole_kernel load body store = load_operands load ++ (body ++ store_result store)

-- The instructions that are chosen for a size.
types-of :
    (type_size : ℕ)
    → type_size ≢ 0
    → (load : ℕ) × (store : ℕ) × (load_type type_size ≡ some load)
      × (store_type type_size ≡ some store)
      × (loaded_bytes load ≡ moved_size type_size)
      × (stored_bytes store ≡ moved_size type_size)
      × (load < 128)
      × (store < 128)
unfolding load_type store_type loaded_bytes stored_bytes
types-of n h = elim (Bool-cases (n == 1)) [
  | inl e ↦
      (8, 24, ground arith, ground arith, ground arith, ground arith, omega arith, omega arith)
  | inr e1 ↦ elim (Bool-cases (n == 2)) [
    | inl e ↦
        (10, 26, ground arith, ground arith, ground arith, ground arith, omega arith, omega arith)
    | inr e2 ↦ elim (Bool-cases (n == 4)) [
      | inl e ↦
          (12, 28, ground arith, ground arith, ground arith, ground arith, omega arith, omega arith)
      | inr e4 ↦ elim (Bool-cases (n == 8)) [
        | inl e ↦ (
          13,
          29,
          ground arith,
          ground arith,
          ground arith,
          ground arith,
          omega arith,
          omega arith,
        )
        | inr e8 ↦ (
          14,
          30,
          ground arith,
          ground arith,
          ground arith,
          ground arith,
          omega arith,
          omega arith,
        )
      ]
    ]
  ]
]

whole_kernel-Fits :
    (load store : ℕ) (body : List Item)
    → load < 128
    → store < 128
    → All Fits body
    → All Fits (whole_kernel load body store)
unfolding load_operands store_result
whole_kernel-Fits load store body h0 h1 h =
    All-append Fits (load_operands load) (body ++ store_result store) (omega arith)
      (All-append Fits body (store_result store) h (omega arith))

whole_kernel-emit_code :
    (load store : ℕ) (body : List Item) (p : Stream)
    → emit_code (store_result store) (puts (code_words body) (emit_code (load_operands load) p))
      ≡ emit_code (whole_kernel load body store) p
whole_kernel-emit_code load store body p =
    ap (emit_code (store_result store))
      (sym (emit_code-puts body (emit_code (load_operands load) p)))
    ∙ sym (emit_code-append body (store_result store) (emit_code (load_operands load) p))
    ∙ sym (emit_code-append (load_operands load) (body ++ store_result store) p)

-- The words that come around the code that is embedded.
around-words :
    (load store : ℕ)
    → (length (code_words (load_operands load)) ≡ 14)
      × (length (code_words (store_result store)) ≡ 9)
unfolding code_words item_words call_words load_operands store_result
around-words load store = (refl, refl)

whole_kernel-pos :
    (load store : ℕ) (body : List Item) (p : Stream)
    → (emit_code (whole_kernel load body store) p).pos ≡ p.pos + length (code_words body) + 23
whole_kernel-pos load store body p = rw (sym (whole_kernel-emit_code load store body p)) (
    omega (
      arith,
      pos-emit_code (store_result store)
          (puts (code_words body) (emit_code (load_operands load) p)),
      pos-puts (code_words body) (emit_code (load_operands load) p),
      pos-emit_code (load_operands load) p,
      (around-words load store).0,
      (around-words load store).1,
    ))

opening_lines-is : (load : ℕ) → map item_line (load_operands load) ≡ opening_lines load
unfolding load_operands item_line
opening_lines-is load = refl

closing_lines-is : (store : ℕ) → map item_line (store_result store) ≡ closing_lines store
unfolding store_result item_line
closing_lines-is store = refl

whole_kernel-lines :
    (load store : ℕ) (body : List Item)
    → map item_line (whole_kernel load body store)
      ≡ opening_lines load ++ (map item_line body ++ closing_lines store)
whole_kernel-lines load store body =
    map-append item_line (load_operands load) (body ++ store_result store)
    ∙ ap₂ (λ (xs ys : List Line). xs ++ ys) (opening_lines-is load)
        (map-append item_line body (store_result store)
          ∙ ap (λ (ys : List Line). map item_line body ++ ys) (closing_lines-is store))

length-whole_kernel :
    (load store : ℕ) (body : List Item) → length (whole_kernel load body store) ≡ length body + 19
unfolding load_operands store_result
length-whole_kernel load store body = omega (
  arith,
  length-append (load_operands load) (body ++ store_result store),
  length-append body (store_result store),
)

-- For code that is given as words, and whose operands fit their fields, and a size that is not 0,
-- `generateTempCode` writes a kernel of 23 words more, which the processor reads as 11 lines that
-- load the operands from the buffers 0 and 1 into the registers 2 and 4 at the index of the lane,
-- then the code itself, line by line, then 8 lines that store register 4 to the buffer 1 and end
-- the kernel. The loads are instructions that load, and the store is one that stores, as many bytes
-- as the size says, or 16 where the size is none of 1, 2, 4, 8.
pub generate_temp_code-embeds :
    (body : List Item) (type_size : ℕ) (code : Stream)
    → type_size ≢ 0
    → All Fits body
    → (load : ℕ) × (store : ℕ) × (q : Stream) × (generate_temp_code (code_words body) type_size code
        ≡ some q)
      × (disassemble (length body + 19) q.cell code.pos
          ≡ some (opening_lines load ++ (map item_line body ++ closing_lines store)))
      × (q.pos ≡ code.pos + length (code_words body) + 23)
      × (loaded_bytes load ≡ moved_size type_size)
      × (stored_bytes store ≡ moved_size type_size)
unfolding generate_temp_code
generate_temp_code-embeds body type_size code h fits =
    let (load, store, load_is, store_is, load_moves, store_moves, l, s) = types-of type_size h in
    let q = emit_code (whole_kernel load body store) code in
    (
      load,
      store,
      q,
      rw (load_is, store_is) (ap some (whole_kernel-emit_code load store body code)),
      ap (λ n. disassemble n q.cell code.pos) (sym (length-whole_kernel load store body))
          ∙ disassemble-emit_code (whole_kernel load body store) code
              (whole_kernel-Fits load store body l s fits)
          ∙ ap some (whole_kernel-lines load store body),
      whole_kernel-pos load store body code,
      load_moves,
      store_moves,
    )
