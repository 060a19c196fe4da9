-- ===== src/Context/Creating.antt =====
-- What `compute_create_context` holds when it returns.
use radeonsi_compute.Base.{
  ℕ, ◌^◌, ◌≡◌, ◌⊎◌, inl, inr, refl, Bool, true, false, ◌||◌, leb, ◌==◌, none, some, [], ◌∷◌, arith,
  Bool-cases, ==→eq, ap,
}
use radeonsi_compute.Context.{
  descriptor, refused, Held, nothing_held, Answers, reserved_node, give_back, Outcome, query_memory,
  query_ring, authenticate, compute_create_context,
}

-- A context holds its memory, its descriptor and its display, and its pool is the reserved range.
-- Without a context nothing is held, or the ring does not work and memory and descriptor are, or
-- the descriptor is 0 and alone is held.
abbrev pub IsSettled : Answers → Outcome → Type 0
IsSettled a (some c, h) =
    (h ≡ record { memory = true; fd = true; display = c.has_display })
    × (c.vm_pool ≡ reserved_node a.reserved_mem ∷ [])
    × (c.gart_size ≡ a.gart_size)
    × (c.vram_size ≡ a.vram_size)
    × (c.vram_visible ≡ a.vram_visible)
IsSettled a (none, h) =
    (h ≡ nothing_held)
    ⊎ ((a.ring_working ≡ 0) × (a.third_info ≡ 0) × (h.memory ≡ true) × (h.fd ≡ true))
    ⊎ ((descriptor a ≡ 0) × (h ≡ record { memory = false; fd = true; display = false }))

abbrev opened : Bool → Held
opened display = record { memory = true; fd = true; display = display }

give_back-nothing : (display : Bool) → give_back (opened display) ≡ nothing_held
unfolding give_back
give_back-nothing true = refl
give_back-nothing false = refl

query_memory-IsSettled :
    (a : Answers) (fd : ℕ) (display : Bool) → IsSettled a (query_memory a fd (opened display))
unfolding query_memory
query_memory-IsSettled a fd display = elim (Bool-cases (a.start_info == 0)) [
  | inr bad ↦ rw bad (inl (give_back-nothing display))
  | inl yes_start ↦ elim (Bool-cases (a.max_info == 0)) [
    | inr bad ↦ rw (yes_start, bad) (inl (give_back-nothing display))
    | inl yes_max ↦ elim (Bool-cases (a.gem_info == 0)) [
      | inr bad ↦ rw (yes_start, yes_max, bad) (inl (give_back-nothing display))
      | inl yes_gem ↦ rw (yes_start, yes_max, yes_gem) (refl, refl, refl, refl, refl)
    ]
  ]
]

query_ring-IsSettled :
    (a : Answers) (fd : ℕ) (display : Bool) → IsSettled a (query_ring a fd (opened display))
unfolding query_ring
query_ring-IsSettled a fd display = elim (Bool-cases (a.third_info == 0)) [
  | inr bad ↦ rw bad (inl (give_back-nothing display))
  | inl works ↦ elim (Bool-cases (a.ring_working == 0)) [
    | inl idle ↦ rw (works, idle) (inr (inl (ground arith, ground arith, refl, refl)))
    | inr runs ↦ rw (works, runs) (query_memory-IsSettled a fd display)
  ]
]

authenticate-IsSettled : (a : Answers) (fd : ℕ) → IsSettled a (authenticate a fd (opened false))
unfolding authenticate
authenticate-IsSettled a fd = elim (Bool-cases (a.first_info == 0)) [
  | inl first ↦ rw first (query_ring-IsSettled a fd false)
  | inr refused ↦ elim (Bool-cases (a.magic == 0)) [
    | inr bad ↦ rw (refused, bad) (inl refl)
    | inl magic ↦ elim (Bool-cases (a.second_info == 0)) [
      | inl second ↦ rw (refused, magic, second) (query_ring-IsSettled a fd false)
      | inr again ↦ elim (Bool-cases a.display_opens) [
        | inl opens ↦ rw (refused, magic, again, opens) (query_ring-IsSettled a fd true)
        | inr shut ↦ rw (refused, magic, again, shut) (query_ring-IsSettled a fd false)
      ]
    ]
  ]
]

refused-IsSettled :
    (a : Answers)
    → ((descriptor a == 0) ≡ true) ⊎ ((descriptor a == 0) ≡ false)
    → IsSettled a (refused (descriptor a))
refused-IsSettled a (inl z) =
    inr (inr (==→eq _ _ z, ap (λ b. record { memory = false; fd = b; display = false }) z))
refused-IsSettled a (inr z) = inl (ap (λ b. record { memory = false; fd = b; display = false }) z)

-- Where the library is there, the call returns, whatever the system answers. A context comes with
-- its memory, its descriptor and its display held, with the sizes that were read, and with the
-- reserved range as its pool. Without a context nothing is held, but for two cases: the ring was
-- queried and does not work, and then memory and descriptor are still held; or the descriptor is
-- 0, and then it is still held.
pub compute_create_context-IsSettled :
    (a : Answers)
    → a.available ≡ true
    → (r : Outcome) × (compute_create_context a ≡ some r) × IsSettled a r
unfolding compute_create_context
compute_create_context-IsSettled a there =
    let fd = descriptor a in
    elim (Bool-cases ((fd == 0) || leb (2 ^ 31) fd)) [
      | inl bad ↦ (refused fd, rw (there, bad), refused-IsSettled a (Bool-cases (fd == 0)))
      | inr good ↦ (authenticate a fd (opened false), rw (there, good), authenticate-IsSettled a fd)
    ]
