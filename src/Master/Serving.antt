-- ===== src/Master/Serving.antt =====
-- The server reads the message of `authWithLocalMaster` as it was meant.
use radeonsi_compute.Base.{ℕ, ◌≡◌, false, ◌==◌, ◌∷◌, ◌++◌}
use radeonsi_compute.Master.{Text, auth_message, first_chars, print_long, is_space, c_string}

-- A character that is neither a space nor the end of a string.
abbrev pub IsPlain : ℕ → Type 0
IsPlain c = (is_space c ≡ false) × ((c == 0) ≡ false)

-- The message, cut to neither side, and without a 0.
record Sent (busid : Text) (magic : ℕ) : Type 0 where
  whole : auth_message busid magic ≡ busid ++ (32 ∷ print_long magic)
  received : c_string (first_chars 1023 (auth_message busid magic)) ≡ auth_message busid magic
