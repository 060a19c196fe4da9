-- ===== src/Master/Tests.antt =====
-- The theorem on the server at the card "pci:0" and the magic number 42.
use radeonsi_compute.Base.{ℕ, ◌+◌, ◌≡◌, refl, ◌==◌, if◌then◌else◌, [], ◌∷◌}
use radeonsi_compute.Master.{Text, Drms, Drm, set_masters}

abbrev card : Text
card = 112 ∷ 99 ∷ 105 ∷ 58 ∷ 48 ∷ []

-- The state is the next descriptor; only the magic number 42 is known.
abbrev small_drm : Drm ℕ
small_drm = record {
  open_node = λ path d. (d, d + 1);
  set_busid = λ fd busid d. d;
  set_master = λ fd d. (0, d);
  auth_magic = λ fd magic d. (if magic == 42 then 0 else 1, d);
}

abbrev table : Drms
table = (card, 7) ∷ []

table-set_masters :
    set_masters small_drm (record { busid = card; devpath = 47 ∷ [] } ∷ []) [] 7 ≡ (table, 8)
unfolding set_masters
table-set_masters = refl
