-- ===== src/CodeHelper/Program/RoundTrip.antt =====
-- Programs are read back by the processor as they were written.
use radeonsi_compute.Base.{
  ◌⊎◌, inl, inr, ℕ, ◌+◌, ◌≤◌, ◌<◌, ◌≡◌, refl, sym, ap, ◌∙◌, some, List, [], ◌∷◌, ◌++◌, map, All,
  length,
}
use mathlib.Core.Option
use radeonsi_compute.Base.Stream.{
  Stream, puts, words, puts-append, pos-puts, cell-puts_before, cell-puts_after, words-puts,
}
use radeonsi_compute.CodeHelper.Isa.{fetch, disassemble}
use radeonsi_compute.CodeHelper.Encodes.{fetch-Encodes}
use radeonsi_compute.CodeHelper.Program.{Call, assemble, assemble_all}
use radeonsi_compute.CodeHelper.Program.Lines.{line, InRange}
use radeonsi_compute.CodeHelper.Program.CallWords.{call_words, assemble-puts, Encodes-call}

-- All the words of a program.
pub program_words : List Call → List ℕ
program_words [] = []
program_words (k ∷ ks) = call_words k ++ program_words ks

assemble_all-puts : (ks : List Call) (p : Stream) → assemble_all ks p ≡ puts (program_words ks) p
unfolding assemble_all program_words
assemble_all-puts [] p = refl
assemble_all-puts (k ∷ ks) p =
    assemble_all-puts ks (assemble k p)
    ∙ ap (puts (program_words ks)) (assemble-puts k p)
    ∙ sym (puts-append (call_words k) (program_words ks) p)

-- Assembling a program moves the cursor by the length of its words, writes them there in order,
-- and changes no cell before the old cursor or from the new one on, for any operands.
assemble_all_frame :
    (ks : List Call) (p : Stream) (i : ℕ)
    → (i < p.pos) ⊎ (p.pos + length (program_words ks) ≤ i)
    → ((assemble_all ks p).pos ≡ p.pos + length (program_words ks))
      × (words (assemble_all ks p).cell p.pos (length (program_words ks)) ≡ program_words ks)
      × ((assemble_all ks p).cell i ≡ p.cell i)
assemble_all_frame ks p i outside = rw (assemble_all-puts ks p) (
  pos-puts (program_words ks) p,
  words-puts (program_words ks) [] p,
  elim outside [
    | inl before ↦ cell-puts_before (program_words ks) p i before
    | inr behind ↦ cell-puts_after (program_words ks) p i behind
  ],
)

-- The first call of a program is read back, and the reader goes on at the second.
fetch-assemble :
    (k : Call) (ks : List Call) (p : Stream)
    → InRange k
    → fetch (assemble_all ks (assemble k p)).cell p.pos ≡ some (line k, (assemble k p).pos)
fetch-assemble k ks p h =
    rw (assemble_all-puts ks (assemble k p), assemble-puts k p, pos-puts (call_words k) p)
      (fetch-Encodes _ p.pos (Encodes-call k h) (words-puts (call_words k) (program_words ks) p))

-- A program whose operands fit their fields is read back by the processor, call by call, as the
-- lines that the calls stand for, wherever in memory it is written. In `v_cmp_lt_f32`,
-- `v_cmpx_lt_f32` and `v_cmp_gt_f32`, only 0 counts as a second source that fits.
pub disassemble-assemble_all :
    (ks : List Call) (p : Stream)
    → All InRange ks
    → disassemble (length ks) (assemble_all ks p).cell p.pos ≡ some (map line ks)
unfolding disassemble assemble_all
disassemble-assemble_all [] p h = refl
disassemble-assemble_all (k ∷ ks) p (h, hs) =
    rw (fetch-assemble k ks p h, disassemble)
      (ap (Option.map (◌∷◌ (line k))) (disassemble-assemble_all ks (assemble k p) hs))
