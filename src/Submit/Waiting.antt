-- ===== src/Submit/Waiting.antt =====
-- Waiting for a buffer comes to an end, and a success means that every fragment is idle.
use radeonsi_compute.Base.{
  ℕ, zero, suc, ◌≤◌, ◌<◌, ◌≡◌, ◌≢◌, refl, sym, ap, ◌∙◌, ◌==◌, if◌then◌else◌, none, some, List, [],
  ◌∷◌, All, length, map, arith, Bool-cases, ◌⊎◌, inl, inr, ==→eq,
}
use radeonsi_compute.Device.{GpuBuffer, Kernel}
use radeonsi_compute.Submit.{Block, compute_bo_wait_unfragmented, wait_fragments, compute_bo_wait}
use radeonsi_compute.Submit.Relocs.{IsWhole}

-- What is asked of the kernel: `-EBUSY` is not 0, each such answer uses up patience that no call
-- gives back, the answer 0 says that the buffer is idle, and a wait starts no other buffer.
pub record WaitsFor {D : Type 0} (kernel : Kernel D) (Idle : ℕ → D → Type 0) (patience : D → ℕ)
    : Type 0 where
  pub ebusy-nonzero : kernel.minus_ebusy ≢ 0
  pub busy-patience :
      (h : ℕ) (d : D)
      → (kernel.wait_idle h d).0 ≡ kernel.minus_ebusy
      → patience (kernel.wait_idle h d).1 < patience d
  pub patience-kept : (h : ℕ) (d : D) → patience (kernel.wait_idle h d).1 ≤ patience d
  pub zero-Idle : (h : ℕ) (d : D) → (kernel.wait_idle h d).0 ≡ 0 → Idle h (kernel.wait_idle h d).1
  pub Idle-kept : (h i : ℕ) (d : D) → Idle i d → Idle i (kernel.wait_idle h d).1

module _ {D : Type 0} (kernel : Kernel D) (Idle : ℕ → D → Type 0) (patience : D → ℕ)
    (waits : WaitsFor kernel Idle patience) where
  -- A wait for the buffers `hs` from `d` that ended in `r`.
  pub record Waited (hs : List ℕ) (d : D) (r : ℕ × D) : Type 0 where
    pub answer : r.0 ≢ kernel.minus_ebusy
    pub patient : patience r.1 ≤ patience d
    pub idle : r.0 ≡ 0 → All (λ h. Idle h r.1) hs
    pub kept : (i : ℕ) → Idle i d → Idle i r.1

  unfragmented-Waited :
      (fuel : ℕ) (b : GpuBuffer) (d : D)
      → patience d < fuel
      → (r : ℕ × D) × (compute_bo_wait_unfragmented kernel fuel b d ≡ some r)
        × Waited (b.handle ∷ []) d r
  unfolding compute_bo_wait_unfragmented
  unfragmented-Waited zero b d h = absurd (omega arith)
  unfragmented-Waited (suc fuel) b d h =
      elim (Bool-cases ((kernel.wait_idle b.handle d).0 == kernel.minus_ebusy)) [
        | inl busy ↦
            let again =
              unfragmented-Waited fuel b (kernel.wait_idle b.handle d).1
                (omega (arith, waits.busy-patience b.handle d (==→eq _ _ busy))) in
            (
              again.0,
              rw busy again.1,
              record {
                answer = again.2.answer;
                patient = omega (arith, again.2.patient, waits.patience-kept b.handle d);
                idle = again.2.idle;
                kept = λ i x. again.2.kept i (waits.Idle-kept b.handle i d x);
              },
            )
        | inr done ↦ (
          kernel.wait_idle b.handle d,
          rw done,
          record {
            answer = ground arith;
            patient = waits.patience-kept b.handle d;
            idle = λ z. (waits.zero-Idle b.handle d z, tt);
            kept = λ i x. waits.Idle-kept b.handle i d x;
          },
        )
      ]

  fragments-Waited :
      (fuel : ℕ) (bs : Block) (d : D)
      → patience d < fuel
      → (r : ℕ × D) × (wait_fragments kernel fuel (length bs) bs d ≡ some r)
        × Waited (map (λ b. b.handle) bs) d r
  unfolding wait_fragments
  fragments-Waited fuel [] d h = (
    (0, d),
    refl,
    record {
      answer = λ e. waits.ebusy-nonzero (sym e);
      patient = omega arith;
      idle = λ z. tt;
      kept = λ i x. x;
    },
  )
  fragments-Waited fuel (b ∷ bs) d h =
      let first = unfragmented-Waited fuel b d h in
      let r : ℕ × D = first.0 in
      elim (Bool-cases (r.0 == 0)) [
        | inl good ↦
            let rest = fragments-Waited fuel bs r.1 (omega (arith, first.2.patient)) in
            (
              rest.0,
              step r first.1
                  ∙ ap (λ t. if t then wait_fragments kernel fuel (length bs) bs r.1 else some r)
                      good
                  ∙ rest.1,
              record {
                answer = rest.2.answer;
                patient = omega (arith, first.2.patient, rest.2.patient);
                idle = λ z. (rest.2.kept b.handle (first.2.idle (==→eq _ _ good)).0, rest.2.idle z);
                kept = λ i x. rest.2.kept i (first.2.kept i x);
              },
            )
        | inr bad ↦ (
          r,
          step r first.1
              ∙ ap (λ t. if t then wait_fragments kernel fuel (length bs) bs r.1 else some r) bad,
          record {
            answer = first.2.answer;
            patient = first.2.patient;
            idle = ground arith;
            kept = first.2.kept;
          },
        )
      ]
    where
      step :
          (r : ℕ × D)
          → compute_bo_wait_unfragmented kernel fuel b d ≡ some r
          → wait_fragments kernel fuel (length (b ∷ bs)) (b ∷ bs) d
            ≡ (if r.0 == 0 then wait_fragments kernel fuel (length bs) bs r.1 else some r)
      step r e =
          ap
            (λ o. elim o [
              | none ↦ none
              | some q ↦ if q.0 == 0 then wait_fragments kernel fuel (length bs) bs q.1 else some q
            ])
            e

  pub block-Waited :
      (fuel : ℕ) (bo : GpuBuffer) (bs : Block) (d : D)
      → patience d < fuel
      → IsWhole (bo ∷ bs)
      → (r : ℕ × D) × (compute_bo_wait kernel fuel (bo ∷ bs) d ≡ some r)
        × Waited (map (λ b. b.handle) (bo ∷ bs)) d r
  unfolding compute_bo_wait
  block-Waited fuel bo bs d h (n, _) =
      let all = fragments-Waited fuel (bo ∷ bs) d h in
      (all.0, ap (λ k. wait_fragments kernel fuel k (bo ∷ bs) d) n ∙ all.1, all.2)

  -- With more fuel than the patience of the kernel, the wait for a whole block returns an answer
  -- that is not `-EBUSY`, and if the answer is 0, all fragments of the block are idle at the end.
  pub compute_bo_wait-Waited :
      (fuel : ℕ) (bo : GpuBuffer) (bs : Block) (d : D)
      → patience d < fuel
      → IsWhole (bo ∷ bs)
      → (r : ℕ × D) × (compute_bo_wait kernel fuel (bo ∷ bs) d ≡ some r)
        × (r.0 ≢ kernel.minus_ebusy)
        × ((r.0 ≢ 0) ⊎ All (λ b. Idle b.handle r.1) (bo ∷ bs))
  compute_bo_wait-Waited fuel bo bs d h whole =
      let all = block-Waited fuel bo bs d h whole in
      (
        all.0,
        all.1,
        all.2.answer,
        elim (Bool-cases (all.0.0 == 0)) [
          | inl z ↦ inr (All-map all.0.1 (bo ∷ bs) (all.2.idle (==→eq _ _ z)))
          | inr z ↦ inl (ground arith)
        ],
      )
    where
      All-map :
          (s : D) (bs : Block)
          → All (λ h. Idle h s) (map (λ b. b.handle) bs)
          → All (λ b. Idle b.handle s) bs
      All-map s [] h = tt
      All-map s (b ∷ bs) (h, hs) = (h, All-map s bs hs)
