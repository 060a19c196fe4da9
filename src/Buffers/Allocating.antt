-- ===== src/Buffers/Allocating.antt =====
-- `compute_alloc_gpu_buffer` from the fragments to the mapping, and back where the mapping fails.
use radeonsi_compute.Base.{
  ℕ, zero, suc, ◌+◌, ◌-◌, ◌*◌, ◌/◌, ◌^◌, ◌≤◌, ◌<◌, ◌≡◌, ◌≢◌, refl, sym, ap, ◌∙◌, true, false, ◌==◌,
  none, some, [], ◌∷◌, All, length, arith,
}
use mathlib.Core.Path.{subst}
use radeonsi_compute.Device.{GpuBuffer, Kernel}
use radeonsi_compute.Pool.{Pool}
use radeonsi_compute.Pool.Order.{pool_end, span, addressed}
use radeonsi_compute.Pool.Alloc.{Placed, compute_pool_alloc-Placed}
use radeonsi_compute.Submit.{Block}
use radeonsi_compute.Submit.Relocs.{IsWhole}
use radeonsi_compute.Buffers.{
  World, set_block, radeon_vm_page_snooped, compute_alloc_fragmented_buffer, compute_vm_map,
  after_map, after_pool, after_fragments, compute_alloc_gpu_buffer,
}
use radeonsi_compute.Buffers.Fragments.{
  total_size, IsPaged, Grants, compute_alloc_fragmented_buffer-IsWhole,
}
use radeonsi_compute.Buffers.Undoing.{addressed-cons, undo_alloc-undoes}
use radeonsi_compute.Buffers.State.{IsWorld, IsRooted}
use radeonsi_compute.Buffers.Placing.{addressed-IsWhole, IsWorld-Without}

-- There is room behind the pool for the pages of a buffer of that size.
abbrev pub HasRoom : Pool → ℕ → Type 0
HasRoom pool size = pool_end 0 pool + size + 4096 * ((size + 2 ^ 26 - 1) / 2 ^ 26) < 2 ^ 64

span-le-total :
    (bs : Block) → All IsPaged bs → span (length bs) bs ≤ total_size bs + 4096 * length bs
span-le-total [] h = omega arith
span-le-total (b ∷ bs) (h, hs) = omega (arith, span-le-total bs hs, h)

pub total_size-addressed : (a k : ℕ) (bs : Block) → total_size (addressed a k bs) ≡ total_size bs
total_size-addressed a zero bs = refl
total_size-addressed a (suc k) [] = refl
total_size-addressed a (suc k) (b ∷ bs) =
    ap (λ t. b.size + t) (total_size-addressed (a + b.va_size) k bs)

module _ {D : Type 0} (kernel : Kernel D) where
  -- The call up to the mapping: the block, its place in the pool, and what the mapping answers.
  pub record Reached (w : World D) (base size domain alignment : ℕ) : Type 0 where
    pub bo : GpuBuffer
    pub bs : Block
    pub pool' : Pool
    pub block : Block
    pub between : D
    pub whole : IsWhole (bo ∷ bs)
    pub placed : Placed 0 w.pool base bo bs pool' block
    pub total : total_size (bo ∷ bs) ≡ size
    pub goes_on :
        (r : ℕ × D)
        → compute_vm_map kernel block 0 radeon_vm_page_snooped between ≡ some r
        → compute_alloc_gpu_buffer kernel base size domain alignment w
          ≡ after_map kernel base w pool' block r

  pub alloc-Reached :
      (w : World D) (base size domain alignment : ℕ)
      → IsWorld w
      → Grants kernel size domain alignment
      → 0 < size
      → size < 2 ^ 57
      → HasRoom w.pool size
      → Reached w base size domain alignment
  unfolding compute_alloc_gpu_buffer after_fragments after_pool
  alloc-Reached w base size domain alignment h grants pos wide room =
      let (made, d1, e1, total, count, paged, whole) =
        compute_alloc_fragmented_buffer-IsWhole kernel size domain alignment w.device grants pos
          wide in
      of_block made d1 e1 total count paged whole
    where
      some_pool : (pool : Pool) → IsRooted w.blocks pool → pool ≢ []
      some_pool [] r e = r
      some_pool (n ∷ ns) r e = cc

      of_block :
          (made : Block) (d1 : D)
          → compute_alloc_fragmented_buffer kernel size domain alignment w.device
            ≡ some (some made, d1)
          → total_size made ≡ size
          → length made ≡ (size + 2 ^ 26 - 1) / 2 ^ 26
          → All IsPaged made
          → IsWhole made
          → Reached w base size domain alignment
      of_block [] d1 e1 total count paged whole = absurd (omega (arith, total, pos))
      of_block (bo ∷ bs) d1 e1 total count paged whole =
          let k : bo.fragment_number ≡ length (bo ∷ bs) = whole.0 in
          let span_room : pool_end 0 w.pool + span bo.fragment_number (bo ∷ bs) < 2 ^ 64 =
            subst (λ n. pool_end 0 w.pool + span n (bo ∷ bs) < 2 ^ 64) (sym k)
              (omega (arith, span-le-total (bo ∷ bs) paged, total, count, room)) in
          let (pool', block, e2, p) =
            compute_pool_alloc-Placed w.pool base bo bs (some_pool w.pool h.rooted) h.ordered
              paged.0.2 (omega (arith, k)) (omega (arith, k)) span_room in
          record {
            bo = bo;
            bs = bs;
            pool' = pool';
            block = block;
            between = d1;
            whole = whole;
            placed = p;
            total = total;
            goes_on = λ r e3.
                ap (λ o. elim o [ none ↦ none | some q ↦ after_fragments kernel base w q ]) e1
                ∙ ap (λ o. elim o [ none ↦ none | some q ↦ after_pool kernel base w d1 q ]) e2
                ∙ ap (λ o. elim o [ none ↦ none | some q ↦ after_map kernel base w pool' block q ])
                    e3;
          }

  pub mapped_block :
      (w : World D) (base size domain alignment : ℕ) (r : Reached w base size domain alignment)
      → (c : GpuBuffer) × (cs : Block) × (r.block ≡ c ∷ cs) × IsWhole (c ∷ cs)
  mapped_block w base size domain alignment r =
      let (c, cs, e) = addressed-cons r.placed.start r.bo.fragment_number r.bo r.bs in
      (
        c,
        cs,
        r.placed.given ∙ e,
        subst IsWhole e
            (addressed-IsWhole r.placed.start r.bo.fragment_number (r.bo ∷ r.bs) r.whole),
      )

  pub after_map-mapped :
      (w : World D) (base : ℕ) (pool' : Pool) (block : Block) (r : ℕ × D)
      → (r.0 == 0) ≡ true
      → after_map kernel base w pool' block r
        ≡ some (
          some base,
          record { pool = pool'; blocks = set_block base block w.blocks; device = r.1 },
        )
  unfolding after_map
  after_map-mapped w base pool' block r good = rw good

  pub after_map-undoes :
      (w : World D) (base size domain alignment : ℕ) (r : Reached w base size domain alignment)
      (m : ℕ × D)
      → IsWorld w
      → w.blocks base ≡ []
      → (m.0 == 0) ≡ false
      → (d' : D) × (after_map kernel base w r.pool' r.block m
          ≡ some (none, record w { device = d' }))
  unfolding after_map
  after_map-undoes w base size domain alignment r m h free bad =
      let u =
        undo_alloc-undoes kernel w m.1 r.pool' r.block base r.bo r.bs r.placed
          (IsWorld-Without w base h free) (omega (arith, r.whole.0)) free in
      (u.0, rw bad u.1)
