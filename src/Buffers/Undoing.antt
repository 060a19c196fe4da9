-- ===== src/Buffers/Undoing.antt =====
-- How `compute_alloc_gpu_buffer` takes its block back where the mapping fails.
use radeonsi_compute.Base.{
  ℕ, zero, suc, ◌+◌, ◌<◌, ◌≡◌, inl, inr, refl, sym, ap, ◌∙◌, true, ◌==◌, Option, none, some, [],
  ◌∷◌, arith, Bool-cases, ==→eq,
}
use mathlib.Core.Path.{fun_ext}
use radeonsi_compute.Device.{GpuBuffer, Kernel}
use radeonsi_compute.Pool.{Pool}
use radeonsi_compute.Pool.Order.{addressed}
use radeonsi_compute.Pool.Alloc.{Placed}
use radeonsi_compute.Pool.Free.{Without, compute_pool_free-Placed}
use radeonsi_compute.Submit.{Block}
use radeonsi_compute.Buffers.{
  World, set_block, clear_va, release_va, free_block, compute_free_gpu_buffer, undo_alloc,
}

pub addressed-cons :
    (a k : ℕ) (b : GpuBuffer) (bs : Block)
    → (c : GpuBuffer) × (cs : Block) × (addressed a k (b ∷ bs) ≡ c ∷ cs)
addressed-cons a zero b bs = (b, bs, refl)
addressed-cons a (suc k) b bs = (record b { va = a }, addressed (a + b.va_size) k bs, refl)

-- The block at `base` as it is after it was put, changed and taken away again.
set_block-undone :
    (blocks : ℕ → Block) (base : ℕ) (new newer : Block)
    → blocks base ≡ []
    → set_block base [] (set_block base newer (set_block base new blocks)) ≡ blocks
set_block-undone blocks base new newer free = fun_ext at
  where
    at : (a : ℕ) → set_block base [] (set_block base newer (set_block base new blocks)) a ≡ blocks a
    at a = elim (Bool-cases (base == a)) [
      | inl same ↦ rw same (sym free ∙ ap blocks (==→eq _ _ same))
      | inr other ↦ rw other
    ]

module _ {D : Type 0} (kernel : Kernel D) where
  free_cleared :
      (w : World D) (base : ℕ) (c : GpuBuffer) (cs : Block)
      → free_block kernel base w (record c { va = 0 } ∷ cs)
        ≡ some (record w {
          blocks = set_block base [] w.blocks;
          device = kernel.gem_close c.handle w.device;
        })
  unfolding free_block release_va
  free_cleared w base c cs = refl

  pub undo_alloc-undoes :
      (w : World D) (d : D) (pool' : Pool) (block : Block) (base : ℕ) (bo : GpuBuffer) (bs : Block)
      → Placed 0 w.pool base bo bs pool' block
      → Without base w.pool
      → 0 < bo.fragment_number
      → w.blocks base ≡ []
      → (d' : D) × (undo_alloc kernel base
            (record { pool = pool'; blocks = set_block base block w.blocks; device = d })
          ≡ some (none, record w { device = d' }))
  unfolding undo_alloc compute_free_gpu_buffer
  undo_alloc-undoes w d pool' block base bo bs p h positive free =
      let (c, cs, e) = addressed-cons p.start bo.fragment_number bo bs in
      (
        kernel.gem_close c.handle d,
        ap undone (compute_pool_free-Placed w.pool pool' block base bo bs p h positive)
            ∙ ap (λ b. answered (free_block kernel base cleared b)) (here c cs (p.given ∙ e))
            ∙ ap answered (free_cleared cleared base c cs)
            ∙ ap
                (λ b. some (
                  none,
                  record { pool = w.pool; blocks = b; device = kernel.gem_close c.handle d },
                ))
                (set_block-undone w.blocks base block (clear_va (held base)) free),
      )
    where
      held : ℕ → Block
      held = set_block base block w.blocks

      cleared : World D
      cleared = record {
        pool = w.pool;
        blocks = set_block base (clear_va (held base)) held;
        device = d;
      }

      answered : Option (World D) → Option (Option ℕ × World D)
      answered o = elim o [ none ↦ none | some w' ↦ some (none, w') ]

      undone : Option Pool → Option (Option ℕ × World D)
      undone o = elim o [
        | none ↦ none
        | some pool ↦ answered (
            compute_free_gpu_buffer kernel base (record {
              pool = pool;
              blocks = set_block base (clear_va (held base)) held;
              device = d;
            }))
      ]

      here :
          (c : GpuBuffer) (cs : Block)
          → block ≡ c ∷ cs
          → set_block base (clear_va (held base)) held base ≡ record c { va = 0 } ∷ cs
      here c cs e = let self : (base == base) ≡ true = ground arith in rw self (ap clear_va e)
