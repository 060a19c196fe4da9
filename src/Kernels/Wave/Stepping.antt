-- ===== src/Kernels/Wave/Stepping.antt =====
-- Steps of a wave one behind the other, and straight code of the vector unit.
use radeonsi_compute.Base.{ℕ, zero, suc, ◌+◌, ◌≡◌, ap, false, arith, Option, none, some}
use radeonsi_compute.Kernels.Wave.{
  VectorUnit, Wave, Next, goes, ended, branch_target, onwards, execute_fetched, step, steps, run,
}
use Prim.Native.Nat.add
use mathlib.Core.Option.{some-injective}
use radeonsi_compute.CodeHelper.Isa.{Inst, plain, fetch}

module _ {V : Type 0} (u : VectorUnit V) (cell : ℕ → ℕ) where
  onwards-some :
      (f g stop : Wave V → Option (Wave V)) (x : Option (Next V)) (w : Wave V) (t : Option (Wave V))
      → ((w' : Wave V) → f w' ≡ some w → g w' ≡ t)
      → onwards u f (λ _. none) x ≡ some w
      → onwards u g stop x ≡ t
  unfolding onwards
  onwards-some f g stop none w t h e = ground arith
  onwards-some f g stop (some (goes w')) w t h e = h w' e
  onwards-some f g stop (some (ended w')) w t h e = ground arith

  -- Steps one behind the other.
  pub steps-add :
      (k m : ℕ) (w w' : Wave V)
      → steps u k cell w ≡ some w'
      → steps u (k + m) cell w ≡ steps u m cell w'
  unfolding steps
  steps-add zero m w w' h = rw add.zero (ap (steps u m cell) (some-injective w w' h))
  steps-add (suc k) m w w' h = rw add.suc (
      onwards-some (steps u k cell) (steps u (k + m) cell) (λ _. none) (step u cell w) w' _
        (λ w'' e. steps-add k m w'' w' e) h)

  pub run-add :
      (k m : ℕ) (w w' : Wave V)
      → steps u k cell w ≡ some w'
      → run u (k + m) cell w ≡ run u m cell w'
  unfolding steps run
  run-add zero m w w' h = rw add.zero (ap (run u m cell) (some-injective w w' h))
  run-add (suc k) m w w' h = rw add.suc (
      onwards-some (steps u k cell) (run u (k + m) cell) some (step u cell w) w' _
        (λ w'' e. run-add k m w'' w' e) h)

  -- A branch on SCC that is taken.
  pub step-branch :
      (d next : ℕ) (w : Wave V)
      → fetch cell w.pc ≡ some (plain (Inst.sopp 4 d), next)
      → step u cell (record w { scc = false })
        ≡ some (goes (record w { pc = branch_target next d; scc = false }))
  unfolding step
  step-branch d next w h = ap (execute_fetched u (record w { scc = false })) h
