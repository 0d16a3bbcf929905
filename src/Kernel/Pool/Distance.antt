-- ===== src/Kernel/Pool/Distance.antt =====
-- How far a worker of the pool in src/kernel/parallel.h is from its arrival.
use pocket_llm.Prelude.{ℕ, suc, ◌-◌, ◌≤◌, ◌≡◌, refl, false, ◌==◌, if◌then◌else◌, arith}
use pocket_llm.Kernel.Pool.{
  Worker, spin, paused, woken, taking, ready, in_body, leaving, exited, Pool, worker_at,
}
use pocket_llm.Kernel.Pool.Invariant.{active, Fits}

-- How many accesses a worker needs until it has arrived in the newest generation.
abbrev pub distance : ℕ → Worker → ℕ
distance generation (spin seen) = if seen == generation then 0 else 6
distance generation (paused seen) = if seen == generation then 0 else 7
distance generation woken = 5
distance generation taking = 4
distance generation (ready _) = 3
distance generation (in_body _ _ _) = 2
distance generation (leaving _) = 1
distance generation exited = 0

pub distance-le : (generation : ℕ) (w : Worker) → distance generation w ≤ 7
distance-le generation (spin seen) = ground arith
distance-le generation (paused seen) = ground arith
distance-le generation exited = omega arith
distance-le generation woken = omega arith
distance-le generation taking = omega arith
distance-le generation (ready _) = omega arith
distance-le generation (in_body _ _ _) = omega arith
distance-le generation (leaving _) = omega arith

-- The worker's own access takes it on by one, while a job runs.
pub distance-worker_at :
    (i : ℕ) (w : Worker) (s : Pool)
    → s.worker i ≡ w
    → s.stop ≡ false
    → Fits active s.generation s.chunks s.job (s.runs s.job (suc i)) i w
    → distance s.generation ((worker_at i w s).worker i) ≤ distance s.generation w - 1
unfolding worker_at
distance-worker_at i (spin seen) s at goes h = ground arith
distance-worker_at i (paused seen) s at goes h = ground (arith, goes)
distance-worker_at i woken s at goes h = ground (arith, goes)
distance-worker_at i taking s at goes h = ground arith
distance-worker_at i (ready seen) s at goes h = ground arith
distance-worker_at i (in_body seen j c) s at goes h = ground arith
distance-worker_at i (leaving seen) s at goes h = ground (arith, h)
distance-worker_at i exited s at goes h = absurd h

-- It leaves the other workers alone, and the caller.
pub worker_at-other :
    (i j : ℕ) (w : Worker) (s : Pool) → (j == i) ≡ false → (worker_at i w s).worker j ≡ s.worker j
unfolding worker_at
worker_at-other i j (spin seen) s e = ground arith
worker_at-other i j (paused seen) s e = ground arith
worker_at-other i j woken s e = ground arith
worker_at-other i j taking s e = ground arith
worker_at-other i j (ready seen) s e = ground arith
worker_at-other i j (in_body seen _ c) s e = ground arith
worker_at-other i j (leaving seen) s e = ground arith
worker_at-other i j exited s e = refl

pub worker_at-caller :
    (i : ℕ) (w : Worker) (s : Pool)
    → ((worker_at i w s).caller ≡ s.caller) × ((worker_at i w s).generation ≡ s.generation)
unfolding worker_at
worker_at-caller i (spin seen) s = (refl, refl)
worker_at-caller i (paused seen) s = (refl, refl)
worker_at-caller i woken s = (refl, refl)
worker_at-caller i taking s = (refl, refl)
worker_at-caller i (ready seen) s = (ground arith, ground arith)
worker_at-caller i (in_body seen _ c) s = (refl, refl)
worker_at-caller i (leaving seen) s = (refl, refl)
worker_at-caller i exited s = (refl, refl)
