-- ===== src/Kernel/Pool/Tests.antt =====
-- A pool with one worker in the middle of a job, and the theorems at it.
use pocket_llm.Prelude.{
  ℕ, zero, suc, ◌≤◌, ◌<◌, ◌≡◌, refl, true, ltb, List, [], ◌∷◌, ◌++◌, if◌then◌else◌, arith,
}
use pocket_llm.Kernel.Parallel.{partition_size, pool_size}
use pocket_llm.Kernel.Pool.{
  Pool, new_pool, run, Thread, caller, worker, worker_at, caller_at, step, Reach, start, next,
}
use pocket_llm.Kernel.Pool.Invariant.{phase_of, active}
use pocket_llm.Kernel.Pool.Barrier.{is_outside, barrier_complete, body_current}
use pocket_llm.Kernel.Pool.Published.{Returns, turns}
use pocket_llm.Kernel.Pool.Progress.{caller_turns, call-Returns}

abbrev steps : ℕ → List Thread → Pool → Pool
steps n [] s = s
steps n (t ∷ schedule) s = steps n schedule (step n t s)

Reach-steps : (n : ℕ) (schedule : List Thread) {s : Pool} → Reach n s → Reach n (steps n schedule s)
Reach-steps n [] r = r
Reach-steps n (t ∷ schedule) r = Reach-steps n schedule (next r t)

abbrev two_places : Thread
two_places = caller (run 2 1)

-- The caller publishes a job of two chunks and is about to call the body itself.
abbrev publishing : List Thread
publishing = two_places ∷ two_places ∷ two_places ∷ two_places ∷ two_places ∷ []

abbrev worker_turns : ℕ → List Thread
worker_turns zero = []
worker_turns (suc k) = worker 0 ∷ worker_turns k

-- The worker is inside its chunk while the caller waits.
abbrev busy : List Thread
busy = publishing ++ (two_places ∷ two_places ∷ worker_turns 4)

abbrev finished : List Thread
finished = busy ++ worker_turns 2

barrier_complete_example :
    ((c : ℕ)
      → (steps 1 finished new_pool).runs 1 c
        ≡ (if ltb c (steps 1 finished new_pool).chunks then 1 else 0))
    × ((i : ℕ) → i < 1 → is_outside ((steps 1 finished new_pool).worker i) ≡ true)
unfolding step caller_at worker_at partition_size pool_size
barrier_complete_example = barrier_complete (run 2 1) (Reach-steps 1 finished start) refl refl

body_current_example :
    (1 ≡ (steps 1 busy new_pool).job)
    × (1 ≡ suc 0)
    × (1 < (steps 1 busy new_pool).chunks)
    × (phase_of (steps 1 busy new_pool).caller ≡ active)
unfolding step caller_at worker_at partition_size pool_size
body_current_example = body_current 0 1 1 1 (Reach-steps 1 busy start) (omega arith) refl

seven : (i : ℕ) → i < 1 → 7 ≤ turns i (worker_turns 7)
unfolding turns
seven zero lt = omega arith
seven (suc i) lt = absurd (omega arith)

-- From the first access of the call on, with a turn of the worker in the middle of the publishing.
abbrev opening : List Thread
opening = two_places ∷ two_places ∷ worker 0 ∷ two_places ∷ two_places ∷ []

call-Returns_example :
    Returns 1
      (opening ++ (worker_turns 7 ++ (two_places ∷ two_places ∷ two_places ∷ [])))
      (steps 1 (two_places ∷ []) new_pool)
unfolding step caller_at worker_at partition_size pool_size caller_turns
call-Returns_example =
    call-Returns opening (worker_turns 7) (run 2 1) (run 2 1) (run 2 1)
      (Reach-steps 1 (two_places ∷ []) start) refl (omega arith) seven
