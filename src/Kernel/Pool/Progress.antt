-- ===== src/Kernel/Pool/Progress.antt =====
-- A call of `run_ranges` (src/kernel/parallel.h) returns, whatever the schedule.
use pocket_llm.Prelude.{
  ℕ, ◌+◌, ◌-◌, ◌≤◌, ◌<◌, ◌≡◌, refl, ◌⊎◌, inl, inr, Bool, true, false, ◌==◌, ltb, List, [], ◌∷◌,
  ◌++◌, arith, Bool-cases,
}
use pocket_llm.Kernel.Pool.{
  Caller, idle, job_set, chunks_set, left_set, prepared, published, running, waiting, stopping,
  joining, destroyed, Pool, Request, Thread, caller, worker, caller_at, step, Reach,
}
use pocket_llm.Kernel.Pool.Invariant.{active, phase_of, IsSound}
use pocket_llm.Kernel.Pool.Barrier.{step-IsSound, Reach-IsSound}
use pocket_llm.Kernel.Pool.Distance.{distance-le, worker_at-caller}
use pocket_llm.Kernel.Pool.Published.{Returns, turns, Returns-idle, Returns-by}

-- Whether the caller is between the first access of a call on a job of more than one chunk and its
-- return.
abbrev pub in_call : Caller → Bool
in_call (job_set _) = true
in_call chunks_set = true
in_call left_set = true
in_call prepared = true
in_call published = true
in_call running = true
in_call waiting = true
in_call _ = false

-- How many accesses the caller has in a schedule.
unfoldable pub caller_turns : List Thread → ℕ
caller_turns [] = 0
caller_turns (caller r ∷ schedule) = 1 + caller_turns schedule
caller_turns (worker i ∷ schedule) = caller_turns schedule

-- How many accesses the caller needs until the job is published.
abbrev until_published : Caller → ℕ
until_published (job_set _) = 4
until_published chunks_set = 3
until_published left_set = 2
until_published prepared = 1
until_published _ = 0

until_published-le : (c : Caller) → until_published c ≤ 4
until_published-le (job_set _) = omega arith
until_published-le chunks_set = omega arith
until_published-le left_set = omega arith
until_published-le prepared = omega arith
until_published-le _ = omega arith

-- An access of the caller ends the call, or brings it nearer to the publishing.
caller_at-until_published :
    (n : ℕ) (q : Request) (c : Caller) (s : Pool)
    → s.caller ≡ c
    → in_call c ≡ true
    → ((caller_at n q c s).caller ≡ idle)
      ⊎ ((in_call (caller_at n q c s).caller ≡ true)
          × (until_published (caller_at n q c s).caller ≤ until_published c - 1))
unfolding caller_at
caller_at-until_published n q (job_set _) s at h = inr (refl, omega arith)
caller_at-until_published n q chunks_set s at h = inr (refl, omega arith)
caller_at-until_published n q left_set s at h = inr (refl, omega arith)
caller_at-until_published n q prepared s at h = inr (refl, omega arith)
caller_at-until_published n q published s at h = inr (refl, omega arith)
caller_at-until_published n q running s at h = inr (refl, omega arith)
caller_at-until_published n q waiting s at h = elim (Bool-cases (s.arrived == s.workers_left)) [
  | inl all ↦ inl (rw all refl)
  | inr some_left ↦ inr (rw (some_left, at) (refl, omega arith))
]
caller_at-until_published n q idle s at h = cc
caller_at-until_published n q stopping s at h = cc
caller_at-until_published n q (joining _) s at h = cc
caller_at-until_published n q destroyed s at h = cc

worker_step-caller : (n j : ℕ) (s : Pool) → (step n (worker j) s).caller ≡ s.caller
unfolding step
worker_step-caller n j s = elim (Bool-cases (ltb j n)) [
  | inl known ↦ rw known ((worker_at-caller j (s.worker j) s).0)
  | inr unknown ↦ rw unknown refl
]

published-active : (c : Caller) → in_call c ≡ true → until_published c ≤ 0 → phase_of c ≡ active
published-active published h e = refl
published-active running h e = refl
published-active waiting h e = refl
published-active (job_set _) h e = absurd (omega arith)
published-active chunks_set h e = absurd (omega arith)
published-active left_set h e = absurd (omega arith)
published-active prepared h e = absurd (omega arith)
published-active idle h e = cc
published-active stopping h e = cc
published-active (joining _) h e = cc
published-active destroyed h e = cc

module _ (n : ℕ) (schedule : List Thread) (q q' q'' : Request)
    (fair : (i : ℕ) → i < n → 7 ≤ turns i schedule) where
  Returns-from :
      (opening : List Thread) {s : Pool}
      → IsSound n s
      → in_call s.caller ≡ true
      → until_published s.caller ≤ caller_turns opening
      → Returns n (opening ++ (schedule ++ (caller q ∷ caller q' ∷ caller q'' ∷ []))) s
  unfolding Returns step caller_turns
  Returns-from [] {s} sound h near =
      Returns-by n q q' q'' schedule sound (published-active s.caller h near)
        (λ i lt. omega (arith, distance-le s.generation (s.worker i), fair i lt))
  Returns-from (caller r ∷ opening) {s} sound h near =
      elim (caller_at-until_published n r s.caller s refl h) [
        | inl done ↦ inr (Returns-idle n _ (caller_at n r s.caller s) done)
        | inr (h', nearer) ↦
            inr (Returns-from opening (step-IsSound n (caller r) sound) h' (omega arith))
      ]
  Returns-from (worker j ∷ opening) {s} sound h near =
      let kept = worker_step-caller n j s in
      inr (Returns-from opening (step-IsSound n (worker j) sound) (rw kept h) (rw kept near))

-- A call of `run_ranges` on a job of more than one chunk returns, whatever the threads do, from its first
-- access on or from any later place in it: once the caller has had four turns, which publish the job,
-- and then each worker seven, it is over at the latest when the caller has had three more. The turns of
-- the workers come in any order, and with any other steps before and between them.
pub call-Returns :
    {n : ℕ} {s : Pool} (opening schedule : List Thread) (q q' q'' : Request)
    → Reach n s
    → in_call s.caller ≡ true
    → 4 ≤ caller_turns opening
    → ((i : ℕ) → i < n → 7 ≤ turns i schedule)
    → Returns n (opening ++ (schedule ++ (caller q ∷ caller q' ∷ caller q'' ∷ []))) s
call-Returns {n} {s} opening schedule q q' q'' r h publishes fair =
    Returns-from n schedule q q' q'' fair opening (Reach-IsSound r) h
      (omega (arith, until_published-le s.caller))
