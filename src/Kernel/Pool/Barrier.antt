-- ===== src/Kernel/Pool/Barrier.antt =====
-- What the barrier of `run_ranges` (src/kernel/parallel.h) promises its caller.
use pocket_llm.Prelude.{
  ℕ, zero, suc, ◌<◌, ◌≡◌, refl, Bool, true, false, ltb, if◌then◌else◌, arith, dec_lt,
}
use mathlib.Core.Path.{subst}
use pocket_llm.Kernel.Pool.{
  Worker, spin, paused, in_body, idle, waiting, Pool, new_pool, Request, Thread, caller, worker,
  caller_at, step, Reach, start, next,
}
use pocket_llm.Kernel.Pool.Invariant.{
  Phase, quiet, active, closing, phase_of, share, Fits, arrival, arrivals, IsSound, arrival-eq_one,
}
use pocket_llm.Kernel.Pool.Workers.{worker-IsSound}
use pocket_llm.Kernel.Pool.Calls.{caller-IsSound, Knows-from, stands_from}

new_pool-IsSound : (n : ℕ) → IsSound n new_pool
new_pool-IsSound n = record {
  stands = λ i lt. refl;
  knows = refl;
  fresh = λ j c before. refl;
  few = λ j c above. refl;
}

pub step-IsSound : (n : ℕ) (t : Thread) {s : Pool} → IsSound n s → IsSound n (step n t s)
unfolding step
step-IsSound n (caller r) {s} sound = caller-IsSound n sound r s.caller refl
step-IsSound n (worker i) {s} sound = elim (dec_lt i n) [
  | yes lt ↦
      let known : ltb i n ≡ true = ground arith in
      rw known (worker-IsSound n i lt sound (s.worker i) refl)
  | no above ↦ let unknown : ltb i n ≡ false = ground arith in rw unknown sound
]

pub Reach-IsSound : {n : ℕ} {s : Pool} → Reach n s → IsSound n s
Reach-IsSound {n} start = new_pool-IsSound n
Reach-IsSound {n} (next r t) = step-IsSound n t (Reach-IsSound r)

-- Whether a worker is outside of any job: it looks for the next one.
abbrev pub is_outside : Worker → Bool
is_outside (spin _) = true
is_outside (paused _) = true
is_outside _ = false

arrived_outside :
    (generation chunks job count i : ℕ) (w : Worker)
    → arrival generation w ≡ 1
    → Fits active generation chunks job count i w
    → (count ≡ share chunks i) × (is_outside w ≡ true)
arrived_outside generation chunks job count i (spin seen) e h = (ground arith, refl)
arrived_outside generation chunks job count i (paused seen) e h = (ground arith, refl)
arrived_outside generation chunks job count i _ e h = absurd (omega arith)

passed :
    (n : ℕ) (q : Request) (s : Pool)
    → s.caller ≡ waiting
    → (step n (caller q) s).caller ≡ idle
    → s.arrived ≡ s.workers_left
unfolding step caller_at
passed n q s at done =
    let through : (caller_at n q waiting s).caller ≡ idle =
      subst (λ c. (caller_at n q c s).caller ≡ idle) at done in
    ground (arith, through, at)

module _ {n : ℕ} {s : Pool} (sound : IsSound n s) (at : s.caller ≡ waiting) where
  all_in : s.arrived ≡ s.workers_left → arrivals n s.generation s.worker ≡ n
  all_in e = let k = Knows-from n sound at in ground (arith, k.4, k.5, e)

  done_by :
      (i : ℕ)
      → i < n
      → s.arrived ≡ s.workers_left
      → (s.runs s.job (suc i) ≡ share s.chunks i) × (is_outside (s.worker i) ≡ true)
  done_by i lt e =
      arrived_outside s.generation s.chunks s.job (s.runs s.job (suc i)) i (s.worker i)
        (arrival-eq_one n s.generation s.worker (all_in e) i lt) (stands_from n sound at i lt)

  runs_of :
      (c : ℕ) → s.arrived ≡ s.workers_left → s.runs s.job c ≡ (if ltb c s.chunks then 1 else 0)
  runs_of zero e = let k = Knows-from n sound at in ground (arith, k.2, k.6)
  runs_of (suc i) e = elim (dec_lt i n) [
    | yes lt ↦ (done_by i lt e).0
    | no above ↦ let k = Knows-from n sound at in ground (arith, k.3, sound.few s.job (suc i))
  ]

-- When the caller comes through the barrier, in whatever order the threads ran, the body was called
-- once for each chunk of the job and never for another, and no worker is inside a job any more.
pub barrier_complete :
    {n : ℕ} {s : Pool} (q : Request)
    → Reach n s
    → s.caller ≡ waiting
    → (step n (caller q) s).caller ≡ idle
    → ((c : ℕ) → s.runs s.job c ≡ (if ltb c s.chunks then 1 else 0))
      × ((i : ℕ) → i < n → is_outside (s.worker i) ≡ true)
barrier_complete {n} {s} q r at done =
    let e = passed n q s at done in
    let sound = Reach-IsSound r in (λ c. runs_of sound at c e, λ i lt. (done_by sound at i lt e).1)

in_job :
    (p : Phase) (generation chunks job count i seen j c : ℕ)
    → Fits p generation chunks job count i (in_body seen j c)
    → (j ≡ job) × (c ≡ suc i) × (c < chunks) × (p ≡ active)
in_job quiet generation chunks job count i seen j c h = absurd h
in_job active generation chunks job count i seen j c h = (h.1, h.2, ground (arith, h.2, h.3), refl)
in_job closing generation chunks job count i seen j c h = absurd h

-- While a worker is inside a body, it is the body of the published job, at the worker's own chunk,
-- and the caller has not returned from the call that published it: the frame that the closure
-- refers to is there. In the destructor no body runs.
pub body_current :
    {n : ℕ} {s : Pool} (i seen j c : ℕ)
    → Reach n s
    → i < n
    → s.worker i ≡ in_body seen j c
    → (j ≡ s.job) × (c ≡ suc i) × (c < s.chunks) × (phase_of s.caller ≡ active)
body_current {n} {s} i seen j c r lt at =
    in_job (phase_of s.caller) s.generation s.chunks s.job (s.runs s.job (suc i)) i seen j c (
      subst (Fits (phase_of s.caller) s.generation s.chunks s.job (s.runs s.job (suc i)) i) at
        ((Reach-IsSound r).stands i lt))
