-- ===== src/Kernel/Pool/Published.antt =====
-- A call of `run_ranges` (src/kernel/parallel.h) returns once its job is published, whatever the schedule.
use pocket_llm.Prelude.{
  ℕ, suc, ◌+◌, ◌≤◌, ◌<◌, ◌≡◌, refl, sym, ap, ◌∙◌, ◌⊎◌, inl, inr, true, false, ◌==◌, ltb, List, [],
  ◌∷◌, ◌++◌, if◌then◌else◌, arith, dec_lt, Bool-cases, ==_iff,
}
use mathlib.Core.Path.{subst}
use pocket_llm.Kernel.Pool.{
  Worker, spin, paused, exited, Caller, idle, job_set, chunks_set, left_set, prepared, published,
  running, waiting, stopping, joining, destroyed, Pool, log, Request, Thread, caller, worker,
  worker_at, caller_at, step,
}
use pocket_llm.Kernel.Pool.Invariant.{
  active, phase_of, Fits, arrival, arrivals, IsSound, arrivals-full,
}
use pocket_llm.Kernel.Pool.Workers.{worker-IsSound}
use pocket_llm.Kernel.Pool.Moves.{stop_of, is_closing}
use pocket_llm.Kernel.Pool.Calls.{Knows-from, stands_from}
use pocket_llm.Kernel.Pool.Barrier.{step-IsSound}
use pocket_llm.Kernel.Pool.Distance.{
  distance, distance-worker_at, worker_at-other, worker_at-caller,
}

-- The call is over at some point of the schedule.
unfoldable pub Returns : ℕ → List Thread → Pool → Type 0
Returns n [] s = s.caller ≡ idle
Returns n (t ∷ schedule) s = (s.caller ≡ idle) ⊎ Returns n schedule (step n t s)

-- How many accesses of worker `i` a schedule has.
unfoldable pub turns : ℕ → List Thread → ℕ
turns i [] = 0
turns i (caller r ∷ schedule) = turns i schedule
turns i (worker j ∷ schedule) = (if i == j then 1 else 0) + turns i schedule

pub Returns-idle :
    (n : ℕ) (schedule : List Thread) (s : Pool) → s.caller ≡ idle → Returns n schedule s
unfolding Returns
Returns-idle n [] s at = at
Returns-idle n (t ∷ schedule) s at = inl at

caller_step :
    (n : ℕ) (q : Request) (s : Pool) {c : Caller}
    → s.caller ≡ c
    → step n (caller q) s ≡ caller_at n q c s
unfolding step
caller_step n q s at = ap (λ c. caller_at n q c s) at

-- With every worker in, the caller's next accesses bring it out of the call.
module _ (n : ℕ) (schedule : List Thread) where
  Returns-waiting :
      (q : Request) (s : Pool)
      → s.caller ≡ waiting
      → s.arrived ≡ s.workers_left
      → Returns n (caller q ∷ schedule) s
  unfolding Returns caller_at
  Returns-waiting q s at e = inr (
      Returns-idle n schedule (step n (caller q) s)
        (ap (λ (p : Pool). p.caller) (caller_step n q s at) ∙ ground (arith, e)))

  Returns-running :
      (q q' : Request) (s : Pool)
      → s.caller ≡ running
      → s.arrived ≡ s.workers_left
      → Returns n (caller q ∷ caller q' ∷ schedule) s
  unfolding Returns caller_at
  Returns-running q q' s at e = inr (
      subst (Returns n (caller q' ∷ schedule)) (sym (caller_step n q s at))
        (Returns-waiting q' (record s { caller = waiting }) refl e))

  Returns-published :
      (q q' q'' : Request) (s : Pool)
      → s.caller ≡ published
      → s.arrived ≡ s.workers_left
      → Returns n (caller q ∷ caller q' ∷ caller q'' ∷ schedule) s
  unfolding Returns caller_at
  Returns-published q q' q'' s at e = inr (
      subst (Returns n (caller q' ∷ caller q'' ∷ schedule)) (sym (caller_step n q s at))
        (Returns-running q' q'' (record s { runs = log s.runs s.job 0; caller = running }) refl e))

-- A worker that needs no further access has arrived.
arrival-near :
    (generation chunks job count i : ℕ) (w : Worker)
    → Fits active generation chunks job count i w
    → distance generation w ≤ 0
    → arrival generation w ≡ 1
arrival-near generation chunks job count i (spin seen) h near = ground arith
arrival-near generation chunks job count i (paused seen) h near = ground arith
arrival-near generation chunks job count i exited h near = absurd h
arrival-near generation chunks job count i _ h near = absurd (omega arith)

-- What the caller's access leaves as it is while a job runs, if it does not return.
Stays : Pool → Pool → Type 0
Stays s t = (phase_of t.caller ≡ active) × (t.generation ≡ s.generation) × (t.worker ≡ s.worker)

caller-Stays :
    (n : ℕ) (q : Request) (s : Pool) (c : Caller)
    → s.caller ≡ c
    → phase_of c ≡ active
    → ((caller_at n q c s).caller ≡ idle) ⊎ Stays s (caller_at n q c s)
unfolding caller_at Stays
caller-Stays n q s published at p = inr (refl, refl, refl)
caller-Stays n q s running at p = inr (refl, refl, refl)
caller-Stays n q s waiting at p = elim (Bool-cases (s.arrived == s.workers_left)) [
  | inl all ↦ inl (rw all refl)
  | inr some_left ↦ inr (rw some_left (ap phase_of at, refl, refl))
]
caller-Stays n q s idle at p = cc
caller-Stays n q s (job_set _) at p = cc
caller-Stays n q s chunks_set at p = cc
caller-Stays n q s left_set at p = cc
caller-Stays n q s prepared at p = cc
caller-Stays n q s stopping at p = cc
caller-Stays n q s (joining _) at p = cc
caller-Stays n q s destroyed at p = cc

-- The end of the schedule: every worker is in.
module _ (n : ℕ) (q q' q'' : Request) {s : Pool} (sound : IsSound n s) where
  last_turns : List Thread
  last_turns = caller q ∷ caller q' ∷ caller q'' ∷ []

  all_in :
      {c : Caller}
      → s.caller ≡ c
      → phase_of c ≡ active
      → ((i : ℕ) → i < n → distance s.generation (s.worker i) ≤ 0)
      → arrivals n s.generation s.worker ≡ n
  all_in at p near = arrivals-full n s.generation s.worker (λ i lt.
      arrival-near s.generation s.chunks s.job (s.runs s.job (suc i)) i (s.worker i)
        (subst (λ p. Fits p s.generation s.chunks s.job (s.runs s.job (suc i)) i (s.worker i)) p
          (stands_from n sound at i lt))
        (near i lt))

  finish :
      (c : Caller)
      → s.caller ≡ c
      → phase_of c ≡ active
      → ((i : ℕ) → i < n → distance s.generation (s.worker i) ≤ 0)
      → Returns n last_turns s
  unfolding last_turns
  finish published at p near =
      let k = Knows-from n sound at in
      Returns-published n [] q q' q'' s at (k.5 ∙ all_in at p near ∙ sym k.4)
  finish running at p near =
      let k = Knows-from n sound at in
      Returns-running n (caller q'' ∷ []) q q' s at (k.5 ∙ all_in at p near ∙ sym k.4)
  finish waiting at p near =
      let k = Knows-from n sound at in
      Returns-waiting n (caller q' ∷ caller q'' ∷ []) q s at (k.5 ∙ all_in at p near ∙ sym k.4)
  finish idle at p near = cc
  finish (job_set _) at p near = cc
  finish chunks_set at p near = cc
  finish left_set at p near = cc
  finish prepared at p near = cc
  finish stopping at p near = cc
  finish (joining _) at p near = cc
  finish destroyed at p near = cc

abbrev pub IsNear : ℕ → List Thread → Pool → Type 0
IsNear n schedule s = (i : ℕ) → i < n → distance s.generation (s.worker i) ≤ turns i schedule

own_turn :
    (j : ℕ) (s : Pool) (schedule : List Thread)
    → s.stop ≡ false
    → Fits active s.generation s.chunks s.job (s.runs s.job (suc j)) j (s.worker j)
    → distance s.generation (s.worker j) ≤ turns j (worker j ∷ schedule)
    → distance s.generation ((worker_at j (s.worker j) s).worker j) ≤ turns j schedule
unfolding turns
own_turn j s schedule goes fits near =
    let nearer = distance-worker_at j (s.worker j) s refl goes fits in
    let once : ◌≡◌ {A = ℕ} (if j == j then 1 else 0) 1 = ground arith in
    omega (arith, nearer, once, near)

other_turn :
    (i j d : ℕ) (schedule : List Thread)
    → (i == j) ≡ false
    → d ≤ turns i (worker j ∷ schedule)
    → d ≤ turns i schedule
unfolding turns
other_turn i j d schedule other near = ground (arith, near)

-- A worker's turn brings it nearer and moves no other.
worker-IsNear :
    (n j : ℕ) (schedule : List Thread) {s : Pool}
    → IsSound n s
    → phase_of s.caller ≡ active
    → j < n
    → IsNear n (worker j ∷ schedule) s
    → IsNear n schedule (worker_at j (s.worker j) s)
unfolding turns
worker-IsNear n j schedule {s} sound p below near i lt =
    let w = s.worker j in
    let goes : s.stop ≡ false = stop_of n s s.caller sound.knows ∙ ap is_closing p in
    let fits =
      subst (λ p. Fits p s.generation s.chunks s.job (s.runs s.job (suc j)) j w) p
        (sound.stands j below) in
    rw ((worker_at-caller j w s).1) (elim (Bool-cases (i == j)) [
      | inl own ↦
          let same = (==_iff i j).0 own in
          subst (λ k. distance s.generation ((worker_at j w s).worker k) ≤ turns k schedule)
            (sym same) (own_turn j s schedule goes fits (near j below))
      | inr other ↦ rw (worker_at-other j i w s other) (other_turn i j _ schedule other (near i lt))
    ])

module _ (n : ℕ) (q q' q'' : Request) where
  pub Returns-by :
      (schedule : List Thread) {s : Pool}
      → IsSound n s
      → phase_of s.caller ≡ active
      → IsNear n schedule s
      → Returns n (schedule ++ (caller q ∷ caller q' ∷ caller q'' ∷ [])) s
  unfolding Returns turns step last_turns Stays
  Returns-by [] {s} sound p near = finish n q q' q'' sound s.caller refl p near
  Returns-by (caller r ∷ schedule) {s} sound p near = elim (caller-Stays n r s s.caller refl p) [
    | inl done ↦ inr (Returns-idle n _ (caller_at n r s.caller s) done)
    | inr (p', g, w) ↦
        inr
          (Returns-by schedule (step-IsSound n (caller r) sound) p' (λ i lt. rw (g, w) (near i lt)))
  ]
  Returns-by (worker j ∷ schedule) {s} sound p near = elim (dec_lt j n) [
    | yes below ↦
        let known : ltb j n ≡ true = ground arith in
        let at = (worker_at-caller j (s.worker j) s).0 in
        inr (
          rw known (
            Returns-by schedule (worker-IsSound n j below sound (s.worker j) refl)
              (ap phase_of at ∙ p) (worker-IsNear n j schedule sound p below near)))
    | no above ↦
        let unknown : ltb j n ≡ false = ground arith in
        inr (rw unknown (Returns-by schedule sound p (λ i lt. ground (arith, near i lt))))
  ]
