-- ===== src/Kernel/Pool/Invariant.antt =====
-- What holds of the pool of src/kernel/parallel.h in every reachable state.
use pocket_llm.Prelude.{
  ℕ, zero, suc, ◌+◌, ◌≤◌, ◌<◌, ◌≡◌, refl, ◌⊎◌, true, false, ◌==◌, ltb, if◌then◌else◌, arith, dec_lt,
}
use pocket_llm.Kernel.Pool.{
  Worker, spin, paused, woken, taking, ready, in_body, leaving, exited, Caller, idle, job_set,
  chunks_set, left_set, prepared, published, running, waiting, stopping, joining, destroyed, Pool,
  update,
}

-- Between the calls, between the publishing of a job and the return, and in the destructor.
pub data Phase : Type 0 where
  quiet active closing : Phase

abbrev pub phase_of : Caller → Phase
phase_of published = active
phase_of running = active
phase_of waiting = active
phase_of stopping = closing
phase_of (joining _) = closing
phase_of destroyed = closing
phase_of _ = quiet

-- How often the body of a job of `chunks` chunks is called for the chunk of worker `i`.
abbrev pub share : ℕ → ℕ → ℕ
share chunks i = if ltb (suc i) chunks then 1 else 0

-- Whether a worker that spins with `seen` has done its share: it has seen the newest generation.
abbrev pub Spins : ℕ → ℕ → ℕ → ℕ → ℕ → Type 0
Spins generation chunks count i seen =
    ((seen ≡ generation) × (count ≡ share chunks i)) ⊎ ((seen + 1 ≡ generation) × (count ≡ 0))

-- Where worker `i` may stand in a phase, with the number of calls of the body for its chunk.
abbrev pub Fits : Phase → (generation chunks job count i : ℕ) → Worker → Type 0
Fits quiet generation chunks job count i (spin seen) = seen ≡ generation
Fits quiet generation chunks job count i (paused seen) = seen ≡ generation
Fits quiet generation chunks job count i _ = ⊥
Fits active generation chunks job count i (spin seen) = Spins generation chunks count i seen
Fits active generation chunks job count i (paused seen) = Spins generation chunks count i seen
Fits active generation chunks job count i woken = count ≡ 0
Fits active generation chunks job count i taking = count ≡ 0
Fits active generation chunks job count i (ready seen) = (seen ≡ generation) × (count ≡ 0)
Fits active generation chunks job count i (in_body seen j chunk) =
    (seen ≡ generation) × (j ≡ job) × (chunk ≡ suc i) × (suc i < chunks) × (count ≡ 1)
Fits active generation chunks job count i (leaving seen) =
    (seen ≡ generation) × (count ≡ share chunks i)
Fits active generation chunks job count i exited = ⊥
Fits closing generation chunks job count i taking = ⊥
Fits closing generation chunks job count i (ready _) = ⊥
Fits closing generation chunks job count i (in_body _ _ _) = ⊥
Fits closing generation chunks job count i (leaving _) = ⊥
Fits closing generation chunks job count i _ = Unit {0}

-- 1 for a worker that has arrived in the newest generation.
abbrev pub arrival : ℕ → Worker → ℕ
arrival generation (spin seen) = if seen == generation then 1 else 0
arrival generation (paused seen) = if seen == generation then 1 else 0
arrival generation _ = 0

pub arrivals : ℕ → ℕ → (ℕ → Worker) → ℕ
arrivals zero generation ws = 0
arrivals (suc n) generation ws = arrivals n generation ws + arrival generation (ws n)

-- What the caller knows at its place.
abbrev pub Knows : ℕ → Caller → Pool → Type 0
Knows n idle s = s.stop ≡ false
Knows n (job_set count) s =
    (s.stop ≡ false) × (s.job ≡ s.generation + 1) × (1 < count) × (count ≤ n + 1)
Knows n chunks_set s =
    (s.stop ≡ false) × (s.job ≡ s.generation + 1) × (1 < s.chunks) × (s.chunks ≤ n + 1)
Knows n left_set s =
    (s.stop ≡ false)
    × (s.job ≡ s.generation + 1)
    × (1 < s.chunks)
    × (s.chunks ≤ n + 1)
    × (s.workers_left ≡ n)
Knows n prepared s =
    (s.stop ≡ false)
    × (s.job ≡ s.generation + 1)
    × (1 < s.chunks)
    × (s.chunks ≤ n + 1)
    × (s.workers_left ≡ n)
    × (s.arrived ≡ 0)
Knows n published s =
    (s.stop ≡ false)
    × (s.job ≡ s.generation)
    × (1 < s.chunks)
    × (s.chunks ≤ n + 1)
    × (s.workers_left ≡ n)
    × (s.arrived ≡ arrivals n s.generation s.worker)
    × (s.runs s.job 0 ≡ 0)
Knows n running s =
    (s.stop ≡ false)
    × (s.job ≡ s.generation)
    × (1 < s.chunks)
    × (s.chunks ≤ n + 1)
    × (s.workers_left ≡ n)
    × (s.arrived ≡ arrivals n s.generation s.worker)
    × (s.runs s.job 0 ≡ 1)
Knows n waiting s =
    (s.stop ≡ false)
    × (s.job ≡ s.generation)
    × (1 < s.chunks)
    × (s.chunks ≤ n + 1)
    × (s.workers_left ≡ n)
    × (s.arrived ≡ arrivals n s.generation s.worker)
    × (s.runs s.job 0 ≡ 1)
Knows n _ s = s.stop ≡ true

pub record IsSound (n : ℕ) (s : Pool) : Type 0 where
  pub stands :
      (i : ℕ)
      → i < n
      → Fits (phase_of s.caller) s.generation s.chunks s.job (s.runs s.job (suc i)) i (s.worker i)
  pub knows : Knows n s.caller s
  -- the jobs to come have no run, and none has a run of a chunk that no thread has
  pub fresh : (job chunk : ℕ) → s.generation < job → s.runs job chunk ≡ 0
  pub few : (job chunk : ℕ) → n < chunk → s.runs job chunk ≡ 0

pub arrivals-update_of_le :
    (n generation : ℕ) (ws : ℕ → Worker) (i : ℕ) (w : Worker)
    → n ≤ i
    → arrivals n generation (update ws i w) ≡ arrivals n generation ws
unfolding arrivals
arrivals-update_of_le zero generation ws i w h = refl
arrivals-update_of_le (suc n) generation ws i w h =
    ground (arith, arrivals-update_of_le n generation ws i w)

-- One worker's move changes the sum by what it changes itself.
pub arrivals-update :
    (n generation : ℕ) (ws : ℕ → Worker) (i : ℕ) (w : Worker)
    → i < n
    → arrivals n generation (update ws i w) + arrival generation (ws i)
      ≡ arrivals n generation ws + arrival generation w
unfolding arrivals
arrivals-update zero generation ws i w h = absurd (omega arith)
arrivals-update (suc n) generation ws i w h = elim (dec_lt i n) [
  | yes below ↦ ground (arith, arrivals-update n generation ws i w below)
  | no last ↦ ground (arith, arrivals-update_of_le n generation ws i w)
]

-- No worker has arrived in a generation that none has seen.
pub arrivals-eq_zero :
    (n generation : ℕ) (ws : ℕ → Worker)
    → ((i : ℕ) → i < n → arrival generation (ws i) ≡ 0)
    → arrivals n generation ws ≡ 0
unfolding arrivals
arrivals-eq_zero zero generation ws h = refl
arrivals-eq_zero (suc n) generation ws h =
    omega (arith, arrivals-eq_zero n generation ws (λ i lt. h i (omega arith)), h n (omega arith))

arrival-le_one : (generation : ℕ) (w : Worker) → arrival generation w ≤ 1
arrival-le_one generation (spin seen) = ground arith
arrival-le_one generation (paused seen) = ground arith
arrival-le_one generation woken = omega arith
arrival-le_one generation taking = omega arith
arrival-le_one generation (ready _) = omega arith
arrival-le_one generation (in_body _ _ _) = omega arith
arrival-le_one generation (leaving _) = omega arith
arrival-le_one generation exited = omega arith

arrivals-le : (n generation : ℕ) (ws : ℕ → Worker) → arrivals n generation ws ≤ n
unfolding arrivals
arrivals-le zero generation ws = omega arith
arrivals-le (suc n) generation ws =
    omega (arith, arrivals-le n generation ws, arrival-le_one generation (ws n))

-- If as many have arrived as there are workers, each one has.
pub arrival-eq_one :
    (n generation : ℕ) (ws : ℕ → Worker)
    → arrivals n generation ws ≡ n
    → (i : ℕ) → i < n
    → arrival generation (ws i) ≡ 1
unfolding arrivals
arrival-eq_one zero generation ws h i lt = absurd (omega arith)
arrival-eq_one (suc n) generation ws h i lt =
    let last = arrival-le_one generation (ws n) in
    let others = arrivals-le n generation ws in
    elim (dec_lt i n) [
      | yes below ↦ arrival-eq_one n generation ws (omega arith) i below
      | no above ↦ let same : i ≡ n = omega arith in rw same (omega arith)
    ]

-- And the other way round.
pub arrivals-full :
    (n generation : ℕ) (ws : ℕ → Worker)
    → ((i : ℕ) → i < n → arrival generation (ws i) ≡ 1)
    → arrivals n generation ws ≡ n
unfolding arrivals
arrivals-full zero generation ws h = refl
arrivals-full (suc n) generation ws h =
    omega (arith, arrivals-full n generation ws (λ i lt. h i (omega arith)), h n (omega arith))
