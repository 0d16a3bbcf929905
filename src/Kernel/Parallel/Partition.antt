-- ===== src/Kernel/Parallel/Partition.antt =====
-- The calls of a parallel job share its range out (src/kernel/parallel.h).
use pocket_llm.Prelude.{
  ℕ, zero, suc, ◌+◌, ◌*◌, ◌/◌, ◌-◌, ◌<◌, ◌≤◌, ◌≡◌, refl, ap, ◌∙◌, List, [], ◌∷◌, ◌==◌, leb,
  if◌then◌else◌, arith, false, Bool-cases, inl, inr,
}
use mathlib.Core.Path.{subst}
use native.Mathlib.Nat.{
  div-lt_iff_lt-mul, div-le_of_le-mul, lt-div-mul-add, mul-div_cancel, zero-div,
}
use pocket_llm.Kernel.Parallel.{
  Range, partition_size, pool_size, job, jobs, run_ranges, parallel_for, parallel_tasks,
}

-- The ranges, from the place `a` and the index `i` on, go on without a gap or an overlap to `total`,
-- none is empty, and their indices go on one by one to `tasks`.
unfoldable pub IsPartition : ℕ → ℕ → ℕ → ℕ → List Range → Type 0
IsPartition total tasks a i [] = (a ≡ total) × (i ≡ tasks)
IsPartition total tasks a i (r ∷ ranges) =
    (r.lo ≡ a) × (a < r.hi) × (r.chunk ≡ i) × IsPartition total tasks r.hi (i + 1) ranges

-- A job of no more chunks than places gives each of them a range that is not empty.
job-lo_lt_hi :
    (total chunks chunk : ℕ)
    → 0 < chunks
    → chunks ≤ total
    → (job total chunks chunk).lo < (job total chunks chunk).hi
unfolding job
job-lo_lt_hi total chunks chunk pos le =
    let below = lt-div-mul-add {a = total * (chunk + 1)} {b = chunks} pos in
    (div-lt_iff_lt-mul {k = chunks} {x = total * chunk} {y = total * (chunk + 1) / chunks} pos).1
      (omega (arith, below))

jobs-IsPartition :
    (total chunks left chunk : ℕ)
    → 0 < chunks
    → chunks ≤ total
    → chunk + left ≡ chunks
    → IsPartition total chunks (total * chunk / chunks) chunk (jobs total chunks left chunk)
unfolding IsPartition jobs job
jobs-IsPartition total chunks zero chunk pos le e =
    let same : chunk ≡ chunks = omega (arith, e) in
    (ap (λ c. total * c / chunks) same ∙ mul-div_cancel total pos, same)
jobs-IsPartition total chunks (suc left) chunk pos le e = (
  refl,
  job-lo_lt_hi total chunks chunk pos le,
  refl,
  jobs-IsPartition total chunks left (chunk + 1) pos le (omega (arith, e)),
)

-- There are no more chunks than places, and one at least.
chunks-le :
    (total min_per_task : ℕ)
    → 0 < total
    → 0 < min_per_task
    → (total + min_per_task - 1) / min_per_task ≤ total
chunks-le zero min_per_task total_pos pos = elim total_pos [ ]
chunks-le (suc t) zero total_pos pos = elim pos [ ]
chunks-le (suc t) (suc m) total_pos pos = div-le_of_le-mul (suc m) (omega arith)

partition_size-le :
    (total min_per_task threads : ℕ)
    → 0 < total
    → 0 < min_per_task
    → partition_size total min_per_task threads ≤ total
unfolding partition_size
partition_size-le total min_per_task threads total_pos pos =
    ground (arith, chunks-le total min_per_task total_pos pos)

partition_size-pos :
    (total min_per_task threads : ℕ)
    → 0 < total
    → 0 < threads
    → 0 < partition_size total min_per_task threads
unfolding partition_size
partition_size-pos total min_per_task threads total_pos pos = ground arith

pool_size-pos : (workers : ℕ) → 0 < pool_size workers
unfolding pool_size
pool_size-pos workers = ground arith

-- One `run_ranges` whose tasks have one place at least.
run_ranges-IsPartition :
    (workers total min_per_task : ℕ)
    → 0 < total
    → 0 < min_per_task
    → IsPartition total
        (partition_size total min_per_task (pool_size workers))
        0
        0
        (run_ranges workers total min_per_task)
unfolding run_ranges IsPartition
run_ranges-IsPartition workers total min_per_task total_pos pos =
    let chunks = partition_size total min_per_task (pool_size workers) in
    let chunks_pos =
      partition_size-pos total min_per_task (pool_size workers) total_pos (pool_size-pos workers) in
    let le = partition_size-le total min_per_task (pool_size workers) total_pos pos in
    let start : total * 0 / chunks ≡ 0 = ap (λ n. n / chunks) (omega arith) ∙ zero-div chunks in
    let some_places : (total == 0) ≡ false = ground arith in
    elim (Bool-cases (leb chunks 1)) [
      | inl one ↦
          rw (some_places, one) (refl, total_pos, refl, (refl, ground (arith, chunks_pos, one)))
      | inr many ↦
          rw (some_places, many)
            (subst (λ a. IsPartition total chunks a 0 (jobs total chunks chunks 0)) start
              (jobs-IsPartition total chunks chunks 0 chunks_pos le (omega arith)))
    ]

-- The calls of one parallel job go over `[0, total)` without a gap or an overlap, none of them is
-- empty, and their indices count up from zero to `parallel_tasks`: so each place is worked on by one
-- call, and a scratch region for each of `parallel_tasks` tasks is enough.
pub parallel_for-IsPartition :
    (workers total min_per_task : ℕ)
    → 0 < total
    → IsPartition total
        (parallel_tasks workers total min_per_task)
        0
        0
        (parallel_for workers total min_per_task)
unfolding parallel_for parallel_tasks
parallel_for-IsPartition workers total min_per_task pos =
    run_ranges-IsPartition workers total (if min_per_task == 0 then 1 else min_per_task) pos
      (ground arith)
