-- ===== src/Kernel/Parallel.antt =====
-- src/kernel/parallel.h: how a job over `[0, total)` is shared out among the threads. The sizes are
-- `int64_t` in the code; a negative one is treated there like a zero, and a job is so small that
-- `total * chunks` does not overflow.
pub mod Partition
mod Tests
use pocket_llm.Prelude.{
  ℕ, zero, suc, ◌+◌, ◌*◌, ◌/◌, ◌-◌, List, [], ◌∷◌, Bool, ◌==◌, ◌||◌, ltb, leb, if◌then◌else◌,
}

unfoldable pub partition_size : ℕ → ℕ → ℕ → ℕ
partition_size total min_per_task threads =
    let chunks = (total + min_per_task - 1) / min_per_task in
    let chunks' = if ltb chunks 1 then 1 else chunks in
    if total == 0 || threads == 0 then 0 else if ltb chunks' threads then chunks' else threads

-- `ThreadPool::size`, with so many background workers.
unfoldable pub pool_size : ℕ → ℕ
pool_size workers = if workers == 0 then 1 else workers + 1

-- One call of the body, `fn(lo, hi, chunk)`.
pub record Range : Type 0 where
  pub lo : ℕ
  pub hi : ℕ
  pub chunk : ℕ

-- `job_`
unfoldable pub job : ℕ → ℕ → ℕ → Range
job total chunks chunk = record {
  lo = total * chunk / chunks;
  hi = total * (chunk + 1) / chunks;
  chunk = chunk;
}

-- The job's calls from `chunk` on, `left` of them: chunk zero on the caller's thread, each other one
-- on the worker of its index.
unfoldable pub jobs : ℕ → ℕ → ℕ → ℕ → List Range
jobs total chunks zero chunk = []
jobs total chunks (suc left) chunk = job total chunks chunk ∷ jobs total chunks left (chunk + 1)

-- The calls of the body that one `run_ranges` makes.
unfoldable pub run_ranges : ℕ → ℕ → ℕ → List Range
run_ranges workers total min_per_task =
    let chunks = partition_size total min_per_task (pool_size workers) in
    if total == 0
    then []
    else if leb chunks 1
    then record { lo = 0; hi = total; chunk = 0 } ∷ []
    else jobs total chunks chunks 0

unfoldable pub parallel_for : ℕ → ℕ → ℕ → List Range
parallel_for workers total min_per_task =
    run_ranges workers total (if min_per_task == 0 then 1 else min_per_task)

unfoldable pub parallel_tasks : ℕ → ℕ → ℕ → ℕ
parallel_tasks workers total min_per_task =
    partition_size total (if min_per_task == 0 then 1 else min_per_task) (pool_size workers)
