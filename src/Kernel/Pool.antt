-- ===== src/Kernel/Pool.antt =====
-- The barrier of `ThreadPool` in src/kernel/parallel.h: one caller at a time, which the mutex lets
-- into `run_ranges`, and `n` workers, interleaved one shared access at a time. A worker's index, its
-- `t_chunk_index`, is its number here and one more. A job's closure is named by the generation
-- that publishes it, and `runs` counts the calls of its body. The generation does not wrap.
mod Invariant
mod Moves
mod Workers
mod Calls
pub mod Barrier
mod Distance
pub mod Published
pub mod Progress
mod Tests
use pocket_llm.Prelude.{
  ℕ, zero, suc, ◌+◌, List, [], ◌∷◌, Bool, true, false, ◌&&◌, ◌==◌, ltb, leb, if◌then◌else◌,
}
use pocket_llm.Kernel.Parallel.{partition_size, pool_size}

-- Where a worker stands in `worker_main` and `run_worker_job`, with its variable `seen`.
pub data Worker : Type 0 where
  spin : (seen : ℕ) → Worker  -- at the load of `generation_`
  paused : (seen : ℕ) → Worker  -- found it unchanged, at the test of `stop_`
  woken : Worker  -- found it changed, at the test of `stop_`
  taking : Worker  -- at `seen = generation_`
  ready : (seen : ℕ) → Worker  -- at the test of its chunk
  in_body : (seen job chunk : ℕ) → Worker  -- inside `job_(chunk)`
  leaving : (seen : ℕ) → Worker  -- at the arrival
  exited : Worker

-- Where the caller stands: outside, in `run_ranges`, or in the destructor.
pub data Caller : Type 0 where
  idle : Caller
  job_set : (count : ℕ) → Caller  -- behind the assignment of `job_`, and so on
  chunks_set : Caller
  left_set : Caller
  prepared : Caller  -- at `++generation_`
  published : Caller  -- at `job_(0)`
  running : Caller  -- inside `job_(0)`
  waiting : Caller  -- at the barrier
  stopping : Caller  -- in the destructor, behind the store to `stop_`
  joining : (next : ℕ) → Caller  -- at the join of a worker
  destroyed : Caller

pub record Pool : Type 0 where
  pub generation : ℕ
  pub stop : Bool
  pub arrived : ℕ
  pub workers_left : ℕ
  pub chunks : ℕ
  pub job : ℕ
  pub caller : Caller
  pub worker : ℕ → Worker
  pub runs : ℕ → ℕ → ℕ

abbrev pub update {ℓ} : {A : Type ℓ} → (ℕ → A) → ℕ → A → ℕ → A
update f i a j = if j == i then a else f j

abbrev pub log : (ℕ → ℕ → ℕ) → ℕ → ℕ → ℕ → ℕ → ℕ
log runs job chunk j c = if j == job && c == chunk then runs j c + 1 else runs j c

-- A call of `parallel_for` with this total and this least task, or the end of the pool.
pub data Request : Type 0 where
  run : (total min_per_task : ℕ) → Request
  destroy : Request

abbrev pub is_exited : Worker → Bool
is_exited exited = true
is_exited _ = false

abbrev pub move_to : Pool → ℕ → Worker → Pool
move_to s i w = record s { worker = update s.worker i w }

-- The next access of worker `i`, which stands at the given place.
unfoldable pub worker_at : ℕ → Worker → Pool → Pool
worker_at i (spin seen) s = move_to s i (if s.generation == seen then paused seen else woken)
worker_at i (paused seen) s = move_to s i (if s.stop then exited else spin seen)
worker_at i woken s = move_to s i (if s.stop then exited else taking)
worker_at i taking s = move_to s i (ready s.generation)
worker_at i (ready seen) s =
    if ltb (suc i) s.chunks
    then record s {
      worker = update s.worker i (in_body seen s.job (suc i));
      runs = log s.runs s.job (suc i);
    }
    else move_to s i (leaving seen)
worker_at i (in_body seen job chunk) s = move_to s i (leaving seen)
worker_at i (leaving seen) s = record s {
  worker = update s.worker i (spin seen);
  arrived = s.arrived + 1;
}
worker_at i exited s = s

-- The caller's next access. A job of one chunk is run without the pool.
unfoldable pub caller_at : ℕ → Request → Caller → Pool → Pool
caller_at n (run total min_per_task) idle s =
    let count = partition_size total min_per_task (pool_size n) in
    if leb count 1 then s else record s { job = s.generation + 1; caller = job_set count }
caller_at n destroy idle s = record s { stop = true; caller = stopping }
caller_at n r (job_set count) s = record s { chunks = count; caller = chunks_set }
caller_at n r chunks_set s = record s { workers_left = n; caller = left_set }
caller_at n r left_set s = record s { arrived = 0; caller = prepared }
caller_at n r prepared s = record s { generation = s.generation + 1; caller = published }
caller_at n r published s = record s { runs = log s.runs s.job 0; caller = running }
caller_at n r running s = record s { caller = waiting }
caller_at n r waiting s = if s.arrived == s.workers_left then record s { caller = idle } else s
caller_at n r stopping s = record s { generation = s.generation + 1; caller = joining 0 }
caller_at n r (joining next) s =
    if next == n
    then record s { caller = destroyed }
    else record s { caller = joining (if is_exited (s.worker next) then next + 1 else next) }
caller_at n r destroyed s = s

-- One access by a thread of the pool.
pub data Thread : Type 0 where
  caller : Request → Thread
  worker : ℕ → Thread

unfoldable pub step : ℕ → Thread → Pool → Pool
step n (caller r) s = caller_at n r s.caller s
step n (worker i) s = if ltb i n then worker_at i (s.worker i) s else s

abbrev pub new_pool : Pool
new_pool = record {
  generation = 0;
  stop = false;
  arrived = 0;
  workers_left = 0;
  chunks = 0;
  job = 0;
  caller = idle;
  worker = λ _. spin 0;
  runs = λ _ _. 0;
}

-- The states that the threads can reach, in any order of their accesses.
pub data Reach (n : ℕ) : Pool → Type 0 where
  start : Reach n new_pool
  next : {s : Pool} → Reach n s → (t : Thread) → Reach n (step n t s)
