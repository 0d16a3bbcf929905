-- ===== src/Kernel/Parallel/Tests.antt =====
-- Jobs on a pool of three threads, and the theorem at one of them.
use pocket_llm.Prelude.{◌≡◌, refl, [], ◌∷◌, arith}
use pocket_llm.Kernel.Parallel.{
  partition_size, pool_size, job, jobs, run_ranges, parallel_for, parallel_tasks,
}
use pocket_llm.Kernel.Parallel.Partition.{IsPartition, parallel_for-IsPartition}

three_ranges :
    parallel_for 2 10 2
    ≡ record { lo = 0; hi = 3; chunk = 0 }
      ∷ record { lo = 3; hi = 6; chunk = 1 }
      ∷ record { lo = 6; hi = 10; chunk = 2 }
      ∷ []
unfolding parallel_for run_ranges partition_size pool_size job jobs
three_ranges = refl

serial : parallel_for 2 10 16 ≡ record { lo = 0; hi = 10; chunk = 0 } ∷ []
unfolding parallel_for run_ranges partition_size pool_size job jobs
serial = refl

parallel_for-IsPartition_example : IsPartition 10 (parallel_tasks 2 10 2) 0 0 (parallel_for 2 10 2)
parallel_for-IsPartition_example = parallel_for-IsPartition 2 10 2 (omega arith)
