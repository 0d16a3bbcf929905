-- ===== src/Kernel/Pool/Calls.antt =====
-- The caller's accesses keep the pool sound (src/kernel/parallel.h).
use pocket_llm.Prelude.{
  ℕ, suc, ◌+◌, ◌≤◌, ◌<◌, ◌≡◌, refl, sym, ap, ◌∙◌, inl, inr, false, ◌==◌, leb, arith, Bool-cases,
  ==_iff,
}
use mathlib.Core.Path.{subst}
use pocket_llm.Kernel.Parallel.{partition_size, pool_size}
use pocket_llm.Kernel.Pool.{
  Worker, spin, paused, Caller, idle, job_set, chunks_set, left_set, prepared, published, running,
  waiting, stopping, joining, destroyed, Pool, log, Request, run, destroy, caller_at,
}
use pocket_llm.Kernel.Pool.Invariant.{
  quiet, active, closing, phase_of, Fits, arrival, Knows, IsSound, arrivals-eq_zero, arrival-eq_one,
}

-- A job has no more chunks than the pool has threads.
count-le :
    (n total min_per_task : ℕ)
    → leb (partition_size total min_per_task (pool_size n)) 1 ≡ false
    → (1 < partition_size total min_per_task (pool_size n))
      × (partition_size total min_per_task (pool_size n) ≤ n + 1)
unfolding partition_size pool_size
count-le n total min_per_task e = ground arith

-- How a worker's place looks when the caller goes on to another phase.
module _ (generation chunks job count i : ℕ) where
  Fits-quiet :
      (w : Worker) (chunks' job' count' : ℕ)
      → Fits quiet generation chunks job count i w
      → Fits quiet generation chunks' job' count' i w
  Fits-quiet (spin seen) chunks' job' count' h = h
  Fits-quiet (paused seen) chunks' job' count' h = h
  Fits-quiet _ chunks' job' count' h = absurd h

  Fits-publish :
      (w : Worker) (count' : ℕ)
      → count' ≡ 0
      → Fits quiet generation chunks job count i w
      → Fits active (generation + 1) chunks job count' i w
  Fits-publish (spin seen) count' none_yet h = inr (ap (λ g. g + 1) h, none_yet)
  Fits-publish (paused seen) count' none_yet h = inr (ap (λ g. g + 1) h, none_yet)
  Fits-publish _ count' none_yet h = absurd h

  Fits-return :
      (w : Worker)
      → arrival generation w ≡ 1
      → Fits active generation chunks job count i w
      → Fits quiet generation chunks job count i w
  Fits-return (spin seen) e h = ground arith
  Fits-return (paused seen) e h = ground arith
  Fits-return _ e h = absurd (omega arith)

  Fits-close :
      (w : Worker) (generation' chunks' job' count' : ℕ)
      → Fits quiet generation chunks job count i w
      → Fits closing generation' chunks' job' count' i w
  Fits-close (spin seen) generation' chunks' job' count' h = tt
  Fits-close (paused seen) generation' chunks' job' count' h = tt
  Fits-close _ generation' chunks' job' count' h = absurd h

  Fits-closing :
      (w : Worker) (generation' : ℕ)
      → Fits closing generation chunks job count i w
      → Fits closing generation' chunks job count i w
  Fits-closing (spin seen) generation' h = h
  Fits-closing _ generation' h = h

  -- A worker that waits for a job has not seen the next generation.
  arrival-publish :
      (w : Worker) → Fits quiet generation chunks job count i w → arrival (generation + 1) w ≡ 0
  arrival-publish (spin seen) h = ground arith
  arrival-publish (paused seen) h = ground arith
  arrival-publish _ h = absurd h

-- Any access of the caller.
module _ (n : ℕ) {s : Pool} (sound : IsSound n s) where
  -- The parts of the invariant, at the caller's place.
  pub stands_from :
      {c : Caller}
      → s.caller ≡ c
      → (i : ℕ) → i < n
      → Fits (phase_of c) s.generation s.chunks s.job (s.runs s.job (suc i)) i (s.worker i)
  stands_from at i lt =
      subst
        (λ c. Fits (phase_of c) s.generation s.chunks s.job (s.runs s.job (suc i)) i (s.worker i))
        at (sound.stands i lt)

  pub Knows-from : {c : Caller} → s.caller ≡ c → Knows n c s
  Knows-from at = subst (λ c. Knows n c s) at sound.knows

  -- An access between two calls, of a variable that no worker reads there.
  IsSound-quiet :
      {c c' : Caller} (chunks job left arrived : ℕ)
      → s.caller ≡ c
      → phase_of c ≡ quiet
      → phase_of c' ≡ quiet
      → Knows n c' (record s {
        chunks = chunks;
        job = job;
        workers_left = left;
        arrived = arrived;
        caller = c';
      })
      → IsSound n (record s {
        chunks = chunks;
        job = job;
        workers_left = left;
        arrived = arrived;
        caller = c';
      })
  IsSound-quiet {c} {c'} chunks job left arrived at p p' k = record {
    stands = λ i lt. rw p' (
        Fits-quiet s.generation s.chunks s.job (s.runs s.job (suc i)) i (s.worker i) chunks job
          (s.runs job (suc i))
          (subst (λ p. Fits p s.generation s.chunks s.job (s.runs s.job (suc i)) i (s.worker i)) p
            (stands_from at i lt)));
    knows = k;
    fresh = sound.fresh;
    few = sound.few;
  }

  pub caller-IsSound : (r : Request) (c : Caller) → s.caller ≡ c → IsSound n (caller_at n r c s)
  unfolding caller_at
  caller-IsSound (run total min_per_task) idle at =
      elim (Bool-cases (leb (partition_size total min_per_task (pool_size n)) 1)) [
        | inl serial ↦ rw serial sound
        | inr parallel ↦ rw parallel (
            IsSound-quiet s.chunks (s.generation + 1) s.workers_left s.arrived at refl refl (
              Knows-from at,
              refl,
              (count-le n total min_per_task parallel).0,
              (count-le n total min_per_task parallel).1,
            ))
      ]
  caller-IsSound destroy idle at = record {
    stands = λ i lt.
        Fits-close s.generation s.chunks s.job (s.runs s.job (suc i)) i (s.worker i) s.generation
          s.chunks s.job (s.runs s.job (suc i)) (stands_from at i lt);
    knows = refl;
    fresh = sound.fresh;
    few = sound.few;
  }
  caller-IsSound r (job_set count) at =
      let k = Knows-from at in IsSound-quiet count s.job s.workers_left s.arrived at refl refl k
  caller-IsSound r chunks_set at =
      let k = Knows-from at in
      IsSound-quiet s.chunks s.job n s.arrived at refl refl (k.0, k.1, k.2, k.3, refl)
  caller-IsSound r left_set at =
      let k = Knows-from at in
      IsSound-quiet s.chunks s.job s.workers_left 0 at refl refl (k.0, k.1, k.2, k.3, k.4, refl)
  caller-IsSound r prepared at =
      let k = Knows-from at in
      let unseen = λ (i : ℕ) (lt : i < n).
        arrival-publish s.generation s.chunks s.job (s.runs s.job (suc i)) i (s.worker i)
          (stands_from at i lt) in
      record {
        stands = λ i lt.
            Fits-publish s.generation s.chunks s.job (s.runs s.job (suc i)) i (s.worker i)
              (s.runs s.job (suc i)) (sound.fresh s.job (suc i) (omega (arith, k.1)))
              (stands_from at i lt);
        knows = (
          k.0,
          k.1,
          k.2,
          k.3,
          k.4,
          k.5 ∙ sym (arrivals-eq_zero n (s.generation + 1) s.worker unseen),
          sound.fresh s.job 0 (omega (arith, k.1)),
        );
        fresh = λ j c before. sound.fresh j c (omega (arith, before));
        few = sound.few;
      }
  caller-IsSound r published at =
      let k = Knows-from at in
      record {
        stands = λ i lt.
            let own : log s.runs s.job 0 s.job (suc i) ≡ s.runs s.job (suc i) = ground arith in
            rw own (stands_from at i lt);
        knows = (k.0, k.1, k.2, k.3, k.4, k.5, ground (arith, k.6));
        fresh = λ j c before. ground (arith, k.1, sound.fresh j c before);
        few = λ j c above. ground (arith, sound.few j c above);
      }
  caller-IsSound r running at = record {
    stands = stands_from at;
    knows = Knows-from at;
    fresh = sound.fresh;
    few = sound.few;
  }
  caller-IsSound r waiting at = elim (Bool-cases (s.arrived == s.workers_left)) [
    | inl all ↦
        let k = Knows-from at in
        let arrived = sym k.5 ∙ (==_iff s.arrived s.workers_left).0 all ∙ k.4 in
        rw all (record {
          stands = λ i lt.
              Fits-return s.generation s.chunks s.job (s.runs s.job (suc i)) i (s.worker i)
                (arrival-eq_one n s.generation s.worker arrived i lt) (stands_from at i lt);
          knows = k.0;
          fresh = sound.fresh;
          few = sound.few;
        })
    | inr some_left ↦ rw some_left sound
  ]
  caller-IsSound r stopping at = record {
    stands = λ i lt.
        Fits-closing s.generation s.chunks s.job (s.runs s.job (suc i)) i (s.worker i)
          (s.generation + 1) (stands_from at i lt);
    knows = Knows-from at;
    fresh = λ j c before. sound.fresh j c (omega (arith, before));
    few = sound.few;
  }
  caller-IsSound r (joining next) at = elim (Bool-cases (next == n)) [
    | inl last ↦ rw last (record {
      stands = stands_from at;
      knows = Knows-from at;
      fresh = sound.fresh;
      few = sound.few;
    })
    | inr more ↦ rw more (record {
      stands = stands_from at;
      knows = Knows-from at;
      fresh = sound.fresh;
      few = sound.few;
    })
  ]
  caller-IsSound r destroyed at = sound
