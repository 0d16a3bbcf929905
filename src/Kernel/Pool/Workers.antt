-- ===== src/Kernel/Pool/Workers.antt =====
-- A worker's access keeps the pool sound (src/kernel/parallel.h).
use pocket_llm.Prelude.{
  ℕ, suc, ◌+◌, ◌<◌, ◌≡◌, refl, sym, ◌∙◌, inl, inr, true, false, ◌==◌, ltb, if◌then◌else◌, arith,
  Bool-cases, ==_iff, ltb→lt,
}
use mathlib.Core.Path.{subst}
use pocket_llm.Kernel.Pool.{
  Worker, spin, paused, woken, taking, ready, in_body, leaving, exited, Caller, idle, job_set,
  chunks_set, left_set, prepared, published, running, waiting, stopping, joining, destroyed, Pool,
  update, log, move_to, worker_at,
}
use pocket_llm.Kernel.Pool.Invariant.{
  Phase, quiet, active, closing, phase_of, Fits, arrival, arrivals, Knows, IsSound,
}
use pocket_llm.Kernel.Pool.Moves.{
  counted, IsSound-move, Counts-same, Counts-arrives, Counts-closing, stop_of, Fits-woken,
  Fits-paused, Fits-spin, Fits-leaving, Fits-done, Fits-arrived, Fits-taking, Fits-ready,
  Fits-exited,
}

-- The call of the body.
module _ (n i seen : ℕ) {s : Pool} (lt : i < n) (sound : IsSound n s) where
  in_call : Pool
  in_call = record s {
    worker = update s.worker i (in_body seen s.job (suc i));
    runs = log s.runs s.job (suc i);
  }

  counted_call :
      s.worker i ≡ ready seen
      → s.arrived ≡ arrivals n s.generation s.worker
      → s.arrived ≡ arrivals n s.generation (update s.worker i (in_body seen s.job (suc i)))
  counted_call at h = counted n i s.arrived (in_body seen s.job (suc i)) s lt (rw at refl) h

  Knows-call :
      (c : Caller)
      → s.worker i ≡ ready seen
      → phase_of c ≡ active
      → Knows n c s
      → Knows n c in_call × (s.job ≡ s.generation)
  unfolding in_call
  Knows-call published at p k =
      ((k.0, k.1, k.2, k.3, k.4, counted_call at k.5, ground (arith, k.6)), k.1)
  Knows-call running at p k =
      ((k.0, k.1, k.2, k.3, k.4, counted_call at k.5, ground (arith, k.6)), k.1)
  Knows-call waiting at p k =
      ((k.0, k.1, k.2, k.3, k.4, counted_call at k.5, ground (arith, k.6)), k.1)
  Knows-call idle at p k = cc
  Knows-call (job_set _) at p k = cc
  Knows-call chunks_set at p k = cc
  Knows-call left_set at p k = cc
  Knows-call prepared at p k = cc
  Knows-call stopping at p k = cc
  Knows-call (joining _) at p k = cc
  Knows-call destroyed at p k = cc

  own_call :
      (p : Phase)
      → p ≡ active
      → ltb (suc i) s.chunks ≡ true
      → Fits p s.generation s.chunks s.job (s.runs s.job (suc i)) i (ready seen)
      → Fits p s.generation s.chunks s.job
          (log s.runs s.job (suc i) s.job (suc i))
          i
          (in_body seen s.job (suc i))
  own_call active p e h = (h.0, refl, refl, ltb→lt _ _ e, ground (arith, h.1))
  own_call quiet p e h = cc
  own_call closing p e h = cc

  other_call :
      (j : ℕ) → (j == i) ≡ false → log s.runs s.job (suc i) s.job (suc j) ≡ s.runs s.job (suc j)
  other_call j e = ground arith

  IsSound-call :
      s.worker i ≡ ready seen
      → phase_of s.caller ≡ active
      → ltb (suc i) s.chunks ≡ true
      → IsSound n in_call
  unfolding in_call
  IsSound-call at p e =
      let (known, named) = Knows-call s.caller at p sound.knows in
      record {
        stands = λ j lt'. elim (Bool-cases (j == i)) [
          | inl same ↦ rw same (
              subst
                (λ k.
                  Fits (phase_of s.caller) s.generation s.chunks s.job
                    (log s.runs s.job (suc i) s.job (suc k)) k (in_body seen s.job (suc i)))
                (sym ((==_iff j i).0 same))
                (own_call (phase_of s.caller) p e (
                  subst
                    (Fits (phase_of s.caller) s.generation s.chunks s.job (s.runs s.job (suc i)) i)
                    at (sound.stands i lt))))
          | inr other ↦ rw (other, other_call j other) (sound.stands j lt')
        ];
        knows = known;
        fresh = λ j c before. ground (arith, named, sound.fresh j c before);
        few = λ j c above. ground (arith, sound.few j c above);
      }

active_of_ready :
    (p : Phase) (generation chunks job count i seen : ℕ)
    → Fits p generation chunks job count i (ready seen)
    → p ≡ active
active_of_ready quiet generation chunks job count i seen h = elim h [ ]
active_of_ready active generation chunks job count i seen h = refl
active_of_ready closing generation chunks job count i seen h = elim h [ ]

-- Any access of a worker.
module _ (n i : ℕ) {s : Pool} (lt : i < n) (sound : IsSound n s) where
  FitsHere : Worker → Type 0
  FitsHere w = Fits (phase_of s.caller) s.generation s.chunks s.job (s.runs s.job (suc i)) i w

  stands_at : {w : Worker} → s.worker i ≡ w → FitsHere w
  unfolding FitsHere
  stands_at at = subst FitsHere at (sound.stands i lt)

  -- A move that leaves the arrivals alone.
  moves :
      {w : Worker} (w' : Worker)
      → s.worker i ≡ w
      → arrival s.generation w ≡ arrival s.generation w'
      → FitsHere w'
      → IsSound n (move_to s i w')
  unfolding FitsHere
  moves {w} w' at e h =
      IsSound-move n i s.arrived w' lt sound h
        (rw at (Counts-same (phase_of s.caller) s.generation s.arrived w w' e))

  -- The test of `stop_` sends a worker out.
  stops : (w : Worker) → s.stop ≡ true → IsSound n (move_to s i (if s.stop then exited else w))
  stops w stopped =
      let closed = sym (stop_of n s s.caller sound.knows) ∙ stopped in
      subst (λ b. IsSound n (move_to s i (if b then exited else w))) (sym stopped)
        (IsSound-move n i s.arrived exited lt sound
          (Fits-exited s.generation s.chunks s.job _ i (phase_of s.caller) closed)
          (Counts-closing (phase_of s.caller) s.generation s.arrived (s.worker i) exited closed))

  pub worker-IsSound : (w : Worker) → s.worker i ≡ w → IsSound n (worker_at i w s)
  unfolding worker_at FitsHere in_call
  worker-IsSound (spin seen) at = elim (Bool-cases (s.generation == seen)) [
    | inl same ↦ rw same (
        moves (paused seen) at refl
          (Fits-paused s.generation s.chunks s.job _ i seen (phase_of s.caller) (stands_at at)))
    | inr other ↦ rw other (
        moves woken at (ground arith) (
          Fits-woken s.generation s.chunks s.job _ i seen (phase_of s.caller) other (stands_at at)))
  ]
  worker-IsSound (paused seen) at = elim (Bool-cases s.stop) [
    | inl stopped ↦ stops (spin seen) stopped
    | inr goes ↦
        subst (λ b. IsSound n (move_to s i (if b then exited else spin seen))) (sym goes)
          (moves (spin seen) at refl
            (Fits-spin s.generation s.chunks s.job _ i seen (phase_of s.caller) (stands_at at)))
  ]
  worker-IsSound woken at = elim (Bool-cases s.stop) [
    | inl stopped ↦ stops taking stopped
    | inr goes ↦
        subst (λ b. IsSound n (move_to s i (if b then exited else taking))) (sym goes)
          (moves taking at refl (
            Fits-taking s.generation s.chunks s.job _ i (phase_of s.caller)
              (sym (stop_of n s s.caller sound.knows) ∙ goes) (stands_at at)))
  ]
  worker-IsSound taking at =
      moves (ready s.generation) at refl
        (Fits-ready s.generation s.chunks s.job _ i (phase_of s.caller) (stands_at at))
  worker-IsSound (ready seen) at = elim (Bool-cases (ltb (suc i) s.chunks)) [
    | inl own ↦ rw own (
        IsSound-call n i seen lt sound at
          (active_of_ready (phase_of s.caller) _ _ _ _ i seen (stands_at at)) own)
    | inr none_left ↦ rw none_left (
        moves (leaving seen) at refl (
          Fits-leaving s.generation s.chunks s.job _ i seen (phase_of s.caller) none_left
            (stands_at at)))
  ]
  worker-IsSound (in_body seen j chunk) at =
      moves (leaving seen) at refl
        (Fits-done s.generation s.chunks s.job _ i seen (phase_of s.caller) j chunk (stands_at at))
  worker-IsSound (leaving seen) at =
      IsSound-move n i (s.arrived + 1) (spin seen) lt sound
        (Fits-arrived s.generation s.chunks s.job _ i seen (phase_of s.caller) (stands_at at))
        (rw at (
          Counts-arrives (phase_of s.caller) s.generation s.chunks s.job _ i s.arrived seen
            (stands_at at)))
  worker-IsSound exited at = sound
