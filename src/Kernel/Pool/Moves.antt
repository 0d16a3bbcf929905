-- ===== src/Kernel/Pool/Moves.antt =====
-- What a worker's move keeps (src/kernel/parallel.h).
use pocket_llm.Prelude.{
  ℕ, suc, ◌+◌, ◌<◌, ◌≡◌, refl, sym, ap, ◌∙◌, inl, inr, Bool, true, false, ◌==◌, ltb, arith,
  Bool-cases, ==_iff,
}
use mathlib.Core.Path.{subst}
use pocket_llm.Kernel.Pool.{
  Worker, spin, paused, woken, taking, ready, in_body, leaving, exited, Caller, idle, job_set,
  chunks_set, left_set, prepared, published, running, waiting, stopping, joining, destroyed, Pool,
  update,
}
use pocket_llm.Kernel.Pool.Invariant.{
  Phase, quiet, active, closing, phase_of, Fits, arrival, arrivals, Knows, IsSound, arrivals-update,
}

-- What a move may do to the count of the arrivals.
abbrev pub Counts : Phase → (generation before after : ℕ) → Worker → Worker → Type 0
Counts active generation before after w w' =
    after + arrival generation w ≡ before + arrival generation w'
Counts _ generation before after w w' = after ≡ before

pub counted :
    (n i a : ℕ) (w : Worker) (s : Pool)
    → i < n
    → Counts active s.generation s.arrived a (s.worker i) w
    → s.arrived ≡ arrivals n s.generation s.worker
    → a ≡ arrivals n s.generation (update s.worker i w)
counted n i a w s lt e h = omega (arith, e, h, arrivals-update n s.generation s.worker i w lt)

pub Knows-move :
    (n i a : ℕ) (w : Worker) (s : Pool) (c : Caller)
    → i < n
    → Counts (phase_of c) s.generation s.arrived a (s.worker i) w
    → Knows n c s
    → Knows n c (record s { worker = update s.worker i w; arrived = a })
Knows-move n i a w s idle lt e k = k
Knows-move n i a w s (job_set _) lt e k = k
Knows-move n i a w s chunks_set lt e k = k
Knows-move n i a w s left_set lt e k = k
Knows-move n i a w s prepared lt e k = (k.0, k.1, k.2, k.3, k.4, e ∙ k.5)
Knows-move n i a w s published lt e k = (k.0, k.1, k.2, k.3, k.4, counted n i a w s lt e k.5, k.6)
Knows-move n i a w s running lt e k = (k.0, k.1, k.2, k.3, k.4, counted n i a w s lt e k.5, k.6)
Knows-move n i a w s waiting lt e k = (k.0, k.1, k.2, k.3, k.4, counted n i a w s lt e k.5, k.6)
Knows-move n i a w s stopping lt e k = k
Knows-move n i a w s (joining _) lt e k = k
Knows-move n i a w s destroyed lt e k = k

-- A move that calls no body.
pub IsSound-move :
    (n i a : ℕ) (w : Worker) {s : Pool}
    → i < n
    → IsSound n s
    → Fits (phase_of s.caller) s.generation s.chunks s.job (s.runs s.job (suc i)) i w
    → Counts (phase_of s.caller) s.generation s.arrived a (s.worker i) w
    → IsSound n (record s { worker = update s.worker i w; arrived = a })
IsSound-move n i a w {s} lt sound fits e = record {
  stands = λ j lt'. elim (Bool-cases (j == i)) [
    | inl same ↦ rw same (
        subst (λ k. Fits (phase_of s.caller) s.generation s.chunks s.job (s.runs s.job (suc k)) k w)
          (sym ((==_iff j i).0 same)) fits)
    | inr other ↦ rw other (sound.stands j lt')
  ];
  knows = Knows-move n i a w s s.caller lt e sound.knows;
  fresh = sound.fresh;
  few = sound.few;
}

pub Counts-same :
    (p : Phase) (generation a : ℕ) (w w' : Worker)
    → arrival generation w ≡ arrival generation w'
    → Counts p generation a a w w'
Counts-same quiet generation a w w' e = refl
Counts-same active generation a w w' e = ap (λ x. a + x) e
Counts-same closing generation a w w' e = refl

pub Counts-arrives :
    (p : Phase) (generation chunks job count i a seen : ℕ)
    → Fits p generation chunks job count i (leaving seen)
    → Counts p generation a (a + 1) (leaving seen) (spin seen)
Counts-arrives quiet generation chunks job count i a seen h = elim h [ ]
Counts-arrives active generation chunks job count i a seen h = ground arith
Counts-arrives closing generation chunks job count i a seen h = elim h [ ]

abbrev pub is_closing : Phase → Bool
is_closing closing = true
is_closing _ = false

pub Counts-closing :
    (p : Phase) (generation a : ℕ) (w w' : Worker)
    → is_closing p ≡ true
    → Counts p generation a a w w'
Counts-closing quiet generation a w w' e = refl
Counts-closing active generation a w w' e = cc
Counts-closing closing generation a w w' e = refl

-- The destructor's flag tells the phase.
pub stop_of : (n : ℕ) (s : Pool) (c : Caller) → Knows n c s → s.stop ≡ is_closing (phase_of c)
stop_of n s idle k = k
stop_of n s (job_set _) k = k.0
stop_of n s chunks_set k = k.0
stop_of n s left_set k = k.0
stop_of n s prepared k = k.0
stop_of n s published k = k.0
stop_of n s running k = k.0
stop_of n s waiting k = k.0
stop_of n s stopping k = k
stop_of n s (joining _) k = k
stop_of n s destroyed k = k

-- Where a worker goes on to, in each phase.
module _ (generation chunks job count i seen : ℕ) where
  pub Fits-woken :
      (p : Phase)
      → (generation == seen) ≡ false
      → Fits p generation chunks job count i (spin seen)
      → Fits p generation chunks job count i woken
  Fits-woken quiet e h = ground arith
  Fits-woken active e h = ground arith
  Fits-woken closing e h = tt

  pub Fits-paused :
      (p : Phase)
      → Fits p generation chunks job count i (spin seen)
      → Fits p generation chunks job count i (paused seen)
  Fits-paused quiet h = h
  Fits-paused active h = h
  Fits-paused closing h = h

  pub Fits-spin :
      (p : Phase)
      → Fits p generation chunks job count i (paused seen)
      → Fits p generation chunks job count i (spin seen)
  Fits-spin quiet h = h
  Fits-spin active h = h
  Fits-spin closing h = h

  pub Fits-leaving :
      (p : Phase)
      → ltb (suc i) chunks ≡ false
      → Fits p generation chunks job count i (ready seen)
      → Fits p generation chunks job count i (leaving seen)
  Fits-leaving active e h = ground arith
  Fits-leaving quiet e h = h
  Fits-leaving closing e h = h

  pub Fits-done :
      (p : Phase) (j chunk : ℕ)
      → Fits p generation chunks job count i (in_body seen j chunk)
      → Fits p generation chunks job count i (leaving seen)
  Fits-done active j chunk h = ground arith
  Fits-done quiet j chunk h = h
  Fits-done closing j chunk h = h

  pub Fits-arrived :
      (p : Phase)
      → Fits p generation chunks job count i (leaving seen)
      → Fits p generation chunks job count i (spin seen)
  Fits-arrived active h = inl h
  Fits-arrived quiet h = elim h [ ]
  Fits-arrived closing h = tt

module _ (generation chunks job count i : ℕ) where
  pub Fits-exited : (p : Phase) → is_closing p ≡ true → Fits p generation chunks job count i exited
  Fits-exited quiet e = cc
  Fits-exited active e = cc
  Fits-exited closing e = tt

  pub Fits-taking :
      (p : Phase)
      → is_closing p ≡ false
      → Fits p generation chunks job count i woken
      → Fits p generation chunks job count i taking
  Fits-taking quiet e h = h
  Fits-taking active e h = h
  Fits-taking closing e h = cc

  pub Fits-ready :
      (p : Phase)
      → Fits p generation chunks job count i taking
      → Fits p generation chunks job count i (ready generation)
  Fits-ready quiet h = h
  Fits-ready active h = (refl, h)
  Fits-ready closing h = h
