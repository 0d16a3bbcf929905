-- ===== src/Model/Session/Position.antt =====
-- The position of a session and the length of its cache (src/runtime/session.cpp).
use mathlib.Core.Path.{subst}
use pocket_llm.Prelude.{ℕ, Option, ◌≡◌, ◌≢◌, refl, List, none, some, Option-cases, inl, inr, arith}
use pocket_llm.Model.KvCache.{
  Buffer, Shape, KvCache, Reserved, reserved, reset, reserve, cache_length,
}
use pocket_llm.Model.Session.{
  wrong_position, Outcome, done, failed, Session, model_forward, model_forward_batch, follow,
  forward, forward_positions, forward_embeddings, model_forward_embeddings, forward_batch,
  session_reserve, after_reserve, session_reset,
}

-- The position is the length of the cache.
abbrev pub InStep {ℓ} : {A : Type ℓ} → Session A → Type 0
InStep s = elim s.model [ none ↦ Unit {0} | some kv ↦ s.position ≡ cache_length kv ]

-- The calls that a caller makes, one after the other, each of which returned; a reservation is not one.
pub data Reaches {ℓ} {A : Type ℓ} (shape : Shape) : Session A → Session A → Type ℓ where
  start : (s : Session A) → Reaches shape s s
  ran :
      (fresh written : Buffer A) (s t u : Session A) (n : ℕ)
      → Reaches shape s t
      → forward shape fresh written t n ≡ done u
      → Reaches shape s u
  ran_at :
      (fresh written : Buffer A) (s t u : Session A) (positions : List ℕ) (n from : ℕ)
      → Reaches shape s t
      → forward_positions shape fresh written t positions n from ≡ done u
      → Reaches shape s u
  ran_embeddings :
      (fresh written : Buffer A) (s t u : Session A) (positions : Option (List ℕ)) (n from : ℕ)
      → Reaches shape s t
      → forward_embeddings shape fresh written t positions n from ≡ done u
      → Reaches shape s u
  ran_batch :
      (fresh written : Buffer A) (s t u : Session A) (counts : List ℕ)
      → Reaches shape s t
      → forward_batch shape fresh written t counts ≡ done u
      → Reaches shape s u
  was_reset : (s t : Session A) → Reaches shape s t → Reaches shape s (session_reset t)

follow-InStep {ℓ} :
    {A : Type ℓ} (o : Outcome (KvCache A)) (u : Session A) → follow o ≡ done u → InStep u
follow-InStep (failed f) u e = absurd (cc)
follow-InStep (done kv) u e =
    let same : record { position = cache_length kv; model = some kv } ≡ u = ground (arith, e) in
    subst InStep same refl

module _ {ℓ} {A : Type ℓ} (shape : Shape) (fresh written : Buffer A) where
  forward-InStep : (s u : Session A) (n : ℕ) → forward shape fresh written s n ≡ done u → InStep u
  unfolding forward
  forward-InStep s u n e = elim (Option-cases s.model) [
    | inl m ↦ absurd (ground (arith, e, m))
    | inr (kv, m) ↦
        follow-InStep (model_forward shape fresh written kv n s.position) u (ground (arith, e, m))
  ]

  forward_positions-InStep :
      (s u : Session A) (positions : List ℕ) (n from : ℕ)
      → forward_positions shape fresh written s positions n from ≡ done u
      → InStep u
  unfolding forward_positions
  forward_positions-InStep s u positions n from e = elim (Option-cases s.model) [
    | inl m ↦ absurd (ground (arith, e, m))
    | inr (kv, m) ↦
        follow-InStep (model_forward shape fresh written kv n from) u (ground (arith, e, m))
  ]

  forward_embeddings-InStep :
      (s u : Session A) (positions : Option (List ℕ)) (n from : ℕ)
      → forward_embeddings shape fresh written s positions n from ≡ done u
      → InStep u
  unfolding forward_embeddings
  forward_embeddings-InStep s u positions n from e = elim (Option-cases s.model) [
    | inl m ↦ absurd (ground (arith, e, m))
    | inr (kv, m) ↦
        follow-InStep (model_forward_embeddings shape fresh written kv positions n from) u
          (ground (arith, e, m))
  ]

  forward_batch-InStep :
      (s u : Session A) (counts : List ℕ)
      → forward_batch shape fresh written s counts ≡ done u
      → InStep u
  unfolding forward_batch
  forward_batch-InStep s u counts e = elim (Option-cases s.model) [
    | inl m ↦ absurd (ground (arith, e, m))
    | inr (kv, m) ↦
        follow-InStep (model_forward_batch shape fresh written kv counts) u (ground (arith, e, m))
  ]

session_reset-InStep {ℓ} : {A : Type ℓ} (s : Session A) → InStep (session_reset s)
unfolding session_reset reset cache_length
session_reset-InStep s = elim (Option-cases s.model) [ inl m ↦ rw m tt | inr (kv, m) ↦ rw m refl ]

-- A session whose position is its cache's length stays so through every sequence of passes and resets,
-- passes being single, batched, of embeddings, or at positions that the caller names.
pub Reaches-InStep {ℓ} :
    {A : Type ℓ} (shape : Shape) (s t : Session A) → InStep s → Reaches shape s t → InStep t
Reaches-InStep shape s t h (start _) = h
Reaches-InStep shape s u h (ran fresh written _ t _ n r e) =
    forward-InStep shape fresh written t u n e
Reaches-InStep shape s u h (ran_at fresh written _ t _ positions n from r e) =
    forward_positions-InStep shape fresh written t u positions n from e
Reaches-InStep shape s u h (ran_embeddings fresh written _ t _ positions n from r e) =
    forward_embeddings-InStep shape fresh written t u positions n from e
Reaches-InStep shape s u h (ran_batch fresh written _ t _ counts r e) =
    forward_batch-InStep shape fresh written t u counts e
Reaches-InStep shape s _ h (was_reset _ t r) = session_reset-InStep t

reserve-seq_len {ℓ} :
    {A : Type ℓ} (shape : Shape) (fresh : Buffer A) (kv after : KvCache A) (positions slots : ℕ)
    → reserve shape fresh kv positions slots ≡ reserved after
    → after.seq_len ≡ kv.seq_len
unfolding reserve
reserve-seq_len shape fresh kv after positions slots e = ground (arith, e)

after_reserve-done {ℓ} :
    {A : Type ℓ} (r : Reserved A) (t : Session A)
    → after_reserve r ≡ done t
    → (after : KvCache A) × (r ≡ reserved after)
      × (Path (Session A) (record { position = 0; model = some after }) t)
unfolding after_reserve
after_reserve-done (reserved kv) t e = (kv, refl, ground (arith, e))
after_reserve-done _ t e = absurd (cc)

-- A reservation takes the session out of step: it puts the position to 0 and leaves the lengths that the
-- model keeps, so where the cache was not empty the next `forward` is refused for its position.
pub forward-session_reserve {ℓ} :
    {A : Type ℓ} (shape : Shape) (fresh written : Buffer A) (kv : KvCache A) (t : Session A)
    (p positions slots n : ℕ)
    → cache_length kv ≢ 0
    → session_reserve shape fresh written (record { position = p; model = some kv }) positions slots
      ≡ done t
    → forward shape fresh written t n ≡ failed wrong_position
unfolding forward session_reserve model_forward cache_length
forward-session_reserve shape fresh written kv t p positions slots n h e =
    let (after, r, same) = after_reserve-done (reserve shape fresh kv positions slots) t e in
    let lengths = reserve-seq_len shape fresh kv after positions slots r in
    subst (λ s. forward shape fresh written s n ≡ failed wrong_position) same
      (ground (arith, h, lengths))
