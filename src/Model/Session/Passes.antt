-- ===== src/Model/Session/Passes.antt =====
-- The passes of a session that succeed (src/runtime/session.cpp, src/model/qwen3.cpp).

use pocket_llm.Prelude.{
  ℕ, ◌+◌, ◌≤◌, ◌<◌, ◌≡◌, ◌≢◌, refl, sym, ◌∙◌, ◌&&◌, true, false, List, [], ◌∷◌, Option, some, ◌==◌,
  arith,
}
use pocket_llm.Model.KvCache.{Buffer, Shape, KvCache, cache_length, reset}
use pocket_llm.Model.KvCache.Grow.{ensure_kv-some}
use pocket_llm.Model.Session.{
  past_context, is_given, done, failed, Session, check_batch, lengths_after, forward_impl,
  model_forward, model_forward_embeddings, forward, forward_positions, forward_embeddings,
  session_reset, session_length,
}

-- The session has a graph, its cache holds that many positions, and the next one is behind them.
pub record IsAt {ℓ} {A : Type ℓ} (s : Session A) (len : ℕ) : Type ℓ where
  pub cache : KvCache A
  pub model : s.model ≡ some cache
  pub position : s.position ≡ len
  pub length : cache_length cache ≡ len

pub session_reset-IsAt {ℓ} :
    {A : Type ℓ} (s : Session A) (kv : KvCache A) → s.model ≡ some kv → IsAt (session_reset s) 0
unfolding session_reset reset cache_length
session_reset-IsAt s kv m = record {
  cache = reset kv;
  model = rw m refl;
  position = refl;
  length = refl;
}

pub session_length-IsAt {ℓ} :
    {A : Type ℓ} (s : Session A) (len : ℕ) → IsAt s len → session_length s ≡ len
session_length-IsAt s len at = ground (arith, at.model, at.length)

module _ {ℓ} {A : Type ℓ} (shape : Shape) (fresh written : Buffer A) where
  forward_impl-done :
      (kv : KvCache A) (n start : ℕ)
      → n ≢ 0
      → start + n ≤ shape.context
      → (after : KvCache A) × (forward_impl shape fresh written kv (n ∷ []) (start ∷ [])
          ≡ done after)
        × (cache_length after ≡ start + n)
  unfolding forward_impl check_batch lengths_after cache_length
  forward_impl-done kv n start h fits =
      let (grown, e, _, _, _) = ensure_kv-some shape fresh kv (start + n) 1 fits in
      let ends : check_batch shape.context (n ∷ []) (start ∷ []) 0 ≡ done (start + n) =
        ground arith in
      (
        record grown { cache = some written; seq_len = (start + n) ∷ [] },
        rw (ends, e, forward_impl) refl,
        refl,
      )

  model_forward-done :
      (kv : KvCache A) (n start : ℕ)
      → n ≢ 0
      → start ≡ cache_length kv
      → start + n ≤ shape.context
      → (after : KvCache A) × (model_forward shape fresh written kv n start ≡ done after)
        × (cache_length after ≡ start + n)
  unfolding model_forward
  model_forward-done kv n start h at fits =
      let (after, e, len) = forward_impl-done kv n start h fits in (after, ground (arith, e), len)

  model_forward_embeddings-done :
      (kv : KvCache A) (positions : Option (List ℕ)) (n start : ℕ)
      → is_given positions && shape.rope_sections == 0 ≡ false
      → n ≢ 0
      → start ≡ cache_length kv
      → start + n ≤ shape.context
      → (after : KvCache A) × (model_forward_embeddings shape fresh written kv positions n start
          ≡ done after)
        × (cache_length after ≡ start + n)
  unfolding model_forward_embeddings
  model_forward_embeddings-done kv positions n start told h at fits =
      let (after, e, len) = forward_impl-done kv n start h fits in (after, ground (arith, e), len)

  -- A pass over some tokens that fit the context goes through.
  pub forward-IsAt :
      (s : Session A) (n len : ℕ)
      → IsAt s len
      → n ≢ 0
      → len + n ≤ shape.context
      → (t : Session A) × (forward shape fresh written s n ≡ done t) × IsAt t (len + n)
  unfolding forward
  forward-IsAt s n len at h fits =
      let (kv, e, grown) =
        model_forward-done at.cache n s.position h (at.position ∙ sym at.length)
          (ground (arith, at.position)) in
      (
        record { position = cache_length kv; model = some kv },
        rw (at.model, e) refl,
        record {
          cache = kv;
          model = refl;
          position = ground (arith, at.position);
          length = ground (arith, at.position);
        },
      )

  -- The same for tokens at positions that the caller names.
  pub forward_positions-IsAt :
      (s : Session A) (positions : List ℕ) (n len : ℕ)
      → IsAt s len
      → n ≢ 0
      → len + n ≤ shape.context
      → (t : Session A) × (forward_positions shape fresh written s positions n len ≡ done t)
        × IsAt t (len + n)
  unfolding forward_positions
  forward_positions-IsAt s positions n len at h fits =
      let (kv, e, grown) = model_forward-done at.cache n len h (sym at.length) fits in
      (
        record { position = cache_length kv; model = some kv },
        rw (at.model, e) refl,
        record { cache = kv; model = refl; position = grown; length = grown },
      )

  -- And for a span of embeddings, with positions just if the rotary has sections.
  pub forward_embeddings-IsAt :
      (s : Session A) (positions : Option (List ℕ)) (n len : ℕ)
      → IsAt s len
      → is_given positions && shape.rope_sections == 0 ≡ false
      → n ≢ 0
      → len + n ≤ shape.context
      → (t : Session A) × (forward_embeddings shape fresh written s positions n len ≡ done t)
        × IsAt t (len + n)
  unfolding forward_embeddings
  forward_embeddings-IsAt s positions n len at told h fits =
      let (kv, e, grown) =
        model_forward_embeddings-done at.cache positions n len told h (sym at.length) fits in
      (
        record { position = cache_length kv; model = some kv },
        rw (at.model, e) refl,
        record { cache = kv; model = refl; position = grown; length = grown },
      )

  -- One that goes past the context is refused for it.
  pub forward-past_context :
      (s : Session A) (n len : ℕ)
      → IsAt s len
      → n ≢ 0
      → shape.context < len + n
      → forward shape fresh written s n ≡ failed past_context
  unfolding forward model_forward forward_impl check_batch
  forward-past_context s n len at h past =
      let here : (s.position == cache_length at.cache) ≡ true =
        ground (arith, at.position, at.length) in
      let refuses : check_batch shape.context (n ∷ []) (s.position ∷ []) 0 ≡ failed past_context =
        ground (arith, at.position) in
      rw (at.model, model_forward, here, forward_impl, refuses) refl
