-- ===== src/Model/Session.antt =====
-- The position of a session (src/runtime/session.cpp) beside the lengths that the text model keeps
-- (`forward` and `forward_batch` of src/model/qwen3.cpp). What a pass computes and writes into the slabs is
-- not modelled: `written` is what they hold behind it.
mod Position
pub mod Passes
mod Tests
use pocket_llm.Prelude.{
  ℕ, zero, suc, ◌+◌, ◌≤◌, ◌<◌, ◌≡◌, Bool, true, false, not, ◌&&◌, ◌||◌, List, [], ◌∷◌, ◌++◌, Option,
  none, some, ltb, leb, ◌==◌, if◌then◌else◌, max,
}
use pocket_llm.Model.KvCache.{
  Buffer, Shape, KvCache, Reserved, refused, context_length_error, endless, reserved, ensure_kv,
  reset, reserve, cache_length,
}

pub data Failure : Type 0 where
  no_graph wrong_position no_tokens no_sequences past_context no_end bad_reservation no_sections :
      Failure

pub data Outcome {ℓ} (A : Type ℓ) : Type ℓ where
  done : A → Outcome A
  failed : Failure → Outcome A

-- `position_` and `model_`, which is `none` for an architecture without a graph.
pub record Session {ℓ} (A : Type ℓ) : Type ℓ where
  pub position : ℕ
  pub model : Option (KvCache A)

-- The first loop of `forward_impl`: every sequence has tokens, and none goes past the context. It gives
-- the furthest end.
unfoldable pub check_batch : ℕ → List ℕ → List ℕ → ℕ → Outcome ℕ
check_batch context (n ∷ counts) (start ∷ starts) max_end =
    let rest =
      check_batch context counts starts (if ltb max_end (start + n) then start + n else max_end) in
    if n == 0
    then failed no_tokens
    else if ltb context (start + n)
    then failed past_context
    else rest
check_batch context _ _ max_end = done max_end

-- The lengths behind a pass.
unfoldable pub lengths_after : List ℕ → List ℕ → List ℕ
lengths_after (n ∷ counts) (start ∷ starts) = (start + n) ∷ lengths_after counts starts
lengths_after _ _ = []

-- Where each of `n_seq` sequences continues; one that the cache has not seen starts at 0.
unfoldable pub starts_of : List ℕ → ℕ → List ℕ
starts_of lengths zero = []
starts_of [] (suc n_seq) = 0 ∷ starts_of [] n_seq
starts_of (n ∷ lengths) (suc n_seq) = n ∷ starts_of lengths n_seq

-- Whether the caller passes positions, or a null pointer.
abbrev pub is_given : Option (List ℕ) → Bool
is_given none = false
is_given (some _) = true

abbrev size : List ℕ → ℕ
size [] = 0
size (n ∷ counts) = suc (size counts)

module _ {ℓ} {A : Type ℓ} where
  -- `position_ = model_->cache_length()` behind a pass that returns.
  abbrev pub follow : Outcome (KvCache A) → Outcome (Session A)
  follow (failed f) = failed f
  follow (done kv) = done (record { position = cache_length kv; model = some kv })

  -- `position_ = 0` behind a reservation that returns.
  unfoldable pub after_reserve : Reserved A → Outcome (Session A)
  after_reserve refused = failed bad_reservation
  after_reserve context_length_error = failed past_context
  after_reserve endless = failed no_end
  after_reserve (reserved kv) = done (record { position = 0; model = some kv })

  -- `Session::cache_length`
  abbrev pub session_length : Session A → ℕ
  session_length s = elim s.model [ none ↦ 0 | some kv ↦ cache_length kv ]

  -- `Session::reset`
  unfoldable pub session_reset : Session A → Session A
  session_reset s = record {
    position = 0;
    model = elim s.model [ none ↦ none | some kv ↦ some (reset kv) ];
  }

module _ {ℓ} {A : Type ℓ} (shape : Shape) (fresh written : Buffer A) where
  -- `forward_impl`: the checks, the growth of the slabs, and the new lengths.
  unfoldable pub forward_impl : KvCache A → List ℕ → List ℕ → Outcome (KvCache A)
  forward_impl kv counts starts = elim (check_batch shape.context counts starts 0) [
    | failed f ↦ failed f
    | done max_end ↦ elim (ensure_kv shape fresh kv max_end (size counts)) [
      | none ↦ failed no_end
      | some grown ↦
          done (record grown { cache = some written; seq_len = lengths_after counts starts })
    ]
  ]

  -- `Qwen3Model::forward` and `Qwen3Model::forward_positions`, which share the check of the position.
  unfoldable pub model_forward : KvCache A → ℕ → ℕ → Outcome (KvCache A)
  model_forward kv n start =
      if start == cache_length kv
      then forward_impl kv (n ∷ []) (start ∷ [])
      else failed wrong_position

  -- `Qwen3Model::forward_embeddings`. Without sections the positions are those of the
  -- cache.
  unfoldable pub model_forward_embeddings :
      KvCache A → Option (List ℕ) → ℕ → ℕ → Outcome (KvCache A)
  model_forward_embeddings kv positions n start =
      if start == cache_length kv
      then if is_given positions && shape.rope_sections == 0
        then failed no_sections
        else forward_impl kv (n ∷ []) (start ∷ [])
      else failed wrong_position

  unfoldable pub model_forward_batch : KvCache A → List ℕ → Outcome (KvCache A)
  model_forward_batch kv [] = failed no_sequences
  model_forward_batch kv (n ∷ counts) =
      forward_impl kv (n ∷ counts) (starts_of kv.seq_len (size (n ∷ counts)))

  -- `Session::forward`
  unfoldable pub forward : Session A → ℕ → Outcome (Session A)
  forward s n = elim s.model [
    | none ↦ failed no_graph
    | some kv ↦ follow (model_forward kv n s.position)
  ]

  -- `Session::forward_positions`, whose positions and start the caller names.
  unfoldable pub forward_positions : Session A → List ℕ → ℕ → ℕ → Outcome (Session A)
  forward_positions s positions n start = elim s.model [
    | none ↦ failed no_graph
    | some kv ↦ follow (model_forward kv n start)
  ]

  -- `Session::forward_embeddings`
  unfoldable pub forward_embeddings : Session A → Option (List ℕ) → ℕ → ℕ → Outcome (Session A)
  forward_embeddings s positions n start = elim s.model [
    | none ↦ failed no_graph
    | some kv ↦ follow (model_forward_embeddings kv positions n start)
  ]

  -- `Session::forward_batch`
  unfoldable pub forward_batch : Session A → List ℕ → Outcome (Session A)
  forward_batch s counts = elim s.model [
    | none ↦ failed no_graph
    | some kv ↦ follow (model_forward_batch kv counts)
  ]

  -- `Session::reserve`
  unfoldable pub session_reserve : Session A → ℕ → ℕ → Outcome (Session A)
  session_reserve s positions slots = elim s.model [
    | none ↦ failed no_graph
    | some kv ↦ after_reserve (reserve shape fresh kv positions slots)
  ]
