-- ===== src/Runtime/Api/Codes.antt =====
-- The return codes of the entry points that run a pass (src/c_api.cpp).
use pocket_llm.Prelude.{
  ℕ, suc, ◌+◌, ◌≤◌, ◌<◌, ◌≡◌, refl, true, false, List, some, length, ltb, arith,
}
use pocket_llm.Prelude.Int.{pos}
use pocket_llm.Model.KvCache.{Buffer, Shape}
use pocket_llm.Model.Session.{past_context, done, failed, Session, forward}
use pocket_llm.Model.Session.Passes.{IsAt, forward-IsAt, forward-past_context}
use pocket_llm.Runtime.Api.{context_code, put, code_of, forward_values, pocketllm_forward}

module _ {A F : Type 0} (shape : Shape) (fresh written : Buffer A) (values : List F) where
  forward_values-done :
      (s t : Session A) (n : ℕ) (logits : Buffer F)
      → forward shape fresh written s n ≡ done t
      → forward_values shape fresh written values s n logits
        ≡ ((pos (length values), some t), some (put logits values))
  unfolding forward_values
  forward_values-done s t n logits e = rw (e, forward_values) refl

  forward_values-failed :
      (s : Session A) (n : ℕ) (logits : Buffer F)
      → forward shape fresh written s n ≡ failed past_context
      → forward_values shape fresh written values s n logits ≡ ((context_code, some s), some logits)
  unfolding forward_values code_of
  forward_values-failed s n logits e = rw (e, forward_values) refl

-- A session in step, some tokens, and an array with room for the logits: where the tokens fit the context,
-- the call returns the size of the vocabulary, with the logits in the array and the session behind the
-- tokens. Where they do not, it returns the code of the context, and nothing has changed.
pub pocketllm_forward-IsAt :
    {A F : Type 0} (shape : Shape) (fresh written : Buffer A) (values : List F) (s : Session A)
    (n len room : ℕ) (logits : Buffer F)
    → IsAt s len
    → length values ≤ suc room
    → (len + suc n ≤ shape.context
        → (t : Session A) × (pocketllm_forward shape fresh written values
              (some s)
              true
              (pos (suc n))
              (some logits)
              (pos (suc room))
            ≡ ((pos (length values), some t), some (put logits values)))
          × IsAt t (len + suc n))
      × (shape.context < len + suc n
          → pocketllm_forward shape fresh written values
              (some s)
              true
              (pos (suc n))
              (some logits)
              (pos (suc room))
            ≡ ((context_code, some s), some logits))
unfolding pocketllm_forward
pocketllm_forward-IsAt shape fresh written values s n len room logits at h =
    let enough : ltb (suc room) (length values) ≡ false = ground arith in
    (
      λ fits.
          let (t, e, at') = forward-IsAt shape fresh written s (suc n) len at (omega arith) fits in
          let ran = forward_values-done shape fresh written values s t (suc n) logits e in
          (t, ground (arith, at.model, enough, ran), at'),
      λ past.
          let e = forward-past_context shape fresh written s (suc n) len at (omega arith) past in
          let refused = forward_values-failed shape fresh written values s (suc n) logits e in
          ground (arith, at.model, enough, refused),
    )
