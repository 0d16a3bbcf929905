-- ===== src/Runtime/Asr/Greedy.antt =====
-- The answer that `generate` produces.
use mathlib.Core.Path.{subst}
use pocket_llm.Prelude.{
  ℕ, zero, suc, ◌+◌, ◌-◌, ◌≤◌, ◌≡◌, ◌≢◌, refl, ap, ◌∙◌, Bool, true, false, List, [], ◌∷◌, ◌++◌,
  Option, some, Bytes, length, ◌==◌, Bool-cases, inl, inr, append_assoc, arith,
}
use pocket_llm.Prelude.Int.{ℤ}
use pocket_llm.Tokenizer.Unicode.{UnicodeData}
use pocket_llm.Tokenizer.Load.{Tokenizer}
use pocket_llm.Model.KvCache.{Shape, KvCache}
use pocket_llm.Model.Session.{Session}
use pocket_llm.Model.Session.Passes.{IsAt, forward-IsAt}
use pocket_llm.Runtime.Argmax.{argmax}
use pocket_llm.Runtime.Prompt.{sides, split_prompt, sides_of, Passes, returned}
use pocket_llm.Runtime.Audio.{frontend_params, audio_window_count}
use pocket_llm.Runtime.Audio.Rows.{audio_rows}
use pocket_llm.Runtime.Asr.{audio_start, audio_end, generate_loop, generate, is_eos, eos_of}
use pocket_llm.Runtime.Asr.Spans.{compose-IsAt}

-- An answer of at most `room` ids, which are the choices of the passes from `call` on. It ends with the
-- end-of-text id, or where there is no more room, and holds no such id before its end.
pub data IsAnswer {F : Type 0} (gt : F → F → Bool) (logits : ℕ → List F) (eos : ℤ)
    : (room call : ℕ) → List ℕ → Type 0 where
  full :
      {call next : ℕ} → argmax gt (logits call) ≡ next → IsAnswer gt logits eos 1 call (next ∷ [])
  ended :
      {room call next : ℕ}
      → argmax gt (logits call) ≡ next
      → is_eos eos next ≡ true
      → IsAnswer gt logits eos (suc (suc room)) call (next ∷ [])
  longer :
      {room call next : ℕ} {answer : List ℕ}
      → argmax gt (logits call) ≡ next
      → is_eos eos next ≡ false
      → IsAnswer gt logits eos (suc room) (call + 1) answer
      → IsAnswer gt logits eos (suc (suc room)) call (next ∷ answer)

-- An answer has an id, and no more than there is room for.
pub IsAnswer-length :
    {F : Type 0} (gt : F → F → Bool) (logits : ℕ → List F) (eos : ℤ) (room call : ℕ)
    (answer : List ℕ)
    → IsAnswer gt logits eos room call answer
    → (1 ≤ length answer) × (length answer ≤ room)
IsAnswer-length gt logits eos _ _ _ (full _) = (omega arith, omega arith)
IsAnswer-length gt logits eos _ _ _ (ended _ _) = (omega arith, omega arith)
IsAnswer-length gt logits eos (suc (suc room)) call (next ∷ answer) (longer _ _ a) =
    let (some_ids, fits) = IsAnswer-length gt logits eos (suc room) (call + 1) answer a in
    (omega arith, omega arith)

-- What a call comes to from a session that holds `len` positions: the ids that it adds and the session
-- behind them, which holds all of them but the last.
pub record Answers {A F : Type 0} (gt : F → F → Bool) (logits : ℕ → List F) (eos : ℤ)
    (room call len : ℕ) (t : Session A) (answer : List ℕ) : Type 0 where
  pub greedy : IsAnswer gt logits eos room call answer
  pub behind : IsAt t (len + (length answer - 1))

module _ {A F : Type 0} (gt : F → F → Bool) (shape : Shape) (passes : Passes A F) (eos : ℤ) where
  -- The loop behind the pass `call`, whose choice is the last of the produced ids.
  generate_loop-Answers :
      (steps call next len : ℕ) (produced : List ℕ) (s : Session A)
      → argmax gt (passes.logits call) ≡ next
      → IsAt s len
      → len + steps ≤ shape.context
      → (t : Session A) × (answer : List ℕ) × (generate_loop gt shape passes eos steps
            (call + 1)
            next
            (produced ++ next ∷ [])
            s
          ≡ (t, returned (produced ++ answer)))
        × Answers gt passes.logits eos (suc steps) call len t answer
  unfolding generate_loop
  generate_loop-Answers zero call next len produced s chosen at fits = (
    s,
    next ∷ [],
    refl,
    record { greedy = full chosen; behind = subst (IsAt s) (omega arith) at },
  )
  generate_loop-Answers (suc steps) call next len produced s chosen at fits =
      elim (Bool-cases (is_eos eos next)) [
        | inl e ↦ (
          s,
          next ∷ [],
          rw e refl,
          record { greedy = ended chosen e; behind = subst (IsAt s) (omega arith) at },
        )
        | inr e ↦
            let (t, ran, at') =
              forward-IsAt shape (passes.fresh (call + 1)) (passes.written (call + 1)) s 1 len at
                (omega arith) (omega arith) in
            let (v, answer, looped, a) =
              generate_loop-Answers steps (call + 1) (argmax gt (passes.logits (call + 1)))
                (len + 1) (produced ++ next ∷ []) t refl at' (omega arith) in
            let (some_ids, _) =
              IsAnswer-length gt passes.logits eos (suc steps) (call + 1) answer a.greedy in
            (
              v,
              next ∷ answer,
              rw (e, ran)
                  (looped
                    ∙ ap (λ ids. (v, returned ids)) (append_assoc produced (next ∷ []) answer)),
              record {
                greedy = longer chosen e a.greedy;
                behind = subst (IsAt v) (omega arith) a.behind;
              },
            )
      ]

-- Where the composition goes through, its pass hands back logits, and there is also room for the tokens that
-- may be asked for, `generate` returns an answer of one id or more and `max_tokens` at most: each id is
-- the choice of its pass, and it ends at the first end-of-text id or at the limit. The session holds the
-- prompt, the recording and all of the answer but its last id.
pub generate-Answers :
    {A F : Type 0} (gt : F → F → Bool) (shape : Shape) (passes : Passes A F) (u : UnicodeData)
    (tokenizer : Option Tokenizer) (prompt : Bytes) (before after : List ℕ)
    (n_samples max_tokens : ℕ) (s : Session A) (kv : KvCache A)
    → s.model ≡ some kv
    → sides_of u audio_start audio_end (split_prompt tokenizer prompt) ≡ sides before after
    → n_samples ≢ 0
    → max_tokens ≢ 0
    → length (passes.logits (audio_window_count n_samples frontend_params + 1)) ≢ 0
    → length before + audio_rows n_samples + length after + (max_tokens - 1) ≤ shape.context
    → (t : Session A) × (answer : List ℕ) × (generate gt shape passes frontend_params u tokenizer
          prompt true n_samples max_tokens s
        ≡ (t, returned answer))
      × Answers gt passes.logits
          (eos_of tokenizer)
          max_tokens
          (audio_window_count n_samples frontend_params + 1)
          (length before + audio_rows n_samples + length after)
          t
          answer
unfolding generate
generate-Answers gt shape passes u tokenizer prompt before after n_samples max_tokens s kv m split h
      some_tokens some_logits fits =
    let call = audio_window_count n_samples frontend_params + 1 in
    let total = length before + audio_rows n_samples + length after in
    let (t, e, at) =
      compose-IsAt shape passes u tokenizer prompt before after n_samples s kv m split h
        (omega arith) in
    let (v, answer, looped, a) =
      generate_loop-Answers gt shape passes (eos_of tokenizer) (max_tokens - 1) call
        (argmax gt (passes.logits call)) total [] t refl at (omega arith) in
    let room : suc (max_tokens - 1) ≡ max_tokens = omega arith in
    let handed : (length (passes.logits call) == 0) ≡ false = ground arith in
    let asked : (max_tokens == 0) ≡ false = ground arith in
    let numbered : audio_window_count n_samples frontend_params + 2 ≡ call + 1 = omega arith in
    (
      v,
      answer,
      rw (e, handed, asked, numbered) looped,
      subst (λ r. Answers gt passes.logits (eos_of tokenizer) r call total v answer) room a,
    )
