-- ===== src/Runtime/Asr.antt =====
-- `AsrSession::compose` and `AsrSession::generate` of src/runtime/asr_session.cpp. A call hands back the
-- session that it leaves, errors included: what a pass throws, it throws before it changes the session.
-- A vocabulary has fewer than 2 ^ 31 entries, and a negative count stands for 0.
pub mod Spans
pub mod Greedy
use pocket_llm.Prelude.{
  ℕ, zero, suc, ◌+◌, ◌-◌, Bool, true, false, not, ◌&&◌, ◌||◌, List, [], ◌∷◌, ◌++◌, Option, none,
  some, Bytes, codes, length, ◌==◌, if◌then◌else◌,
}
use pocket_llm.Prelude.Int.{ℤ, pos, negsuc}
use pocket_llm.Tokenizer.Unicode.{UnicodeData}
use pocket_llm.Tokenizer.Load.{Tokenizer}
use pocket_llm.Model.KvCache.{Shape}
use pocket_llm.Model.Session.{
  Outcome, done, failed, Session, forward, forward_embeddings, session_reset, session_length,
}
use pocket_llm.Runtime.Argmax.{argmax}
use pocket_llm.Runtime.Prompt.{
  Sides, sides, unusable, no_media, too_short, bad_window, bad_block, split_prompt, sides_of,
  Passes, Ending, returned, refused, chain, pass_of,
}
use pocket_llm.Runtime.Audio.{
  AudioFrontendParams, AudioMel, audio_window_count, audio_log_mel_window, tokens_for_frames,
  takes_block,
}

abbrev pub audio_start : Bytes
audio_start = codes "<|audio_start|>"

abbrev pub audio_end : Bytes
audio_end = codes "<|audio_end|>"

pub record Composition {ℓ} (F : Type ℓ) : Type ℓ where
  pub tokens_before : ℕ
  pub audio_windows : ℕ
  pub tokens_per_window : ℕ
  pub tokens_after : ℕ
  pub positions : ℕ
  pub logits : List F

-- The number of tokens of a block that the tower takes.
unfoldable pub block_tokens : AudioFrontendParams → AudioMel → Option ℕ
block_tokens params mel = elim (tokens_for_frames params mel.n_len) [
  | none ↦ none
  | some tokens ↦ if takes_block params mel then some tokens else none
]

module _ {ℓ ℓ'} {A : Type ℓ} {F : Type ℓ'} (shape : Shape) (passes : Passes A F)
    (params : AudioFrontendParams) where
  -- The span of one window, in pass `window + 1`; with the tokens that it has.
  unfoldable pub run_span : ℕ → ℕ → Session A → Session A × Ending ℕ
  run_span n_samples window s = elim (audio_log_mel_window n_samples params window) [
    | none ↦ (s, refused bad_window)
    | some mel ↦ elim (block_tokens params mel) [
      | none ↦ (s, refused bad_block)
      | some tokens ↦
          chain
            (pass_of s (
              forward_embeddings shape (passes.fresh (window + 1)) (passes.written (window + 1)) s
                none tokens (session_length s)))
            (λ _ t. (t, returned tokens))
    ]
  ]

  -- The loop over the windows, with the tokens of the first.
  unfoldable pub spans_loop : ℕ → ℕ → ℕ → ℕ → Session A → Session A × Ending ℕ
  spans_loop zero n_samples window per_window s = (s, returned per_window)
  spans_loop (suc windows) n_samples window per_window s =
      chain (run_span n_samples window s) (λ tokens.
        spans_loop windows n_samples (window + 1) (if window == 0 then tokens else per_window))

  -- `compose` behind the checks of the prompt: the three parts, from a reset session.
  unfoldable pub compose_sides :
      List ℕ → List ℕ → ℕ → Session A → Session A × Ending (Composition F)
  compose_sides before after n_samples s =
      let windows = audio_window_count n_samples params in
      let last = windows + 1 in
      let empty = session_reset s in
      if windows == 0
      then (s, refused too_short)
      else chain
          (pass_of empty (forward shape (passes.fresh 0) (passes.written 0) empty (length before)))
          (λ _ t. chain (spans_loop windows n_samples 0 0 t) (λ per_window v.
            chain
              (pass_of v (forward shape (passes.fresh last) (passes.written last) v (length after)))
              (λ _ w. (
                w,
                returned (record {
                  tokens_before = length before;
                  audio_windows = windows;
                  tokens_per_window = per_window;
                  tokens_after = length after;
                  positions = session_length w;
                  logits = passes.logits last;
                }),
              ))))

  -- `pcm` says that the samples are no null pointer.
  unfoldable pub compose :
      UnicodeData
      → Option Tokenizer
      → Bytes
      → Bool
      → ℕ
      → Session A
      → Session A × Ending (Composition F)
  compose u tokenizer prompt pcm n_samples s =
      if not pcm || n_samples == 0
      then (s, refused no_media)
      else elim (sides_of u audio_start audio_end (split_prompt tokenizer prompt)) [
        | unusable r ↦ (s, refused r)
        | sides before after ↦ compose_sides before after n_samples s
      ]

-- `eos >= 0 && next == eos`
abbrev pub is_eos : ℤ → ℕ → Bool
is_eos (pos eos) next = next == eos
is_eos (negsuc _) next = false

abbrev pub eos_of : Option Tokenizer → ℤ
eos_of none = negsuc 0
eos_of (some t) = t.special.eos

module _ {ℓ ℓ'} {A : Type ℓ} {F : Type ℓ'} (gt : F → F → Bool) (shape : Shape)
    (passes : Passes A F) where
  -- The steps that are left, from pass `call` on; `next` is the last of the produced ids.
  unfoldable pub generate_loop : ℤ → ℕ → ℕ → ℕ → List ℕ → Session A → Session A × Ending (List ℕ)
  generate_loop eos zero call next produced s = (s, returned produced)
  generate_loop eos (suc steps) call next produced s =
      if is_eos eos next
      then (s, returned produced)
      else chain (pass_of s (forward shape (passes.fresh call) (passes.written call) s 1)) (λ _.
        let best = argmax gt (passes.logits call) in
        generate_loop eos steps (call + 1) best (produced ++ best ∷ []))

  unfoldable pub generate :
      AudioFrontendParams
      → UnicodeData
      → Option Tokenizer
      → Bytes
      → Bool
      → ℕ
      → ℕ
      → Session A
      → Session A × Ending (List ℕ)
  generate params u tokenizer prompt pcm n_samples max_tokens s =
      chain (compose shape passes params u tokenizer prompt pcm n_samples s) (λ first t.
        let next = argmax gt first.logits in
        if length first.logits == 0 || max_tokens == 0
        then (t, returned [])
        else generate_loop (eos_of tokenizer) (max_tokens - 1) (first.audio_windows + 2) next
            (next ∷ []) t)
