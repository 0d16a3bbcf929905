-- ===== src/Runtime/Asr/Spans.antt =====
-- A composition of text and audio that fits the context goes through.
use mathlib.Core.Path.{subst}
use pocket_llm.Prelude.{
  ℕ, zero, suc, ◌+◌, ◌*◌, ◌/◌, ◌≤◌, ◌≡◌, ◌≢◌, refl, sym, true, false, List, Option, none, some,
  Bytes, length, ◌==◌, arith,
}
use pocket_llm.Tokenizer.Unicode.{UnicodeData}
use pocket_llm.Tokenizer.Load.{Tokenizer}
use pocket_llm.Model.KvCache.{Shape, KvCache}
use pocket_llm.Model.Session.{Session, session_reset}
use pocket_llm.Model.Session.Passes.{
  IsAt, session_reset-IsAt, session_length-IsAt, forward-IsAt, forward_embeddings-IsAt,
}
use pocket_llm.Runtime.Prompt.{sides, split_prompt, sides_of, sides_of-some, Passes, returned}
use pocket_llm.Runtime.Audio.{frontend_params, audio_window_count}
use pocket_llm.Runtime.Audio.Rows.{
  audio_rows, frames_of, rows_from, IsTaken, audio_log_mel_window-IsTaken, audio_window_count-rows,
  audio_window_count-suc,
}
use pocket_llm.Runtime.Asr.{
  audio_start, audio_end, block_tokens, run_span, spans_loop, compose_sides, compose,
}

block_tokens-some :
    (n_samples window : ℕ) (w : IsTaken n_samples window)
    → block_tokens frontend_params w.mel ≡ some w.tokens
unfolding block_tokens
block_tokens-some n_samples window w = ground (arith, w.counted, w.taken)

module _ {A F : Type 0} (shape : Shape) (passes : Passes A F) (n_samples : ℕ) where
  run_span-IsAt :
      (window len : ℕ) (s : Session A) (w : IsTaken n_samples window)
      → IsAt s len
      → len + w.tokens ≤ shape.context
      → (t : Session A) × (run_span shape passes frontend_params n_samples window s
          ≡ (t, returned w.tokens))
        × IsAt t (len + w.tokens)
  unfolding run_span
  run_span-IsAt window len s w at fits =
      let (t, e, at') =
        forward_embeddings-IsAt shape (passes.fresh (window + 1)) (passes.written (window + 1)) s
          none w.tokens len at refl w.some_tokens fits in
      let counted = block_tokens-some n_samples window w in
      let same = session_length-IsAt s len at in (t, ground (arith, w.cut, counted, same, e), at')

  -- The windows from `window` on, which is not the first.
  later_spans-IsAt :
      (windows window len per_window : ℕ) (s : Session A)
      → window + windows ≡ audio_window_count n_samples frontend_params
      → n_samples ≢ 0
      → window ≢ 0
      → IsAt s len
      → len + rows_from n_samples window ≤ shape.context
      → (t : Session A) × (spans_loop shape passes frontend_params windows n_samples window
            per_window s
          ≡ (t, returned per_window))
        × IsAt t (len + rows_from n_samples window)
  unfolding spans_loop
  later_spans-IsAt zero window len per_window s e h later at fits =
      let all : audio_window_count n_samples frontend_params ≡ window = omega arith in
      let none_left : rows_from n_samples window ≡ 0 =
        subst (λ w. rows_from n_samples w ≡ 0) all (audio_window_count-rows n_samples h) in
      (s, refl, subst (IsAt s) (omega arith) at)
  later_spans-IsAt (suc windows) window len per_window s e h later at fits =
      let w = audio_log_mel_window-IsTaken n_samples window (omega arith) in
      let (t, ran, at') = run_span-IsAt window len s w at (ground (arith, w.rows)) in
      let (v, looped, at'') =
        later_spans-IsAt windows (window + 1) (len + w.tokens) per_window t (omega arith) h
          (omega arith) at' (ground (arith, w.rows)) in
      let kept : (window == 0) ≡ false = ground arith in
      (v, rw (ran, kept) looped, subst (IsAt v) (ground (arith, w.rows)) at'')

  -- All the windows, with one or more behind the first or none.
  suc_spans-IsAt :
      (windows len : ℕ) (s : Session A)
      → audio_window_count n_samples frontend_params ≡ suc windows
      → n_samples ≢ 0
      → IsAt s len
      → len + audio_rows n_samples ≤ shape.context
      → (t : Session A) × (spans_loop shape passes frontend_params (suc windows) n_samples 0 0 s
          ≡ (t, returned (frames_of n_samples 0 / 100 * 13)))
        × IsAt t (len + audio_rows n_samples)
  unfolding spans_loop
  suc_spans-IsAt windows len s counted h at fits =
      let w = audio_log_mel_window-IsTaken n_samples 0 (omega arith) in
      let (t, ran, at') = run_span-IsAt 0 len s w at (ground (arith, w.rows)) in
      let (v, looped, at'') =
        later_spans-IsAt windows 1 (len + w.tokens) w.tokens t (omega arith) h (omega arith) at'
          (ground (arith, w.rows)) in
      (v, rw (ran, sym w.exact) looped, subst (IsAt v) (ground (arith, w.rows)) at'')

  spans_loop-IsAt :
      (len : ℕ) (s : Session A)
      → n_samples ≢ 0
      → IsAt s len
      → len + audio_rows n_samples ≤ shape.context
      → (t : Session A) × (spans_loop shape passes frontend_params
            (audio_window_count n_samples frontend_params)
            n_samples
            0
            0
            s
          ≡ (t, returned (frames_of n_samples 0 / 100 * 13)))
        × IsAt t (len + audio_rows n_samples)
  spans_loop-IsAt len s h at fits =
      let (windows, counted) = audio_window_count-suc n_samples h in
      let (t, e, at') = suc_spans-IsAt windows len s counted h at fits in (t, rw counted e, at')

-- A prompt with one marker, a vocabulary and tokens on either side of it, a recording of one sample or
-- more, and a context that has room for all of their tokens: then the composition goes through, whatever
-- the cache held before. It reports the tokens of each part; the cache holds a row for each token of the
-- three, which is 13 for every 100 frames that are begun, and a session in that state continues behind them.
pub compose-IsAt :
    {A F : Type 0} (shape : Shape) (passes : Passes A F) (u : UnicodeData)
    (tokenizer : Option Tokenizer) (prompt : Bytes) (before after : List ℕ) (n_samples : ℕ)
    (s : Session A) (kv : KvCache A)
    → s.model ≡ some kv
    → sides_of u audio_start audio_end (split_prompt tokenizer prompt) ≡ sides before after
    → n_samples ≢ 0
    → length before + audio_rows n_samples + length after ≤ shape.context
    → (t : Session A) × (compose shape passes frontend_params u tokenizer prompt true n_samples s
        ≡ (
          t,
          returned (record {
            tokens_before = length before;
            audio_windows = audio_window_count n_samples frontend_params;
            tokens_per_window = frames_of n_samples 0 / 100 * 13;
            tokens_after = length after;
            positions = length before + audio_rows n_samples + length after;
            logits = passes.logits (audio_window_count n_samples frontend_params + 1);
          }),
        ))
      × IsAt t (length before + audio_rows n_samples + length after)
unfolding compose compose_sides
compose-IsAt shape passes u tokenizer prompt before after n_samples s kv m split h fits =
    let (some_before, some_after) =
      sides_of-some u audio_start audio_end (split_prompt tokenizer prompt) before after split in
    let last = audio_window_count n_samples frontend_params + 1 in
    let (t, e, at) =
      forward-IsAt shape (passes.fresh 0) (passes.written 0) (session_reset s) (length before) 0
        (session_reset-IsAt s kv m) some_before (omega arith) in
    let (v, e', at') =
      spans_loop-IsAt shape passes n_samples (0 + length before) t h at (omega arith) in
    let (w, e'', at'') =
      forward-IsAt shape (passes.fresh last) (passes.written last) v (length after)
        (0 + length before + audio_rows n_samples) at' some_after (omega arith) in
    let no_windows : (audio_window_count n_samples frontend_params == 0) ≡ false =
      ground (arith, audio_window_count-suc n_samples h) in
    let rows : 0 + length before + audio_rows n_samples + length after
        ≡ length before + audio_rows n_samples + length after =
      omega arith in
    let ends =
      session_length-IsAt w (length before + audio_rows n_samples + length after)
        (subst (IsAt w) rows at'') in
    let some_samples : (n_samples == 0) ≡ false = ground arith in
    (w, rw (some_samples, split, no_windows, e, e', e'', ends) refl, subst (IsAt w) rows at'')
