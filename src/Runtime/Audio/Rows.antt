-- ===== src/Runtime/Audio/Rows.antt =====
-- How many tokens a recording comes to, over all its windows.
use pocket_llm.Prelude.{ℕ, suc, ◌+◌, ◌-◌, ◌*◌, ◌/◌, ◌<◌, ◌≡◌, ◌≢◌, refl, true, some, min, arith}
use pocket_llm.Runtime.Audio.{
  AudioMel, frontend_params, audio_window_count, audio_log_mel_window, tokens_for_frames,
  takes_block,
}

-- A frame for each 160 samples and one more, and 13 tokens for each 100 frames that are begun.
abbrev pub audio_rows : ℕ → ℕ
audio_rows n_samples = (n_samples / 160 + 100) / 100 * 13

-- The tokens of the windows from one on.
abbrev pub rows_from : ℕ → ℕ → ℕ
rows_from n_samples window = (n_samples / 160 + 100 - window * 800) / 100 * 13

-- The length of the block that a window is padded to.
abbrev pub frames_of : ℕ → ℕ → ℕ
frames_of n_samples window = (min 800 (n_samples / 160 + 1 - window * 800) + 99) / 100 * 100

-- A window is cut and the tower takes it: its tokens are one or more, and those of the windows from it on
-- less those of the windows behind it.
pub record IsTaken (n_samples window : ℕ) : Type 0 where
  pub mel : AudioMel
  pub tokens : ℕ
  pub cut : audio_log_mel_window n_samples frontend_params window ≡ some mel
  pub counted : tokens_for_frames frontend_params mel.n_len ≡ some tokens
  pub taken : takes_block frontend_params mel ≡ true
  pub some_tokens : tokens ≢ 0
  pub exact : tokens ≡ frames_of n_samples window / 100 * 13
  pub rows : tokens + rows_from n_samples (window + 1) ≡ rows_from n_samples window

frames_left :
    (n_samples window : ℕ)
    → window < audio_window_count n_samples frontend_params
    → n_samples / 160 + 1 - window * 800 ≢ 0
unfolding audio_window_count
frames_left n_samples window h = λ e. ground arith

pub audio_log_mel_window-IsTaken :
    (n_samples window : ℕ)
    → window < audio_window_count n_samples frontend_params
    → IsTaken n_samples window
unfolding audio_window_count audio_log_mel_window tokens_for_frames takes_block
audio_log_mel_window-IsTaken n_samples window h =
    let left = frames_left n_samples window h in
    record {
      mel = record {
        n_len = frames_of n_samples window;
        n_len_org = min 800 (n_samples / 160 + 1 - window * 800);
      };
      tokens = frames_of n_samples window / 100 * 13;
      cut = ground arith;
      counted = ground arith;
      taken = ground arith;
      some_tokens = λ e. omega arith;
      exact = refl;
      rows = omega arith;
    }

pub audio_window_count-rows :
    (n_samples : ℕ)
    → n_samples ≢ 0
    → rows_from n_samples (audio_window_count n_samples frontend_params) ≡ 0
unfolding audio_window_count
audio_window_count-rows n_samples h = ground arith

pub audio_window_count-suc :
    (n_samples : ℕ)
    → n_samples ≢ 0
    → (windows : ℕ) × (audio_window_count n_samples frontend_params ≡ suc windows)
unfolding audio_window_count
audio_window_count-suc n_samples h = ((n_samples / 160 + 1 + 799) / 800 - 1, ground arith)
