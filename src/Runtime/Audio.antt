-- ===== src/Runtime/Audio.antt =====
-- The lengths that an audio recording comes to: src/model/audio_frontend.cpp and
-- src/model/qwen3a_audio.cpp. The samples and what the transform and the tower make of them are not
-- modelled. The counts are below 2 ^ 63.
pub mod Rows
use pocket_llm.Prelude.{
  ℕ, zero, suc, ◌+◌, ◌-◌, ◌*◌, ◌/◌, ◌%◌, ◌≤◌, ◌<◌, ◌≡◌, Bool, true, false, not, ◌&&◌, ◌||◌, Option,
  none, some, ltb, leb, ◌==◌, if◌then◌else◌, min,
}

pub record AudioFrontendParams : Type 0 where
  pub n_fft : ℕ
  pub hop_len : ℕ
  pub conv_chunk : ℕ
  pub window_frames : ℕ

-- `Qwen3Audio::frontend_params()`
abbrev pub frontend_params : AudioFrontendParams
frontend_params = record { n_fft = 400; hop_len = 160; conv_chunk = 100; window_frames = 800 }

-- A signal of one sample or more.
abbrev pub log_mel_spectrogram_shape : ℕ → AudioFrontendParams → ℕ
log_mel_spectrogram_shape n_samples params =
    (n_samples + 2 * (params.n_fft / 2) - params.n_fft) / params.hop_len + 1

-- `effective`, the frames that are audio.
abbrev pub effective : ℕ → AudioFrontendParams → ℕ
effective n_samples params =
    min (log_mel_spectrogram_shape n_samples params) (n_samples / params.hop_len + 1)

unfoldable pub audio_window_count : ℕ → AudioFrontendParams → ℕ
audio_window_count n_samples params =
    if n_samples == 0
    then 0
    else (effective n_samples params + params.window_frames - 1) / params.window_frames

pub record AudioMel : Type 0 where
  pub n_len : ℕ
  pub n_len_org : ℕ

-- `none` where it throws.
unfoldable pub audio_log_mel_window : ℕ → AudioFrontendParams → ℕ → Option AudioMel
audio_log_mel_window n_samples params window_index =
    let frames = effective n_samples params in
    let windows = (frames + params.window_frames - 1) / params.window_frames in
    let within = min params.window_frames (frames - window_index * params.window_frames) in
    let chunks = (within + params.conv_chunk - 1) / params.conv_chunk in
    if n_samples == 0 || leb windows window_index
    then none
    else some (record { n_len = chunks * params.conv_chunk; n_len_org = within })

-- What a convolution leaves of an extent that is not 0.
abbrev pub conv_side : ℕ → ℕ
conv_side input = (input + 2 - 3) / 2 + 1

-- `conv_out_w_`
abbrev pub conv_out_w : AudioFrontendParams → ℕ
conv_out_w params = conv_side (conv_side (conv_side params.conv_chunk))

abbrev pub max_frames : ℕ
max_frames = 800

-- `Qwen3Audio::tokens_for_frames`, `none` where it throws.
unfoldable pub tokens_for_frames : AudioFrontendParams → ℕ → Option ℕ
tokens_for_frames params frames =
    if frames == 0 || not (frames % params.conv_chunk == 0)
    then none
    else some (frames / params.conv_chunk * conv_out_w params)

-- The checks of `Qwen3Audio::encode` on the length of its block.
unfoldable pub takes_block : AudioFrontendParams → AudioMel → Bool
takes_block params mel = mel.n_len % params.conv_chunk == 0 && leb mel.n_len max_frames
