-- ===== src/Runtime/Api/Media.antt =====
-- The entry points of src/c_api.cpp for an image and a recording. `rgb` and `pcm` say that the pixels and the
-- samples are no null pointer, and a size or a number of samples that is negative stands for 0.
use pocket_llm.Prelude.{
  ℕ, suc, ◌+◌, ◌*◌, ◌≤◌, ◌≡◌, ◌≢◌, refl, Bool, true, false, not, ◌||◌, List, [], ◌∷◌, ◌++◌, map,
  Option, none, some, Bytes, length, ltb, ◌==◌, if◌then◌else◌, arith,
}
use pocket_llm.Prelude.Int.{ℤ, pos, negsuc}
use pocket_llm.Tokenizer.Unicode.{UnicodeData}
use pocket_llm.Tokenizer.Load.{Tokenizer}
use pocket_llm.Tokenizer.Codec.{decode}
use pocket_llm.Model.KvCache.{Buffer, Shape}
use pocket_llm.Model.Session.{Session}
use pocket_llm.Runtime.Argmax.{argmax}
use pocket_llm.Runtime.Prompt.{Ending, returned, refused, Passes}
use pocket_llm.Runtime.Audio.{frontend_params, audio_window_count, tokens_for_frames}
use pocket_llm.Runtime.Audio.Rows.{audio_rows}
use pocket_llm.Runtime.Asr.{compose as compose_audio, generate}
use pocket_llm.Runtime.Vlm.{Tower, tokens_for, compose as compose_image}
use pocket_llm.Runtime.Api.{refused_code, put}

-- A media handle: the session of its text model and the tokenizer of its checkpoint.
pub record Handle {ℓ} (A : Type ℓ) : Type ℓ where
  pub text : Session A
  pub tokenizer : Option Tokenizer

-- What a call leaves: its code, the session, and the array.
pub record Left {ℓ ℓ'} (A : Type ℓ) (X : Type ℓ') : Type (ℓ ⊔ ℓ') where
  pub code : ℤ
  pub handle : Option (Handle A)
  pub array : Option (Buffer X)

-- The capacity is enough for that many values.
unfoldable pub is_enough : ℤ → ℕ → Bool
is_enough (pos cap) n = not (ltb cap n)
is_enough (negsuc _) n = false

abbrev pub moved {ℓ} : {A : Type ℓ} → Handle A → Session A → Option (Handle A)
moved handle t = some (record handle { text = t })

module _ {ℓ ℓ'} {A : Type ℓ} {F : Type ℓ'} where
  -- The end of the two calls that hand out the logits.
  unfoldable pub hand_logits : Handle A → Session A × Ending (List F) → Buffer F → ℤ → Left A F
  hand_logits handle (t, refused _) logits cap = record {
    code = refused_code;
    handle = moved handle t;
    array = some logits;
  }
  hand_logits handle (t, returned values) logits cap =
      if is_enough cap (length values)
      then record {
        code = pos (length values);
        handle = moved handle t;
        array = some (put logits values);
      }
      else record { code = refused_code; handle = moved handle t; array = some logits }

  -- The end of the two that hand out the id of the greatest.
  unfoldable pub hand_token :
      (F → F → Bool) → Handle A → Session A × Ending (List F) → Buffer ℕ → Left A ℕ
  hand_token gt handle (t, refused _) out_token = record {
    code = refused_code;
    handle = moved handle t;
    array = some out_token;
  }
  hand_token gt handle (t, returned []) out_token = record {
    code = refused_code;
    handle = moved handle t;
    array = some out_token;
  }
  hand_token gt handle (t, returned (value ∷ values)) out_token = record {
    code = pos 0;
    handle = moved handle t;
    array = some (put out_token (argmax gt (value ∷ values) ∷ []));
  }

-- The logits of a composition that returns.
unfoldable pub logits_of {ℓ ℓ' ℓ''} :
    {S : Type ℓ} {R : Type ℓ'} {F : Type ℓ''} → (R → List F) → S × Ending R → S × Ending (List F)
logits_of logits (s, refused r) = (s, refused r)
logits_of logits (s, returned report) = (s, returned (logits report))

-- The text of the ids, which is empty without a vocabulary, and `none` where the decoder throws.
abbrev text_of : Option Tokenizer → List ℕ → Option Bytes
text_of none ids = some []
text_of (some t) ids = decode t.vocab (map pos ids)

module _ {ℓ} {A : Type ℓ} where
  -- The end of `pocketllm_asr_generate`: the whole text and its terminator, or nothing.
  unfoldable pub hand_answer : Handle A → Session A × Ending (List ℕ) → Buffer ℕ → ℤ → Left A ℕ
  hand_answer handle (t, refused _) out cap = record {
    code = refused_code;
    handle = moved handle t;
    array = some out;
  }
  hand_answer handle (t, returned ids) out cap = elim (text_of handle.tokenizer ids) [
    | none ↦ record { code = refused_code; handle = moved handle t; array = some out }
    | some text ↦
        if is_enough cap (length text + 1)
        then record {
          code = pos (length text);
          handle = moved handle t;
          array = some (put out (text ++ 0 ∷ []));
        }
        else record { code = refused_code; handle = moved handle t; array = some out }
  ]

module _ {ℓ ℓ'} {A : Type ℓ} {F : Type ℓ'} (gt : F → F → Bool) (shape : Shape) (passes : Passes A F)
    (u : UnicodeData) where
  unfoldable pub pocketllm_asr_forward :
      Option (Handle A) → Option Bytes → Bool → ℕ → Option (Buffer F) → ℤ → Left A F
  pocketllm_asr_forward (some h) (some prompt) pcm n_samples (some logits) cap =
      hand_logits h
        (logits_of (λ r. r.logits)
          (compose_audio shape passes frontend_params u h.tokenizer prompt pcm n_samples h.text))
        logits cap
  pocketllm_asr_forward h _ pcm n_samples logits cap = record {
    code = refused_code;
    handle = h;
    array = logits;
  }

  unfoldable pub pocketllm_asr_forward_argmax :
      Option (Handle A) → Option Bytes → Bool → ℕ → Option (Buffer ℕ) → Left A ℕ
  pocketllm_asr_forward_argmax (some h) (some prompt) pcm n_samples (some out_token) =
      hand_token gt h
        (logits_of (λ r. r.logits)
          (compose_audio shape passes frontend_params u h.tokenizer prompt pcm n_samples h.text))
        out_token
  pocketllm_asr_forward_argmax h _ pcm n_samples out_token = record {
    code = refused_code;
    handle = h;
    array = out_token;
  }

  unfoldable pub pocketllm_asr_generate :
      Option (Handle A) → Option Bytes → Bool → ℕ → ℕ → Option (Buffer ℕ) → ℤ → Left A ℕ
  pocketllm_asr_generate (some h) (some prompt) pcm n_samples max_tokens (some out)
        (pos (suc cap)) =
      hand_answer h
        (generate gt shape passes frontend_params u h.tokenizer prompt pcm n_samples max_tokens
          h.text)
        out (pos (suc cap))
  pocketllm_asr_generate h _ pcm n_samples max_tokens out _ = record {
    code = refused_code;
    handle = h;
    array = out;
  }

  unfoldable pub pocketllm_vlm_forward :
      Tower → Option (Handle A) → Option Bytes → Bool → ℕ → ℕ → Option (Buffer F) → ℤ → Left A F
  pocketllm_vlm_forward tower (some h) (some prompt) rgb width height (some logits) cap =
      hand_logits h
        (logits_of (λ r. r.logits)
          (compose_image shape passes tower u h.tokenizer prompt rgb width height h.text))
        logits cap
  pocketllm_vlm_forward tower h _ rgb width height logits cap = record {
    code = refused_code;
    handle = h;
    array = logits;
  }

  unfoldable pub pocketllm_vlm_forward_argmax :
      Tower → Option (Handle A) → Option Bytes → Bool → ℕ → ℕ → Option (Buffer ℕ) → Left A ℕ
  pocketllm_vlm_forward_argmax tower (some h) (some prompt) rgb width height (some out_token) =
      hand_token gt h
        (logits_of (λ r. r.logits)
          (compose_image shape passes tower u h.tokenizer prompt rgb width height h.text))
        out_token
  pocketllm_vlm_forward_argmax tower h _ rgb width height out_token = record {
    code = refused_code;
    handle = h;
    array = out_token;
  }

-- `session` says that the handle is no null pointer.
unfoldable pub pocketllm_asr_windows : (session : Bool) (n_samples : ℕ) → ℤ
pocketllm_asr_windows session n_samples =
    if not session || n_samples == 0
    then refused_code
    else pos (audio_window_count n_samples frontend_params)

unfoldable pub pocketllm_asr_tokens_per_window : (session : Bool) → ℤ
pocketllm_asr_tokens_per_window session =
    if not session
    then refused_code
    else elim (tokens_for_frames frontend_params frontend_params.window_frames) [
      | none ↦ refused_code
      | some tokens ↦ pos tokens
    ]

unfoldable pub pocketllm_vlm_image_tokens : Option Tower → (width height : ℕ) → ℤ
pocketllm_vlm_image_tokens none width height = refused_code
pocketllm_vlm_image_tokens (some tower) width height =
    if width == 0 || height == 0 then refused_code else pos (tokens_for tower width height)

-- A caller that multiplies the windows by the tokens of a window leaves room enough for a recording of one
-- sample or more.
audio_rows-pocketllm_asr_windows :
    (n_samples : ℕ)
    → n_samples ≢ 0
    → (windows tokens : ℕ) × (pocketllm_asr_windows true n_samples ≡ pos windows)
      × (pocketllm_asr_tokens_per_window true ≡ pos tokens)
      × (audio_rows n_samples ≤ windows * tokens)
unfolding pocketllm_asr_windows pocketllm_asr_tokens_per_window tokens_for_frames audio_window_count
audio_rows-pocketllm_asr_windows n_samples h =
    (audio_window_count n_samples frontend_params, 104, ground arith, refl, ground arith)
