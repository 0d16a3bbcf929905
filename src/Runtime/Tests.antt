-- ===== src/Runtime/Tests.antt =====
-- Small sessions, and the theorems at them.
use pocket_llm.Prelude.{
  ℕ, ◌+◌, ◌≤◌, ◌<◌, ◌≡◌, ◌↔◌, inl, inr, refl, Bool, true, false, List, [], ◌∷◌, ◌++◌, none, some,
  max, ltb, arith, same_bytes, Bool-cases, ◌*◌,
}
use pocket_llm.Prelude.Find.{find_sub, starts_with}
use pocket_llm.Prelude.Int.{pos, negsuc}
use pocket_llm.Tokenizer.Pretokenize.{llama_bpe}
use pocket_llm.Tokenizer.Specials.{carve_loop, carve, carve_all, specials_loop, split_specials}
use pocket_llm.Tokenizer.Load.{Tokenizer}
use pocket_llm.Tokenizer.Codec.{encode, fragments_loop, encode_fragment}
use pocket_llm.Tokenizer.Codec.Tests.{
  tokenizer as byte_tokenizer, tables, sample, byte_level, survives,
}
use pocket_llm.Model.KvCache.{Buffer, Shape, KvCache, cache_length}
use pocket_llm.Model.Session.{Session}
use pocket_llm.Model.Session.Passes.{IsAt}
use pocket_llm.Runtime.Argmax.{
  IsRanking, IsFirstGreatest, argmax_loop, argmax, argmax-IsFirstGreatest,
}
use pocket_llm.Runtime.Prompt.{sides, marker, split_prompt, sides_of, Passes, returned}
use pocket_llm.Runtime.Audio.{frontend_params, audio_window_count}
use pocket_llm.Runtime.Asr.{audio_start, audio_end, compose as compose_audio, generate}
use pocket_llm.Runtime.Asr.Spans.{compose-IsAt}
use pocket_llm.Runtime.Asr.Greedy.{Answers, generate-Answers}
use pocket_llm.Runtime.Vlm.{vision_start, vision_end, Tower, round_sqrt, compose as compose_image}
use pocket_llm.Runtime.Vlm.Grid.{round_sqrt-max}
use pocket_llm.Runtime.Api.{
  context_code, put, read_values, pocketllm_encode, pocketllm_decode, pocketllm_forward,
}
use pocket_llm.Runtime.Api.Codes.{pocketllm_forward-IsAt}
use pocket_llm.Runtime.Api.RoundTrip.{pocketllm_decode-pocketllm_encode}

abbrev more : ℕ → ℕ → Bool
more x y = ltb y x

ranks : IsRanking more
ranks = record {
  never_itself = λ x. ground arith;
  transitive = λ x y z p q. ground arith;
  between = λ x y z p. elim (Bool-cases (ltb y x)) [ inl e ↦ inl e | inr e ↦ inr (ground arith) ];
}

abbrev logits : List ℕ
logits = 3 ∷ 7 ∷ 5 ∷ 7 ∷ []

argmax-IsFirstGreatest_example : IsFirstGreatest more logits 1
unfolding argmax argmax_loop
argmax-IsFirstGreatest_example = argmax-IsFirstGreatest more ranks logits (omega arith)

-- The tokens that stand around a recording and an image, and nothing else.
abbrev tokenizer : Tokenizer
tokenizer = record {
  vocab = audio_start ∷ audio_end ∷ vision_start ∷ vision_end ∷ [];
  token_to_id = [];
  merge_rank = [];
  special_tokens =
      record { id = 0; needs_parse = true }
      ∷ record { id = 1; needs_parse = true }
      ∷ record { id = 2; needs_parse = true }
      ∷ record { id = 3; needs_parse = true }
      ∷ [];
  special = record {
    bos = negsuc 0;
    eos = pos 1;
    pad = negsuc 0;
    add_bos = false;
    add_eos = false;
  };
  pre_rules = llama_bpe;
}

abbrev shape : Shape
shape = record { n_layer = 2; kv_width = 2; context = 1024; rope_sections = 64 }

abbrev zeros : Buffer ℕ
zeros at = 0

abbrev cache : KvCache ℕ
cache = record { cache = some zeros; capacity = 256; slots = 1; seq_len = 5 ∷ [] }

abbrev opened : Session ℕ
opened = record { position = 5; model = some cache }

opened-IsAt : IsAt opened 5
unfolding cache_length
opened-IsAt = record { cache = cache; model = refl; position = refl; length = refl }

abbrev passes : Passes ℕ ℕ
passes = record { fresh = λ _. zeros; written = λ _. zeros; logits = λ _. logits }

-- Two seconds and a tenth come to 211 frames.
abbrev n_samples : ℕ
n_samples = 33600

audio_sides :
    sides_of tables audio_start audio_end (split_prompt (some tokenizer) marker)
    ≡ sides (0 ∷ []) (1 ∷ [])
unfolding sides_of split_prompt find_sub starts_with encode fragments_loop encode_fragment
    split_specials specials_loop carve_all carve carve_loop same_bytes
audio_sides = refl

compose-IsAt_example :
    (t : Session ℕ) × (compose_audio shape passes frontend_params tables
        (some tokenizer)
        marker
        true
        n_samples
        opened
      ≡ (
        t,
        returned (record {
          tokens_before = 1;
          audio_windows = 1;
          tokens_per_window = 39;
          tokens_after = 1;
          positions = 41;
          logits = logits;
        }),
      ))
    × IsAt t 41
unfolding audio_window_count
compose-IsAt_example =
    compose-IsAt shape passes tables (some tokenizer) marker (0 ∷ []) (1 ∷ []) n_samples opened
      cache refl audio_sides (omega arith) (omega arith)

-- The first choice is the end-of-text id.
generate-Answers_example :
    (t : Session ℕ) × (answer : List ℕ) × (generate more shape passes frontend_params tables
        (some tokenizer)
        marker
        true
        n_samples
        8
        opened
      ≡ (t, returned answer))
    × Answers more passes.logits (pos 1) 8 2 41 t answer
unfolding audio_window_count
generate-Answers_example =
    generate-Answers more shape passes tables (some tokenizer) marker (0 ∷ []) (1 ∷ []) n_samples 8
      opened cache refl audio_sides (omega arith) (omega arith) (omega arith) (omega arith)

-- An image of 800 by 600 is resized to 800 by 608.
abbrev tower : Tower
tower = record {
  patch_size = 16;
  merge = 2;
  max_patches = 2304;
  resize_target = λ width height. (800, 608);
}

round_sqrt-max_example :
    (round_sqrt (25 * 19) ≤ max 25 19) × ((round_sqrt (25 * 19) ≡ max 25 19) ↔ (◌≡◌ {A = ℕ} 25 19))
round_sqrt-max_example = round_sqrt-max 25 19

pocketllm_decode-pocketllm_encode_example :
    (n : ℕ) × (filled returned : Buffer ℕ) × (pocketllm_encode tables
        (some (some byte_tokenizer))
        (some sample)
        false
        false
        none
        (pos 0)
      ≡ some (pos n, none))
    × (pocketllm_encode tables
          (some (some byte_tokenizer))
          (some sample)
          false
          false
          (some zeros)
          (pos n)
        ≡ some (pos n, some filled))
    × (pocketllm_decode
          (some (some byte_tokenizer))
          (some (λ i. pos (filled i)))
          (pos n)
          (some zeros)
          (pos 64)
        ≡ (pos 7, some returned))
    × (read_values returned 8 ≡ sample ++ 0 ∷ [])
pocketllm_decode-pocketllm_encode_example =
    pocketllm_decode-pocketllm_encode tables byte_tokenizer sample false zeros zeros 63 byte_level
      survives (omega arith)

pocketllm_forward-IsAt_example :
    (5 + 3 ≤ 1024
      → (t : Session ℕ) × (pocketllm_forward shape zeros zeros logits
            (some opened)
            true
            (pos 3)
            (some zeros)
            (pos 4)
          ≡ ((pos 4, some t), some (put zeros logits)))
        × IsAt t 8)
    × (1024 < 5 + 3
        → pocketllm_forward shape zeros zeros logits (some opened) true (pos 3) (some zeros) (pos 4)
          ≡ ((context_code, some opened), some zeros))
pocketllm_forward-IsAt_example =
    pocketllm_forward-IsAt shape zeros zeros logits opened 2 5 3 zeros opened-IsAt (omega arith)
