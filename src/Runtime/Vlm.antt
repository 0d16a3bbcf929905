-- ===== src/Runtime/Vlm.antt =====
-- `VlmSession::compose` of src/runtime/vlm_session.cpp, with `prices_for` and the check of the patch grid in
-- src/model/qwen3vl_vision.cpp. The size to which an image is resized comes of double arithmetic: it is a
-- parameter, and so is what the tower computes. The counts are below 2 ^ 52, where the square root of a
-- double rounds to the integer that it does here.
pub mod Grid
pub mod Rows
use pocket_llm.Prelude.{
  ℕ, zero, suc, ◌+◌, ◌-◌, ◌*◌, ◌/◌, ◌%◌, Bool, true, false, not, ◌&&◌, ◌||◌, List, [], ◌∷◌, ◌++◌,
  Option, none, some, Bytes, codes, length, ltb, leb, ◌==◌, if◌then◌else◌,
}
use pocket_llm.Tokenizer.Unicode.{UnicodeData}
use pocket_llm.Tokenizer.Load.{Tokenizer}
use pocket_llm.Model.KvCache.{Shape}
use pocket_llm.Model.Session.{
  Session, forward, forward_positions, forward_embeddings, session_reset, session_length,
}
use pocket_llm.Runtime.Prompt.{
  Sides, sides, unusable, Parts, parts, unsplit, no_media, bad_block, split_prompt, sides_of,
  Passes, Ending, returned, refused, chain, pass_of,
}

abbrev pub vision_start : Bytes
vision_start = codes "<|vision_start|>"

abbrev pub vision_end : Bytes
vision_end = codes "<|vision_end|>"

-- The members of `Qwen3VlVision` that the composition depends on.
pub record Tower : Type 0 where
  pub patch_size : ℕ
  pub merge : ℕ
  pub max_patches : ℕ
  pub resize_target : ℕ → ℕ → ℕ × ℕ  -- of a width and a height that are not 0

-- `tokens_for`, and the last of what `prices_for` writes.
abbrev pub tokens_for : Tower → ℕ → ℕ → ℕ
tokens_for tower width height =
    let chosen = tower.resize_target width height in
    chosen.0 / tower.patch_size / tower.merge * (chosen.1 / tower.patch_size / tower.merge)

-- The check of `Qwen3VlVision::encode`.
abbrev pub takes_grid : Tower → ℕ → ℕ → Bool
takes_grid tower width height =
    let chosen = tower.resize_target width height in
    let patches = chosen.0 / tower.patch_size * (chosen.1 / tower.patch_size) in
    not (ltb tower.max_patches patches || not (patches % (tower.merge * tower.merge) == 0))

-- `llround(sqrt(n))`: the first number whose half above does not reach below the root.
unfoldable pub round_sqrt_loop : ℕ → ℕ → ℕ → ℕ
round_sqrt_loop zero n k = k
round_sqrt_loop (suc fuel) n k = if leb n (k * k + k) then k else round_sqrt_loop fuel n (k + 1)

unfoldable pub round_sqrt : ℕ → ℕ
round_sqrt n = round_sqrt_loop n n 0

-- The positions of the tokens of the span from `i` on, four to a token.
unfoldable pub span_positions : (side span_start i count : ℕ) → List ℕ
span_positions side span_start i zero = []
span_positions side span_start i (suc count) =
    span_start
    ∷ (span_start + i / side)
    ∷ (span_start + i % side)
    ∷ 0
    ∷ span_positions side span_start (i + 1) count

-- Those of the text behind it, from its token `i` on.
unfoldable pub after_positions : (after_base i count : ℕ) → List ℕ
after_positions after_base i zero = []
after_positions after_base i (suc count) =
    (after_base + i)
    ∷ (after_base + i)
    ∷ (after_base + i)
    ∷ 0
    ∷ after_positions after_base (i + 1) count

pub record Composition {ℓ} (F : Type ℓ) : Type ℓ where
  pub tokens_before : ℕ
  pub image_tokens : ℕ
  pub tokens_after : ℕ
  pub positions : ℕ
  pub cache_rows : ℕ
  pub target_width : ℕ
  pub target_height : ℕ
  pub image_span : ℕ
  pub logits : List F

module _ {ℓ ℓ'} {A : Type ℓ} {F : Type ℓ'} (shape : Shape) (passes : Passes A F)
    (tower : Tower) where
  -- `compose` behind its checks: the three passes, from a reset session.
  unfoldable pub compose_sides :
      List ℕ → List ℕ → ℕ → ℕ → Session A → Session A × Ending (Composition F)
  compose_sides before after width height s =
      let tokens = tokens_for tower width height in
      let side = round_sqrt tokens in
      let empty = session_reset s in
      chain
        (pass_of empty (forward shape (passes.fresh 0) (passes.written 0) empty (length before)))
        (λ _ t.
          let span_start = session_length t in
          chain
            (pass_of t (
              forward_embeddings shape (passes.fresh 1) (passes.written 1) t
                (some (span_positions side span_start 0 tokens)) tokens span_start))
            (λ _ v.
              chain
                (pass_of v (
                  forward_positions shape (passes.fresh 2) (passes.written 2) v
                    (after_positions (span_start + side) 0 (length after)) (length after)
                    (session_length v)))
                (λ _ w. (
                  w,
                  returned (record {
                    tokens_before = length before;
                    image_tokens = tokens;
                    tokens_after = length after;
                    positions = span_start + side + length after;
                    cache_rows = session_length w;
                    target_width = (tower.resize_target width height).0;
                    target_height = (tower.resize_target width height).1;
                    image_span = side;
                    logits = passes.logits 2;
                  }),
                ))))

  -- The tower comes before the texts are tokenized. `rgb` says that the pixels are no null pointer.
  unfoldable pub compose :
      UnicodeData
      → Option Tokenizer
      → Bytes
      → Bool
      → ℕ
      → ℕ
      → Session A
      → Session A × Ending (Composition F)
  compose u tokenizer prompt rgb width height s =
      if not rgb || (width == 0 || height == 0)
      then (s, refused no_media)
      else elim (split_prompt tokenizer prompt) [
        | unsplit r ↦ (s, refused r)
        | parts t opened closed ↦
            if takes_grid tower width height
            then elim (sides_of u vision_start vision_end (parts t opened closed)) [
              | unusable r ↦ (s, refused r)
              | sides before after ↦ compose_sides before after width height s
            ]
            else (s, refused bad_block)
      ]
