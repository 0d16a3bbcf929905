-- ===== src/Runtime/Vlm/Rows.antt =====
-- A composition of text and an image that fits the context goes through.
use pocket_llm.Prelude.{ℕ, ◌+◌, List, length}
use pocket_llm.Tokenizer.Load.{Tokenizer}
use pocket_llm.Model.KvCache.{KvCache}
use pocket_llm.Model.Session.{Session}
use pocket_llm.Runtime.Prompt.{Passes}
use pocket_llm.Runtime.Vlm.{Tower, tokens_for, round_sqrt, Composition}

-- What `compose` reports of a span that begins at a position, and with that many rows behind it all.
abbrev pub report :
    {F : Type 0}
    → Tower
    → List ℕ
    → List ℕ
    → ℕ
    → ℕ
    → List F
    → (span_start cache_rows : ℕ) → Composition F
report tower before after width height logits span_start cache_rows =
    let tokens = tokens_for tower width height in
    record {
      tokens_before = length before;
      image_tokens = tokens;
      tokens_after = length after;
      positions = span_start + round_sqrt tokens + length after;
      cache_rows = cache_rows;
      target_width = (tower.resize_target width height).0;
      target_height = (tower.resize_target width height).1;
      image_span = round_sqrt tokens;
      logits = logits;
    }
