-- ===== src/Tokenizer/Utf8/Bytewise.antt =====
-- `cpts_from_utf8` on a byte that starts no valid sequence.
use pocket_llm.Prelude.{ℕ, ◌+◌, ◌/◌, ◌%◌, ◌≤◌, ◌≡◌, [], ◌∷◌, IsByte, arith}
use pocket_llm.Prelude.Bits
use pocket_llm.Tokenizer.Utf8.{
  cpt_to_utf8, lead_byte, next_cpt, cpts_loop, cpts_from_utf8, utf8_text,
}

-- A lone byte of the upper half is its own codepoint, and is written back as two bytes: the text
-- that `encode` hands to the byte map is another text than the input.
pub utf8_text-lone_byte :
    (b : ℕ)
    → IsByte b
    → 128 ≤ b
    → (cpts_from_utf8 (b ∷ []) ≡ b ∷ [])
      × (utf8_text (cpts_from_utf8 (b ∷ [])) ≡ (192 + b / 64) ∷ (128 + b % 64) ∷ [])
unfolding cpts_from_utf8 cpts_loop next_cpt lead_byte utf8_text cpt_to_utf8
utf8_text-lone_byte b h k = ground (
  arith,
  Bits.or_0xc0 (b / 64),
  Bits.or_0x80 (b % 64),
  Bits.and_0xe0 b,
  Bits.and_0xf0 b,
  Bits.and_0xf8 b,
)
