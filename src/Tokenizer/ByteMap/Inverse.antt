-- ===== src/Tokenizer/ByteMap/Inverse.antt =====
-- `byte_unmap` undoes `byte_map` on every text.
use pocket_llm.Prelude.{
  ℕ, ◌≡◌, refl, ap, [], ◌∷◌, ◌++◌, none, some, Bytes, IsByte, All, get_or, Bool, true, ltb, ◌==◌,
  holds_below, holds_below→all, map, arith, ◌^◌, ltb→lt,
}
use pocket_llm.Prelude.Assoc.{nat_eq, find, assign}
use pocket_llm.Tokenizer.Utf8.{cpt_to_utf8, cpts_from_utf8, utf8_text}
use pocket_llm.Tokenizer.Utf8.RoundTrip.{IsCodepoint, cpts_from_utf8-utf8_text}
use pocket_llm.Tokenizer.ByteMap.{
  byte_to_cpt, cpt_to_byte, byte_map, unmap_cpt, unmap_cpts, byte_unmap,
}

-- The codepoints of a text in the alphabet.
abbrev pub alphabet : ℕ → ℕ
alphabet b = get_or byte_to_cpt b 0

is_mapped : ℕ → Bool
is_mapped b = elim (find (alphabet b) cpt_to_byte) [ none ↦ ltb 1 0 | some c ↦ c == b ]

mapped_table : holds_below 256 is_mapped ≡ true
unfolding holds_below is_mapped cpt_to_byte find assign
mapped_table = refl

alphabet-IsCodepoint : (b : ℕ) → IsByte b → IsCodepoint (alphabet b)
unfolding holds_below byte_to_cpt
alphabet-IsCodepoint b h =
    ltb→lt _ _ (holds_below→all 256 (λ c. ltb (alphabet c) (2 ^ 21)) refl b h)

unmap_cpt-alphabet : (b : ℕ) → IsByte b → unmap_cpt (alphabet b) ≡ b ∷ []
unfolding unmap_cpt is_mapped
unmap_cpt-alphabet b h = ground (arith, holds_below→all 256 is_mapped mapped_table b h)

byte_map-utf8_text : (text : Bytes) → byte_map text ≡ utf8_text (map alphabet text)
unfolding byte_map utf8_text
byte_map-utf8_text [] = refl
byte_map-utf8_text (b ∷ text) = ap (λ r. cpt_to_utf8 (alphabet b) ++ r) (byte_map-utf8_text text)

All-alphabet : (text : Bytes) → All IsByte text → All IsCodepoint (map alphabet text)
All-alphabet [] h = tt
All-alphabet (b ∷ text) h = (alphabet-IsCodepoint b h.0, All-alphabet text h.1)

unmap_cpts-alphabet : (text : Bytes) → All IsByte text → unmap_cpts (map alphabet text) ≡ text
unfolding unmap_cpts
unmap_cpts-alphabet [] h = refl
unmap_cpts-alphabet (b ∷ text) h = rw (unmap_cpt-alphabet b h.0, unmap_cpts-alphabet text h.1)

-- A mapped text decodes to one codepoint of the alphabet for each byte.
pub cpts_from_utf8-byte_map :
    (text : Bytes) → All IsByte text → cpts_from_utf8 (byte_map text) ≡ map alphabet text
cpts_from_utf8-byte_map text h =
    rw byte_map-utf8_text (cpts_from_utf8-utf8_text (map alphabet text) (All-alphabet text h))

-- `byte_unmap` gives back every text of bytes that `byte_map` was given, valid UTF-8 or not.
pub byte_unmap-byte_map : (text : Bytes) → All IsByte text → byte_unmap (byte_map text) ≡ text
unfolding byte_unmap
byte_unmap-byte_map text h = rw (cpts_from_utf8-byte_map text h) (unmap_cpts-alphabet text h)
