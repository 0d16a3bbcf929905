-- ===== src/Tokenizer/ByteMap.antt =====
-- GPT-2's byte alphabet: `build_byte_to_cpt` and `build_cpt_to_byte` of
-- src/tokenizer/unicode.cpp, `byte_map` and `byte_unmap` of src/tokenizer/bpe.cpp.
pub mod Inverse
use pocket_llm.Prelude.{
  ℕ, zero, suc, ◌+◌, ◌-◌, Bool, ◌&&◌, ◌||◌, List, [], ◌∷◌, ◌++◌, Option, none, some, Bytes, leb,
  if◌then◌else◌, get_or,
}
use pocket_llm.Prelude.Assoc.{nat_eq, find, assign}
use pocket_llm.Tokenizer.Utf8.{cpt_to_utf8, cpts_from_utf8}

is_printable : ℕ → Bool
is_printable b =
    let printable_ascii = leb 33 b && leb b 126 in
    let printable_latin = leb 161 b && leb b 172 || leb 174 b && leb b 255 in
    printable_ascii || printable_latin

-- The loop over the bytes from `b` on, `left` of them, with the counter `next`.
build_loop : ℕ → ℕ → ℕ → List ℕ
build_loop zero b next = []
build_loop (suc left) b next =
    (if is_printable b then b else next)
    ∷ build_loop left (b + 1) (if is_printable b then next else next + 1)

unfoldable pub byte_to_cpt : List ℕ
unfolding is_printable build_loop
byte_to_cpt = build_loop 256 0 256

-- `build_cpt_to_byte`, from byte `b` on.
invert_loop : ℕ → List ℕ → List (ℕ × ℕ) → List (ℕ × ℕ)
invert_loop b [] inverse = inverse
invert_loop b (c ∷ forward) inverse = invert_loop (b + 1) forward (assign c b inverse)

unfoldable pub cpt_to_byte : List (ℕ × ℕ)
unfolding invert_loop byte_to_cpt
cpt_to_byte = invert_loop 0 byte_to_cpt []

-- `byte_map`: one codepoint of the alphabet for each byte. The index is a `uint8_t`.
unfoldable pub byte_map : Bytes → Bytes
byte_map [] = []
byte_map (c ∷ text) = cpt_to_utf8 (get_or byte_to_cpt c 0) ++ byte_map text

-- One codepoint of `byte_unmap`: a byte of the alphabet, or the codepoint as it stands.
unfoldable pub unmap_cpt : ℕ → Bytes
unmap_cpt cpt = elim (find cpt cpt_to_byte) [ none ↦ cpt_to_utf8 cpt | some b ↦ b ∷ [] ]

unmap_cpts : List ℕ → Bytes
unmap_cpts [] = []
unmap_cpts (cpt ∷ cpts) = unmap_cpt cpt ++ unmap_cpts cpts

unfoldable pub byte_unmap : Bytes → Bytes
unfolding unmap_cpts
byte_unmap piece = unmap_cpts (cpts_from_utf8 piece)
