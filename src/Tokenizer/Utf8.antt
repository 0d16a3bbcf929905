-- ===== src/Tokenizer/Utf8.antt =====
-- src/tokenizer/unicode.cpp: `cpts_from_utf8` and `cpt_to_utf8`. A `uint32_t` codepoint is a
-- number below 2 ^ 32, and the list of bytes is what the index `i` has not reached.
pub mod RoundTrip
pub mod Bytewise
use pocket_llm.Prelude.{
  ℕ, zero, suc, ◌+◌, ◌*◌, ◌/◌, ◌%◌, ◌^◌, bit_and, bit_or, List, [], ◌∷◌, ◌++◌, Option, none, some,
  Bytes, ltb, leb, ◌==◌, if◌then◌else◌, length, drop,
}

-- `cpt_to_utf8`. The cast to `char` keeps the low byte; only the last branch needs it.
unfoldable pub cpt_to_utf8 : ℕ → Bytes
cpt_to_utf8 codepoint =
    if ltb codepoint 0x80
    then codepoint ∷ []
    else if ltb codepoint 0x800
    then bit_or 0xc0 (codepoint / 2 ^ 6) ∷ bit_or 0x80 (codepoint % 2 ^ 6) ∷ []
    else if ltb codepoint 0x10000
    then bit_or 0xe0 (codepoint / 2 ^ 12)
      ∷ bit_or 0x80 (codepoint / 2 ^ 6 % 2 ^ 6)
      ∷ bit_or 0x80 (codepoint % 2 ^ 6)
      ∷ []
    else bit_or 0xf0 (codepoint / 2 ^ 18) % 256
      ∷ bit_or 0x80 (codepoint / 2 ^ 12 % 2 ^ 6)
      ∷ bit_or 0x80 (codepoint / 2 ^ 6 % 2 ^ 6)
      ∷ bit_or 0x80 (codepoint % 2 ^ 6)
      ∷ []

-- The lead byte: how many continuation bytes it announces, and its own payload bits. `none` is a
-- continuation byte or a 5- or 6-byte lead.
unfoldable pub lead_byte : ℕ → Option (ℕ × ℕ)
lead_byte b0 =
    if ltb b0 0x80
    then some (0, b0)
    else if bit_and b0 0xe0 == 0xc0
    then some (1, bit_and b0 0x1f)
    else if bit_and b0 0xf0 == 0xe0
    then some (2, bit_and b0 0x0f)
    else if bit_and b0 0xf8 == 0xf0
    then some (3, bit_and b0 0x07)
    else none

-- The `for k` loop over the continuation bytes; `none` is `valid = false`. The payload of a byte
-- fills the six bits that the shift cleared, so `|` is `+`.
unfoldable pub continuation : ℕ → ℕ → Bytes → Option ℕ
continuation zero codepoint bytes = some codepoint
continuation (suc extra) codepoint [] = none
continuation (suc extra) codepoint (b ∷ bytes) =
    let rest = continuation extra (codepoint * 2 ^ 6 + bit_and b 0x3f) bytes in
    if bit_and b 0xc0 == 0x80 then rest else none

-- One round of the loop at the byte `b0`: the codepoint pushed, and how many bytes behind `b0`
-- it takes. A byte that starts no valid sequence is its own codepoint.
unfoldable pub next_cpt : ℕ → Bytes → ℕ × ℕ
next_cpt b0 rest = elim (lead_byte b0) [
  | none ↦ (b0, 0)
  | some (extra, bits) ↦
      if leb (length rest + 1) extra then (b0, 0) else elim (continuation extra bits rest) [
        | none ↦ (b0, 0)
        | some codepoint ↦ (codepoint, extra)
      ]
]

-- The loop on fuel: each round takes a byte at least.
unfoldable pub cpts_loop : ℕ → Bytes → List ℕ
cpts_loop fuel [] = []
cpts_loop zero (b0 ∷ rest) = []
cpts_loop (suc fuel) (b0 ∷ rest) =
    let (codepoint, extra) = next_cpt b0 rest in codepoint ∷ cpts_loop fuel (drop extra rest)

unfoldable pub cpts_from_utf8 : Bytes → List ℕ
cpts_from_utf8 text = cpts_loop (length text) text

-- What the callers build codepoint by codepoint: the text of a run of codepoints.
unfoldable pub utf8_text : List ℕ → Bytes
utf8_text [] = []
utf8_text (c ∷ cpts) = cpt_to_utf8 c ++ utf8_text cpts
