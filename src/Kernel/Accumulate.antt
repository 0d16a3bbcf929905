-- ===== src/Kernel/Accumulate.antt =====
-- `quant_block_accumulate` of src/kernel/cuda/backend.cu: the weights that a device thread decodes out of one
-- block, in the order in which their products go into the sum. The float arithmetic of the sum is not
-- modelled. The bytes of an aligned load are taken out of its little-endian words.
pub mod Columns
pub mod Order
mod Tests
use pocket_llm.Prelude.{
  ℕ, zero, suc, ◌+◌, ◌-◌, ◌*◌, ◌/◌, ◌%◌, ◌^◌, bit_and, bit_or, Bool, true, false, not, List, [],
  ◌∷◌, ◌++◌, Bytes, ltb, leb, ◌==◌, if◌then◌else◌,
}
use pocket_llm.Prelude.Int.{ℤ, pos}
use pocket_llm.Quant.Half.{half_to_float}
use pocket_llm.Quant.Blocks.{
  Weight, affine, scaled, minus, as_byte, as_half, as_int8, Codebooks, dequant_block,
}

-- A column of the block and its weight.
abbrev pub Term : Type 0
Term = ℕ × Weight

-- The 32-bit word that is loaded from an address.
unfoldable pub loaded_word : Bytes → ℕ → ℕ
loaded_word block at =
    as_byte block at
    + as_byte block (at + 1) * 2 ^ 8
    + as_byte block (at + 2) * 2 ^ 16
    + as_byte block (at + 3) * 2 ^ 24

-- Byte `o` of the words that are loaded from `at` on.
unfoldable pub word_byte : Bytes → ℕ → ℕ → ℕ
word_byte block at o = loaded_word block (at + o / 4 * 4) / 2 ^ (o % 4 * 8) % 2 ^ 8

-- `for (i = from; i < from + count; ++i, ++col)`
unfoldable pub run_terms : (ℕ → Weight) → (col from count : ℕ) → List Term
run_terms weight col from zero = []
run_terms weight col from (suc count) =
    (col, weight from) ∷ run_terms weight (col + 1) (from + 1) count

-- The runs from `group` on, each of `size` columns.
unfoldable pub all_runs : (ℕ → ℕ → Weight) → (size group col count : ℕ) → List Term
all_runs weight size group col zero = []
all_runs weight size group col (suc count) =
    run_terms (weight group) col 0 size ++ all_runs weight size (group + 1) (col + size) count

-- The repacked Q6_K block.
unfoldable pub repacked_weight : Bytes → ℕ → ℕ → Weight
repacked_weight block g i =
    let q = word_byte block (g * 16) i in
    scaled (as_half block 272) (as_int8 block (256 + g)) (if ltb q 128 then pos q else minus q 256)

-- The scale and the minimum of a Q4_K group, out of the header's words.
unfoldable pub header_pair : Bytes → ℕ → ℕ × ℕ
header_pair block g =
    let hb = word_byte block 0 in
    if ltb g 4 then (bit_and (hb (4 + g)) 63, bit_and (hb (4 + g + 4)) 63) else (
      bit_or (bit_and (hb (4 + g + 4)) 0x0f) (hb (4 + g - 4) / 2 ^ 6 * 2 ^ 4),
      bit_or (hb (4 + g + 4) / 2 ^ 4) (hb (4 + g) / 2 ^ 6 * 2 ^ 4),
    )

unfoldable pub q4_weight : Bytes → ℕ → ℕ → Weight
q4_weight block g i =
    let hb = word_byte block 0 in
    let q = word_byte block (16 + g / 2 * 32) i in
    let nibble = if not (g % 2 == 0) then q / 2 ^ 4 else bit_and q 0x0f in
    affine (half_to_float (bit_or (hb 0) (hb 1 * 2 ^ 8))) (header_pair block g).0 nibble
      (half_to_float (bit_or (hb 2) (hb 3 * 2 ^ 8))) (header_pair block g).1

unfoldable pub q6_weight : Bytes → ℕ → ℕ → ℕ → Weight
q6_weight block half sub i =
    let ql_byte = as_byte block (half * 64 + sub % 2 * 32 + i) in
    let qh_byte = as_byte block (128 + half * 32 + i) in
    let high = bit_and (qh_byte / 2 ^ (2 * sub)) 3 * 2 ^ 4 in
    let low = if ltb sub 2 then bit_and ql_byte 0x0f else ql_byte / 2 ^ 4 in
    let scale = as_int8 block (192 + half * 8 + i / 16 + 2 * sub) in
    scaled (as_half block 208) scale (minus (bit_or low high) 32)

unfoldable pub block_terms : Codebooks → ℕ → Bytes → Bool → List Term
block_terms c type_id block q6k_repacked =
    if q6k_repacked
    then all_runs (repacked_weight block) 16 0 0 16
    else if type_id == 12
    then all_runs (q4_weight block) 32 0 0 8
    else if not (type_id == 14)
    then run_terms (dequant_block c type_id block) 0 0 256
    else all_runs (q6_weight block 0) 32 0 0 4 ++ all_runs (q6_weight block 1) 32 0 128 4
