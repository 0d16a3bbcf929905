-- ===== src/Quant/Blocks.antt =====
-- src/quant/blocks.h: one weight of a k-quant super-block. The integers and the half-precision
-- patterns that the decoders compute are modelled, and how they are combined; the arithmetic of
-- `float` is not.
use pocket_llm.Prelude.{
  ℕ, ◌+◌, ◌-◌, ◌*◌, ◌/◌, ◌%◌, ◌^◌, bit_and, bit_or, Bool, not, List, Bytes, ltb, leb, ◌==◌,
  if◌then◌else◌, get_or,
}
use Prim.Native.Nat.{bit_xor}
use pocket_llm.Prelude.Int.{ℤ, pos, negsuc}
use pocket_llm.Quant.Half.{half_to_float}

-- What a decoder returns. `affine d scale q dmin minimum` is `d * scale * q - dmin * minimum`, `scaled`
-- is `d * scale * q`, and `code d scale magnitude negative` is
-- `d * (0.5 + scale) * 0.25 * magnitude * ±1`, where `d` and `dmin` are the patterns of floats.
pub data Weight : Type 0 where
  affine : ℕ → ℕ → ℕ → ℕ → ℕ → Weight
  scaled : ℕ → ℤ → ℤ → Weight
  code : ℕ → ℕ → ℕ → Bool → Weight

unfoldable pub as_byte : Bytes → ℕ → ℕ
as_byte p offset = get_or p offset 0

unfoldable pub as_half : Bytes → ℕ → ℕ
as_half p offset = half_to_float (bit_or (as_byte p offset) (as_byte p (offset + 1) * 2 ^ 8))

-- `a - b` on `int`.
abbrev pub minus : ℕ → ℕ → ℤ
minus a b = if leb b a then pos (a - b) else negsuc (b - a - 1)

unfoldable pub as_int8 : Bytes → ℕ → ℤ
as_int8 p offset =
    let value = as_byte p offset in if leb 128 value then minus value 256 else pos value

-- `get_scale_min_k4` on the twelve bytes that begin at `at`: the scale and the minimum.
unfoldable pub get_scale_min_k4 : Bytes → ℕ → ℕ → ℕ × ℕ
get_scale_min_k4 block at j =
    if ltb j 4
    then (bit_and (as_byte block (at + j)) 63, bit_and (as_byte block (at + j + 4)) 63)
    else (
      bit_or (bit_and (as_byte block (at + j + 4)) 0x0f)
          (as_byte block (at + j - 4) / 2 ^ 6 * 2 ^ 4),
      bit_or (as_byte block (at + j + 4) / 2 ^ 4) (as_byte block (at + j) / 2 ^ 6 * 2 ^ 4),
    )

unfoldable pub dequant_q4_k : Bytes → ℕ → Weight
dequant_q4_k block index =
    let group = index / 32 in
    let q = as_byte block (16 + group / 2 * 32 + index % 32) in
    let nibble = if group % 2 == 0 then bit_and q 0x0f else q / 2 ^ 4 in
    let pair = get_scale_min_k4 block 4 group in
    affine (as_half block 0) pair.0 nibble (as_half block 2) pair.1

unfoldable pub q6_k_raw_value : Bytes → ℕ → ℕ
q6_k_raw_value block index =
    let half = index / 128 in
    let sub = index % 128 / 32 in
    let i = index % 128 % 32 in
    let ql = as_byte block (half * 64 + sub % 2 * 32 + i) in
    let qh = as_byte block (128 + half * 32 + i) in
    let high = bit_and (qh / 2 ^ (2 * sub)) 3 * 2 ^ 4 in
    bit_or (if ltb sub 2 then bit_and ql 0x0f else ql / 2 ^ 4) high

unfoldable pub dequant_q6_k_from : Bytes → ℕ → ℕ → Weight
dequant_q6_k_from block q index =
    let half = index / 128 in
    let sub = index % 128 / 32 in
    let i = index % 128 % 32 in
    scaled (as_half block 208) (as_int8 block (192 + half * 8 + i / 16 + 2 * sub)) (minus q 32)

unfoldable pub dequant_q6_k : Bytes → ℕ → Weight
dequant_q6_k block index = dequant_q6_k_from block (q6_k_raw_value block index) index

unfoldable pub dequant_q2_k : Bytes → ℕ → Weight
dequant_q2_k block index =
    let group = index / 16 in
    let pair = group % 8 in
    let byte = 16 + group / 8 * 32 + pair % 2 * 16 + index % 16 in
    let q = bit_and (as_byte block byte / 2 ^ (pair / 2 * 2)) 3 in
    let packed = as_byte block group in
    affine (as_half block 80) (bit_and packed 0x0f) q (as_half block 82) (packed / 2 ^ 4)

unfoldable pub dequant_q3_k : Bytes → ℕ → Weight
dequant_q3_k block index =
    let group = index / 16 in
    let low4 =
      if ltb group 8
      then bit_and (as_byte block (96 + group)) 0x0f
      else as_byte block (96 + group - 8) / 2 ^ 4 in
    let high2 = bit_and (as_byte block (104 + group % 4) / 2 ^ (2 * (group / 4))) 3 in
    let run = index % 128 in
    let quad =
      bit_and (as_byte block (32 + index / 128 * 32 + run % 32) / 2 ^ (2 * (run / 32))) 3 in
    let high = bit_and (as_byte block (index % 32) / 2 ^ (index / 32)) 1 in
    scaled (as_half block 108) (minus (bit_or low4 (high2 * 2 ^ 4)) 32)
      (minus quad (if high == 0 then 4 else 0))

unfoldable pub dequant_q5_k : Bytes → ℕ → Weight
dequant_q5_k block index =
    let pair = index / 64 in
    let high_nibble = index % 64 / 32 in
    let i = index % 32 in
    let q = as_byte block (48 + pair * 32 + i) in
    let qh = as_byte block (16 + i) in
    let bit = bit_and (qh / 2 ^ (2 * pair + high_nibble)) 1 in
    let p = get_scale_min_k4 block 4 (pair * 2 + high_nibble) in
    let nibble = if high_nibble == 0 then bit_and q 0x0f else q / 2 ^ 4 in
    affine (as_half block 0) p.0 (nibble + (if bit == 0 then 0 else 16)) (as_half block 2) p.1

-- `parity7`, folded by exclusive or.
unfoldable pub parity7 : ℕ → ℕ
parity7 value =
    let a = bit_xor value (value / 2 ^ 4) in
    let b = bit_xor a (a / 2 ^ 2) in bit_and (bit_xor b (b / 2)) 1

unfoldable pub iq2_is_negative : ℕ → ℕ → Bool
iq2_is_negative sign_index j =
    let signs = bit_or sign_index (parity7 sign_index * 2 ^ 7) in
    not (bit_and (signs / 2 ^ j) 1 == 0)

-- The two codebooks, the tables of src/quant/iq2_grid.h.
pub record Codebooks : Type 0 where
  pub iq2xxs_grid : List ℕ
  pub iq2xs_grid : List ℕ

unfoldable pub dequant_iq2_xxs : Codebooks → Bytes → ℕ → Weight
dequant_iq2_xxs c block index =
    let part = index % 32 / 8 in
    let j = index % 8 in
    let chunk = 2 + index / 32 * 8 in
    let aux1 =
      as_byte block (chunk + 4)
      + as_byte block (chunk + 5) * 2 ^ 8
      + as_byte block (chunk + 6) * 2 ^ 16
      + as_byte block (chunk + 7) * 2 ^ 24 in
    let sign_index = bit_and (aux1 / 2 ^ (7 * part)) 127 in
    let magnitude =
      bit_and (get_or c.iq2xxs_grid (as_byte block (chunk + part)) 0 / 2 ^ (8 * j)) 0xff in
    code (as_half block 0) (aux1 / 2 ^ 28) magnitude (iq2_is_negative sign_index j)

unfoldable pub dequant_iq2_xs : Codebooks → Bytes → ℕ → Weight
dequant_iq2_xs c block index =
    let sub = index / 32 in
    let part = index % 32 / 8 in
    let j = index % 8 in
    let chunk = 2 + sub * 8 in
    let word =
      bit_or (as_byte block (chunk + part * 2)) (as_byte block (chunk + part * 2 + 1) * 2 ^ 8) in
    let packed = as_byte block (66 + sub) in
    let scale = if ltb part 2 then bit_and packed 0x0f else packed / 2 ^ 4 in
    let magnitude = bit_and (get_or c.iq2xs_grid (bit_and word 511) 0 / 2 ^ (8 * j)) 0xff in
    code (as_half block 0) scale magnitude (iq2_is_negative (word / 2 ^ 9) j)

-- `block_bytes_of`: 0 for a type that is not decoded.
unfoldable pub block_bytes_of : ℕ → ℕ
block_bytes_of type_id =
    if type_id == 10
    then 84
    else if type_id == 11
    then 110
    else if type_id == 12
    then 144
    else if type_id == 13
    then 176
    else if type_id == 14
    then 210
    else if type_id == 16
    then 66
    else if type_id == 17
    then 74
    else 0

unfoldable pub dequant_block : Codebooks → ℕ → Bytes → ℕ → Weight
dequant_block c type_id block index =
    if type_id == 10
    then dequant_q2_k block index
    else if type_id == 11
    then dequant_q3_k block index
    else if type_id == 13
    then dequant_q5_k block index
    else if type_id == 14
    then dequant_q6_k block index
    else if type_id == 16
    then dequant_iq2_xxs c block index
    else if type_id == 17
    then dequant_iq2_xs c block index
    else dequant_q4_k block index
