-- ===== src/Quant/Local.antt =====
-- The decoders of src/quant/blocks.h read the block they are given and nothing behind it.
use pocket_llm.Prelude.{
  ℕ, ◌+◌, ◌-◌, ◌*◌, ◌/◌, ◌%◌, ◌^◌, ◌<◌, ◌≤◌, ◌≡◌, refl, bit_and, Bytes, ◌++◌, ltb, if◌then◌else◌,
  get_or-append, length, arith,
}
use pocket_llm.Quant.Blocks.{
  as_byte, as_half, as_int8, get_scale_min_k4, dequant_q4_k, dequant_q6_k, dequant_q6_k_from,
  q6_k_raw_value, dequant_q2_k, dequant_q3_k, dequant_q5_k, Codebooks, dequant_iq2_xxs,
  dequant_iq2_xs, block_bytes_of, dequant_block,
}

module _ (block rest : Bytes) where
  as_byte-append :
      (offset : ℕ) → offset < length block → as_byte (block ++ rest) offset ≡ as_byte block offset
  unfolding as_byte
  as_byte-append offset h = ground (arith, get_or-append block rest offset 0)

  as_half-append :
      (offset : ℕ)
      → offset + 1 < length block
      → as_half (block ++ rest) offset ≡ as_half block offset
  unfolding as_half
  as_half-append offset h =
      rw (as_byte-append offset (omega arith), as_byte-append (offset + 1) h) refl

  get_scale_min_k4-append :
      (j : ℕ)
      → j < 8
      → 16 ≤ length block
      → get_scale_min_k4 (block ++ rest) 4 j ≡ get_scale_min_k4 block 4 j
  unfolding get_scale_min_k4
  get_scale_min_k4-append j h lt =
      ground (arith, as_byte-append (4 + j), as_byte-append (4 + j + 4), as_byte-append (4 + j - 4))

  dequant_q4_k-append :
      (index : ℕ)
      → index < 256
      → length block ≡ 144
      → dequant_q4_k (block ++ rest) index ≡ dequant_q4_k block index
  unfolding dequant_q4_k
  dequant_q4_k-append index h lt =
      rw
        (
          as_half-append 0 (omega arith),
          as_half-append 2 (omega arith),
          get_scale_min_k4-append (index / 32) (omega arith) (omega arith),
          as_byte-append (16 + index / 32 / 2 * 32 + index % 32) (omega arith),
        )
        refl

  q6_k_raw_value-append :
      (index : ℕ)
      → index < 256
      → length block ≡ 210
      → q6_k_raw_value (block ++ rest) index ≡ q6_k_raw_value block index
  unfolding q6_k_raw_value
  q6_k_raw_value-append index h lt =
      rw
        (
          as_byte-append (index / 128 * 64 + index % 128 / 32 % 2 * 32 + index % 128 % 32)
              (omega arith),
          as_byte-append (128 + index / 128 * 32 + index % 128 % 32) (omega arith),
        )
        refl

  as_int8-append :
      (offset : ℕ) → offset < length block → as_int8 (block ++ rest) offset ≡ as_int8 block offset
  unfolding as_int8
  as_int8-append offset h = rw (as_byte-append offset h) refl

  dequant_q6_k-append :
      (index : ℕ)
      → index < 256
      → length block ≡ 210
      → dequant_q6_k (block ++ rest) index ≡ dequant_q6_k block index
  unfolding dequant_q6_k dequant_q6_k_from
  dequant_q6_k-append index h lt =
      rw
        (
          q6_k_raw_value-append index h lt,
          as_half-append 208 (omega arith),
          as_int8-append (192 + index / 128 * 8 + index % 128 % 32 / 16 + 2 * (index % 128 / 32))
              (omega arith),
        )
        refl

  dequant_q2_k-append :
      (index : ℕ)
      → index < 256
      → length block ≡ 84
      → dequant_q2_k (block ++ rest) index ≡ dequant_q2_k block index
  unfolding dequant_q2_k
  dequant_q2_k-append index h lt =
      rw
        (
          as_half-append 80 (omega arith),
          as_half-append 82 (omega arith),
          as_byte-append (index / 16) (omega arith),
          as_byte-append (16 + index / 16 / 8 * 32 + index / 16 % 8 % 2 * 16 + index % 16)
              (omega arith),
        )
        refl

  dequant_q3_k-append :
      (index : ℕ)
      → index < 256
      → length block ≡ 110
      → dequant_q3_k (block ++ rest) index ≡ dequant_q3_k block index
  unfolding dequant_q3_k
  dequant_q3_k-append index h lt =
      let low : ((if ltb (index / 16) 8
            then bit_and (as_byte (block ++ rest) (96 + index / 16)) 0x0f
            else as_byte (block ++ rest) (96 + index / 16 - 8) / 2 ^ 4)
          ≡ (if ltb (index / 16) 8
              then bit_and (as_byte block (96 + index / 16)) 0x0f
              else as_byte block (96 + index / 16 - 8) / 2 ^ 4)) =
        ground (arith, as_byte-append (96 + index / 16), as_byte-append (96 + index / 16 - 8)) in
      rw
        (
          low,
          as_half-append 108 (omega arith),
          as_byte-append (104 + index / 16 % 4) (omega arith),
          as_byte-append (32 + index / 128 * 32 + index % 128 % 32) (omega arith),
          as_byte-append (index % 32) (omega arith),
        )
        refl

  dequant_q5_k-append :
      (index : ℕ)
      → index < 256
      → length block ≡ 176
      → dequant_q5_k (block ++ rest) index ≡ dequant_q5_k block index
  unfolding dequant_q5_k
  dequant_q5_k-append index h lt =
      rw
        (
          as_half-append 0 (omega arith),
          as_half-append 2 (omega arith),
          get_scale_min_k4-append (index / 64 * 2 + index % 64 / 32) (omega arith) (omega arith),
          as_byte-append (48 + index / 64 * 32 + index % 32) (omega arith),
          as_byte-append (16 + index % 32) (omega arith),
        )
        refl

  dequant_iq2_xxs-append :
      (c : Codebooks) (index : ℕ)
      → index < 256
      → length block ≡ 66
      → dequant_iq2_xxs c (block ++ rest) index ≡ dequant_iq2_xxs c block index
  unfolding dequant_iq2_xxs
  dequant_iq2_xxs-append c index h lt =
      rw
        (
          as_half-append 0 (omega arith),
          as_byte-append (2 + index / 32 * 8 + 4) (omega arith),
          as_byte-append (2 + index / 32 * 8 + 5) (omega arith),
          as_byte-append (2 + index / 32 * 8 + 6) (omega arith),
          as_byte-append (2 + index / 32 * 8 + 7) (omega arith),
          as_byte-append (2 + index / 32 * 8 + index % 32 / 8) (omega arith),
        )
        refl

  dequant_iq2_xs-append :
      (c : Codebooks) (index : ℕ)
      → index < 256
      → length block ≡ 74
      → dequant_iq2_xs c (block ++ rest) index ≡ dequant_iq2_xs c block index
  unfolding dequant_iq2_xs
  dequant_iq2_xs-append c index h lt =
      rw
        (
          as_half-append 0 (omega arith),
          as_byte-append (66 + index / 32) (omega arith),
          as_byte-append (2 + index / 32 * 8 + index % 32 / 8 * 2) (omega arith),
          as_byte-append (2 + index / 32 * 8 + index % 32 / 8 * 2 + 1) (omega arith),
        )
        refl

-- A decoder reads its own block and nothing behind it: for each of the seven formats, every weight of
-- a block of the format's size is the same whatever bytes follow.
pub dequant_block-append :
    (c : Codebooks) (type_id : ℕ) (block rest : Bytes) (index : ℕ)
    → 0 < block_bytes_of type_id
    → length block ≡ block_bytes_of type_id
    → index < 256
    → dequant_block c type_id (block ++ rest) index ≡ dequant_block c type_id block index
unfolding dequant_block block_bytes_of
dequant_block-append c type_id block rest index known size h = ground (
  arith,
  dequant_q2_k-append block rest index h,
  dequant_q3_k-append block rest index h,
  dequant_q4_k-append block rest index h,
  dequant_q5_k-append block rest index h,
  dequant_q6_k-append block rest index h,
  dequant_iq2_xxs-append block rest c index h,
  dequant_iq2_xs-append block rest c index h,
)
