-- ===== src/Quant/Q8.antt =====
-- src/quant/q8_0.h: tensors of 32-weight blocks. A weight is its signed byte and the pattern of the
-- scale that multiplies it.
use pocket_llm.Prelude.{
  ℕ, zero, suc, ◌+◌, ◌*◌, ◌/◌, ◌%◌, ◌≤◌, ◌≡◌, refl, ap, ◌∙◌, List, [], ◌∷◌, ◌++◌, Option, none,
  some, Bytes, ◌==◌, if◌then◌else◌, length, length-append, drop, length-drop, arith, get_or,
  get_or-append, ◌<◌,
}
use pocket_llm.Prelude.Int.{ℤ}
use pocket_llm.Quant.Half.{load_u16, half_to_float}
use pocket_llm.Quant.Blocks.{as_int8, as_byte}

abbrev pub q8_0_block_elems : ℕ
q8_0_block_elems = 32

abbrev pub q8_0_block_bytes : ℕ
q8_0_block_bytes = 34

unfoldable pub q8_0_scale : Bytes → ℕ
q8_0_scale block = half_to_float (load_u16 block)

-- The loop over the values of a block, with `count` rounds left from `i` on.
unfoldable pub values_loop : Bytes → ℕ → ℕ → List (ℤ × ℕ)
values_loop block i zero = []
values_loop block i (suc count) =
    (as_int8 block (2 + i), q8_0_scale block) ∷ values_loop block (i + 1) count

unfoldable pub q8_0_dequantize_block : Bytes → List (ℤ × ℕ)
q8_0_dequantize_block block = values_loop block 0 q8_0_block_elems

-- The loop over the blocks, with `count` blocks left from `packed` on.
unfoldable pub blocks_loop : ℕ → Bytes → List (ℤ × ℕ)
blocks_loop zero packed = []
blocks_loop (suc count) packed =
    q8_0_dequantize_block packed ++ blocks_loop count (drop q8_0_block_bytes packed)

-- `none` is the exception for a number of weights that is no multiple of 32.
unfoldable pub q8_0_dequantize : Bytes → ℕ → Option (List (ℤ × ℕ))
q8_0_dequantize packed elements =
    if elements % q8_0_block_elems == 0
    then some (blocks_loop (elements / q8_0_block_elems) packed)
    else none

unfoldable pub q8_0_packed_bytes : ℕ → ℕ
q8_0_packed_bytes elements = elements / q8_0_block_elems * q8_0_block_bytes

length-values_loop : (block : Bytes) (i count : ℕ) → length (values_loop block i count) ≡ count
unfolding values_loop
length-values_loop block i zero = refl
length-values_loop block i (suc count) = ap suc (length-values_loop block (i + 1) count)

length-blocks_loop : (count : ℕ) (packed : Bytes) → length (blocks_loop count packed) ≡ count * 32
unfolding blocks_loop q8_0_dequantize_block
length-blocks_loop zero packed = omega arith
length-blocks_loop (suc count) packed = omega (
  arith,
  length-append (values_loop packed 0 32) (blocks_loop count (drop 34 packed)),
  length-values_loop packed 0 32,
  length-blocks_loop count (drop 34 packed),
)

values_loop-append :
    (block rest : Bytes) (i count : ℕ)
    → i + count ≤ 32
    → 34 ≤ length block
    → values_loop (block ++ rest) i count ≡ values_loop block i count
unfolding values_loop q8_0_scale load_u16 as_int8 as_byte
values_loop-append block rest i zero h lt = refl
values_loop-append block rest i (suc count) h lt =
    let byte : (k : ℕ) → k < 34 → get_or (block ++ rest) k 0 ≡ get_or block k 0 =
      λ k l. ground (arith, get_or-append block rest k 0) in
    rw
      (
        byte 0 (omega arith),
        byte 1 (omega arith),
        byte (2 + i) (omega arith),
        values_loop-append block rest (i + 1) count (omega arith) lt,
      )
      refl

drop-append : (n : ℕ) (xs ys : Bytes) → n ≤ length xs → drop n (xs ++ ys) ≡ drop n xs ++ ys
drop-append zero xs ys h = refl
drop-append (suc n) [] ys h = absurd (omega arith)
drop-append (suc n) (x ∷ xs) ys h = drop-append n xs ys (omega arith)

blocks_loop-append :
    (count : ℕ) (packed rest : Bytes)
    → count * 34 ≤ length packed
    → blocks_loop count (packed ++ rest) ≡ blocks_loop count packed
unfolding blocks_loop q8_0_dequantize_block
blocks_loop-append zero packed rest h = refl
blocks_loop-append (suc count) packed rest h =
    rw
      (
        values_loop-append packed rest 0 32 (omega arith) (omega arith),
        drop-append 34 packed rest (omega arith),
        blocks_loop-append count (drop 34 packed) rest (omega (arith, length-drop 34 packed)),
      )
      refl

-- A q8_0 tensor of a whole number of blocks is widened to as many weights as were declared, and they
-- depend on its packed bytes alone.
pub q8_0_dequantize-packed :
    (packed rest : Bytes) (elements : ℕ)
    → elements % 32 ≡ 0
    → q8_0_packed_bytes elements ≤ length packed
    → (weights : List (ℤ × ℕ)) × (q8_0_dequantize packed elements ≡ some weights)
      × (length weights ≡ elements)
      × (q8_0_dequantize (packed ++ rest) elements ≡ some weights)
unfolding q8_0_dequantize q8_0_packed_bytes
q8_0_dequantize-packed packed rest elements whole h = (
  blocks_loop (elements / 32) packed,
  ground (arith, whole),
  length-blocks_loop (elements / 32) packed ∙ omega arith,
  ground (arith, whole, blocks_loop-append (elements / 32) packed rest h),
)
