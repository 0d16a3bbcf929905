-- ===== src/Kernel/Accumulate/Order.antt =====
-- A device thread sums the weights that the file's decoder finds, in the decoder's order.
use mathlib.Core.Path.{subst}
use native.Mathlib.Nat.{zero-add}
use pocket_llm.Prelude.{
  ℕ, zero, suc, ◌+◌, ◌-◌, ◌*◌, ◌/◌, ◌%◌, ◌^◌, ◌<◌, ◌≡◌, refl, sym, ap, ◌∙◌, bit_or, Bool, true,
  false, not, ◌∷◌, ◌++◌, Bytes, IsByte, All, drop, ltb, ◌==◌, if◌then◌else◌, ==_iff, Bool-cases,
  inl, inr, arith,
}
use pocket_llm.Prelude.Int.{pos}
use pocket_llm.Quant.Half.{half_to_float}
use pocket_llm.Quant.Blocks.{
  Weight, minus, as_byte, as_half, as_int8, get_scale_min_k4, dequant_q4_k, q6_k_raw_value,
  dequant_q6_k_from, dequant_q6_k, Codebooks, dequant_block,
}
use pocket_llm.Kernel.Repack.{Buffer, expand_block, repack_weights_q6k, expanded_weight}
use pocket_llm.Kernel.Repack.Expanded.{
  expanded_weight-expand_block, expand_block-IsByte, drop-IsByte, repack_weights_q6k-expand_block,
}
use pocket_llm.Kernel.Accumulate.{
  word_byte, run_terms, all_runs, repacked_weight, header_pair, q4_weight, q6_weight, block_terms,
}
use pocket_llm.Kernel.Accumulate.Columns.{
  columns, columns-append, run_terms-columns, all_runs-columns, word_byte-as_byte,
}

if-not : (b : Bool) (x y : ℕ) → (if not b then x else y) ≡ (if b then y else x)
if-not true x y = refl
if-not false x y = refl

signed_byte :
    (block : Bytes) (at : ℕ)
    → (if ltb (as_byte block at) 128 then pos (as_byte block at) else minus (as_byte block at) 256)
      ≡ as_int8 block at
unfolding as_int8
signed_byte block at = ground arith

module _ (block : Bytes) (bytes : All IsByte block) where
  header_byte : (o : ℕ) → word_byte block 0 o ≡ as_byte block o
  header_byte o = word_byte-as_byte block 0 o bytes ∙ ap (as_byte block) (omega arith)

  header_pair-get_scale_min_k4 : (g : ℕ) → header_pair block g ≡ get_scale_min_k4 block 4 g
  unfolding header_pair get_scale_min_k4
  header_pair-get_scale_min_k4 g =
      ground (arith, header_byte (4 + g), header_byte (4 + g + 4), header_byte (4 + g - 4))

  header_d :
      half_to_float (bit_or (word_byte block 0 0) (word_byte block 0 1 * 2 ^ 8)) ≡ as_half block 0
  unfolding as_half
  header_d = rw (header_byte 0, header_byte 1) refl

  header_dmin :
      half_to_float (bit_or (word_byte block 0 2) (word_byte block 0 3 * 2 ^ 8)) ≡ as_half block 2
  unfolding as_half
  header_dmin = rw (header_byte 2, header_byte 3) refl

  q4_weight-dequant_q4_k :
      (g i : ℕ) → i < 32 → q4_weight block g i ≡ dequant_q4_k block (g * 32 + i)
  unfolding q4_weight dequant_q4_k
  q4_weight-dequant_q4_k g i h =
      let group : (g * 32 + i) / 32 ≡ g = omega arith in
      let inside : (g * 32 + i) % 32 ≡ i = omega arith in
      let q = word_byte-as_byte block (16 + g / 2 * 32) i bytes in
      rw
        (
          group,
          inside,
          q,
          header_pair-get_scale_min_k4 g,
          header_d,
          header_dmin,
          if-not (g % 2 == 0),
        )
        refl

  q6_weight-dequant_q6_k :
      (half sub i : ℕ)
      → sub < 4
      → i < 32
      → q6_weight block half sub i ≡ dequant_q6_k block (half * 128 + (sub * 32 + i))
  unfolding q6_weight dequant_q6_k dequant_q6_k_from q6_k_raw_value
  q6_weight-dequant_q6_k half sub i hs h =
      let at : (half * 128 + (sub * 32 + i)) / 128 ≡ half = omega arith in
      let below : (half * 128 + (sub * 32 + i)) % 128 ≡ sub * 32 + i = omega arith in
      let quarter : (sub * 32 + i) / 32 ≡ sub = omega arith in
      let inside : (sub * 32 + i) % 32 ≡ i = omega arith in rw (at, below, quarter, inside) refl

  repacked_weight-expanded_weight :
      (g i : ℕ) → i < 16 → repacked_weight block g i ≡ expanded_weight block (g * 16 + i)
  unfolding repacked_weight expanded_weight
  repacked_weight-expanded_weight g i h =
      let group : (g * 16 + i) / 16 ≡ g = omega arith in
      let inside : (g * 16 + i) % 16 ≡ i = omega arith in
      rw (group, inside, word_byte-as_byte block (g * 16) i bytes, signed_byte block (g * 16 + i))
        refl

  q4_terms : all_runs (q4_weight block) 32 0 0 8 ≡ columns (dequant_q4_k block) 0 256
  q4_terms = all_runs-columns (q4_weight block) (dequant_q4_k block) 32 0 0 8 (λ k i hk h.
      ap (λ g. q4_weight block g i) (zero-add k)
      ∙ q4_weight-dequant_q4_k k i h
      ∙ ap (dequant_q4_k block) (sym (zero-add (k * 32 + i))))

  half_terms :
      (half : ℕ)
      → all_runs (q6_weight block half) 32 0 (half * 128) 4
        ≡ columns (dequant_q6_k block) (half * 128) 128
  half_terms half =
      all_runs-columns (q6_weight block half) (dequant_q6_k block) 32 0 (half * 128) 4 (λ k i hk h.
        ap (λ sub. q6_weight block half sub i) (zero-add k) ∙ q6_weight-dequant_q6_k half k i hk h)

  q6_terms :
      all_runs (q6_weight block 0) 32 0 0 4 ++ all_runs (q6_weight block 1) 32 0 128 4
      ≡ columns (dequant_q6_k block) 0 256
  q6_terms =
      ap (λ l. l ++ all_runs (q6_weight block 1) 32 0 128 4) (half_terms 0)
      ∙ ap (λ l. columns (dequant_q6_k block) 0 128 ++ l) (half_terms 1)
      ∙ sym (columns-append (dequant_q6_k block) 0 128 128)

  repacked_terms :
      all_runs (repacked_weight block) 16 0 0 16 ≡ columns (expanded_weight block) 0 256
  repacked_terms =
      all_runs-columns (repacked_weight block) (expanded_weight block) 16 0 0 16 (λ k i hk h.
        ap (λ g. repacked_weight block g i) (zero-add k)
        ∙ repacked_weight-expanded_weight k i h
        ∙ ap (expanded_weight block) (sym (zero-add (k * 16 + i))))

columns-same :
    (f h : ℕ → Weight) (col count : ℕ)
    → ((i : ℕ) → i < col + count → f i ≡ h i)
    → columns f col count ≡ columns h col count
columns-same f h col zero e = refl
columns-same f h col (suc count) e =
    ap (λ w. (col, w) ∷ columns f (col + 1) count) (e col (omega arith))
    ∙ ap (λ l. (col, h col) ∷ l) (columns-same f h (col + 1) count (λ i lt. e i (omega arith)))

expanded_terms :
    (c : Codebooks) (block : Bytes)
    → All IsByte block
    → block_terms c 14 (expand_block block) true ≡ columns (dequant_block c 14 block) 0 256
unfolding block_terms dequant_block
expanded_terms c block bytes =
    repacked_terms (expand_block block) (expand_block-IsByte block bytes)
    ∙ columns-same (expanded_weight (expand_block block)) (dequant_block c 14 block) 0 256
        (λ i lt. expanded_weight-expand_block block i bytes (omega arith))

-- The block is decoded as the file's decoder does it.
IsDecoded : Codebooks → Bytes → ℕ → Type 0
IsDecoded c block type_id =
    block_terms c type_id block false ≡ columns (dequant_block c type_id block) 0 256

q4-IsDecoded : (c : Codebooks) (block : Bytes) → All IsByte block → IsDecoded c block 12
unfolding IsDecoded block_terms dequant_block
q4-IsDecoded c block bytes =
    q4_terms block bytes
    ∙ columns-same (dequant_q4_k block) (dequant_block c 12 block) 0 256 (λ i lt. refl)

q6-IsDecoded : (c : Codebooks) (block : Bytes) → All IsByte block → IsDecoded c block 14
unfolding IsDecoded block_terms dequant_block
q6-IsDecoded c block bytes =
    q6_terms block bytes
    ∙ columns-same (dequant_q6_k block) (dequant_block c 14 block) 0 256 (λ i lt. refl)

other-IsDecoded :
    (c : Codebooks) (block : Bytes) (type_id : ℕ)
    → (type_id == 12) ≡ false
    → (type_id == 14) ≡ false
    → IsDecoded c block type_id
unfolding IsDecoded block_terms
other-IsDecoded c block type_id e e' =
    let walk =
      run_terms-columns (dequant_block c type_id block) (dequant_block c type_id block) 0 0 256
        (λ j lt. refl) in
    ap
      (λ b.
        if b
        then all_runs (q4_weight block) 32 0 0 8
        else if not (type_id == 14)
        then run_terms (dequant_block c type_id block) 0 0 256
        else all_runs (q6_weight block 0) 32 0 0 4 ++ all_runs (q6_weight block 1) 32 0 128 4)
      e
    ∙ ap
        (λ b.
          if not b
          then run_terms (dequant_block c type_id block) 0 0 256
          else all_runs (q6_weight block 0) 32 0 0 4 ++ all_runs (q6_weight block 1) 32 0 128 4)
        e'
    ∙ walk

any-IsDecoded :
    (c : Codebooks) (block : Bytes) (type_id : ℕ) → All IsByte block → IsDecoded c block type_id
any-IsDecoded c block type_id bytes = elim (Bool-cases (type_id == 12)) [
  | inl e ↦ subst (IsDecoded c block) (sym ((==_iff type_id 12).0 e)) (q4-IsDecoded c block bytes)
  | inr e ↦ elim (Bool-cases (type_id == 14)) [
    | inl e' ↦
        subst (IsDecoded c block) (sym ((==_iff type_id 14).0 e')) (q6-IsDecoded c block bytes)
    | inr e' ↦ other-IsDecoded c block type_id e e'
  ]
]

-- For every format, and whichever walk the device has for it, the columns of a block of bytes are visited
-- from the first to the last, each once, with the weight that the file's decoder finds there. So they are for
-- a block of a Q6_K matrix after its repack, however many threads shared it: its weights are those of
-- the block of the file that it was made from.
pub block_terms-dequant_block :
    (c : Codebooks) (type_id : ℕ) (block : Bytes) (workers : ℕ) (blocks : Bytes) (n k r b : ℕ)
    (out : Buffer Bytes)
    → All IsByte block
    → All IsByte blocks
    → r < n
    → b < k / 256
    → (block_terms c type_id block false ≡ columns (dequant_block c type_id block) 0 256)
      × (block_terms c 14 (repack_weights_q6k workers blocks n k out (r * (k / 256) + b)) true
          ≡ columns (dequant_block c 14 (drop (r * (k / 256 * 210) + b * 210) blocks)) 0 256)
unfolding IsDecoded
block_terms-dequant_block c type_id block workers blocks n k r b out bytes all hr hb =
    let at = r * (k / 256 * 210) + b * 210 in
    (
      any-IsDecoded c block type_id bytes,
      ap (λ expanded. block_terms c 14 expanded true)
            (repack_weights_q6k-expand_block workers blocks n k r b out hr hb)
          ∙ expanded_terms c (drop at blocks) (drop-IsByte at blocks all),
    )
