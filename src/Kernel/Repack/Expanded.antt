-- ===== src/Kernel/Repack/Expanded.antt =====
-- The expanded Q6_K blocks hold the weights of the file's (src/kernel/repack_q4k.cpp).
use pocket_llm.Prelude.{
  ℕ, zero, suc, ◌+◌, ◌-◌, ◌*◌, ◌/◌, ◌%◌, ◌^◌, ◌<◌, ◌≡◌, refl, ap, ◌∙◌, bit_and, [], ◌∷◌, ◌++◌,
  Bytes, IsByte, All, All-append, drop, get_or, get_or-append, length, replicate, ltb,
  if◌then◌else◌, arith, holds_below, eq_below,
}
use native.Mathlib.Nat.{div-le_self}
use pocket_llm.Prelude.Int.{ℤ}
use pocket_llm.Quant.Blocks.{
  scaled, minus, as_byte, as_half, as_int8, q6_k_raw_value, dequant_q6_k, dequant_q6_k_from,
}
use pocket_llm.Quant.Scales.{and_15, or_nibble}
use pocket_llm.Kernel.Repack.{
  Buffer, bytes_at, expand_values, expand_block, expand_rows, repack_weights_q6k, expanded_weight,
}
use pocket_llm.Kernel.Repack.Rows.{parallel_rows}

pub as_byte-IsByte : (block : Bytes) (i : ℕ) → All IsByte block → as_byte block i < 256
unfolding as_byte
as_byte-IsByte [] i h = omega arith
as_byte-IsByte (b ∷ block) zero h = h.0
as_byte-IsByte (b ∷ block) (suc i) h = as_byte-IsByte block i h.1

pub and_3 : (b : ℕ) → b < 256 → bit_and b 3 ≡ b % 4
unfolding holds_below
and_3 = eq_below 256 _ _ refl

-- The six bits of a weight are below 64.
q6_k_raw_value-lt : (block : Bytes) (index : ℕ) → All IsByte block → q6_k_raw_value block index < 64
unfolding q6_k_raw_value
q6_k_raw_value-lt block index h =
    let half = index / 128 in
    let sub = index % 128 / 32 in
    let i = index % 128 % 32 in
    let ql = as_byte block (half * 64 + sub % 2 * 32 + i) in
    let qh = as_byte block (128 + half * 32 + i) in
    let ql_byte = as_byte-IsByte block (half * 64 + sub % 2 * 32 + i) h in
    let qh_byte = as_byte-IsByte block (128 + half * 32 + i) h in
    let shifted = div-le_self qh (2 ^ (2 * sub)) in
    let high = and_3 (qh / 2 ^ (2 * sub)) (omega (arith, shifted, qh_byte)) in
    let low : (if ltb sub 2 then bit_and ql 0x0f else ql / 2 ^ 4) < 16 =
      ground (arith, and_15 ql ql_byte, ql_byte) in
    let joined =
      or_nibble (if ltb sub 2 then bit_and ql 0x0f else ql / 2 ^ 4) (bit_and (qh / 2 ^ (2 * sub)) 3)
        low (omega (arith, high)) in
    omega (arith, joined, low, high)

get_or-expand_values :
    (block : Bytes) (i count j : ℕ)
    → j < count
    → get_or (expand_values block i count) j 0 ≡ (q6_k_raw_value block (i + j) + 256 - 32) % 256
unfolding expand_values
get_or-expand_values block i zero j h = elim h [ ]
get_or-expand_values block i (suc count) zero h =
    ap (λ k. (q6_k_raw_value block k + 256 - 32) % 256) (omega arith)
get_or-expand_values block i (suc count) (suc j) h =
    get_or-expand_values block (i + 1) count j (omega arith)
    ∙ ap (λ k. (q6_k_raw_value block k + 256 - 32) % 256) (omega arith)

length-expand_values : (block : Bytes) (i count : ℕ) → length (expand_values block i count) ≡ count
unfolding expand_values
length-expand_values block i zero = refl
length-expand_values block i (suc count) = ap suc (length-expand_values block (i + 1) count)

pub get_or-bytes_at :
    (block : Bytes) (at count j : ℕ)
    → j < count
    → get_or (bytes_at block at count) j 0 ≡ as_byte block (at + j)
get_or-bytes_at block at zero j h = elim h [ ]
get_or-bytes_at block at (suc count) zero h = ap (as_byte block) (omega arith)
get_or-bytes_at block at (suc count) (suc j) h =
    get_or-bytes_at block (at + 1) count j (omega arith) ∙ ap (as_byte block) (omega arith)

pub length-bytes_at : (block : Bytes) (at count : ℕ) → length (bytes_at block at count) ≡ count
length-bytes_at block at zero = refl
length-bytes_at block at (suc count) = ap suc (length-bytes_at block (at + 1) count)

-- An entry of two lists, one behind the other.
get_or-before :
    (xs ys : Bytes) (j n : ℕ) → length xs ≡ n → j < n → get_or (xs ++ ys) j 0 ≡ get_or xs j 0
get_or-before xs ys j n e h = ground (arith, get_or-append xs ys j 0, e, h)

get_or-behind :
    (xs ys : Bytes) (j n : ℕ) → length xs ≡ n → get_or (xs ++ ys) (n + j) 0 ≡ get_or ys j 0
get_or-behind xs ys j n e =
    let same : n + j - length xs ≡ j = omega (arith, e) in
    get_or-append xs ys (n + j) 0 ∙ ground (arith, e, ap (λ k. get_or ys k 0) same)

-- What stands behind the weights of a block.
trailer : Bytes → Bytes
trailer block = bytes_at block 192 16 ++ (as_byte block 208 ∷ as_byte block 209 ∷ replicate 14 0)

-- The byte of a weight, and the bytes that are copied.
value_byte :
    (block : Bytes) (i : ℕ)
    → i < 256
    → as_byte (expand_block block) i ≡ (q6_k_raw_value block i + 256 - 32) % 256
unfolding expand_block as_byte trailer
value_byte block i h =
    get_or-before (expand_values block 0 256) (trailer block) i 256
      (length-expand_values block 0 256) h
    ∙ get_or-expand_values block 0 256 i h
    ∙ ap (λ k. (q6_k_raw_value block k + 256 - 32) % 256) (omega arith)

scale_byte :
    (block : Bytes) (i : ℕ)
    → i < 16
    → as_byte (expand_block block) (256 + i) ≡ as_byte block (192 + i)
unfolding expand_block trailer as_byte
scale_byte block i h =
    get_or-behind (expand_values block 0 256) (trailer block) i 256
      (length-expand_values block 0 256)
    ∙ get_or-before (bytes_at block 192 16) (as_byte block 208 ∷ as_byte block 209 ∷ replicate 14 0)
        i 16 (length-bytes_at block 192 16) h
    ∙ get_or-bytes_at block 192 16 i h

d_byte :
    (block : Bytes) (i : ℕ)
    → i < 2
    → as_byte (expand_block block) (272 + i) ≡ as_byte block (208 + i)
unfolding expand_block trailer as_byte
d_byte block zero h =
    get_or-behind (expand_values block 0 256) (trailer block) 16 256
      (length-expand_values block 0 256)
d_byte block (suc zero) h =
    get_or-behind (expand_values block 0 256) (trailer block) 17 256
      (length-expand_values block 0 256)
d_byte block (suc (suc i)) h = absurd (omega arith)

-- The signed byte of a six-bit value less 32.
signed_value :
    (block expanded : Bytes) (i q : ℕ)
    → q < 64
    → as_byte expanded i ≡ (q + 256 - 32) % 256
    → as_int8 expanded i ≡ minus q 32
unfolding as_int8
signed_value block expanded i q small e = ground (arith, e, small)

d_half : (block : Bytes) → as_half (expand_block block) 272 ≡ as_half block 208
unfolding as_half
d_half block = rw (d_byte block 0 (omega arith), d_byte block 1 (omega arith)) refl

group_scale :
    (block : Bytes) (g : ℕ)
    → g < 16
    → as_int8 (expand_block block) (256 + g) ≡ as_int8 block (192 + g)
unfolding as_int8
group_scale block g h = rw (scale_byte block g h) refl

scaled_eq : {d d' : ℕ} {s s' q q' : ℤ} → d ≡ d' → s ≡ s' → q ≡ q' → scaled d s q ≡ scaled d' s' q'
scaled_eq e f g = rw (e, f, g) refl

pub expanded_weight-expand_block :
    (block : Bytes) (index : ℕ)
    → All IsByte block
    → index < 256
    → expanded_weight (expand_block block) index ≡ dequant_q6_k block index
unfolding expanded_weight dequant_q6_k dequant_q6_k_from
expanded_weight-expand_block block index bytes h =
    scaled_eq (d_half block)
      (group_scale block (index / 16) (omega arith) ∙ ap (as_int8 block) (omega arith))
      (ap (as_int8 (expand_block block)) (omega arith)
        ∙ signed_value block (expand_block block) index (q6_k_raw_value block index)
            (q6_k_raw_value-lt block index bytes) (value_byte block index h))

pub drop-IsByte : (k : ℕ) (block : Bytes) → All IsByte block → All IsByte (drop k block)
drop-IsByte zero block h = h
drop-IsByte (suc k) [] h = h
drop-IsByte (suc k) (b ∷ block) h = drop-IsByte k block h.1

-- After the repack, however many threads shared it, each block is the expanded block of the file.
pub repack_weights_q6k-expand_block :
    (workers : ℕ) (blocks : Bytes) (n k r b : ℕ) (out : Buffer Bytes)
    → r < n
    → b < k / 256
    → repack_weights_q6k workers blocks n k out (r * (k / 256) + b)
      ≡ expand_block (drop (r * (k / 256 * 210) + b * 210) blocks)
unfolding repack_weights_q6k expand_rows
repack_weights_q6k-expand_block workers blocks n k r b out hr hb =
    parallel_rows (λ r b _. expand_block (drop (r * (k / 256 * 210) + b * 210) blocks)) (k / 256)
      workers n 1 r b out hb hr

-- What is written are bytes.
expand_values-IsByte : (block : Bytes) (i count : ℕ) → All IsByte (expand_values block i count)
unfolding expand_values
expand_values-IsByte block i zero = tt
expand_values-IsByte block i (suc count) = (omega arith, expand_values-IsByte block (i + 1) count)

bytes_at-IsByte :
    (block : Bytes) (at count : ℕ) → All IsByte block → All IsByte (bytes_at block at count)
bytes_at-IsByte block at zero h = tt
bytes_at-IsByte block at (suc count) h =
    (as_byte-IsByte block at h, bytes_at-IsByte block (at + 1) count h)

zeros-IsByte : (count : ℕ) → All IsByte (replicate count 0)
zeros-IsByte zero = tt
zeros-IsByte (suc count) = (omega arith, zeros-IsByte count)

pub expand_block-IsByte : (block : Bytes) → All IsByte block → All IsByte (expand_block block)
unfolding expand_block
expand_block-IsByte block h =
    All-append IsByte (expand_values block 0 256)
      (bytes_at block 192 16 ++ (as_byte block 208 ∷ as_byte block 209 ∷ replicate 14 0))
      (expand_values-IsByte block 0 256)
      (All-append IsByte (bytes_at block 192 16)
        (as_byte block 208 ∷ as_byte block 209 ∷ replicate 14 0) (bytes_at-IsByte block 192 16 h)
        (as_byte-IsByte block 208 h, (as_byte-IsByte block 209 h, zeros-IsByte 14)))
