-- ===== src/Kernel/Repack.antt =====
-- src/kernel/repack_q4k.cpp: the weight matrices that are laid out anew at load, eight columns of Q4_K
-- to a panel, and Q6_K with a byte for each weight. `k` is a multiple of 256. An array is a function
-- from its index; the address of a block is the list of the bytes that begin there.
pub mod Rows
mod Stores
mod Pairs
mod SubBlocks
pub mod Panels
pub mod Expanded
mod Tests
use pocket_llm.Prelude.{
  ℕ, zero, suc, ◌+◌, ◌-◌, ◌*◌, ◌/◌, ◌%◌, ◌^◌, bit_and, bit_or, Bool, ◌&&◌, List, [], ◌∷◌, ◌++◌,
  Bytes, drop, get_or, length, replicate, ltb, leb, ◌==◌, if◌then◌else◌,
}
use pocket_llm.Kernel.Parallel.{Range, parallel_for}
use pocket_llm.Quant.Blocks.{Weight, affine, scaled, as_byte, as_half, as_int8, q6_k_raw_value}
use pocket_llm.Quant.Half.{half_to_float}

abbrev pub Buffer {ℓ} : Type ℓ → Type ℓ
Buffer A = ℕ → A

module _ {ℓ} {A : Type ℓ} where
  abbrev pub write : Buffer A → ℕ → A → Buffer A
  write target at value i = if i == at then value else target i

  -- The bodies of a parallel job, one range after another. They write to places of their own.
  unfoldable pub over_ranges : (ℕ → ℕ → Buffer A → Buffer A) → List Range → Buffer A → Buffer A
  over_ranges body [] target = target
  over_ranges body (r ∷ ranges) target = over_ranges body ranges (body r.lo r.hi target)

  -- `for (i = at; i < at + count; ++i)`, with a body that works on the array.
  unfoldable pub count_up : (ℕ → Buffer A → Buffer A) → ℕ → ℕ → Buffer A → Buffer A
  count_up body at zero target = target
  count_up body at (suc count) target = count_up body (at + 1) count (body at target)

-- `memcpy` of bytes into an array of bytes, and the same as single assignments.
unfoldable pub store : Buffer ℕ → ℕ → List ℕ → Buffer ℕ
store target at bytes i =
    if leb at i && ltb i (at + length bytes) then get_or bytes (i - at) 0 else target i

-- `Q4Kx8`: eight columns' blocks, interleaved. `d` and `dmin` are arrays of bytes here.
pub record Panel : Type 0 where
  pub d : Buffer ℕ
  pub dmin : Buffer ℕ
  pub scales : Buffer ℕ
  pub qs : Buffer ℕ

unfoldable pub six_bits : ℕ → ℕ → ℕ
six_bits lo hi = bit_or (bit_and lo 63) (bit_and hi 48 * 2 ^ 2)

-- `sv[j]` and `mv[j]`, by the pass and the round, from the scale bytes of column `j`.
unfoldable pub scale_of : Bytes → ℕ → ℕ → ℕ
scale_of sc pass i =
    if pass == 0
    then bit_and (as_byte sc i) 63
    else bit_or (bit_and (as_byte sc i) 192 / 2 ^ 2) (bit_and (as_byte sc (i + 8)) 15)

unfoldable pub minimum_of : Bytes → ℕ → ℕ → ℕ
minimum_of sc pass i =
    if pass == 0
    then bit_and (as_byte sc (i + 4)) 63
    else bit_or (bit_and (as_byte sc (i + 4)) 192 / 2 ^ 2)
        (bit_and (as_byte sc (i + 8)) 240 / 2 ^ 4)

-- The twelve bytes `q[0]` to `q[11]` from the eight scales and minimums.
unfoldable pub scale_bytes : (scale minimum : ℕ → ℕ) → List ℕ
scale_bytes sv mv =
    six_bits (sv 0) (sv 4)
    ∷ six_bits (sv 1) (sv 5)
    ∷ six_bits (sv 2) (sv 6)
    ∷ six_bits (sv 3) (sv 7)
    ∷ six_bits (mv 0) (mv 4)
    ∷ six_bits (mv 1) (mv 5)
    ∷ six_bits (mv 2) (mv 6)
    ∷ six_bits (mv 3) (mv 7)
    ∷ bit_or (bit_and (sv 4) 15) (bit_and (mv 4) 15 * 2 ^ 4)
    ∷ bit_or (bit_and (sv 5) 15) (bit_and (mv 5) 15 * 2 ^ 4)
    ∷ bit_or (bit_and (sv 6) 15) (bit_and (mv 6) 15 * 2 ^ 4)
    ∷ bit_or (bit_and (sv 7) 15) (bit_and (mv 7) 15 * 2 ^ 4)
    ∷ []

-- The address of column `r`'s block.
abbrev pub Columns : Type 0
Columns = ℕ → Bytes

-- One pass: the scales of the sub-blocks `i`, or of `i + 4`.
unfoldable pub store_scales : Columns → ℕ → ℕ → Buffer ℕ → Buffer ℕ
store_scales column i pass target = store target (pass * 48 + i * 12) (
    scale_bytes (λ j. scale_of (drop 4 (column j)) pass i)
      (λ j. minimum_of (drop 4 (column j)) pass i))

-- `n` bytes from `at` on.
abbrev pub bytes_at : Bytes → ℕ → ℕ → List ℕ
bytes_at block at zero = []
bytes_at block at (suc n) = as_byte block at ∷ bytes_at block (at + 1) n

-- The body for one panel and one block, over what the panel holds.
unfoldable pub pack_panel : Columns → Panel → Panel
pack_panel column o = record {
  d = count_up (λ r out. store out (2 * r) (bytes_at (column r) 0 2)) 0 8 o.d;
  dmin = count_up (λ r out. store out (2 * r) (bytes_at (column r) 2 2)) 0 8 o.dmin;
  qs =
      count_up (λ i out. store out (i * 8) (bytes_at (column (i % 8)) (16 + i / 8 * 8) 8)) 0 128
        o.qs;
  scales = count_up (λ i out. store_scales column i 1 (store_scales column i 0 out)) 0 4 o.scales;
}

-- `in[r]` of block `b` of panel `p`, in a matrix with `nb` blocks to a column.
abbrev pub block_at : Bytes → ℕ → ℕ → ℕ → Columns
block_at blocks nb p b r = drop ((p * 8 + r) * (nb * 144) + b * 144) blocks

unfoldable pub pack_panels : Bytes → ℕ → ℕ → ℕ → Buffer Panel → Buffer Panel
pack_panels blocks nb lo hi =
    count_up
      (λ p.
        count_up
          (λ b out. write out (p * nb + b) (pack_panel (block_at blocks nb p b) (out (p * nb + b))))
          0 nb)
      lo (hi - lo)

unfoldable pub repack_weights_q4k : ℕ → Bytes → ℕ → ℕ → Buffer Panel → Buffer Panel
repack_weights_q4k workers blocks n k =
    let nb = k / 256 in over_ranges (pack_panels blocks nb) (parallel_for workers (n / 8) 1)

-- The scale and the minimum of a sub-block of column `r`, as the kernels take them out of the panel:
-- their masks keep the four bytes of a word apart.
unfoldable pub panel_pair : Panel → ℕ → ℕ → ℕ × ℕ
panel_pair o group r =
    let q = λ (k : ℕ). o.scales (12 * group + k) in
    let c = r - 4 in
    if ltb r 4 then (bit_and (q r) 0x3f, bit_and (q (4 + r)) 0x3f) else (
      bit_or (bit_and (q (8 + c)) 0x0f) (bit_and (q c / 2 ^ 6) 0x03 * 2 ^ 4),
      bit_or (bit_and (q (8 + c) / 2 ^ 4) 0x0f) (bit_and (q (4 + c) / 2 ^ 6) 0x03 * 2 ^ 4),
    )

-- A half-precision number of the panel, as the pattern of a float.
abbrev pub half_at : Buffer ℕ → ℕ → ℕ
half_at bytes r = half_to_float (bit_or (bytes (2 * r)) (bytes (2 * r + 1) * 2 ^ 8))

-- The weight of column `r` that the layout of `Q4Kx8` has at an index: chunks of eight bytes, the
-- columns one behind the other, with two sub-blocks in the nibbles of a byte.
unfoldable pub panel_weight : Panel → ℕ → ℕ → Weight
panel_weight o r index =
    let group = index / 32 in
    let q = o.qs (group / 2 * 256 + index % 32 / 8 * 64 + r * 8 + index % 8) in
    let nibble = if group % 2 == 0 then bit_and q 0x0f else q / 2 ^ 4 in
    affine (half_at o.d r) (panel_pair o group r).0 nibble (half_at o.dmin r)
      (panel_pair o group r).1

-- `qs` of a Q6_K block, from weight `i` on.
unfoldable pub expand_values : Bytes → ℕ → ℕ → List ℕ
expand_values block i zero = []
expand_values block i (suc count) =
    ((q6_k_raw_value block i + 2 ^ 8 - 32) % 2 ^ 8) ∷ expand_values block (i + 1) count

-- The body for one block: `kQ6KRepackedStride` bytes.
unfoldable pub expand_block : Bytes → Bytes
expand_block block =
    expand_values block 0 256
    ++ (bytes_at block 192 16 ++ (as_byte block 208 ∷ as_byte block 209 ∷ replicate 14 0))

-- An array of the blocks of the result, `kQ6KRepackedStride` bytes each.
unfoldable pub expand_rows : Bytes → ℕ → ℕ → ℕ → Buffer Bytes → Buffer Bytes
expand_rows blocks nb lo hi =
    count_up
      (λ r.
        count_up
          (λ b out. write out (r * nb + b) (expand_block (drop (r * (nb * 210) + b * 210) blocks)))
          0 nb)
      lo (hi - lo)

unfoldable pub repack_weights_q6k : ℕ → Bytes → ℕ → ℕ → Buffer Bytes → Buffer Bytes
repack_weights_q6k workers blocks n k =
    let nb = k / 256 in over_ranges (expand_rows blocks nb) (parallel_for workers n 1)

-- The weight that `quant_block_accumulate` of src/kernel/cuda/backend.cu reads from such a block.
unfoldable pub expanded_weight : Bytes → ℕ → Weight
expanded_weight block index =
    let g = index / 16 in
    let i = index % 16 in
    scaled (as_half block 272) (as_int8 block (256 + g)) (as_int8 block (g * 16 + i))
