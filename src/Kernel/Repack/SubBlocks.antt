-- ===== src/Kernel/Repack/SubBlocks.antt =====
-- The scales and minimums of a panel are those of the file's blocks (src/kernel/repack_q4k.cpp).
use pocket_llm.Prelude.{
  ℕ, zero, suc, ◌+◌, ◌-◌, ◌*◌, ◌/◌, ◌%◌, ◌^◌, ◌≤◌, ◌<◌, ◌≡◌, ap, ◌∙◌, bit_and, bit_or, [], ◌∷◌,
  Bytes, IsByte, All, drop, get_or, true, false, ltb, arith, dec_lt,
}
use pocket_llm.Prelude.Bits.{and_0xc0, and_0xf0}
use pocket_llm.Quant.Blocks.{as_byte, get_scale_min_k4}
use pocket_llm.Quant.Scales.{and_63, and_15, or_nibble, pair_eq}
use pocket_llm.Kernel.Repack.{Panel, scale_of, minimum_of, Columns, pack_panel, panel_pair}
use pocket_llm.Kernel.Repack.Stores.{sub_block, scales_lem}
use pocket_llm.Kernel.Repack.Expanded.{as_byte-IsByte, drop-IsByte}
use pocket_llm.Kernel.Repack.Pairs.{pair_lem, or_high_nibble}

-- The address behind `k` bytes.
as_byte-drop : (k : ℕ) (block : Bytes) (i : ℕ) → as_byte (drop k block) i ≡ as_byte block (k + i)
unfolding as_byte
as_byte-drop zero block i = ap (λ j. get_or block j 0) (omega arith)
as_byte-drop (suc k) [] i = ground arith
as_byte-drop (suc k) (b ∷ block) i = as_byte-drop k block i ∙ ground arith

-- The two parts of a value of the second pass.
low_join :
    (b c : ℕ)
    → b < 256
    → c < 256
    → bit_or (bit_and b 192 / 2 ^ 2) (bit_and c 15) ≡ b / 64 * 16 + c % 16
low_join b c hb hc =
    let z = b / 64 * 16 + c % 16 in
    let high : bit_and b 192 / 2 ^ 2 ≡ z / 16 * 16 = omega (arith, and_0xc0 b hb) in
    let low : bit_and c 15 ≡ z % 16 = and_15 c hc ∙ omega arith in
    rw (high, low) (or_high_nibble z (omega arith))

high_join :
    (b c : ℕ)
    → b < 256
    → c < 256
    → bit_or (bit_and b 192 / 2 ^ 2) (bit_and c 240 / 2 ^ 4) ≡ b / 64 * 16 + c / 16
high_join b c hb hc =
    let z = b / 64 * 16 + c / 16 in
    let high : bit_and b 192 / 2 ^ 2 ≡ z / 16 * 16 = omega (arith, and_0xc0 b hb) in
    let low : bit_and c 240 / 2 ^ 4 ≡ z % 16 = omega (arith, and_0xf0 c hc) in
    rw (high, low) (or_high_nibble z (omega arith))

-- The scales and minimums that are packed are six bits, and those of the file's decoder.
module _ (block : Bytes) (bytes : All IsByte block) where
  byte : (i : ℕ) → as_byte (drop 4 block) i < 256
  byte i = as_byte-IsByte (drop 4 block) i (drop-IsByte 4 block bytes)

  scale_of-lt : (pass i : ℕ) → scale_of (drop 4 block) pass i < 64
  unfolding scale_of
  scale_of-lt pass i = ground (
    arith,
    and_63 (as_byte (drop 4 block) i) (byte i),
    low_join (as_byte (drop 4 block) i) (as_byte (drop 4 block) (i + 8)) (byte i) (byte (i + 8)),
    byte i,
  )

  minimum_of-lt : (pass i : ℕ) → minimum_of (drop 4 block) pass i < 64
  unfolding minimum_of
  minimum_of-lt pass i = ground (
    arith,
    and_63 (as_byte (drop 4 block) (i + 4)) (byte (i + 4)),
    high_join (as_byte (drop 4 block) (i + 4)) (as_byte (drop 4 block) (i + 8)) (byte (i + 4))
        (byte (i + 8)),
    byte (i + 4),
    byte (i + 8),
  )

  first_pass :
      (g : ℕ)
      → g < 4
      → Path
          (ℕ × ℕ)
          (scale_of (drop 4 block) 0 g, minimum_of (drop 4 block) 0 g)
          (get_scale_min_k4 block 4 g)
  unfolding scale_of minimum_of get_scale_min_k4
  first_pass g lt =
      let test : ltb g 4 ≡ true = ground arith in
      rw test (
        pair_eq (ap (λ b. bit_and b 63) (as_byte-drop 4 block g)) (
          ap (λ b. bit_and b 63) (as_byte-drop 4 block (g + 4) ∙ ap (as_byte block) (omega arith))))

  second_pass :
      (i : ℕ)
      → i < 4
      → Path
          (ℕ × ℕ)
          (scale_of (drop 4 block) 1 i, minimum_of (drop 4 block) 1 i)
          (get_scale_min_k4 block 4 (i + 4))
  unfolding scale_of minimum_of get_scale_min_k4
  second_pass i lt =
      let test : ltb (i + 4) 4 ≡ false = ground arith in
      let b = as_byte block (4 + (i + 4) - 4) in
      let m = as_byte block (4 + (i + 4)) in
      let c = as_byte block (4 + (i + 4) + 4) in
      let low_byte : as_byte (drop 4 block) i ≡ b =
        as_byte-drop 4 block i ∙ ap (as_byte block) (omega arith) in
      let middle_byte : as_byte (drop 4 block) (i + 4) ≡ m =
        as_byte-drop 4 block (i + 4) ∙ ap (as_byte block) (omega arith) in
      let high_byte : as_byte (drop 4 block) (i + 8) ≡ c =
        as_byte-drop 4 block (i + 8) ∙ ap (as_byte block) (omega arith) in
      let b_byte = as_byte-IsByte block (4 + (i + 4) - 4) bytes in
      let m_byte = as_byte-IsByte block (4 + (i + 4)) bytes in
      let c_byte = as_byte-IsByte block (4 + (i + 4) + 4) bytes in
      let nibble = and_15 c c_byte in
      rw (test, low_byte, middle_byte, high_byte)
        (pair_eq
          (low_join b c b_byte c_byte
            ∙ omega (
              arith,
              nibble,
              or_nibble (bit_and c 15) (b / 64) (omega (arith, nibble)) (omega (arith, b_byte)),
            ))
          (high_join m c m_byte c_byte
            ∙ omega (
              arith,
              or_nibble (c / 16) (m / 64) (omega (arith, c_byte)) (omega (arith, m_byte)),
            )))

module _ (column : Columns) (o : Panel) (g k : ℕ) (h : k < 12) where
  packed_first :
      g < 4 → (pack_panel column o).scales (12 * g + k) ≡ get_or (sub_block column 0 g) k 0
  unfolding pack_panel
  packed_first lt =
      ap (pack_panel column o).scales (omega arith)
      ∙ scales_lem column 0 4 g k o.scales h (omega arith)
      ∙ ground (arith, lt)

  packed_second :
      4 ≤ g
      → g < 8
      → (pack_panel column o).scales (12 * g + k) ≡ get_or (sub_block column 1 (g - 4)) k 0
  unfolding pack_panel
  packed_second ge lt =
      ap (pack_panel column o).scales (omega arith)
      ∙ scales_lem column 0 4 g k o.scales h (omega arith)
      ∙ ground (arith, ge, lt)

-- A sub-block's pair in the panel is the one that the file's decoder takes out of the column's block.
pub panel_pair-pack_panel :
    (column : Columns) (o : Panel) (g r : ℕ)
    → ((j : ℕ) → All IsByte (column j))
    → g < 8
    → r < 8
    → panel_pair (pack_panel column o) g r ≡ get_scale_min_k4 (column r) 4 g
panel_pair-pack_panel column o g r bytes hg hr = elim (dec_lt g 4) [
  | yes first ↦
      pair_lem (pack_panel column o) g (λ j. scale_of (drop 4 (column j)) 0 g)
        (λ j. minimum_of (drop 4 (column j)) 0 g) (λ j. scale_of-lt (column j) (bytes j) 0 g)
        (λ j. minimum_of-lt (column j) (bytes j) 0 g) (λ k h. packed_first column o g k h first) r
        hr
      ∙ first_pass (column r) (bytes r) g first
  | no second ↦
      pair_lem (pack_panel column o) g (λ j. scale_of (drop 4 (column j)) 1 (g - 4))
        (λ j. minimum_of (drop 4 (column j)) 1 (g - 4))
        (λ j. scale_of-lt (column j) (bytes j) 1 (g - 4))
        (λ j. minimum_of-lt (column j) (bytes j) 1 (g - 4))
        (λ k h. packed_second column o g k h (ground (arith, second)) hg) r hr
      ∙ second_pass (column r) (bytes r) (g - 4) (omega (arith, hg))
      ∙ ap (get_scale_min_k4 (column r) 4) (ground (arith, second))
]
