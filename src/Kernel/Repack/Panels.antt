-- ===== src/Kernel/Repack/Panels.antt =====
-- The panels hold the weights of the file's Q4_K blocks (src/kernel/repack_q4k.cpp).
use pocket_llm.Prelude.{
  ℕ, ◌+◌, ◌*◌, ◌/◌, ◌%◌, ◌^◌, ◌<◌, ◌≡◌, refl, ap, ◌∙◌, bit_and, bit_or, Bytes, IsByte, All, true,
  ◌&&◌, ltb, leb, ◌==◌, if◌then◌else◌, arith,
}
use pocket_llm.Quant.Half.{half_to_float}
use pocket_llm.Quant.Blocks.{affine, as_byte, as_half, dequant_q4_k}
use pocket_llm.Kernel.Repack.{
  Buffer, count_up, store, Panel, Columns, bytes_at, pack_panel, block_at, pack_panels,
  repack_weights_q4k, half_at, panel_weight,
}
use pocket_llm.Kernel.Repack.Rows.{parallel_rows}
use pocket_llm.Kernel.Repack.Stores.{chunks_lem}
use pocket_llm.Kernel.Repack.Expanded.{get_or-bytes_at, length-bytes_at, drop-IsByte}
use pocket_llm.Kernel.Repack.SubBlocks.{panel_pair-pack_panel}

half_eq :
    {a a' b b' : ℕ}
    → a ≡ a'
    → b ≡ b'
    → half_to_float (bit_or a (b * 2 ^ 8)) ≡ half_to_float (bit_or a' (b' * 2 ^ 8))
half_eq e f = rw (e, f) refl

-- The byte of a chunk, and the halves of a column.
module _ (column : Columns) (o : Panel) (r : ℕ) (hr : r < 8) where
  packed_byte :
      (chunk t : ℕ)
      → chunk < 16
      → t < 8
      → (pack_panel column o).qs (chunk * 64 + r * 8 + t) ≡ as_byte (column r) (16 + chunk * 8 + t)
  unfolding pack_panel
  packed_byte chunk t hc ht =
      let q = chunk * 8 + r in
      let own : q % 8 ≡ r = omega (arith, hr) in
      let inside : (leb 0 q && ltb q (0 + 128)) ≡ true = ground arith in
      let place : 16 + q / 8 * 8 ≡ 16 + chunk * 8 = omega (arith, hr) in
      ap (pack_panel column o).qs (omega arith)
      ∙ chunks_lem 8 (λ i. i * 8) (λ i. bytes_at (column (i % 8)) (16 + i / 8 * 8) 8) (λ i. refl)
          (λ i. length-bytes_at (column (i % 8)) (16 + i / 8 * 8) 8) 0 128 q t o.qs ht
      ∙ rw inside (get_or-bytes_at (column (q % 8)) (16 + q / 8 * 8) 8 t ht ∙ rw (own, place) refl)

  half_byte :
      (from t : ℕ) (bytes : Buffer ℕ)
      → t < 2
      → count_up (λ c out. store out (2 * c) (bytes_at (column c) from 2)) 0 8 bytes (r * 2 + t)
        ≡ as_byte (column r) (from + t)
  half_byte from t bytes ht =
      let inside : (leb 0 r && ltb r (0 + 8)) ≡ true = ground arith in
      chunks_lem 2 (λ c. 2 * c) (λ c. bytes_at (column c) from 2) (λ c. omega arith)
        (λ c. length-bytes_at (column c) from 2) 0 8 r t bytes ht
      ∙ rw inside (get_or-bytes_at (column r) from 2 t ht)

  packed_half :
      (half_at (pack_panel column o).d r ≡ as_half (column r) 0)
      × (half_at (pack_panel column o).dmin r ≡ as_half (column r) 2)
  unfolding pack_panel as_half
  packed_half =
      let at = λ (bytes : Buffer ℕ) (i j : ℕ) (e : i ≡ j). ap bytes e in
      let d = (pack_panel column o).d in
      let dmin = (pack_panel column o).dmin in
      (
        half_eq (at d (2 * r) (r * 2 + 0) (omega arith) ∙ half_byte 0 0 o.d (omega arith))
            (at d (2 * r + 1) (r * 2 + 1) (omega arith) ∙ half_byte 0 1 o.d (omega arith)),
        half_eq (at dmin (2 * r) (r * 2 + 0) (omega arith) ∙ half_byte 2 0 o.dmin (omega arith))
            (at dmin (2 * r + 1) (r * 2 + 1) (omega arith) ∙ half_byte 2 1 o.dmin (omega arith)),
      )

affine_eq :
    {d d' s s' q q' e e' m m' : ℕ}
    → d ≡ d'
    → s ≡ s'
    → q ≡ q'
    → e ≡ e'
    → m ≡ m'
    → affine d s q e m ≡ affine d' s' q' e' m'
affine_eq a b c f g = rw (a, b, c, f, g) refl

panel_weight-pack_panel :
    (column : Columns) (o : Panel) (r index : ℕ)
    → ((j : ℕ) → All IsByte (column j))
    → r < 8
    → index < 256
    → panel_weight (pack_panel column o) r index ≡ dequant_q4_k (column r) index
unfolding panel_weight dequant_q4_k
panel_weight-pack_panel column o r index bytes hr h =
    let group = index / 32 in
    let chunk = group / 2 * 4 + index % 32 / 8 in
    let q : (pack_panel column o).qs (group / 2 * 256 + index % 32 / 8 * 64 + r * 8 + index % 8)
        ≡ as_byte (column r) (16 + group / 2 * 32 + index % 32) =
      ap (pack_panel column o).qs (omega arith)
      ∙ packed_byte column o r hr chunk (index % 8) (omega (arith, h)) (omega arith)
      ∙ ap (as_byte (column r)) (omega arith) in
    let pair = panel_pair-pack_panel column o group r bytes (omega (arith, h)) hr in
    affine_eq (packed_half column o r hr).0 (ap (λ p. p.0) pair)
      (ap (λ b. if group % 2 == 0 then bit_and b 0x0f else b / 2 ^ 4) q)
      (packed_half column o r hr).1 (ap (λ p. p.1) pair)

-- After the repack of a matrix, however many threads shared it, each weight of each column is found in
-- the panel where the layout has it, with the value that the file's decoder finds in the block that
-- the column had there. It holds for the panels of all columns, in groups of eight.
pub panel_weight-repack_weights_q4k :
    (workers : ℕ) (blocks : Bytes) (n k p b r index : ℕ) (out : Buffer Panel)
    → All IsByte blocks
    → p < n / 8
    → b < k / 256
    → r < 8
    → index < 256
    → panel_weight (repack_weights_q4k workers blocks n k out (p * (k / 256) + b)) r index
      ≡ dequant_q4_k (block_at blocks (k / 256) p b r) index
unfolding repack_weights_q4k pack_panels
panel_weight-repack_weights_q4k workers blocks n k p b r index out bytes hp hb hr h =
    ap (λ o. panel_weight o r index)
      (parallel_rows (λ p b o. pack_panel (block_at blocks (k / 256) p b) o) (k / 256) workers
        (n / 8) 1 p b out hb hp)
    ∙ panel_weight-pack_panel (block_at blocks (k / 256) p b) (out (p * (k / 256) + b)) r index
        (λ j. drop-IsByte ((p * 8 + j) * (k / 256 * 144) + b * 144) blocks bytes) hr h
