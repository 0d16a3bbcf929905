-- ===== src/Quant/Tests.antt =====
-- Concrete blocks, and the theorems at them.
use pocket_llm.Prelude.{◌≡◌, refl, [], ◌∷◌, ◌++◌, replicate, arith}
use pocket_llm.Quant.Half.{normalize, half_to_float}
use pocket_llm.Quant.Blocks.{Codebooks, block_bytes_of, get_scale_min_k4, dequant_block}
use pocket_llm.Quant.Local.{dequant_block-append}
use pocket_llm.Quant.Scales.{pack_scales, get_scale_min_k4-pack_scales}

-- 1.0, -2.5, the least subnormal number and an infinity
halves :
    (half_to_float 0x3c00 ≡ 0x3f800000)
    × (half_to_float 0xc100 ≡ 0xc0200000)
    × (half_to_float 0x0001 ≡ 0x33800000)
    × (half_to_float 0x7c00 ≡ 0x7f800000)
unfolding half_to_float normalize
halves = (refl, refl, refl, refl)

abbrev codebooks : Codebooks
codebooks = record { iq2xxs_grid = []; iq2xs_grid = [] }

dequant_block-append_example :
    dequant_block codebooks 12 (replicate 144 0x9a ++ (1 ∷ 2 ∷ [])) 200
    ≡ dequant_block codebooks 12 (replicate 144 0x9a) 200
unfolding block_bytes_of
dequant_block-append_example =
    dequant_block-append codebooks 12 (replicate 144 0x9a) (1 ∷ 2 ∷ []) 200 (omega arith) refl
      (omega arith)

get_scale_min_k4-pack_scales_example :
    get_scale_min_k4 (1 ∷ 2 ∷ 3 ∷ 4 ∷ pack_scales (λ j. 63) (λ j. 42)) 4 6 ≡ (63, 42)
get_scale_min_k4-pack_scales_example =
    get_scale_min_k4-pack_scales 1 2 3 4 (λ j. 63) (λ j. 42) 6 (λ j. omega arith) (λ j. omega arith)
      (omega arith)
