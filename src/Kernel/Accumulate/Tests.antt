-- ===== src/Kernel/Accumulate/Tests.antt =====
-- A block and a small repacked matrix, and the theorem at them.
use pocket_llm.Prelude.{
  ◌+◌, ◌*◌, ◌≡◌, true, false, [], IsByte, All-replicate, replicate, drop, arith,
}
use pocket_llm.Quant.Blocks.{Codebooks, dequant_block}
use pocket_llm.Kernel.Repack.{repack_weights_q6k}
use pocket_llm.Kernel.Accumulate.{block_terms}
use pocket_llm.Kernel.Accumulate.Columns.{columns}
use pocket_llm.Kernel.Accumulate.Order.{block_terms-dequant_block}

abbrev no_codebooks : Codebooks
no_codebooks = record { iq2xxs_grid = []; iq2xs_grid = [] }

block_terms-dequant_block_example :
    (block_terms no_codebooks 12 (replicate 144 0xc3) false
      ≡ columns (dequant_block no_codebooks 12 (replicate 144 0xc3)) 0 256)
    × (block_terms no_codebooks 14
          (repack_weights_q6k 3 (replicate 420 0xc3) 2 256 (λ _. replicate 0 0) (1 * 1 + 0))
          true
        ≡ columns
            (dequant_block no_codebooks 14 (drop (1 * (1 * 210) + 0 * 210) (replicate 420 0xc3)))
            0
            256)
block_terms-dequant_block_example =
    block_terms-dequant_block no_codebooks 12 (replicate 144 0xc3) 3 (replicate 420 0xc3) 2 256 1 0
      (λ _. replicate 0 0) (All-replicate IsByte 144 0xc3 (omega arith))
      (All-replicate IsByte 420 0xc3 (omega arith)) (omega arith) (omega arith)
