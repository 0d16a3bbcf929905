-- ===== src/Kernel/Repack/Tests.antt =====
-- A small matrix, and the theorem at it.
use pocket_llm.Prelude.{◌+◌, ◌*◌, ◌≡◌, IsByte, All-replicate, replicate, arith}
use pocket_llm.Kernel.Repack.{Panel, block_at, repack_weights_q4k, panel_weight}
use pocket_llm.Kernel.Repack.Panels.{panel_weight-repack_weights_q4k}
use pocket_llm.Quant.Blocks.{dequant_q4_k}

abbrev no_panel : Panel
no_panel = record { d = λ _. 0; dmin = λ _. 0; scales = λ _. 0; qs = λ _. 0 }

-- Eight columns of one Q4_K block, on a pool of three workers.
panel_weight-repack_weights_q4k_example :
    panel_weight (repack_weights_q4k 3 (replicate 1152 0x5a) 8 256 (λ _. no_panel) (0 * 1 + 0)) 5 77
    ≡ dequant_q4_k (block_at (replicate 1152 0x5a) 1 0 0 5) 77
panel_weight-repack_weights_q4k_example =
    panel_weight-repack_weights_q4k 3 (replicate 1152 0x5a) 8 256 0 0 5 77 (λ _. no_panel)
      (All-replicate IsByte 1152 0x5a (omega arith)) (omega arith) (omega arith) (omega arith)
      (omega arith)
