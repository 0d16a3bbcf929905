-- ===== src/Quant.antt =====
-- src/quant: the packed formats of the weights.
pub mod Half
pub mod Blocks
pub mod Local
pub mod Scales
pub mod Q8
mod Tests
