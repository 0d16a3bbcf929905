-- ===== src/Kernel.antt =====
-- src/kernel: the parts of the kernels' runtime that are not float arithmetic.
pub mod Parallel
pub mod Pool
pub mod Repack
pub mod Accumulate
