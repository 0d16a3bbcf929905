-- ===== src/Gguf.antt =====
-- The checkpoint reader, src/gguf, and the table of storage types, src/abi/spec.cpp.
pub mod Cursor
pub mod Types
pub mod Value
pub mod Parse
pub mod Local
pub mod Tensor
pub mod Directory
pub mod Geometry
pub mod Mapping
pub mod Format
pub mod RoundTrip
mod Tests
