-- ===== src/Tokenizer.antt =====
-- The byte-level BPE tokenizer, src/tokenizer.
pub mod Utf8
pub mod ByteMap
pub mod Unicode
pub mod Merge
pub mod Specials
pub mod Pretokenize
pub mod Load
pub mod Codec
mod Tests
