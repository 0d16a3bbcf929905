-- ===== src/Runtime.antt =====
-- src/runtime and src/c_api.cpp: what stands between a caller and the parts of the engine.
pub mod Argmax
pub mod Prompt
pub mod Audio
pub mod Asr
pub mod Vlm
pub mod Api
mod Tests
