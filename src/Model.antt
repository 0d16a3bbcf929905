-- ===== src/Model.antt =====
-- src/model/qwen3.cpp: what the text model does with its KV cache.
pub mod KvCache
pub mod Session
