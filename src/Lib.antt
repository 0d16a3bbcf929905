-- ===== src/Lib.antt =====
-- PocketLLM: the core of the native inference library under src/ of the repository, as executable
-- definitions with the theorems on them.
--
-- A checkpoint is one GGUF file. The reader (src/gguf/reader.cpp) maps it, parses its header,
-- metadata and tensor directory, and hands out metadata by key and the bytes of a tensor by name. The
-- tokenizer (src/tokenizer) is loaded from that metadata; it turns a text into ids and back. The
-- decoders of src/quant turn the bytes of a tensor into weights, one block at a time. The text
-- model (src/model/qwen3.cpp) keeps the keys and values of the positions it has run in slabs that
-- grow on demand, and a session (src/runtime/session.cpp) counts the positions for its caller. The
-- loops of the kernels run over ranges that src/kernel/parallel.h cuts into chunks, one to a thread.
-- Two further sessions (src/runtime/asr_session.cpp, vlm_session.cpp) run a prompt around the rows of a
-- recording or an image, and src/c_api.cpp offers all of it to a C caller.
--
-- Files, and the code they are about:
--   Prelude      names and lemmas that the parts share: lists and association lists over the native
--                numbers, `std::string::find`, byte masks, and the `int64_t` of a bit pattern
--   Tokenizer    src/tokenizer
--     Utf8, ByteMap, Unicode   unicode.cpp: UTF-8, the byte alphabet, the look-ups in the tables of
--                  unicode_data.cpp, which are a parameter (`UnicodeData`)
--     Pretokenize  pretokenize.cpp: `next_stop` is the chain of rules at one position, `scan_round`
--                  one round of the loop over `pos`, `offsets_loop` the loop over the words
--     Specials     `split_specials` of bpe.cpp
--     Merge        `merge_word` of bpe.cpp: `Symbol`s linked by index, the queue as the list of its
--                  entries, `merge_round` one pop, `emit_symbols` what follows the loop
--     Load         the constructor of `Tokenizer`: `load` with its refusals, from a `GgufReader`
--     Codec        `encode` and `decode`
--   Gguf         src/gguf/reader.cpp and src/abi/spec.cpp
--     Cursor       the reads of `Cursor`, as a monad over the position
--     Value        `read_array`, `read_value`; a floating-point number is its bit pattern
--     Types        `kGgmlTypes`, `ggml_type_of`, `tensor_nbytes`
--     Parse        `GgufReader::parse`: `read_header` reads, `build` places the tensors
--     Tensor       the accessors, `tensor_data`, `release_mapping`
--     Format       an independent description of the format: a writer of headers
--   Quant        src/quant: Half is half.h, Q8 is q8_0.h, Blocks is blocks.h
--   Model        src/model/qwen3.cpp and src/runtime/session.cpp
--     KvCache      `ensure_kv`, `reserve`, `reset`, and the addressing of a row by `forward_impl`;
--                  a device buffer is a function from its elements
--     Session      the position of `Session` beside the lengths of the model, through `forward`,
--                  `forward_positions`, `forward_batch`, `forward_embeddings`, `reserve` and `reset`
--   Kernel       src/kernel
--     Parallel     `run_ranges` of parallel.h: how a job is cut into chunks
--     Pool         the barrier of `ThreadPool` in parallel.h: `worker_at` is the next access of a worker
--                  in `worker_main`, `caller_at` that of the thread in `run_ranges` or in the
--                  destructor, and `Reach` the states that come of any interleaving
--     Repack       repack_q4k.cpp: the panels of eight Q4_K columns, and Q6_K with a byte to a weight
--     Accumulate   `quant_block_accumulate` of cuda/backend.cu: what a device thread decodes, in order
--   Runtime      src/runtime and src/c_api.cpp, over the parts above
--     Prompt       what the two `compose` share: the split at the marker, the refusals, and how a call
--                  goes on behind a pass that returns
--     Audio        the lengths in src/model/audio_frontend.cpp and src/model/qwen3a_audio.cpp
--     Asr          `AsrSession::compose` and `generate`
--     Vlm          `VlmSession::compose`, with the sizes of src/model/qwen3vl_vision.cpp
--     Argmax       the choice of the greatest logit
--     Api          the entry points of c_api.cpp: return codes, and what is written to the caller's
--                  arrays; Media holds those for an image and a recording
--
-- Numbers. A byte is a number below 256, a text a list of bytes. The sums of `uint64_t` that the
-- code computes wrap where the model says `% u64_mod`. A file is shorter than 2 ^ 63 bytes
-- and a vocabulary smaller than 2 ^ 31 entries, so the sums and casts that the model leaves plain do
-- not overflow. The generation of the thread pool does not wrap.
--
-- Threads. The pool's shared accesses happen one at a time, in any order, and each is seen by the next:
-- the acquire and release of parallel.h are taken as they are meant.
--
-- Fuel. The merge loop gets three rounds for each character: a word of n characters
-- begins with fewer than n entries on its queue, each merge empties one symbol and adds at most two
-- entries, and each round takes one off. The loop over the matches of a special token, the loop over
-- the characters of a symbol and the loop that doubles the capacity get the length of the text or the
-- number of positions, of which each round uses up at least one; the scan over a word gets the
-- word's length, and the search for a rounded root the number itself. The theorems on these loops
-- have no hypothesis that the fuel is enough.
--
-- Not modelled: float arithmetic (the products of scales and codes, and every layer of the graph),
-- the kernels, the number of threads and their pinning, the backends, the image and audio towers, the
-- opening of a session, and the tools. What a pass computes is a parameter of `Session` and of
-- `Runtime`, and so are the comparison of two floats and the size to which an image is resized; the
-- codebooks of src/quant/iq2_grid.h are a parameter of `Quant`. Opening and mapping a file, and the
-- failure of an allocation, are outside the model.
pub mod Prelude
pub mod Tokenizer
pub mod Gguf
pub mod Quant
pub mod Model
pub mod Kernel
pub mod Runtime
