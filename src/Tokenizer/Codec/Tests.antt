-- ===== src/Tokenizer/Codec/Tests.antt =====
-- A small checkpoint, the tokenizer that loads from it, and the theorems at it.
use pocket_llm.Prelude.{
  ℕ, zero, suc, ◌≡◌, refl, Bool, true, false, List, [], ◌∷◌, ◌++◌, map, none, some, Bytes, All,
  codes, arith, same_bytes, get_elem?, holds_below, holds_below→all, Option-cases, inl, inr, not,
  ◌&&◌,
}
use pocket_llm.Prelude.Assoc.{bytes_eq, nat_eq, find, assign, emplace}
use pocket_llm.Prelude.Find.{find_sub, starts_with}
use pocket_llm.Prelude.Int.{pos, negsuc}
use pocket_llm.Gguf.Value.{GgufValue, int, string, array, empty_array}
use pocket_llm.Gguf.Parse.{MetadataEntry, GgufReader}
use pocket_llm.Gguf.Tensor.{find as find_value, get_int, get_string}
use pocket_llm.Tokenizer.Utf8.{
  cpt_to_utf8, lead_byte, continuation, next_cpt, cpts_loop, cpts_from_utf8, utf8_text,
}
use pocket_llm.Tokenizer.ByteMap.{byte_to_cpt, byte_map, byte_unmap, cpt_to_byte, unmap_cpt}
use pocket_llm.Tokenizer.Unicode.{UnicodeData}
use pocket_llm.Tokenizer.Pretokenize.{llama_bpe}
use pocket_llm.Tokenizer.Specials.{carve_loop, carve, carve_all, specials_loop, split_specials}
use pocket_llm.Tokenizer.Load.{
  Tokenizer, loaded, load, load_vocab, load_tokens, index_tokens, index_merges, find_space,
  merge_key, collect_specials, before, insert_special, sort_specials, special_id, special_flag,
  special_tokens_of, pre_rules_of,
}
use pocket_llm.Tokenizer.Load.Index.{token_to_id_sound}
use pocket_llm.Tokenizer.Load.Refine.{IsLoaded, load-IsLoaded}
use pocket_llm.Tokenizer.Codec.{decode, decode_id, decode_piece, is_byte_token, encode}
use pocket_llm.Tokenizer.Codec.Emission.{IsByteLevel}
use pocket_llm.Tokenizer.Codec.RoundTrip.{Survives, decode-encode}

-- Every byte is a token, and there are "he", "hell" and two special tokens.
abbrev alphabet_pieces : ℕ → List Bytes
alphabet_pieces zero = []
alphabet_pieces (suc n) = byte_map (n ∷ []) ∷ alphabet_pieces n

abbrev pieces : List Bytes
pieces = codes "<|a|>" ∷ codes "he" ∷ codes "<a>" ∷ alphabet_pieces 256

abbrev entry : Bytes → GgufValue → Bytes × MetadataEntry
entry key value = (key, record { type = 0; value = value })

abbrev checkpoint : GgufReader
checkpoint = record {
  size = 0;
  mapping = none;
  version = 3;
  tensor_count = 0;
  metadata_count = 6;
  alignment = 32;
  data_start = 0;
  metadata =
      entry (codes "tokenizer.ggml.pre") (string (codes "llama-bpe"))
      ∷ entry (codes "tokenizer.ggml.model") (string (codes "gpt2"))
      ∷ entry (codes "tokenizer.ggml.tokens")
          (array (record (empty_array 8 259) { strings = pieces }))
      ∷ entry (codes "tokenizer.ggml.merges")
          (array (record (empty_array 8 1) { strings = codes "h e" ∷ [] }))
      ∷ entry (codes "tokenizer.ggml.token_type")
          (array (record (empty_array 5 3) { ints = pos 3 ∷ pos 1 ∷ pos 4 ∷ [] }))
      ∷ entry (codes "tokenizer.ggml.bos_token_id") (int (pos 0))
      ∷ [];
  tensors = [];
  tensor_index = [];
}

abbrev pub tokenizer : Tokenizer
tokenizer = record {
  vocab = pieces;
  token_to_id = index_tokens 0 pieces [];
  merge_rank = (codes "h" ++ 1 ∷ codes "e", 0) ∷ [];
  special_tokens =
      record { id = 0; needs_parse = true } ∷ record { id = 2; needs_parse = false } ∷ [];
  special = record {
    bos = pos 0;
    eos = negsuc 0;
    pad = negsuc 0;
    add_bos = false;
    add_eos = false;
  };
  pre_rules = llama_bpe;
}

loads : load checkpoint ≡ loaded tokenizer
unfolding load load_tokens load_vocab pre_rules_of get_string find_value find same_bytes
    special_tokens_of special_id special_flag get_int index_merges find_space merge_key emplace
    collect_specials sort_specials insert_special before
loads = refl

load-IsLoaded_example : IsLoaded checkpoint tokenizer
load-IsLoaded_example = load-IsLoaded checkpoint tokenizer loads

all_plain : List Bytes → Bool
all_plain [] = true
all_plain (piece ∷ vocab) = not (is_byte_token piece) && all_plain vocab

all_plain-at :
    (vocab : List Bytes) (id : ℕ) (piece : Bytes)
    → all_plain vocab ≡ true
    → get_elem? vocab id ≡ some piece
    → is_byte_token piece ≡ false
unfolding all_plain
all_plain-at [] id piece h e = absurd (cc)
all_plain-at (p ∷ vocab) zero piece h e = ground (arith, h, e)
all_plain-at (p ∷ vocab) (suc id) piece h e = all_plain-at vocab id piece (ground (arith, h)) e

plain_pieces : all_plain pieces ≡ true
unfolding all_plain is_byte_token byte_map byte_to_cpt cpt_to_utf8 same_bytes
plain_pieces = refl

is_covered : ℕ → Bool
is_covered b = elim (find (byte_map (b ∷ [])) (index_tokens 0 pieces [])) [
  | none ↦ false
  | some id ↦ true
]

covered : holds_below 256 is_covered ≡ true
unfolding holds_below is_covered byte_map byte_to_cpt cpt_to_utf8 same_bytes find index_tokens
    emplace
covered = refl

pub byte_level : IsByteLevel tokenizer
unfolding is_covered
byte_level = record {
  sound = λ piece id. token_to_id_sound piece pieces id;
  plain =
      λ piece id e. all_plain-at pieces id piece plain_pieces (token_to_id_sound piece pieces id e);
  covers = λ b h. elim (Option-cases (find (byte_map (b ∷ [])) (index_tokens 0 pieces []))) [
    | inr found ↦ found
    | inl n ↦ absurd (ground (arith, n, holds_below→all 256 is_covered covered b h))
  ];
}

abbrev pub tables : UnicodeData
tables = record {
  ranges_flags = (0, 0x80) ∷ (0x61, 0x04) ∷ [];
  set_whitespace = [];
  map_lowercase = [];
}

-- "hé<a>": two bytes are merged, a character has two bytes, and a token is spliced out
abbrev pub sample : Bytes
sample = codes "he" ++ (0xc3 ∷ 0xa9 ∷ codes "<a>")

pub survives :
    All (Survives tokenizer) (split_specials tokenizer.special_tokens tokenizer.vocab sample false)
unfolding split_specials specials_loop carve_all carve carve_loop find_sub starts_with
    cpts_from_utf8 cpts_loop next_cpt lead_byte continuation utf8_text cpt_to_utf8 decode_id
    decode_piece is_byte_token byte_unmap cpt_to_byte find same_bytes assign byte_to_cpt unmap_cpt
survives = ((omega arith, refl), (refl, tt))

decode-encode_example :
    (ids : List ℕ) × (encode tables tokenizer sample false false ≡ some ids)
    × (decode tokenizer.vocab (map pos ids) ≡ some sample)
decode-encode_example = decode-encode tables tokenizer sample false byte_level survives
