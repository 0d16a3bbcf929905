-- ===== src/Tokenizer/Tests.antt =====
-- Concrete runs of the tokenizer's parts, and the theorems at concrete inputs.
use pocket_llm.Prelude.{
  ℕ, ◌≡◌, refl, true, false, List, [], ◌∷◌, Bytes, All, codes, arith, get_or, some, same_bytes,
}
use pocket_llm.Prelude.Find.{find_sub, starts_with}
use pocket_llm.Tokenizer.Utf8.{
  cpt_to_utf8, lead_byte, continuation, next_cpt, cpts_loop, cpts_from_utf8, utf8_text,
}
use pocket_llm.Tokenizer.Utf8.RoundTrip.{cpts_from_utf8-utf8_text}
use pocket_llm.Tokenizer.Utf8.Bytewise.{utf8_text-lone_byte}
use pocket_llm.Tokenizer.ByteMap.{byte_to_cpt, byte_map, byte_unmap}
use pocket_llm.Tokenizer.ByteMap.Inverse.{byte_unmap-byte_map}
use pocket_llm.Tokenizer.Unicode.{UnicodeData, has, cpt_flags, cpt_tolower, cpt_number}
use pocket_llm.Tokenizer.Pretokenize.{
  PreTokenizer, qwen2, llama_bpe, word_at, max_digits, advance, emit_through, scan_round, scan_loop,
  offsets_loop, pretokenize, contraction, letters, numbers, punctuation, whitespace_run, spaces,
  next_stop, out_of_range,
}
use pocket_llm.Tokenizer.Pretokenize.Partition.{Refines, pretokenize-Refines}
use pocket_llm.Tokenizer.Pretokenize.Rules.{IsNumberRun, digit_cap}
use pocket_llm.Prelude.Assoc.{find}
use pocket_llm.Tokenizer.Merge.{
  Symbol, Ranks, pair_key, merge_word, merge_symbols, word_symbols, symbols_loop, push_symbol,
  utf8_char_len, first_bigrams, push_bigram, rank_of, merge_loop, merge_round, pop_best, is_current,
  join, emit_symbols, characters_loop,
}
use pocket_llm.Tokenizer.Merge.Normal.{IsMerged, merge_symbols-IsMerged}
use pocket_llm.Tokenizer.Specials.{
  raw, token, SpecialToken, carve_loop, carve, carve_all, specials_loop, split_specials,
}
use pocket_llm.Tokenizer.Specials.Text.{spellings, spellings-split_specials}
use pocket_llm.Tokenizer.Specials.Absent.{AbsentRaw, split_specials-Absent}

-- "é€😀" and an ASCII letter
abbrev sample_cpts : List ℕ
sample_cpts = 0xe9 ∷ 0x20ac ∷ 0x1f600 ∷ 0x61 ∷ []

sample_bytes :
    utf8_text sample_cpts ≡ 0xc3 ∷ 0xa9 ∷ 0xe2 ∷ 0x82 ∷ 0xac ∷ 0xf0 ∷ 0x9f ∷ 0x98 ∷ 0x80 ∷ 0x61 ∷ []
unfolding utf8_text cpt_to_utf8
sample_bytes = refl

-- a truncated sequence, a stray continuation byte and a bad continuation
bad_bytes :
    cpts_from_utf8 (0xc3 ∷ 0x28 ∷ 0x80 ∷ 0xe2 ∷ 0x82 ∷ []) ≡ 0xc3 ∷ 0x28 ∷ 0x80 ∷ 0xe2 ∷ 0x82 ∷ []
unfolding cpts_from_utf8 cpts_loop next_cpt lead_byte continuation
bad_bytes = refl

cpts_from_utf8-utf8_text_example : cpts_from_utf8 (utf8_text sample_cpts) ≡ sample_cpts
cpts_from_utf8-utf8_text_example = cpts_from_utf8-utf8_text sample_cpts (omega arith)

utf8_text-lone_byte_example :
    (cpts_from_utf8 (0xa9 ∷ []) ≡ 0xa9 ∷ [])
    × (utf8_text (cpts_from_utf8 (0xa9 ∷ [])) ≡ 0xc2 ∷ 0xa9 ∷ [])
utf8_text-lone_byte_example = utf8_text-lone_byte 0xa9 (omega arith) (omega arith)

-- a space is written as U+0120 of the alphabet
mapped_space : byte_map (0x20 ∷ 0x61 ∷ []) ≡ 0xc4 ∷ 0xa0 ∷ 0x61 ∷ []
unfolding byte_map byte_to_cpt cpt_to_utf8
mapped_space = refl

byte_unmap-byte_map_example :
    byte_unmap (byte_map (0x20 ∷ 0x80 ∷ 0xff ∷ [])) ≡ 0x20 ∷ 0x80 ∷ 0xff ∷ []
byte_unmap-byte_map_example = byte_unmap-byte_map (0x20 ∷ 0x80 ∷ 0xff ∷ []) (omega arith)

-- The ASCII part of the tables, as the repository's data has it.
abbrev ascii : UnicodeData
ascii = record {
  ranges_flags =
      (0, 0x80)
      ∷ (0x20, 0x08)
      ∷ (0x21, 0x20)
      ∷ (0x30, 0x02)
      ∷ (0x3a, 0x20)
      ∷ (0x41, 0x04)
      ∷ (0x5b, 0x20)
      ∷ (0x61, 0x04)
      ∷ (0x7b, 0x20)
      ∷ (0x7f, 0x80)
      ∷ [];
  set_whitespace = 9 ∷ 10 ∷ 11 ∷ 12 ∷ 13 ∷ 32 ∷ [];
  map_lowercase = (0x53, 0x73) ∷ (0x54, 0x74) ∷ [];
}

abbrev words_of : PreTokenizer → List ℕ → ℕ → List ℕ
words_of rules cpts n = pretokenize ascii rules cpts (n ∷ [])

-- "I'll take  12345!\n"
words_qwen2 :
    words_of qwen2 (codes "I'll take  12345!\n") 18 ≡ 1 ∷ 3 ∷ 5 ∷ 1 ∷ 1 ∷ 1 ∷ 1 ∷ 1 ∷ 1 ∷ 1 ∷ 2 ∷ []
unfolding pretokenize offsets_loop scan_loop scan_round emit_through word_at max_digits advance
    contraction letters numbers punctuation whitespace_run spaces next_stop cpt_flags cpt_tolower
words_qwen2 = refl

words_llama :
    words_of llama_bpe (codes "I'll take  12345!\n") 18 ≡ 1 ∷ 3 ∷ 5 ∷ 1 ∷ 1 ∷ 3 ∷ 2 ∷ 2 ∷ []
unfolding pretokenize offsets_loop scan_loop scan_round emit_through word_at max_digits advance
    contraction letters numbers punctuation whitespace_run spaces next_stop cpt_flags cpt_tolower
words_llama = refl

digit_cap_example :
    IsNumberRun ascii (codes "12345") 5 1 1 (next_stop (word_at ascii qwen2 (codes "12345") 0 5) 1)
    × IsNumberRun ascii
        (codes "12345")
        5
        3
        1
        (next_stop (word_at ascii llama_bpe (codes "12345") 0 5) 1)
unfolding cpt_flags
digit_cap_example = digit_cap ascii (codes "12345") 0 5 1 (omega arith) (omega arith) refl

pretokenize-Refines_example : Refines (words_of llama_bpe (codes "a 1") 3) (3 ∷ [])
pretokenize-Refines_example = pretokenize-Refines ascii llama_bpe (codes "a 1") (3 ∷ [])

-- tables with no number in them
abbrev letters_only : UnicodeData
letters_only = record { ranges_flags = (0x41, 0x04) ∷ []; set_whitespace = []; map_lowercase = [] }

no_numbers :
    (p : ℕ) → has (cpt_flags letters_only (get_or (codes "ab") p out_of_range)) cpt_number ≡ false
unfolding cpt_flags
no_numbers p = ground arith

abbrev vocab : List Bytes
vocab = codes "<a>" ∷ codes "<ab>" ∷ codes "x" ∷ []

abbrev control : SpecialToken
control = record { id = 0; needs_parse = true }

abbrev user_defined : SpecialToken
user_defined = record { id = 1; needs_parse = false }

spliced :
    split_specials (user_defined ∷ control ∷ []) vocab (codes "x<a><ab>y") true
    ≡ raw (codes "x") ∷ token 0 ∷ token 1 ∷ raw (codes "y") ∷ []
unfolding split_specials specials_loop carve_all carve carve_loop find_sub starts_with
spliced = refl

-- without `parse_special` a control token stays text
unspliced :
    split_specials (user_defined ∷ control ∷ []) vocab (codes "x<a><ab>y") false
    ≡ raw (codes "x<a>") ∷ token 1 ∷ raw (codes "y") ∷ []
unfolding split_specials specials_loop carve_all carve carve_loop find_sub starts_with
unspliced = refl

spellings-split_specials_example :
    spellings vocab (split_specials (control ∷ []) vocab (codes "x<a>y") true) ≡ codes "x<a>y"
spellings-split_specials_example =
    spellings-split_specials (control ∷ []) vocab (codes "x<a>y") true

split_specials-Absent_example :
    All
      (AbsentRaw (codes "<a>"))
      (split_specials (user_defined ∷ control ∷ []) vocab (codes "x<a><ab>y") true)
split_specials-Absent_example =
    split_specials-Absent (user_defined ∷ []) [] control vocab (codes "x<a><ab>y") true b'<'
      (codes "a>") refl refl

-- The merges of "low": l+o, then lo+w.
abbrev low_ranks : Ranks
low_ranks = (pair_key (codes "l") (codes "o"), 0) ∷ (pair_key (codes "lo") (codes "w"), 1) ∷ []

abbrev low_vocab : List (Bytes × ℕ)
low_vocab = (codes "low", 7) ∷ (codes "l", 1) ∷ (codes "o", 2) ∷ []

-- the second "lo" has no "w" behind it, and its characters stand in for it
merged : merge_word low_ranks low_vocab (codes "lowlo") [] ≡ some (7 ∷ 1 ∷ 2 ∷ [])
unfolding merge_word merge_symbols word_symbols symbols_loop push_symbol utf8_char_len first_bigrams
    push_bigram rank_of merge_loop merge_round pop_best join is_current emit_symbols characters_loop
    find same_bytes
merged = refl

merge_symbols-IsMerged_example :
    (final : List Symbol) × (merge_symbols low_ranks (codes "lowlo") ≡ some final)
    × IsMerged low_ranks (codes "lowlo") final
merge_symbols-IsMerged_example = merge_symbols-IsMerged low_ranks (codes "lowlo") (omega arith)
