-- ===== src/Tokenizer/Codec.antt =====
-- `encode` and `decode` of src/tokenizer/bpe.cpp.
pub mod Emission
pub mod RoundTrip
pub mod Tests
use pocket_llm.Prelude.{
  ℕ, zero, suc, ◌+◌, ◌-◌, ◌*◌, ◌%◌, Bool, true, false, ◌&&◌, ◌||◌, List, [], ◌∷◌, ◌++◌, Option,
  none, some, Bytes, codes, same_bytes, length, get_elem?, get_or, take, drop, ltb, leb, ◌==◌,
  if◌then◌else◌,
}
use pocket_llm.Prelude.Int.{ℤ, pos, negsuc}
use pocket_llm.Tokenizer.Utf8.{cpts_from_utf8, utf8_text}
use pocket_llm.Tokenizer.ByteMap.{byte_map, byte_unmap}
use pocket_llm.Tokenizer.Unicode.{UnicodeData}
use pocket_llm.Tokenizer.Pretokenize.{pretokenize}
use pocket_llm.Tokenizer.Specials.{Fragment, raw, token, split_specials}
use pocket_llm.Tokenizer.Merge.{merge_word}
use pocket_llm.Tokenizer.Load.{Tokenizer, SpecialTokens}

-- The id of a special token, appended just if it is there and asked for.
abbrev pub special_ids : Bool → ℤ → List ℕ
special_ids true (pos id) = id ∷ []
special_ids _ _ = []

-- The loop over the words of a fragment: each is written out, mapped and merged. `none` stands for a
-- merge that runs out of fuel.
unfoldable pub words_loop : Tokenizer → List ℕ → ℕ → List ℕ → List ℕ → Option (List ℕ)
words_loop t cpts start [] ids = some ids
words_loop t cpts start (length ∷ words) ids =
    elim (merge_word t.merge_rank t.token_to_id
      (byte_map (utf8_text (take length (drop start cpts)))) ids) [
        | none ↦ none
        | some ids' ↦ words_loop t cpts (start + length) words ids'
      ]

unfoldable pub encode_fragment : UnicodeData → Tokenizer → Fragment → List ℕ → Option (List ℕ)
encode_fragment u t (token id) ids = some (ids ++ id ∷ [])
encode_fragment u t (raw []) ids = some ids
encode_fragment u t (raw (c ∷ text)) ids =
    let cpts = cpts_from_utf8 (c ∷ text) in
    words_loop t cpts 0 (pretokenize u t.pre_rules cpts (length cpts ∷ [])) ids

unfoldable pub fragments_loop : UnicodeData → Tokenizer → List Fragment → List ℕ → Option (List ℕ)
fragments_loop u t [] ids = some ids
fragments_loop u t (f ∷ fragments) ids = elim (encode_fragment u t f ids) [
  | none ↦ none
  | some ids' ↦ fragments_loop u t fragments ids'
]

-- `encode(text, add_special, parse_special)`
unfoldable pub encode : UnicodeData → Tokenizer → Bytes → Bool → Bool → Option (List ℕ)
encode u t text add_special parse_special =
    let fragments = split_specials t.special_tokens t.vocab text parse_special in
    elim (fragments_loop u t fragments
      (special_ids (add_special && t.special.add_bos) t.special.bos)) [
        | none ↦ none
        | some ids ↦ some (ids ++ special_ids (add_special && t.special.add_eos) t.special.eos)
      ]

-- A piece of the form `<0xXX>`.
unfoldable pub is_byte_token : Bytes → Bool
is_byte_token piece =
    length piece == 6 && (same_bytes (take 3 piece) (codes "<0x") && get_or piece 5 0 == b'>')

-- The value of a hexadecimal digit.
abbrev hex_digit : ℕ → Option ℕ
hex_digit c =
    if leb 48 c && leb c 57
    then some (c - 48)
    else if leb 65 c && leb c 70
    then some (c - 55)
    else if leb 97 c && leb c 102
    then some (c - 87)
    else none

-- The digits from the front on, with the value so far.
abbrev hex_digits : Bytes → ℕ → ℕ
hex_digits [] v = v
hex_digits (c ∷ text) v = elim (hex_digit c) [ none ↦ v | some d ↦ hex_digits text (16 * v + d) ]

abbrev is_c_space : ℕ → Bool
is_c_space c = c == 32 || (leb 9 c && leb c 13)

abbrev first_digit : Bytes → Option ℕ
first_digit [] = none
first_digit (c ∷ text) = hex_digit c

-- `static_cast<char>(std::stoi(text, nullptr, 16))` on two characters; `none` is its exception. The
-- prefix `0x` alone is the digit 0.
unfoldable pub byte_of_hex : Bytes → Option ℕ
byte_of_hex [] = none
byte_of_hex (c ∷ text) =
    if is_c_space c
    then first_digit text
    else if c == b'+'
    then first_digit text
    else if c == b'-'
    then elim (first_digit text) [ none ↦ none | some d ↦ some ((256 - d) % 256) ]
    else elim (hex_digit c) [ none ↦ none | some d ↦ some (hex_digits text d) ]

-- The text of one id; an id out of range has none.
unfoldable pub decode_piece : Bytes → Option Bytes
decode_piece piece =
    if is_byte_token piece
    then elim (byte_of_hex (take 2 (drop 3 piece))) [ none ↦ none | some b ↦ some (b ∷ []) ]
    else some (byte_unmap piece)

unfoldable pub decode_id : List Bytes → ℤ → Option Bytes
decode_id vocab (negsuc n) = some []
decode_id vocab (pos id) = elim (get_elem? vocab id) [
  | none ↦ some []
  | some piece ↦ decode_piece piece
]

-- `decode`, with `none` for the exception of `std::stoi`.
unfoldable pub decode : List Bytes → List ℤ → Option Bytes
decode vocab [] = some []
decode vocab (id ∷ ids) = elim (decode_id vocab id) [
  | none ↦ none
  | some text ↦ elim (decode vocab ids) [ none ↦ none | some rest ↦ some (text ++ rest) ]
]
