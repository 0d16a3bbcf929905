-- ===== src/Tokenizer/Load.antt =====
-- The constructor of `Tokenizer` in src/tokenizer/bpe.cpp: the vocabulary, the merges and the special
-- tokens of a checkpoint. A vocabulary has fewer than 2 ^ 31 tokens.
pub mod Index
pub mod Named
pub mod Order
pub mod Refine
use pocket_llm.Prelude.{
  ℕ, zero, suc, ◌+◌, ◌-◌, ◌*◌, ◌%◌, ◌^◌, Bool, true, false, not, ◌&&◌, ◌||◌, List, [], ◌∷◌, ◌++◌,
  Option, none, some, Bytes, codes, same_bytes, length, get_or, take, drop, ltb, leb, ◌==◌,
  if◌then◌else◌,
}
use pocket_llm.Prelude.Assoc.{bytes_eq, emplace}
use pocket_llm.Prelude.Int.{ℤ, pos, negsuc, signed, to_u64}
use pocket_llm.Gguf.Value.{GgufArray, GgufValue, array}
use pocket_llm.Gguf.Parse.{GgufReader}
use pocket_llm.Gguf.Tensor.{find, get_int, get_string}
use pocket_llm.Tokenizer.Pretokenize.{PreTokenizer, qwen2, llama_bpe}
use pocket_llm.Tokenizer.Specials.{SpecialToken}
use pocket_llm.Tokenizer.Merge.{Ranks, pair_key}

pub record SpecialTokens : Type 0 where
  pub bos : ℤ
  pub eos : ℤ
  pub pad : ℤ
  pub add_bos : Bool
  pub add_eos : Bool

pub record Tokenizer : Type 0 where
  pub vocab : List Bytes
  pub token_to_id : List (Bytes × ℕ)
  pub merge_rank : Ranks
  pub special_tokens : List SpecialToken
  pub special : SpecialTokens
  pub pre_rules : PreTokenizer

-- The exceptions, and `undefined_conversion` for a floating-point id that no int64_t holds.
pub data Refusal : Type 0 where
  unsupported_pre unsupported_model : Bytes → Refusal
  no_tokens empty_tokens undefined_conversion : Refusal

pub data Loaded : Type 0 where
  loaded : Tokenizer → Loaded
  refused : Refusal → Loaded

unfoldable pub pre_rules_of : Bytes → Option PreTokenizer
pre_rules_of pre =
    if same_bytes pre (codes "qwen2")
    then some qwen2
    else if same_bytes pre (codes "llama-bpe")
    then some llama_bpe
    else none

-- `token_to_id_.emplace(vocab_[i], i)`, from `i` on.
unfoldable pub index_tokens : ℕ → List Bytes → List (Bytes × ℕ) → List (Bytes × ℕ)
index_tokens i [] ids = ids
index_tokens i (token ∷ vocab) ids = index_tokens (i + 1) vocab (emplace token i ids)

-- The index of the first space of a text, `none` for `npos`.
unfoldable pub find_space : Bytes → Option ℕ
find_space [] = none
find_space (c ∷ text) =
    if c == 0x20 then some 0 else elim (find_space text) [ none ↦ none | some i ↦ some (suc i) ]

-- The key of a merge: it is cut at the first space behind its first character.
unfoldable pub merge_key : Bytes → Option Bytes
merge_key merge = elim (find_space (drop 1 merge)) [
  | none ↦ none
  | some i ↦ some (pair_key (take (suc i) merge) (drop (suc i + 1) merge))
]

unfoldable pub index_merges : ℕ → List Bytes → Ranks → Ranks
index_merges i [] ranks = ranks
index_merges i (merge ∷ merges) ranks =
    index_merges (i + 1) merges
      (elim (merge_key merge) [ none ↦ ranks | some key ↦ emplace key i ranks ])

-- Types 2, 3 and 4 are UNKNOWN, CONTROL and USER_DEFINED.
abbrev pub is_special_type : ℤ → Bool
is_special_type (pos type) = leb 2 type && leb type 4
is_special_type (negsuc n) = false

abbrev pub is_user_defined : ℤ → Bool
is_user_defined (pos type) = type == 4
is_user_defined (negsuc n) = false

-- The special tokens in the order of their ids, from `i` on.
unfoldable pub collect_specials : ℕ → List Bytes → List ℤ → List SpecialToken
collect_specials i (token ∷ vocab) (type ∷ types) =
    let rest = collect_specials (i + 1) vocab types in
    if is_special_type type
    then record { id = i; needs_parse = not (is_user_defined type) } ∷ rest
    else rest
collect_specials i _ _ = []

-- The comparator: longer spellings first, then smaller ids.
unfoldable pub before : List Bytes → SpecialToken → SpecialToken → Bool
before vocab a b =
    let length_a = length (get_or vocab a.id []) in
    let length_b = length (get_or vocab b.id []) in
    if length_a == length_b then ltb a.id b.id else ltb length_b length_a

-- `std::sort` by the comparator. No two special tokens are equal in it, so the order is the only one.
unfoldable pub insert_special : List Bytes → SpecialToken → List SpecialToken → List SpecialToken
insert_special vocab a [] = a ∷ []
insert_special vocab a (b ∷ specials) =
    let rest = insert_special vocab a specials in
    if before vocab a b then a ∷ b ∷ specials else b ∷ rest

unfoldable pub sort_specials : List Bytes → List SpecialToken → List SpecialToken
sort_specials vocab [] = []
sort_specials vocab (a ∷ specials) = insert_special vocab a (sort_specials vocab specials)

-- The strings and the integers of an array of the metadata, none if the key has another type.
abbrev pub strings_at : GgufReader → Bytes → List Bytes
strings_at checkpoint key = elim (find checkpoint key) [ some (array a) ↦ a.strings | _ ↦ [] ]

abbrev pub ints_at : GgufReader → Bytes → List ℤ
ints_at checkpoint key = elim (find checkpoint key) [ some (array a) ↦ a.ints | _ ↦ [] ]

-- `static_cast<int32_t>(get_int(key, -1))`
unfoldable pub special_id : GgufReader → Bytes → Option ℤ
special_id checkpoint key = elim (get_int checkpoint key (negsuc 0)) [
  | none ↦ none
  | some id ↦ some (signed 32 (to_u64 id % 2 ^ 32))
]

unfoldable pub special_flag : GgufReader → Bytes → Option Bool
special_flag checkpoint key = elim (get_int checkpoint key (pos 0)) [
  | none ↦ none
  | some v ↦ some (not (to_u64 v == 0))
]

infixl 5 ◌>>=◌
abbrev ◌>>=◌ {ℓ κ} : {A : Type ℓ} {B : Type κ} → Option A → (A → Option B) → Option B
none >>= f = none
some a >>= f = f a

unfoldable pub special_tokens_of : GgufReader → Option SpecialTokens
special_tokens_of checkpoint = do
  bos ← special_id checkpoint (codes "tokenizer.ggml.bos_token_id")
  eos ← special_id checkpoint (codes "tokenizer.ggml.eos_token_id")
  pad ← special_id checkpoint (codes "tokenizer.ggml.padding_token_id")
  add_bos ← special_flag checkpoint (codes "tokenizer.ggml.add_bos_token")
  add_eos ← special_flag checkpoint (codes "tokenizer.ggml.add_eos_token")
  some (record { bos = bos; eos = eos; pad = pad; add_bos = add_bos; add_eos = add_eos })

abbrev pub tokenizer_of : GgufReader → PreTokenizer → List Bytes → SpecialTokens → Tokenizer
tokenizer_of checkpoint rules vocab special = record {
  vocab = vocab;
  token_to_id = index_tokens 0 vocab [];
  merge_rank = index_merges 0 (strings_at checkpoint (codes "tokenizer.ggml.merges")) [];
  special_tokens =
      sort_specials vocab
        (collect_specials 0 vocab (ints_at checkpoint (codes "tokenizer.ggml.token_type")));
  special = special;
  pre_rules = rules;
}

-- The constructor from the check of the vocabulary on.
unfoldable pub load_vocab : GgufReader → PreTokenizer → List Bytes → Loaded
load_vocab checkpoint rules [] = refused empty_tokens
load_vocab checkpoint rules (token ∷ vocab) = elim (special_tokens_of checkpoint) [
  | none ↦ refused undefined_conversion
  | some special ↦ loaded (tokenizer_of checkpoint rules (token ∷ vocab) special)
]

unfoldable pub load_tokens : GgufReader → PreTokenizer → Option GgufValue → Loaded
load_tokens checkpoint rules (some (array tokens)) = load_vocab checkpoint rules tokens.strings
load_tokens checkpoint rules _ = refused no_tokens

unfoldable pub load : GgufReader → Loaded
load checkpoint =
    let pre = get_string checkpoint (codes "tokenizer.ggml.pre") [] in
    let model = get_string checkpoint (codes "tokenizer.ggml.model") [] in
    elim (pre_rules_of pre) [
      | none ↦ refused (unsupported_pre pre)
      | some rules ↦
          if same_bytes model (codes "gpt2")
          then load_tokens checkpoint rules (find checkpoint (codes "tokenizer.ggml.tokens"))
          else refused (unsupported_model model)
    ]
