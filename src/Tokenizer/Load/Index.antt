-- ===== src/Tokenizer/Load/Index.antt =====
-- The vocabulary's index, `token_to_id_` of src/tokenizer/bpe.cpp.
use pocket_llm.Prelude.{
  ℕ, suc, ◌+◌, ◌≡◌, ap, ◌∙◌, List, [], ◌∷◌, Option, none, some, Bytes, same_bytes, same_bytes_iff,
  get_elem?, if◌then◌else◌, arith, Bool-cases, inl, inr,
}
use pocket_llm.Prelude.Assoc.{bytes_eq, find, emplace, find-emplace}
use pocket_llm.Tokenizer.Load.{index_tokens}

-- The first index of a piece in the vocabulary, counted from `i` on.
abbrev pub index_of : Bytes → ℕ → List Bytes → Option ℕ
index_of piece i [] = none
index_of piece i (token ∷ vocab) =
    if same_bytes token piece then some i else index_of piece (i + 1) vocab

find-index_tokens :
    (piece : Bytes) (i : ℕ) (vocab : List Bytes) (ids : List (Bytes × ℕ))
    → find piece (index_tokens i vocab ids)
      ≡ elim (find piece ids) [ some id ↦ some id | none ↦ index_of piece i vocab ]
unfolding index_tokens
find-index_tokens piece i [] ids = ground arith
find-index_tokens piece i (token ∷ vocab) ids =
    find-index_tokens piece (i + 1) vocab (emplace token i ids)
    ∙ ground (arith, find-emplace token piece i ids)

-- `token_to_id_` gives the first index of every piece, and nothing else.
pub find-token_to_id :
    (piece : Bytes) (vocab : List Bytes)
    → find piece (index_tokens 0 vocab []) ≡ index_of piece 0 vocab
unfolding find
find-token_to_id piece vocab = find-index_tokens piece 0 vocab []

index_of-get_elem? :
    (piece : Bytes) (i : ℕ) (vocab : List Bytes) (id : ℕ)
    → index_of piece i vocab ≡ some id
    → (k : ℕ) × (id ≡ k + i) × (get_elem? vocab k ≡ some piece)
index_of-get_elem? piece i [] id e = absurd (cc)
index_of-get_elem? piece i (token ∷ vocab) id e = elim (Bool-cases (same_bytes token piece)) [
  | inl b ↦ (0, ground (arith, e, b), ap some ((same_bytes_iff token piece).0 b))
  | inr b ↦
      let (k, eq, g) = index_of-get_elem? piece (i + 1) vocab id (ground (arith, e, b)) in
      (suc k, omega arith, g)
]

pub token_to_id_sound :
    (piece : Bytes) (vocab : List Bytes) (id : ℕ)
    → find piece (index_tokens 0 vocab []) ≡ some id
    → get_elem? vocab id ≡ some piece
token_to_id_sound piece vocab id e =
    let (k, eq, g) =
      index_of-get_elem? piece 0 vocab id (ground (arith, e, find-token_to_id piece vocab)) in
    let same : id ≡ k = omega arith in rw same g
