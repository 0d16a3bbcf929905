-- ===== src/Tokenizer/Load/Refine.antt =====
-- What a tokenizer is once it is loaded (src/tokenizer/bpe.cpp).
use mathlib.Core.List.{Mem}
use mathlib.Core.List.Perm
use mathlib.Core.Path.{subst}
use pocket_llm.Prelude.{
  ℕ, ◌<◌, ◌≤◌, ◌≡◌, ◌≢◌, All, not, ◌==◌, length, List, [], ◌∷◌, Option, some, Bytes, get_elem?,
  codes, Option-cases, inl, inr, arith,
}
use pocket_llm.Prelude.Assoc.{bytes_eq, find}
use pocket_llm.Gguf.Value.{GgufValue, array}
use pocket_llm.Gguf.Parse.{GgufReader}
use pocket_llm.Gguf.Tensor.{find as find_value, get_string}
use pocket_llm.Tokenizer.Pretokenize.{PreTokenizer}
use pocket_llm.Tokenizer.Load.{
  Tokenizer, SpecialTokens, loaded, load, load_vocab, load_tokens, tokenizer_of, special_tokens_of,
  pre_rules_of, collect_specials, ints_at,
}
use pocket_llm.Tokenizer.Load.Index.{index_of, find-token_to_id, token_to_id_sound}
use pocket_llm.Tokenizer.Load.Order.{
  IsOrdered, All-sort_specials, sort_specials-IsOrdered, sort_specials-Perm,
}
use pocket_llm.Tokenizer.Load.Named.{
  IsNamed, collect_specials-IsNamed, collect_specials-IsDistinct, mem-collect_specials,
}
use pocket_llm.Tokenizer.Specials.{SpecialToken}
use pocket_llm.Prelude.Int.{ℤ, pos}
use native.Mathlib.Nat.{zero-add}

-- The token types of a checkpoint.
abbrev pub types_of : GgufReader → List ℤ
types_of checkpoint = ints_at checkpoint (codes "tokenizer.ggml.token_type")

-- A tokenizer whose parts belong together.
pub record IsLoaded (checkpoint : GgufReader) (t : Tokenizer) : Type 0 where
  pub full : t.vocab ≢ []
  pub indexed : (piece : Bytes) → find piece t.token_to_id ≡ index_of piece 0 t.vocab
  pub sound :
      (piece : Bytes) (id : ℕ)
      → find piece t.token_to_id ≡ some id
      → get_elem? t.vocab id ≡ some piece
  pub ordered : IsOrdered t.vocab t.special_tokens
  pub named : All (IsNamed 0 t.vocab (types_of checkpoint)) t.special_tokens
  pub complete :
      (id type : ℕ)
      → id < length t.vocab
      → get_elem? (types_of checkpoint) id ≡ some (pos type)
      → 2 ≤ type
      → type ≤ 4
      → Mem (record { id = id; needs_parse = not (type == 4) }) t.special_tokens

abbrev collected : GgufReader → Bytes → List Bytes → List SpecialToken
collected checkpoint token vocab = collect_specials 0 (token ∷ vocab) (types_of checkpoint)

tokenizer_of-IsLoaded :
    (checkpoint : GgufReader) (rules : PreTokenizer) (token : Bytes) (vocab : List Bytes)
    (special : SpecialTokens)
    → IsLoaded checkpoint (tokenizer_of checkpoint rules (token ∷ vocab) special)
tokenizer_of-IsLoaded checkpoint rules token vocab special = record {
  full = λ h. cc;
  indexed = λ piece. find-token_to_id piece (token ∷ vocab);
  sound = λ piece id. token_to_id_sound piece (token ∷ vocab) id;
  ordered =
      sort_specials-IsOrdered (token ∷ vocab) (collected checkpoint token vocab)
        (collect_specials-IsDistinct 0 (token ∷ vocab) (types_of checkpoint));
  named =
      All-sort_specials (token ∷ vocab) (IsNamed 0 (token ∷ vocab) (types_of checkpoint))
        (collected checkpoint token vocab)
        (collect_specials-IsNamed 0 (token ∷ vocab) (types_of checkpoint));
  complete = λ id type below typed two four.
      (Perm.mem_iff (sort_specials-Perm (token ∷ vocab) (collected checkpoint token vocab))).1 (
        subst
          (λ k.
            Mem (record { id = k; needs_parse = not (type == 4) })
              (collected checkpoint token vocab))
          (zero-add id)
          (mem-collect_specials 0 (token ∷ vocab) (types_of checkpoint) id type below typed two
            four));
}

load_vocab-IsLoaded :
    (checkpoint : GgufReader) (rules : PreTokenizer) (vocab : List Bytes) (t : Tokenizer)
    → load_vocab checkpoint rules vocab ≡ loaded t
    → IsLoaded checkpoint t
unfolding load_vocab
load_vocab-IsLoaded checkpoint rules [] t e = absurd (cc)
load_vocab-IsLoaded checkpoint rules (token ∷ vocab) t e =
    elim (Option-cases (special_tokens_of checkpoint)) [
      | inl n ↦ absurd (ground (arith, e, n))
      | inr (special, s) ↦
          let same : tokenizer_of checkpoint rules (token ∷ vocab) special ≡ t =
            ground (arith, e, s) in
          subst (IsLoaded checkpoint) same
            (tokenizer_of-IsLoaded checkpoint rules token vocab special)
    ]

load_tokens-IsLoaded :
    (checkpoint : GgufReader) (rules : PreTokenizer) (value : Option GgufValue) (t : Tokenizer)
    → load_tokens checkpoint rules value ≡ loaded t
    → IsLoaded checkpoint t
unfolding load_tokens
load_tokens-IsLoaded checkpoint rules (some (array tokens)) t e =
    load_vocab-IsLoaded checkpoint rules tokens.strings t e
load_tokens-IsLoaded checkpoint rules _ t e = absurd (cc)

-- A tokenizer that loads has a vocabulary with a token, its index gives the first id of every piece and
-- no other, and so an id that it gives is one of the piece. Its special tokens are the tokens whose types
-- are 2, 3 or 4, all of them and no other, each once; one of type 4 is looked for in any text, and the
-- others only with `parse_special`; and each stands before those with a shorter spelling, and before
-- those with a spelling as long and a greater id.
pub load-IsLoaded :
    (checkpoint : GgufReader) (t : Tokenizer) → load checkpoint ≡ loaded t → IsLoaded checkpoint t
unfolding load
load-IsLoaded checkpoint t e =
    elim (Option-cases (pre_rules_of (get_string checkpoint (codes "tokenizer.ggml.pre") []))) [
      | inl n ↦ absurd (ground (arith, e, n))
      | inr (rules, r) ↦
          load_tokens-IsLoaded checkpoint rules
            (find_value checkpoint (codes "tokenizer.ggml.tokens")) t (ground (arith, e, r))
    ]
