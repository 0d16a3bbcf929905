-- ===== src/Tokenizer/Specials.antt =====
-- `split_specials` of src/tokenizer/bpe.cpp: the special tokens are carved out of the text before
-- it is tokenized.
pub mod Text
pub mod Absent
use pocket_llm.Prelude.{
  ℕ, zero, suc, ◌+◌, Bool, true, false, not, ◌&&◌, List, [], ◌∷◌, ◌++◌, none, some, Bytes, ltb,
  if◌then◌else◌, length, take, drop, get_or,
}
use pocket_llm.Prelude.Find.{find_sub}

-- `is_token` tells the two apart.
pub data Fragment : Type 0 where
  raw : Bytes → Fragment
  token : ℕ → Fragment

pub record SpecialToken : Type 0 where
  pub id : ℕ
  pub needs_parse : Bool

abbrev pub raw_unless_empty : Bytes → List Fragment
raw_unless_empty [] = []
raw_unless_empty (c ∷ text) = raw (c ∷ text) ∷ []

-- `while (true)`: what one raw fragment becomes. `rest` is its text from `pos` on; each match takes
-- the needle's bytes, so the length of the text is fuel enough.
unfoldable pub carve_loop : ℕ → Bytes → ℕ → Bytes → List Fragment
carve_loop zero needle id rest = raw_unless_empty rest
carve_loop (suc fuel) needle id rest = elim (find_sub needle rest) [
  | none ↦ raw_unless_empty rest
  | some match ↦
      raw_unless_empty (take match rest)
      ++ (token id ∷ carve_loop fuel needle id (drop (match + length needle) rest))
]

unfoldable pub carve : Bytes → ℕ → Fragment → List Fragment
carve needle id (token t) = token t ∷ []
carve needle id (raw text) = carve_loop (length text) needle id text

-- `next`, over all the fragments.
unfoldable pub carve_all : Bytes → ℕ → List Fragment → List Fragment
carve_all needle id [] = []
carve_all needle id (f ∷ fragments) = carve needle id f ++ carve_all needle id fragments

abbrev pub is_empty : Bytes → Bool
is_empty [] = true
is_empty (c ∷ text) = false

-- The loop over the special tokens, with its two `continue`s.
unfoldable pub specials_loop : List SpecialToken → List Bytes → Bool → List Fragment → List Fragment
specials_loop [] vocab parse_special fragments = fragments
specials_loop (special ∷ specials) vocab parse_special fragments =
    let needle = get_or vocab special.id [] in
    specials_loop specials vocab parse_special (
      if special.needs_parse && not parse_special
      then fragments
      else if is_empty needle
      then fragments
      else carve_all needle special.id fragments)

unfoldable pub split_specials : List SpecialToken → List Bytes → Bytes → Bool → List Fragment
split_specials specials vocab [] parse_special = raw [] ∷ []
split_specials specials vocab (c ∷ text) parse_special =
    specials_loop specials vocab parse_special (raw (c ∷ text) ∷ [])
