-- ===== src/Tokenizer/Specials/Text.antt =====
-- The splice keeps the text: its fragments spell it in order.
use pocket_llm.Prelude.{
  ℕ, zero, suc, ◌+◌, ◌≡◌, refl, ◌∙◌, sym, Bool, List, [], ◌∷◌, ◌++◌, none, some, Bytes, length,
  take, drop, get_or, append-nil, append_assoc, arith, Option-cases, inl, inr,
}
use pocket_llm.Prelude.Find.{find_sub, find_sub-some}
use pocket_llm.Tokenizer.Specials.{
  Fragment, raw, token, SpecialToken, raw_unless_empty, carve_loop, carve, carve_all, specials_loop,
  split_specials,
}

-- What a fragment stands for in the text.
abbrev pub spelling : List Bytes → Fragment → Bytes
spelling vocab (raw text) = text
spelling vocab (token id) = get_or vocab id []

abbrev pub spellings : List Bytes → List Fragment → Bytes
spellings vocab [] = []
spellings vocab (f ∷ fragments) = spelling vocab f ++ spellings vocab fragments

spellings-append :
    (vocab : List Bytes) (fs gs : List Fragment)
    → spellings vocab (fs ++ gs) ≡ spellings vocab fs ++ spellings vocab gs
spellings-append vocab [] gs = refl
spellings-append vocab (f ∷ fs) gs = rw (spellings-append vocab fs gs, append_assoc)

spellings-raw_unless_empty :
    (vocab : List Bytes) (text : Bytes) → spellings vocab (raw_unless_empty text) ≡ text
spellings-raw_unless_empty vocab [] = refl
spellings-raw_unless_empty vocab (c ∷ text) = append-nil (c ∷ text)

pub carve_loop-none :
    (fuel : ℕ) (needle : Bytes) (id : ℕ) (rest : Bytes)
    → find_sub needle rest ≡ none
    → carve_loop (suc fuel) needle id rest ≡ raw_unless_empty rest
unfolding carve_loop
carve_loop-none fuel needle id rest e = rw (e, carve_loop)

pub carve_loop-some :
    (fuel : ℕ) (needle : Bytes) (id : ℕ) (rest : Bytes) (match : ℕ)
    → find_sub needle rest ≡ some match
    → carve_loop (suc fuel) needle id rest
      ≡ raw_unless_empty (take match rest)
        ++ (token id ∷ carve_loop fuel needle id (drop (match + length needle) rest))
unfolding carve_loop
carve_loop-some fuel needle id rest match e = rw (e, carve_loop)

module _ (vocab : List Bytes) (id : ℕ) where
  spellings-carve_loop :
      (fuel : ℕ) (rest : Bytes)
      → spellings vocab (carve_loop fuel (get_or vocab id []) id rest) ≡ rest
  spellings-carve_loop zero rest = unfold carve_loop in spellings-raw_unless_empty vocab rest
  spellings-carve_loop (suc fuel) rest = elim (Option-cases (find_sub (get_or vocab id []) rest)) [
    | inl e ↦ rw (carve_loop-none fuel _ id rest e) (spellings-raw_unless_empty vocab rest)
    | inr (match, e) ↦ rw (carve_loop-some fuel _ id rest match e) (
        spellings-append vocab (raw_unless_empty (take match rest)) _
        ∙ rw (spellings-raw_unless_empty vocab (take match rest), spellings-carve_loop fuel)
            (sym (find_sub-some (get_or vocab id []) rest match e)))
  ]

  spellings-carve :
      (f : Fragment) → spellings vocab (carve (get_or vocab id []) id f) ≡ spelling vocab f
  unfolding carve
  spellings-carve (token t) = append-nil (spelling vocab (token t))
  spellings-carve (raw text) = spellings-carve_loop (length text) text

  spellings-carve_all :
      (fragments : List Fragment)
      → spellings vocab (carve_all (get_or vocab id []) id fragments) ≡ spellings vocab fragments
  unfolding carve_all
  spellings-carve_all [] = refl
  spellings-carve_all (f ∷ fragments) =
      spellings-append vocab (carve (get_or vocab id []) id f) _
      ∙ rw (spellings-carve f, spellings-carve_all fragments)

spellings-specials_loop :
    (specials : List SpecialToken) (vocab : List Bytes) (parse : Bool) (fragments : List Fragment)
    → spellings vocab (specials_loop specials vocab parse fragments) ≡ spellings vocab fragments
unfolding specials_loop
spellings-specials_loop [] vocab parse fragments = refl
spellings-specials_loop (special ∷ specials) vocab parse fragments =
    spellings-specials_loop specials vocab parse _
    ∙ ground (arith, spellings-carve_all vocab special.id fragments)

-- The fragments spell the text, in order: a token by its vocabulary entry, a raw fragment by itself.
-- It holds for any list of specials, in any order, with or without `parse_special`.
pub spellings-split_specials :
    (specials : List SpecialToken) (vocab : List Bytes) (text : Bytes) (parse : Bool)
    → spellings vocab (split_specials specials vocab text parse) ≡ text
unfolding split_specials
spellings-split_specials specials vocab [] parse = refl
spellings-split_specials specials vocab (c ∷ text) parse =
    spellings-specials_loop specials vocab parse (raw (c ∷ text) ∷ []) ∙ append-nil (c ∷ text)
