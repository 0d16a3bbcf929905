-- ===== src/Tokenizer/Specials/Absent.antt =====
-- After the splice no raw fragment holds a special token that was looked for.
use pocket_llm.Prelude.{
  if◌then◌else◌, ℕ, zero, suc, ◌+◌, ◌≤◌, ◌≡◌, ◌≢◌, ap, ◌∙◌, sym, Bool, true, false, List, [], ◌∷◌,
  ◌++◌, some, Bytes, length, length-append, take, drop, get_or, append-nil, append_assoc, arith,
  Option-cases, inl, inr, not, ◌&&◌, length-drop, length-take, All, All-append, take-append-drop,
}
use mathlib.Core.Path.{subst}
use pocket_llm.Prelude.Find.{find_sub, find_sub-first, find_sub-none}
use pocket_llm.Tokenizer.Specials.{
  Fragment, raw, token, SpecialToken, raw_unless_empty, carve_loop, carve, carve_all, is_empty,
  specials_loop, split_specials,
}
use pocket_llm.Tokenizer.Specials.Text.{carve_loop-none, carve_loop-some}

-- `needle` stands nowhere in `text`.
abbrev pub Absent : Bytes → Bytes → Type 0
Absent needle text = (pre post : Bytes) → text ≢ pre ++ (needle ++ post)

abbrev pub AbsentRaw : Bytes → Fragment → Type 0
AbsentRaw needle (raw text) = Absent needle text
AbsentRaw needle (token id) = Unit

-- A part of a text holds nothing that the text does not hold.
Absent-part : (needle a part b : Bytes) → Absent needle (a ++ (part ++ b)) → Absent needle part
Absent-part needle a part b h pre post e = h (a ++ pre) (post ++ b) (rw e (simp append_assoc))

Absent-take : (needle text : Bytes) (n : ℕ) → Absent needle text → Absent needle (take n text)
Absent-take needle text n h =
    Absent-part needle [] (take n text) (drop n text) (rw (take-append-drop n text) h)

Absent-drop : (needle text : Bytes) (n : ℕ) → Absent needle text → Absent needle (drop n text)
Absent-drop needle text n h =
    Absent-part needle (take n text) (drop n text) [] (rw (append-nil, take-append-drop n text) h)

AbsentRaw-unless_empty :
    (needle text : Bytes) → Absent needle text → All (AbsentRaw needle) (raw_unless_empty text)
AbsentRaw-unless_empty needle [] h = tt
AbsentRaw-unless_empty needle (c ∷ text) h = (h, tt)

-- Carving out one token brings no other one back.
carve_loop-Absent :
    (other needle : Bytes) (id fuel : ℕ) (rest : Bytes)
    → Absent other rest
    → All (AbsentRaw other) (carve_loop fuel needle id rest)
carve_loop-Absent other needle id zero rest h =
    unfold carve_loop in AbsentRaw-unless_empty other rest h
carve_loop-Absent other needle id (suc fuel) rest h = elim (Option-cases (find_sub needle rest)) [
  | inl e ↦ rw (carve_loop-none fuel needle id rest e) (AbsentRaw-unless_empty other rest h)
  | inr (match, e) ↦ rw (carve_loop-some fuel needle id rest match e) (
      All-append (AbsentRaw other) (raw_unless_empty (take match rest)) _
        (AbsentRaw-unless_empty other _ (Absent-take other rest match h))
        (tt, carve_loop-Absent other needle id fuel _ (Absent-drop other rest _ h)))
]

-- The text in front of the first match does not hold the needle.
Absent-before :
    (n : ℕ) (needle rest : Bytes) (match : ℕ)
    → find_sub (n ∷ needle) rest ≡ some match
    → Absent (n ∷ needle) (take match rest)
Absent-before n needle rest match e pre post p =
    let whole : rest ≡ pre ++ ((n ∷ needle) ++ (post ++ drop match rest)) =
      sym (take-append-drop match rest) ∙ rw p (simp append_assoc) in
    let first : match ≤ length pre =
      find_sub-first (n ∷ needle) pre (post ++ drop match rest) match (rw (← whole) e) in
    omega
      (arith, first, length-take match rest, ap length p, length-append pre (n ∷ (needle ++ post)))

carve_loop-Absent_self :
    (n : ℕ) (needle : Bytes) (id fuel : ℕ) (rest : Bytes)
    → length rest ≤ fuel
    → All (AbsentRaw (n ∷ needle)) (carve_loop fuel (n ∷ needle) id rest)
carve_loop-Absent_self n needle id zero [] h = unfold carve_loop in tt
carve_loop-Absent_self n needle id zero (c ∷ rest) h = absurd (omega arith)
carve_loop-Absent_self n needle id (suc fuel) rest h =
    elim (Option-cases (find_sub (n ∷ needle) rest)) [
      | inl e ↦ rw (carve_loop-none fuel (n ∷ needle) id rest e) (
          AbsentRaw-unless_empty (n ∷ needle) rest
            (λ pre post p. find_sub-none (n ∷ needle) pre post (rw (← p) e)))
      | inr (match, e) ↦ rw (carve_loop-some fuel (n ∷ needle) id rest match e) (
          All-append (AbsentRaw (n ∷ needle)) (raw_unless_empty (take match rest)) _
            (AbsentRaw-unless_empty (n ∷ needle) _ (Absent-before n needle rest match e))
            (
              tt,
              carve_loop-Absent_self n needle id fuel _
                  (omega (arith, length-drop (match + length (n ∷ needle)) rest)),
            ))
    ]

carve_all-Absent :
    (other needle : Bytes) (id : ℕ) (fragments : List Fragment)
    → All (AbsentRaw other) fragments
    → All (AbsentRaw other) (carve_all needle id fragments)
unfolding carve_all carve
carve_all-Absent other needle id [] h = tt
carve_all-Absent other needle id (token t ∷ fragments) h =
    (tt, carve_all-Absent other needle id fragments h.1)
carve_all-Absent other needle id (raw text ∷ fragments) h =
    All-append (AbsentRaw other) _ _ (carve_loop-Absent other needle id (length text) text h.0)
      (carve_all-Absent other needle id fragments h.1)

carve_all-Absent_self :
    (n : ℕ) (needle : Bytes) (id : ℕ) (fragments : List Fragment)
    → All (AbsentRaw (n ∷ needle)) (carve_all (n ∷ needle) id fragments)
unfolding carve_all carve
carve_all-Absent_self n needle id [] = tt
carve_all-Absent_self n needle id (token t ∷ fragments) =
    (tt, carve_all-Absent_self n needle id fragments)
carve_all-Absent_self n needle id (raw text ∷ fragments) =
    All-append (AbsentRaw (n ∷ needle)) _ _
      (carve_loop-Absent_self n needle id (length text) text (omega arith))
      (carve_all-Absent_self n needle id fragments)

if_both :
    (P : List Fragment → Type 0) (b : Bool) {x y : List Fragment}
    → P x
    → P y
    → P (if b then x else y)
if_both P true h k = h
if_both P false h k = k

specials_loop-Absent :
    (other : Bytes) (specials : List SpecialToken) (vocab : List Bytes) (parse : Bool)
    (fragments : List Fragment)
    → All (AbsentRaw other) fragments
    → All (AbsentRaw other) (specials_loop specials vocab parse fragments)
unfolding specials_loop
specials_loop-Absent other [] vocab parse fragments h = h
specials_loop-Absent other (special ∷ specials) vocab parse fragments h =
    let needle = get_or vocab special.id [] in
    specials_loop-Absent other specials vocab parse _ (
      if_both (All (AbsentRaw other)) (special.needs_parse && not parse) h (
        if_both (All (AbsentRaw other)) (is_empty needle) h
          (carve_all-Absent other needle special.id fragments h)))

specials_loop-active :
    (after : List SpecialToken) (special : SpecialToken) (vocab : List Bytes) (parse : Bool)
    (fragments : List Fragment) (n : ℕ) (needle : Bytes)
    → (special.needs_parse && not parse) ≡ false
    → get_or vocab special.id [] ≡ n ∷ needle
    → specials_loop (special ∷ after) vocab parse fragments
      ≡ specials_loop after vocab parse (carve_all (n ∷ needle) special.id fragments)
unfolding specials_loop
specials_loop-active after special vocab parse fragments n needle active e = ground arith

specials_loop-Absent_found :
    (before after : List SpecialToken) (special : SpecialToken) (vocab : List Bytes) (parse : Bool)
    (fragments : List Fragment) (n : ℕ) (needle : Bytes)
    → (special.needs_parse && not parse) ≡ false
    → get_or vocab special.id [] ≡ n ∷ needle
    → All
        (AbsentRaw (n ∷ needle))
        (specials_loop (before ++ (special ∷ after)) vocab parse fragments)
unfolding specials_loop
specials_loop-Absent_found [] after special vocab parse fragments n needle active e =
    subst (All (AbsentRaw (n ∷ needle)))
      (sym (specials_loop-active after special vocab parse fragments n needle active e))
      (specials_loop-Absent (n ∷ needle) after vocab parse _
        (carve_all-Absent_self n needle special.id fragments))
specials_loop-Absent_found (s ∷ before) after special vocab parse fragments n needle active e =
    specials_loop-Absent_found before after special vocab parse _ n needle active e

-- A special token that is looked for (a user-defined one, or any with `parse_special`) and whose
-- spelling is not empty is left in no raw fragment, whatever specials come before and after it: it
-- is never tokenized as the characters that it is spelled with.
pub split_specials-Absent :
    (before after : List SpecialToken) (special : SpecialToken) (vocab : List Bytes) (text : Bytes)
    (parse : Bool) (n : ℕ) (needle : Bytes)
    → (special.needs_parse && not parse) ≡ false
    → get_or vocab special.id [] ≡ n ∷ needle
    → All (AbsentRaw (n ∷ needle)) (split_specials (before ++ (special ∷ after)) vocab text parse)
unfolding split_specials
split_specials-Absent before after special vocab [] parse n needle active e =
    ((λ pre post p. omega (arith, ap length p, length-append pre (n ∷ (needle ++ post)))), tt)
split_specials-Absent before after special vocab (c ∷ text) parse n needle active e =
    specials_loop-Absent_found before after special vocab parse _ n needle active e
