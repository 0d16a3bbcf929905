-- ===== src/Tokenizer/Load/Order.antt =====
-- The order of the special tokens (src/tokenizer/bpe.cpp).
use mathlib.Core.List.{Perm}
use mathlib.Core.List.Perm
use pocket_llm.Prelude.{
  ℕ, ◌<◌, ◌≡◌, ◌≢◌, ◌⊎◌, true, false, List, [], ◌∷◌, Bytes, length, get_or, All, arith, Bool-cases,
  inl, inr,
}
use pocket_llm.Tokenizer.Specials.{SpecialToken}
use pocket_llm.Tokenizer.Load.{before, insert_special, sort_specials}

abbrev pub spelling_length : List Bytes → SpecialToken → ℕ
spelling_length vocab a = length (get_or vocab a.id [])

-- The longer spelling, or of two as long as each other the smaller id.
abbrev pub Precedes : List Bytes → SpecialToken → SpecialToken → Type 0
Precedes vocab a b =
    (spelling_length vocab b < spelling_length vocab a)
    ⊎ ((spelling_length vocab a ≡ spelling_length vocab b) × (a.id < b.id))

-- Every token precedes all that stand behind it, so none stands there twice.
abbrev pub IsOrdered : List Bytes → List SpecialToken → Type 0
IsOrdered vocab [] = Unit
IsOrdered vocab (a ∷ specials) = All (Precedes vocab a) specials × IsOrdered vocab specials

-- No id stands there twice.
abbrev pub IsDistinct : List SpecialToken → Type 0
IsDistinct [] = Unit
IsDistinct (a ∷ specials) = All (λ b. a.id ≢ b.id) specials × IsDistinct specials

Precedes-trans :
    (vocab : List Bytes) (a b c : SpecialToken)
    → Precedes vocab a b
    → Precedes vocab b c
    → Precedes vocab a c
Precedes-trans vocab a b c h k = ground arith

before-Precedes :
    (vocab : List Bytes) (a b : SpecialToken) → before vocab a b ≡ true → Precedes vocab a b
unfolding before
before-Precedes vocab a b h = ground arith

not_before-Precedes :
    (vocab : List Bytes) (a b : SpecialToken)
    → a.id ≢ b.id
    → before vocab a b ≡ false
    → Precedes vocab b a
unfolding before
not_before-Precedes vocab a b other h = ground arith

All-Precedes :
    (vocab : List Bytes) (a b : SpecialToken) (specials : List SpecialToken)
    → Precedes vocab a b
    → All (Precedes vocab b) specials
    → All (Precedes vocab a) specials
All-Precedes vocab a b [] h k = tt
All-Precedes vocab a b (c ∷ specials) h k =
    (Precedes-trans vocab a b c h k.0, All-Precedes vocab a b specials h k.1)

All-insert_special :
    (vocab : List Bytes) (P : SpecialToken → Type 0) (a : SpecialToken)
    (specials : List SpecialToken)
    → P a
    → All P specials
    → All P (insert_special vocab a specials)
unfolding insert_special
All-insert_special vocab P a [] p h = (p, tt)
All-insert_special vocab P a (b ∷ specials) p h = elim (Bool-cases (before vocab a b)) [
  | inl e ↦ rw (e, insert_special) (p, h)
  | inr e ↦ rw (e, insert_special) (h.0, All-insert_special vocab P a specials p h.1)
]

pub All-sort_specials :
    (vocab : List Bytes) (P : SpecialToken → Type 0) (specials : List SpecialToken)
    → All P specials
    → All P (sort_specials vocab specials)
unfolding sort_specials
All-sort_specials vocab P [] h = tt
All-sort_specials vocab P (a ∷ specials) h =
    All-insert_special vocab P a (sort_specials vocab specials) h.0
      (All-sort_specials vocab P specials h.1)

insert_special-IsOrdered :
    (vocab : List Bytes) (a : SpecialToken) (specials : List SpecialToken)
    → All (λ b. a.id ≢ b.id) specials
    → IsOrdered vocab specials
    → IsOrdered vocab (insert_special vocab a specials)
unfolding insert_special
insert_special-IsOrdered vocab a [] other h = (tt, tt)
insert_special-IsOrdered vocab a (b ∷ specials) other h = elim (Bool-cases (before vocab a b)) [
  | inl e ↦
      let first = before-Precedes vocab a b e in
      rw (e, insert_special) ((first, All-Precedes vocab a b specials first h.0), h)
  | inr e ↦
      let behind = not_before-Precedes vocab a b other.0 e in
      rw (e, insert_special)
        (
          All-insert_special vocab (Precedes vocab b) a specials behind h.0,
          insert_special-IsOrdered vocab a specials other.1 h.1,
        )
]

pub sort_specials-IsOrdered :
    (vocab : List Bytes) (specials : List SpecialToken)
    → IsDistinct specials
    → IsOrdered vocab (sort_specials vocab specials)
unfolding sort_specials
sort_specials-IsOrdered vocab [] h = tt
sort_specials-IsOrdered vocab (a ∷ specials) h =
    insert_special-IsOrdered vocab a (sort_specials vocab specials)
      (All-sort_specials vocab (λ b. a.id ≢ b.id) specials h.0)
      (sort_specials-IsOrdered vocab specials h.1)

insert_special-Perm :
    (vocab : List Bytes) (a : SpecialToken) (specials : List SpecialToken)
    → Perm (insert_special vocab a specials) (a ∷ specials)
unfolding insert_special
insert_special-Perm vocab a [] = Perm.refl _
insert_special-Perm vocab a (b ∷ specials) = elim (Bool-cases (before vocab a b)) [
  | inl e ↦ rw (e, insert_special) (Perm.refl _)
  | inr e ↦
      rw (e, insert_special)
        (Perm.trans (Perm.cons b (insert_special-Perm vocab a specials)) (Perm.swap _ _ _))
]

pub sort_specials-Perm :
    (vocab : List Bytes) (specials : List SpecialToken)
    → Perm (sort_specials vocab specials) specials
unfolding sort_specials
sort_specials-Perm vocab [] = Perm.refl _
sort_specials-Perm vocab (a ∷ specials) =
    Perm.trans (insert_special-Perm vocab a (sort_specials vocab specials))
      (Perm.cons a (sort_specials-Perm vocab specials))
