-- ===== src/Tokenizer/Load/Named.antt =====
-- Which special tokens the token types name (src/tokenizer/bpe.cpp).
use mathlib.Core.List.{Mem, mem-cons_self, mem-cons_of_mem}
use pocket_llm.Prelude.{
  ℕ, zero, suc, ◌+◌, ◌<◌, ◌≤◌, ◌≡◌, refl, ◌≢◌, ◌↔◌, true, not, ◌==◌, List, [], ◌∷◌, some, Bytes,
  length, get_elem?, All, arith, Bool-cases, inl, inr,
}
use pocket_llm.Prelude.Int.{ℤ, pos, negsuc}
use pocket_llm.Tokenizer.Specials.{SpecialToken}
use pocket_llm.Tokenizer.Load.{is_special_type, is_user_defined, collect_specials}
use pocket_llm.Tokenizer.Load.Order.{IsDistinct}

-- A token of the vocabulary from `i` on, whose type is 2 (UNKNOWN), 3 (CONTROL) or 4 (USER_DEFINED), and
-- which is looked for without `parse_special` just if it is user-defined.
pub record IsNamed (i : ℕ) (vocab : List Bytes) (types : List ℤ) (a : SpecialToken) : Type 0 where
  pub index : ℕ
  pub type : ℕ
  pub at : a.id ≡ i + index
  pub known : index < length vocab
  pub typed : get_elem? types index ≡ some (pos type)
  pub from_unknown : 2 ≤ type
  pub to_user_defined : type ≤ 4
  pub parse : (a.needs_parse ≡ true) ↔ (type ≢ 4)

IsNamed-later :
    (i : ℕ) (token : Bytes) (vocab : List Bytes) (type : ℤ) (types : List ℤ)
    (specials : List SpecialToken)
    → All (IsNamed (i + 1) vocab types) specials
    → All (IsNamed i (token ∷ vocab) (type ∷ types)) specials
IsNamed-later i token vocab type types [] h = tt
IsNamed-later i token vocab type types (a ∷ specials) hs =
    let named = hs.0 in
    (
      record {
        index = suc named.index;
        type = named.type;
        at = omega (arith, named.at);
        known = omega (arith, named.known);
        typed = named.typed;
        from_unknown = named.from_unknown;
        to_user_defined = named.to_user_defined;
        parse = named.parse;
      },
      IsNamed-later i token vocab type types specials hs.1,
    )

module _ (i : ℕ) (token : Bytes) (vocab : List Bytes) (types : List ℤ) where
  IsNamed-here :
      (t : ℤ)
      → is_special_type t ≡ true
      → IsNamed i
          (token ∷ vocab)
          (t ∷ types)
          (record { id = i; needs_parse = not (is_user_defined t) })
  IsNamed-here (pos t) h = record {
    index = zero;
    type = t;
    at = omega arith;
    known = omega arith;
    typed = refl;
    from_unknown = ground (arith, h);
    to_user_defined = ground (arith, h);
    parse = (λ e. ground (arith, e), λ e. ground (arith, e));
  }
  IsNamed-here (negsuc t) h = absurd (cc)

pub collect_specials-IsNamed :
    (i : ℕ) (vocab : List Bytes) (types : List ℤ)
    → All (IsNamed i vocab types) (collect_specials i vocab types)
unfolding collect_specials
collect_specials-IsNamed i [] types = tt
collect_specials-IsNamed i (token ∷ vocab) [] = tt
collect_specials-IsNamed i (token ∷ vocab) (t ∷ types) =
    let later =
      IsNamed-later i token vocab t types (collect_specials (i + 1) vocab types)
        (collect_specials-IsNamed (i + 1) vocab types) in
    elim (Bool-cases (is_special_type t)) [
      | inl e ↦ rw e (IsNamed-here i token vocab types t e, later)
      | inr e ↦ rw e later
    ]

ids-above :
    (i : ℕ) (vocab : List Bytes) (types : List ℤ) (specials : List SpecialToken)
    → All (IsNamed (i + 1) vocab types) specials
    → All (λ b. i ≢ b.id) specials
ids-above i vocab types [] h = tt
ids-above i vocab types (a ∷ specials) hs =
    (λ same. omega arith, ids-above i vocab types specials hs.1)

pub collect_specials-IsDistinct :
    (i : ℕ) (vocab : List Bytes) (types : List ℤ) → IsDistinct (collect_specials i vocab types)
unfolding collect_specials
collect_specials-IsDistinct i [] types = tt
collect_specials-IsDistinct i (token ∷ vocab) [] = tt
collect_specials-IsDistinct i (token ∷ vocab) (t ∷ types) =
    let later = collect_specials-IsDistinct (i + 1) vocab types in
    elim (Bool-cases (is_special_type t)) [
      | inl e ↦
          let above =
            ids-above i vocab types (collect_specials (i + 1) vocab types)
              (collect_specials-IsNamed (i + 1) vocab types) in
          rw e (above, later)
      | inr e ↦ rw e later
    ]

-- Every token whose type names it is there.
pub mem-collect_specials :
    (i : ℕ) (vocab : List Bytes) (types : List ℤ) (k type : ℕ)
    → k < length vocab
    → get_elem? types k ≡ some (pos type)
    → 2 ≤ type
    → type ≤ 4
    → Mem (record { id = i + k; needs_parse = not (type == 4) }) (collect_specials i vocab types)
unfolding collect_specials
mem-collect_specials i [] types k type h e two four = absurd (omega arith)
mem-collect_specials i (token ∷ vocab) [] k type h e two four = absurd (cc)
mem-collect_specials i (token ∷ vocab) (negsuc t ∷ types) zero type h e two four = absurd (cc)
mem-collect_specials i (token ∷ vocab) (pos t ∷ types) zero type h e two four =
    let same : t ≡ type = cc in
    let special : is_special_type (pos t) ≡ true = ground arith in
    let here : i + 0 ≡ i = omega arith in rw (here, special, same) mem-cons_self
mem-collect_specials i (token ∷ vocab) (t ∷ types) (suc k) type h e two four =
    let step : i + suc k ≡ i + 1 + k = omega arith in
    let later = mem-collect_specials (i + 1) vocab types k type (omega arith) e two four in
    rw step (elim (Bool-cases (is_special_type t)) [
      | inl s ↦ rw s (mem-cons_of_mem _ later)
      | inr s ↦ rw s later
    ])
