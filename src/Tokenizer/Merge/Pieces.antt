-- ===== src/Tokenizer/Merge/Pieces.antt =====
-- What holds of every piece of `merge_word` (src/tokenizer/bpe.cpp) if it holds of its characters and
-- of the pieces that a merge puts together.
use mathlib.Core.Path.{subst}
use pocket_llm.Prelude.{
  ℕ, zero, suc, ◌-◌, ◌≡◌, List, [], ◌∷◌, ◌++◌, Option, none, some, Bytes, All, All-append, length,
  get_or, update, arith, Bool-cases, Option-cases, inl, inr, ltb,
}
use pocket_llm.Tokenizer.Merge.{
  Symbol, Bigram, blank, symbol_at, Ranks, Merging, join, is_current, merge_round, merge_loop,
  pop_best, push_symbol,
}

All-get_or {ℓ κ} :
    {A : Type ℓ} (P : A → Type κ) (xs : List A) (i : ℕ) (d : A) → All P xs → P d → P (get_or xs i d)
All-get_or P [] i d h k = k
All-get_or P (x ∷ xs) zero d h k = h.0
All-get_or P (x ∷ xs) (suc i) d h k = All-get_or P xs i d h.1 k

All-update {ℓ κ} :
    {A : Type ℓ} (P : A → Type κ) (xs : List A) (i : ℕ) (f : A → A)
    → ((x : A) → P x → P (f x))
    → All P xs
    → All P (update xs i f)
All-update P [] i f g h = tt
All-update P (x ∷ xs) zero f g h = (g x h.0, h.1)
All-update P (x ∷ xs) (suc i) f g h = (h.0, All-update P xs i f g h.1)

module _ {κ} (P : Bytes → Type κ) (empty : P [])
    (closed : (s t : Bytes) → P s → P t → P (s ++ t)) where
  abbrev Pieces : List Symbol → Type κ
  Pieces symbols = All (λ s. P s.text) symbols

  join-Pieces : (symbols : List Symbol) (l r : ℕ) → Pieces symbols → Pieces (join symbols l r)
  unfolding join
  join-Pieces symbols l r h =
      let s = symbol_at symbols r in
      let at : P s.text = All-get_or (λ s. P s.text) symbols r blank h empty in
      let grown =
        All-update (λ s. P s.text) symbols l
          (λ t. record t { text = t.text ++ s.text; next = s.next })
          (λ t p. closed t.text s.text p at) h in
      let cleared =
        All-update (λ s. P s.text) _ r (λ t. record t { text = [] }) (λ t p. empty) grown in
      elim (Option-cases s.next) [
        | inl e ↦ rw (e, join) cleared
        | inr (after, e) ↦ rw (e, join) (All-update (λ s. P s.text) _ after _ (λ t p. p) cleared)
      ]

  merge_round-Pieces :
      (ranks : Ranks) (symbols : List Symbol) (b : Bigram) (queue : List Bigram)
      → Pieces symbols
      → Pieces (merge_round ranks symbols b queue).symbols
  unfolding merge_round
  merge_round-Pieces ranks symbols b queue h = elim (Bool-cases (is_current symbols b)) [
    | inl c ↦ rw (c, merge_round) (join-Pieces symbols b.left b.right h)
    | inr c ↦ rw (c, merge_round) h
  ]

  pub merge_loop-Pieces :
      (ranks : Ranks) (fuel : ℕ) (m : Merging) (final : List Symbol)
      → Pieces m.symbols
      → merge_loop ranks fuel m ≡ some final
      → Pieces final
  unfolding merge_loop
  merge_loop-Pieces ranks zero m final h e =
      let same : m.symbols ≡ final = ground (arith, e) in subst Pieces same h
  merge_loop-Pieces ranks (suc fuel) m final h e = elim (Option-cases (pop_best m.queue)) [
    | inl n ↦ let same : m.symbols ≡ final = ground (arith, e, n) in subst Pieces same h
    | inr ((b, queue), p) ↦
        merge_loop-Pieces ranks fuel (merge_round ranks m.symbols b queue) final
          (merge_round-Pieces ranks m.symbols b queue h) (rw (p, merge_loop) at e)
  ]

  pub push_symbol-Pieces :
      (text : Bytes) (symbols : List Symbol)
      → P text
      → Pieces symbols
      → Pieces (push_symbol text symbols)
  unfolding push_symbol
  push_symbol-Pieces text symbols p h =
      let grown : (prev : Option ℕ)
          → Pieces (symbols ++ record { text = text; prev = prev; next = none } ∷ []) =
        λ prev. All-append (λ (s : Symbol). P s.text) symbols _ h (p, tt) in
      elim (Bool-cases (ltb 0 (length symbols))) [
        | inl b ↦
            rw (b, push_symbol)
              (All-update (λ s. P s.text) _ (length symbols - 1)
                (λ s. record s { next = some (length symbols) }) (λ s p. p) (grown _))
        | inr b ↦ rw (b, push_symbol) (grown _)
      ]
