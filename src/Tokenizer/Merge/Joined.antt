-- ===== src/Tokenizer/Merge/Joined.antt =====
-- The text that the symbols spell, and how many of them are not empty.
use pocket_llm.Prelude.{
  ℕ, zero, suc, ◌+◌, ◌≤◌, ◌<◌, ◌≡◌, ◌≢◌, refl, ap, ◌∙◌, sym, List, [], ◌∷◌, ◌++◌, some, Bytes,
  length, arith, append_assoc, update, if◌then◌else◌, ◌==◌, Option-cases, inl, inr, length-update,
  get_or-update,
}
use pocket_llm.Tokenizer.Merge.{Symbol, blank, symbol_at, join, is_empty}
use pocket_llm.Tokenizer.Merge.Links.{Link, IsLinked, joined, length-join}

abbrev pub texts : List Symbol → Bytes
texts [] = []
texts (s ∷ symbols) = s.text ++ texts symbols

texts-same :
    (xs ys : List Symbol)
    → length ys ≡ length xs
    → ((k : ℕ) → (symbol_at ys k).text ≡ (symbol_at xs k).text)
    → texts ys ≡ texts xs
texts-same [] [] e h = refl
texts-same [] (y ∷ ys) e h = absurd (omega arith)
texts-same (x ∷ xs) [] e h = absurd (omega arith)
texts-same (x ∷ xs) (y ∷ ys) e h = rw (h 0, texts-same xs ys (omega arith) (λ k. h (suc k)))

-- The text of `r` moves to the front where all before it is empty.
texts-pull :
    (xs ys : List Symbol) (r : ℕ)
    → length ys ≡ length xs
    → ((k : ℕ) → (symbol_at ys k).text ≡ (if k == r then [] else (symbol_at xs k).text))
    → r < length xs
    → ((k : ℕ) → k < r → (symbol_at xs k).text ≡ [])
    → texts xs ≡ (symbol_at xs r).text ++ texts ys
texts-pull [] ys r e h hr before = absurd (omega arith)
texts-pull (x ∷ xs) [] r e h hr before = absurd (omega arith)
texts-pull (x ∷ xs) (y ∷ ys) zero e h hr before =
    rw (h 0, texts-same xs ys (omega arith) (λ k. h (suc k) ∙ ground arith))
texts-pull (x ∷ xs) (y ∷ ys) (suc r) e h hr before =
    let head : y.text ≡ [] = ground (arith, h 0, before 0) in
    rw (before 0 (omega arith), head)
      (texts-pull xs ys r (omega arith) (λ k. h (suc k) ∙ ground arith) (omega arith)
        (λ k p. before (suc k) (omega arith)))

texts-moved :
    (xs ys : List Symbol) (l r : ℕ)
    → length ys ≡ length xs
    → ((k : ℕ)
        → (symbol_at ys k).text ≡ (
            if k == l
            then (symbol_at xs l).text ++ (symbol_at xs r).text
            else if k == r
            then []
            else (symbol_at xs k).text))
    → Link xs l r
    → texts ys ≡ texts xs
texts-moved [] ys l r e h link = absurd (omega (arith, link.1))
texts-moved (x ∷ xs) [] l r e h link = absurd (omega arith)
texts-moved (x ∷ xs) (y ∷ ys) zero zero e h link = absurd (omega (arith, link.0))
texts-moved (x ∷ xs) (y ∷ ys) (suc l) zero e h link = absurd (omega (arith, link.0))
texts-moved (x ∷ xs) (y ∷ ys) zero (suc r) e h link = rw (h 0) (
    append_assoc x.text (symbol_at xs r).text (texts ys)
    ∙ ap (λ t. x.text ++ t)
        (sym (
          texts-pull xs ys r (omega arith) (λ k. h (suc k) ∙ ground arith) (omega (arith, link.1))
            (λ k p. link.2 (suc k) (omega arith) (omega arith)))))
texts-moved (x ∷ xs) (y ∷ ys) (suc l) (suc r) e h link =
    let tail : texts ys ≡ texts xs =
      texts-moved xs ys l r (omega arith) (λ k. h (suc k) ∙ ground arith)
        (
          omega (arith, link.0),
          omega (arith, link.1),
          λ k p q. link.2 (suc k) (omega arith) (omega arith),
        ) in
    let head : y.text ≡ x.text = ground (arith, h 0) in rw (head, tail)

-- A merge keeps the text that the symbols spell in order.
pub texts-join :
    (symbols : List Symbol) (l r : ℕ)
    → IsLinked symbols
    → Link symbols l r
    → (symbol_at symbols l).text ≢ []
    → texts (join symbols l r) ≡ texts symbols
texts-join symbols l r v link full =
    texts-moved symbols (join symbols l r) l r (length-join symbols l r)
      (λ k. (joined symbols l r v link full k).0) link

abbrev pub weight : Bytes → ℕ
weight text = if is_empty text then 0 else 1

abbrev pub full_count : List Symbol → ℕ
full_count [] = 0
full_count (s ∷ symbols) = weight s.text + full_count symbols

pub full_count-le-length : (symbols : List Symbol) → full_count symbols ≤ length symbols
full_count-le-length [] = omega arith
full_count-le-length (s ∷ symbols) = ground (arith, full_count-le-length symbols)

full_count-update :
    (xs : List Symbol) (i : ℕ) (f : Symbol → Symbol)
    → i < length xs
    → full_count (update xs i f) + weight (symbol_at xs i).text
      ≡ full_count xs + weight (f (symbol_at xs i)).text
full_count-update [] i f h = absurd (omega arith)
full_count-update (x ∷ xs) zero f h = omega arith
full_count-update (x ∷ xs) (suc i) f h = omega (arith, full_count-update xs i f (omega arith))

weight_full : (x y : Bytes) → x ≢ [] → (weight x ≡ 1) × (weight (x ++ y) ≡ 1)
weight_full [] y h = absurd (h refl)
weight_full (b ∷ x) y h = (refl, refl)

-- A merge empties one symbol.
pub full_count-join :
    (symbols : List Symbol) (l r : ℕ)
    → IsLinked symbols
    → Link symbols l r
    → (symbol_at symbols l).text ≢ []
    → (symbol_at symbols r).text ≢ []
    → full_count (join symbols l r) + 1 ≡ full_count symbols
unfolding join
full_count-join symbols l r v link fl fr =
    let s = symbol_at symbols r in
    let grow : Symbol → Symbol = λ t. record t { text = t.text ++ s.text; next = s.next } in
    let clear : Symbol → Symbol = λ t. record t { text = [] } in
    let grown = update symbols l grow in
    let at_r : symbol_at grown r ≡ s =
      get_or-update symbols l r grow blank (omega (arith, link.0, link.1))
      ∙ ground (arith, link.0) in
    let cleared : full_count (update grown r clear) + 1 ≡ full_count symbols = omega (
      arith,
      link.0,
      link.1,
      length-update symbols l grow,
      full_count-update symbols l grow (omega (arith, link.0, link.1)),
      full_count-update grown r clear (omega (arith, link.1, length-update symbols l grow)),
      ap (λ t. weight (Symbol.text t)) at_r,
      weight_full (symbol_at symbols l).text s.text fl,
      weight_full s.text [] fr,
    ) in
    elim (Option-cases s.next) [
      | inl e ↦ rw (e, join) cleared
      | inr (m, e) ↦
          rw (e, join)
            (omega (
              arith,
              cleared,
              full_count-update (update grown r clear) m (λ t. record t { prev = some l })
                  (omega (
                    arith,
                    (v.next_link r m e).1,
                    length-update grown r clear,
                    length-update symbols l grow,
                  )),
            ))
    ]
