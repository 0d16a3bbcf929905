-- ===== src/Tokenizer/Merge/Links.antt =====
-- The links of the symbols: what a merge of two symbols changes, and that links and queued pairs
-- only ever skip emptied symbols.
use pocket_llm.Prelude.{
  ℕ, ◌<◌, ◌≡◌, ◌≢◌, refl, ◌∙◌, true, false, List, [], ◌++◌, Option, none, some, length, arith,
  Option-cases, Bool-cases, inl, inr, ◌⊎◌, All, update, length-update, get_or-update, if◌then◌else◌,
  ◌==◌,
}
use pocket_llm.Tokenizer.Merge.{Symbol, Bigram, blank, symbol_at, join, Ranks, rank_of, push_bigram}

-- Every symbol strictly between two indices has been emptied.
abbrev pub Hollow : List Symbol → ℕ → ℕ → Type 0
Hollow symbols a b = (k : ℕ) → a < k → k < b → (symbol_at symbols k).text ≡ []

abbrev pub Link : List Symbol → ℕ → ℕ → Type 0
Link symbols a b = (a < b) × (b < length symbols) × Hollow symbols a b

module _ (symbols : List Symbol) (l r : ℕ) where
  pub length-join : length (join symbols l r) ≡ length symbols
  unfolding join
  length-join = elim (Option-cases (symbol_at symbols r).next) [
    | inl e ↦ rw (e, join) (length-update _ r _ ∙ length-update symbols l _)
    | inr (m, e) ↦
        rw (e, join) (length-update _ m _ ∙ length-update _ r _ ∙ length-update symbols l _)
  ]

-- The symbols after a merge, one field at a time.
module _ (symbols : List Symbol) (l r : ℕ) (apart : l ≢ r) (hl : l < length symbols)
    (hr : r < length symbols)
    (hm : (m : ℕ) → (symbol_at symbols r).next ≡ some m → m < length symbols) where
  symbol_join :
      (k : ℕ)
      → ((symbol_at (join symbols l r) k).text ≡ (
          if k == l
          then (symbol_at symbols l).text ++ (symbol_at symbols r).text
          else if k == r
          then []
          else (symbol_at symbols k).text))
        × ((symbol_at (join symbols l r) k).next
            ≡ (if k == l then (symbol_at symbols r).next else (symbol_at symbols k).next))
        × ((symbol_at (join symbols l r) k).prev ≡ elim (symbol_at symbols r).next [
          | none ↦ (symbol_at symbols k).prev
          | some m ↦ if m == k then some l else (symbol_at symbols k).prev
        ])
  unfolding join
  symbol_join k =
      let s = symbol_at symbols r in
      let grown = update symbols l (λ t. record t { text = t.text ++ s.text; next = s.next }) in
      let cleared = update grown r (λ t. record t { text = [] }) in
      elim (Option-cases s.next) [
        | inl e ↦ ground (
          arith,
          length-update symbols l (λ t. record t { text = t.text ++ s.text; next = s.next }),
          get_or-update symbols l k (λ t. record t { text = t.text ++ s.text; next = s.next }) blank
              hl,
          get_or-update grown r k (λ t. record t { text = [] }) blank,
        )
        | inr (m, e) ↦ ground (
          arith,
          hm m e,
          length-update symbols l (λ t. record t { text = t.text ++ s.text; next = s.next }),
          length-update grown r (λ t. record t { text = [] }),
          get_or-update symbols l k (λ t. record t { text = t.text ++ s.text; next = s.next }) blank
              hl,
          get_or-update grown r k (λ t. record t { text = [] }) blank,
          get_or-update cleared m k (λ t. record t { prev = some l }) blank,
        )
      ]

pub record IsLinked (symbols : List Symbol) : Type 0 where
  pub prev_link : (i p : ℕ) → (symbol_at symbols i).prev ≡ some p → Link symbols p i
  pub next_link : (i j : ℕ) → (symbol_at symbols i).next ≡ some j → Link symbols i j

abbrev pub Linked : List Symbol → Bigram → Type 0
Linked symbols b = Link symbols b.left b.right

-- A merge of two linked symbols that are not empty.
module _ (symbols : List Symbol) (l r : ℕ) (v : IsLinked symbols) (link : Link symbols l r)
    (full : (symbol_at symbols l).text ≢ []) where
  pub joined :
      (k : ℕ)
      → ((symbol_at (join symbols l r) k).text ≡ (
          if k == l
          then (symbol_at symbols l).text ++ (symbol_at symbols r).text
          else if k == r
          then []
          else (symbol_at symbols k).text))
        × ((symbol_at (join symbols l r) k).next
            ≡ (if k == l then (symbol_at symbols r).next else (symbol_at symbols k).next))
        × ((symbol_at (join symbols l r) k).prev ≡ elim (symbol_at symbols r).next [
          | none ↦ (symbol_at symbols k).prev
          | some m ↦ if m == k then some l else (symbol_at symbols k).prev
        ])
  joined =
      symbol_join symbols l r (λ e. omega (arith, link.0)) (omega (arith, link.0, link.1)) link.1
        (λ m e. (v.next_link r m e).1)

  pub empty-join :
      (k : ℕ) → (symbol_at symbols k).text ≡ [] → (symbol_at (join symbols l r) k).text ≡ []
  empty-join k e = ground (arith, joined k)

  pub Link-join : (a b : ℕ) → Link symbols a b → Link (join symbols l r) a b
  Link-join a b h = (h.0, rw (length-join symbols l r) h.1, λ k p q. empty-join k (h.2 k p q))

  -- What the merged symbol skips.
  Link-after : (m : ℕ) → Link symbols r m → Link (join symbols l r) l m
  Link-after m h = (
    omega (arith, link.0, h.0),
    rw (length-join symbols l r) h.1,
    λ k p q. ground (arith, joined k, link.0, link.2 k p, h.2 k),
  )

  pub join-IsLinked : IsLinked (join symbols l r)
  join-IsLinked = record {
    next_link = λ i j e. next_case i j e (Bool-cases (i == l));
    prev_link = λ i p e. prev_case i p e (Option-cases (symbol_at symbols r).next);
  }
    where
      next_case :
          (i j : ℕ)
          → (symbol_at (join symbols l r) i).next ≡ some j
          → ((i == l) ≡ true) ⊎ ((i == l) ≡ false)
          → Link (join symbols l r) i j
      next_case i j e (inl t) =
          let here : i ≡ l = ground arith in
          rw here (Link-after j (v.next_link r j (ground (arith, joined i))))
      next_case i j e (inr t) = Link-join i j (v.next_link i j (ground (arith, joined i)))

      prev_case :
          (i p : ℕ)
          → (symbol_at (join symbols l r) i).prev ≡ some p
          → ((symbol_at symbols r).next ≡ none) ⊎ ((m : ℕ) × ((symbol_at symbols r).next ≡ some m))
          → Link (join symbols l r) p i
      prev_case i p e (inl n) = Link-join p i (v.prev_link i p (ground (arith, joined i)))
      prev_case i p e (inr (m, n)) = elim (Bool-cases (m == i)) [
        | inl t ↦
            let here : m ≡ i = ground arith in
            let source : l ≡ p = ground (arith, joined i) in
            rw (← source, ← here) (Link-after m (v.next_link r m n))
        | inr t ↦ Link-join p i (v.prev_link i p (ground (arith, joined i)))
      ]

-- An entry that `push_bigram` adds joins the indices that it was given.
pub push_bigram-Linked :
    (ranks : Ranks) (symbols : List Symbol) (a b : Option ℕ) (queue : List Bigram)
    → ((i j : ℕ) → a ≡ some i → b ≡ some j → Link symbols i j)
    → All (Linked symbols) queue
    → All (Linked symbols) (push_bigram ranks symbols a b queue)
unfolding push_bigram
push_bigram-Linked ranks symbols none b queue link h = h
push_bigram-Linked ranks symbols (some i) none queue link h = h
push_bigram-Linked ranks symbols (some i) (some j) queue link h =
    elim (Option-cases (rank_of ranks symbols i j)) [
      | inl e ↦ rw (e, push_bigram) h
      | inr (rank, e) ↦ rw (e, push_bigram) (link i j refl refl, h)
    ]
