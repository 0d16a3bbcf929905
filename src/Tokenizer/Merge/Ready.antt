-- ===== src/Tokenizer/Merge/Ready.antt =====
-- Every pair of neighbours that has a rank is queued with its current text, so nothing can be merged
-- when the queue is empty.

use pocket_llm.Prelude.{
  ℕ, ◌<◌, ◌≡◌, ◌≢◌, ◌⊎◌, refl, ap, ◌∙◌, true, false, List, [], ◌∷◌, ◌++◌, Option, none, some, Bytes,
  length, arith, Option-cases, inl, inr, All, if◌then◌else◌, dec_lt,
}
use pocket_llm.Tokenizer.Merge.{
  Symbol, Bigram, symbol_at, Ranks, rank_of, push_bigram, pop_best, worse,
}
use pocket_llm.Tokenizer.Merge.Links.{Link, IsLinked}
use pocket_llm.Tokenizer.Merge.Total.{Popped, pop_best-Popped}

-- An entry for `i` and `j` that spells `text` is in the queue.
abbrev pub Spells : ℕ → ℕ → Bytes → Bigram → Type 0
Spells i j text b = (b.left ≡ i) × (b.right ≡ j) × (b.text ≡ text)

abbrev pub Queued : ℕ → ℕ → Bytes → List Bigram → Type 0
Queued i j text [] = ⊥
Queued i j text (b ∷ queue) = Spells i j text b ⊎ Queued i j text queue

abbrev pub QueuedAfter : ℕ → ℕ → Bytes → Option (Bigram × List Bigram) → Type 0
QueuedAfter i j text none = ⊥
QueuedAfter i j text (some (b, queue)) = Spells i j text b ⊎ Queued i j text queue

-- An entry is either the one that is popped, or stays.
pub pop_best-Queued :
    (i j : ℕ) (text : Bytes) (queue : List Bigram)
    → Queued i j text queue
    → QueuedAfter i j text (pop_best queue)
unfolding pop_best
pop_best-Queued i j text [] h = h
pop_best-Queued i j text (a ∷ queue) h =
    go (pop_best queue) (pop_best-Popped (λ b. Unit {0}) queue (trivial queue)) h
      (pop_best-Queued i j text queue)
  where
    trivial : (q : List Bigram) → All (λ b. Unit {0}) q
    trivial [] = tt
    trivial (b ∷ q) = (tt, trivial q)

    go :
        (o : Option (Bigram × List Bigram))
        → Popped (λ b. Unit {0}) (length queue) o
        → Spells i j text a ⊎ Queued i j text queue
        → (Queued i j text queue → QueuedAfter i j text o)
        → QueuedAfter i j text (elim o [
          | none ↦ some (a, [])
          | some (best, rest) ↦
              if worse a best then some (best, a ∷ rest) else some (a, best ∷ rest)
        ])
    go none k (inl s) f = inl s
    go none k (inr q) f = absurd (f q)
    go (some (best, rest)) k (inl s) f =
        elim (worse a best)
          as (λ w.
            QueuedAfter i j text (if w then some (best, a ∷ rest) else some (a, best ∷ rest))) [
              | true ↦ inr (inl s)
              | false ↦ inl s
            ]
    go (some (best, rest)) k (inr q) f =
        elim (worse a best)
          as (λ w.
            QueuedAfter i j text (if w then some (best, a ∷ rest) else some (a, best ∷ rest))) [
              | true ↦ elim (f q) [ inl s ↦ inl s | inr r ↦ inr (inr r) ]
              | false ↦ inr (f q)
            ]

pub Queued-push_bigram :
    (ranks : Ranks) (symbols : List Symbol) (a b : Option ℕ) (queue : List Bigram) (i j : ℕ)
    (text : Bytes)
    → Queued i j text queue
    → Queued i j text (push_bigram ranks symbols a b queue)
unfolding push_bigram
Queued-push_bigram ranks symbols none b queue i j text h = h
Queued-push_bigram ranks symbols (some p) none queue i j text h = h
Queued-push_bigram ranks symbols (some p) (some q) queue i j text h =
    elim (Option-cases (rank_of ranks symbols p q)) [
      | inl e ↦ rw (e, push_bigram) h
      | inr (rank, e) ↦ rw (e, push_bigram) (inr h)
    ]

-- A pair that has a rank is in the queue once it is pushed.
pub push_bigram-Queued :
    (ranks : Ranks) (symbols : List Symbol) (queue : List Bigram) (i j rank : ℕ)
    → rank_of ranks symbols i j ≡ some rank
    → Queued i j
        ((symbol_at symbols i).text ++ (symbol_at symbols j).text)
        (push_bigram ranks symbols (some i) (some j) queue)
unfolding push_bigram
push_bigram-Queued ranks symbols queue i j rank e = rw (e, push_bigram) (inl (refl, refl, refl))

pub record IsReady (ranks : Ranks) (symbols : List Symbol) (queue : List Bigram) : Type 0 where
  -- the next symbol of one that is not empty is not empty either, and points back
  pub next_full :
      (i j : ℕ)
      → (symbol_at symbols i).text ≢ []
      → (symbol_at symbols i).next ≡ some j
      → ((symbol_at symbols j).text ≢ []) × ((symbol_at symbols j).prev ≡ some i)
  -- behind the last symbol there is nothing left
  pub last_empty :
      (i k : ℕ)
      → (symbol_at symbols i).text ≢ []
      → (symbol_at symbols i).next ≡ none
      → i < k
      → (symbol_at symbols k).text ≡ []
  pub queued :
      (i j rank : ℕ)
      → (symbol_at symbols i).text ≢ []
      → (symbol_at symbols i).next ≡ some j
      → rank_of ranks symbols i j ≡ some rank
      → Queued i j ((symbol_at symbols i).text ++ (symbol_at symbols j).text) queue

-- Two symbols that are not empty, with nothing between them, are neighbours in the list.
pub next_of_Hollow :
    (ranks : Ranks) (symbols : List Symbol) (queue : List Bigram) (i j : ℕ)
    → IsLinked symbols
    → IsReady ranks symbols queue
    → Link symbols i j
    → (symbol_at symbols i).text ≢ []
    → (symbol_at symbols j).text ≢ []
    → (symbol_at symbols i).next ≡ some j
next_of_Hollow ranks symbols queue i j v ready link fi fj =
    elim (Option-cases (symbol_at symbols i).next) [
      | inl e ↦ absurd (fj (ready.last_empty i j fi e link.0))
      | inr (k, e) ↦
          let fk = (ready.next_full i k fi e).0 in
          let at = v.next_link i k e in
          elim (dec_lt j k) [
            | yes p ↦ absurd (fj (at.2 j link.0 p))
            | no p ↦ elim (dec_lt k j) [
              | yes q ↦ absurd (fk (link.2 k at.0 q))
              | no q ↦ let same : k ≡ j = omega arith in e ∙ ap some same
            ]
          ]
    ]
