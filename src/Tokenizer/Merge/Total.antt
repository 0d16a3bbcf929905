-- ===== src/Tokenizer/Merge/Total.antt =====
-- A round of the merging loop keeps the links, the queue and the text, and gets on with its work.
use mathlib.Core.Path.{subst}
use pocket_llm.Prelude.{
  ℕ, suc, ◌+◌, ◌*◌, ◌≤◌, ◌≡◌, ◌≢◌, refl, ◌∙◌, true, false, List, [], ◌∷◌, Option, none, some, Bytes,
  length, arith, if◌then◌else◌, Bool-cases, inl, inr, All,
}
use pocket_llm.Tokenizer.Merge.{
  Symbol, Bigram, Merging, symbol_at, join, is_current, Ranks, push_bigram, merge_round, pop_best,
  worse,
}
use pocket_llm.Tokenizer.Merge.Links.{
  Link, Linked, IsLinked, Link-join, join-IsLinked, push_bigram-Linked,
}
use pocket_llm.Tokenizer.Merge.Joined.{texts, texts-join, full_count, full_count-join}

-- What a pop gives: nothing from an empty queue, or one of its entries and the others.
abbrev pub Popped : (Bigram → Type 0) → ℕ → Option (Bigram × List Bigram) → Type 0
Popped P size none = size ≡ 0
Popped P size (some (b, rest)) = P b × All P rest × (size ≡ length rest + 1)

pub pop_best-Popped :
    (P : Bigram → Type 0) (queue : List Bigram)
    → All P queue
    → Popped P (length queue) (pop_best queue)
unfolding pop_best
pop_best-Popped P [] h = refl
pop_best-Popped P (a ∷ queue) h = go (pop_best queue) (pop_best-Popped P queue h.1)
  where
    go :
        (o : Option (Bigram × List Bigram))
        → Popped P (length queue) o
        → Popped P (suc (length queue)) (elim o [
          | none ↦ some (a, [])
          | some (best, rest) ↦
              if worse a best then some (best, a ∷ rest) else some (a, best ∷ rest)
        ])
    go none k = (h.0, tt, omega arith)
    go (some (best, rest)) k =
        elim (worse a best)
          as (λ w.
            Popped P (suc (length queue))
              (if w then some (best, a ∷ rest) else some (a, best ∷ rest))) [
                | true ↦ (k.0, (h.0, k.1), omega (arith, k.2))
                | false ↦ (h.0, (k.0, k.1), omega (arith, k.2))
              ]

All-Link-join :
    (symbols : List Symbol) (l r : ℕ) (queue : List Bigram)
    → IsLinked symbols
    → Link symbols l r
    → (symbol_at symbols l).text ≢ []
    → All (Linked symbols) queue
    → All (Linked (join symbols l r)) queue
All-Link-join symbols l r [] v link full h = tt
All-Link-join symbols l r (b ∷ queue) v link full h = (
  Link-join symbols l r v link full b.left b.right h.0,
  All-Link-join symbols l r queue v link full h.1,
)

pub is_current-full :
    (symbols : List Symbol) (b : Bigram)
    → is_current symbols b ≡ true
    → ((symbol_at symbols b.left).text ≢ []) × ((symbol_at symbols b.right).text ≢ [])
unfolding is_current
is_current-full symbols b h = (λ e. ground arith, λ e. ground arith)

pub length-push_bigram :
    (ranks : Ranks) (symbols : List Symbol) (a b : Option ℕ) (queue : List Bigram)
    → length (push_bigram ranks symbols a b queue) ≤ length queue + 1
unfolding push_bigram
length-push_bigram ranks symbols none b queue = omega arith
length-push_bigram ranks symbols (some i) none queue = omega arith
length-push_bigram ranks symbols (some i) (some j) queue = ground arith

-- The links and the queue are sound, and the symbols spell `word`.
pub record IsMerging (word : Bytes) (m : Merging) : Type 0 where
  pub links : IsLinked m.symbols
  pub queued : All (Linked m.symbols) m.queue
  pub spelled : texts m.symbols ≡ word

-- What the loop still has to do: each merge empties a symbol and pushes two entries at most.
abbrev pub work : Merging → ℕ
work m = length m.queue + 2 * full_count m.symbols

pub nil_of_length : (queue : List Bigram) → length queue ≡ 0 → queue ≡ []
nil_of_length [] e = refl
nil_of_length (b ∷ queue) e = absurd (omega arith)

module _ (ranks : Ranks) (word : Bytes) where
  pub merge_round-IsMerging :
      (symbols : List Symbol) (b : Bigram) (queue : List Bigram)
      → IsLinked symbols
      → Linked symbols b
      → All (Linked symbols) queue
      → texts symbols ≡ word
      → IsMerging word (merge_round ranks symbols b queue)
        × (work (merge_round ranks symbols b queue) ≤ length queue + 2 * full_count symbols)
  unfolding merge_round
  merge_round-IsMerging symbols b queue v link h spelled =
      elim (Bool-cases (is_current symbols b)) [
        | inr stale ↦
            rw (stale, merge_round)
              (record { links = v; queued = h; spelled = spelled }, omega arith)
        | inl current ↦
            let (fl, fr) = is_current-full symbols b current in
            let v' = join-IsLinked symbols b.left b.right v link fl in
            let joined = join symbols b.left b.right in
            let left = symbol_at joined b.left in
            let first = push_bigram ranks joined left.prev (some b.left) queue in
            rw (current, merge_round)
              (
                record {
                  links = v';
                  queued =
                      push_bigram-Linked ranks joined (some b.left) left.next first
                        (λ i j e e'. subst (λ x. Link joined x j) (cc) (v'.next_link b.left j e'))
                        (push_bigram-Linked ranks joined left.prev (some b.left) queue
                          (λ i j e e'. subst (λ x. Link joined i x) (cc) (v'.prev_link b.left i e))
                          (All-Link-join symbols b.left b.right queue v link fl h));
                  spelled = texts-join symbols b.left b.right v link fl ∙ spelled;
                },
                omega (
                  arith,
                  full_count-join symbols b.left b.right v link fl fr,
                  length-push_bigram ranks joined (some b.left) left.next first,
                  length-push_bigram ranks joined left.prev (some b.left) queue,
                ),
              )
      ]
