-- ===== src/Tokenizer/Merge/Requeue.antt =====
-- A round of the merging loop keeps the queue ready: the pairs that a merge changes are pushed.
use mathlib.Core.Path.{subst}
use pocket_llm.Prelude.{
  ℕ, ◌<◌, ◌≡◌, ◌≢◌, ◌⊎◌, sym, false, List, [], ◌++◌, none, some, Bytes, arith, Option-cases,
  Bool-cases, inl, inr, ◌==◌, same_bytes_iff, dec_lt,
}
use pocket_llm.Tokenizer.Merge.{
  Symbol, Bigram, symbol_at, join, is_current, Ranks, rank_of, push_bigram, merge_round, pop_best,
}
use pocket_llm.Tokenizer.Merge.Links.{Linked, IsLinked, joined, empty-join}
use pocket_llm.Tokenizer.Merge.Total.{is_current-full}
use pocket_llm.Tokenizer.Merge.Ready.{
  Queued, QueuedAfter, pop_best-Queued, Queued-push_bigram, push_bigram-Queued, IsReady,
  next_of_Hollow,
}

-- A stale entry is for no pair that can be merged now.
stale-IsReady :
    (ranks : Ranks) (symbols : List Symbol) (queue : List Bigram) (b : Bigram) (rest : List Bigram)
    → IsReady ranks symbols queue
    → pop_best queue ≡ some (b, rest)
    → is_current symbols b ≡ false
    → IsReady ranks symbols rest
unfolding is_current
stale-IsReady ranks symbols queue b rest ready popped stale = record {
  next_full = ready.next_full;
  last_empty = ready.last_empty;
  queued = λ i j rank fi e r.
      let text = (symbol_at symbols i).text ++ (symbol_at symbols j).text in
      let after : QueuedAfter i j text (some (b, rest)) =
        rw popped at (pop_best-Queued i j text queue (ready.queued i j rank fi e r)) in
      elim after [
        | inr q ↦ q
        | inl (li, rj, t) ↦
            let fj = (ready.next_full i j fi e).0 in
            absurd (ground (arith, same_bytes_iff text b.text, fj))
      ];
}

module _ (ranks : Ranks) (symbols : List Symbol) (queue : List Bigram) (b : Bigram)
    (rest : List Bigram) (v : IsLinked symbols) (ready : IsReady ranks symbols queue)
    (popped : pop_best queue ≡ some (b, rest)) (link : Linked symbols b)
    (fl : (symbol_at symbols b.left).text ≢ []) (fr : (symbol_at symbols b.right).text ≢ []) where
  abbrev after_join : List Symbol
  after_join = join symbols b.left b.right

  at_left : (symbol_at symbols b.left).next ≡ some b.right
  at_left = next_of_Hollow ranks symbols queue b.left b.right v ready link fl fr

  at_right : (symbol_at symbols b.right).prev ≡ some b.left
  at_right = (ready.next_full b.left b.right fl at_left).1

  -- A symbol that is not empty after the merge was not empty before, and is not the right one.
  full_before :
      (i : ℕ)
      → (symbol_at after_join i).text ≢ []
      → ((symbol_at symbols i).text ≢ []) × (i ≢ b.right)
  full_before i f = (
    λ e. f (empty-join symbols b.left b.right v link fl i e),
    λ e. f (ground (arith, joined symbols b.left b.right v link fl i, link.0)),
  )

  full_after :
      (i : ℕ) → (symbol_at symbols i).text ≢ [] → i ≢ b.right → (symbol_at after_join i).text ≢ []
  full_after i f ne e = ground (arith, joined symbols b.left b.right v link fl i)

  next_full-join :
      (i j : ℕ)
      → (symbol_at after_join i).text ≢ []
      → (symbol_at after_join i).next ≡ some j
      → ((symbol_at after_join j).text ≢ []) × ((symbol_at after_join j).prev ≡ some i)
  next_full-join i j f e = elim (Bool-cases (i == b.left)) [
    | inl t ↦
        let e' : (symbol_at symbols b.right).next ≡ some j =
          ground (arith, joined symbols b.left b.right v link fl i) in
        let (fj, back) = ready.next_full b.right j fr e' in
        let past = (v.next_link b.right j e').0 in
        (
          full_after j fj (λ x. omega arith),
          ground (arith, joined symbols b.left b.right v link fl j),
        )
    | inr t ↦
        let (fi, ne) = full_before i f in
        let e' : (symbol_at symbols i).next ≡ some j =
          ground (arith, joined symbols b.left b.right v link fl i) in
        let (fj, back) = ready.next_full i j fi e' in
        let apart : j ≢ b.right =
          λ x. ground (arith, at_right, subst (λ y. (symbol_at symbols y).prev ≡ some i) x back) in
        (
          full_after j fj apart,
          prev_kept i j t ne back (Option-cases (symbol_at symbols b.right).next),
        )
  ]
    where
      prev_kept :
          (i j : ℕ)
          → (i == b.left) ≡ false
          → i ≢ b.right
          → (symbol_at symbols j).prev ≡ some i
          → ((symbol_at symbols b.right).next ≡ none)
            ⊎ ((m : ℕ) × ((symbol_at symbols b.right).next ≡ some m))
          → (symbol_at after_join j).prev ≡ some i
      prev_kept i j t ne back (inl n) = ground (arith, joined symbols b.left b.right v link fl j)
      prev_kept i j t ne back (inr (m, n)) = elim (Bool-cases (m == j)) [
        | inl s ↦
            let same : m ≡ j = ground arith in
            let back' : (symbol_at symbols j).prev ≡ some b.right =
              subst (λ y. (symbol_at symbols y).prev ≡ some b.right) same
                (ready.next_full b.right m fr n).1 in
            absurd (ne (ground arith))
        | inr s ↦ ground (arith, joined symbols b.left b.right v link fl j)
      ]

  last_empty-join :
      (i k : ℕ)
      → (symbol_at after_join i).text ≢ []
      → (symbol_at after_join i).next ≡ none
      → i < k
      → (symbol_at after_join k).text ≡ []
  last_empty-join i k f e h = elim (Bool-cases (i == b.left)) [
    | inl t ↦
        let here : i ≡ b.left = ground arith in
        let e' : (symbol_at symbols b.right).next ≡ none =
          ground (arith, joined symbols b.left b.right v link fl i) in
        elim (dec_lt k b.right) [
          | yes p ↦ empty-join symbols b.left b.right v link fl k (link.2 k (omega arith) p)
          | no p ↦ elim (dec_lt b.right k) [
            | yes q ↦
                empty-join symbols b.left b.right v link fl k (ready.last_empty b.right k fr e' q)
            | no q ↦
                let there : k ≡ b.right = omega arith in
                ground (arith, joined symbols b.left b.right v link fl k)
          ]
        ]
    | inr t ↦
        let (fi, ne) = full_before i f in
        let e' : (symbol_at symbols i).next ≡ none =
          ground (arith, joined symbols b.left b.right v link fl i) in
        empty-join symbols b.left b.right v link fl k (ready.last_empty i k fi e' h)
  ]

  abbrev requeued : List Bigram
  requeued =
      let left = symbol_at after_join b.left in
      push_bigram ranks after_join (some b.left) left.next
        (push_bigram ranks after_join left.prev (some b.left) rest)

  abbrev pair_text : ℕ → ℕ → Bytes
  pair_text i j = (symbol_at after_join i).text ++ (symbol_at after_join j).text

  -- The merged symbol and its next, and its previous and the merged symbol, are pushed.
  Queued-left :
      (j rank : ℕ)
      → (symbol_at after_join b.left).next ≡ some j
      → rank_of ranks after_join b.left j ≡ some rank
      → Queued b.left j (pair_text b.left j) requeued
  Queued-left j rank e r =
      let left = symbol_at after_join b.left in
      let queue' = push_bigram ranks after_join left.prev (some b.left) rest in
      subst
        (λ o.
          Queued b.left j (pair_text b.left j)
            (push_bigram ranks after_join (some b.left) o queue'))
        (sym e) (push_bigram-Queued ranks after_join queue' b.left j rank r)

  Queued-right :
      (i rank : ℕ)
      → (symbol_at after_join b.left).prev ≡ some i
      → rank_of ranks after_join i b.left ≡ some rank
      → Queued i b.left (pair_text i b.left) requeued
  Queued-right i rank e r =
      let left = symbol_at after_join b.left in
      Queued-push_bigram ranks after_join (some b.left) left.next _ i b.left (pair_text i b.left) (
        subst
          (λ o.
            Queued i b.left (pair_text i b.left)
              (push_bigram ranks after_join o (some b.left) rest))
          (sym e) (push_bigram-Queued ranks after_join rest i b.left rank r))

  -- Any other pair was queued before.
  Queued-other :
      (i j rank : ℕ)
      → (i == b.left) ≡ false
      → (j == b.left) ≡ false
      → (symbol_at after_join i).text ≢ []
      → (symbol_at after_join j).text ≢ []
      → (symbol_at after_join i).next ≡ some j
      → rank_of ranks after_join i j ≡ some rank
      → Queued i j (pair_text i j) requeued
  unfolding rank_of
  Queued-other i j rank ni nj f fj e r =
      let left = symbol_at after_join b.left in
      let same_i : (symbol_at after_join i).text ≡ (symbol_at symbols i).text =
        ground (arith, joined symbols b.left b.right v link fl i, (full_before i f).1) in
      let same_j : (symbol_at after_join j).text ≡ (symbol_at symbols j).text =
        ground (arith, joined symbols b.left b.right v link fl j, (full_before j fj).1) in
      let e' : (symbol_at symbols i).next ≡ some j =
        ground (arith, joined symbols b.left b.right v link fl i) in
      let text = (symbol_at symbols i).text ++ (symbol_at symbols j).text in
      let before = ready.queued i j rank (full_before i f).0 e' (rw (same_i, same_j) at r) in
      let after : QueuedAfter i j text (some (b, rest)) =
        rw popped at (pop_best-Queued i j text queue before) in
      elim after [
        | inl (li, rj, t) ↦ absurd (ground arith)
        | inr q ↦
            rw (same_i, same_j)
              (Queued-push_bigram ranks after_join (some b.left) left.next _ i j text
                (Queued-push_bigram ranks after_join left.prev (some b.left) rest i j text q))
      ]

  Queued-join :
      (i j rank : ℕ)
      → (symbol_at after_join i).text ≢ []
      → (symbol_at after_join i).next ≡ some j
      → rank_of ranks after_join i j ≡ some rank
      → Queued i j (pair_text i j) requeued
  Queued-join i j rank f e r = elim (Bool-cases (i == b.left)) [
    | inl t ↦
        let here : b.left ≡ i = ground arith in
        subst
          (λ x.
            (symbol_at after_join x).next ≡ some j
            → rank_of ranks after_join x j ≡ some rank
            → Queued x j (pair_text x j) requeued)
          here (Queued-left j rank) e r
    | inr t ↦ elim (Bool-cases (j == b.left)) [
      | inl s ↦
          let here : b.left ≡ j = ground arith in
          subst
            (λ x.
              (symbol_at after_join x).prev ≡ some i
              → rank_of ranks after_join i x ≡ some rank
              → Queued i x (pair_text i x) requeued)
            here (Queued-right i rank) (next_full-join i j f e).1 r
      | inr s ↦ Queued-other i j rank t s f (next_full-join i j f e).0 e r
    ]
  ]

  pub join-IsReady : IsReady ranks after_join requeued
  join-IsReady = record {
    next_full = next_full-join;
    last_empty = last_empty-join;
    queued = Queued-join;
  }

-- A round keeps the queue ready.
pub merge_round-IsReady :
    (ranks : Ranks) (symbols : List Symbol) (queue : List Bigram) (b : Bigram) (rest : List Bigram)
    → IsLinked symbols
    → IsReady ranks symbols queue
    → pop_best queue ≡ some (b, rest)
    → Linked symbols b
    → IsReady ranks
        (merge_round ranks symbols b rest).symbols
        (merge_round ranks symbols b rest).queue
unfolding merge_round
merge_round-IsReady ranks symbols queue b rest v ready popped link =
    elim (Bool-cases (is_current symbols b)) [
      | inl current ↦
          let (fl, fr) = is_current-full symbols b current in
          rw current (join-IsReady ranks symbols queue b rest v ready popped link fl fr)
      | inr stale ↦ rw stale (stale-IsReady ranks symbols queue b rest ready popped stale)
    ]
