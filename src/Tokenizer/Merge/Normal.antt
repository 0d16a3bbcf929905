-- ===== src/Tokenizer/Merge/Normal.antt =====
-- The merging loop ends with nothing left to merge.
use pocket_llm.Prelude.{
  ℕ, zero, suc, ◌-◌, ◌*◌, ◌≤◌, ◌≡◌, ◌≢◌, List, [], none, some, Bytes, IsByte, All, length, arith,
  Option-cases, inl, inr,
}
use pocket_llm.Prelude.Assoc.{bytes_eq, find}
use pocket_llm.Tokenizer.Merge.{
  Symbol, Merging, symbol_at, Ranks, rank_of, merge_round, merge_loop, pop_best, word_symbols,
  first_bigrams, merge_symbols, pair_key,
}
use pocket_llm.Tokenizer.Merge.Links.{Link, Linked, IsLinked}
use pocket_llm.Tokenizer.Merge.Joined.{texts}
use pocket_llm.Tokenizer.Merge.Total.{
  IsMerging, work, Popped, pop_best-Popped, merge_round-IsMerging, nil_of_length,
}
use pocket_llm.Tokenizer.Merge.Ready.{IsReady, next_of_Hollow}
use pocket_llm.Tokenizer.Merge.Requeue.{merge_round-IsReady}
use pocket_llm.Tokenizer.Merge.Start.{word_symbols-IsReady}
use pocket_llm.Tokenizer.Merge.Word.{word_symbols-IsMerging}

module _ (ranks : Ranks) (word : Bytes) where
  merge_loop-IsReady :
      (fuel : ℕ) (m : Merging)
      → IsMerging word m
      → IsReady ranks m.symbols m.queue
      → work m ≤ fuel
      → (final : List Symbol) × (merge_loop ranks fuel m ≡ some final)
        × IsLinked final
        × (texts final ≡ word)
        × IsReady ranks final []
  unfolding merge_loop
  merge_loop-IsReady zero m v ready h =
      let e : m.queue ≡ [] = nil_of_length m.queue (omega arith) in
      (m.symbols, rw (e, merge_loop), v.links, v.spelled, rw e at ready)
  merge_loop-IsReady (suc fuel) m v ready h = elim (Option-cases (pop_best m.queue)) [
    | inl n ↦
        let size : Popped (Linked m.symbols) (length m.queue) none =
          rw n at (pop_best-Popped (Linked m.symbols) m.queue v.queued) in
        let e : m.queue ≡ [] = nil_of_length m.queue size in
        (m.symbols, rw (n, merge_loop), v.links, v.spelled, rw e at ready)
    | inr ((b, queue), e) ↦
        let popped : Popped (Linked m.symbols) (length m.queue) (some (b, queue)) =
          rw e at (pop_best-Popped (Linked m.symbols) m.queue v.queued) in
        let (v', less) =
          merge_round-IsMerging ranks word m.symbols b queue v.links popped.0 popped.1 v.spelled in
        let ready' = merge_round-IsReady ranks m.symbols m.queue b queue v.links ready e popped.0 in
        let (final, e', links, spelled, done) =
          merge_loop-IsReady fuel (merge_round ranks m.symbols b queue) v' ready'
            (omega (arith, less, popped.2)) in
        (final, rw (e, merge_loop) e', links, spelled, done)
  ]

-- What `merge_word` leaves of a word: pieces that spell it, none of which can be merged with the
-- piece behind it.
pub record IsMerged (ranks : Ranks) (word : Bytes) (final : List Symbol) : Type 0 where
  pub spelled : texts final ≡ word
  pub normal :
      (i j : ℕ)
      → Link final i j
      → (symbol_at final i).text ≢ []
      → (symbol_at final j).text ≢ []
      → find (pair_key (symbol_at final i).text (symbol_at final j).text) ranks ≡ none

-- For every merge table and every word of bytes the loop ends within its fuel. The pieces that it
-- leaves spell the word, and no two pieces with only emptied symbols between them have a rank: all
-- the merges that the table allows have been made.
pub merge_symbols-IsMerged :
    (ranks : Ranks) (word : Bytes)
    → All IsByte word
    → (final : List Symbol) × (merge_symbols ranks word ≡ some final) × IsMerged ranks word final
unfolding merge_symbols rank_of
merge_symbols-IsMerged ranks word h =
    let symbols = word_symbols word in
    let queue = first_bigrams ranks symbols (length symbols - 1) 1 [] in
    let (v, few) = word_symbols-IsMerging ranks word h in
    let (final, e, links, spelled, done) =
      merge_loop-IsReady ranks word (3 * length symbols)
        (record { symbols = symbols; queue = queue }) v (word_symbols-IsReady ranks word h)
        (omega (arith, few)) in
    (
      final,
      e,
      record {
        spelled = spelled;
        normal = λ i j link fi fj. elim (Option-cases (rank_of ranks final i j)) [
          | inl n ↦ n
          | inr (rank, r) ↦
              absurd (
                done.queued i j rank fi (next_of_Hollow ranks final [] i j links done link fi fj) r)
        ];
      },
    )
