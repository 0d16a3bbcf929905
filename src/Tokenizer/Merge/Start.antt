-- ===== src/Tokenizer/Merge/Start.antt =====
-- The symbols of a fresh word are a chain, and every pair of neighbours that has a rank is queued.
use mathlib.Core.Path.{subst}
use pocket_llm.Prelude.{
  ℕ, zero, suc, ◌+◌, ◌-◌, ◌≤◌, ◌<◌, ◌≡◌, ◌≢◌, ap, List, [], ◌∷◌, ◌++◌, none, some, Bytes, IsByte,
  All, length, take, drop, length-take, min, arith, if◌then◌else◌, ltb, dec_lt, get_or-out,
}
use pocket_llm.Tokenizer.Merge.{
  Symbol, Bigram, symbol_at, blank, Ranks, rank_of, push_symbol, symbols_loop, word_symbols,
  utf8_char_len, first_bigrams,
}
use pocket_llm.Tokenizer.Merge.Word.{
  symbol-push_symbol, length-push_symbol, utf8_char_len_bounds, All-drop,
}
use pocket_llm.Tokenizer.Merge.Ready.{Queued, push_bigram-Queued, Queued-push_bigram, IsReady}

-- Each symbol holds text and points to the one behind it, which points back.
record IsChain (symbols : List Symbol) : Type 0 where
  full : (i : ℕ) → i < length symbols → (symbol_at symbols i).text ≢ []
  next_is :
      (i : ℕ)
      → (symbol_at symbols i).next ≡ (if ltb (i + 1) (length symbols) then some (i + 1) else none)
  prev_is : (i : ℕ) → i + 1 < length symbols → (symbol_at symbols (i + 1)).prev ≡ some i

no_symbols : IsChain []
no_symbols = record {
  full = λ i h. absurd (omega arith);
  next_is = λ i. ground arith;
  prev_is = λ i h. absurd (omega arith);
}

push_symbol-IsChain :
    (text : Bytes) (symbols : List Symbol)
    → text ≢ []
    → IsChain symbols
    → IsChain (push_symbol text symbols)
push_symbol-IsChain text symbols h v = record {
  full = λ i p e.
      ground
        (arith, h, v.full i, symbol-push_symbol text symbols i, length-push_symbol text symbols);
  next_is = λ i.
      ground
        (arith, v.next_is i, symbol-push_symbol text symbols i, length-push_symbol text symbols);
  prev_is = λ i p. ground (
    arith,
    v.prev_is i,
    symbol-push_symbol text symbols (i + 1),
    length-push_symbol text symbols,
  );
}

take-ne-nil : (n b : ℕ) (rest : Bytes) → 1 ≤ n → take n (b ∷ rest) ≢ []
take-ne-nil n b rest h e = omega (arith, length-take n (b ∷ rest), ap length e)

symbols_loop-IsChain :
    (fuel : ℕ) (rest : Bytes) (symbols : List Symbol)
    → All IsByte rest
    → IsChain symbols
    → IsChain (symbols_loop fuel rest symbols)
unfolding symbols_loop
symbols_loop-IsChain zero rest symbols h v = v
symbols_loop-IsChain (suc fuel) [] symbols h v = v
symbols_loop-IsChain (suc fuel) (b ∷ rest) symbols h v =
    let len = min (utf8_char_len b) (length (b ∷ rest)) in
    symbols_loop-IsChain fuel (drop len (b ∷ rest)) (push_symbol (take len (b ∷ rest)) symbols)
      (All-drop IsByte len (b ∷ rest) h)
      (push_symbol-IsChain (take len (b ∷ rest)) symbols
        (take-ne-nil len b rest (omega (arith, utf8_char_len_bounds b h.0))) v)

first_bigrams-keeps :
    (ranks : Ranks) (symbols : List Symbol) (count i : ℕ) (queue : List Bigram) (a b : ℕ)
    (text : Bytes)
    → Queued a b text queue
    → Queued a b text (first_bigrams ranks symbols count i queue)
unfolding first_bigrams
first_bigrams-keeps ranks symbols zero i queue a b text h = h
first_bigrams-keeps ranks symbols (suc count) i queue a b text h =
    first_bigrams-keeps ranks symbols count (i + 1) _ a b text
      (Queued-push_bigram ranks symbols (some (i - 1)) (some i) queue a b text h)

first_bigrams-Queued :
    (ranks : Ranks) (symbols : List Symbol) (count i : ℕ) (queue : List Bigram) (a rank : ℕ)
    → 1 ≤ i
    → i ≤ a + 1
    → a + 1 < count + i
    → rank_of ranks symbols a (a + 1) ≡ some rank
    → Queued a
        (a + 1)
        ((symbol_at symbols a).text ++ (symbol_at symbols (a + 1)).text)
        (first_bigrams ranks symbols count i queue)
unfolding first_bigrams
first_bigrams-Queued ranks symbols zero i queue a rank hi lo up r = absurd (omega arith)
first_bigrams-Queued ranks symbols (suc count) i queue a rank hi lo up r = elim (dec_lt i (a + 1)) [
  | yes p ↦
      first_bigrams-Queued ranks symbols count (i + 1) _ a rank (omega arith) (omega arith)
        (omega arith) r
  | no p ↦
      let here : i ≡ a + 1 = omega arith in
      let before : i - 1 ≡ a = omega arith in
      first_bigrams-keeps ranks symbols count (i + 1) _ a (a + 1) _
        (rw (before, here) (push_bigram-Queued ranks symbols queue a (a + 1) rank r))
]

chain_next :
    (symbols : List Symbol) (i j : ℕ)
    → IsChain symbols
    → (symbol_at symbols i).next ≡ some j
    → (i + 1 ≡ j) × (i + 1 < length symbols)
chain_next symbols i j v e = ground (arith, v.next_is i)

chain-IsReady :
    (ranks : Ranks) (symbols : List Symbol)
    → IsChain symbols
    → IsReady ranks symbols (first_bigrams ranks symbols (length symbols - 1) 1 [])
chain-IsReady ranks symbols v = record {
  next_full = λ i j f e.
      let (here, inside) = chain_next symbols i j v e in
      subst (λ x. ((symbol_at symbols x).text ≢ []) × ((symbol_at symbols x).prev ≡ some i)) here
        (v.full (i + 1) inside, v.prev_is i inside);
  last_empty = λ i k f e p.
      let past : length symbols ≤ k = ground (arith, v.next_is i) in
      ap (λ s. Symbol.text s) (get_or-out symbols k blank past);
  queued = λ i j rank f e r.
      let (here, inside) = chain_next symbols i j v e in
      subst
        (λ x.
          rank_of ranks symbols i x ≡ some rank
          → Queued i x ((symbol_at symbols i).text ++ (symbol_at symbols x).text)
              (first_bigrams ranks symbols (length symbols - 1) 1 []))
        here
        (λ r'.
          first_bigrams-Queued ranks symbols (length symbols - 1) 1 [] i rank (omega arith)
            (omega arith) (omega (arith, inside)) r')
        r;
}

-- A fresh word is ready.
pub word_symbols-IsReady :
    (ranks : Ranks) (word : Bytes)
    → All IsByte word
    → IsReady ranks
        (word_symbols word)
        (first_bigrams ranks (word_symbols word) (length (word_symbols word) - 1) 1 [])
unfolding word_symbols
word_symbols-IsReady ranks word h =
    chain-IsReady ranks (word_symbols word)
      (symbols_loop-IsChain (length word) word [] h no_symbols)
