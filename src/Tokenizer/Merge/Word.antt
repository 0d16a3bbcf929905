-- ===== src/Tokenizer/Merge/Word.antt =====
-- The symbols that a word begins with, and `merge_word` as a whole.
use mathlib.Core.Path.{subst}
use pocket_llm.Prelude.{
  ℕ, zero, suc, ◌+◌, ◌-◌, ◌*◌, ◌≤◌, ◌≡◌, refl, ap, ◌∙◌, sym, true, false, List, [], ◌∷◌, ◌++◌,
  Option, none, some, Bytes, IsByte, length, length-append, length-drop, take, drop,
  take-append-drop, arith, append_assoc, append-nil, get_or, get_or-append, get_or-update,
  length-update, update, if◌then◌else◌, ◌==◌, ltb, Bool-cases, inl, inr, ◌⊎◌, All, min, holds_below,
  holds_below→all, leb, ◌&&◌,
}
use pocket_llm.Tokenizer.Merge.{
  Symbol, Bigram, blank, symbol_at, Ranks, push_bigram, utf8_char_len, push_symbol, symbols_loop,
  word_symbols, first_bigrams,
}
use pocket_llm.Tokenizer.Merge.Links.{Link, Linked, IsLinked, push_bigram-Linked}
use pocket_llm.Tokenizer.Merge.Joined.{texts, full_count-le-length}
use pocket_llm.Tokenizer.Merge.Total.{IsMerging, work, length-push_bigram}

char_len_table : holds_below 256 (λ b. leb 1 (utf8_char_len b) && leb (utf8_char_len b) 4) ≡ true
unfolding holds_below utf8_char_len
char_len_table = refl

pub utf8_char_len_bounds : (b : ℕ) → IsByte b → (1 ≤ utf8_char_len b) × (utf8_char_len b ≤ 4)
utf8_char_len_bounds b h =
    let t =
      holds_below→all 256 (λ b. leb 1 (utf8_char_len b) && leb (utf8_char_len b) 4) char_len_table b
        h in
    (ground arith, ground arith)

texts-append : (xs ys : List Symbol) → texts (xs ++ ys) ≡ texts xs ++ texts ys
texts-append [] ys = refl
texts-append (x ∷ xs) ys = rw (texts-append xs ys, append_assoc)

texts-update :
    (xs : List Symbol) (i : ℕ) (f : Symbol → Symbol)
    → ((s : Symbol) → (f s).text ≡ s.text)
    → texts (update xs i f) ≡ texts xs
texts-update [] i f h = refl
texts-update (x ∷ xs) zero f h = rw (h x)
texts-update (x ∷ xs) (suc i) f h = rw (texts-update xs i f h)

texts-push_symbol :
    (text : Bytes) (symbols : List Symbol)
    → texts (push_symbol text symbols) ≡ texts symbols ++ text
unfolding push_symbol
texts-push_symbol text symbols =
    let size = length symbols in
    let prev : Option ℕ = if ltb 0 size then some (size - 1) else none in
    let entry : Symbol = record { text = text; prev = prev; next = none } in
    ground (
      arith,
      texts-update (symbols ++ entry ∷ []) (size - 1) (λ s. record s { next = some size })
          (λ s. refl),
      texts-append symbols (entry ∷ []),
      append-nil text,
    )

pub length-push_symbol :
    (text : Bytes) (symbols : List Symbol) → length (push_symbol text symbols) ≡ length symbols + 1
unfolding push_symbol
length-push_symbol text symbols =
    let size = length symbols in
    let prev : Option ℕ = if ltb 0 size then some (size - 1) else none in
    let entry : Symbol = record { text = text; prev = prev; next = none } in
    ground (
      arith,
      length-update (symbols ++ entry ∷ []) (size - 1) (λ s. record s { next = some size }),
      length-append symbols (entry ∷ []),
    )

get_or_one : (s : Symbol) (j : ℕ) → get_or (s ∷ []) j blank ≡ (if j == 0 then s else blank)
get_or_one s zero = refl
get_or_one s (suc j) = ground arith

pub All-drop : (P : ℕ → Type 0) (n : ℕ) (xs : List ℕ) → All P xs → All P (drop n xs)
All-drop P zero xs h = h
All-drop P (suc n) [] h = h
All-drop P (suc n) (x ∷ xs) h = All-drop P n xs h.1

-- The symbol at an index after a push.
pub symbol-push_symbol :
    (text : Bytes) (symbols : List Symbol) (k : ℕ)
    → ((symbol_at (push_symbol text symbols) k).text ≡ (
        if ltb k (length symbols)
        then (symbol_at symbols k).text
        else if k == length symbols
        then text
        else []))
      × ((symbol_at (push_symbol text symbols) k).prev ≡ (
          if ltb k (length symbols)
          then (symbol_at symbols k).prev
          else if k == length symbols && ltb 0 (length symbols)
          then some (length symbols - 1)
          else none))
      × ((symbol_at (push_symbol text symbols) k).next ≡ (
          if ltb (k + 1) (length symbols)
          then (symbol_at symbols k).next
          else if k + 1 == length symbols
          then some (length symbols)
          else none))
unfolding push_symbol
symbol-push_symbol text symbols k =
    let size = length symbols in
    let prev : Option ℕ = if ltb 0 size then some (size - 1) else none in
    let entry : Symbol = record { text = text; prev = prev; next = none } in
    ground (
      arith,
      length-append symbols (entry ∷ []),
      get_or-append symbols (entry ∷ []) k blank,
      get_or_one entry (k - size),
      get_or-update (symbols ++ entry ∷ []) (size - 1) k (λ s. record s { next = some size }) blank,
    )

-- Texts never change under a push, so a link stays one.
Link-push_symbol :
    (text : Bytes) (symbols : List Symbol) (a b : ℕ)
    → Link symbols a b
    → Link (push_symbol text symbols) a b
Link-push_symbol text symbols a b h = (
  h.0,
  omega (arith, h.1, length-push_symbol text symbols),
  λ k p q. ground (arith, symbol-push_symbol text symbols k, h.1, h.2 k),
)

Link-last :
    (text : Bytes) (symbols : List Symbol) (k : ℕ)
    → k + 1 ≡ length symbols
    → Link (push_symbol text symbols) k (length symbols)
Link-last text symbols k h =
    (omega arith, omega (arith, length-push_symbol text symbols), λ j p q. absurd (omega arith))

push_symbol-IsLinked :
    (text : Bytes) (symbols : List Symbol) → IsLinked symbols → IsLinked (push_symbol text symbols)
push_symbol-IsLinked text symbols v = record {
  prev_link = λ i p e. prev_case i p e (Bool-cases (ltb i (length symbols)));
  next_link = λ i j e. next_case i j e (Bool-cases (ltb (i + 1) (length symbols)));
}
  where
    prev_case :
        (i p : ℕ)
        → (symbol_at (push_symbol text symbols) i).prev ≡ some p
        → (ltb i (length symbols) ≡ true) ⊎ (ltb i (length symbols) ≡ false)
        → Link (push_symbol text symbols) p i
    prev_case i p e (inl t) =
        Link-push_symbol text symbols p i
          (v.prev_link i p (ground (arith, symbol-push_symbol text symbols i)))
    prev_case i p e (inr t) =
        let here : i ≡ length symbols = ground (arith, symbol-push_symbol text symbols i) in
        let before : p + 1 ≡ length symbols = ground (arith, symbol-push_symbol text symbols i) in
        rw here (Link-last text symbols p before)

    next_case :
        (i j : ℕ)
        → (symbol_at (push_symbol text symbols) i).next ≡ some j
        → (ltb (i + 1) (length symbols) ≡ true) ⊎ (ltb (i + 1) (length symbols) ≡ false)
        → Link (push_symbol text symbols) i j
    next_case i j e (inl t) =
        Link-push_symbol text symbols i j
          (v.next_link i j (ground (arith, symbol-push_symbol text symbols i)))
    next_case i j e (inr t) =
        let last : j ≡ length symbols = ground (arith, symbol-push_symbol text symbols i) in
        rw last (Link-last text symbols i (ground (arith, symbol-push_symbol text symbols i)))

symbols_loop_lem :
    (fuel : ℕ) (rest : Bytes) (symbols : List Symbol)
    → All IsByte rest
    → length rest ≤ fuel
    → IsLinked symbols
    → IsLinked (symbols_loop fuel rest symbols)
      × (texts (symbols_loop fuel rest symbols) ≡ texts symbols ++ rest)
unfolding symbols_loop
symbols_loop_lem zero [] symbols h enough v = (v, sym (append-nil _))
symbols_loop_lem zero (b ∷ rest) symbols h enough v = absurd (omega arith)
symbols_loop_lem (suc fuel) [] symbols h enough v = (v, sym (append-nil _))
symbols_loop_lem (suc fuel) (b ∷ rest) symbols h enough v =
    let len = min (utf8_char_len b) (length (b ∷ rest)) in
    let (v', t) =
      symbols_loop_lem fuel (drop len (b ∷ rest)) (push_symbol (take len (b ∷ rest)) symbols)
        (All-drop IsByte len (b ∷ rest) h)
        (omega (arith, length-drop len (b ∷ rest), utf8_char_len_bounds b h.0))
        (push_symbol-IsLinked (take len (b ∷ rest)) symbols v) in
    (
      v',
      t
          ∙ ap (λ x. x ++ drop len (b ∷ rest)) (texts-push_symbol (take len (b ∷ rest)) symbols)
          ∙ append_assoc (texts symbols) (take len (b ∷ rest)) (drop len (b ∷ rest))
          ∙ ap (λ x. texts symbols ++ x) (take-append-drop len (b ∷ rest)),
    )

no_symbols : IsLinked []
no_symbols = record { prev_link = λ i p e. cc; next_link = λ i j e. cc }

-- The characters of the word spell it, and are linked one to the next.
word_symbols_lem :
    (word : Bytes)
    → All IsByte word
    → IsLinked (word_symbols word) × (texts (word_symbols word) ≡ word)
unfolding word_symbols
word_symbols_lem word h = symbols_loop_lem (length word) word [] h (omega arith) no_symbols

first_bigrams-Linked :
    (ranks : Ranks) (symbols : List Symbol) (count i : ℕ) (queue : List Bigram)
    → 1 ≤ i
    → (1 ≤ count → count + i ≤ length symbols)
    → All (Linked symbols) queue
    → All (Linked symbols) (first_bigrams ranks symbols count i queue)
      × (length (first_bigrams ranks symbols count i queue) ≤ length queue + count)
unfolding first_bigrams
first_bigrams-Linked ranks symbols zero i queue hi h q = (q, omega arith)
first_bigrams-Linked ranks symbols (suc count) i queue hi h q =
    let pushed = push_bigram ranks symbols (some (i - 1)) (some i) queue in
    let fits : suc count + i ≤ length symbols = h (omega arith) in
    let link : Link symbols (i - 1) i = (omega arith, omega arith, λ k a b. absurd (omega arith)) in
    let (q', less) =
      first_bigrams-Linked ranks symbols count (i + 1) pushed (omega arith)
        (λ c. omega (arith, fits))
        (push_bigram-Linked ranks symbols (some (i - 1)) (some i) queue
          (λ a b e e'.
            subst (λ x. Link symbols x b) (cc) (subst (λ x. Link symbols (i - 1) x) (cc) link))
          q) in
    (q', omega (arith, less, length-push_bigram ranks symbols (some (i - 1)) (some i) queue))

-- A fresh word, with the fuel that its loop needs.
pub word_symbols-IsMerging :
    (ranks : Ranks) (word : Bytes)
    → All IsByte word
    → IsMerging word (record {
      symbols = word_symbols word;
      queue = first_bigrams ranks (word_symbols word) (length (word_symbols word) - 1) 1 [];
    })
      × (work (record {
        symbols = word_symbols word;
        queue = first_bigrams ranks (word_symbols word) (length (word_symbols word) - 1) 1 [];
      })
          ≤ 3 * length (word_symbols word))
word_symbols-IsMerging ranks word h =
    let (v, spelled) = word_symbols_lem word h in
    let symbols = word_symbols word in
    let (queued, few) =
      first_bigrams-Linked ranks symbols (length symbols - 1) 1 [] (omega arith) (λ c. omega arith)
        tt in
    (
      record { links = v; queued = queued; spelled = spelled },
      omega (arith, few, full_count-le-length symbols),
    )
