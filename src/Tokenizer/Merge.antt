-- ===== src/Tokenizer/Merge.antt =====
-- `merge_word` of src/tokenizer/bpe.cpp: BPE over one word, on a linked list inside a vector and a
-- queue whose entries go stale. An index of -1 is `none`.
pub mod Links
pub mod Joined
pub mod Total
pub mod Word
pub mod Ready
pub mod Requeue
pub mod Start
pub mod Normal
pub mod Pieces
pub mod Mapped
use pocket_llm.Prelude.{
  ℕ, zero, suc, ◌+◌, ◌-◌, ◌*◌, ◌/◌, Bool, true, false, ◌&&◌, ◌||◌, List, [], ◌∷◌, ◌++◌, Option,
  none, some, Bytes, ltb, ◌==◌, if◌then◌else◌, length, take, drop, get_or, update, min, same_bytes,
}
use mathlib.Core.Option
use pocket_llm.Prelude.Assoc.{bytes_eq, find}

pub record Symbol : Type 0 where
  pub text : Bytes
  pub prev : Option ℕ
  pub next : Option ℕ

pub record Bigram : Type 0 where
  pub left : ℕ
  pub right : ℕ
  pub text : Bytes
  pub rank : ℕ

-- `Bigram::Worse`
abbrev pub worse : Bigram → Bigram → Bool
worse a b = ltb b.rank a.rank || a.rank == b.rank && ltb b.left a.left

-- `top` and `pop` of the priority queue. Entries that tie have one left index and one pair of
-- texts, so at most one of them can still be current, and their order does not matter.
unfoldable pub pop_best : List Bigram → Option (Bigram × List Bigram)
pop_best [] = none
pop_best (b ∷ queue) = elim (pop_best queue) [
  | none ↦ some (b, [])
  | some (best, rest) ↦ if worse b best then some (best, b ∷ rest) else some (b, best ∷ rest)
]

abbrev char_lengths : List ℕ
char_lengths = 1 ∷ 1 ∷ 1 ∷ 1 ∷ 1 ∷ 1 ∷ 1 ∷ 1 ∷ 1 ∷ 1 ∷ 1 ∷ 1 ∷ 2 ∷ 2 ∷ 3 ∷ 4 ∷ []

-- `utf8_char_len`, at the first byte of what is left of the word.
unfoldable pub utf8_char_len : ℕ → ℕ
utf8_char_len b = get_or char_lengths (b / 16) 0

abbrev pub blank : Symbol
blank = record { text = []; prev = none; next = none }

-- `symbols.push_back(...)` and the link from the symbol before.
unfoldable pub push_symbol : Bytes → List Symbol → List Symbol
push_symbol text symbols =
    let size = length symbols in
    let prev : Option ℕ = if ltb 0 size then some (size - 1) else none in
    let grown = symbols ++ record { text = text; prev = prev; next = none } ∷ [] in
    if ltb 0 size then update grown (size - 1) (λ s. record s { next = some size }) else grown

-- The loop that cuts the word into characters. `rest` is the word from `offset` on, and each round
-- takes a byte at least.
unfoldable pub symbols_loop : ℕ → Bytes → List Symbol → List Symbol
symbols_loop zero rest symbols = symbols
symbols_loop (suc fuel) [] symbols = symbols
symbols_loop (suc fuel) (b ∷ rest) symbols =
    let len = min (utf8_char_len b) (length (b ∷ rest)) in
    symbols_loop fuel (drop len (b ∷ rest)) (push_symbol (take len (b ∷ rest)) symbols)

unfoldable pub word_symbols : Bytes → List Symbol
word_symbols word = symbols_loop (length word) word []

abbrev pub symbol_at : List Symbol → ℕ → Symbol
symbol_at symbols i = get_or symbols i blank

abbrev pub Ranks : Type 0
Ranks = List (Bytes × ℕ)

-- The key of a pair of texts in `merge_rank_`.
abbrev pub pair_key : Bytes → Bytes → Bytes
pair_key left right = left ++ 1 ∷ right

-- The two variables that the merging loop changes.
pub record Merging : Type 0 where
  pub symbols : List Symbol
  pub queue : List Bigram

-- What a merge of `left` and `right` does to the symbols.
unfoldable pub join : List Symbol → ℕ → ℕ → List Symbol
join symbols left right =
    let r = symbol_at symbols right in
    let grown = update symbols left (λ s. record s { text = s.text ++ r.text; next = r.next }) in
    let cleared = update grown right (λ s. record s { text = [] }) in
    elim r.next [
      | none ↦ cleared
      | some after ↦ update cleared after (λ s. record s { prev = some left })
    ]

abbrev pub is_empty : Bytes → Bool
is_empty [] = true
is_empty (b ∷ text) = false

-- Whether a popped entry still spells its two symbols.
unfoldable pub is_current : List Symbol → Bigram → Bool
is_current symbols b =
    let left = (symbol_at symbols b.left).text in
    let right = (symbol_at symbols b.right).text in
    if is_empty left || is_empty right then false else same_bytes (left ++ right) b.text

module _ (ranks : Ranks) where
  -- `rank_of` at two indices.
  unfoldable pub rank_of : List Symbol → ℕ → ℕ → Option ℕ
  rank_of symbols left right =
      find (pair_key (symbol_at symbols left).text (symbol_at symbols right).text) ranks

  unfoldable pub push_bigram : List Symbol → Option ℕ → Option ℕ → List Bigram → List Bigram
  push_bigram symbols none right queue = queue
  push_bigram symbols (some left) none queue = queue
  push_bigram symbols (some left) (some right) queue = elim (rank_of symbols left right) [
    | none ↦ queue
    | some rank ↦
        record {
          left = left;
          right = right;
          text = (symbol_at symbols left).text ++ (symbol_at symbols right).text;
          rank = rank;
        }
        ∷ queue
  ]

  -- `for (i = 1; i < symbols.size(); ++i) push_bigram(i - 1, i)`, with `count` rounds left.
  unfoldable pub first_bigrams : List Symbol → ℕ → ℕ → List Bigram → List Bigram
  first_bigrams symbols zero i queue = queue
  first_bigrams symbols (suc count) i queue =
      first_bigrams symbols count (i + 1) (push_bigram symbols (some (i - 1)) (some i) queue)

  -- One round of `while (!queue.empty())`, on the popped entry and the queue that is left.
  unfoldable pub merge_round : List Symbol → Bigram → List Bigram → Merging
  merge_round symbols b queue =
      let joined = join symbols b.left b.right in
      let left = symbol_at joined b.left in
      if is_current symbols b
      then record {
        symbols = joined;
        queue =
            push_bigram joined (some b.left) left.next
              (push_bigram joined left.prev (some b.left) queue);
      }
      else record { symbols = symbols; queue = queue }

  -- The loop on fuel; `none` means that the fuel ran out.
  unfoldable pub merge_loop : ℕ → Merging → Option (List Symbol)
  merge_loop zero m = elim m.queue [ [] ↦ some m.symbols | b ∷ queue ↦ none ]
  merge_loop (suc fuel) m = elim (pop_best m.queue) [
    | none ↦ some m.symbols
    | some (b, queue) ↦ merge_loop fuel (merge_round m.symbols b queue)
  ]

  -- The symbols when the loop is over. Each merge empties a symbol and pushes at
  -- most two entries, so three rounds for each symbol are enough.
  unfoldable pub merge_symbols : Bytes → Option (List Symbol)
  merge_symbols word =
      let symbols = word_symbols word in
      let queue = first_bigrams symbols (length symbols - 1) 1 [] in
      merge_loop (3 * length symbols) (record { symbols = symbols; queue = queue })

-- The fallback for a piece that is no token: a lookup per character.
unfoldable pub characters_loop : List (Bytes × ℕ) → ℕ → Bytes → List ℕ → List ℕ
characters_loop ids zero rest out = out
characters_loop ids (suc fuel) [] out = out
characters_loop ids (suc fuel) (b ∷ rest) out =
    let len = min (utf8_char_len b) (length (b ∷ rest)) in
    characters_loop ids fuel (drop len (b ∷ rest))
      (elim (find (take len (b ∷ rest)) ids) [ none ↦ out | some id ↦ out ++ id ∷ [] ])

unfoldable pub emit_symbols : List (Bytes × ℕ) → List Symbol → List ℕ → List ℕ
emit_symbols ids [] out = out
emit_symbols ids (s ∷ symbols) out = emit_symbols ids symbols (
    if is_empty s.text then out else elim (find s.text ids) [
      | some id ↦ out ++ id ∷ []
      | none ↦ characters_loop ids (length s.text) s.text out
    ])

-- `merge_word`: the ids appended to `out`.
unfoldable pub merge_word : Ranks → List (Bytes × ℕ) → Bytes → List ℕ → Option (List ℕ)
merge_word ranks ids [] out = some out
merge_word ranks ids (b ∷ word) out =
    Option.map (λ symbols. emit_symbols ids symbols out) (merge_symbols ranks (b ∷ word))
