-- ===== src/Tokenizer/Pretokenize/Rules.antt =====
-- What the two rule sets share, and what tells them apart.
use pocket_llm.Prelude.{
  if◌then◌else◌, ℕ, zero, suc, ◌+◌, ◌-◌, ◌≤◌, ◌<◌, ◌≡◌, refl, sym, ◌∙◌, List, [], ◌∷◌, true, false,
  ltb, arith, ◌⊎◌, get_or, ◌&&◌, Bool, Bool-cases, inl, inr, dec_lt,
}
use pocket_llm.Tokenizer.Unicode.{UnicodeData, has, cpt_number, cpt_flags}
use pocket_llm.Tokenizer.Pretokenize.{
  PreTokenizer, qwen2, llama_bpe, Word, word_at, contraction, letters, numbers, punctuation,
  whitespace_run, spaces, next_stop, Scan, scan_round, scan_loop, offsets_loop, pretokenize,
  out_of_range, number_at, newline_at, max_digits, advance,
}
use pocket_llm.Tokenizer.Pretokenize.Bounds.{
  word_at-IsWord, advance_bounds, advance_moves, advance_ends,
}

advance-le_limit :
    (test : ℕ → Bool) (limit fuel pos : ℕ)
    → pos ≤ limit
    → ((p : ℕ) → test p ≡ true → p < limit)
    → advance test fuel pos ≤ limit
unfolding advance
advance-le_limit test limit zero pos h below = h
advance-le_limit test limit (suc fuel) pos h below =
    ground (
      arith,
      below pos,
      λ (k : pos + 1 ≤ limit). advance-le_limit test limit fuel (pos + 1) k below,
    )

advance_all :
    (test : ℕ → Bool) (fuel pos p : ℕ) → pos ≤ p → p < advance test fuel pos → test p ≡ true
unfolding advance
advance_all test zero pos p from h = absurd (omega arith)
advance_all test (suc fuel) pos p from h = elim (Bool-cases (test pos)) [
  | inr f ↦ let stays : p < pos = rw f at h in absurd (omega arith)
  | inl t ↦
      let further : p < advance test fuel (pos + 1) = rw t at h in
      elim (dec_lt pos p) [
        | yes later ↦ advance_all test fuel (pos + 1) p (omega arith) further
        | no here ↦ let same : p ≡ pos = omega arith in rw same t
      ]
]

-- Whether the codepoint at a position of the input is a number.
abbrev pub is_number : UnicodeData → List ℕ → ℕ → Bool
is_number u cpts p = has (cpt_flags u (get_or cpts p out_of_range)) cpt_number

-- What `\p{N}{1,cap}` matches at `pos`, greedily, in an input that ends at `end`: numbers only, no more
-- than the cap, and fewer only at the end of the input or before what is no number.
pub record IsNumberRun (u : UnicodeData) (cpts : List ℕ) (end cap pos stop : ℕ) : Type 0 where
  pub some_number : pos < stop
  pub inside : stop ≤ end
  pub numbers : (p : ℕ) → pos ≤ p → p < stop → is_number u cpts p ≡ true
  pub capped : stop ≤ pos + cap
  pub greedy : (stop ≡ pos + cap) ⊎ ((stop ≡ end) ⊎ (is_number u cpts stop ≡ false))

-- The test of the loop over the digits.
abbrev in_run : Word → ℕ → ℕ → Bool
in_run w pos p = ltb p w.end && ltb p (pos + w.digits) && number_at w p

next_stop-number :
    (w : Word) (pos : ℕ)
    → number_at w pos ≡ true
    → next_stop w pos ≡ advance (in_run w pos) (w.end - pos) pos
unfolding next_stop letters numbers
next_stop-number w pos n = ground arith

number_at-is_number :
    (u : UnicodeData) (rules : PreTokenizer) (cpts : List ℕ) (ini end p : ℕ)
    → ini ≤ p
    → p < end
    → number_at (word_at u rules cpts ini end) p ≡ is_number u cpts p
unfolding word_at
number_at-is_number u rules cpts ini end p from before = ground arith

module _ (u : UnicodeData) (rules : PreTokenizer) (cpts : List ℕ) (ini end pos : ℕ)
    (from : ini ≤ pos) (before : pos < end) (n : is_number u cpts pos ≡ true) where
  next_stop-IsNumberRun :
      IsNumberRun u cpts end
        (word_at u rules cpts ini end).digits
        pos
        (next_stop (word_at u rules cpts ini end) pos)
  next_stop-IsNumberRun =
      let w = word_at u rules cpts ini end in
      let v = word_at-IsWord u rules cpts ini end in
      let at : (p : ℕ) → ini ≤ p → p < end → number_at w p ≡ is_number u cpts p =
        number_at-is_number u rules cpts ini end in
      let last : w.end ≡ end = unfold word_at in refl in
      let test = in_run w pos in
      let stop = advance test (w.end - pos) pos in
      let here : number_at w pos ≡ true = at pos from before ∙ n in
      let ends : test stop ≡ false =
        advance_ends test (w.end - pos) pos (ground (arith, v.no_flags (pos + (w.end - pos)))) in
      let moves : pos < stop =
        advance_moves test (w.end - pos) pos (ground (arith, v.digit)) (omega arith) in
      let ran : stop ≤ pos + (w.end - pos) = (advance_bounds test (w.end - pos) pos).1 in
      let capped : stop ≤ pos + w.digits =
        advance-le_limit test (pos + w.digits) (w.end - pos) pos (omega arith)
          (λ p t. ground (arith, t)) in
      rw (next_stop-number w pos here) (record {
        some_number = moves;
        inside = omega arith;
        numbers = λ p f h.
            let t = advance_all test (w.end - pos) pos p f h in
            sym (at p (omega arith) (omega arith)) ∙ ground (arith, t);
        capped = capped;
        greedy = elim (dec_lt stop end) [
          | no not_inside ↦ inr (inl (omega arith))
          | yes inside ↦ elim (dec_lt stop (pos + w.digits)) [
            | no at_cap ↦ inl (omega arith)
            | yes fewer ↦ inr (inr (sym (at stop (omega arith) inside) ∙ ground (arith, ends)))
          ]
        ];
      })

-- At a position of the word of the input that holds a number, the branches behind the contractions stop
-- where the rule's alternation does: `\p{N}` takes the one codepoint under "qwen2", and `\p{N}{1,3}`
-- takes up to three under "llama-bpe", numbers only and as many as follow each other there.
pub digit_cap :
    (u : UnicodeData) (cpts : List ℕ) (ini end pos : ℕ)
    → ini ≤ pos
    → pos < end
    → is_number u cpts pos ≡ true
    → IsNumberRun u cpts end 1 pos (next_stop (word_at u qwen2 cpts ini end) pos)
      × IsNumberRun u cpts end 3 pos (next_stop (word_at u llama_bpe cpts ini end) pos)
unfolding word_at max_digits
digit_cap u cpts ini end pos from before n = (
  next_stop-IsNumberRun u qwen2 cpts ini end pos from before n,
  next_stop-IsNumberRun u llama_bpe cpts ini end pos from before n,
)

module _ (w : Word) (d : ℕ) where
  whitespace_run-digits :
      (fuel pos run last : ℕ)
      → whitespace_run (record w { digits = d }) fuel pos run last
        ≡ whitespace_run w fuel pos run last
  unfolding whitespace_run
  whitespace_run-digits zero pos run last = refl
  whitespace_run-digits (suc fuel) pos run last = ground (
    arith,
    whitespace_run-digits fuel pos (run + 1)
        (if newline_at w (pos + run) then pos + run + 1 else last),
  )

  next_stop-digits :
      (pos : ℕ)
      → number_at w pos ≡ false
      → next_stop (record w { digits = d }) pos ≡ next_stop w pos
  unfolding next_stop letters numbers punctuation spaces
  next_stop-digits pos n = ground (arith, whitespace_run-digits (w.end - pos) pos 0 0)

  scan_round-digits :
      (s : Scan)
      → number_at w s.pos ≡ false
      → scan_round (record w { digits = d }) s ≡ scan_round w s
  unfolding scan_round contraction
  scan_round-digits s n = ground (arith, next_stop-digits s.pos n)

  scan_loop-digits :
      (fuel : ℕ) (s : Scan)
      → ((p : ℕ) → number_at w p ≡ false)
      → scan_loop fuel (record w { digits = d }) s ≡ scan_loop fuel w s
  unfolding scan_loop
  scan_loop-digits zero s n = refl
  scan_loop-digits (suc fuel) s n =
      rw (scan_round-digits s (n s.pos), scan_loop-digits fuel _ n) refl

module _ (u : UnicodeData) (cpts : List ℕ)
    (no_number : (p : ℕ) → has (cpt_flags u (get_or cpts p out_of_range)) cpt_number ≡ false) where
  number_at-word_at :
      (rules : PreTokenizer) (ini end p : ℕ) → number_at (word_at u rules cpts ini end) p ≡ false
  unfolding word_at
  number_at-word_at rules ini end p = ground (arith, no_number p)

  offsets_loop-rules :
      (offsets : List ℕ) (start : ℕ) (words : List ℕ)
      → offsets_loop u llama_bpe cpts offsets start words
        ≡ offsets_loop u qwen2 cpts offsets start words
  unfolding offsets_loop
  offsets_loop-rules [] start words = refl
  offsets_loop-rules (offset ∷ offsets) start words =
      let w = word_at u qwen2 cpts start (start + offset) in
      let s : Scan = record { pos = start; emitted = start; words = words } in
      let same : scan_loop offset (word_at u llama_bpe cpts start (start + offset)) s
          ≡ scan_loop offset w s =
        unfold word_at in
        scan_loop-digits w (max_digits llama_bpe) offset s
          (number_at-word_at qwen2 start (start + offset)) in
      rw same (offsets_loop-rules offsets (start + offset) (scan_loop offset w s).words)

  -- The two rule sets differ in numbers alone: over codepoints none of which is a number they cut
  -- the same words.
  pub pretokenize_same :
      (offsets : List ℕ) → pretokenize u llama_bpe cpts offsets ≡ pretokenize u qwen2 cpts offsets
  unfolding pretokenize
  pretokenize_same offsets = offsets_loop-rules offsets 0 []
