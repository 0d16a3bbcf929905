-- ===== src/Tokenizer/Pretokenize.antt =====
-- src/tokenizer/pretokenize.cpp: the scanner that cuts codepoints into words, under the two
-- alternations that the build implements.
pub mod Bounds
pub mod Partition
pub mod Rules
use pocket_llm.Prelude.{
  ℕ, zero, suc, ◌+◌, ◌-◌, Bool, true, false, not, ◌&&◌, ◌||◌, List, [], ◌∷◌, ◌++◌, Option, none,
  some, ltb, leb, ◌==◌, if◌then◌else◌, get_or,
}
use pocket_llm.Tokenizer.Unicode.{
  UnicodeData, cpt_number, cpt_letter, cpt_whitespace, has, cpt_flags, cpt_tolower,
}

pub data PreTokenizer : Type 0 where
  qwen2 llama_bpe : PreTokenizer

abbrev pub out_of_range : ℕ
out_of_range = 0xffff_ffff

unfoldable pub max_digits : PreTokenizer → ℕ
max_digits llama_bpe = 3
max_digits qwen2 = 1

-- What the scanner sees of one word of the input: the three closures, `cpt_tolower`, the digit cap
-- and the word's end.
pub record Word : Type 0 where
  pub cpt_at : ℕ → ℕ
  pub flags_at : ℕ → ℕ
  pub tolower : ℕ → ℕ
  pub digits : ℕ
  pub end : ℕ

unfoldable pub word_at : UnicodeData → PreTokenizer → List ℕ → ℕ → ℕ → Word
word_at u rules cpts ini end = record {
  cpt_at = λ pos. if leb ini pos && ltb pos end then get_or cpts pos out_of_range else out_of_range;
  flags_at =
      λ pos. if leb ini pos && ltb pos end then cpt_flags u (get_or cpts pos out_of_range) else 0;
  tolower = cpt_tolower u;
  digits = max_digits rules;
  end = end;
}

abbrev pub letter_at : Word → ℕ → Bool
letter_at w pos = has (w.flags_at pos) cpt_letter

abbrev pub number_at : Word → ℕ → Bool
number_at w pos = has (w.flags_at pos) cpt_number

abbrev pub space_at : Word → ℕ → Bool
space_at w pos = has (w.flags_at pos) cpt_whitespace

abbrev pub newline_at : Word → ℕ → Bool
newline_at w pos = w.cpt_at pos == b'\r' || w.cpt_at pos == b'\n'

-- The test of the punctuation branch on `lead_flags`.
abbrev pub symbol : ℕ → Bool
symbol flags = not (has flags 0x0106) && not (flags == 0)

-- `while (test(pos)) ++pos;` on fuel.
unfoldable pub advance : (ℕ → Bool) → ℕ → ℕ → ℕ
advance test zero pos = pos
advance test (suc fuel) pos =
    let further = advance test fuel (pos + 1) in if test pos then further else pos

module _ (w : Word) where
  abbrev pub advance_to_end : (ℕ → Bool) → ℕ → ℕ
  advance_to_end test pos = advance test (w.end - pos) pos

  -- (?i:'s|'t|'re|'ve|'m|'ll|'d): the argument of `emit_through`, if it matches.
  unfoldable pub contraction : ℕ → Option ℕ
  contraction pos =
      let next = w.tolower (w.cpt_at (pos + 1)) in
      let next2 = w.tolower (w.cpt_at (pos + 2)) in
      if w.cpt_at pos == b'\'' && ltb (pos + 1) w.end
      then if next == b's' || next == b't' || next == b'm' || next == b'd'
        then some (pos + 2)
        else if ltb (pos + 2) w.end
            && (next == b'r' && next2 == b'e'
                || next == b'v' && next2 == b'e'
                || next == b'l' && next2 == b'l')
        then some (pos + 3)
        else none
      else none

  -- [^\r\n\p{L}\p{N}]?\p{L}+
  unfoldable pub letters : ℕ → Option ℕ
  letters pos =
      if not (newline_at w pos || number_at w pos) && (letter_at w pos || letter_at w (pos + 1))
      then some (advance_to_end (letter_at w) (pos + 1))
      else none

  -- \p{N} or \p{N}{1,3}
  unfoldable pub numbers : ℕ → Option ℕ
  numbers pos =
      if number_at w pos
      then some (advance_to_end (λ p. ltb p w.end && ltb p (pos + w.digits) && number_at w p) pos)
      else none

  -- ` ?[^\s\p{L}\p{N}]+[\r\n]*`
  unfoldable pub punctuation : ℕ → Option ℕ
  punctuation pos =
      let blank = w.cpt_at pos == b' ' in
      let start = if blank then pos + 1 else pos in
      if symbol (w.flags_at start)
      then some (advance_to_end (newline_at w) (advance_to_end (λ p. symbol (w.flags_at p)) start))
      else none

  -- The scan of a whitespace run: its length, and the end of its last newline (0 for none).
  unfoldable pub whitespace_run : ℕ → ℕ → ℕ → ℕ → ℕ × ℕ
  whitespace_run zero pos run last_newline_end = (run, last_newline_end)
  whitespace_run (suc fuel) pos run last_newline_end =
      let further =
        whitespace_run fuel pos (run + 1)
          (if newline_at w (pos + run) then pos + run + 1 else last_newline_end) in
      if space_at w (pos + run) then further else (run, last_newline_end)

  -- \s*[\r\n]+, \s+(?!\S), \s+, and the codepoint on its own.
  unfoldable pub spaces : ℕ → ℕ
  spaces pos =
      let (run, last_newline_end) = whitespace_run (w.end - pos) pos 0 0 in
      if ltb 0 last_newline_end
      then last_newline_end
      else if ltb 1 run && not (w.cpt_at (pos + run) == out_of_range)
      then pos + run - 1
      else if ltb 0 run
      then pos + run
      else pos + 1

  -- Where the branches behind the contractions move `pos`.
  unfoldable pub next_stop : ℕ → ℕ
  next_stop pos = elim (letters pos) [
    | some stop ↦ stop
    | none ↦ elim (numbers pos) [
      | some stop ↦ stop
      | none ↦ elim (punctuation pos) [ some stop ↦ stop | none ↦ spaces pos ]
    ]
  ]

-- The loop's variables.
pub record Scan : Type 0 where
  pub pos : ℕ
  pub emitted : ℕ
  pub words : List ℕ

-- `emit_through`: `stop` is never below `emitted`.
unfoldable pub emit_through : ℕ → Scan → Scan × ℕ
emit_through stop s =
    let len = stop - s.emitted in
    (record s { emitted = stop; words = if ltb 0 len then s.words ++ len ∷ [] else s.words }, len)

-- One round of the loop over `pos`.
unfoldable pub scan_round : Word → Scan → Scan
scan_round w s = elim (contraction w s.pos) [
  | some stop ↦ let (s', len) = emit_through stop s in record s' { pos = s.pos + len }
  | none ↦ record (emit_through (next_stop w s.pos) s).0 { pos = next_stop w s.pos }
]

unfoldable pub scan_loop : ℕ → Word → Scan → Scan
scan_loop zero w s = s
scan_loop (suc fuel) w s =
    let more = scan_loop fuel w (scan_round w s) in if ltb s.pos w.end then more else s

-- The loop over the offsets, with the variables `start` and `words`.
unfoldable pub offsets_loop : UnicodeData → PreTokenizer → List ℕ → List ℕ → ℕ → List ℕ → List ℕ
offsets_loop u rules cpts [] start words = words
offsets_loop u rules cpts (offset ∷ offsets) start words =
    let w = word_at u rules cpts start (start + offset) in
    let done = scan_loop offset w (record { pos = start; emitted = start; words = words }) in
    offsets_loop u rules cpts offsets (start + offset) done.words

unfoldable pub pretokenize : UnicodeData → PreTokenizer → List ℕ → List ℕ → List ℕ
pretokenize u rules cpts offsets = offsets_loop u rules cpts offsets 0 []
