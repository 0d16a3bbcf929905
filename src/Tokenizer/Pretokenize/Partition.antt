-- ===== src/Tokenizer/Pretokenize/Partition.antt =====
-- The words are a partition of the input, and none of them crosses an offset.
use pocket_llm.Prelude.{
  ℕ, zero, suc, ◌+◌, ◌-◌, ◌≤◌, ◌<◌, ◌≡◌, refl, ap, ◌∙◌, sym, Bool-cases, inl, inr, List, [], ◌∷◌,
  ◌++◌, All, ltb, ltb→lt, append-nil, append_assoc, arith, Option-cases,
}
use pocket_llm.Tokenizer.Unicode.{UnicodeData}
use pocket_llm.Tokenizer.Pretokenize.{
  PreTokenizer, Word, word_at, contraction, next_stop, Scan, emit_through, scan_round, scan_loop,
  offsets_loop, pretokenize,
}
use pocket_llm.Tokenizer.Pretokenize.Bounds.{
  IsWord, word_at-IsWord, Inside, contraction-Inside, next_stop-Inside,
}

abbrev pub sum : List ℕ → ℕ
sum [] = 0
sum (x ∷ xs) = x + sum xs

sum-append : (xs ys : List ℕ) → sum (xs ++ ys) ≡ sum xs + sum ys
sum-append [] ys = omega arith
sum-append (x ∷ xs) ys = omega (arith, sum-append xs ys)

abbrev pub IsPositive : ℕ → Type 0
IsPositive n = 1 ≤ n

-- The words cut each offset into positive parts that add up to it, one offset after the other.
pub data Refines : List ℕ → List ℕ → Type 0 where
  done : Refines [] []
  cut :
      {words offsets : List ℕ} (parts all : List ℕ) (offset : ℕ)
      → all ≡ parts ++ words
      → sum parts ≡ offset
      → All IsPositive parts
      → Refines words offsets
      → Refines all (offset ∷ offsets)

module _ (w : Word) (v : IsWord w) where
  scan_round_lem :
      (s : Scan)
      → s.emitted ≡ s.pos
      → s.pos < w.end
      → (stop : ℕ) × Inside w s.pos stop
        × (scan_round w s
            ≡ record { pos = stop; emitted = stop; words = s.words ++ (stop - s.pos) ∷ [] })
  unfolding scan_round emit_through
  scan_round_lem s e h = elim (Option-cases (contraction w s.pos)) [
    | inl c ↦ let inside = next_stop-Inside w v s.pos h in (next_stop w s.pos, inside, ground arith)
    | inr (stop, c) ↦
        let inside = contraction-Inside w v s.pos h stop c in (stop, inside, ground arith)
  ]

  -- With enough fuel the loop reaches the end of the word, and cuts all of it.
  scan_loop_lem :
      (fuel : ℕ) (s : Scan)
      → s.emitted ≡ s.pos
      → s.pos ≤ w.end
      → w.end ≤ s.pos + fuel
      → (parts : List ℕ) × ((scan_loop fuel w s).words ≡ s.words ++ parts)
        × (sum parts ≡ w.end - s.pos)
        × All IsPositive parts
        × ((scan_loop fuel w s).pos ≡ w.end)
  unfolding scan_loop
  scan_loop_lem zero s e h enough = ([], sym (append-nil s.words), omega arith, tt, omega arith)
  scan_loop_lem (suc fuel) s e h enough = elim (Bool-cases (ltb s.pos w.end)) [
    | inr stop ↦ rw stop ([], sym (append-nil s.words), ground arith, tt, ground arith)
    | inl more ↦
        let (stop, inside, r) = scan_round_lem s e (ltb→lt _ _ more) in
        let s' : Scan = record {
          pos = stop;
          emitted = stop;
          words = s.words ++ (stop - s.pos) ∷ [];
        } in
        let (parts, w', total, positive, end) = scan_loop_lem fuel s' refl inside.1 (omega arith) in
        rw (more, r)
          (
            (stop - s.pos) ∷ parts,
            w' ∙ append_assoc s.words _ parts,
            omega arith,
            (omega arith, positive),
            end,
          )
  ]

-- One offset: the loop over `pos` cuts it into words and ends at its end.
scan_word :
    (u : UnicodeData) (rules : PreTokenizer) (cpts words : List ℕ) (start offset : ℕ)
    → (parts : List ℕ) × ((scan_loop offset
          (word_at u rules cpts start (start + offset))
          (record { pos = start; emitted = start; words = words })).words
        ≡ words ++ parts)
      × (sum parts ≡ offset)
      × All IsPositive parts
scan_word u rules cpts words start offset =
    let w = word_at u rules cpts start (start + offset) in
    let s : Scan = record { pos = start; emitted = start; words = words } in
    let end : w.end ≡ start + offset = unfold word_at in refl in
    let (parts, e, total, positive, _) =
      scan_loop_lem w (word_at-IsWord u rules cpts start (start + offset)) offset s refl
        (omega arith) (omega arith) in
    (parts, e, omega arith, positive)

offsets_loop_lem :
    (u : UnicodeData) (rules : PreTokenizer) (cpts offsets : List ℕ) (start : ℕ) (words : List ℕ)
    → (out : List ℕ) × (offsets_loop u rules cpts offsets start words ≡ words ++ out)
      × Refines out offsets
unfolding offsets_loop
offsets_loop_lem u rules cpts [] start words = ([], sym (append-nil words), done)
offsets_loop_lem u rules cpts (offset ∷ offsets) start words =
    let (parts, e, total, positive) = scan_word u rules cpts words start offset in
    let (out, e', refined) =
      offsets_loop_lem u rules cpts offsets (start + offset) (words ++ parts) in
    (
      parts ++ out,
      rw e (e' ∙ append_assoc words parts out),
      cut parts (parts ++ out) offset refl total positive refined,
    )

-- Under either rule set, every word is positive and the words of each offset add up to it, so the
-- words partition the input and no word crosses an offset's end.
pub pretokenize-Refines :
    (u : UnicodeData) (rules : PreTokenizer) (cpts offsets : List ℕ)
    → Refines (pretokenize u rules cpts offsets) offsets
unfolding pretokenize
pretokenize-Refines u rules cpts offsets =
    let (out, e, refined) = offsets_loop_lem u rules cpts offsets 0 [] in rw e refined

Refines-sum : {words offsets : List ℕ} → Refines words offsets → sum words ≡ sum offsets
Refines-sum done = refl
Refines-sum (cut {words} parts all offset e total positive r) =
    ap sum e ∙ sum-append parts words ∙ omega (arith, Refines-sum r)

-- The call of `encode`: the words of a text add up to its number of codepoints.
pub sum-pretokenize :
    (u : UnicodeData) (rules : PreTokenizer) (cpts offsets : List ℕ)
    → sum (pretokenize u rules cpts offsets) ≡ sum offsets
sum-pretokenize u rules cpts offsets = Refines-sum (pretokenize-Refines u rules cpts offsets)
