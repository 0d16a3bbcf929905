-- ===== src/Tokenizer/Pretokenize/Bounds.antt =====
-- Where one round of the scanner stops, and that its inner loops end by their tests.
use pocket_llm.Prelude.{
  ℕ, zero, suc, ◌+◌, ◌-◌, ◌≤◌, ◌<◌, ◌≡◌, ◌⊎◌, ◌&&◌, inl, inr, Bool, true, false, some, ltb, ◌==◌,
  List, arith, refl, Bool-cases, if◌then◌else◌,
}
use pocket_llm.Tokenizer.Unicode.{UnicodeData}
use pocket_llm.Tokenizer.Pretokenize.{
  PreTokenizer, Word, word_at, letter_at, number_at, newline_at, symbol, advance, advance_to_end,
  contraction, letters, numbers, punctuation, whitespace_run, spaces, next_stop, max_digits,
}

-- Past the end there is no flag and no codepoint, and the digit cap is at least one.
pub record IsWord (w : Word) : Type 0 where
  pub no_flags : (p : ℕ) → w.end ≤ p → w.flags_at p ≡ 0
  pub no_cpt : (p : ℕ) → w.end ≤ p → w.cpt_at p ≡ 0xffff_ffff
  pub digit : 1 ≤ w.digits

pub word_at-IsWord :
    (u : UnicodeData) (rules : PreTokenizer) (cpts : List ℕ) (ini end : ℕ)
    → IsWord (word_at u rules cpts ini end)
unfolding word_at max_digits
word_at-IsWord u rules cpts ini end = record {
  no_flags = λ p h. ground arith;
  no_cpt = λ p h. ground arith;
  digit = ground arith;
}

pub advance_bounds :
    (test : ℕ → Bool) (fuel pos : ℕ)
    → (pos ≤ advance test fuel pos) × (advance test fuel pos ≤ pos + fuel)
unfolding advance
advance_bounds test zero pos = omega arith
advance_bounds test (suc fuel) pos = ground (arith, advance_bounds test fuel (pos + 1))

-- A loop whose test holds where it starts moves on.
pub advance_moves :
    (test : ℕ → Bool) (fuel pos : ℕ) → test pos ≡ true → 0 < fuel → pos < advance test fuel pos
unfolding advance
advance_moves test zero pos t h = absurd (omega arith)
advance_moves test (suc fuel) pos t h = ground (arith, advance_bounds test fuel (pos + 1))

-- With the fuel that is left to a place where the test fails, the loop ends by its test.
pub advance_ends :
    (test : ℕ → Bool) (fuel pos : ℕ)
    → test (pos + fuel) ≡ false
    → test (advance test fuel pos) ≡ false
unfolding advance
advance_ends test zero pos h = let e : pos + 0 ≡ pos = omega arith in rw e at h
advance_ends test (suc fuel) pos h = elim (Bool-cases (test pos)) [
  | inl t ↦
      let e : pos + 1 + fuel ≡ pos + suc fuel = omega arith in
      rw t (advance_ends test fuel (pos + 1) (rw e h))
  | inr t ↦ rw t t
]

whitespace_run_bounds :
    (w : Word) (fuel pos run last : ℕ)
    → (last ≡ 0) ⊎ ((pos < last) × (last ≤ pos + run))
    → (run ≤ (whitespace_run w fuel pos run last).0)
      × ((whitespace_run w fuel pos run last).0 ≤ run + fuel)
      × (((whitespace_run w fuel pos run last).1 ≡ 0)
          ⊎ ((pos < (whitespace_run w fuel pos run last).1)
              × ((whitespace_run w fuel pos run last).1
                  ≤ pos + (whitespace_run w fuel pos run last).0)))
unfolding whitespace_run
whitespace_run_bounds w zero pos run last h = ground arith
whitespace_run_bounds w (suc fuel) pos run last h = ground (
  arith,
  whitespace_run_bounds w fuel pos (run + 1)
      (if newline_at w (pos + run) then pos + run + 1 else last),
)

-- `stop` lies past `pos` and inside the word.
abbrev pub Inside : Word → ℕ → ℕ → Type 0
Inside w pos stop = (pos < stop) × (stop ≤ w.end)

module _ (w : Word) (v : IsWord w) (pos : ℕ) (inside : pos < w.end) where
  pub contraction-Inside : (stop : ℕ) → contraction w pos ≡ some stop → Inside w pos stop
  unfolding contraction
  contraction-Inside stop e = ground arith

  letters-Inside : (stop : ℕ) → letters w pos ≡ some stop → Inside w pos stop
  unfolding letters
  letters-Inside stop e = ground (arith, advance_bounds (letter_at w) (w.end - (pos + 1)) (pos + 1))

  numbers-Inside : (stop : ℕ) → numbers w pos ≡ some stop → Inside w pos stop
  unfolding numbers
  numbers-Inside stop e = ground (
    arith,
    v.digit,
    advance_bounds (λ p. ltb p w.end && ltb p (pos + w.digits) && number_at w p) (w.end - pos) pos,
    advance_moves (λ p. ltb p w.end && ltb p (pos + w.digits) && number_at w p) (w.end - pos) pos,
  )

  symbol-inside : (p : ℕ) → symbol (w.flags_at p) ≡ true → p < w.end
  symbol-inside p t = ground (arith, v.no_flags p)

  punctuation-Inside : (stop : ℕ) → punctuation w pos ≡ some stop → Inside w pos stop
  unfolding punctuation
  punctuation-Inside stop e =
      let start = if w.cpt_at pos == b' ' then pos + 1 else pos in
      let middle = advance_to_end w (λ p. symbol (w.flags_at p)) start in
      ground (
        arith,
        symbol-inside start,
        advance_bounds (λ p. symbol (w.flags_at p)) (w.end - start) start,
        advance_moves (λ p. symbol (w.flags_at p)) (w.end - start) start,
        advance_bounds (newline_at w) (w.end - middle) middle,
      )

  spaces-Inside : Inside w pos (spaces w pos)
  unfolding spaces
  spaces-Inside = ground (arith, whitespace_run_bounds w (w.end - pos) pos 0 0 (inl refl))

  -- Every round of the scanner moves on and stays inside the word.
  pub next_stop-Inside : Inside w pos (next_stop w pos)
  unfolding next_stop
  next_stop-Inside =
      grind (arith, letters-Inside, numbers-Inside, punctuation-Inside, spaces-Inside)
