-- ===== src/Tokenizer/Unicode.antt =====
-- src/tokenizer/unicode.h and unicode.cpp: the codepoint queries, over the tables that
-- src/tokenizer/unicode_data.cpp holds, which are an argument here.
use pocket_llm.Prelude.{
  ℕ, Bool, false, not, List, [], ◌∷◌, bit_and, bit_or, ltb, ◌==◌, ◌||◌, if◌then◌else◌,
}

-- `kUnicodeRangesFlags`, `kUnicodeSetWhitespace` and `kUnicodeMapLowercase`.
pub record UnicodeData : Type 0 where
  pub ranges_flags : List (ℕ × ℕ)
  pub set_whitespace : List ℕ
  pub map_lowercase : List (ℕ × ℕ)

abbrev pub cpt_number : ℕ
cpt_number = 0x0002

abbrev pub cpt_letter : ℕ
cpt_letter = 0x0004

abbrev pub cpt_whitespace : ℕ
cpt_whitespace = 0x0100

-- `flags & mask` as a condition.
abbrev pub has : ℕ → ℕ → Bool
has flags mask = not (bit_and flags mask == 0)

member : ℕ → List ℕ → Bool
member c [] = false
member c (x ∷ xs) = x == c || member c xs

unfoldable pub cpt_is_whitespace : UnicodeData → ℕ → Bool
unfolding member
cpt_is_whitespace u codepoint = member codepoint u.set_whitespace

-- `upper_bound` and `prev`: the flags of the last entry before the first that starts past the
-- codepoint.
covering : ℕ → ℕ → List (ℕ × ℕ) → ℕ
covering codepoint before [] = before
covering codepoint before ((start, flags) ∷ ranges) =
    let rest = covering codepoint flags ranges in if ltb codepoint start then before else rest

unfoldable pub cpt_flags : UnicodeData → ℕ → ℕ
unfolding covering cpt_is_whitespace
cpt_flags u codepoint =
    let flags = covering codepoint 0 u.ranges_flags in
    if cpt_is_whitespace u codepoint then bit_or flags cpt_whitespace else flags

-- `lower_bound`: the first entry that is not below the codepoint.
lowercase_of : ℕ → List (ℕ × ℕ) → ℕ
lowercase_of codepoint [] = codepoint
lowercase_of codepoint ((upper, lower) ∷ mappings) =
    let rest = lowercase_of codepoint mappings in
    if ltb upper codepoint then rest else if upper == codepoint then lower else codepoint

unfoldable pub cpt_tolower : UnicodeData → ℕ → ℕ
unfolding lowercase_of
cpt_tolower u codepoint = lowercase_of codepoint u.map_lowercase
