-- ===== src/Tokenizer/Merge/Mapped.antt =====
-- The pieces of a mapped word (src/tokenizer/bpe.cpp): each is the mapped text of some bytes.

use pocket_llm.Prelude.{
  ℕ, zero, suc, ◌<◌, ◌≡◌, refl, sym, ap, ◌∙◌, Bool, true, false, List, [], ◌∷◌, ◌++◌, append_assoc,
  some, Bytes, IsByte, All, All-append, length, length-append, min, take, drop, take-length-append,
  drop-length-append, arith, ◌==◌, ==_iff, holds_below, holds_below→all,
}
use pocket_llm.Tokenizer.Utf8.{cpt_to_utf8}
use pocket_llm.Tokenizer.ByteMap.{byte_map, byte_to_cpt}
use pocket_llm.Tokenizer.Merge.{
  Symbol, Ranks, push_symbol, symbols_loop, word_symbols, merge_symbols, utf8_char_len,
}
use pocket_llm.Tokenizer.Merge.Pieces.{merge_loop-Pieces, push_symbol-Pieces}

-- The bytes that a text in the byte alphabet is the map of.
abbrev pub IsMapped : Bytes → Type 0
IsMapped text = (bs : Bytes) × All IsByte bs × (byte_map bs ≡ text)

pub byte_map-append : (xs ys : Bytes) → byte_map (xs ++ ys) ≡ byte_map xs ++ byte_map ys
unfolding byte_map
byte_map-append [] ys = refl
byte_map-append (x ∷ xs) ys = rw (byte_map-append xs ys, append_assoc) refl

pub byte_map-nil : byte_map [] ≡ []
unfolding byte_map
byte_map-nil = refl

empty-IsMapped : IsMapped []
unfolding byte_map
empty-IsMapped = ([], tt, refl)

append-IsMapped : (s t : Bytes) → IsMapped s → IsMapped t → IsMapped (s ++ t)
append-IsMapped s t (xs, hx, ex) (ys, hy, ey) =
    (xs ++ ys, All-append IsByte xs ys hx hy, byte_map-append xs ys ∙ rw (ex, ey) refl)

-- The character of a byte in the alphabet is not empty, and its first byte tells its length.
is_char : ℕ → Bool
unfolding byte_map byte_to_cpt
is_char b = elim (byte_map (b ∷ [])) [
  | [] ↦ false
  | f ∷ rest ↦ utf8_char_len f == suc (length rest)
]

char_table : holds_below 256 is_char ≡ true
unfolding holds_below is_char byte_map byte_to_cpt utf8_char_len cpt_to_utf8
char_table = refl

-- A character in front of a text, as the loops over characters see it.
pub record Character (b : ℕ) (bs : Bytes) : Type 0 where
  pub first : ℕ
  pub more : Bytes
  pub mapped : byte_map (b ∷ bs) ≡ first ∷ more
  pub taken :
      take (min (utf8_char_len first) (length (first ∷ more))) (first ∷ more) ≡ byte_map (b ∷ [])
  pub left : drop (min (utf8_char_len first) (length (first ∷ more))) (first ∷ more) ≡ byte_map bs
  pub shorter : length (byte_map bs) < length (first ∷ more)

sized-Character :
    (char : Bytes) (b : ℕ) (bs : Bytes)
    → byte_map (b ∷ []) ≡ char
    → elim char as (λ _. Bool) [ [] ↦ false | f ∷ rest ↦ utf8_char_len f == suc (length rest) ]
      ≡ true
    → Character b bs
sized-Character [] b bs e h = absurd (cc)
sized-Character (f ∷ rest) b bs e h =
    let whole : byte_map (b ∷ bs) ≡ f ∷ rest ++ byte_map bs =
      byte_map-append (b ∷ []) bs ∙ ap (λ t. t ++ byte_map bs) e in
    let size : min (utf8_char_len f) (length (f ∷ rest ++ byte_map bs)) ≡ length (f ∷ rest) =
      omega (
        arith,
        (==_iff (utf8_char_len f) (suc (length rest))).0 h,
        length-append rest (byte_map bs),
      ) in
    record {
      first = f;
      more = rest ++ byte_map bs;
      mapped = whole;
      taken =
          ap (λ n. take n (f ∷ rest ++ byte_map bs)) size
          ∙ take-length-append (f ∷ rest) (byte_map bs)
          ∙ sym e;
      left =
          ap (λ n. drop n (f ∷ rest ++ byte_map bs)) size
          ∙ drop-length-append (f ∷ rest) (byte_map bs);
      shorter = omega (arith, length-append rest (byte_map bs));
    }

pub character : (b : ℕ) (bs : Bytes) → IsByte b → Character b bs
unfolding is_char
character b bs h =
    sized-Character (byte_map (b ∷ [])) b bs refl (holds_below→all 256 is_char char_table b h)

Pieces : List Symbol → Type 0
Pieces symbols = All (λ (s : Symbol). IsMapped s.text) symbols

symbols_loop-Pieces :
    (fuel : ℕ) (bs : Bytes) (symbols : List Symbol)
    → All IsByte bs
    → Pieces symbols
    → Pieces (symbols_loop fuel (byte_map bs) symbols)
unfolding symbols_loop Pieces
symbols_loop-Pieces zero bs symbols h p = p
symbols_loop-Pieces (suc fuel) [] symbols h p = rw byte_map-nil p
symbols_loop-Pieces (suc fuel) (b ∷ bs) symbols h p =
    let c = character b bs h.0 in
    rw (c.mapped, c.taken, c.left)
      (symbols_loop-Pieces fuel bs (push_symbol (byte_map (b ∷ [])) symbols) h.1 (
        push_symbol-Pieces IsMapped empty-IsMapped append-IsMapped (byte_map (b ∷ [])) symbols
          (b ∷ [], (h.0, tt), refl) p))

-- Each piece that the merging loop leaves of a mapped word is the mapped text of some bytes.
pub merge_symbols-Pieces :
    (ranks : Ranks) (bs : Bytes) (final : List Symbol)
    → All IsByte bs
    → merge_symbols ranks (byte_map bs) ≡ some final
    → All (λ (s : Symbol). IsMapped s.text) final
unfolding merge_symbols word_symbols Pieces
merge_symbols-Pieces ranks bs final h e =
    merge_loop-Pieces IsMapped empty-IsMapped append-IsMapped ranks _ _ final
      (symbols_loop-Pieces (length (byte_map bs)) bs [] h tt) e
