-- ===== src/Tokenizer/Codec/RoundTrip.antt =====
-- `decode` gives back the text of `encode` (src/tokenizer/bpe.cpp).
use mathlib.Core.Path.{subst}
use pocket_llm.Prelude.{
  ℕ, zero, suc, ◌+◌, ◌/◌, ◌%◌, ◌^◌, ◌≤◌, ◌≡◌, refl, sym, ap, ◌∙◌, Bool, false, List, [], ◌∷◌, ◌++◌,
  map, append-nil, append_assoc, some, Bytes, IsByte, All, All-append, length, take, drop,
  take-append-drop, get_or, arith,
}
use pocket_llm.Prelude.Bits.{or_0x80, or_0xc0, or_0xe0}
use pocket_llm.Prelude.Int.{pos}
use pocket_llm.Tokenizer.Utf8.{cpt_to_utf8, cpts_from_utf8, utf8_text}
use pocket_llm.Tokenizer.Unicode.{UnicodeData}
use pocket_llm.Tokenizer.Pretokenize.{pretokenize}
use pocket_llm.Tokenizer.Pretokenize.Partition.{sum, sum-pretokenize}
use pocket_llm.Tokenizer.Specials.{Fragment, raw, token, split_specials}
use pocket_llm.Tokenizer.Specials.Text.{spelling, spellings, spellings-split_specials}
use pocket_llm.Tokenizer.Load.{Tokenizer}
use pocket_llm.Tokenizer.Codec.{
  decode, decode_id, words_loop, encode_fragment, fragments_loop, encode,
}
use pocket_llm.Tokenizer.Codec.Emission.{
  IsByteLevel, Decodes, Decodes-append, Decodes-id, decode-nil, merge_word-Decodes,
}

cpt_to_utf8-IsByte : (c : ℕ) → All IsByte (cpt_to_utf8 c)
unfolding cpt_to_utf8
cpt_to_utf8-IsByte c = ground (
  arith,
  or_0x80 (c % 2 ^ 6),
  or_0x80 (c / 2 ^ 6 % 2 ^ 6),
  or_0x80 (c / 2 ^ 12 % 2 ^ 6),
  or_0xc0 (c / 2 ^ 6),
  or_0xe0 (c / 2 ^ 12),
)

utf8_text-IsByte : (cpts : List ℕ) → All IsByte (utf8_text cpts)
unfolding utf8_text
utf8_text-IsByte [] = tt
utf8_text-IsByte (c ∷ cpts) =
    All-append IsByte (cpt_to_utf8 c) (utf8_text cpts) (cpt_to_utf8-IsByte c)
      (utf8_text-IsByte cpts)

utf8_text-nil : utf8_text [] ≡ []
unfolding utf8_text
utf8_text-nil = refl

utf8_text-append : (xs ys : List ℕ) → utf8_text (xs ++ ys) ≡ utf8_text xs ++ utf8_text ys
unfolding utf8_text
utf8_text-append [] ys = refl
utf8_text-append (x ∷ xs) ys = rw (utf8_text-append xs ys, append_assoc) refl

drop-nil : (n : ℕ) → drop {A = ℕ} n [] ≡ []
drop-nil zero = refl
drop-nil (suc n) = refl

drop-drop : (m n k : ℕ) (xs : List ℕ) → k ≡ m + n → drop n (drop m xs) ≡ drop k xs
drop-drop zero n k xs e = ap (λ i. drop i xs) (omega arith)
drop-drop (suc m) n k [] e = drop-nil n ∙ sym (drop-nil k)
drop-drop (suc m) n zero (x ∷ xs) e = absurd (omega arith)
drop-drop (suc m) n (suc k) (x ∷ xs) e = drop-drop m n k xs (omega arith)

drop-all : (xs : List ℕ) (n : ℕ) → length xs ≤ n → drop n xs ≡ []
drop-all [] n h = drop-nil n
drop-all (x ∷ xs) zero h = absurd (omega arith)
drop-all (x ∷ xs) (suc n) h = drop-all xs n (omega arith)

-- What a fragment needs to come back: a token whose piece decodes to its spelling, or bytes that are
-- the UTF-8 text of what they decode to.
abbrev pub Survives : Tokenizer → Fragment → Type 0
Survives t (token id) = decode_id t.vocab (pos id) ≡ some (get_or t.vocab id [])
Survives t (raw text) = All IsByte text × (utf8_text (cpts_from_utf8 text) ≡ text)

module _ (t : Tokenizer) (v : IsByteLevel t) where
  words_loop-Decodes :
      (cpts : List ℕ) (start : ℕ) (words out : List ℕ) (o : Bytes)
      → start + sum words ≡ length cpts
      → Decodes t.vocab out o
      → (ids : List ℕ) × (words_loop t cpts start words out ≡ some ids)
        × Decodes t.vocab ids (o ++ utf8_text (drop start cpts))
  unfolding words_loop
  words_loop-Decodes cpts start [] out o h d =
      (out, refl, rw (drop-all cpts start (omega arith), utf8_text-nil, append-nil o) d)
  words_loop-Decodes cpts start (n ∷ words) out o h d =
      let word = utf8_text (take n (drop start cpts)) in
      let (ids, e, first) = merge_word-Decodes t v word out o (utf8_text-IsByte _) d in
      let (ids', e', rest) =
        words_loop-Decodes cpts (start + n) words ids (o ++ word) (omega arith) first in
      let parts : word ++ utf8_text (drop (start + n) cpts) ≡ utf8_text (drop start cpts) =
        ap (λ u. word ++ utf8_text u) (sym (drop-drop start n (start + n) cpts refl))
        ∙ sym (utf8_text-append (take n (drop start cpts)) (drop n (drop start cpts)))
        ∙ ap utf8_text (take-append-drop n (drop start cpts)) in
      (
        ids',
        rw (e, words_loop) e',
        subst (Decodes t.vocab ids') (append_assoc o word _ ∙ ap (λ u. o ++ u) parts) rest,
      )

  encode_fragment-Decodes :
      (u : UnicodeData) (f : Fragment) (out : List ℕ) (o : Bytes)
      → Survives t f
      → Decodes t.vocab out o
      → (ids : List ℕ) × (encode_fragment u t f out ≡ some ids)
        × Decodes t.vocab ids (o ++ spelling t.vocab f)
  unfolding encode_fragment
  encode_fragment-Decodes u (token id) out o s d =
      (out ++ id ∷ [], refl, Decodes-append t.vocab out (id ∷ []) o _ d (Decodes-id t.vocab id _ s))
  encode_fragment-Decodes u (raw []) out o s d = (out, refl, rw (append-nil o) d)
  encode_fragment-Decodes u (raw (c ∷ text)) out o s d =
      let cpts = cpts_from_utf8 (c ∷ text) in
      let (ids, e, d') =
        words_loop-Decodes cpts 0 (pretokenize u t.pre_rules cpts (length cpts ∷ [])) out o
          (omega (arith, sum-pretokenize u t.pre_rules cpts (length cpts ∷ []))) d in
      (ids, e, subst (λ w. Decodes t.vocab ids (o ++ w)) s.1 d')

  fragments_loop-Decodes :
      (u : UnicodeData) (fragments : List Fragment) (out : List ℕ) (o : Bytes)
      → All (Survives t) fragments
      → Decodes t.vocab out o
      → (ids : List ℕ) × (fragments_loop u t fragments out ≡ some ids)
        × Decodes t.vocab ids (o ++ spellings t.vocab fragments)
  unfolding fragments_loop
  fragments_loop-Decodes u [] out o s d = (out, refl, rw (append-nil o) d)
  fragments_loop-Decodes u (f ∷ fragments) out o s d =
      let (ids, e, first) = encode_fragment-Decodes u f out o s.0 d in
      let (ids', e', rest) =
        fragments_loop-Decodes u fragments ids (o ++ spelling t.vocab f) s.1 first in
      (
        ids',
        rw (e, fragments_loop) e',
        subst (Decodes t.vocab ids') (append_assoc o (spelling t.vocab f) _) rest,
      )

-- Decoding the ids of a text gives the text back, without added special tokens, over a byte-level
-- vocabulary: `encode` returns, under either rule set and any tables, with any merges and any special
-- tokens, if each special token that is spliced out decodes to its spelling and the text between them
-- is the UTF-8 text of what it decodes to.
pub decode-encode :
    (u : UnicodeData) (t : Tokenizer) (text : Bytes) (parse_special : Bool)
    → IsByteLevel t
    → All (Survives t) (split_specials t.special_tokens t.vocab text parse_special)
    → (ids : List ℕ) × (encode u t text false parse_special ≡ some ids)
      × (decode t.vocab (map pos ids) ≡ some text)
unfolding encode
decode-encode u t text parse_special v s =
    let fragments = split_specials t.special_tokens t.vocab text parse_special in
    let (ids, e, d) = fragments_loop-Decodes t v u fragments [] [] s (decode-nil t.vocab) in
    (
      ids ++ [],
      rw (e, encode) refl,
      subst (λ w. Decodes t.vocab (ids ++ []) w)
          (spellings-split_specials t.special_tokens t.vocab text parse_special)
          (rw (append-nil ids) d),
    )
