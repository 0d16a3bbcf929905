-- ===== src/Tokenizer/Utf8/RoundTrip.antt =====
-- Decoding what `cpt_to_utf8` wrote.
use pocket_llm.Prelude.{
  ℕ, bit_and, Option-cases, inl, inr, zero, suc, ◌+◌, ◌*◌, ◌/◌, ◌%◌, ◌^◌, ◌≤◌, ◌<◌, ◌≡◌, refl, ap,
  ◌∙◌, List, [], ◌∷◌, ◌++◌, some, Bytes, IsByte, All, length, length-append, length-drop, drop,
  arith,
}
use native.Mathlib.Nat.{pow-suc, mul-le-mul_right}
use pocket_llm.Prelude.Bits
use pocket_llm.Tokenizer.Utf8.{
  cpt_to_utf8, lead_byte, continuation, next_cpt, cpts_loop, cpts_from_utf8, utf8_text,
}

next_cpt_ascii : (c : ℕ) (rest : Bytes) → c < 0x80 → next_cpt c rest ≡ (c, 0)
unfolding next_cpt lead_byte continuation
next_cpt_ascii c rest h = ground arith

next_cpt_two :
    (a b : ℕ) (rest : Bytes)
    → a < 32
    → b < 64
    → next_cpt (192 + a) ((128 + b) ∷ rest) ≡ (a * 64 + b, 1)
unfolding next_cpt lead_byte continuation
next_cpt_two a b rest ha hb = ground (
  arith,
  Bits.and_0xe0 (192 + a),
  Bits.and_0x1f (192 + a),
  Bits.and_0xc0 (128 + b),
  Bits.and_0x3f (128 + b),
)

next_cpt_three :
    (a b c : ℕ) (rest : Bytes)
    → a < 16
    → b < 64
    → c < 64
    → next_cpt (224 + a) ((128 + b) ∷ (128 + c) ∷ rest) ≡ ((a * 64 + b) * 64 + c, 2)
unfolding next_cpt lead_byte continuation
next_cpt_three a b c rest ha hb hc = ground (
  arith,
  Bits.and_0xe0 (224 + a),
  Bits.and_0xf0 (224 + a),
  Bits.and_0x0f (224 + a),
  Bits.and_0xc0 (128 + b),
  Bits.and_0x3f (128 + b),
  Bits.and_0xc0 (128 + c),
  Bits.and_0x3f (128 + c),
)

next_cpt_four :
    (a b c d : ℕ) (rest : Bytes)
    → a < 8
    → b < 64
    → c < 64
    → d < 64
    → next_cpt (240 + a) ((128 + b) ∷ (128 + c) ∷ (128 + d) ∷ rest)
      ≡ (((a * 64 + b) * 64 + c) * 64 + d, 3)
unfolding next_cpt lead_byte continuation
next_cpt_four a b c d rest ha hb hc hd = ground (
  arith,
  Bits.and_0xe0 (240 + a),
  Bits.and_0xf0 (240 + a),
  Bits.and_0xf8 (240 + a),
  Bits.and_0x07 (240 + a),
  Bits.and_0xc0 (128 + b),
  Bits.and_0x3f (128 + b),
  Bits.and_0xc0 (128 + c),
  Bits.and_0x3f (128 + c),
  Bits.and_0xc0 (128 + d),
  Bits.and_0x3f (128 + d),
)

-- The codepoints that four bytes can hold.
abbrev pub IsCodepoint : ℕ → Type 0
IsCodepoint c = c < 2 ^ 21

-- The loop on what one codepoint was written as, with more text behind it.
cpts_loop-cpt_to_utf8 :
    (fuel c : ℕ) (rest : Bytes)
    → IsCodepoint c
    → cpts_loop (suc fuel) (cpt_to_utf8 c ++ rest) ≡ c ∷ cpts_loop fuel rest
unfolding cpts_loop cpt_to_utf8
cpts_loop-cpt_to_utf8 fuel c rest h = ground (
  arith,
  Bits.or_0xc0 (c / 64),
  Bits.or_0xe0 (c / 4096),
  Bits.or_0xf0 (c / 262144),
  Bits.or_0x80 (c % 64),
  Bits.or_0x80 (c / 64 % 64),
  Bits.or_0x80 (c / 4096 % 64),
  next_cpt_ascii c rest,
  next_cpt_two (c / 64) (c % 64) rest,
  next_cpt_three (c / 4096) (c / 64 % 64) (c % 64) rest,
  next_cpt_four (c / 262144) (c / 4096 % 64) (c / 64 % 64) (c % 64) rest,
)

length-cpt_to_utf8 : (c : ℕ) → 1 ≤ length (cpt_to_utf8 c)
unfolding cpt_to_utf8
length-cpt_to_utf8 c = ground arith

cpts_loop-utf8_text :
    (cpts : List ℕ) (fuel : ℕ)
    → All IsCodepoint cpts
    → length (utf8_text cpts) ≤ fuel
    → cpts_loop fuel (utf8_text cpts) ≡ cpts
unfolding utf8_text
cpts_loop-utf8_text [] fuel h enough = unfold cpts_loop in refl
cpts_loop-utf8_text (c ∷ cpts) zero h enough =
    absurd (omega (arith, length-cpt_to_utf8 c, length-append (cpt_to_utf8 c) (utf8_text cpts)))
cpts_loop-utf8_text (c ∷ cpts) (suc fuel) h enough =
    cpts_loop-cpt_to_utf8 fuel c (utf8_text cpts) h.0
    ∙ ap (λ r. c ∷ r)
        (cpts_loop-utf8_text cpts fuel h.1
          (omega (arith, length-cpt_to_utf8 c, length-append (cpt_to_utf8 c) (utf8_text cpts))))

-- Decoding the UTF-8 text of a list of codepoints gives the list back, for every codepoint below
-- 2 ^ 21, the surrogates included.
pub cpts_from_utf8-utf8_text :
    (cpts : List ℕ) → All IsCodepoint cpts → cpts_from_utf8 (utf8_text cpts) ≡ cpts
unfolding cpts_from_utf8
cpts_from_utf8-utf8_text cpts h = cpts_loop-utf8_text cpts _ h (omega arith)

continuation-lt :
    (extra cpt : ℕ) (bytes : Bytes) (r : ℕ)
    → All IsByte bytes
    → continuation extra cpt bytes ≡ some r
    → r < (cpt + 1) * 64 ^ extra
unfolding continuation
continuation-lt zero cpt bytes r h e = ground arith
continuation-lt (suc extra) cpt [] r h e = cc
continuation-lt (suc extra) cpt (b ∷ bytes) r h e =
    let payload : bit_and b 0x3f ≤ 63 = omega (arith, Bits.and_0x3f b h.0) in
    let rest : r < (cpt * 2 ^ 6 + bit_and b 0x3f + 1) * 64 ^ extra =
      continuation-lt extra (cpt * 2 ^ 6 + bit_and b 0x3f) bytes r h.1 (ground arith) in
    omega (
      arith,
      rest,
      ap (λ (t : ℕ). (cpt + 1) * t) (pow-suc 64 extra),
      mul-le-mul_right (64 ^ extra)
          (let fits : cpt * 2 ^ 6 + bit_and b 0x3f + 1 ≤ (cpt + 1) * 64 = omega arith in fits),
    )

lead_byte-lt :
    (b0 extra bits : ℕ)
    → IsByte b0
    → lead_byte b0 ≡ some (extra, bits)
    → (bits + 1) * 64 ^ extra ≤ 2 ^ 21
unfolding lead_byte
lead_byte-lt b0 extra bits h e =
    ground (arith, Bits.and_0x1f b0 h, Bits.and_0x0f b0 h, Bits.and_0x07 b0 h)

next_cpt-IsCodepoint :
    (b0 : ℕ) (rest : Bytes) → IsByte b0 → All IsByte rest → IsCodepoint (next_cpt b0 rest).0
unfolding next_cpt
next_cpt-IsCodepoint b0 rest h k = elim (Option-cases (lead_byte b0)) [
  | inl e ↦ rw (e, next_cpt) (omega arith)
  | inr ((extra, bits), e) ↦
      rw (e, next_cpt)
        (elim (Option-cases (continuation extra bits rest)) [
          | inl e' ↦ rw e' (ground arith)
          | inr (c, e') ↦ rw e' (
              ground
                (arith, lead_byte-lt b0 extra bits h e, continuation-lt extra bits rest c k e'))
        ])
]

-- Each round stays inside the text.
pub next_cpt-le-length : (b0 : ℕ) (rest : Bytes) → (next_cpt b0 rest).1 ≤ length rest
unfolding next_cpt
next_cpt-le-length b0 rest = ground arith

All-drop {ℓ κ} : {A : Type ℓ} (P : A → Type κ) (n : ℕ) (xs : List A) → All P xs → All P (drop n xs)
All-drop P zero xs h = h
All-drop P (suc n) [] h = h
All-drop P (suc n) (x ∷ xs) h = All-drop P n xs h.1

cpts_loop-IsCodepoint :
    (fuel : ℕ) (text : Bytes) → All IsByte text → All IsCodepoint (cpts_loop fuel text)
unfolding cpts_loop
cpts_loop-IsCodepoint fuel [] h = tt
cpts_loop-IsCodepoint zero (b0 ∷ rest) h = tt
cpts_loop-IsCodepoint (suc fuel) (b0 ∷ rest) h = (
  next_cpt-IsCodepoint b0 rest h.0 h.1,
  cpts_loop-IsCodepoint fuel (drop (next_cpt b0 rest).1 rest)
      (All-drop IsByte (next_cpt b0 rest).1 rest h.1),
)

pub cpts_from_utf8-IsCodepoint :
    (text : Bytes) → All IsByte text → All IsCodepoint (cpts_from_utf8 text)
unfolding cpts_from_utf8
cpts_from_utf8-IsCodepoint text h = cpts_loop-IsCodepoint (length text) text h

-- On any bytes, well formed or not, writing the decoded codepoints out again gives a text that
-- decodes to the same codepoints: one pass normalises the text.
pub recode_stable :
    (text : Bytes)
    → All IsByte text
    → cpts_from_utf8 (utf8_text (cpts_from_utf8 text)) ≡ cpts_from_utf8 text
recode_stable text h = cpts_from_utf8-utf8_text _ (cpts_from_utf8-IsCodepoint text h)

-- The fuel that `cpts_from_utf8` takes is enough: more of it changes nothing.
cpts_loop_fuel :
    (fuel more : ℕ) (text : Bytes)
    → length text ≤ fuel
    → length text ≤ more
    → cpts_loop fuel text ≡ cpts_loop more text
unfolding cpts_loop
cpts_loop_fuel fuel more [] h k = ground arith
cpts_loop_fuel zero more (b0 ∷ rest) h k = absurd (omega arith)
cpts_loop_fuel (suc fuel) zero (b0 ∷ rest) h k = absurd (omega arith)
cpts_loop_fuel (suc fuel) (suc more) (b0 ∷ rest) h k =
    ap (λ r. (next_cpt b0 rest).0 ∷ r)
      (cpts_loop_fuel fuel more (drop (next_cpt b0 rest).1 rest)
        (omega (arith, length-drop (next_cpt b0 rest).1 rest))
        (omega (arith, length-drop (next_cpt b0 rest).1 rest)))

-- The loop of `cpts_from_utf8`, without fuel.
pub cpts_from_utf8-cons :
    (b0 : ℕ) (rest : Bytes)
    → cpts_from_utf8 (b0 ∷ rest)
      ≡ (next_cpt b0 rest).0 ∷ cpts_from_utf8 (drop (next_cpt b0 rest).1 rest)
unfolding cpts_from_utf8 cpts_loop
cpts_from_utf8-cons b0 rest =
    ap (λ r. (next_cpt b0 rest).0 ∷ r)
      (cpts_loop_fuel (length rest) _ (drop (next_cpt b0 rest).1 rest)
        (omega (arith, length-drop (next_cpt b0 rest).1 rest)) (omega arith))
