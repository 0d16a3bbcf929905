-- ===== src/Quant/Scales.antt =====
-- The 6-bit scales and minimums of `get_scale_min_k4` (src/quant/blocks.h), packed and unpacked.
use pocket_llm.Prelude.{
  ℕ, zero, suc, ◌+◌, ◌*◌, ◌/◌, ◌%◌, ◌^◌, ◌<◌, ◌≡◌, refl, ap, ◌∙◌, bit_and, bit_or, [], ◌∷◌, Bytes,
  arith, holds_below, eq_below,
}
use pocket_llm.Quant.Blocks.{as_byte, get_scale_min_k4}

-- The twelve bytes of the format: four bytes with a scale below and two bits of a later scale above,
-- four with a minimum likewise, and four with the low nibbles of the later pairs.
abbrev pub pack_scales : (scale minimum : ℕ → ℕ) → Bytes
pack_scales scale minimum =
    (scale 0 + scale 4 / 16 * 64)
    ∷ (scale 1 + scale 5 / 16 * 64)
    ∷ (scale 2 + scale 6 / 16 * 64)
    ∷ (scale 3 + scale 7 / 16 * 64)
    ∷ (minimum 0 + minimum 4 / 16 * 64)
    ∷ (minimum 1 + minimum 5 / 16 * 64)
    ∷ (minimum 2 + minimum 6 / 16 * 64)
    ∷ (minimum 3 + minimum 7 / 16 * 64)
    ∷ (scale 4 % 16 + minimum 4 % 16 * 16)
    ∷ (scale 5 % 16 + minimum 5 % 16 * 16)
    ∷ (scale 6 % 16 + minimum 6 % 16 * 16)
    ∷ (scale 7 % 16 + minimum 7 % 16 * 16)
    ∷ []

pub and_63 : (b : ℕ) → b < 256 → bit_and b 63 ≡ b % 64
unfolding holds_below
and_63 = eq_below 256 _ _ refl

pub and_15 : (b : ℕ) → b < 256 → bit_and b 0x0f ≡ b % 16
unfolding holds_below
and_15 = eq_below 256 _ _ refl

-- A nibble below two bits.
or_table : (x : ℕ) → x < 64 → bit_or (x % 16) (x / 16 * 16) ≡ x
unfolding holds_below
or_table = eq_below 64 _ _ refl

pub or_nibble : (x y : ℕ) → x < 16 → y < 4 → bit_or x (y * 16) ≡ x + y * 16
or_nibble x y hx hy =
    let low : x ≡ (x + y * 16) % 16 = omega arith in
    let high : y ≡ (x + y * 16) / 16 = omega arith in
    ap (λ a. bit_or a (y * 16)) low
    ∙ ap (λ b. bit_or ((x + y * 16) % 16) (b * 16)) high
    ∙ or_table (x + y * 16) (omega arith)

pub pair_eq : {a b c d : ℕ} → a ≡ c → b ≡ d → Path (ℕ × ℕ) (a, b) (c, d)
pair_eq e f = rw (e, f) refl

-- A byte that holds six bits and two bits of another value gives the six bits back.
pub low_six : (x y : ℕ) → x < 64 → y < 64 → bit_and (x + y / 16 * 64) 63 ≡ x
low_six x y hx hy = and_63 (x + y / 16 * 64) (omega arith) ∙ omega arith

-- Four low bits of a nibble byte and the two bits above a six-bit field are one value.
pub low_nibble :
    (a x y : ℕ)
    → a < 64
    → x < 64
    → y < 64
    → bit_or (bit_and (x % 16 + y % 16 * 16) 0x0f) ((a + x / 16 * 64) / 2 ^ 6 * 2 ^ 4) ≡ x
low_nibble a x y ha hx hy =
    ap (λ l. bit_or l ((a + x / 16 * 64) / 2 ^ 6 * 2 ^ 4))
      (and_15 (x % 16 + y % 16 * 16) (omega arith))
    ∙ or_nibble ((x % 16 + y % 16 * 16) % 16) ((a + x / 16 * 64) / 64) (omega arith) (omega arith)
    ∙ omega arith

pub high_nibble :
    (a x y : ℕ)
    → a < 64
    → x < 64
    → y < 64
    → bit_or ((x % 16 + y % 16 * 16) / 2 ^ 4) ((a + y / 16 * 64) / 2 ^ 6 * 2 ^ 4) ≡ y
high_nibble a x y ha hx hy =
    or_nibble ((x % 16 + y % 16 * 16) / 16) ((a + y / 16 * 64) / 64) (omega arith) (omega arith)
    ∙ omega arith

-- `get_scale_min_k4` unpacks every one of the eight pairs of six-bit values that the twelve bytes of a
-- block hold, those whose bits are spread over three bytes included.
pub get_scale_min_k4-pack_scales :
    (d0 d1 d2 d3 : ℕ) (scale minimum : ℕ → ℕ) (j : ℕ)
    → ((i : ℕ) → scale i < 64)
    → ((i : ℕ) → minimum i < 64)
    → j < 8
    → get_scale_min_k4 (d0 ∷ d1 ∷ d2 ∷ d3 ∷ pack_scales scale minimum) 4 j ≡ (scale j, minimum j)
unfolding get_scale_min_k4 as_byte
get_scale_min_k4-pack_scales d0 d1 d2 d3 s m zero hs hm h =
    pair_eq (low_six (s 0) (s 4) (hs 0) (hs 4)) (low_six (m 0) (m 4) (hm 0) (hm 4))
get_scale_min_k4-pack_scales d0 d1 d2 d3 s m (suc zero) hs hm h =
    pair_eq (low_six (s 1) (s 5) (hs 1) (hs 5)) (low_six (m 1) (m 5) (hm 1) (hm 5))
get_scale_min_k4-pack_scales d0 d1 d2 d3 s m (suc (suc zero)) hs hm h =
    pair_eq (low_six (s 2) (s 6) (hs 2) (hs 6)) (low_six (m 2) (m 6) (hm 2) (hm 6))
get_scale_min_k4-pack_scales d0 d1 d2 d3 s m (suc (suc (suc zero))) hs hm h =
    pair_eq (low_six (s 3) (s 7) (hs 3) (hs 7)) (low_six (m 3) (m 7) (hm 3) (hm 7))
get_scale_min_k4-pack_scales d0 d1 d2 d3 s m (suc (suc (suc (suc zero)))) hs hm h =
    pair_eq (low_nibble (s 0) (s 4) (m 4) (hs 0) (hs 4) (hm 4))
      (high_nibble (m 0) (s 4) (m 4) (hm 0) (hs 4) (hm 4))
get_scale_min_k4-pack_scales d0 d1 d2 d3 s m (suc (suc (suc (suc (suc zero))))) hs hm h =
    pair_eq (low_nibble (s 1) (s 5) (m 5) (hs 1) (hs 5) (hm 5))
      (high_nibble (m 1) (s 5) (m 5) (hm 1) (hs 5) (hm 5))
get_scale_min_k4-pack_scales d0 d1 d2 d3 s m (suc (suc (suc (suc (suc (suc zero)))))) hs hm h =
    pair_eq (low_nibble (s 2) (s 6) (m 6) (hs 2) (hs 6) (hm 6))
      (high_nibble (m 2) (s 6) (m 6) (hm 2) (hs 6) (hm 6))
get_scale_min_k4-pack_scales d0 d1 d2 d3 s m (suc (suc (suc (suc (suc (suc (suc zero))))))) hs hm
      h =
    pair_eq (low_nibble (s 3) (s 7) (m 7) (hs 3) (hs 7) (hm 7))
      (high_nibble (m 3) (s 7) (m 7) (hm 3) (hs 7) (hm 7))
get_scale_min_k4-pack_scales d0 d1 d2 d3 s m (suc (suc (suc (suc (suc (suc (suc (suc j)))))))) hs hm
      h =
    absurd (omega arith)
