-- ===== src/Kernel/Repack/Pairs.antt =====
-- The twelve scale bytes hold eight pairs of six-bit values (src/kernel/repack_q4k.cpp).
use pocket_llm.Prelude.{
  ℕ, zero, suc, ◌+◌, ◌-◌, ◌*◌, ◌/◌, ◌%◌, ◌^◌, ◌<◌, ◌≡◌, refl, ap, ◌∙◌, bit_and, bit_or, get_or,
  true, false, ltb, arith, holds_below, eq_below,
}
use pocket_llm.Quant.Scales.{and_63, and_15, pair_eq, low_six, low_nibble, high_nibble}
use pocket_llm.Kernel.Repack.{Panel, six_bits, scale_bytes, panel_pair}
use pocket_llm.Kernel.Repack.Expanded.{and_3}

or_low_six : (z : ℕ) → z < 256 → bit_or (z % 64) (z / 64 * 64) ≡ z
unfolding holds_below
or_low_six = eq_below 256 _ _ refl

and_48 : (b : ℕ) → b < 64 → bit_and b 48 ≡ b / 16 * 16
unfolding holds_below
and_48 = eq_below 64 _ _ refl

or_low_nibble : (z : ℕ) → z < 256 → bit_or (z % 16) (z / 16 * 16) ≡ z
unfolding holds_below
or_low_nibble = eq_below 256 _ _ refl

pub or_high_nibble : (z : ℕ) → z < 64 → bit_or (z / 16 * 16) (z % 16) ≡ z
unfolding holds_below
or_high_nibble = eq_below 64 _ _ refl

six_bits_lem : (lo hi : ℕ) → lo < 64 → hi < 64 → six_bits lo hi ≡ lo + hi / 16 * 64
unfolding six_bits
six_bits_lem lo hi hl hh =
    let z = lo + hi / 16 * 64 in
    let low : bit_and lo 63 ≡ z % 64 = and_63 lo (omega arith) ∙ omega arith in
    let high : bit_and hi 48 * 2 ^ 2 ≡ z / 64 * 64 = omega (arith, and_48 hi hh) in
    rw (low, high) (or_low_six z (omega arith))

nibbles_lem :
    (a b : ℕ)
    → a < 64
    → b < 64
    → bit_or (bit_and a 15) (bit_and b 15 * 2 ^ 4) ≡ a % 16 + b % 16 * 16
nibbles_lem a b ha hb =
    let z = a % 16 + b % 16 * 16 in
    let low : bit_and a 15 ≡ z % 16 = and_15 a (omega arith) ∙ omega arith in
    let high : bit_and b 15 * 2 ^ 4 ≡ z / 16 * 16 = omega (arith, and_15 b (omega arith)) in
    rw (low, high) (or_low_nibble z (omega arith))

-- A scale of the first four columns, and one of the last four with a minimum beside it.
own_six : (x y : ℕ) → x < 64 → y < 64 → bit_and (six_bits x y) 63 ≡ x
own_six x y hx hy = rw (six_bits_lem x y hx hy) (low_six x y hx hy)

low_part :
    (a x y : ℕ)
    → a < 64
    → x < 64
    → y < 64
    → bit_or
        (bit_and (bit_or (bit_and x 15) (bit_and y 15 * 2 ^ 4)) 0x0f)
        (bit_and (six_bits a x / 2 ^ 6) 0x03 * 2 ^ 4)
      ≡ x
low_part a x y ha hx hy =
    let top : bit_and ((a + x / 16 * 64) / 2 ^ 6) 3 ≡ (a + x / 16 * 64) / 2 ^ 6 =
      and_3 ((a + x / 16 * 64) / 2 ^ 6) (omega arith) ∙ omega arith in
    rw (nibbles_lem x y hx hy, six_bits_lem a x ha hx, top) (low_nibble a x y ha hx hy)

high_part :
    (a x y : ℕ)
    → a < 64
    → x < 64
    → y < 64
    → bit_or
        (bit_and (bit_or (bit_and x 15) (bit_and y 15 * 2 ^ 4) / 2 ^ 4) 0x0f)
        (bit_and (six_bits a y / 2 ^ 6) 0x03 * 2 ^ 4)
      ≡ y
high_part a x y ha hx hy =
    let top : bit_and ((a + y / 16 * 64) / 2 ^ 6) 3 ≡ (a + y / 16 * 64) / 2 ^ 6 =
      and_3 ((a + y / 16 * 64) / 2 ^ 6) (omega arith) ∙ omega arith in
    let nibble : bit_and ((x % 16 + y % 16 * 16) / 2 ^ 4) 0x0f ≡ (x % 16 + y % 16 * 16) / 2 ^ 4 =
      and_15 ((x % 16 + y % 16 * 16) / 2 ^ 4) (omega arith) ∙ omega arith in
    rw (nibbles_lem x y hx hy, six_bits_lem a y ha hy, top, nibble) (high_nibble a x y ha hx hy)

-- Eight pairs of six-bit values come out of the twelve bytes as they went in.
module _ (o : Panel) (g : ℕ) (sv mv : ℕ → ℕ) (hs : (j : ℕ) → sv j < 64) (hm : (j : ℕ) → mv j < 64)
    (h : (k : ℕ) → k < 12 → o.scales (12 * g + k) ≡ get_or (scale_bytes sv mv) k 0) where
  own_pair :
      (r : ℕ)
      → r < 4
      → get_or (scale_bytes sv mv) r 0 ≡ six_bits (sv r) (sv (r + 4))
      → get_or (scale_bytes sv mv) (4 + r) 0 ≡ six_bits (mv r) (mv (r + 4))
      → panel_pair o g r ≡ (sv r, mv r)
  unfolding panel_pair
  own_pair r lt e f =
      let test : ltb r 4 ≡ true = ground arith in
      rw test (
        pair_eq
          (ap (λ b. bit_and b 63) (h r (omega (arith, lt)) ∙ e) ∙ own_six _ _ (hs r) (hs (r + 4)))
          (ap (λ b. bit_and b 63) (h (4 + r) (omega (arith, lt)) ∙ f)
            ∙ own_six _ _ (hm r) (hm (r + 4))))

  shared_pair :
      (c : ℕ)
      → c < 4
      → get_or (scale_bytes sv mv) c 0 ≡ six_bits (sv c) (sv (c + 4))
      → get_or (scale_bytes sv mv) (4 + c) 0 ≡ six_bits (mv c) (mv (c + 4))
      → get_or (scale_bytes sv mv) (8 + c) 0
        ≡ bit_or (bit_and (sv (c + 4)) 15) (bit_and (mv (c + 4)) 15 * 2 ^ 4)
      → panel_pair o g (c + 4) ≡ (sv (c + 4), mv (c + 4))
  unfolding panel_pair
  shared_pair c lt e f n =
      let test : ltb (c + 4) 4 ≡ false = ground arith in
      let back : c + 4 - 4 ≡ c = omega arith in
      rw (test, back)
        (pair_eq
          (rw (h (8 + c) (omega (arith, lt)) ∙ n, h c (omega (arith, lt)) ∙ e)
            (low_part (sv c) (sv (c + 4)) (mv (c + 4)) (hs c) (hs (c + 4)) (hm (c + 4))))
          (rw (h (8 + c) (omega (arith, lt)) ∙ n, h (4 + c) (omega (arith, lt)) ∙ f)
            (high_part (mv c) (sv (c + 4)) (mv (c + 4)) (hm c) (hs (c + 4)) (hm (c + 4)))))

  pub pair_lem : (r : ℕ) → r < 8 → panel_pair o g r ≡ (sv r, mv r)
  unfolding scale_bytes
  pair_lem zero lt = own_pair 0 (omega arith) refl refl
  pair_lem (suc zero) lt = own_pair 1 (omega arith) refl refl
  pair_lem (suc (suc zero)) lt = own_pair 2 (omega arith) refl refl
  pair_lem (suc (suc (suc zero))) lt = own_pair 3 (omega arith) refl refl
  pair_lem (suc (suc (suc (suc zero)))) lt = shared_pair 0 (omega arith) refl refl refl
  pair_lem (suc (suc (suc (suc (suc zero))))) lt = shared_pair 1 (omega arith) refl refl refl
  pair_lem (suc (suc (suc (suc (suc (suc zero)))))) lt = shared_pair 2 (omega arith) refl refl refl
  pair_lem (suc (suc (suc (suc (suc (suc (suc zero))))))) lt =
      shared_pair 3 (omega arith) refl refl refl
  pair_lem (suc (suc (suc (suc (suc (suc (suc (suc r)))))))) lt = absurd (omega arith)
