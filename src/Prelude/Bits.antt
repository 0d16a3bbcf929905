-- ===== src/Prelude/Bits.antt =====
-- Masks on one byte as arithmetic. Each is a table of at most 256 entries, checked by evaluation.
-- On wider words the code's low masks `x & (2^k - 1)` are written `x % 2 ^ k`.
use Prim.Native.Nat.{ℕ, ◌+◌, ◌*◌, ◌/◌, ◌%◌, ◌<◌, bit_and, bit_or}
use mathlib.Core.Path.{◌≡◌, refl}
use pocket_llm.Prelude.Text.{holds_below, eq_below}

pub and_0x80 : (b : ℕ) → b < 256 → bit_and b 0x80 ≡ b / 128 * 128
unfolding holds_below
and_0x80 = eq_below 256 _ _ refl

pub and_0xc0 : (b : ℕ) → b < 256 → bit_and b 0xc0 ≡ b / 64 * 64
unfolding holds_below
and_0xc0 = eq_below 256 _ _ refl

pub and_0xe0 : (b : ℕ) → b < 256 → bit_and b 0xe0 ≡ b / 32 * 32
unfolding holds_below
and_0xe0 = eq_below 256 _ _ refl

pub and_0xf0 : (b : ℕ) → b < 256 → bit_and b 0xf0 ≡ b / 16 * 16
unfolding holds_below
and_0xf0 = eq_below 256 _ _ refl

pub and_0xf8 : (b : ℕ) → b < 256 → bit_and b 0xf8 ≡ b / 8 * 8
unfolding holds_below
and_0xf8 = eq_below 256 _ _ refl

pub and_0x07 : (b : ℕ) → b < 256 → bit_and b 0x07 ≡ b % 8
unfolding holds_below
and_0x07 = eq_below 256 _ _ refl

pub and_0x0f : (b : ℕ) → b < 256 → bit_and b 0x0f ≡ b % 16
unfolding holds_below
and_0x0f = eq_below 256 _ _ refl

pub and_0x1f : (b : ℕ) → b < 256 → bit_and b 0x1f ≡ b % 32
unfolding holds_below
and_0x1f = eq_below 256 _ _ refl

pub and_0x3f : (b : ℕ) → b < 256 → bit_and b 0x3f ≡ b % 64
unfolding holds_below
and_0x3f = eq_below 256 _ _ refl

pub or_0x80 : (x : ℕ) → x < 128 → bit_or 0x80 x ≡ 128 + x
unfolding holds_below
or_0x80 = eq_below 128 _ _ refl

pub or_0xc0 : (x : ℕ) → x < 64 → bit_or 0xc0 x ≡ 192 + x
unfolding holds_below
or_0xc0 = eq_below 64 _ _ refl

pub or_0xe0 : (x : ℕ) → x < 32 → bit_or 0xe0 x ≡ 224 + x
unfolding holds_below
or_0xe0 = eq_below 32 _ _ refl

pub or_0xf0 : (x : ℕ) → x < 16 → bit_or 0xf0 x ≡ 240 + x
unfolding holds_below
or_0xf0 = eq_below 16 _ _ refl
