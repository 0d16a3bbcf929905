-- ===== src/Prelude/Int.antt =====
-- Signed integers over the native numbers, and the int64_t that a two's complement pattern stands for.
use Prim.Native.Nat.{ℕ, ◌-◌, ◌^◌}
use pocket_llm.Prelude.Tests.{ltb, if◌then◌else◌}

-- `negsuc n` is -(n + 1).
pub data ℤ : Type 0 where
  pos : ℕ → ℤ
  negsuc : ℕ → ℤ

-- The value of the pattern `v` of `w` bits.
abbrev pub signed : ℕ → ℕ → ℤ
signed w v = if ltb v (2 ^ (w - 1)) then pos v else negsuc (2 ^ w - v - 1)

-- The pattern of 64 bits: the cast to uint64_t.
abbrev pub to_u64 : ℤ → ℕ
to_u64 (pos n) = n
to_u64 (negsuc n) = 2 ^ 64 - n - 1
