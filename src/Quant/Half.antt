-- ===== src/Quant/Half.antt =====
-- src/quant/half.h: half-precision numbers, as bit patterns.
use pocket_llm.Prelude.{
  ℕ, zero, suc, ◌+◌, ◌-◌, ◌*◌, ◌/◌, ◌^◌, bit_and, bit_or, Bytes, ◌==◌, if◌then◌else◌, get_or,
}

-- `load_u16`, little-endian.
unfoldable pub load_u16 : Bytes → ℕ
load_u16 p = get_or p 0 0 + 256 * get_or p 1 0

-- The loop that shifts a subnormal mantissa up to its leading bit: the exponent and the mantissa. A
-- mantissa that is not 0 has that bit after ten rounds.
unfoldable pub normalize : ℕ → ℕ → ℕ → ℕ × ℕ
normalize zero mantissa e = (e, mantissa)
normalize (suc fuel) mantissa e =
    let rest = normalize fuel (mantissa * 2) (e - 1) in
    if bit_and mantissa 0x400 == 0 then rest else (e, mantissa)

-- `half_to_float`: the pattern of the float.
unfoldable pub half_to_float : ℕ → ℕ
half_to_float h =
    let sign = bit_and h 0x8000 * 2 ^ 16 in
    let exponent = bit_and (h / 2 ^ 10) 0x1f in
    let mantissa = bit_and h 0x3ff in
    if exponent == 0
    then (if mantissa == 0
        then sign
        else let (e, m) = normalize 10 mantissa (127 - 15 + 1) in
          bit_or (bit_or sign (e * 2 ^ 23)) (bit_and m 0x3ff * 2 ^ 13))
    else if exponent == 31
    then bit_or (bit_or sign 0x7f800000) (mantissa * 2 ^ 13)
    else bit_or (bit_or sign ((exponent - 15 + 127) * 2 ^ 23)) (mantissa * 2 ^ 13)

-- `bf16_to_float`
unfoldable pub bf16_to_float : ℕ → ℕ
bf16_to_float b = b * 2 ^ 16
