-- ===== src/Gguf/Tensor.antt =====
-- The accessors of `GgufReader` (src/gguf/reader.cpp): metadata by key, tensors by name, the mapping.
use pocket_llm.Prelude.{
  ℕ, ◌+◌, ◌-◌, ◌*◌, ◌/◌, ◌%◌, ◌^◌, Bool, true, false, Option, none, some, Bytes, ltb, leb, ◌==◌,
  if◌then◌else◌, get_elem?,
}
use pocket_llm.Prelude.Assoc.{bytes_eq, find as find_entry}
use pocket_llm.Prelude.Int.{ℤ, pos, negsuc}
use pocket_llm.Gguf.Cursor.{no_tensor, tensor_past_end, mapping_released, Result, ok, err, u64_mod}
use pocket_llm.Gguf.Value.{Double, double, widened, GgufValue, int, float, string}
use pocket_llm.Gguf.Parse.{TensorInfo, GgufReader}

-- The magnitude of the number with this exponent over a mantissa of `bits` bits, rounded towards 0.
abbrev magnitude : ℕ → ℕ → ℕ → ℕ → ℕ
magnitude bits bias exponent mantissa =
    if ltb exponent bias
    then 0
    else if leb (bias + bits) exponent
    then (2 ^ bits + mantissa) * 2 ^ (exponent - bias - bits)
    else (2 ^ bits + mantissa) / 2 ^ (bias + bits - exponent)

-- The int64_t of a magnitude and a sign; what is out of range, or no number, is undefined.
abbrev in_range : Bool → ℕ → Option ℤ
in_range negative n =
    if negative
    then if leb n (2 ^ 63) then some (if n == 0 then pos 0 else negsuc (n - 1)) else none
    else if ltb n (2 ^ 63)
    then some (pos n)
    else none

-- `static_cast<int64_t>(double)`, on the bit patterns of IEEE 754.
unfoldable pub truncate : Double → Option ℤ
truncate (double b) =
    let exponent = b / 2 ^ 52 % 2048 in
    if exponent == 2047
    then none
    else in_range (leb (2 ^ 63) b) (magnitude 52 1023 exponent (b % 2 ^ 52))
truncate (widened b) =
    let exponent = b / 2 ^ 23 % 256 in
    if exponent == 255
    then none
    else in_range (leb (2 ^ 31) b) (magnitude 23 127 exponent (b % 2 ^ 23))

-- A double that is stored, or the conversion of an int64_t.
pub data Number : Type 0 where
  stored : Double → Number
  converted : ℤ → Number

unfoldable pub find : GgufReader → Bytes → Option GgufValue
find reader key = elim (find_entry key reader.metadata) [
  | none ↦ none
  | some entry ↦ some entry.value
]

-- `none` is the undefined conversion.
unfoldable pub get_int : GgufReader → Bytes → ℤ → Option ℤ
get_int reader key fallback = elim (find reader key) [
  | none ↦ some fallback
  | some (int v) ↦ some v
  | some (float v) ↦ truncate v
  | some _ ↦ some fallback
]

unfoldable pub get_float : GgufReader → Bytes → Number → Number
get_float reader key fallback = elim (find reader key) [
  | none ↦ fallback
  | some (float v) ↦ stored v
  | some (int v) ↦ converted v
  | some _ ↦ fallback
]

unfoldable pub get_string : GgufReader → Bytes → Bytes → Bytes
get_string reader key fallback = elim (find reader key) [
  | none ↦ fallback
  | some (string v) ↦ v
  | some _ ↦ fallback
]

unfoldable pub tensor : GgufReader → Bytes → Option TensorInfo
tensor reader name = elim (find_entry name reader.tensor_index) [
  | none ↦ none
  | some i ↦ get_elem? reader.tensors i
]

-- The pointer is given as its offset in the mapping, with the number of bytes.
unfoldable pub tensor_data : GgufReader → Bytes → Result (ℕ × ℕ)
tensor_data reader name = elim (tensor reader name) [
  | none ↦ err (no_tensor name)
  | some info ↦
      if ltb reader.size ((info.absolute_offset + info.nbytes) % u64_mod)
      then err (tensor_past_end name)
      else elim reader.mapping [
        | none ↦ err (mapping_released name)
        | some file ↦ ok (info.absolute_offset, info.nbytes)
      ]
]

unfoldable pub release_mapping : GgufReader → GgufReader
release_mapping reader = record reader { mapping = none }

unfoldable pub mapping_held : GgufReader → Bool
mapping_held reader = elim reader.mapping [ none ↦ false | some file ↦ true ]
