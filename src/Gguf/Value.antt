-- ===== src/Gguf/Value.antt =====
-- `read_array` and `read_value` of src/gguf/reader.cpp. A floating-point number is its bit pattern.
pub mod RoundTrip
use pocket_llm.Prelude.{
  ℕ, zero, suc, ◌+◌, Bool, true, false, not, List, [], ◌∷◌, Bytes, ◌==◌, if◌then◌else◌,
}
use pocket_llm.Prelude.Int.{ℤ, signed}
use pocket_llm.Gguf.Cursor.{
  Error, nested_array, bad_array_type, bad_type, Result, ok, err, Reader, ◌>>=◌, pure, throw,
  read_scalar, read_string,
}

-- A `double`: its own bits, or the widening of the `float` of these bits.
pub data Double : Type 0 where
  double : ℕ → Double
  widened : ℕ → Double

pub record GgufArray : Type 0 where
  pub value_type : ℕ
  pub length : ℕ
  pub ints : List ℤ
  pub floats : List Double
  pub strings : List Bytes
  pub bools : List Bool

pub data GgufValue : Type 0 where
  int : ℤ → GgufValue
  float : Double → GgufValue
  bool : Bool → GgufValue
  string : Bytes → GgufValue
  array : GgufArray → GgufValue

-- `MetadataType`
pub data MetadataType : Type 0 where
  uint8 int8 uint16 int16 uint32 int32 float32 boolean text sequence uint64 int64 float64 :
      MetadataType
  other : ℕ → MetadataType

unfoldable pub metadata_type : ℕ → MetadataType
metadata_type type =
    if type == 0
    then uint8
    else if type == 1
    then int8
    else if type == 2
    then uint16
    else if type == 3
    then int16
    else if type == 4
    then uint32
    else if type == 5
    then int32
    else if type == 6
    then float32
    else if type == 7
    then boolean
    else if type == 8
    then text
    else if type == 9
    then sequence
    else if type == 10
    then uint64
    else if type == 11
    then int64
    else if type == 12
    then float64
    else other type

-- `for (i = 0; i < count; ++i) push_back(item)`
unfoldable pub read_many {ℓ} : {A : Type ℓ} → Reader A → ℕ → Reader (List A)
read_many item zero = pure []
read_many item (suc count) = do a ← item; rest ← read_many item count; pure (a ∷ rest)

-- An unsigned or signed integer of `size` bytes and `width` bits, in an int64_t. The cast of a
-- uint64_t keeps its bits.
unfoldable pub read_unsigned : ℕ → Reader ℤ
read_unsigned size = do v ← read_scalar size; pure (signed 64 v)

unfoldable pub read_signed : ℕ → ℕ → Reader ℤ
read_signed size width = do v ← read_scalar size; pure (signed width v)

unfoldable pub read_bool : Reader Bool
read_bool = do b ← read_scalar 1; pure (not (b == 0))

unfoldable pub read_float : Reader Double
read_float = do bits ← read_scalar 4; pure (widened bits)

unfoldable pub read_double : Reader Double
read_double = do bits ← read_scalar 8; pure (double bits)

abbrev pub empty_array : ℕ → ℕ → GgufArray
empty_array value_type length = record {
  value_type = value_type;
  length = length;
  ints = [];
  floats = [];
  strings = [];
  bools = [];
}

abbrev pub ints_array : ℕ → ℕ → Reader ℤ → Reader GgufArray
ints_array value_type length item = do
  ints ← read_many item length
  pure (record (empty_array value_type length) { ints = ints })

abbrev pub floats_array : ℕ → ℕ → Reader Double → Reader GgufArray
floats_array value_type length item = do
  floats ← read_many item length
  pure (record (empty_array value_type length) { floats = floats })

abbrev pub strings_array : ℕ → ℕ → Reader GgufArray
strings_array value_type length = do
  strings ← read_many read_string length
  pure (record (empty_array value_type length) { strings = strings })

abbrev pub bools_array : ℕ → ℕ → Reader GgufArray
bools_array value_type length = do
  bools ← read_many read_bool length
  pure (record (empty_array value_type length) { bools = bools })

-- The loop with the unsupported item type: it throws at the first item, if there is one.
unfoldable pub read_array_of : MetadataType → ℕ → ℕ → Reader GgufArray
read_array_of text t n = strings_array t n
read_array_of boolean t n = bools_array t n
read_array_of float32 t n = floats_array t n read_float
read_array_of float64 t n = floats_array t n read_double
read_array_of sequence t n = throw nested_array
read_array_of uint8 t n = ints_array t n (read_unsigned 1)
read_array_of int8 t n = ints_array t n (read_signed 1 8)
read_array_of uint16 t n = ints_array t n (read_unsigned 2)
read_array_of int16 t n = ints_array t n (read_signed 2 16)
read_array_of uint32 t n = ints_array t n (read_unsigned 4)
read_array_of int32 t n = ints_array t n (read_signed 4 32)
read_array_of uint64 t n = ints_array t n (read_unsigned 8)
read_array_of int64 t n = ints_array t n (read_signed 8 64)
read_array_of (other type) t n = ints_array t n (throw (bad_array_type type))

unfoldable pub read_array : ℕ → ℕ → Reader GgufArray
read_array item_type length = read_array_of (metadata_type item_type) item_type length

unfoldable pub read_value_of : MetadataType → Reader GgufValue
read_value_of uint8 = do v ← read_unsigned 1; pure (int v)
read_value_of int8 = do v ← read_signed 1 8; pure (int v)
read_value_of uint16 = do v ← read_unsigned 2; pure (int v)
read_value_of int16 = do v ← read_signed 2 16; pure (int v)
read_value_of uint32 = do v ← read_unsigned 4; pure (int v)
read_value_of int32 = do v ← read_signed 4 32; pure (int v)
read_value_of uint64 = do v ← read_unsigned 8; pure (int v)
read_value_of int64 = do v ← read_signed 8 64; pure (int v)
read_value_of float32 = do v ← read_float; pure (float v)
read_value_of float64 = do v ← read_double; pure (float v)
read_value_of boolean = do v ← read_bool; pure (bool v)
read_value_of text = do v ← read_string; pure (string v)
read_value_of sequence = do
  item_type ← read_scalar 4
  length ← read_scalar 8
  v ← read_array item_type length
  pure (array v)
read_value_of (other type) = throw (bad_type type)

unfoldable pub read_value : ℕ → Reader GgufValue
read_value type = read_value_of (metadata_type type)
