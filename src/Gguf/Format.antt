-- ===== src/Gguf/Format.antt =====
-- The GGUF format as src/gguf/reader.h states it, written out: what a writer puts in a file's header.
use pocket_llm.Prelude.{ℕ, ◌^◌, ◌<◌, not, List, [], ◌∷◌, ◌++◌, map, Bytes, All, ◌==◌, codes, length}
use pocket_llm.Prelude.Int.{signed}
use pocket_llm.Gguf.Cursor.Exact.{le_bytes}
use pocket_llm.Gguf.Value.{
  double, widened, GgufArray, GgufValue, int, float, bool, string, array, empty_array,
}
use pocket_llm.Gguf.Parse.{MetadataEntry, TensorRecord}

-- The types of the format whose values have a fixed size.
pub data ScalarType : Type 0 where
  u8 i8 u16 i16 u32 i32 f32 flag u64 i64 f64 : ScalarType

abbrev pub type_id : ScalarType → ℕ
type_id u8 = 0
type_id i8 = 1
type_id u16 = 2
type_id i16 = 3
type_id u32 = 4
type_id i32 = 5
type_id f32 = 6
type_id flag = 7
type_id u64 = 10
type_id i64 = 11
type_id f64 = 12

abbrev pub size_of : ScalarType → ℕ
size_of u8 = 1
size_of i8 = 1
size_of u16 = 2
size_of i16 = 2
size_of u32 = 4
size_of i32 = 4
size_of f32 = 4
size_of flag = 1
size_of u64 = 8
size_of i64 = 8
size_of f64 = 8

-- The value of a bit pattern.
abbrev pub scalar_value : ScalarType → ℕ → GgufValue
scalar_value u8 v = int (signed 64 v)
scalar_value i8 v = int (signed 8 v)
scalar_value u16 v = int (signed 64 v)
scalar_value i16 v = int (signed 16 v)
scalar_value u32 v = int (signed 64 v)
scalar_value i32 v = int (signed 32 v)
scalar_value f32 v = float (widened v)
scalar_value flag v = bool (not (v == 0))
scalar_value u64 v = int (signed 64 v)
scalar_value i64 v = int (signed 64 v)
scalar_value f64 v = float (double v)

abbrev pub array_value : ScalarType → List ℕ → GgufArray
array_value u8 vs = record (empty_array 0 (length vs)) { ints = map (signed 64) vs }
array_value i8 vs = record (empty_array 1 (length vs)) { ints = map (signed 8) vs }
array_value u16 vs = record (empty_array 2 (length vs)) { ints = map (signed 64) vs }
array_value i16 vs = record (empty_array 3 (length vs)) { ints = map (signed 16) vs }
array_value u32 vs = record (empty_array 4 (length vs)) { ints = map (signed 64) vs }
array_value i32 vs = record (empty_array 5 (length vs)) { ints = map (signed 32) vs }
array_value f32 vs = record (empty_array 6 (length vs)) { floats = map widened vs }
array_value flag vs = record (empty_array 7 (length vs)) { bools = map (λ v. not (v == 0)) vs }
array_value u64 vs = record (empty_array 10 (length vs)) { ints = map (signed 64) vs }
array_value i64 vs = record (empty_array 11 (length vs)) { ints = map (signed 64) vs }
array_value f64 vs = record (empty_array 12 (length vs)) { floats = map double vs }

-- A metadata value to write: a bit pattern, a string, or an array of either.
pub data Stored : Type 0 where
  number : ScalarType → ℕ → Stored
  text : Bytes → Stored
  scalars : ScalarType → List ℕ → Stored
  texts : List Bytes → Stored

abbrev pub stored_type : Stored → ℕ
stored_type (number t v) = type_id t
stored_type (text s) = 8
stored_type (scalars t vs) = 9
stored_type (texts ss) = 9

abbrev pub stored_value : Stored → GgufValue
stored_value (number t v) = scalar_value t v
stored_value (text s) = string s
stored_value (scalars t vs) = array (array_value t vs)
stored_value (texts ss) = array (record (empty_array 8 (length ss)) { strings = ss })

-- What the fields of the format can hold.
abbrev pub FitsText : Bytes → Type 0
FitsText s = length s < 2 ^ 64

abbrev pub Fits : Stored → Type 0
Fits (number t v) = v < 256 ^ size_of t
Fits (text s) = FitsText s
Fits (scalars t vs) = (length vs < 2 ^ 64) × All (λ v. v < 256 ^ size_of t) vs
Fits (texts ss) = (length ss < 2 ^ 64) × All FitsText ss

abbrev pub write_string : Bytes → Bytes
write_string s = le_bytes 8 (length s) ++ s

abbrev pub write_many {ℓ} : {A : Type ℓ} → (A → Bytes) → List A → Bytes
write_many w [] = []
write_many w (x ∷ xs) = w x ++ write_many w xs

abbrev pub write_stored : Stored → Bytes
write_stored (number t v) = le_bytes (size_of t) v
write_stored (text s) = write_string s
write_stored (scalars t vs) =
    le_bytes 4 (type_id t) ++ (le_bytes 8 (length vs) ++ write_many (le_bytes (size_of t)) vs)
write_stored (texts ss) = le_bytes 4 8 ++ (le_bytes 8 (length ss) ++ write_many write_string ss)

abbrev pub write_entry : Bytes × Stored → Bytes
write_entry (key, v) = write_string key ++ (le_bytes 4 (stored_type v) ++ write_stored v)

abbrev pub entry_of : Bytes × Stored → Bytes × MetadataEntry
entry_of (key, v) = (key, record { type = stored_type v; value = stored_value v })

abbrev pub FitsEntry : Bytes × Stored → Type 0
FitsEntry (key, v) = FitsText key × Fits v

abbrev pub write_record : TensorRecord → Bytes
write_record t =
    write_string t.name
    ++ (le_bytes 4 (length t.dimensions)
        ++ (write_many (le_bytes 8) t.dimensions ++ (le_bytes 4 t.type_id ++ le_bytes 8 t.offset)))

pub record FitsRecord (t : TensorRecord) : Type 0 where
  pub name : FitsText t.name
  pub rank : length t.dimensions < 2 ^ 32
  pub dimensions : All (λ d. d < 2 ^ 64) t.dimensions
  pub type_id : t.type_id < 2 ^ 32
  pub offset : t.offset < 2 ^ 64

-- The header of a file: the number of tensors stands before the number of metadata entries.
abbrev pub write_header : ℕ → List (Bytes × Stored) → List TensorRecord → Bytes
write_header version entries records =
    codes "GGUF"
    ++ (le_bytes 4 version
        ++ (le_bytes 8 (length records)
            ++ (le_bytes 8 (length entries)
                ++ (write_many write_entry entries ++ write_many write_record records))))
