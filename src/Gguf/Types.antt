-- ===== src/Gguf/Types.antt =====
-- src/abi/spec.cpp: the geometry of the storage types, and `tensor_nbytes` of src/gguf/reader.cpp.
use pocket_llm.Prelude.{
  ℕ, ◌+◌, ◌-◌, ◌*◌, ◌/◌, ◌%◌, List, [], ◌∷◌, ◌++◌, Option, none, some, Bytes, ltb, leb, ◌==◌,
  if◌then◌else◌, get_or, codes,
}
use pocket_llm.Gguf.Cursor.{u64_mod}

-- `name` is a pointer: `none` is null.
pub record GgmlType : Type 0 where
  pub name : Option Bytes
  pub block_elems : ℕ
  pub block_bytes : ℕ

abbrev pub entry : Bytes → ℕ → ℕ → GgmlType
entry name elems bytes = record { name = some name; block_elems = elems; block_bytes = bytes }

abbrev hole : GgmlType
hole = entry [] 0 0

-- The initializers of `kGgmlTypes`, which stop at id 30.
unfoldable pub ggml_types : List GgmlType
ggml_types =
    entry (codes "f32") 1 4
    ∷ entry (codes "f16") 1 2
    ∷ entry (codes "q4_0") 32 18
    ∷ entry (codes "q4_1") 32 20
    ∷ hole
    ∷ hole
    ∷ entry (codes "q5_0") 32 22
    ∷ entry (codes "q5_1") 32 24
    ∷ entry (codes "q8_0") 32 34
    ∷ entry (codes "q8_1") 32 40
    ∷ entry (codes "q2_k") 256 84
    ∷ entry (codes "q3_k") 256 110
    ∷ entry (codes "q4_k") 256 144
    ∷ entry (codes "q5_k") 256 176
    ∷ entry (codes "q6_k") 256 210
    ∷ entry (codes "q8_k") 256 292
    ∷ entry (codes "iq2_xxs") 256 66
    ∷ entry (codes "iq2_xs") 256 74
    ∷ entry (codes "iq3_xxs") 256 98
    ∷ entry (codes "iq1_s") 256 50
    ∷ entry (codes "iq4_nl") 32 18
    ∷ entry (codes "iq3_s") 256 110
    ∷ entry (codes "iq2_s") 256 82
    ∷ entry (codes "iq4_xs") 256 136
    ∷ entry (codes "i8") 1 1
    ∷ entry (codes "i16") 1 2
    ∷ entry (codes "i32") 1 4
    ∷ entry (codes "i64") 1 8
    ∷ entry (codes "f64") 1 8
    ∷ entry (codes "iq1_m") 256 56
    ∷ entry (codes "bf16") 1 2
    ∷ []

-- An array of 144 whose other elements are value-initialized: their name is a null pointer.
abbrev ggml_types_size : ℕ
ggml_types_size = 144

unfoldable pub ggml_type_at : ℕ → GgmlType
unfolding ggml_types
ggml_type_at id = get_or ggml_types id (record { name = none; block_elems = 0; block_bytes = 0 })

abbrev unknown : Bytes → Option GgmlType
unknown name = some (entry name 0 0)

-- `std::to_string` below 100.
abbrev small_decimal : ℕ → Bytes
small_decimal n = if ltb n 10 then (48 + n) ∷ [] else (48 + n / 10) ∷ (48 + n % 10) ∷ []

-- `none` is the read of `entry.name[0]` through a null name. A negative id is one of 2 ^ 31 or more.
unfoldable pub ggml_type_of : ℕ → Option GgmlType
unfolding ggml_type_at
ggml_type_of id =
    if leb ggml_types_size id
    then if ltb id 64
      then unknown (codes "unknown_" ++ small_decimal id)
      else unknown (codes "unknown")
    else elim (ggml_type_at id).name [
      | none ↦ none
      | some [] ↦ unknown (codes "unknown")
      | some (c ∷ name) ↦ some (ggml_type_at id)
    ]

-- The product of the dimensions, as a uint64_t.
unfoldable pub elements_of : ℕ → List ℕ → ℕ
elements_of elements [] = elements
elements_of elements (dim ∷ dimensions) = elements_of (elements * dim % u64_mod) dimensions

-- `tensor_nbytes`: the bytes, or `none` for `*known = false` with 0 bytes.
unfoldable pub type_nbytes : GgmlType → List ℕ → Option ℕ
type_nbytes type dimensions =
    let elements = elements_of 1 dimensions in
    let blocks = (elements + type.block_elems + u64_mod - 1) % u64_mod / type.block_elems in
    if type.block_elems == 0 then none else some (blocks * type.block_bytes % u64_mod)

-- The outer `none` is the read through a null name.
unfoldable pub tensor_nbytes : ℕ → List ℕ → Option (Option ℕ)
tensor_nbytes id dimensions = elim (ggml_type_of id) [
  | none ↦ none
  | some type ↦ some (type_nbytes type dimensions)
]
