-- ===== src/Gguf/Parse.antt =====
-- `GgufReader::parse` of src/gguf/reader.cpp: the header, the metadata and the tensor directory.
use pocket_llm.Prelude.{
  ℕ, ◌+◌, ◌-◌, ◌*◌, ◌/◌, ◌%◌, Bool, true, false, List, [], ◌∷◌, ◌++◌, Option, none, some, Bytes,
  ◌==◌, ltb, if◌then◌else◌, codes, same_bytes, length,
}
use pocket_llm.Prelude.Assoc.{bytes_eq, find, assign}
use pocket_llm.Prelude.Int.{to_u64}
use pocket_llm.Gguf.Cursor.{
  bad_magic, too_small, null_name, Result, ok, err, Reader, ◌>>=◌, ◌>>◌, pure, throw, u64_mod, read,
  read_scalar, read_string,
}
use pocket_llm.Gguf.Types.{tensor_nbytes}
use pocket_llm.Gguf.Value.{GgufValue, int, read_many, read_value}

pub record MetadataEntry : Type 0 where
  pub type : ℕ
  pub value : GgufValue

-- One entry of the directory, as the file has it.
pub record TensorRecord : Type 0 where
  pub name : Bytes
  pub dimensions : List ℕ
  pub type_id : ℕ
  pub offset : ℕ

pub record TensorInfo : Type 0 where
  pub name : Bytes
  pub dimensions : List ℕ
  pub type_id : ℕ
  pub offset : ℕ
  pub absolute_offset : ℕ
  pub nbytes : ℕ
  pub size_known : Bool

-- `align_up`, on uint64_t.
unfoldable pub align_up : ℕ → ℕ → ℕ
align_up value alignment =
    if alignment == 0
    then value
    else (value + alignment + u64_mod - 1) % u64_mod / alignment * alignment % u64_mod

abbrev pub Metadata : Type 0
Metadata = List (Bytes × MetadataEntry)

unfoldable pub read_entry : Reader (Bytes × MetadataEntry)
read_entry = do
  key ← read_string
  type ← read_scalar 4
  value ← read_value type
  pure (key, record { type = type; value = value })

-- `metadata_[key] = entry`, one after the other.
unfoldable pub store_entries : Metadata → List (Bytes × MetadataEntry) → Metadata
store_entries metadata [] = metadata
store_entries metadata ((key, entry) ∷ entries) = store_entries (assign key entry metadata) entries

unfoldable pub read_record : Reader TensorRecord
read_record = do
  name ← read_string
  n_dims ← read_scalar 4
  dims ← read_many (read_scalar 8) n_dims
  type_id ← read_scalar 4
  offset ← read_scalar 8
  pure (record { name = name; dimensions = dims; type_id = type_id; offset = offset })

-- The header up to the end of the directory.
pub record Header : Type 0 where
  pub version : ℕ
  pub tensor_count : ℕ
  pub metadata_count : ℕ
  pub entries : List (Bytes × MetadataEntry)
  pub records : List TensorRecord

unfoldable pub check_magic : Bytes → Reader (Unit {0})
check_magic magic = if same_bytes magic (codes "GGUF") then pure tt else throw bad_magic

unfoldable pub read_header : Reader Header
read_header = do
  magic ← read 4
  check_magic magic
  version ← read_scalar 4
  tensor_count ← read_scalar 8
  metadata_count ← read_scalar 8
  entries ← read_many read_entry metadata_count
  records ← read_many read_record tensor_count
  pure (record {
    version = version;
    tensor_count = tensor_count;
    metadata_count = metadata_count;
    entries = entries;
    records = records;
  })

-- `general.alignment`, if it is an integer; 32 by default and never 0.
unfoldable pub alignment_of : Metadata → ℕ
alignment_of metadata = elim (find (codes "general.alignment") metadata) [
  | none ↦ 32
  | some entry ↦ elim entry.value [ int v ↦ if to_u64 v == 0 then 1 else to_u64 v | _ ↦ 32 ]
]

-- One round of the last loop: the entry of the directory with its place and size.
unfoldable pub locate : ℕ → TensorRecord → Option TensorInfo
locate data_start t = elim (tensor_nbytes t.type_id t.dimensions) [
  | none ↦ none
  | some size ↦ some (record {
    name = t.name;
    dimensions = t.dimensions;
    type_id = t.type_id;
    offset = t.offset;
    absolute_offset = (data_start + t.offset) % u64_mod;
    nbytes = elim size [ none ↦ 0 | some n ↦ n ];
    size_known = elim size [ none ↦ false | some n ↦ true ];
  })
]

-- The state of a reader. `mapping` is `none` once it is released.
pub record GgufReader : Type 0 where
  pub size : ℕ
  pub mapping : Option Bytes
  pub version : ℕ
  pub tensor_count : ℕ
  pub metadata_count : ℕ
  pub alignment : ℕ
  pub data_start : ℕ
  pub metadata : Metadata
  pub tensors : List TensorInfo
  pub tensor_index : List (Bytes × ℕ)

-- The last loop: `tensor_index_[name] = tensors_.size()` and `push_back`.
unfoldable pub locate_all :
    ℕ
    → List TensorRecord
    → List TensorInfo
    → List (Bytes × ℕ)
    → Option (List TensorInfo × List (Bytes × ℕ))
locate_all data_start [] tensors index = some (tensors, index)
locate_all data_start (t ∷ records) tensors index = elim (locate data_start t) [
  | none ↦ none
  | some info ↦
      locate_all data_start records (tensors ++ info ∷ []) (assign t.name (length tensors) index)
]

abbrev pub metadata_of : Header → Metadata
metadata_of h = store_entries [] h.entries

-- Where the tensor data begin: the end of the directory, aligned.
abbrev pub data_start_of : Header → ℕ → ℕ
data_start_of h pos = align_up pos (alignment_of (metadata_of h))

abbrev pub reader_of : Bytes → Header → ℕ → List TensorInfo × List (Bytes × ℕ) → GgufReader
reader_of file h pos (tensors, index) = record {
  size = length file;
  mapping = some file;
  version = h.version;
  tensor_count = h.tensor_count;
  metadata_count = h.metadata_count;
  alignment = alignment_of (metadata_of h);
  data_start = data_start_of h pos;
  metadata = metadata_of h;
  tensors = tensors;
  tensor_index = index;
}

-- What `parse` makes of a header that ends at a position.
unfoldable pub build : Bytes → Header → ℕ → Result GgufReader
build file h pos = elim (locate_all (data_start_of h pos) h.records [] []) [
  | none ↦ err null_name
  | some directory ↦ ok (reader_of file h pos directory)
]

-- The constructor, on the bytes of a file that was opened and mapped.
unfoldable pub open_file : Bytes → Result GgufReader
open_file file =
    if ltb (length file) 8
    then err too_small
    else elim (read_header file 0) [ err e ↦ err e | ok (h, pos) ↦ build file h pos ]
