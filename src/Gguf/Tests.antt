-- ===== src/Gguf/Tests.antt =====
-- Concrete files, and the theorems on the reader at them.
use mathlib.Core.Path.{subst}
use pocket_llm.Prelude.{
  ℕ, ◌+◌, ◌-◌, ◌*◌, ◌%◌, ◌^◌, ◌≤◌, ◌<◌, ◌≡◌, refl, sym, ap, ◌∙◌, true, List, [], ◌∷◌, ◌++◌, map,
  none, some, Bytes, codes, length, arith, replicate, take, drop, ◌↔◌, leb, if◌then◌else◌,
  same_bytes,
}
use pocket_llm.Prelude.Assoc.{find, assign}
use pocket_llm.Prelude.Int.{pos, negsuc}
use pocket_llm.Gguf.Cursor.{
  Error, tensor_past_end, ok, err, read, read_scalar, little_endian, string_bytes, read_string,
}
use pocket_llm.Gguf.Cursor.Exact.{le_bytes}
use pocket_llm.Gguf.Types.{
  GgmlType, ggml_types, ggml_type_at, ggml_type_of, elements_of, type_nbytes, tensor_nbytes,
}
use pocket_llm.Gguf.Value.{
  double, widened, int, metadata_type, read_many, read_unsigned, read_value_of, read_value,
}
use pocket_llm.Gguf.Parse.{
  TensorRecord, TensorInfo, Header, GgufReader, align_up, read_entry, store_entries, read_record,
  check_magic, read_header, alignment_of, locate, locate_all, build, open_file,
}
use pocket_llm.Gguf.Tensor.{
  stored, truncate, tensor, tensor_data, release_mapping, get_int, get_float, get_string,
}
use pocket_llm.Gguf.Format.{Stored, number, u32, write_header}
use pocket_llm.Gguf.RoundTrip.{header_of, FitsHeader, read_header-write_header}
use pocket_llm.Gguf.Local.{read_header-cut}
use pocket_llm.Gguf.Directory.{as_record, last_named, open_file-tensor}
use pocket_llm.Gguf.Geometry.{product, ggml_type_of-null, tensor_nbytes-Covers}
use pocket_llm.Gguf.Mapping.{
  open_file-data_start, tensor_data-fits, tensor_data-wraps, release_mapping-tensor_data,
}

abbrev entries : List (Bytes × Stored)
entries = (codes "general.alignment", number u32 16) ∷ []

abbrev weights : ℕ → TensorRecord
weights offset = record { name = codes "w"; dimensions = 2 ∷ 3 ∷ []; type_id = 0; offset = offset }

abbrev header_bytes : ℕ → Bytes
header_bytes offset = write_header 3 entries (weights offset ∷ [])

-- 98 bytes of header, 14 of padding and 24 of data
abbrev file : Bytes
file = header_bytes 0 ++ replicate 38 7

abbrev info : ℕ → TensorInfo
info offset = record {
  name = codes "w";
  dimensions = 2 ∷ 3 ∷ [];
  type_id = 0;
  offset = offset;
  absolute_offset = (112 + offset) % 2 ^ 64;
  nbytes = 24;
  size_known = true;
}

abbrev reader : Bytes → ℕ → GgufReader
reader file offset = record {
  size = length file;
  mapping = some file;
  version = 3;
  tensor_count = 1;
  metadata_count = 1;
  alignment = 16;
  data_start = 112;
  metadata = (codes "general.alignment", record { type = 4; value = int (pos 16) }) ∷ [];
  tensors = info offset ∷ [];
  tensor_index = (codes "w", 0) ∷ [];
}

opened : open_file file ≡ ok (reader file 0)
unfolding open_file read_header read check_magic same_bytes read_scalar little_endian read_many
    read_entry read_string string_bytes read_value metadata_type read_value_of read_unsigned
    read_record build store_entries assign alignment_of find align_up locate_all locate
    tensor_nbytes ggml_type_of ggml_type_at ggml_types type_nbytes elements_of le_bytes
opened = refl

-- the first 90 bytes of the header
abbrev cut : Bytes
cut = take 90 (header_bytes 0)

-- A tensor placed so that the end of its bytes wraps.
abbrev far : ℕ
far = 2 ^ 64 - 120

abbrev far_file : Bytes
far_file = header_bytes far ++ replicate 38 7

far_opened : open_file far_file ≡ ok (reader far_file far)
unfolding open_file read_header read check_magic same_bytes read_scalar little_endian read_many
    read_entry read_string string_bytes read_value metadata_type read_value_of read_unsigned
    read_record build store_entries assign alignment_of find align_up locate_all locate
    tensor_nbytes ggml_type_of ggml_type_at ggml_types type_nbytes elements_of le_bytes
far_opened = refl

fits : FitsHeader 3 entries (weights 0 ∷ [])
fits = record {
  version_fits = omega arith;
  entries_count = omega arith;
  records_count = omega arith;
  entries_fit = ground arith;
  records_fit = (
    record {
      name = omega arith;
      rank = omega arith;
      dimensions = ground arith;
      type_id = omega arith;
      offset = omega arith;
    },
    tt,
  );
}

sizes :
    (length (header_bytes 0 ++ (1 ∷ [])) ≡ 99)
    × (length file ≡ 136)
    × (length (file ++ (1 ∷ [])) ≡ 137)
    × (length far_file ≡ 136)
    × (length cut ≡ 90)
unfolding le_bytes
sizes = (refl, refl, refl, refl, refl)

joined : cut ++ drop 90 file ≡ file
unfolding le_bytes
joined = refl

read_header-write_header_example :
    read_header (header_bytes 0 ++ (1 ∷ [])) 0
    ≡ ok (header_of 3 entries (weights 0 ∷ []), length (header_bytes 0))
read_header-write_header_example =
    read_header-write_header 3 entries (weights 0 ∷ []) (1 ∷ []) fits (omega (arith, sizes))

parsed : read_header file 0 ≡ ok (header_of 3 entries (weights 0 ∷ []), 98)
unfolding open_file read_header read check_magic same_bytes read_scalar little_endian read_many
    read_entry read_string string_bytes read_value metadata_type read_value_of read_unsigned
    read_record build store_entries assign alignment_of find align_up locate_all locate
    tensor_nbytes ggml_type_of ggml_type_at ggml_types type_nbytes elements_of le_bytes
parsed = refl

blocks_288 : tensor_nbytes 12 (300 ∷ []) ≡ some (some 288)
unfolding tensor_nbytes ggml_type_of ggml_type_at ggml_types type_nbytes elements_of
blocks_288 = refl

read_header-cut_example : (e : Error) × (read_header cut 0 ≡ err e)
read_header-cut_example =
    read_header-cut cut (drop 90 file) (header_of 3 entries (weights 0 ∷ [])) 98
      (subst (λ f. length f < 2 ^ 63) (sym joined) (omega (arith, sizes)))
      (ap (λ f. read_header f 0) joined ∙ parsed) (omega (arith, sizes))

open_file-tensor_example :
    (h : Header) × (end : ℕ) × (read_header file 0 ≡ ok (h, end))
    × (map as_record (reader file 0).tensors ≡ h.records)
    × ((name : Bytes) → tensor (reader file 0) name ≡ last_named name (reader file 0).tensors)
open_file-tensor_example = open_file-tensor file (reader file 0) opened

ggml_type_of-null_example : (ggml_type_of 100 ≡ none) ↔ ((31 ≤ 100) × (100 < 144))
ggml_type_of-null_example = ggml_type_of-null 100

-- 300 elements of q4_k take two blocks
tensor_nbytes-Covers_example :
    (type : GgmlType) × (blocks : ℕ) × (ggml_type_of 12 ≡ some type)
    × (product (300 ∷ []) ≤ blocks * type.block_elems)
    × (blocks * type.block_elems < product (300 ∷ []) + type.block_elems)
    × (288 ≡ blocks * type.block_bytes % 2 ^ 64)
tensor_nbytes-Covers_example = tensor_nbytes-Covers 12 (300 ∷ []) 288 blocks_288 (omega arith)

open_file-data_start_example :
    (h : Header) × (end : ℕ) × (read_header file 0 ≡ ok (h, end))
    × (0 < (reader file 0).alignment)
    × ((reader file 0).data_start % (reader file 0).alignment ≡ 0)
    × (end ≤ (reader file 0).data_start)
    × ((reader file 0).data_start < end + (reader file 0).alignment)
open_file-data_start_example =
    open_file-data_start file (reader file 0) opened (omega (arith, sizes)) (omega arith)

found : (offset : ℕ) (bytes : Bytes) → tensor (reader bytes offset) (codes "w") ≡ some (info offset)
unfolding tensor find same_bytes
found offset bytes = refl

tensor_data-fits_example : tensor_data (reader file 0) (codes "w") ≡ (
    if leb ((info 0).absolute_offset + (info 0).nbytes) (length file)
    then ok ((info 0).absolute_offset, (info 0).nbytes)
    else err (tensor_past_end (codes "w")))
tensor_data-fits_example =
    tensor_data-fits file (reader file 0) (codes "w") (info 0) opened (found 0 file) (omega arith)

tensor_data-wraps_example :
    (tensor_data (reader far_file far) (codes "w")
      ≡ ok ((info far).absolute_offset, (info far).nbytes))
    × (length far_file < (info far).absolute_offset + (info far).nbytes)
tensor_data-wraps_example =
    tensor_data-wraps far_file (reader far_file far) (codes "w") (info far) far_opened
      (omega (arith, sizes)) (found far far_file) (omega arith) (omega (arith, sizes))

release_mapping-tensor_data_example :
    ((e : Error) × (tensor_data (release_mapping (reader file 0)) (codes "w") ≡ err e))
    × (tensor (release_mapping (reader file 0)) (codes "w") ≡ tensor (reader file 0) (codes "w"))
    × (get_int (release_mapping (reader file 0)) (codes "w") (pos 0)
        ≡ get_int (reader file 0) (codes "w") (pos 0))
    × (get_float (release_mapping (reader file 0)) (codes "w") (stored (double 0))
        ≡ get_float (reader file 0) (codes "w") (stored (double 0)))
    × (get_string (release_mapping (reader file 0)) (codes "w") []
        ≡ get_string (reader file 0) (codes "w") [])
release_mapping-tensor_data_example =
    release_mapping-tensor_data (reader file 0) (codes "w") (pos 0) (stored (double 0)) []

-- 3.75 and -2.5 are rounded towards zero
truncated :
    (truncate (double 0x400e000000000000) ≡ some (pos 3))
    × (truncate (widened 0xc0200000) ≡ some (negsuc 1))
unfolding truncate
truncated = (refl, refl)
