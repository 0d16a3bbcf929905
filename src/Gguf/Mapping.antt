-- ===== src/Gguf/Mapping.antt =====
-- Where `GgufReader` (src/gguf/reader.cpp) looks for the tensor data, and what it hands out.
use mathlib.Core.Path.{subst}
use native.Mathlib.Nat.{mul-mod_left}
use pocket_llm.Prelude.{
  ℕ, ◌+◌, ◌-◌, ◌*◌, ◌/◌, ◌%◌, ◌^◌, ◌≤◌, ◌<◌, ◌≡◌, inl, inr, refl, sym, ap, ◌∙◌, some, Bytes, length,
  arith, leb, if◌then◌else◌, [], append-nil,
}
use pocket_llm.Prelude.Int.{ℤ}
use pocket_llm.Gguf.Tensor.{find}
use pocket_llm.Gguf.Cursor.{Error, tensor_past_end, ok, err, u64_mod}
use pocket_llm.Gguf.Cursor.Local.{Result-cases}
use pocket_llm.Gguf.Parse.{
  TensorInfo, Header, GgufReader, align_up, alignment_of, Metadata, read_header, open_file,
}
use pocket_llm.Gguf.Local.{read_header-extend}
use pocket_llm.Gguf.Tensor.{
  Number, tensor, tensor_data, release_mapping, get_int, get_float, get_string,
}
use pocket_llm.Gguf.Geometry.{ceil_bounds}
use pocket_llm.Gguf.Directory.{open_file-IsOpened, build-reader_of}

alignment_of-pos : (metadata : Metadata) → 0 < alignment_of metadata
unfolding alignment_of
alignment_of-pos metadata = ground arith

align_up-exact :
    (value alignment : ℕ)
    → 0 < alignment
    → value + alignment < 2 ^ 64
    → value ≤ (value + alignment - 1) / alignment * alignment
    → (value + alignment - 1) / alignment * alignment < value + alignment
    → align_up value alignment ≡ (value + alignment - 1) / alignment * alignment
unfolding align_up
align_up-exact value alignment h lt above below =
    let sum : (value + alignment + u64_mod - 1) % u64_mod ≡ value + alignment - 1 = omega arith in
    ground (arith, sum)

-- Without overflow, the least multiple of the alignment that is not below the value.
align_up-lem :
    (value alignment : ℕ)
    → 0 < alignment
    → value + alignment < 2 ^ 64
    → (align_up value alignment % alignment ≡ 0)
      × (value ≤ align_up value alignment)
      × (align_up value alignment < value + alignment)
unfolding align_up
align_up-lem value alignment h lt =
    let (above, below) = ceil_bounds value alignment h in
    let exact : align_up value alignment ≡ (value + alignment - 1) / alignment * alignment =
      align_up-exact value alignment h lt above below in
    rw exact (mul-mod_left ((value + alignment - 1) / alignment) alignment, above, below)

-- The tensor data of an opened file begin at a multiple of the alignment, not before the end of the
-- directory and less than one alignment behind it, if the alignment is below 2 ^ 63.
pub open_file-data_start :
    (file : Bytes) (reader : GgufReader)
    → open_file file ≡ ok reader
    → length file < 2 ^ 63
    → reader.alignment < 2 ^ 63
    → (h : Header) × (end : ℕ) × (read_header file 0 ≡ ok (h, end))
      × (0 < reader.alignment)
      × (reader.data_start % reader.alignment ≡ 0)
      × (end ≤ reader.data_start)
      × (reader.data_start < end + reader.alignment)
open_file-data_start file reader e lt small =
    let o = open_file-IsOpened file reader e in
    let (directory, _, same) = build-reader_of file o.header o.end reader o.built in
    let (le, _) = read_header-extend file [] o.header o.end (rw (append-nil file) lt) o.parsed in
    let starts : reader.data_start ≡ align_up o.end reader.alignment =
      sym (ap (λ (r : GgufReader). r.data_start) same)
      ∙ ap (λ (r : GgufReader). align_up o.end r.alignment) same in
    let positive : 0 < reader.alignment =
      subst (λ (r : GgufReader). 0 < r.alignment) same (alignment_of-pos _) in
    let (multiple, above, below) = align_up-lem o.end reader.alignment positive (omega arith) in
    (o.header, o.end, o.parsed, positive, rw starts multiple, rw starts above, rw starts below)

-- An opened reader holds the whole file.
pub open_file-holds :
    (file : Bytes) (reader : GgufReader)
    → open_file file ≡ ok reader
    → (reader.size ≡ length file) × (reader.mapping ≡ some file)
open_file-holds file reader e =
    let o = open_file-IsOpened file reader e in
    let (directory, _, same) = build-reader_of file o.header o.end reader o.built in
    (sym (ap (λ (r : GgufReader). r.size) same), sym (ap (λ (r : GgufReader). r.mapping) same))

-- On an opened file, `tensor_data` hands out the bytes of a tensor just if they are inside the file,
-- and throws otherwise, if the end of the bytes is below 2 ^ 64.
pub tensor_data-fits :
    (file : Bytes) (reader : GgufReader) (name : Bytes) (info : TensorInfo)
    → open_file file ≡ ok reader
    → tensor reader name ≡ some info
    → info.absolute_offset + info.nbytes < 2 ^ 64
    → tensor_data reader name ≡ (
        if leb (info.absolute_offset + info.nbytes) (length file)
        then ok (info.absolute_offset, info.nbytes)
        else err (tensor_past_end name))
unfolding tensor_data
tensor_data-fits file reader name info e t lt =
    let (size, mapping) = open_file-holds file reader e in ground (arith, t, size, mapping)

-- The check of `tensor_data` wraps: where the end of a tensor's bytes is past 2 ^ 64 by no more than
-- the file's length, a range is handed out that ends behind the file.
pub tensor_data-wraps :
    (file : Bytes) (reader : GgufReader) (name : Bytes) (info : TensorInfo)
    → open_file file ≡ ok reader
    → length file < 2 ^ 63
    → tensor reader name ≡ some info
    → 2 ^ 64 ≤ info.absolute_offset + info.nbytes
    → info.absolute_offset + info.nbytes ≤ 2 ^ 64 + length file
    → (tensor_data reader name ≡ ok (info.absolute_offset, info.nbytes))
      × (length file < info.absolute_offset + info.nbytes)
unfolding tensor_data
tensor_data-wraps file reader name info e lt t past near =
    let (size, mapping) = open_file-holds file reader e in ground (arith, t, size, mapping)

released :
    (reader : GgufReader) (name : Bytes)
    → (e : Error) × (tensor_data (release_mapping reader) name ≡ err e)
unfolding tensor_data release_mapping
released reader name = elim (Result-cases (tensor_data (release_mapping reader) name)) [
  | inr r ↦ r
  | inl (a, h) ↦ absurd (ground (arith, h))
]

-- After `release_mapping` no tensor's bytes are handed out, whatever the reader: `tensor_data` throws.
-- The directory and the metadata stay as they are.
pub release_mapping-tensor_data :
    (reader : GgufReader) (name : Bytes) (v : ℤ) (x : Number) (s : Bytes)
    → ((e : Error) × (tensor_data (release_mapping reader) name ≡ err e))
      × (tensor (release_mapping reader) name ≡ tensor reader name)
      × (get_int (release_mapping reader) name v ≡ get_int reader name v)
      × (get_float (release_mapping reader) name x ≡ get_float reader name x)
      × (get_string (release_mapping reader) name s ≡ get_string reader name s)
unfolding tensor_data release_mapping tensor get_int get_float get_string find
release_mapping-tensor_data reader name v x s = (released reader name, refl, refl, refl, refl)
