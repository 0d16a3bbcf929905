-- ===== src/Gguf/RoundTrip.antt =====
-- `GgufReader::parse` (src/gguf/reader.cpp) reads what the format says a header is.

use pocket_llm.Prelude.{
  ℕ, ◌^◌, ◌<◌, ◌≡◌, refl, List, [], ◌++◌, map, Bytes, All, codes, length, arith, same_bytes,
}
use pocket_llm.Gguf.Cursor.{ok, read, read_scalar, read_string}
use pocket_llm.Gguf.Cursor.Exact.{
  IsExact, pure-IsExact, >>=-IsExact, read-IsExact, read_scalar-IsExact, read_string-IsExact,
  le_bytes,
}
use pocket_llm.Gguf.Value.{read_many}
use pocket_llm.Gguf.Parse.{TensorRecord, Header, read_entry, read_record, check_magic, read_header}
use pocket_llm.Gguf.Value.RoundTrip.{
  then_pure, read_many-IsExact, read_list-IsExact, read_value-IsExact,
}
use pocket_llm.Gguf.Format.{
  Stored, stored_type, write_string, write_many, write_stored, write_entry, entry_of, FitsEntry,
  write_record, FitsRecord, write_header,
}

stored_type-small : (v : Stored) → stored_type v < 256 ^ 4
stored_type-small v = grind arith

read_entry-IsExact :
    (e : Bytes × Stored) → FitsEntry e → IsExact read_entry (entry_of e) (write_entry e)
unfolding read_entry
read_entry-IsExact (key, v) h =
    >>=-IsExact read_string _ key _ (write_string key) _ (read_string-IsExact key h.0) (
      >>=-IsExact (read_scalar 4) _ (stored_type v) _ (le_bytes 4 (stored_type v)) (write_stored v)
        (read_scalar-IsExact 4 (stored_type v) (stored_type-small v))
        (then_pure _ (λ w. (key, record { type = stored_type v; value = w })) _ _
          (read_value-IsExact v h.1)))

read_record-IsExact : (t : TensorRecord) → FitsRecord t → IsExact read_record t (write_record t)
unfolding read_record
read_record-IsExact t h =
    >>=-IsExact read_string _ t.name _ (write_string t.name) _ (read_string-IsExact t.name h.name) (
      >>=-IsExact (read_scalar 4) _ (length t.dimensions) _ (le_bytes 4 (length t.dimensions)) _
        (read_scalar-IsExact 4 _ h.rank)
        (>>=-IsExact (read_many (read_scalar 8) (length t.dimensions)) _ t.dimensions _
          (write_many (le_bytes 8) t.dimensions) _
          (read_list-IsExact (λ d. d < 2 ^ 64) (read_scalar 8) (le_bytes 8) (read_scalar-IsExact 8)
            t.dimensions h.dimensions)
          (>>=-IsExact (read_scalar 4) _ t.type_id _ (le_bytes 4 t.type_id) (le_bytes 8 t.offset)
            (read_scalar-IsExact 4 t.type_id h.type_id)
            (then_pure _
              (λ offset. record {
                name = t.name;
                dimensions = t.dimensions;
                type_id = t.type_id;
                offset = offset;
              })
              _ _ (read_scalar-IsExact 8 t.offset h.offset)))))

check_magic-IsExact : IsExact (check_magic (codes "GGUF")) tt []
unfolding check_magic same_bytes
check_magic-IsExact = pure-IsExact tt

abbrev pub header_of : ℕ → List (Bytes × Stored) → List TensorRecord → Header
header_of version entries records = record {
  version = version;
  tensor_count = length records;
  metadata_count = length entries;
  entries = map entry_of entries;
  records = records;
}

-- What a 64-bit count and a 32-bit version can hold.
pub record FitsHeader (version : ℕ) (entries : List (Bytes × Stored)) (records : List TensorRecord)
    : Type 0 where
  pub version_fits : version < 2 ^ 32
  pub entries_count : length entries < 2 ^ 64
  pub records_count : length records < 2 ^ 64
  pub entries_fit : All FitsEntry entries
  pub records_fit : All FitsRecord records

read_header-IsExact :
    (version : ℕ) (entries : List (Bytes × Stored)) (records : List TensorRecord)
    → FitsHeader version entries records
    → IsExact read_header (header_of version entries records) (write_header version entries records)
unfolding read_header
read_header-IsExact version entries records h =
    >>=-IsExact (read 4) _ (codes "GGUF") _ (codes "GGUF") _ (read-IsExact (codes "GGUF") 4 refl) (
      >>=-IsExact (check_magic (codes "GGUF")) _ tt _ [] _ check_magic-IsExact (
        >>=-IsExact (read_scalar 4) _ version _ (le_bytes 4 version) _
          (read_scalar-IsExact 4 version h.version_fits)
          (>>=-IsExact (read_scalar 8) _ (length records) _ (le_bytes 8 (length records)) _
            (read_scalar-IsExact 8 (length records) h.records_count)
            (>>=-IsExact (read_scalar 8) _ (length entries) _ (le_bytes 8 (length entries)) _
              (read_scalar-IsExact 8 (length entries) h.entries_count)
              (>>=-IsExact (read_many read_entry (length entries)) _ (map entry_of entries) _
                (write_many write_entry entries) _
                (read_many-IsExact FitsEntry read_entry entry_of write_entry read_entry-IsExact
                  entries h.entries_fit)
                (then_pure _
                  (λ records'. record (header_of version entries records) { records = records' }) _
                  _
                  (read_list-IsExact FitsRecord read_record write_record read_record-IsExact records
                    h.records_fit)))))))

-- What the format writes is read back: the header of a file, with any bytes behind it, parses to the
-- version, the metadata entries and the tensor records it was written from, in their order, and the
-- parse ends where the header ends.
pub read_header-write_header :
    (version : ℕ) (entries : List (Bytes × Stored)) (records : List TensorRecord) (rest : Bytes)
    → FitsHeader version entries records
    → length (write_header version entries records ++ rest) < 2 ^ 63
    → read_header (write_header version entries records ++ rest) 0
      ≡ ok (header_of version entries records, length (write_header version entries records))
read_header-write_header version entries records rest h lt =
    read_header-IsExact version entries records h (write_header version entries records ++ rest) []
      rest 0 (length (write_header version entries records)) lt refl refl (omega arith)
