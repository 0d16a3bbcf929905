-- ===== src/Gguf/Local.antt =====
-- The header and its parts are parsed from their own bytes alone, and a cut header is refused.
use pocket_llm.Prelude.{ℕ, zero, suc, ◌^◌, ◌≤◌, ◌<◌, ◌≡◌, [], ◌++◌, Bytes, length, arith, inl, inr}
use pocket_llm.Gguf.Cursor.{
  Error, bad_array_type, nested_array, ok, err, Reader, ◌>>=◌, pure, read, read_scalar, read_string,
}
use pocket_llm.Gguf.Cursor.Local.{
  Result-cases, IsLocal, >>=-IsLocal, pure-IsLocal, throw-IsLocal, read-IsLocal,
  read_scalar-IsLocal, read_string-IsLocal,
}
use pocket_llm.Gguf.Value.{
  MetadataType, uint8, int8, uint16, int16, uint32, int32, float32, boolean, text, sequence, uint64,
  int64, float64, other, metadata_type, read_many, read_unsigned, read_signed, read_bool,
  read_float, read_double, read_array_of, read_array, read_value_of, read_value,
}
use pocket_llm.Gguf.Parse.{Header, read_entry, read_record, check_magic, read_header}

-- One more read before a pure result.
abbrev then_pure {ℓ κ} :
    {A : Type ℓ} {B : Type κ} {m : Reader A} (f : A → B)
    → IsLocal m
    → IsLocal (do a ← m; pure (f a))
then_pure {m = m} f h = >>=-IsLocal m _ h (λ a. pure-IsLocal (f a))

read_many-IsLocal {ℓ} :
    {A : Type ℓ} (item : Reader A) → IsLocal item → (count : ℕ) → IsLocal (read_many item count)
unfolding read_many
read_many-IsLocal item h zero = pure-IsLocal []
read_many-IsLocal item h (suc count) =
    >>=-IsLocal item _ h (λ a. then_pure _ (read_many-IsLocal item h count))

read_unsigned-IsLocal : (size : ℕ) → size < 2 ^ 63 → IsLocal (read_unsigned size)
unfolding read_unsigned
read_unsigned-IsLocal size h = then_pure _ (read_scalar-IsLocal size h)

read_signed-IsLocal : (size width : ℕ) → size < 2 ^ 63 → IsLocal (read_signed size width)
unfolding read_signed
read_signed-IsLocal size width h = then_pure _ (read_scalar-IsLocal size h)

read_bool-IsLocal : IsLocal read_bool
unfolding read_bool
read_bool-IsLocal = then_pure _ (read_scalar-IsLocal 1 (omega arith))

read_float-IsLocal : IsLocal read_float
unfolding read_float
read_float-IsLocal = then_pure _ (read_scalar-IsLocal 4 (omega arith))

read_double-IsLocal : IsLocal read_double
unfolding read_double
read_double-IsLocal = then_pure _ (read_scalar-IsLocal 8 (omega arith))

many_unsigned : (n size : ℕ) → size < 2 ^ 63 → IsLocal (read_many (read_unsigned size) n)
many_unsigned n size h = read_many-IsLocal _ (read_unsigned-IsLocal size h) n

many_signed : (n size width : ℕ) → size < 2 ^ 63 → IsLocal (read_many (read_signed size width) n)
many_signed n size width h = read_many-IsLocal _ (read_signed-IsLocal size width h) n

read_array_of-IsLocal : (type : MetadataType) (t n : ℕ) → IsLocal (read_array_of type t n)
unfolding read_array_of
read_array_of-IsLocal text t n = then_pure _ (read_many-IsLocal _ read_string-IsLocal n)
read_array_of-IsLocal boolean t n = then_pure _ (read_many-IsLocal _ read_bool-IsLocal n)
read_array_of-IsLocal float32 t n = then_pure _ (read_many-IsLocal _ read_float-IsLocal n)
read_array_of-IsLocal float64 t n = then_pure _ (read_many-IsLocal _ read_double-IsLocal n)
read_array_of-IsLocal sequence t n = throw-IsLocal nested_array
read_array_of-IsLocal uint8 t n = then_pure _ (many_unsigned n 1 (omega arith))
read_array_of-IsLocal int8 t n = then_pure _ (many_signed n 1 8 (omega arith))
read_array_of-IsLocal uint16 t n = then_pure _ (many_unsigned n 2 (omega arith))
read_array_of-IsLocal int16 t n = then_pure _ (many_signed n 2 16 (omega arith))
read_array_of-IsLocal uint32 t n = then_pure _ (many_unsigned n 4 (omega arith))
read_array_of-IsLocal int32 t n = then_pure _ (many_signed n 4 32 (omega arith))
read_array_of-IsLocal uint64 t n = then_pure _ (many_unsigned n 8 (omega arith))
read_array_of-IsLocal int64 t n = then_pure _ (many_signed n 8 64 (omega arith))
read_array_of-IsLocal (other type) t n =
    then_pure _ (read_many-IsLocal _ (throw-IsLocal (bad_array_type type)) n)

read_array-IsLocal : (item_type length : ℕ) → IsLocal (read_array item_type length)
unfolding read_array
read_array-IsLocal item_type length =
    read_array_of-IsLocal (metadata_type item_type) item_type length

read_value_of-IsLocal : (type : MetadataType) → IsLocal (read_value_of type)
unfolding read_value_of
read_value_of-IsLocal uint8 = then_pure _ (read_unsigned-IsLocal 1 (omega arith))
read_value_of-IsLocal int8 = then_pure _ (read_signed-IsLocal 1 8 (omega arith))
read_value_of-IsLocal uint16 = then_pure _ (read_unsigned-IsLocal 2 (omega arith))
read_value_of-IsLocal int16 = then_pure _ (read_signed-IsLocal 2 16 (omega arith))
read_value_of-IsLocal uint32 = then_pure _ (read_unsigned-IsLocal 4 (omega arith))
read_value_of-IsLocal int32 = then_pure _ (read_signed-IsLocal 4 32 (omega arith))
read_value_of-IsLocal uint64 = then_pure _ (read_unsigned-IsLocal 8 (omega arith))
read_value_of-IsLocal int64 = then_pure _ (read_signed-IsLocal 8 64 (omega arith))
read_value_of-IsLocal float32 = then_pure _ read_float-IsLocal
read_value_of-IsLocal float64 = then_pure _ read_double-IsLocal
read_value_of-IsLocal boolean = then_pure _ read_bool-IsLocal
read_value_of-IsLocal text = then_pure _ read_string-IsLocal
read_value_of-IsLocal sequence =
    >>=-IsLocal (read_scalar 4) _ (read_scalar-IsLocal 4 (omega arith)) (λ item_type.
      >>=-IsLocal (read_scalar 8) _ (read_scalar-IsLocal 8 (omega arith))
        (λ length. then_pure _ (read_array-IsLocal item_type length)))
read_value_of-IsLocal (other type) = throw-IsLocal _

read_value-IsLocal : (type : ℕ) → IsLocal (read_value type)
unfolding read_value
read_value-IsLocal type = read_value_of-IsLocal (metadata_type type)

read_entry-IsLocal : IsLocal read_entry
unfolding read_entry
read_entry-IsLocal = >>=-IsLocal read_string _ read_string-IsLocal (λ key.
    >>=-IsLocal (read_scalar 4) _ (read_scalar-IsLocal 4 (omega arith))
      (λ type. then_pure _ (read_value-IsLocal type)))

read_record-IsLocal : IsLocal read_record
unfolding read_record
read_record-IsLocal = >>=-IsLocal read_string _ read_string-IsLocal (λ name.
    >>=-IsLocal (read_scalar 4) _ (read_scalar-IsLocal 4 (omega arith)) (λ n_dims.
      >>=-IsLocal (read_many (read_scalar 8) n_dims) _
        (read_many-IsLocal _ (read_scalar-IsLocal 8 (omega arith)) n_dims)
        (λ dims.
          >>=-IsLocal (read_scalar 4) _ (read_scalar-IsLocal 4 (omega arith))
            (λ type_id. then_pure _ (read_scalar-IsLocal 8 (omega arith))))))

check_magic-IsLocal : (magic : Bytes) → IsLocal (check_magic magic)
unfolding check_magic
check_magic-IsLocal magic file more pos b end lt le h = ground arith

read_header-IsLocal : IsLocal read_header
unfolding read_header
read_header-IsLocal = >>=-IsLocal (read 4) _ (read-IsLocal 4 (omega arith)) (λ magic.
    >>=-IsLocal (check_magic magic) _ (check_magic-IsLocal magic) (λ _.
      >>=-IsLocal (read_scalar 4) _ (read_scalar-IsLocal 4 (omega arith)) (λ version.
        >>=-IsLocal (read_scalar 8) _ (read_scalar-IsLocal 8 (omega arith)) (λ tensor_count.
          >>=-IsLocal (read_scalar 8) _ (read_scalar-IsLocal 8 (omega arith)) (λ metadata_count.
            >>=-IsLocal (read_many read_entry metadata_count) _
              (read_many-IsLocal _ read_entry-IsLocal metadata_count)
              (λ entries. then_pure _ (read_many-IsLocal _ read_record-IsLocal tensor_count)))))))

-- A file that parses still parses to the same header when bytes are appended to it, and the parse
-- ends inside the file: the header says nothing of the tensor data behind it.
pub read_header-extend :
    (file more : Bytes) (h : Header) (end : ℕ)
    → length (file ++ more) < 2 ^ 63
    → read_header file 0 ≡ ok (h, end)
    → (end ≤ length file) × (read_header (file ++ more) 0 ≡ ok (h, end))
read_header-extend file more h end lt e =
    let (_, le, same) = read_header-IsLocal file more 0 h end lt (omega arith) e in (le, same)

-- A file cut before the end of its header is refused with an error, wherever the cut is.
pub read_header-cut :
    (file rest : Bytes) (h : Header) (end : ℕ)
    → length (file ++ rest) < 2 ^ 63
    → read_header (file ++ rest) 0 ≡ ok (h, end)
    → length file < end
    → (e : Error) × (read_header file 0 ≡ err e)
read_header-cut file rest h end lt e short = elim (Result-cases (read_header file 0)) [
  | inr (x, eq) ↦ (x, eq)
  | inl ((h', end'), eq) ↦
      let (le, same) = read_header-extend file rest h' end' lt eq in
      absurd (ground (arith, e, same))
]
