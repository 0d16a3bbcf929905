-- ===== src/Gguf/Cursor.antt =====
-- `Cursor` of src/gguf/reader.cpp: reads over the mapping, each with its bounds check, as a monad over
-- the position. Sums of `uint64_t` wrap. A file is shorter than 2 ^ 63 bytes.
pub mod Local
pub mod Exact
use pocket_llm.Prelude.{
  ℕ, zero, suc, ◌+◌, ◌*◌, ◌%◌, ◌^◌, Bool, List, [], ◌∷◌, Bytes, ltb, leb, if◌then◌else◌, length,
  take, drop,
}

-- What the reader throws. `length_error` is the standard library's, and `null_name` is no exception:
-- a read through the null name of a table entry.
pub data Error : Type 0 where
  seek_past_end unexpected_end string_past_end nested_array bad_magic too_small : Error
  bad_array_type bad_type : ℕ → Error
  no_tensor tensor_past_end mapping_released : Bytes → Error
  length_error null_name : Error

pub data Result {ℓ} (A : Type ℓ) : Type ℓ where
  ok : A → Result A
  err : Error → Result A

-- A read at a position of the mapping gives a value and the position behind it.
abbrev pub Reader {ℓ} : Type ℓ → Type ℓ
Reader A = Bytes → ℕ → Result (A × ℕ)

-- The rest of a parse behind one result: an exception ends it.
abbrev pub and_then {ℓ κ} : {A : Type ℓ} {B : Type κ} → Result A → (A → Result B) → Result B
and_then (ok a) f = f a
and_then (err e) f = err e

infixl 5 ◌>>=◌ ◌>>◌
abbrev pub ◌>>=◌ {ℓ κ} : {A : Type ℓ} {B : Type κ} → Reader A → (A → Reader B) → Reader B
◌>>=◌ m f file pos = and_then (m file pos) (λ r. f r.0 file r.1)

abbrev pub ◌>>◌ {ℓ κ} : {A : Type ℓ} {B : Type κ} → Reader A → Reader B → Reader B
◌>>◌ m k = m >>= λ _. k

abbrev pub pure {ℓ} : {A : Type ℓ} → A → Reader A
pure a file pos = ok (a, pos)

abbrev pub throw {ℓ} : {A : Type ℓ} → Error → Reader A
throw e file pos = err e

abbrev pub position : Reader ℕ
position file pos = ok (pos, pos)

abbrev pub u64_mod : ℕ
u64_mod = 2 ^ 64

unfoldable pub seek : ℕ → Reader (Unit {0})
seek to file pos = if ltb (length file) to then err seek_past_end else ok (tt, to)

unfoldable pub skip : ℕ → Reader (Unit {0})
skip count file pos = seek ((pos + count) % u64_mod) file pos

-- `read` into a buffer of `count` bytes.
unfoldable pub read : ℕ → Reader Bytes
read count file pos =
    if ltb (length file) ((pos + count) % u64_mod)
    then err unexpected_end
    else ok (take count (drop pos file), (pos + count) % u64_mod)

-- The little-endian value of the bytes.
unfoldable pub little_endian : Bytes → ℕ
little_endian [] = 0
little_endian (b ∷ bytes) = b + 256 * little_endian bytes

-- `read_scalar` of an unsigned type of so many bytes.
unfoldable pub read_scalar : ℕ → Reader ℕ
read_scalar size = do bytes ← read size; pure (little_endian bytes)

-- The bytes of a string of length `n`, copied by the constructor of `std::string`, which throws on
-- a length past its `max_size`.
unfoldable pub string_bytes : ℕ → Reader Bytes
string_bytes n file pos =
    if ltb (length file) ((pos + n) % u64_mod)
    then err string_past_end
    else if leb (2 ^ 63) n
    then err length_error
    else ok (take n (drop pos file), (pos + n) % u64_mod)

unfoldable pub read_string : Reader Bytes
read_string = do n ← read_scalar 8; string_bytes n
