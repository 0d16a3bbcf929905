-- ===== src/Gguf/Value/RoundTrip.antt =====
-- `read_value` (src/gguf/reader.cpp) reads the metadata values that the format writes.
use mathlib.Core.Path.{subst}
use pocket_llm.Prelude.{
  ℕ, ◌^◌, ◌<◌, ◌≡◌, refl, ap, not, List, [], ◌∷◌, ◌++◌, map, Bytes, All, ◌==◌, length, arith,
  append-nil,
}
use pocket_llm.Prelude.Int.{signed}
use pocket_llm.Gguf.Cursor.{Reader, ◌>>=◌, pure, read_scalar, read_string}
use pocket_llm.Gguf.Cursor.Exact.{
  IsExact, pure-IsExact, >>=-IsExact, read_scalar-IsExact, read_string-IsExact, le_bytes,
}
use pocket_llm.Gguf.Value.{
  double, widened, GgufArray, int, float, bool, string, array, empty_array, metadata_type,
  read_many, read_unsigned, read_signed, read_bool, read_float, read_double, read_array_of,
  read_array, read_value_of, read_value,
}
use pocket_llm.Gguf.Format.{
  ScalarType, u8, i8, u16, i16, u32, i32, f32, flag, u64, i64, f64, type_id, size_of, scalar_value,
  array_value, Stored, number, text, scalars, texts, stored_type, stored_value, FitsText, Fits,
  write_string, write_many, write_stored,
}

-- A read and a pure function of its value.
pub then_pure {ℓ κ} :
    {A : Type ℓ} {B : Type κ} (m : Reader A) (f : A → B) (a : A) (xs : Bytes)
    → IsExact m a xs
    → IsExact (m >>= λ a. pure (f a)) (f a) xs
then_pure m f a xs h =
    subst (λ ys. IsExact (m >>= λ a. pure (f a)) (f a) ys) (append-nil xs)
      (>>=-IsExact m _ a (f a) xs [] h (pure-IsExact (f a)))

pub read_many-IsExact {ℓ κ} :
    {A : Type ℓ} {B : Type κ} (Valid : B → Type 0) (item : Reader A) (value : B → A) (w : B → Bytes)
    → ((b : B) → Valid b → IsExact item (value b) (w b))
    → (bs : List B) → All Valid bs
    → IsExact (read_many item (length bs)) (map value bs) (write_many w bs)
unfolding read_many
read_many-IsExact Valid item value w h [] v = pure-IsExact []
read_many-IsExact Valid item value w h (b ∷ bs) v =
    >>=-IsExact item _ (value b) (value b ∷ map value bs) (w b) (write_many w bs) (h b v.0)
      (then_pure _ (λ rest. value b ∷ rest) _ _ (read_many-IsExact Valid item value w h bs v.1))

read_unsigned-IsExact :
    (n v : ℕ) → v < 256 ^ n → IsExact (read_unsigned n) (signed 64 v) (le_bytes n v)
unfolding read_unsigned
read_unsigned-IsExact n v h = then_pure _ (signed 64) v _ (read_scalar-IsExact n v h)

read_signed-IsExact :
    (n w v : ℕ) → v < 256 ^ n → IsExact (read_signed n w) (signed w v) (le_bytes n v)
unfolding read_signed
read_signed-IsExact n w v h = then_pure _ (signed w) v _ (read_scalar-IsExact n v h)

read_bool-IsExact : (v : ℕ) → v < 256 ^ 1 → IsExact read_bool (not (v == 0)) (le_bytes 1 v)
unfolding read_bool
read_bool-IsExact v h = then_pure _ (λ v. not (v == 0)) v _ (read_scalar-IsExact 1 v h)

read_float-IsExact : (v : ℕ) → v < 256 ^ 4 → IsExact read_float (widened v) (le_bytes 4 v)
unfolding read_float
read_float-IsExact v h = then_pure _ widened v _ (read_scalar-IsExact 4 v h)

read_double-IsExact : (v : ℕ) → v < 256 ^ 8 → IsExact read_double (double v) (le_bytes 8 v)
unfolding read_double
read_double-IsExact v h = then_pure _ double v _ (read_scalar-IsExact 8 v h)

read_value-scalar :
    (t : ScalarType) (v : ℕ)
    → v < 256 ^ size_of t
    → IsExact (read_value (type_id t)) (scalar_value t v) (le_bytes (size_of t) v)
unfolding read_value metadata_type read_value_of
read_value-scalar u8 v h = then_pure _ int _ _ (read_unsigned-IsExact 1 v h)
read_value-scalar i8 v h = then_pure _ int _ _ (read_signed-IsExact 1 8 v h)
read_value-scalar u16 v h = then_pure _ int _ _ (read_unsigned-IsExact 2 v h)
read_value-scalar i16 v h = then_pure _ int _ _ (read_signed-IsExact 2 16 v h)
read_value-scalar u32 v h = then_pure _ int _ _ (read_unsigned-IsExact 4 v h)
read_value-scalar i32 v h = then_pure _ int _ _ (read_signed-IsExact 4 32 v h)
read_value-scalar u64 v h = then_pure _ int _ _ (read_unsigned-IsExact 8 v h)
read_value-scalar i64 v h = then_pure _ int _ _ (read_signed-IsExact 8 64 v h)
read_value-scalar f32 v h = then_pure _ float _ _ (read_float-IsExact v h)
read_value-scalar f64 v h = then_pure _ float _ _ (read_double-IsExact v h)
read_value-scalar flag v h = then_pure _ bool _ _ (read_bool-IsExact v h)

read_array-scalar :
    (t : ScalarType) (vs : List ℕ)
    → All (λ v. v < 256 ^ size_of t) vs
    → IsExact
        (read_array (type_id t) (length vs))
        (array_value t vs)
        (write_many (le_bytes (size_of t)) vs)
unfolding read_array metadata_type read_array_of
read_array-scalar u8 vs h =
    then_pure _ (λ ints. record (empty_array 0 (length vs)) { ints = ints }) _ _
      (read_many-IsExact _ _ _ _ (read_unsigned-IsExact 1) vs h)
read_array-scalar i8 vs h =
    then_pure _ (λ ints. record (empty_array 1 (length vs)) { ints = ints }) _ _
      (read_many-IsExact _ _ _ _ (read_signed-IsExact 1 8) vs h)
read_array-scalar u16 vs h =
    then_pure _ (λ ints. record (empty_array 2 (length vs)) { ints = ints }) _ _
      (read_many-IsExact _ _ _ _ (read_unsigned-IsExact 2) vs h)
read_array-scalar i16 vs h =
    then_pure _ (λ ints. record (empty_array 3 (length vs)) { ints = ints }) _ _
      (read_many-IsExact _ _ _ _ (read_signed-IsExact 2 16) vs h)
read_array-scalar u32 vs h =
    then_pure _ (λ ints. record (empty_array 4 (length vs)) { ints = ints }) _ _
      (read_many-IsExact _ _ _ _ (read_unsigned-IsExact 4) vs h)
read_array-scalar i32 vs h =
    then_pure _ (λ ints. record (empty_array 5 (length vs)) { ints = ints }) _ _
      (read_many-IsExact _ _ _ _ (read_signed-IsExact 4 32) vs h)
read_array-scalar u64 vs h =
    then_pure _ (λ ints. record (empty_array 10 (length vs)) { ints = ints }) _ _
      (read_many-IsExact _ _ _ _ (read_unsigned-IsExact 8) vs h)
read_array-scalar i64 vs h =
    then_pure _ (λ ints. record (empty_array 11 (length vs)) { ints = ints }) _ _
      (read_many-IsExact _ _ _ _ (read_signed-IsExact 8 64) vs h)
read_array-scalar f32 vs h =
    then_pure _ (λ floats. record (empty_array 6 (length vs)) { floats = floats }) _ _
      (read_many-IsExact _ _ _ _ read_float-IsExact vs h)
read_array-scalar f64 vs h =
    then_pure _ (λ floats. record (empty_array 12 (length vs)) { floats = floats }) _ _
      (read_many-IsExact _ _ _ _ read_double-IsExact vs h)
read_array-scalar flag vs h =
    then_pure _ (λ bools. record (empty_array 7 (length vs)) { bools = bools }) _ _
      (read_many-IsExact _ _ _ _ read_bool-IsExact vs h)

map-id {ℓ} : {A : Type ℓ} (xs : List A) → map (λ x. x) xs ≡ xs
map-id [] = refl
map-id (x ∷ xs) = ap (λ t. x ∷ t) (map-id xs)

-- A list of items that are read as they are.
pub read_list-IsExact {ℓ} :
    {A : Type ℓ} (Valid : A → Type 0) (item : Reader A) (w : A → Bytes)
    → ((a : A) → Valid a → IsExact item a (w a))
    → (xs : List A) → All Valid xs
    → IsExact (read_many item (length xs)) xs (write_many w xs)
read_list-IsExact Valid item w h xs v =
    subst (λ ys. IsExact (read_many item (length xs)) ys (write_many w xs)) (map-id xs)
      (read_many-IsExact Valid item (λ x. x) w h xs v)

read_array-texts :
    (ss : List Bytes)
    → All FitsText ss
    → IsExact
        (read_array 8 (length ss))
        (record (empty_array 8 (length ss)) { strings = ss })
        (write_many write_string ss)
unfolding read_array metadata_type read_array_of
read_array-texts ss h =
    then_pure _ (λ strings. record (empty_array 8 (length ss)) { strings = strings }) _ _
      (read_list-IsExact FitsText read_string write_string read_string-IsExact ss h)

type_id-small : (t : ScalarType) → type_id t < 256 ^ 4
type_id-small t = grind arith

-- An array with its item type and its length before it.
read_value-array :
    (item_type n : ℕ) (a : GgufArray) (xs : Bytes)
    → item_type < 256 ^ 4
    → n < 2 ^ 64
    → IsExact (read_array item_type n) a xs
    → IsExact (read_value 9) (array a) (le_bytes 4 item_type ++ (le_bytes 8 n ++ xs))
unfolding read_value metadata_type read_value_of
read_value-array item_type n a xs t lt h =
    >>=-IsExact (read_scalar 4) _ item_type _ (le_bytes 4 item_type) (le_bytes 8 n ++ xs)
      (read_scalar-IsExact 4 item_type t)
      (>>=-IsExact (read_scalar 8) _ n _ (le_bytes 8 n) xs (read_scalar-IsExact 8 n lt)
        (then_pure _ array a xs h))

read_value-text : (s : Bytes) → FitsText s → IsExact (read_value 8) (string s) (write_string s)
unfolding read_value metadata_type read_value_of
read_value-text s h = then_pure _ string _ _ (read_string-IsExact s h)

pub read_value-IsExact :
    (v : Stored) → Fits v → IsExact (read_value (stored_type v)) (stored_value v) (write_stored v)
read_value-IsExact (number t v) h = read_value-scalar t v h
read_value-IsExact (text s) h = read_value-text s h
read_value-IsExact (scalars t vs) h =
    read_value-array (type_id t) (length vs) _ _ (type_id-small t) h.0 (read_array-scalar t vs h.1)
read_value-IsExact (texts ss) h =
    read_value-array 8 (length ss) _ _ (omega arith) h.0 (read_array-texts ss h.1)
