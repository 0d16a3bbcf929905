-- ===== src/Gguf/Cursor/Local.antt =====
-- Reads of `Cursor` (src/gguf/reader.cpp) that look at no byte behind the position they end at.
use pocket_llm.Prelude.{
  ℕ, zero, suc, ◌+◌, ◌^◌, ◌≤◌, ◌<◌, ◌≡◌, refl, ap, ◌⊎◌, inl, inr, ◌∙◌, [], ◌∷◌, ◌++◌, Bytes, length,
  take, drop, arith, length-append,
}
use pocket_llm.Gguf.Cursor.{
  Error, Result, and_then, ok, err, Reader, ◌>>=◌, pure, throw, position, read, read_scalar,
  string_bytes, read_string,
}

pub Result-cases {ℓ} :
    {A : Type ℓ} (r : Result A) → ((a : A) × (r ≡ ok a)) ⊎ ((e : Error) × (r ≡ err e))
Result-cases (ok a) = inl (a, refl)
Result-cases (err e) = inr (e, refl)

-- A read that succeeds ends inside the file, and gives the same in any longer file.
abbrev pub IsLocal {ℓ} : {A : Type ℓ} → Reader A → Type ℓ
IsLocal {A = A} m =
    (file more : Bytes) (pos : ℕ) (a : A) (end : ℕ)
    → length (file ++ more) < 2 ^ 63
    → pos ≤ length file
    → m file pos ≡ ok (a, end)
    → (pos ≤ end) × (end ≤ length file) × (m (file ++ more) pos ≡ ok (a, end))

pub and_then-eq-ok {ℓ κ} :
    {A : Type ℓ} {B : Type κ} (r : Result A) (f : A → Result B) {b : B}
    → and_then r f ≡ ok b
    → (a : A) × (r ≡ ok a) × (f a ≡ ok b)
and_then-eq-ok (ok a) f h = (a, refl, h)
and_then-eq-ok (err e) f h = cc

pub >>=-IsLocal {ℓ κ} :
    {A : Type ℓ} {B : Type κ} (m : Reader A) (f : A → Reader B)
    → IsLocal m
    → ((a : A) → IsLocal (f a))
    → IsLocal (m >>= f)
>>=-IsLocal m f hm hf file more pos b end lt le h =
    let ((a, mid), e, e') = and_then-eq-ok (m file pos) _ h in
    let (p, q, r) = hm file more pos a mid lt le e in
    let (p', q', r') = hf a file more mid b end lt q e' in
    (omega arith, q', ap (λ t. and_then t (λ r. f r.0 (file ++ more) r.1)) r ∙ r')

pub pure-IsLocal {ℓ} : {A : Type ℓ} (a : A) → IsLocal (pure a)
pure-IsLocal a file more pos b end lt le h = ground arith

pub throw-IsLocal {ℓ} : {A : Type ℓ} (e : Error) → IsLocal (throw {A = A} e)
throw-IsLocal e file more pos b end lt le h = ground arith

pub position-IsLocal : IsLocal position
position-IsLocal file more pos b end lt le h = ground arith

take-drop-append :
    (count pos : ℕ) (file more : Bytes)
    → pos + count ≤ length file
    → take count (drop pos (file ++ more)) ≡ take count (drop pos file)
take-drop-append zero pos file more h = refl
take-drop-append (suc count) zero [] more h = absurd (omega arith)
take-drop-append (suc count) zero (b ∷ file) more h =
    ap (λ t. b ∷ t) (take-drop-append count zero file more (omega arith))
take-drop-append (suc count) (suc pos) [] more h = absurd (omega arith)
take-drop-append (suc count) (suc pos) (b ∷ file) more h =
    take-drop-append (suc count) pos file more (omega arith)

pub read-IsLocal : (count : ℕ) → count < 2 ^ 63 → IsLocal (read count)
unfolding read
read-IsLocal count c file more pos b end lt le h =
    ground (arith, length-append file more, take-drop-append count pos file more)

pub read_scalar-IsLocal : (size : ℕ) → size < 2 ^ 63 → IsLocal (read_scalar size)
unfolding read_scalar
read_scalar-IsLocal size c =
    >>=-IsLocal (read size) _ (read-IsLocal size c) (λ bytes. pure-IsLocal _)

string_bytes-IsLocal : (n : ℕ) → IsLocal (string_bytes n)
unfolding string_bytes
string_bytes-IsLocal n file more pos b end lt le h =
    ground (arith, length-append file more, take-drop-append n pos file more)

pub read_string-IsLocal : IsLocal read_string
unfolding read_string
read_string-IsLocal =
    >>=-IsLocal (read_scalar 8) string_bytes (read_scalar-IsLocal 8 (omega arith))
      string_bytes-IsLocal
