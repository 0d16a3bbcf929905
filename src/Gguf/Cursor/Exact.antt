-- ===== src/Gguf/Cursor/Exact.antt =====
-- Reads of `Cursor` (src/gguf/reader.cpp) that give back what was written at their position.
use mathlib.Core.Path.{subst}
use native.Mathlib.Nat.{div-lt_iff_lt-mul, pow-suc}
use pocket_llm.Prelude.{
  ℕ, zero, suc, ◌+◌, ◌/◌, ◌%◌, ◌^◌, ◌<◌, ◌≡◌, refl, sym, ap, ◌∙◌, [], ◌∷◌, ◌++◌, Bytes, length,
  take, drop, arith, length-append, append_assoc, append-nil,
}
use pocket_llm.Gguf.Cursor.{
  ok, Reader, ◌>>=◌, and_then, pure, read, read_scalar, little_endian, string_bytes, read_string,
}

-- The read gives the value wherever the bytes stand, and ends behind them.
abbrev pub IsExact {ℓ} : {A : Type ℓ} → Reader A → A → Bytes → Type ℓ
IsExact m a bytes =
    (file before after : Bytes) (pos end : ℕ)
    → length file < 2 ^ 63
    → file ≡ before ++ (bytes ++ after)
    → pos ≡ length before
    → end ≡ length before + length bytes
    → m file pos ≡ ok (a, end)

pub pure-IsExact {ℓ} : {A : Type ℓ} (a : A) → IsExact (pure a) a []
pure-IsExact a file before after pos end lt e p q = ground arith

pub >>=-IsExact {ℓ κ} :
    {A : Type ℓ} {B : Type κ} (m : Reader A) (f : A → Reader B) (a : A) (b : B) (xs ys : Bytes)
    → IsExact m a xs
    → IsExact (f a) b ys
    → IsExact (m >>= f) b (xs ++ ys)
>>=-IsExact m f a b xs ys hm hf file before after pos end lt e p q =
    let first : m file pos ≡ ok (a, length before + length xs) =
      hm file before (ys ++ after) pos _ lt (e ∙ ap (λ t. before ++ t) (append_assoc xs ys after)) p
        refl in
    let second : f a file (length before + length xs) ≡ ok (b, end) =
      hf file (before ++ xs) after _ end lt
        (e
          ∙ ap (λ t. before ++ t) (append_assoc xs ys after)
          ∙ sym (append_assoc before xs (ys ++ after)))
        (sym (length-append before xs))
        (q ∙ omega (arith, length-append xs ys, length-append before xs)) in
    ap (λ r. and_then r (λ r. f r.0 file r.1)) first ∙ second

split_at :
    (before bytes after : Bytes)
    → take (length bytes) (drop (length before) (before ++ (bytes ++ after))) ≡ bytes
split_at [] [] after = refl
split_at [] (b ∷ bytes) after = ap (λ t. b ∷ t) (split_at [] bytes after)
split_at (b ∷ before) bytes after = split_at before bytes after

pub read-IsExact : (bytes : Bytes) (n : ℕ) → length bytes ≡ n → IsExact (read n) bytes bytes
unfolding read
read-IsExact bytes n h file before after pos end lt e p q =
    let size : length file ≡ length before + length bytes + length after =
      ap length e
      ∙ omega (arith, length-append before (bytes ++ after), length-append bytes after) in
    let part : take n (drop pos file) ≡ bytes = rw (sym h, p, e) (split_at before bytes after) in
    ground (arith, size, part)

-- The little-endian bytes of a number.
unfoldable pub le_bytes : ℕ → ℕ → Bytes
le_bytes zero v = []
le_bytes (suc n) v = v % 256 ∷ le_bytes n (v / 256)

pub length-le_bytes : (n v : ℕ) → length (le_bytes n v) ≡ n
unfolding le_bytes
length-le_bytes zero v = refl
length-le_bytes (suc n) v = ap suc (length-le_bytes n (v / 256))

little_endian-le_bytes : (n v : ℕ) → v < 256 ^ n → little_endian (le_bytes n v) ≡ v
unfolding little_endian le_bytes
little_endian-le_bytes zero v h = omega arith
little_endian-le_bytes (suc n) v h =
    rw
      (little_endian-le_bytes n (v / 256)
        ((div-lt_iff_lt-mul (omega arith)).1 (rw (sym (pow-suc 256 n)) h)))
      (omega arith)

pub read_scalar-IsExact : (n v : ℕ) → v < 256 ^ n → IsExact (read_scalar n) v (le_bytes n v)
unfolding read_scalar
read_scalar-IsExact n v h =
    subst (λ xs. IsExact (read_scalar n) v xs) (append-nil (le_bytes n v))
      (>>=-IsExact (read n) _ (le_bytes n v) v (le_bytes n v) []
        (read-IsExact (le_bytes n v) n (length-le_bytes n v))
        (subst (λ u. IsExact (pure (little_endian (le_bytes n v))) u [])
          (little_endian-le_bytes n v h) (pure-IsExact _)))

string_bytes-IsExact : (s : Bytes) → IsExact (string_bytes (length s)) s s
unfolding string_bytes
string_bytes-IsExact s file before after pos end lt e p q =
    let size : length file ≡ length before + length s + length after =
      ap length e ∙ omega (arith, length-append before (s ++ after), length-append s after) in
    let part : take (length s) (drop pos file) ≡ s = rw (p, e) (split_at before s after) in
    ground (arith, size, part)

pub read_string-IsExact :
    (s : Bytes) → length s < 2 ^ 64 → IsExact read_string s (le_bytes 8 (length s) ++ s)
unfolding read_string
read_string-IsExact s h =
    >>=-IsExact (read_scalar 8) string_bytes (length s) s (le_bytes 8 (length s)) s
      (read_scalar-IsExact 8 (length s) (omega arith)) (string_bytes-IsExact s)
