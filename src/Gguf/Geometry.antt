-- ===== src/Gguf/Geometry.antt =====
-- Sizes of tensors: the table of src/abi/spec.cpp and `tensor_nbytes` of src/gguf/reader.cpp.
use native.Mathlib.Nat.{
  add-mul-mod_self_right, div-add-mod, mul_assoc, div-mul-le_self, lt-div-mul-add,
}
use mathlib.Core.Path.{subst}
use pocket_llm.Prelude.{
  ℕ, ◌+◌, ◌-◌, ◌*◌, ◌/◌, ◌%◌, ◌^◌, ◌≤◌, ◌<◌, ◌≡◌, ◌↔◌, refl, sym, ap, ◌∙◌, Bool, true, false, List,
  [], ◌∷◌, none, some, get_or-out, Option-cases, inl, inr, arith, leb, holds_below, holds_below→all,
}
use pocket_llm.Gguf.Cursor.{u64_mod}
use pocket_llm.Gguf.Types.{
  GgmlType, ggml_types, ggml_type_at, ggml_type_of, elements_of, type_nbytes, tensor_nbytes,
}

-- The number of elements, without a bound.
abbrev pub product : List ℕ → ℕ
product [] = 1
product (dim ∷ dimensions) = dim * product dimensions

split_mul : (q r b m : ℕ) → r * b + q * b * m ≡ (m * q + r) * b
split_mul q r b m = omega arith

mod-mul-mod : (a b m : ℕ) → a % m * b % m ≡ a * b % m
mod-mul-mod a b m =
    sym (add-mul-mod_self_right (a % m * b) (a / m * b) m)
    ∙ ap (λ t. t % m) (split_mul (a / m) (a % m) b m ∙ ap (λ t. t * b) (div-add-mod a m))

elements_of-product :
    (e : ℕ) (dimensions : List ℕ)
    → e < 2 ^ 64
    → elements_of e dimensions ≡ e * product dimensions % 2 ^ 64
unfolding elements_of
elements_of-product e [] h = omega arith
elements_of-product e (dim ∷ dimensions) h =
    elements_of-product (e * dim % u64_mod) dimensions (omega arith)
    ∙ mod-mul-mod (e * dim) (product dimensions) u64_mod
    ∙ ap (λ t. t % u64_mod) (mul_assoc e dim (product dimensions))

-- Every entry that has an initializer has a name.
is_named : ℕ → Bool
unfolding ggml_types ggml_type_at
is_named id = elim (ggml_type_at id).name [ none ↦ false | some name ↦ true ]

is_named-table : (id : ℕ) → id < 31 → is_named id ≡ true
unfolding ggml_types ggml_type_at holds_below is_named
is_named-table = holds_below→all 31 is_named refl

unnamed : (id : ℕ) → 31 ≤ id → (ggml_type_at id).name ≡ none
unfolding ggml_types ggml_type_at
unnamed id h =
    ap (λ (t : GgmlType). t.name)
      (get_or-out ggml_types id (record { name = none; block_elems = 0; block_bytes = 0 }) h)

-- The lookup of a storage type goes through a null pointer for the ids behind the last initializer of
-- the table, 31 to 143, and for no other.
pub ggml_type_of-null : (id : ℕ) → (ggml_type_of id ≡ none) ↔ ((31 ≤ id) × (id < 144))
unfolding ggml_type_of is_named
ggml_type_of-null id = ground (arith, is_named-table id, unnamed id)

-- The blocks of size `k` that hold `p` elements are the fewest that do.
pub ceil_bounds : (p k : ℕ) → 0 < k → (p ≤ (p + k - 1) / k * k) × ((p + k - 1) / k * k < p + k)
ceil_bounds p k h = omega (arith, div-mul-le_self (p + k - 1) k, lt-div-mul-add {a = p + k - 1} h)

-- No block of the table is longer than 256 elements.
is_short : ℕ → Bool
unfolding ggml_types ggml_type_at
is_short id = leb (ggml_type_at id).block_elems 256

is_short-table : (id : ℕ) → id < 144 → is_short id ≡ true
unfolding ggml_types ggml_type_at holds_below is_short
is_short-table = holds_below→all 144 is_short refl

ggml_type_of-short :
    (id : ℕ) (type : GgmlType) → ggml_type_of id ≡ some type → type.block_elems ≤ 256
unfolding ggml_type_of is_short
ggml_type_of-short id type e = ground (arith, is_short-table id)

type_nbytes-ceil :
    (type : GgmlType) (dimensions : List ℕ) (n : ℕ)
    → type_nbytes type dimensions ≡ some n
    → product dimensions + type.block_elems < 2 ^ 64
    → (0 < type.block_elems)
      × (n
          ≡ (product dimensions + type.block_elems - 1)
            / type.block_elems
            * type.block_bytes
            % 2 ^ 64)
unfolding type_nbytes
type_nbytes-ceil type dimensions n e h =
    let exact : elements_of 1 dimensions ≡ product dimensions =
      elements_of-product 1 dimensions (omega arith) ∙ omega arith in
    let blocks : (elements_of 1 dimensions + type.block_elems + u64_mod - 1) % u64_mod
        ≡ product dimensions + type.block_elems - 1 =
      ground (arith, exact) in
    (
      ground (arith, e),
      subst (λ p. n ≡ p / type.block_elems * type.block_bytes % 2 ^ 64) blocks (ground (arith, e)),
    )

-- Where the size of a tensor is known, it is a whole number of blocks, wrapped to 64 bits, and these are
-- the fewest that hold the elements, if the elements and one block more are not past 64 bits.
pub tensor_nbytes-Covers :
    (id : ℕ) (dimensions : List ℕ) (n : ℕ)
    → tensor_nbytes id dimensions ≡ some (some n)
    → product dimensions + 256 < 2 ^ 64
    → (type : GgmlType) × (blocks : ℕ) × (ggml_type_of id ≡ some type)
      × (product dimensions ≤ blocks * type.block_elems)
      × (blocks * type.block_elems < product dimensions + type.block_elems)
      × (n ≡ blocks * type.block_bytes % 2 ^ 64)
unfolding tensor_nbytes
tensor_nbytes-Covers id dimensions n e h = elim (Option-cases (ggml_type_of id)) [
  | inl x ↦ absurd (ground (arith, e, x))
  | inr (type, t) ↦
      let (positive, eq) =
        type_nbytes-ceil type dimensions n (ground (arith, e, t))
          (omega (arith, ggml_type_of-short id type t)) in
      let (above, below) = ceil_bounds (product dimensions) type.block_elems positive in
      (type, (product dimensions + type.block_elems - 1) / type.block_elems, t, above, below, eq)
]
