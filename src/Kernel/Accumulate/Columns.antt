-- ===== src/Kernel/Accumulate/Columns.antt =====
-- The walks of a block visit its columns in order (src/kernel/cuda/backend.cu).

use native.Mathlib.Nat.{zero-add, zero-mul}
use pocket_llm.Prelude.{
  ℕ, zero, suc, ◌+◌, ◌*◌, ◌/◌, ◌%◌, ◌^◌, ◌<◌, ◌≡◌, refl, sym, ap, ◌∙◌, ◌⊎◌, inl, inr, List, [], ◌∷◌,
  ◌++◌, Bytes, IsByte, All, arith,
}
use pocket_llm.Quant.Blocks.{Weight, as_byte}
use pocket_llm.Kernel.Repack.Expanded.{as_byte-IsByte}
use pocket_llm.Kernel.Accumulate.{Term, loaded_word, word_byte, run_terms, all_runs}

-- The columns from `col` on, in order, each with its weight.
abbrev pub columns : (ℕ → Weight) → (col count : ℕ) → List Term
columns weight col zero = []
columns weight col (suc count) = (col, weight col) ∷ columns weight (col + 1) count

pub columns-append :
    (h : ℕ → Weight) (col n m : ℕ)
    → columns h col (n + m) ≡ columns h col n ++ columns h (col + n) m
columns-append h col zero m =
    ap (columns h col) (zero-add m) ∙ ap (λ x. columns h x m) (omega arith)
columns-append h col (suc n) m =
    let count : suc n + m ≡ suc (n + m) = omega arith in
    ap (columns h col) count
    ∙ ap (λ l. (col, h col) ∷ l)
        (columns-append h (col + 1) n m
          ∙ ap (λ x. columns h (col + 1) n ++ columns h x m) (omega arith))

pub run_terms-columns :
    (f h : ℕ → Weight) (col from count : ℕ)
    → ((j : ℕ) → j < count → f (from + j) ≡ h (col + j))
    → run_terms f col from count ≡ columns h col count
unfolding run_terms
run_terms-columns f h col from zero e = refl
run_terms-columns f h col from (suc count) e =
    let first : f from ≡ h col = ap f (omega arith) ∙ e 0 (omega arith) ∙ ap h (omega arith) in
    let rest =
      run_terms-columns f h (col + 1) (from + 1) count
        (λ j lt. ap f (omega arith) ∙ e (suc j) (omega arith) ∙ ap h (omega arith)) in
    ap (λ w. (col, w) ∷ run_terms f (col + 1) (from + 1) count) first
    ∙ ap (λ l. (col, h col) ∷ l) rest

pub all_runs-columns :
    (f : ℕ → ℕ → Weight) (h : ℕ → Weight) (size group col count : ℕ)
    → ((k i : ℕ) → k < count → i < size → f (group + k) i ≡ h (col + (k * size + i)))
    → all_runs f size group col count ≡ columns h col (count * size)
unfolding all_runs
all_runs-columns f h size group col zero e = ap (columns h col) (sym (zero-mul size))
all_runs-columns f h size group col (suc count) e =
    let first = run_terms-columns (f group) h col 0 size (λ i lt.
      ap (λ g. f g (0 + i)) (omega arith)
      ∙ ap (f (group + 0)) (zero-add i)
      ∙ e 0 i (omega arith) lt
      ∙ ap h (omega arith)) in
    let rest = all_runs-columns f h size (group + 1) (col + size) count (λ k i lt inside.
      ap (λ g. f g i) (omega arith) ∙ e (suc k) i (omega arith) inside ∙ ap h (omega arith)) in
    let whole : size + count * size ≡ suc count * size = omega arith in
    ap (λ l. l ++ all_runs f size (group + 1) (col + size) count) first
    ∙ ap (λ l. columns h col size ++ l) rest
    ∙ sym (columns-append h col size (count * size))
    ∙ ap (columns h col) whole

below_four : (k : ℕ) → k < 4 → (k ≡ 0) ⊎ ((k ≡ 1) ⊎ ((k ≡ 2) ⊎ (k ≡ 3)))
below_four zero h = inl refl
below_four (suc zero) h = inr (inl refl)
below_four (suc (suc zero)) h = inr (inr (inl refl))
below_four (suc (suc (suc zero))) h = inr (inr (inr refl))
below_four (suc (suc (suc (suc k)))) h = absurd (omega arith)

-- A byte of a word.
byte_of :
    (b0 b1 b2 b3 : ℕ)
    → IsByte b0
    → IsByte b1
    → IsByte b2
    → IsByte b3
    → ((b0 + b1 * 2 ^ 8 + b2 * 2 ^ 16 + b3 * 2 ^ 24) / 2 ^ (0 * 8) % 2 ^ 8 ≡ b0)
      × ((b0 + b1 * 2 ^ 8 + b2 * 2 ^ 16 + b3 * 2 ^ 24) / 2 ^ (1 * 8) % 2 ^ 8 ≡ b1)
      × ((b0 + b1 * 2 ^ 8 + b2 * 2 ^ 16 + b3 * 2 ^ 24) / 2 ^ (2 * 8) % 2 ^ 8 ≡ b2)
      × ((b0 + b1 * 2 ^ 8 + b2 * 2 ^ 16 + b3 * 2 ^ 24) / 2 ^ (3 * 8) % 2 ^ 8 ≡ b3)
byte_of b0 b1 b2 b3 h0 h1 h2 h3 = (omega arith, omega arith, omega arith, omega arith)

pub word_byte-as_byte :
    (block : Bytes) (at o : ℕ) → All IsByte block → word_byte block at o ≡ as_byte block (at + o)
unfolding word_byte loaded_word
word_byte-as_byte block at o bytes =
    let base = at + o / 4 * 4 in
    let (e0, e1, e2, e3) =
      byte_of (as_byte block base) (as_byte block (base + 1)) (as_byte block (base + 2))
        (as_byte block (base + 3)) (as_byte-IsByte block base bytes)
        (as_byte-IsByte block (base + 1) bytes) (as_byte-IsByte block (base + 2) bytes)
        (as_byte-IsByte block (base + 3) bytes) in
    elim (below_four (o % 4) (omega arith)) [
      | inl e ↦ let same : base ≡ at + o = omega arith in rw e (e0 ∙ ap (as_byte block) same)
      | inr (inl e) ↦
          let same : base + 1 ≡ at + o = omega arith in rw e (e1 ∙ ap (as_byte block) same)
      | inr (inr (inl e)) ↦
          let same : base + 2 ≡ at + o = omega arith in rw e (e2 ∙ ap (as_byte block) same)
      | inr (inr (inr e)) ↦
          let same : base + 3 ≡ at + o = omega arith in rw e (e3 ∙ ap (as_byte block) same)
    ]
