-- ===== src/Runtime/Vlm/Grid.antt =====
-- The side that the composition takes for the grid of an image (src/runtime/vlm_session.cpp).
use mathlib.Core.Path.{subst}
use native.Mathlib.Nat.{mul_comm, mul-le-mul}
use pocket_llm.Prelude.{
  ℕ, zero, suc, ◌+◌, ◌*◌, ◌≤◌, ◌<◌, ◌≡◌, ◌≢◌, ◌↔◌, max, leb, Bool-cases, inl, inr, dec_lt,
  ℕ_discrete, arith,
}
use pocket_llm.Runtime.Vlm.{round_sqrt_loop, round_sqrt}

-- The loop from `k` on gives the first number that is enough.
pub record IsLeast (n from k : ℕ) : Type 0 where
  pub enough : n ≤ k * k + k
  pub least : (j : ℕ) → from ≤ j → n ≤ j * j + j → k ≤ j

round_sqrt_loop-IsLeast : (fuel n k : ℕ) → n ≤ k + fuel → IsLeast n k (round_sqrt_loop fuel n k)
unfolding round_sqrt_loop
round_sqrt_loop-IsLeast zero n k h = record { enough = omega arith; least = λ j from e. from }
round_sqrt_loop-IsLeast (suc fuel) n k h = elim (Bool-cases (leb n (k * k + k))) [
  | inl e ↦ rw e (record { enough = ground arith; least = λ j from e'. from })
  | inr e ↦
      let rest = round_sqrt_loop-IsLeast fuel n (k + 1) (omega arith) in
      rw e (record {
        enough = rest.enough;
        least = λ j from e'. elim (dec_lt k j) [
          | yes above ↦ rest.least j (omega arith) e'
          | no not_above ↦
              let same : j ≡ k = omega arith in
              absurd (ground (arith, e, subst (λ x. n ≤ x * x + x) same e'))
        ];
      })
]

round_sqrt-IsLeast : (n : ℕ) → IsLeast n 0 (round_sqrt n)
unfolding round_sqrt
round_sqrt-IsLeast n = round_sqrt_loop-IsLeast n n 0 (omega arith)

-- The root of a square is its side.
round_sqrt-square : (n : ℕ) → round_sqrt (n * n) ≡ n
round_sqrt-square n =
    let r = round_sqrt-IsLeast (n * n) in
    let k = round_sqrt (n * n) in
    let above : k ≤ n = r.least n (omega arith) (omega arith) in
    elim (dec_lt k n) [
      | no not_below ↦ omega arith
      | yes below ↦
          let squares : (k + 1) * (k + 1) ≤ n * n = mul-le-mul (omega arith) (omega arith) in
          absurd (omega (arith, r.enough, squares))
    ]

-- That of a rectangle is less than its longer side.
round_sqrt-longer : (nx ny : ℕ) → nx < ny → round_sqrt (nx * ny) < ny
round_sqrt-longer nx zero h = elim h [ ]
round_sqrt-longer nx (suc m) h =
    let r = round_sqrt-IsLeast (nx * suc m) in
    let wide : nx * suc m ≤ m * suc m = mul-le-mul (omega arith) (omega arith) in
    let least : round_sqrt (nx * suc m) ≤ m = r.least m (omega arith) (omega arith) in omega arith

round_sqrt-other : (nx ny : ℕ) → nx ≢ ny → round_sqrt (nx * ny) < max nx ny
round_sqrt-other nx ny h = elim (dec_lt nx ny) [
  | yes wider ↦ let less = round_sqrt-longer nx ny wider in omega arith
  | no not_wider ↦
      let less = round_sqrt-longer ny nx (omega arith) in rw (mul_comm nx ny) (omega arith)
]

-- For a grid of `nx` by `ny` the composition takes a side that is never more than the longer of the two, and
-- it is the longer one, which `qwen3vl_vision.h` says that a span consumes, just where the grid is a square.
pub round_sqrt-max :
    (nx ny : ℕ)
    → (round_sqrt (nx * ny) ≤ max nx ny) × ((round_sqrt (nx * ny) ≡ max nx ny) ↔ (nx ≡ ny))
round_sqrt-max nx ny = elim (ℕ_discrete nx ny) [
  | yes same ↦
      let root : round_sqrt (nx * ny) ≡ ny = rw same (round_sqrt-square ny) in
      (omega arith, (λ e. same, λ e. omega arith))
  | no other ↦
      let less = round_sqrt-other nx ny other in
      (omega arith, (λ e. absurd (omega arith), λ e. absurd (other e)))
]
