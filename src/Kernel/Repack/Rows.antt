-- ===== src/Kernel/Repack/Rows.antt =====
-- A parallel job over the rows of a matrix writes every entry once (src/kernel/parallel.h).
use pocket_llm.Prelude.{
  ℕ, zero, suc, ◌+◌, ◌-◌, ◌*◌, ◌≤◌, ◌<◌, ◌≡◌, ◌≢◌, refl, sym, ◌∙◌, inl, inr, true, ◌&&◌, ◌==◌, ltb,
  leb, List, [], ◌∷◌, if◌then◌else◌, arith, dec_lt, Bool-cases, ==_iff,
}
use pocket_llm.Kernel.Parallel.{Range, parallel_for, parallel_tasks}
use pocket_llm.Kernel.Parallel.Partition.{IsPartition, parallel_for-IsPartition}
use pocket_llm.Kernel.Repack.{Buffer, write, over_ranges, count_up}

row_below : (p q b c nb : ℕ) → b < nb → q < p → q * nb + b ≢ p * nb + c
row_below zero q b c nb hb lt e = elim lt [ ]
row_below (suc p) q b c nb hb lt e = let up : q * nb ≤ p * nb = grind arith in absurd (grind arith)

-- An entry's place tells its row and its column.
entry_of : (p q b c nb : ℕ) → b < nb → c < nb → q * nb + b ≡ p * nb + c → (q ≡ p) × (b ≡ c)
entry_of p q b c nb hb hc e = elim (dec_lt q p) [
  | yes less ↦ absurd (row_below p q b c nb hb less e)
  | no not_less ↦ elim (dec_lt p q) [
    | yes more ↦ absurd (row_below q p c b nb hc more (sym e))
    | no not_more ↦
        let same : q ≡ p = omega arith in (same, let e' = (rw same at e) in omega (arith, e'))
  ]
]

-- The loops of a job: row `p` from `lo` on, and in it each of its `nb` entries, which the body works
-- out from its row, its column and what was there.
module _ {A : Type 0} (F : ℕ → ℕ → A → A) (nb : ℕ) where
  abbrev pub entry : ℕ → ℕ → Buffer A → Buffer A
  entry p b out = write out (p * nb + b) (F p b (out (p * nb + b)))

  abbrev pub rows : ℕ → ℕ → Buffer A → Buffer A
  rows lo hi = count_up (λ p. count_up (entry p) 0 nb) lo (hi - lo)

  entry_lem :
      (p c q b : ℕ) (out : Buffer A)
      → b < nb
      → c < nb
      → entry p c out (q * nb + b)
        ≡ (if q == p && b == c then F q b (out (q * nb + b)) else out (q * nb + b))
  entry_lem p c q b out hb hc = elim (Bool-cases (q == p && b == c)) [
    | inl both ↦
        let row : q ≡ p = ground (arith, both) in
        let column : b ≡ c = ground (arith, both) in
        let at : (q * nb + b == p * nb + c) ≡ true = (==_iff _ _).1 (rw (row, column) refl) in
        rw (at, both) (rw (row, column) refl)
    | inr neither ↦ elim (Bool-cases (q * nb + b == p * nb + c)) [
      | inl at ↦
          let (row, column) = entry_of p q b c nb hb hc ((==_iff _ _).0 at) in
          absurd (ground (arith, row, column, neither))
      | inr other ↦ rw (other, neither) refl
    ]
  ]

  -- The inner loop.
  columns_lem :
      (p c count q b : ℕ) (out : Buffer A)
      → b < nb
      → c + count ≤ nb
      → count_up (entry p) c count out (q * nb + b) ≡ (
          if q == p && (leb c b && ltb b (c + count))
          then F q b (out (q * nb + b))
          else out (q * nb + b))
  unfolding count_up
  columns_lem p c zero q b out hb h = ground arith
  columns_lem p c (suc count) q b out hb h = ground (
    arith,
    columns_lem p (c + 1) count q b (entry p c out) hb (omega arith),
    entry_lem p c q b out hb (omega arith),
  )

  -- The outer loop.
  rows_lem :
      (p count q b : ℕ) (out : Buffer A)
      → b < nb
      → count_up (λ r. count_up (entry r) 0 nb) p count out (q * nb + b)
        ≡ (if leb p q && ltb q (p + count) then F q b (out (q * nb + b)) else out (q * nb + b))
  unfolding count_up
  rows_lem p zero q b out hb = ground arith
  rows_lem p (suc count) q b out hb = ground (
    arith,
    rows_lem (p + 1) count q b (count_up (entry p) 0 nb out) hb,
    columns_lem p 0 nb q b out hb (omega arith),
  )

  -- The ranges of a job, from the place `a` on.
  ranges_lem :
      (total tasks a i : ℕ) (ranges : List Range) (q b : ℕ) (out : Buffer A)
      → IsPartition total tasks a i ranges
      → b < nb
      → q < total
      → over_ranges rows ranges out (q * nb + b)
        ≡ (if leb a q then F q b (out (q * nb + b)) else out (q * nb + b))
  unfolding over_ranges IsPartition
  ranges_lem total tasks a i [] q b out h hb lt = ground (arith, h)
  ranges_lem total tasks a i (r ∷ ranges) q b out (lo, less, _, rest) hb lt = ground (
    arith,
    ranges_lem total tasks r.hi (i + 1) ranges q b (rows r.lo r.hi out) rest hb lt,
    rows_lem r.lo (r.hi - r.lo) q b out hb,
    lo,
    less,
  )

  -- A job over all rows, shared out in any way: each entry is worked out once from what was there.
  pub parallel_rows :
      (workers total min_per_task q b : ℕ) (out : Buffer A)
      → b < nb
      → q < total
      → over_ranges rows (parallel_for workers total min_per_task) out (q * nb + b)
        ≡ F q b (out (q * nb + b))
  parallel_rows workers total min_per_task q b out hb lt =
      ranges_lem total (parallel_tasks workers total min_per_task) 0 0
        (parallel_for workers total min_per_task) q b out
        (parallel_for-IsPartition workers total min_per_task (omega (arith, lt))) hb lt
      ∙ ground arith
