-- ===== src/Model/KvCache/Grow.antt =====
-- The capacity that `ensure_kv` grows to (src/model/qwen3.cpp).
use pocket_llm.Prelude.{
  ℕ, zero, suc, ◌+◌, ◌*◌, ◌≤◌, ◌<◌, ◌≡◌, refl, some, ltb, ltb→lt, Bool-cases, inl, inr, min, max,
  arith,
}
use pocket_llm.Model.KvCache.{
  Buffer, Shape, KvCache, grow_loop, grown_capacity, initial_positions, holds, grow_kv, ensure_kv,
}

grow_loop-some :
    (fuel context positions grown : ℕ)
    → positions ≤ context
    → 1 ≤ grown
    → positions ≤ grown + fuel
    → (n : ℕ) × (grow_loop fuel context positions grown ≡ some n) × (positions ≤ n) × (grown ≤ n)
unfolding grow_loop
grow_loop-some zero context positions grown h one enough =
    (grown, ground arith, omega arith, omega arith)
grow_loop-some (suc fuel) context positions grown h one enough =
    elim (Bool-cases (ltb grown positions)) [
      | inr stop ↦ (grown, ground (arith, stop), ground (arith, stop), omega arith)
      | inl go ↦
          let small : grown < positions = ltb→lt grown positions go in
          let (n, e, reached, above) =
            grow_loop-some fuel context positions (min (grown * 2) context) h (omega arith)
              (omega arith) in
          (n, ground (arith, go, e), reached, omega arith)
    ]

-- The capacity grows within the loop's fuel if the context is as long as the positions: to as many rows
-- as are asked for, and to no fewer than there were.
pub grown_capacity-some :
    (context capacity positions : ℕ)
    → positions ≤ context
    → (n : ℕ) × (grown_capacity context capacity positions ≡ some n)
      × (positions ≤ n)
      × (capacity ≤ n)
unfolding grown_capacity
grown_capacity-some context capacity positions h =
    let (n, e, reached, above) =
      grow_loop-some positions context positions (max capacity initial_positions) h (omega arith)
        (omega arith) in
    (n, e, reached, omega arith)

-- `ensure_kv` ends, if the positions are within the context length, and leaves slabs
-- with the rows and the sequence slots that were asked for, and no fewer rows than before.
pub ensure_kv-some {ℓ} :
    {A : Type ℓ} (shape : Shape) (fresh : Buffer A) (kv : KvCache A) (positions n_seq : ℕ)
    → positions ≤ shape.context
    → (after : KvCache A) × (ensure_kv shape fresh kv positions n_seq ≡ some after)
      × (positions ≤ after.capacity)
      × (n_seq ≤ after.slots)
      × (kv.capacity ≤ after.capacity)
unfolding ensure_kv holds grow_kv
ensure_kv-some shape fresh kv positions n_seq h =
    let (n, e, reached, above) = grown_capacity-some shape.context kv.capacity positions h in
    elim (Bool-cases (holds kv positions n_seq)) [
      | inl b ↦ (kv, rw (b, ensure_kv) refl, ground (arith, b), ground (arith, b), omega arith)
      | inr b ↦
          (grow_kv shape fresh kv n_seq n, rw (b, e, ensure_kv) refl, reached, omega arith, above)
    ]
