-- ===== src/Model/KvCache/Reserve.antt =====
-- `reserve` before `ensure_kv` (src/model/qwen3.cpp).
use pocket_llm.Prelude.{ℕ, ◌≤◌, ◌≡◌, refl, true, some, Bool-cases, inl, inr, arith}
use pocket_llm.Model.KvCache.{Buffer, Shape, KvCache, reserved, holds, ensure_kv, reserve}
use pocket_llm.Model.KvCache.Grow.{grown_capacity-some}

holds_mono {ℓ} :
    {A : Type ℓ} (kv : KvCache A) (p p' n n' : ℕ)
    → holds kv p n ≡ true
    → p' ≤ p
    → n' ≤ n
    → holds kv p' n' ≡ true
unfolding holds
holds_mono kv p p' n n' h hp hn = ground (arith, h)

ensure_kv-holds {ℓ} :
    {A : Type ℓ} (shape : Shape) (fresh : Buffer A) (kv : KvCache A) (positions n_seq : ℕ)
    → holds kv positions n_seq ≡ true
    → ensure_kv shape fresh kv positions n_seq ≡ some kv
unfolding ensure_kv
ensure_kv-holds shape fresh kv positions n_seq h = rw (h, ensure_kv) refl

fresh-holds {ℓ} :
    {A : Type ℓ} (kv : KvCache A) (fresh : Buffer A) (grown slots : ℕ)
    → holds (record kv { cache = some fresh; capacity = grown; slots = slots }) grown slots ≡ true
unfolding holds
fresh-holds kv fresh grown slots = ground arith

-- A reservation that is within the context length is made, and behind it the slabs are not touched: a
-- forward pass with no more positions and no more sequences takes the early return of `ensure_kv`.
pub ensure_kv-reserve {ℓ} :
    {A : Type ℓ} (shape : Shape) (fresh fresh' : Buffer A) (kv : KvCache A)
    (positions slots p n : ℕ)
    → 1 ≤ positions
    → 1 ≤ slots
    → positions ≤ shape.context
    → p ≤ positions
    → n ≤ slots
    → (after : KvCache A) × (reserve shape fresh kv positions slots ≡ reserved after)
      × (ensure_kv shape fresh' after p n ≡ some after)
unfolding reserve
ensure_kv-reserve shape fresh fresh' kv positions slots p n hp hs small lp ln =
    let (grown, e, reached, above) =
      grown_capacity-some shape.context kv.capacity positions small in
    elim (Bool-cases (holds kv grown slots)) [
      | inl b ↦ (
        kv,
        ground (arith, e, b),
        ensure_kv-holds shape fresh' kv p n (holds_mono kv grown p slots n b (omega arith) ln),
      )
      | inr b ↦
          let after = record kv { cache = some fresh; capacity = grown; slots = slots } in
          (
            after,
            ground (arith, e, b),
            ensure_kv-holds shape fresh' after p n (
                holds_mono after grown p slots n (fresh-holds kv fresh grown slots) (omega arith)
                  ln),
          )
    ]
