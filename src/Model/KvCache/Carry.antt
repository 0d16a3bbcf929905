-- ===== src/Model/KvCache/Carry.antt =====
-- What a growth of the KV slabs carries over (src/model/qwen3.cpp).
use mathlib.Core.Path.{subst}
use pocket_llm.Prelude.{
  ℕ, zero, suc, ◌+◌, ◌-◌, ◌*◌, ◌≤◌, ◌<◌, ◌≡◌, ◌≢◌, ◌⊎◌, ltb→lt, refl, sym, ◌∙◌, ltb, min, arith,
  Bool-cases, inl, inr, ◌==◌, ==_iff,
}
use pocket_llm.Model.KvCache.{Buffer, Shape, KvCache, copy, copy_slab, slots_loop, layers_loop}

-- Two different slabs do not overlap.
slab_above : (j d s i c : ℕ) → c ≤ s → j * s + c ≤ (j + 1 + d) * s + i
slab_above j d s i c h = omega arith

pub apart_above : (j k s i c : ℕ) → j < k → c ≤ s → j * s + c ≤ k * s + i
apart_above j k s i c lt h =
    let e : j + 1 + (k - j - 1) ≡ k = omega arith in
    subst (λ x. j * s + c ≤ x * s + i) e (slab_above j (k - j - 1) s i c h)

lt_or_gt : (j k : ℕ) → j ≢ k → (j < k) ⊎ (k < j)
lt_or_gt j k ne = elim (Bool-cases (ltb j k)) [
  | inl e ↦ inl (ltb→lt j k e)
  | inr e ↦ inr (ground (arith, e, ne))
]

pub mul_mono : (a b w : ℕ) → a ≤ b → a * w ≤ b * w
mul_mono a b w h =
    let e : a + (b - a) ≡ b = omega arith in
    let sum : a * w ≤ (a + (b - a)) * w = omega arith in subst (λ x. a * w ≤ x * w) e sum

module _ {ℓ} {A : Type ℓ} where
  copy-hit :
      (target source : Buffer A) (j s from count i : ℕ)
      → i < count
      → copy target (j * s) source from count (j * s + i) ≡ source (from + i)
  unfolding copy
  copy-hit target source j s from count i h =
      let e : j * s + i - j * s ≡ i = omega arith in ground (arith, e)

  copy-miss :
      (target source : Buffer A) (j k s from count i : ℕ)
      → j ≢ k
      → count ≤ s
      → i < s
      → copy target (j * s) source from count (k * s + i) ≡ target (k * s + i)
  unfolding copy
  copy-miss target source j k s from count i ne h lt = elim (lt_or_gt j k ne) [
    | inl l ↦ ground (arith, apart_above j k s i count l h)
    | inr l ↦ ground (arith, apart_above k j s 0 (suc i) l lt)
  ]

module _ {ℓ} {A : Type ℓ} (shape : Shape) (grown : ℕ) (kv : KvCache A) (source : Buffer A)
    (n_seq : ℕ) where
  abbrev stride : ℕ
  stride = grown * shape.kv_width

  abbrev carried : ℕ
  carried = min kv.capacity grown * shape.kv_width

  carried-le-stride : carried ≤ stride
  carried-le-stride = mul_mono (min kv.capacity grown) grown shape.kv_width (omega arith)

  -- A slab that no copy goes to keeps what the new slabs begin with.
  slots_loop-miss :
      (layer count : ℕ) (target : Buffer A) (k i : ℕ)
      → i < stride
      → ((slot : ℕ) → slot < count → layer * n_seq + slot ≢ k)
      → slots_loop shape grown kv source n_seq layer count target (k * stride + i)
        ≡ target (k * stride + i)
  unfolding slots_loop copy_slab
  slots_loop-miss layer zero target k i lt other = refl
  slots_loop-miss layer (suc count) target k i lt other =
      copy-miss (slots_loop shape grown kv source n_seq layer count target) source
        (layer * n_seq + count) k stride _ carried i (other count (omega arith)) carried-le-stride
        lt
      ∙ slots_loop-miss layer count target k i lt (λ slot h. other slot (omega arith))

  pub layers_loop-miss :
      (count : ℕ) (target : Buffer A) (k i : ℕ)
      → i < stride
      → ((layer slot : ℕ) → layer < count → slot < min kv.slots n_seq → layer * n_seq + slot ≢ k)
      → layers_loop shape grown kv source n_seq count target (k * stride + i)
        ≡ target (k * stride + i)
  unfolding layers_loop
  layers_loop-miss zero target k i lt other = refl
  layers_loop-miss (suc count) target k i lt other =
      slots_loop-miss count (min kv.slots n_seq) _ k i lt (λ slot. other count slot (omega arith))
      ∙ layers_loop-miss count target k i lt (λ layer slot h. other layer slot (omega arith))

  -- A slab that a copy goes to has the rows of the old slab.
  slots_loop-hit :
      (layer count : ℕ) (target : Buffer A) (slot i : ℕ)
      → slot < count
      → i < carried
      → slots_loop shape grown kv source n_seq layer count target
          ((layer * n_seq + slot) * stride + i)
        ≡ source ((layer * kv.slots + slot) * (kv.capacity * shape.kv_width) + i)
  unfolding slots_loop copy_slab
  slots_loop-hit layer zero target slot i h lt = absurd (omega arith)
  slots_loop-hit layer (suc count) target slot i h lt = elim (Bool-cases (count == slot)) [
    | inl e ↦
        let same : count ≡ slot = (==_iff count slot).0 e in
        rw (sym same) (
          copy-hit (slots_loop shape grown kv source n_seq layer count target) source
            (layer * n_seq + count) stride _ carried i lt)
    | inr e ↦
        let other : count ≢ slot = ground (arith, e) in
        copy-miss (slots_loop shape grown kv source n_seq layer count target) source
          (layer * n_seq + count) (layer * n_seq + slot) stride _ carried i
          (λ x. other (omega arith)) carried-le-stride (omega (arith, carried-le-stride))
        ∙ slots_loop-hit layer count target slot i (ground (arith, other)) lt
  ]

  pub layers_loop-hit :
      (count : ℕ) (target : Buffer A) (layer slot i : ℕ)
      → layer < count
      → slot < min kv.slots n_seq
      → i < carried
      → layers_loop shape grown kv source n_seq count target ((layer * n_seq + slot) * stride + i)
        ≡ source ((layer * kv.slots + slot) * (kv.capacity * shape.kv_width) + i)
  unfolding layers_loop
  layers_loop-hit zero target layer slot i h hs lt = absurd (omega arith)
  layers_loop-hit (suc count) target layer slot i h hs lt = elim (Bool-cases (count == layer)) [
    | inl e ↦
        let same : count ≡ layer = (==_iff count layer).0 e in
        rw (sym same) (slots_loop-hit count (min kv.slots n_seq) _ slot i hs lt)
    | inr e ↦
        let below : layer < count = ground (arith, e) in
        slots_loop-miss count (min kv.slots n_seq) _ (layer * n_seq + slot) i
          (omega (arith, carried-le-stride))
          (λ other ho x.
            omega (arith, apart_above layer count n_seq other (suc slot) below (omega arith)))
        ∙ layers_loop-hit count target layer slot i below hs lt
  ]
