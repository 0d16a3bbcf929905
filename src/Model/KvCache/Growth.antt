-- ===== src/Model/KvCache/Growth.antt =====
-- What the forward pass finds in the KV slabs after a growth (src/model/qwen3.cpp).
use mathlib.Core.Path.{subst}
use native.Mathlib.Nat.{div-lt_iff_lt-mul, div-add-mod', mod-lt}
use pocket_llm.Prelude.{
  ℕ, zero, suc, ◌+◌, ◌*◌, ◌/◌, ◌%◌, ◌≤◌, ◌<◌, ◌≡◌, ◌≢◌, sym, ap, ◌∙◌, some, min, arith,
}
use pocket_llm.Model.KvCache.{Buffer, Shape, KvCache, layers_loop, grow_kv, slab_at, row_element}
use pocket_llm.Model.KvCache.Carry.{layers_loop-hit, layers_loop-miss, mul_mono}

-- The address of the forward pass, as a slab's number and a place in it.
slab_number :
    (stride n_layer il s i : ℕ)
    → stride * il + stride * n_layer * s + i ≡ (s * n_layer + il) * stride + i
slab_number stride n_layer il s i = omega arith

slab_bound :
    (n_layer slots il s : ℕ) → il < n_layer → s < slots → s * n_layer + il < n_layer * slots
slab_bound n_layer slots il s h hs =
    let m : (s + 1) * n_layer ≤ slots * n_layer = mul_mono (s + 1) slots n_layer (omega arith) in
    omega arith

second_slab : (layer slot n_seq : ℕ) → slot ≡ 0 → 2 ≤ n_seq → layer * n_seq + slot ≢ 1
second_slab zero slot n_seq e h x = absurd (omega arith)
second_slab (suc layer) slot n_seq e h x = omega (arith, mul_mono 1 (suc layer) n_seq (omega arith))

module _ {ℓ} {A : Type ℓ} (shape : Shape) (fresh source : Buffer A) (kv : KvCache A) where
  -- Slab number `j` of the new cache, where the number of slots stays.
  same_slots-slab :
      (grown j i : ℕ)
      → 0 < kv.slots
      → j < shape.n_layer * kv.slots
      → i < min kv.capacity grown * shape.kv_width
      → layers_loop shape grown kv source kv.slots shape.n_layer fresh
          (j * (grown * shape.kv_width) + i)
        ≡ source (j * (kv.capacity * shape.kv_width) + i)
  same_slots-slab grown j i positive h lt =
      let split : j / kv.slots * kv.slots + j % kv.slots ≡ j = div-add-mod' j kv.slots in
      let hit =
        layers_loop-hit shape grown kv source kv.slots shape.n_layer fresh (j / kv.slots)
          (j % kv.slots) i ((div-lt_iff_lt-mul positive).1 h) (omega (arith, mod-lt j positive))
          lt in
      subst
        (λ k.
          layers_loop shape grown kv source kv.slots shape.n_layer fresh
            (k * (grown * shape.kv_width) + i)
          ≡ source (k * (kv.capacity * shape.kv_width) + i))
        split hit

-- A growth of the capacity that keeps the number of slots carries every row: what the forward pass finds
-- at a row of a layer and a sequence that was in the slabs is what it found there before.
pub grow_kv-carries {ℓ} :
    {A : Type ℓ} (shape : Shape) (fresh source : Buffer A) (kv : KvCache A) (grown il s i : ℕ)
    → kv.cache ≡ some source
    → kv.capacity ≤ grown
    → il < shape.n_layer
    → s < kv.slots
    → i < kv.capacity * shape.kv_width
    → row_element shape (grow_kv shape fresh kv kv.slots grown) il s i ≡ row_element shape kv il s i
unfolding grow_kv
grow_kv-carries shape fresh source kv grown il s i e bigger hl hs lt =
    let here : i < min kv.capacity grown * shape.kv_width =
      subst (λ c. i < c * shape.kv_width) (omega arith) lt in
    let slab =
      same_slots-slab shape fresh source kv grown (s * shape.n_layer + il) i (omega arith)
        (slab_bound shape.n_layer kv.slots il s hl hs) here in
    rw e (
      ap some (
        ap (layers_loop shape grown kv source kv.slots shape.n_layer fresh)
          (slab_number (grown * shape.kv_width) shape.n_layer il s i)
        ∙ slab
        ∙ ap source (sym (slab_number (kv.capacity * shape.kv_width) shape.n_layer il s i))))

-- A growth of the number of slots does not: where a cache with one slot gets more of them, the forward
-- pass finds in the second layer of sequence 0 what the new slabs began with, not the rows that it wrote.
pub grow_kv-loses {ℓ} :
    {A : Type ℓ} (shape : Shape) (fresh source : Buffer A) (kv : KvCache A) (n_seq grown i : ℕ)
    → kv.cache ≡ some source
    → kv.slots ≡ 1
    → 2 ≤ n_seq
    → i < grown * shape.kv_width
    → row_element shape (grow_kv shape fresh kv n_seq grown) 1 0 i
      ≡ some (fresh (slab_at shape (grow_kv shape fresh kv n_seq grown) 1 0 i))
unfolding grow_kv
grow_kv-loses shape fresh source kv n_seq grown i e one many lt =
    let stride = grown * shape.kv_width in
    let place : stride * 1 + stride * shape.n_layer * 0 + i ≡ 1 * stride + i = omega arith in
    let miss =
      layers_loop-miss shape grown kv source n_seq shape.n_layer fresh 1 i lt
        (λ layer slot hl hs. second_slab layer slot n_seq (omega arith) many) in
    rw e (
      ap some (
        ap (layers_loop shape grown kv source n_seq shape.n_layer fresh) place
        ∙ miss
        ∙ ap fresh (sym place)))
