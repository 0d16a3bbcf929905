-- ===== src/Model/KvCache.antt =====
-- The KV slabs of `Qwen3Model` (src/model/qwen3.cpp): `ensure_kv`, `reserve`, `reset`. A device buffer is
-- a function from an element's index to its value; `k_cache_` and `v_cache_` are treated alike, and one
-- of them is modelled. The sizes are below 2 ^ 63.
pub mod Grow
pub mod Carry
pub mod Growth
pub mod Reserve
mod Tests
use pocket_llm.Prelude.{
  ℕ, zero, suc, ◌+◌, ◌-◌, ◌*◌, ◌≤◌, ◌<◌, Bool, true, false, ◌&&◌, ◌||◌, List, [], ◌∷◌, Option, none,
  some, ltb, leb, ◌==◌, if◌then◌else◌, min, max,
}

abbrev pub Buffer {ℓ} : Type ℓ → Type ℓ
Buffer A = ℕ → A

-- The hyperparameters that the cache depends on; `kv_width` is `n_head_kv * head_dim`,
-- and `rope_sections` the sum of the four sections of the rotary.
pub record Shape : Type 0 where
  pub n_layer : ℕ
  pub kv_width : ℕ
  pub context : ℕ
  pub rope_sections : ℕ

-- The members that change. `cache` is `none` while no slab is allocated.
pub record KvCache {ℓ} (A : Type ℓ) : Type ℓ where
  pub cache : Option (Buffer A)
  pub capacity : ℕ
  pub slots : ℕ
  pub seq_len : List ℕ

-- How `reserve` ends; `endless` stands for a loop that runs out of fuel.
pub data Reserved {ℓ} (A : Type ℓ) : Type ℓ where
  refused context_length_error endless : Reserved A
  reserved : KvCache A → Reserved A

-- `kInitialPositions`
abbrev pub initial_positions : ℕ
initial_positions = 256

-- `while (grown < positions) grown = min(grown * 2, capacity_)`, on fuel.
unfoldable pub grow_loop : ℕ → ℕ → ℕ → ℕ → Option ℕ
grow_loop zero context positions grown = if ltb grown positions then none else some grown
grow_loop (suc fuel) context positions grown =
    let rest = grow_loop fuel context positions (min (grown * 2) context) in
    if ltb grown positions then rest else some grown

-- The rows of the new slabs. Each round doubles 256 rows or more, or reaches the context length.
unfoldable pub grown_capacity : ℕ → ℕ → ℕ → Option ℕ
grown_capacity context capacity positions =
    grow_loop positions context positions (max capacity initial_positions)

module _ {ℓ} {A : Type ℓ} where
  -- `copy_device_to_device` of `count` elements.
  unfoldable pub copy : Buffer A → ℕ → Buffer A → ℕ → ℕ → Buffer A
  copy target to source from count at =
      if leb to at && ltb at (to + count) then source (from + (at - to)) else target at

  -- One slab: a layer's rows of one sequence slot.
  unfoldable pub copy_slab : Shape → ℕ → KvCache A → Buffer A → ℕ → ℕ → ℕ → Buffer A → Buffer A
  copy_slab shape grown kv source n_seq layer slot target =
      let from = (layer * kv.slots + slot) * (kv.capacity * shape.kv_width) in
      let to = (layer * n_seq + slot) * (grown * shape.kv_width) in
      copy target to source from (min kv.capacity grown * shape.kv_width)

  -- The inner loop, over the first `count` slots, and the outer one, over the first `count` layers.
  unfoldable pub slots_loop : Shape → ℕ → KvCache A → Buffer A → ℕ → ℕ → ℕ → Buffer A → Buffer A
  slots_loop shape grown kv source n_seq layer zero target = target
  slots_loop shape grown kv source n_seq layer (suc count) target =
      copy_slab shape grown kv source n_seq layer count
        (slots_loop shape grown kv source n_seq layer count target)

  unfoldable pub layers_loop : Shape → ℕ → KvCache A → Buffer A → ℕ → ℕ → Buffer A → Buffer A
  layers_loop shape grown kv source n_seq zero target = target
  layers_loop shape grown kv source n_seq (suc count) target =
      slots_loop shape grown kv source n_seq count (min kv.slots n_seq)
        (layers_loop shape grown kv source n_seq count target)

  -- The new slabs, which begin as `fresh`, with what is carried over.
  unfoldable pub grow_kv : Shape → Buffer A → KvCache A → ℕ → ℕ → KvCache A
  grow_kv shape fresh kv n_seq grown = record kv {
    cache = some (elim kv.cache [
      | none ↦ fresh
      | some source ↦ layers_loop shape grown kv source n_seq shape.n_layer fresh
    ]);
    capacity = grown;
    slots = n_seq;
  }

  -- Whether the early return of `ensure_kv` is taken.
  unfoldable pub holds : KvCache A → ℕ → ℕ → Bool
  holds kv positions n_seq = elim kv.cache [
    | none ↦ false
    | some source ↦ leb positions kv.capacity && leb n_seq kv.slots
  ]

  -- `ensure_kv`; `none` is a loop that does not end.
  unfoldable pub ensure_kv : Shape → Buffer A → KvCache A → ℕ → ℕ → Option (KvCache A)
  ensure_kv shape fresh kv positions n_seq =
      if holds kv positions n_seq
      then some kv
      else elim (grown_capacity shape.context kv.capacity positions) [
        | none ↦ none
        | some grown ↦ some (grow_kv shape fresh kv n_seq grown)
      ]

  -- `reserve`: new slabs, or those that are there if they are large enough. What they held is dropped.
  unfoldable pub reserve : Shape → Buffer A → KvCache A → ℕ → ℕ → Reserved A
  reserve shape fresh kv positions slots =
      if positions == 0 || slots == 0
      then refused
      else if ltb shape.context positions
      then context_length_error
      else elim (grown_capacity shape.context kv.capacity positions) [
        | none ↦ endless
        | some grown ↦
            if holds kv grown slots
            then reserved kv
            else reserved (record kv { cache = some fresh; capacity = grown; slots = slots })
      ]

  -- `reset`: one sequence at position 0; the slabs stay.
  unfoldable pub reset : KvCache A → KvCache A
  reset kv = record kv { seq_len = 0 ∷ [] }

  -- `cache_length`, of sequence 0.
  unfoldable pub cache_length : KvCache A → ℕ
  cache_length kv = elim kv.seq_len [ [] ↦ 0 | n ∷ rest ↦ n ]

  -- Where `forward_impl` has element `i` of the slab of layer `il` of sequence `s`.
  abbrev pub slab_at : Shape → KvCache A → ℕ → ℕ → ℕ → ℕ
  slab_at shape kv il s i =
      let layer_offset = kv.capacity * shape.kv_width * il in
      let per_seq_stride = kv.capacity * shape.kv_width * shape.n_layer in
      layer_offset + per_seq_stride * s + i

  -- What attention reads there; without slabs there is nothing.
  abbrev pub row_element : Shape → KvCache A → ℕ → ℕ → ℕ → Option A
  row_element shape kv il s i = elim kv.cache [
    | none ↦ none
    | some cells ↦ some (cells (slab_at shape kv il s i))
  ]
