-- ===== src/Model/KvCache/Tests.antt =====
-- A small cache, and the theorems at it.
use pocket_llm.Prelude.{ℕ, ◌+◌, ◌≤◌, ◌≡◌, refl, [], ◌∷◌, some, arith}
use pocket_llm.Model.KvCache.{
  Buffer, Shape, KvCache, grow_loop, grown_capacity, copy, copy_slab, slots_loop, layers_loop,
  grow_kv, ensure_kv, reserved, reserve, slab_at, row_element,
}
use pocket_llm.Model.KvCache.Grow.{ensure_kv-some}
use pocket_llm.Model.KvCache.Reserve.{ensure_kv-reserve}
use pocket_llm.Model.KvCache.Growth.{grow_kv-carries, grow_kv-loses}

-- two layers of two numbers a row
abbrev shape : Shape
shape = record { n_layer = 2; kv_width = 2; context = 1024; rope_sections = 0 }

abbrev source : Buffer ℕ
source at = at + 1

abbrev fresh : Buffer ℕ
fresh at = 0

abbrev cache : ℕ → KvCache ℕ
cache slots = record { cache = some source; capacity = 3; slots = slots; seq_len = 3 ∷ [] }

doubled : grown_capacity 1024 256 700 ≡ some 1024
unfolding grown_capacity grow_loop
doubled = refl

grow_kv-carries_example :
    row_element shape (grow_kv shape fresh (cache 2) 2 4) 1 1 5 ≡ row_element shape (cache 2) 1 1 5
grow_kv-carries_example =
    grow_kv-carries shape fresh source (cache 2) 4 1 1 5 refl (omega arith) (omega arith)
      (omega arith) (omega arith)

-- one sequence's second layer, before and after a second sequence joins
lost :
    (row_element shape (cache 1) 1 0 0 ≡ some 7)
    × (row_element shape (grow_kv shape fresh (cache 1) 2 3) 1 0 0 ≡ some 0)
unfolding grow_kv layers_loop slots_loop copy_slab copy
lost = (refl, refl)

grow_kv-loses_example :
    row_element shape (grow_kv shape fresh (cache 1) 2 3) 1 0 0
    ≡ some (fresh (slab_at shape (grow_kv shape fresh (cache 1) 2 3) 1 0 0))
grow_kv-loses_example =
    grow_kv-loses shape fresh source (cache 1) 2 3 0 refl refl (omega arith) (omega arith)

ensure_kv-some_example :
    (after : KvCache ℕ) × (ensure_kv shape fresh (cache 1) 700 1 ≡ some after)
    × (700 ≤ after.capacity)
    × (1 ≤ after.slots)
    × ((cache 1).capacity ≤ after.capacity)
ensure_kv-some_example = ensure_kv-some shape fresh (cache 1) 700 1 (omega arith)

ensure_kv-reserve_example :
    (after : KvCache ℕ) × (reserve shape fresh (cache 1) 300 4 ≡ reserved after)
    × (ensure_kv shape source after 300 3 ≡ some after)
ensure_kv-reserve_example =
    ensure_kv-reserve shape fresh source (cache 1) 300 4 300 3 (omega arith) (omega arith)
      (omega arith) (omega arith) (omega arith)
