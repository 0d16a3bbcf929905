-- ===== src/Kernel/Repack/Stores.antt =====
-- What the stores of a panel leave in its arrays (src/kernel/repack_q4k.cpp).
use pocket_llm.Prelude.{
  ℕ, zero, suc, ◌+◌, ◌-◌, ◌*◌, ◌≤◌, ◌<◌, ◌≡◌, refl, sym, ap, ◌∙◌, inl, inr, true, false, ◌&&◌, List,
  drop, get_or, length, ltb, leb, ◌==◌, if◌then◌else◌, arith, Bool-cases, ==_iff, dec_lt,
}
use pocket_llm.Kernel.Repack.{
  Buffer, count_up, store, store_scales, scale_bytes, scale_of, minimum_of, Columns,
}

chunk_clear : (q c w : ℕ) → q < c → q * w + w ≤ c * w
chunk_clear q zero w lt = elim lt [ ]
chunk_clear q (suc c) w lt = let up : q * w ≤ c * w = grind arith in grind arith

-- One store of `w` bytes, at chunk `c`.
chunk_lem :
    (w c q t at : ℕ) (target : Buffer ℕ) (bytes : List ℕ)
    → at ≡ c * w
    → length bytes ≡ w
    → t < w
    → store target at bytes (q * w + t) ≡ (if q == c then get_or bytes t 0 else target (q * w + t))
unfolding store
chunk_lem w c q t at target bytes e len h = elim (Bool-cases (q == c)) [
  | inl same ↦
      let here = (==_iff q c).0 same in
      let place : at ≡ q * w = e ∙ ap (λ k. k * w) (sym here) in
      let inside : (leb at (q * w + t) && ltb (q * w + t) (at + length bytes)) ≡ true =
        ground (arith, place, len) in
      let index : q * w + t - at ≡ t = omega (arith, place) in rw (same, inside, index) refl
  | inr other ↦
      let outside : (leb at (q * w + t) && ltb (q * w + t) (at + length bytes)) ≡ false =
        elim (dec_lt q c) [
          | yes less ↦ let clear = chunk_clear q c w less in ground (arith, e, len, clear)
          | no not_less ↦
              let clear = chunk_clear c q w (ground (arith, other, not_less)) in
              ground (arith, e, len, clear)
        ] in
      rw (other, outside) refl
]

-- A loop of stores, one to each chunk.
pub chunks_lem :
    (w : ℕ) (place : ℕ → ℕ) (f : ℕ → List ℕ)
    → ((i : ℕ) → place i ≡ i * w)
    → ((i : ℕ) → length (f i) ≡ w)
    → (at count q t : ℕ) (out : Buffer ℕ) → t < w
    → count_up (λ i o. store o (place i) (f i)) at count out (q * w + t)
      ≡ (if leb at q && ltb q (at + count) then get_or (f q) t 0 else out (q * w + t))
unfolding count_up
chunks_lem w place f p len at zero q t out h = ground arith
chunks_lem w place f p len at (suc count) q t out h =
    let rest = chunks_lem w place f p len (at + 1) count q t (store out (place at) (f at)) h in
    let here = chunk_lem w at q t (place at) out (f at) (p at) (len at) h in
    elim (Bool-cases (q == at)) [
      | inl same ↦
          ground (arith, rest, here, same, ap (λ i. get_or (f i) t 0) ((==_iff q at).0 same))
      | inr other ↦ ground (arith, rest, here, other)
    ]

-- The twelve bytes of a sub-block of the panel.
abbrev pub sub_block : Columns → ℕ → ℕ → List ℕ
sub_block column pass i =
    scale_bytes (λ j. scale_of (drop 4 (column j)) pass i)
      (λ j. minimum_of (drop 4 (column j)) pass i)

length-sub_block : (column : Columns) (pass i : ℕ) → length (sub_block column pass i) ≡ 12
unfolding scale_bytes
length-sub_block column pass i = refl

store_scales_lem :
    (column : Columns) (i pass g t : ℕ) (out : Buffer ℕ)
    → t < 12
    → store_scales column i pass out (g * 12 + t)
      ≡ (if g == pass * 4 + i then get_or (sub_block column pass i) t 0 else out (g * 12 + t))
unfolding store_scales
store_scales_lem column i pass g t out h =
    chunk_lem 12 (pass * 4 + i) g t (pass * 48 + i * 12) out (sub_block column pass i) (omega arith)
      (length-sub_block column pass i) h

-- The scales of all the sub-blocks, after the loop over both passes.
pub scales_lem :
    (column : Columns) (at count g t : ℕ) (out : Buffer ℕ)
    → t < 12
    → at + count ≤ 4
    → count_up
        (λ i o. store_scales column i 1 (store_scales column i 0 o))
        at
        count
        out
        (g * 12 + t)
      ≡ (if leb at g && ltb g (at + count)
          then get_or (sub_block column 0 g) t 0
          else if leb (at + 4) g && ltb g (at + count + 4)
          then get_or (sub_block column 1 (g - 4)) t 0
          else out (g * 12 + t))
unfolding count_up
scales_lem column at zero g t out h few = ground arith
scales_lem column at (suc count) g t out h few =
    let first = store_scales column at 0 out in
    let rest =
      scales_lem column (at + 1) count g t (store_scales column at 1 first) h (omega arith) in
    let low = store_scales_lem column at 0 g t out h in
    let high = store_scales_lem column at 1 g t first h in
    elim (Bool-cases (g == at)) [
      | inl same ↦ ground (
        arith,
        rest,
        low,
        high,
        same,
        ap (λ i. get_or (sub_block column 0 i) t 0) ((==_iff g at).0 same),
      )
      | inr other ↦ elim (Bool-cases (g == at + 4)) [
        | inl same ↦
            let back : g - 4 ≡ at = ground (arith, same) in
            ground (
              arith,
              rest,
              low,
              high,
              other,
              same,
              ap (λ i. get_or (sub_block column 1 i) t 0) back,
            )
        | inr neither ↦ ground (arith, rest, low, high, other, neither)
      ]
    ]
