-- ===== src/Runtime/Argmax.antt =====
-- The choice of the greatest logit, which src/c_api.cpp and src/runtime/asr_session.cpp write out as the
-- same loop. The comparison of two floats is a parameter.
use pocket_llm.Prelude.{
  ℕ, zero, suc, ◌+◌, ◌-◌, ◌≤◌, ◌<◌, ◌≡◌, ◌≢◌, refl, ◌⊎◌, inl, inr, Bool, true, false, List, [], ◌∷◌,
  none, some, length, get_elem?, if◌then◌else◌, Bool-cases, Option-cases, dec_lt, arith,
}

module _ {ℓ} {F : Type ℓ} (gt : F → F → Bool) where
  -- `logits[i] > logits[j]`
  abbrev pub exceeds : List F → ℕ → ℕ → Bool
  exceeds logits i j = elim (get_elem? logits i) [
    | none ↦ false
    | some x ↦ elim (get_elem? logits j) [ none ↦ false | some y ↦ gt x y ]
  ]

  -- The rounds that are left, at index `i`.
  unfoldable pub argmax_loop : List F → ℕ → ℕ → ℕ → ℕ
  argmax_loop logits zero i best = best
  argmax_loop logits (suc rounds) i best =
      argmax_loop logits rounds (i + 1) (if exceeds logits i best then i else best)

  unfoldable pub argmax : List F → ℕ
  argmax logits = argmax_loop logits (length logits - 1) 1 0

-- A comparison that ranks, as that of the floats which are numbers does.
pub record IsRanking {ℓ} {F : Type ℓ} (gt : F → F → Bool) : Type ℓ where
  pub never_itself : (x : F) → gt x x ≡ false
  pub transitive : (x y z : F) → gt x y ≡ true → gt y z ≡ true → gt x z ≡ true
  pub between : (x y z : F) → gt x z ≡ true → (gt x y ≡ true) ⊎ (gt y z ≡ true)

-- No logit is greater than that of the index, and those before it are less.
pub record IsFirstGreatest {ℓ} {F : Type ℓ} (gt : F → F → Bool) (logits : List F) (best : ℕ)
    : Type 0 where
  pub inside : best < length logits
  pub greatest : (i : ℕ) → i < length logits → exceeds gt logits i best ≡ false
  pub first : (i : ℕ) → i < best → exceeds gt logits best i ≡ true

get_elem?-inside :
    {F : Type 0} (xs : List F) (at : ℕ) → at < length xs → (x : F) × (get_elem? xs at ≡ some x)
get_elem?-inside [] at h = elim h [ ]
get_elem?-inside (x ∷ xs) zero h = (x, refl)
get_elem?-inside (x ∷ xs) (suc at) h = get_elem?-inside xs at (omega arith)

module _ {F : Type 0} (gt : F → F → Bool) (ranking : IsRanking gt) (logits : List F) where
  itself : (i : ℕ) → exceeds gt logits i i ≡ false
  itself i = elim (Option-cases (get_elem? logits i)) [
    | inl e ↦ rw (e, exceeds) refl
    | inr (x, e) ↦ ground (arith, e, ranking.never_itself x)
  ]

  after :
      (i j k : ℕ)
      → exceeds gt logits i j ≡ true
      → exceeds gt logits j k ≡ true
      → exceeds gt logits i k ≡ true
  after i j k p q = elim (Option-cases (get_elem? logits i)) [
    | inl e ↦ ground (arith, e, p)
    | inr (x, ex) ↦ elim (Option-cases (get_elem? logits j)) [
      | inl e ↦ ground (arith, e, q)
      | inr (y, ey) ↦ elim (Option-cases (get_elem? logits k)) [
        | inl e ↦ ground (arith, e, ey, q)
        | inr (z, ez) ↦ ground (arith, ex, ey, ez, p, q, ranking.transitive x y z)
      ]
    ]
  ]

  beside :
      (i j k : ℕ)
      → j < length logits
      → exceeds gt logits i k ≡ true
      → exceeds gt logits j k ≡ false
      → exceeds gt logits i j ≡ true
  beside i j k h p q = elim (Option-cases (get_elem? logits i)) [
    | inl e ↦ ground (arith, e, p)
    | inr (x, ex) ↦ elim (Option-cases (get_elem? logits k)) [
      | inl e ↦ ground (arith, e, ex, p)
      | inr (z, ez) ↦
          let (y, ey) = get_elem?-inside logits j h in
          ground (arith, ex, ey, ez, p, q, ranking.between x y z)
    ]
  ]

  -- What holds before the round at `at`.
  record IsBestBelow (at best : ℕ) : Type 0 where
    behind : best < at
    within : at ≤ length logits
    greatest : (i : ℕ) → i < at → exceeds gt logits i best ≡ false
    first : (i : ℕ) → i < best → exceeds gt logits best i ≡ true

  keeps :
      (at best : ℕ)
      → at < length logits
      → exceeds gt logits at best ≡ false
      → IsBestBelow at best
      → IsBestBelow (at + 1) best
  keeps at best lt e b = record {
    behind = ground (arith, b.behind);
    within = omega arith;
    greatest = λ i h. elim (dec_lt i at) [
      | yes before ↦ b.greatest i before
      | no not_before ↦ let same : i ≡ at = omega arith in rw same e
    ];
    first = b.first;
  }

  takes :
      (at best : ℕ)
      → at < length logits
      → exceeds gt logits at best ≡ true
      → IsBestBelow at best
      → IsBestBelow (at + 1) at
  takes at best lt e b =
      let below : (i : ℕ) → i < at → exceeds gt logits at i ≡ true =
        λ i h. beside at i best (omega arith) e (b.greatest i h) in
      record {
        behind = omega arith;
        within = omega arith;
        greatest = λ i h. elim (dec_lt i at) [
          | yes before ↦ elim (Bool-cases (exceeds gt logits i at)) [
            | inl above ↦ absurd (ground (arith, itself at, after at i at (below i before) above))
            | inr e' ↦ e'
          ]
          | no not_before ↦ let same : i ≡ at = omega arith in rw same (itself at)
        ];
        first = below;
      }

  argmax_loop-IsFirstGreatest :
      (rounds at best : ℕ)
      → at + rounds ≡ length logits
      → IsBestBelow at best
      → IsFirstGreatest gt logits (argmax_loop gt logits rounds at best)
  unfolding argmax_loop
  argmax_loop-IsFirstGreatest zero at best e b =
      let all : at ≡ length logits = omega arith in
      record {
        inside = ground (arith, b.behind);
        greatest = λ i h. b.greatest i (omega arith);
        first = b.first;
      }
  argmax_loop-IsFirstGreatest (suc rounds) at best e b =
      elim (Bool-cases (exceeds gt logits at best)) [
        | inl h ↦ rw h (
            argmax_loop-IsFirstGreatest rounds (at + 1) at (omega arith)
              (takes at best (omega arith) h b))
        | inr h ↦ rw h (
            argmax_loop-IsFirstGreatest rounds (at + 1) best (omega arith)
              (keeps at best (omega arith) h b))
      ]

  -- Of logits that are numbers, one or more, the id that is chosen is the lowest of those whose logit is the
  -- greatest.
  pub argmax-IsFirstGreatest : length logits ≢ 0 → IsFirstGreatest gt logits (argmax gt logits)
  unfolding argmax
  argmax-IsFirstGreatest h =
      argmax_loop-IsFirstGreatest (length logits - 1) 1 0 (omega arith) (record {
        behind = omega arith;
        within = omega arith;
        greatest = λ i lt. let zeroth : i ≡ 0 = omega arith in rw zeroth (itself 0);
        first = λ i lt. absurd (omega arith);
      })
