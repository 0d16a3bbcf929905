-- ===== src/Prelude/Find.antt =====
-- `std::string::find` on lists of bytes: the offset of the first occurrence.
use pocket_llm.Prelude.Text.{Bytes}
use pocket_llm.Prelude.Tests.{◌==◌, if◌then◌else◌, Bool-cases}
use pocket_llm.Prelude.Lists.{length, take, drop}
use Prim.Native.Nat.{ℕ, zero, suc, ◌+◌, ◌≤◌}
use mathlib.Core.Path.{◌≡◌, refl, ap}
use mathlib.Core.Logic.{inl, inr}
use mathlib.Core.Bool.{Bool, true, false, ◌&&◌}
use mathlib.Core.Option
use mathlib.Core.Option.{Option, none, some}
use mathlib.Core.List.{[], ◌∷◌, ◌++◌}
use native.Mathlib.Nat.{zero-add}
use native.Mathlib.Omega.{arith}

unfoldable pub starts_with : Bytes → Bytes → Bool
starts_with [] text = true
starts_with (n ∷ needle) [] = false
starts_with (n ∷ needle) (c ∷ text) = n == c && starts_with needle text

unfoldable pub find_sub : Bytes → Bytes → Option ℕ
find_sub needle [] = if starts_with needle [] then some 0 else none
find_sub needle (c ∷ text) =
    if starts_with needle (c ∷ text) then some 0 else Option.map suc (find_sub needle text)

pub starts_with-append : (needle post : Bytes) → starts_with needle (needle ++ post) ≡ true
unfolding starts_with
starts_with-append [] post = refl
starts_with-append (n ∷ needle) post = ground (arith, starts_with-append needle post)

pub starts_with-drop :
    (needle text : Bytes)
    → starts_with needle text ≡ true
    → text ≡ needle ++ drop (length needle) text
unfolding starts_with
starts_with-drop [] text h = refl
starts_with-drop (n ∷ needle) [] h = cc
starts_with-drop (n ∷ needle) (c ∷ text) h = ground (arith, starts_with-drop needle text)

find_sub-here :
    (needle text : Bytes) → starts_with needle text ≡ true → find_sub needle text ≡ some 0
unfolding find_sub
find_sub-here needle [] h = rw h
find_sub-here needle (c ∷ text) h = rw h

-- An offset that `find` returns is an occurrence.
pub find_sub-some :
    (needle text : Bytes) (at : ℕ)
    → find_sub needle text ≡ some at
    → text ≡ take at text ++ (needle ++ drop (at + length needle) text)
unfolding find_sub
find_sub-some needle [] at e = elim (Bool-cases (starts_with needle [])) [
  | inl h ↦ ground (arith, starts_with-drop needle [])
  | inr h ↦ ground arith
]
find_sub-some needle (c ∷ text) zero e = elim (Bool-cases (starts_with needle (c ∷ text))) [
  | inl h ↦ rw (zero-add (length needle)) (starts_with-drop needle (c ∷ text) h)
  | inr h ↦ ground arith
]
find_sub-some needle (c ∷ text) (suc at) e = elim (Bool-cases (starts_with needle (c ∷ text))) [
  | inl h ↦ ground arith
  | inr h ↦
      let e' : suc at + length needle ≡ suc (at + length needle) = omega arith in
      rw e' (ap (λ r. c ∷ r) (find_sub-some needle text at (ground arith)))
]

-- No occurrence stands before the offset.
pub find_sub-first :
    (needle pre post : Bytes) (at : ℕ)
    → find_sub needle (pre ++ (needle ++ post)) ≡ some at
    → at ≤ length pre
unfolding find_sub
find_sub-first needle [] post at e =
    ground (arith, find_sub-here needle (needle ++ post) (starts_with-append needle post))
find_sub-first needle (c ∷ pre) post zero e = omega arith
find_sub-first needle (c ∷ pre) post (suc at) e = ground (arith, find_sub-first needle pre post at)

pub find_sub-none : (needle pre post : Bytes) → find_sub needle (pre ++ (needle ++ post)) ≡ none → ⊥
unfolding find_sub
find_sub-none needle [] post e =
    ground (arith, find_sub-here needle (needle ++ post) (starts_with-append needle post))
find_sub-none needle (c ∷ pre) post e = ground (arith, find_sub-none needle pre post)
