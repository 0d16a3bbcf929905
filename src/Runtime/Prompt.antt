-- ===== src/Runtime/Prompt.antt =====
-- How `AsrSession::compose` and `VlmSession::compose` (src/runtime) take a prompt apart at the marker.
use pocket_llm.Prelude.{
  ℕ, ◌+◌, ◌≡◌, ◌≢◌, refl, true, false, List, [], ◌∷◌, ◌++◌, Option, none, some, Bytes, codes,
  length, take, drop, arith,
}
use pocket_llm.Prelude.Find.{find_sub}
use pocket_llm.Tokenizer.Unicode.{UnicodeData}
use pocket_llm.Tokenizer.Load.{Tokenizer}
use pocket_llm.Tokenizer.Codec.{encode}
use pocket_llm.Model.KvCache.{Buffer}
use pocket_llm.Model.Session.{Failure, Outcome, done, failed, Session}

-- `marker()`
abbrev pub marker : Bytes
marker = codes "<__media__>"

-- Why a composition is refused. `endless` stands for an encoder that runs out of fuel, and `pass` for an
-- error that the text session throws.
pub data ComposeError : Type 0 where
  no_media no_marker two_markers no_vocabulary endless empty_side too_short bad_window bad_block :
      ComposeError
  pass : Failure → ComposeError

-- The ids before the media and behind it.
pub data Sides : Type 0 where
  sides : (before after : List ℕ) → Sides
  unusable : ComposeError → Sides

-- Both sides are tokenized, and neither may come to nothing.
abbrev sides_from : (before after : Option (List ℕ)) → Sides
sides_from (some (i ∷ before)) (some (j ∷ after)) = sides (i ∷ before) (j ∷ after)
sides_from (some before) (some after) = unusable empty_side
sides_from before after = unusable endless

-- The text before the marker and behind it, and the tokenizer.
pub data Parts : Type 0 where
  parts : (t : Tokenizer) → (before after : Bytes) → Parts
  unsplit : ComposeError → Parts

-- One marker, neither none nor two, and a vocabulary.
unfoldable pub split_prompt : Option Tokenizer → Bytes → Parts
split_prompt tokenizer prompt = elim (find_sub marker prompt) [
  | none ↦ unsplit no_marker
  | some at ↦
      let rest = drop (at + length marker) prompt in
      elim (find_sub marker rest) [
        | some _ ↦ unsplit two_markers
        | none ↦ elim tokenizer [
          | none ↦ unsplit no_vocabulary
          | some t ↦ parts t (take at prompt) rest
        ]
      ]
]

-- With the tokens that open and close the media.
unfoldable pub sides_of : UnicodeData → (opening closing : Bytes) → Parts → Sides
sides_of u opening closing (unsplit r) = unusable r
sides_of u opening closing (parts t before after) =
    sides_from (encode u t (before ++ opening) false true)
      (encode u t (closing ++ after) false true)

-- What the passes of a session meet, by their number: what fresh memory holds, what the slabs hold behind
-- the pass, and the logits that it hands back.
pub record Passes {ℓ ℓ'} (A : Type ℓ) (F : Type ℓ') : Type (ℓ ⊔ ℓ') where
  pub fresh : ℕ → Buffer A
  pub written : ℕ → Buffer A
  pub logits : ℕ → List F

-- How a call ends.
pub data Ending {ℓ} (R : Type ℓ) : Type ℓ where
  returned : R → Ending R
  refused : ComposeError → Ending R

-- What follows a call that returned; an error is passed on with the session as it is.
abbrev pub chain {ℓ ℓ' ℓ''} :
    {S : Type ℓ} {R : Type ℓ'} {R' : Type ℓ''}
    → S × Ending R
    → (R → S → S × Ending R')
    → S × Ending R'
chain (s, refused r) k = (s, refused r)
chain (s, returned x) k = k x s

-- A pass of the text session: what it throws, it throws before it changes the session.
abbrev pub pass_of {ℓ} :
    {A : Type ℓ} → Session A → Outcome (Session A) → Session A × Ending (Unit {0})
pass_of s (failed f) = (s, refused (pass f))
pass_of s (done t) = (t, returned tt)

sides_from-some :
    (o p : Option (List ℕ)) (before after : List ℕ)
    → sides_from o p ≡ sides before after
    → (length before ≢ 0) × (length after ≢ 0)
sides_from-some (some (i ∷ ids)) (some (j ∷ more)) before after h =
    (λ e. ground (arith, h, e), λ e. ground (arith, h, e))
sides_from-some (some (i ∷ ids)) (some []) before after h = absurd (cc)
sides_from-some (some []) (some more) before after h = absurd (cc)
sides_from-some (some []) none before after h = absurd (cc)
sides_from-some (some (i ∷ ids)) none before after h = absurd (cc)
sides_from-some none p before after h = absurd (cc)

-- Both sides have tokens.
pub sides_of-some :
    (u : UnicodeData) (opening closing : Bytes) (p : Parts) (before after : List ℕ)
    → sides_of u opening closing p ≡ sides before after
    → (length before ≢ 0) × (length after ≢ 0)
unfolding sides_of
sides_of-some u opening closing (unsplit r) before after h = absurd (cc)
sides_of-some u opening closing (parts t opened closed) before after h =
    sides_from-some (encode u t (opened ++ opening) false true)
      (encode u t (closing ++ closed) false true) before after h

-- A pass that returns is followed by what comes next.
pub chain-done {ℓ ℓ'} :
    {A : Type ℓ} {R : Type ℓ'} (s t : Session A) (o : Outcome (Session A))
    (next : Unit {0} → Session A → Session A × Ending R)
    → o ≡ done t
    → chain (pass_of s o) next ≡ next tt t
chain-done s t o next e = rw e refl
