-- ===== src/Runtime/Api.antt =====
-- The entry points of src/c_api.cpp. A pointer is `none` where it is null; an array is a function from its
-- index, and a C string the bytes before its end. A call gives the return code and what it leaves of the
-- session and of the array. Sizes are below 2 ^ 31, and a count of tokens that is not positive stands for 0
-- in `n_per_seq`.
pub mod RoundTrip
pub mod Codes
pub mod Media
use pocket_llm.Prelude.{
  ℕ, zero, suc, ◌+◌, ◌-◌, Bool, true, false, not, ◌||◌, List, [], ◌∷◌, ◌++◌, Option, none, some,
  Bytes, length, take, get_or, min, ltb, leb, ◌==◌, if◌then◌else◌,
}
use pocket_llm.Prelude.Int.{ℤ, pos, negsuc}
use pocket_llm.Tokenizer.Unicode.{UnicodeData}
use pocket_llm.Tokenizer.Load.{Tokenizer}
use pocket_llm.Tokenizer.Codec.{encode, decode}
use pocket_llm.Model.KvCache.{Buffer, Shape}
use pocket_llm.Model.Session.{
  Failure, past_context, Outcome, done, failed, Session, forward, forward_batch, session_reserve,
  session_reset,
}

-- The return codes -1 and -2, and `kErrContextLength`.
abbrev pub refused_code : ℤ
refused_code = negsuc 0

abbrev pub missing_code : ℤ
missing_code = negsuc 1

abbrev pub context_code : ℤ
context_code = negsuc 2

-- `memcpy` of the values to the array's start.
unfoldable pub put {ℓ} : {X : Type ℓ} → Buffer X → List X → Buffer X
put out [] i = out i
put out (x ∷ xs) zero = x
put out (x ∷ xs) (suc i) = put (λ j. out (suc j)) xs i

-- `n` values from the array's start.
unfoldable pub read_values {ℓ} : {X : Type ℓ} → Buffer X → ℕ → List X
read_values values zero = []
read_values values (suc n) = values 0 ∷ read_values (λ j. values (suc j)) n

-- The end of `pocketllm_encode`, for a capacity that is not negative.
unfoldable pub hand_ids : List ℕ → Option (Buffer ℕ) → ℕ → ℤ × Option (Buffer ℕ)
hand_ids ids none cap = (pos (length ids), none)
hand_ids ids (some out) cap =
    (pos (length ids), some (if ltb cap (length ids) then out else put out ids))

-- `none` where the encoder runs out of fuel.
unfoldable pub pocketllm_encode :
    UnicodeData
    → Option (Option Tokenizer)
    → Option Bytes
    → Bool
    → Bool
    → Option (Buffer ℕ)
    → ℤ
    → Option (ℤ × Option (Buffer ℕ))
pocketllm_encode u (some none) (some text) add_special parse_special out (pos cap) =
    some (missing_code, out)
pocketllm_encode u (some (some t)) (some text) add_special parse_special out (pos cap) =
    elim (encode u t text add_special parse_special) [
      | none ↦ none
      | some ids ↦ some (hand_ids ids out cap)
    ]
pocketllm_encode u _ _ add_special parse_special out _ = some (refused_code, out)

-- The end of `pocketllm_decode`: as much of the text as fits, and the terminator behind it.
unfoldable pub hand_text : Bytes → Buffer ℕ → ℕ → ℤ × Option (Buffer ℕ)
hand_text text out room =
    let written = min (length text) room in
    (pos written, some (put out (take written text ++ 0 ∷ [])))

unfoldable pub pocketllm_decode :
    Option (Option Tokenizer)
    → Option (Buffer ℤ)
    → ℤ
    → Option (Buffer ℕ)
    → ℤ
    → ℤ × Option (Buffer ℕ)
pocketllm_decode (some none) (some ids) (pos n) (some out) (pos (suc room)) =
    (missing_code, some out)
pocketllm_decode (some (some t)) (some ids) (pos n) (some out) (pos (suc room)) =
    elim (decode t.vocab (read_values ids n)) [
      | none ↦ (refused_code, some out)
      | some text ↦ hand_text text out room
    ]
pocketllm_decode _ _ _ out _ = (refused_code, out)

-- What the two `catch` clauses return.
unfoldable pub code_of : Failure → ℤ
code_of past_context = context_code
code_of _ = refused_code

-- The session and the code of a call that writes nothing else.
abbrev pub settle {ℓ} : {A : Type ℓ} → Session A → ℤ → Outcome (Session A) → ℤ × Option (Session A)
settle s code (failed f) = (code_of f, some s)
settle s code (done t) = (code, some t)

abbrev has_graph {ℓ} : {A : Type ℓ} → Session A → Bool
has_graph s = elim s.model [ none ↦ false | some _ ↦ true ]

module _ {ℓ ℓ'} {A : Type ℓ} {F : Type ℓ'} (shape : Shape) (fresh written : Buffer A) where
  -- The logits that the pass hands back are `values`, and the array is written only where it returns.
  unfoldable pub forward_values :
      List F → Session A → ℕ → Buffer F → (ℤ × Option (Session A)) × Option (Buffer F)
  forward_values values s n logits = elim (forward shape fresh written s n) [
    | failed f ↦ ((code_of f, some s), some logits)
    | done t ↦ ((pos (length values), some t), some (put logits values))
  ]

  -- `tokens` says that the tokens are no null pointer; `values` has as many logits as the vocabulary ids.
  unfoldable pub pocketllm_forward :
      List F
      → Option (Session A)
      → Bool
      → ℤ
      → Option (Buffer F)
      → ℤ
      → (ℤ × Option (Session A)) × Option (Buffer F)
  pocketllm_forward values (some s) true (pos (suc n)) (some logits) (pos (suc cap)) =
      if has_graph s
      then if ltb (suc cap) (length values)
        then ((refused_code, some s), some logits)
        else forward_values values s (suc n) logits
      else ((missing_code, some s), some logits)
  pocketllm_forward values s _ _ logits _ = ((refused_code, s), logits)

module _ {ℓ} {A : Type ℓ} (shape : Shape) (fresh written : Buffer A) where
  -- `out_token` says that the place for the id is no null pointer; the id comes from the device.
  unfoldable pub pocketllm_forward_argmax :
      Option (Session A) → Bool → ℤ → Bool → ℤ × Option (Session A)
  pocketllm_forward_argmax (some s) true (pos (suc n)) true =
      if has_graph s
      then settle s (pos 0) (forward shape fresh written s (suc n))
      else (missing_code, some s)
  pocketllm_forward_argmax s _ _ _ = (refused_code, s)

  unfoldable pub pocketllm_forward_batch :
      Option (Session A) → Bool → Option (List ℕ) → Bool → ℤ × Option (Session A)
  pocketllm_forward_batch (some s) true (some (n ∷ counts)) true =
      if has_graph s
      then settle s (pos 0) (forward_batch shape fresh written s (n ∷ counts))
      else (missing_code, some s)
  pocketllm_forward_batch s _ _ _ = (refused_code, s)

  unfoldable pub pocketllm_reserve : Option (Session A) → ℤ → ℤ → ℤ × Option (Session A)
  pocketllm_reserve (some s) (pos (suc positions)) (pos (suc slots)) =
      if has_graph s
      then settle s (pos 0) (session_reserve shape fresh written s (suc positions) (suc slots))
      else (missing_code, some s)
  pocketllm_reserve s _ _ = (refused_code, s)

unfoldable pub pocketllm_reset {ℓ} : {A : Type ℓ} → Option (Session A) → ℤ × Option (Session A)
pocketllm_reset (some s) = (pos 0, some (session_reset s))
pocketllm_reset none = (refused_code, none)

-- `copy_message` of src/runtime/status.cpp, on a message without a byte 0.
unfoldable pub copy_message : Option (Buffer ℕ) → ℕ → Bytes → Option (Buffer ℕ)
copy_message (some err) (suc room) message =
    some (put err (take (min (length message) room) message ++ 0 ∷ []))
copy_message err _ message = err
