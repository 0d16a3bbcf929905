-- ===== src/Runtime/Api/RoundTrip.antt =====
-- A text through `pocketllm_encode` and back through `pocketllm_decode` (src/c_api.cpp).

use pocket_llm.Prelude.{
  ℕ, zero, suc, ◌+◌, ◌≤◌, ◌≡◌, refl, sym, ap, ◌∙◌, Bool, false, List, [], ◌∷◌, ◌++◌, map, none,
  some, Bytes, All, length, length-append, take, min, ltb, arith,
}
use pocket_llm.Prelude.Int.{pos}
use pocket_llm.Tokenizer.Unicode.{UnicodeData}
use pocket_llm.Tokenizer.Specials.{split_specials}
use pocket_llm.Tokenizer.Load.{Tokenizer}
use pocket_llm.Tokenizer.Codec.Emission.{IsByteLevel}
use pocket_llm.Tokenizer.Codec.RoundTrip.{Survives, decode-encode}
use pocket_llm.Model.KvCache.{Buffer}
use pocket_llm.Runtime.Api.{
  put, read_values, hand_ids, hand_text, pocketllm_encode, pocketllm_decode,
}

read_values-put {ℓ} :
    {X : Type ℓ} (out : Buffer X) (xs : List X) → read_values (put out xs) (length xs) ≡ xs
unfolding read_values put
read_values-put out [] = refl
read_values-put out (x ∷ xs) = ap (λ l. x ∷ l) (read_values-put (λ j. out (suc j)) xs)

read_values-map {ℓ ℓ'} :
    {X : Type ℓ} {Y : Type ℓ'} (f : X → Y) (values : Buffer X) (n : ℕ)
    → read_values (λ i. f (values i)) n ≡ map f (read_values values n)
unfolding read_values
read_values-map f values zero = refl
read_values-map f values (suc n) =
    ap (λ l. f (values 0) ∷ l) (read_values-map f (λ j. values (suc j)) n)

take-all {ℓ} : {X : Type ℓ} (xs : List X) → take (length xs) xs ≡ xs
take-all [] = refl
take-all (x ∷ xs) = ap (λ l. x ∷ l) (take-all xs)

-- For a tokenizer of which every byte is a token, and a text whose fragments survive: the sizing call returns
-- a count, the call with an array of that size fills it and returns the count again, and the decoder,
-- given these ids and an array with room for the text and its terminator, returns the length of the text and
-- writes the text and the terminator, whatever the arrays held.
pub pocketllm_decode-pocketllm_encode :
    (u : UnicodeData) (t : Tokenizer) (text : Bytes) (parse_special : Bool) (ids out : Buffer ℕ)
    (room : ℕ)
    → IsByteLevel t
    → All (Survives t) (split_specials t.special_tokens t.vocab text parse_special)
    → length text ≤ room
    → (n : ℕ) × (filled returned : Buffer ℕ) × (pocketllm_encode u
          (some (some t))
          (some text)
          false
          parse_special
          none
          (pos 0)
        ≡ some (pos n, none))
      × (pocketllm_encode u (some (some t)) (some text) false parse_special (some ids) (pos n)
          ≡ some (pos n, some filled))
      × (pocketllm_decode
            (some (some t))
            (some (λ i. pos (filled i)))
            (pos n)
            (some out)
            (pos (suc room))
          ≡ (pos (length text), some returned))
      × (read_values returned (length text + 1) ≡ text ++ 0 ∷ [])
unfolding pocketllm_encode pocketllm_decode hand_ids hand_text
pocketllm_decode-pocketllm_encode u t text parse_special ids out room level survives fits =
    let (tokens, encoded, decoded) = decode-encode u t text parse_special level survives in
    let n = length tokens in
    let fitting : ltb n n ≡ false = ground arith in
    let handed : read_values (λ i. pos (put ids tokens i)) n ≡ map pos tokens =
      read_values-map pos (put ids tokens) n ∙ ap (map pos) (read_values-put ids tokens) in
    let whole : min (length text) room ≡ length text = omega arith in
    let ended : length (text ++ 0 ∷ []) ≡ length text + 1 = length-append text (0 ∷ []) in
    (
      n,
      put ids tokens,
      put out (text ++ 0 ∷ []),
      ground (arith, encoded),
      ground (arith, encoded, fitting),
      ground (arith, handed, decoded, whole, take-all text),
      rw (sym ended) (read_values-put out (text ++ 0 ∷ [])),
    )
