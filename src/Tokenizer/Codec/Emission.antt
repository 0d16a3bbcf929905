-- ===== src/Tokenizer/Codec/Emission.antt =====
-- What the ids that `merge_word` emits decode to (src/tokenizer/bpe.cpp).
use mathlib.Core.Path.{subst}
use pocket_llm.Prelude.{
  ℕ, zero, suc, ◌≤◌, ◌≡◌, refl, sym, ap, ◌∙◌, Bool, true, false, List, [], ◌∷◌, ◌++◌, map,
  append-nil, append_assoc, none, some, Bytes, IsByte, All, All-append, length, get_elem?,
  Option-cases, inl, inr, arith, if◌then◌else◌, holds_below, holds_below→all, ltb, ◌&&◌,
}
use pocket_llm.Prelude.Assoc.{bytes_eq, find}
use pocket_llm.Prelude.Int.{ℤ, pos}
use pocket_llm.Tokenizer.Utf8.{cpt_to_utf8}
use pocket_llm.Tokenizer.ByteMap.{byte_map, byte_to_cpt, byte_unmap}
use pocket_llm.Tokenizer.ByteMap.Inverse.{byte_unmap-byte_map}
use pocket_llm.Tokenizer.Merge.{
  Symbol, Ranks, merge_symbols, merge_word, emit_symbols, characters_loop, is_empty,
}
use pocket_llm.Tokenizer.Merge.Joined.{texts}
use pocket_llm.Tokenizer.Merge.Normal.{merge_symbols-IsMerged}
use pocket_llm.Tokenizer.Merge.Mapped.{
  IsMapped, byte_map-append, byte_map-nil, character, merge_symbols-Pieces,
}
use pocket_llm.Tokenizer.Load.{Tokenizer}
use pocket_llm.Tokenizer.Codec.{decode, decode_id, decode_piece, is_byte_token}

-- A vocabulary of byte-level BPE: a token has one id at most, no piece spells a byte in hexadecimal,
-- and every byte has a token.
pub record IsByteLevel (t : Tokenizer) : Type 0 where
  pub sound :
      (piece : Bytes) (id : ℕ)
      → find piece t.token_to_id ≡ some id
      → get_elem? t.vocab id ≡ some piece
  pub plain :
      (piece : Bytes) (id : ℕ) → find piece t.token_to_id ≡ some id → is_byte_token piece ≡ false
  pub covers : (b : ℕ) → IsByte b → (id : ℕ) × (find (byte_map (b ∷ [])) t.token_to_id ≡ some id)

all_below : Bytes → Bool
all_below [] = true
all_below (b ∷ bs) = ltb b 256 && all_below bs

all_below-All : (bs : Bytes) → all_below bs ≡ true → All IsByte bs
unfolding all_below
all_below-All [] h = tt
all_below-All (b ∷ bs) h = (ground arith, all_below-All bs (ground arith))

abbrev pub Decodes : List Bytes → List ℕ → Bytes → Type 0
Decodes vocab ids text = decode vocab (map pos ids) ≡ some text

decode-cons :
    (vocab : List Bytes) (id : ℤ) (ids : List ℤ) (s t : Bytes)
    → decode_id vocab id ≡ some s
    → decode vocab ids ≡ some t
    → decode vocab (id ∷ ids) ≡ some (s ++ t)
unfolding decode
decode-cons vocab id ids s t hs ht = ground (arith, hs, ht)

decode-cons_inv :
    (vocab : List Bytes) (id : ℤ) (ids : List ℤ) (text : Bytes)
    → decode vocab (id ∷ ids) ≡ some text
    → (s : Bytes) × (t : Bytes) × (decode_id vocab id ≡ some s)
      × (decode vocab ids ≡ some t)
      × (s ++ t ≡ text)
unfolding decode
decode-cons_inv vocab id ids text h = elim (Option-cases (decode_id vocab id)) [
  | inl n ↦ absurd (ground (arith, h, n))
  | inr (s, hs) ↦ elim (Option-cases (decode vocab ids)) [
    | inl n ↦ absurd (ground (arith, h, hs, n))
    | inr (t, ht) ↦ (s, t, hs, ht, ground (arith, h, hs, ht))
  ]
]

pub decode-nil : (vocab : List Bytes) → decode vocab [] ≡ some []
unfolding decode
decode-nil vocab = refl

pub Decodes-append :
    (vocab : List Bytes) (xs ys : List ℕ) (s t : Bytes)
    → Decodes vocab xs s
    → Decodes vocab ys t
    → Decodes vocab (xs ++ ys) (s ++ t)
Decodes-append vocab [] ys s t hx hy =
    let nothing : [] ≡ s = ground (arith, hx, decode-nil vocab) in
    subst (λ u. Decodes vocab ys (u ++ t)) nothing hy
Decodes-append vocab (x ∷ xs) ys s t hx hy =
    let (a, b, ha, hb, e) = decode-cons_inv vocab (pos x) (map pos xs) s hx in
    decode-cons vocab (pos x) (map pos (xs ++ ys)) a (b ++ t) ha
      (Decodes-append vocab xs ys b t hb hy)
    ∙ ap some (sym (append_assoc a b t) ∙ ap (λ u. u ++ t) e)

pub Decodes-id :
    (vocab : List Bytes) (id : ℕ) (text : Bytes)
    → decode_id vocab (pos id) ≡ some text
    → Decodes vocab (id ∷ []) text
Decodes-id vocab id text h =
    decode-cons vocab (pos id) [] text [] h (decode-nil vocab) ∙ ap some (append-nil text)

is_bytes : ℕ → Bool
unfolding byte_map byte_to_cpt
is_bytes b = all_below (byte_map (b ∷ []))

bytes_table : holds_below 256 is_bytes ≡ true
unfolding holds_below is_bytes all_below byte_map byte_to_cpt cpt_to_utf8
bytes_table = refl

pub byte_map-IsByte : (bs : Bytes) → All IsByte bs → All IsByte (byte_map bs)
unfolding is_bytes
byte_map-IsByte [] h = tt
byte_map-IsByte (b ∷ bs) h = rw (byte_map-append (b ∷ []) bs) (
    All-append IsByte (byte_map (b ∷ [])) (byte_map bs)
      (all_below-All (byte_map (b ∷ [])) (holds_below→all 256 is_bytes bytes_table b h.0))
      (byte_map-IsByte bs h.1))

merge_word-cons :
    (ranks : Ranks) (ids : List (Bytes × ℕ)) (word : Bytes) (out : List ℕ) (c : ℕ) (more : Bytes)
    (final : List Symbol)
    → word ≡ c ∷ more
    → merge_symbols ranks word ≡ some final
    → merge_word ranks ids word out ≡ some (emit_symbols ids final out)
unfolding merge_word
merge_word-cons ranks ids word out c more final e m = rw (e) (rw (rw e at m) refl)

module _ (t : Tokenizer) (v : IsByteLevel t) where
  decode_id-token :
      (bs : Bytes) (id : ℕ)
      → All IsByte bs
      → find (byte_map bs) t.token_to_id ≡ some id
      → decode_id t.vocab (pos id) ≡ some bs
  unfolding decode_id decode_piece
  decode_id-token bs id h e =
      ground (arith, v.sound _ id e, v.plain _ id e, byte_unmap-byte_map bs h)

  push_token-Decodes :
      (bs : Bytes) (id : ℕ) (out : List ℕ) (o : Bytes)
      → All IsByte bs
      → find (byte_map bs) t.token_to_id ≡ some id
      → Decodes t.vocab out o
      → Decodes t.vocab (out ++ id ∷ []) (o ++ bs)
  push_token-Decodes bs id out o h e d =
      Decodes-append t.vocab out (id ∷ []) o bs d
        (Decodes-id t.vocab id bs (decode_id-token bs id h e))

  characters_loop-Decodes :
      (fuel : ℕ) (bs : Bytes) (out : List ℕ) (o : Bytes)
      → length (byte_map bs) ≤ fuel
      → All IsByte bs
      → Decodes t.vocab out o
      → Decodes t.vocab (characters_loop t.token_to_id fuel (byte_map bs) out) (o ++ bs)
  unfolding characters_loop
  characters_loop-Decodes zero [] out o lt h d = rw (append-nil o) d
  characters_loop-Decodes (suc fuel) [] out o lt h d = rw (byte_map-nil, append-nil o) d
  characters_loop-Decodes zero (b ∷ bs) out o lt h d =
      absurd (omega (arith, ap length (character b bs h.0).mapped))
  characters_loop-Decodes (suc fuel) (b ∷ bs) out o lt h d =
      let c = character b bs h.0 in
      let (id, e) = v.covers b h.0 in
      let rest : length (byte_map bs) ≤ fuel = omega (arith, ap length c.mapped, c.shorter) in
      rw (c.mapped, c.taken, c.left, e)
        (subst
          (λ u.
            Decodes t.vocab (characters_loop t.token_to_id fuel (byte_map bs) (out ++ id ∷ [])) u)
          (append_assoc o (b ∷ []) bs)
          (characters_loop-Decodes fuel bs (out ++ id ∷ []) (o ++ b ∷ []) rest h.1
            (push_token-Decodes (b ∷ []) id out o (h.0, tt) e d)))

  -- One round of the last loop of `merge_word`.
  piece-Decodes :
      (text : Bytes) (bs : Bytes) (out : List ℕ) (o : Bytes)
      → All IsByte bs
      → byte_map bs ≡ text
      → Decodes t.vocab out o
      → Decodes t.vocab
          (if is_empty text then out else elim (find text t.token_to_id) [
            | some id ↦ out ++ id ∷ []
            | none ↦ characters_loop t.token_to_id (length text) text out
          ])
          (o ++ bs)
  piece-Decodes [] [] out o h e d = rw (append-nil o) d
  piece-Decodes [] (b ∷ bs) out o h e d = absurd (ground (arith, e, (character b bs h.0).mapped))
  piece-Decodes (c ∷ text) bs out o h e d = elim (Option-cases (find (c ∷ text) t.token_to_id)) [
    | inl n ↦ rw n (
        subst (λ u. Decodes t.vocab (characters_loop t.token_to_id (length u) u out) (o ++ bs)) e
          (characters_loop-Decodes (length (byte_map bs)) bs out o (omega arith) h d))
    | inr (id, f) ↦ rw f (push_token-Decodes bs id out o h (ap (λ u. find u t.token_to_id) e ∙ f) d)
  ]

  -- The ids of the pieces, with the bytes that the pieces are the map of.
  emit_symbols-Decodes :
      (symbols : List Symbol) (out : List ℕ) (o : Bytes)
      → All (λ (s : Symbol). IsMapped s.text) symbols
      → Decodes t.vocab out o
      → (bs : Bytes) × All IsByte bs
        × (byte_map bs ≡ texts symbols)
        × Decodes t.vocab (emit_symbols t.token_to_id symbols out) (o ++ bs)
  unfolding emit_symbols
  emit_symbols-Decodes [] out o m d = ([], tt, byte_map-nil, rw (append-nil o) d)
  emit_symbols-Decodes (s ∷ symbols) out o m d =
      let (xs, hx, ex) = m.0 in
      let first = piece-Decodes s.text xs out o hx ex d in
      let (ys, hy, ey, rest) = emit_symbols-Decodes symbols _ (o ++ xs) m.1 first in
      (
        xs ++ ys,
        All-append IsByte xs ys hx hy,
        byte_map-append xs ys ∙ rw (ex, ey) refl,
        subst (Decodes t.vocab _) (append_assoc o xs ys) rest,
      )

  pub merge_word-Decodes :
      (bs : Bytes) (out : List ℕ) (o : Bytes)
      → All IsByte bs
      → Decodes t.vocab out o
      → (ids : List ℕ) × (merge_word t.merge_rank t.token_to_id (byte_map bs) out ≡ some ids)
        × Decodes t.vocab ids (o ++ bs)
  unfolding merge_word
  merge_word-Decodes [] out o h d = (out, rw byte_map-nil refl, rw (append-nil o) d)
  merge_word-Decodes (b ∷ bs) out o h d =
      let c = character b bs h.0 in
      let (final, e, merged) =
        merge_symbols-IsMerged t.merge_rank (byte_map (b ∷ bs)) (byte_map-IsByte (b ∷ bs) h) in
      let (ws, hw, ew, d') =
        emit_symbols-Decodes final out o (merge_symbols-Pieces t.merge_rank (b ∷ bs) final h e) d in
      let same : ws ≡ b ∷ bs =
        sym (byte_unmap-byte_map ws hw)
        ∙ ap byte_unmap (ew ∙ merged.spelled)
        ∙ byte_unmap-byte_map (b ∷ bs) h in
      (
        emit_symbols t.token_to_id final out,
        merge_word-cons t.merge_rank t.token_to_id (byte_map (b ∷ bs)) out c.first c.more final
            c.mapped e,
        subst (λ u. Decodes t.vocab (emit_symbols t.token_to_id final out) (o ++ u)) same d',
      )
