-- ===== src/Gguf/Directory.antt =====
-- The tensor directory of a reader and its index by name (src/gguf/reader.cpp).
use pocket_llm.Prelude.{
  ℕ, zero, suc, ◌<◌, ◌≡◌, refl, sym, ap, ◌∙◌, List, [], ◌∷◌, ◌++◌, map, Option, none, some, Bytes,
  length, length-append, get_elem?, Option-cases, inl, inr, same_bytes, arith, if◌then◌else◌,
  append-nil,
}
use mathlib.Core.Path.{subst}
use pocket_llm.Prelude.Assoc.{bytes_eq, find, assign, find-assign}
use pocket_llm.Gguf.Cursor.{ok}
use pocket_llm.Gguf.Cursor.Local.{Result-cases}
use pocket_llm.Gguf.Parse.{
  TensorRecord, TensorInfo, Header, GgufReader, locate, locate_all, data_start_of, reader_of, build,
  open_file, read_header,
}
use pocket_llm.Gguf.Tensor.{tensor}

-- What the file says of a tensor.
abbrev pub as_record : TensorInfo → TensorRecord
as_record t = record {
  name = t.name;
  dimensions = t.dimensions;
  type_id = t.type_id;
  offset = t.offset;
}

-- The last of the tensors with a name.
unfoldable pub last_named : Bytes → List TensorInfo → Option TensorInfo
last_named name [] = none
last_named name (t ∷ tensors) = elim (last_named name tensors) [
  | some u ↦ some u
  | none ↦ if same_bytes t.name name then some t else none
]

abbrev lookup : List TensorInfo → List (Bytes × ℕ) → Bytes → Option TensorInfo
lookup tensors index name = elim (find name index) [ none ↦ none | some i ↦ get_elem? tensors i ]

record IsIndexed (tensors : List TensorInfo) (index : List (Bytes × ℕ)) : Type 0 where
  bound : (name : Bytes) (i : ℕ) → find name index ≡ some i → i < length tensors
  found : (name : Bytes) → lookup tensors index name ≡ last_named name tensors

get_elem?-last :
    (tensors : List TensorInfo) (t : TensorInfo)
    → get_elem? (tensors ++ t ∷ []) (length tensors) ≡ some t
get_elem?-last [] t = refl
get_elem?-last (u ∷ tensors) t = get_elem?-last tensors t

get_elem?-before :
    (tensors more : List TensorInfo) (i : ℕ)
    → i < length tensors
    → get_elem? (tensors ++ more) i ≡ get_elem? tensors i
get_elem?-before [] more i h = absurd (omega arith)
get_elem?-before (u ∷ tensors) more zero h = refl
get_elem?-before (u ∷ tensors) more (suc i) h = get_elem?-before tensors more i (omega arith)

last_named-last :
    (name : Bytes) (tensors : List TensorInfo) (t : TensorInfo)
    → last_named name (tensors ++ t ∷ [])
      ≡ (if same_bytes t.name name then some t else last_named name tensors)
unfolding last_named
last_named-last name [] t = refl
last_named-last name (u ∷ tensors) t = rw (last_named-last name tensors t) (ground arith)

lookup-push :
    (tensors : List TensorInfo) (index : List (Bytes × ℕ)) (t : TensorInfo) (name : Bytes)
    → ((i : ℕ) → find name index ≡ some i → i < length tensors)
    → lookup (tensors ++ t ∷ []) (assign t.name (length tensors) index) name
      ≡ (if same_bytes t.name name then some t else lookup tensors index name)
lookup-push tensors index t name bound = elim (Option-cases (find name index)) [
  | inl n ↦ ground (arith, find-assign t.name name (length tensors) index, get_elem?-last tensors t)
  | inr (i, f) ↦ ground (
    arith,
    find-assign t.name name (length tensors) index,
    get_elem?-last tensors t,
    get_elem?-before tensors (t ∷ []) i (bound i f),
  )
]

IsIndexed-push :
    {tensors : List TensorInfo} {index : List (Bytes × ℕ)} (t : TensorInfo)
    → IsIndexed tensors index
    → IsIndexed (tensors ++ t ∷ []) (assign t.name (length tensors) index)
IsIndexed-push {tensors} {index} t h = record {
  bound = λ name i e. ground (
    arith,
    find-assign t.name name (length tensors) index,
    length-append tensors (t ∷ []),
    h.bound name i,
  );
  found = λ name.
      lookup-push tensors index t name (h.bound name)
      ∙ rw (last_named-last name tensors t, h.found name) refl;
}

locate-as_record :
    (start : ℕ) (t : TensorRecord) (info : TensorInfo)
    → locate start t ≡ some info
    → as_record info ≡ t
unfolding locate
locate-as_record start t info h = ground arith

locate_all-none :
    (start : ℕ) (t : TensorRecord) (records : List TensorRecord) (tensors : List TensorInfo)
    (index : List (Bytes × ℕ))
    → locate start t ≡ none
    → locate_all start (t ∷ records) tensors index ≡ none
unfolding locate_all
locate_all-none start t records tensors index h = ground arith

locate_all-some :
    (start : ℕ) (t : TensorRecord) (records : List TensorRecord) (tensors : List TensorInfo)
    (index : List (Bytes × ℕ)) {info : TensorInfo}
    → locate start t ≡ some info
    → locate_all start (t ∷ records) tensors index
      ≡ locate_all start records (tensors ++ info ∷ []) (assign t.name (length tensors) index)
unfolding locate_all
locate_all-some start t records tensors index h = rw (h, locate_all) refl

-- What the last loop keeps: the directory follows the records, and the index follows the directory.
abbrev Follows : List TensorInfo → List TensorRecord → List TensorInfo × List (Bytes × ℕ) → Type 0
Follows tensors records r =
    IsIndexed r.0 r.1 × (map as_record r.0 ≡ map as_record tensors ++ records)

map-push :
    (tensors : List TensorInfo) (info : TensorInfo) (records : List TensorRecord)
    → map as_record (tensors ++ info ∷ []) ++ records
      ≡ map as_record tensors ++ as_record info ∷ records
map-push [] info records = refl
map-push (t ∷ tensors) info records =
    ap (λ rest. as_record t ∷ rest) (map-push tensors info records)

locate_all-Follows :
    (start : ℕ) (records : List TensorRecord) (tensors : List TensorInfo) (index : List (Bytes × ℕ))
    {r : List TensorInfo × List (Bytes × ℕ)}
    → IsIndexed tensors index
    → locate_all start records tensors index ≡ some r
    → Follows tensors records r
unfolding locate_all
locate_all-Follows start [] tensors index {r} h e =
    let same : (tensors, index) ≡ r = cc in
    subst (Follows tensors []) same (h, sym (append-nil (map as_record tensors)))
locate_all-Follows start (t ∷ records) tensors index {r} h e =
    elim (Option-cases (locate start t)) [
      | inl l ↦ absurd (ground (arith, e, locate_all-none start t records tensors index l))
      | inr (info, l) ↦
          let (indexed, eq) =
            locate_all-Follows start records (tensors ++ info ∷ [])
              (assign t.name (length tensors) index) {r = r}
              (subst (λ name. IsIndexed (tensors ++ info ∷ []) (assign name (length tensors) index))
                (ap (λ (u : TensorRecord). u.name) (locate-as_record start t info l))
                (IsIndexed-push info h))
              (sym (locate_all-some start t records tensors index l) ∙ e) in
          (
            indexed,
            eq
                ∙ map-push tensors info records
                ∙ ap (λ u. map as_record tensors ++ u ∷ records) (locate-as_record start t info l),
          )
    ]

-- A reader that was opened.
pub record IsOpened (file : Bytes) (reader : GgufReader) : Type 0 where
  pub header : Header
  pub end : ℕ
  pub parsed : read_header file 0 ≡ ok (header, end)
  pub built : build file header end ≡ ok reader

pub open_file-IsOpened :
    (file : Bytes) (reader : GgufReader) → open_file file ≡ ok reader → IsOpened file reader
unfolding open_file
open_file-IsOpened file reader e = elim (Result-cases (read_header file 0)) [
  | inr (x, h) ↦ absurd (ground (arith, e, h))
  | inl ((header, end), h) ↦ record {
    header = header;
    end = end;
    parsed = h;
    built = ground (arith, e, h);
  }
]

pub build-reader_of :
    (file : Bytes) (h : Header) (pos : ℕ) (reader : GgufReader)
    → build file h pos ≡ ok reader
    → (directory : List TensorInfo × List (Bytes × ℕ)) × (locate_all
          (data_start_of h pos)
          h.records
          []
          []
        ≡ some directory)
      × (reader_of file h pos directory ≡ reader)
unfolding build
build-reader_of file h pos reader e =
    elim (Option-cases (locate_all (data_start_of h pos) h.records [] [])) [
      | inl n ↦ absurd (ground (arith, e, n))
      | inr (directory, d) ↦ (directory, d, ground (arith, e, d))
    ]

empty-IsIndexed : IsIndexed [] []
unfolding find last_named
empty-IsIndexed = record { bound = λ name i e. absurd (cc); found = λ name. refl }

-- A reader has the directory of the file, all of it and in the file's order, and a tensor by its name is
-- the last of the directory with that name; without one there is none.
pub open_file-tensor :
    (file : Bytes) (reader : GgufReader)
    → open_file file ≡ ok reader
    → (h : Header) × (end : ℕ) × (read_header file 0 ≡ ok (h, end))
      × (map as_record reader.tensors ≡ h.records)
      × ((name : Bytes) → tensor reader name ≡ last_named name reader.tensors)
unfolding tensor
open_file-tensor file reader e =
    let o = open_file-IsOpened file reader e in
    let (directory, d, same) = build-reader_of file o.header o.end reader o.built in
    let (indexed, eq) =
      locate_all-Follows (data_start_of o.header o.end) o.header.records [] [] empty-IsIndexed d in
    (
      o.header,
      o.end,
      o.parsed,
      subst (λ (r : GgufReader). map as_record r.tensors ≡ o.header.records) same eq,
      subst
          (λ (r : GgufReader).
            (name : Bytes) → lookup r.tensors r.tensor_index name ≡ last_named name r.tensors)
          same indexed.found,
    )
