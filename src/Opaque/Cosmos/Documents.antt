-- ===== src/Opaque/Cosmos/Documents.antt =====
-- gen/opaquedata/cosmos: what `Put` writes, against what `Get` reads and what the DynamoDB store
-- writes.
use mathlib.Core.Path.{ap₂}
use protosource.Prelude.{
  ℕ, String, ◌≡◌, refl, sym, ap, ◌∙◌, ◌≢◌, ◌⊎◌, inl, inr, true, Option, none, some, List, [], ◌∷◌,
  map, length, str_eq, eq_iff, arith, if◌then◌else◌, Bool-cases, All,
}
use protosource.Prelude.Dict.{lookup}
use protosource.Error.{Error, ok}
use protosource.Compress.{Bytes}
use protosource.Repository.Stored.{Result-cases}
use protosource.Dynamo.{Attribute, text, Item, Strconv}
use protosource.Opaque.{OpaqueData}
use protosource.Opaque.Table.{
  GsiPair, gsi_names, other_keys, pairs_of, gsi_pairs, is_present, get_item,
}
use protosource.Opaque.Written.{IsWritten, get_item-IsWritten}
use protosource.Opaque.Cosmos.{
  OpaqueDocument, DocumentJson, ContainerClient, slot_keys, document_of, opaque_of, unmarshal_item,
  put, get,
}

-- A key of a document as an attribute of an item; `omitempty` leaves an empty one out.
abbrev pub attribute_of : String → Option Attribute
attribute_of key = if str_eq key "" then none else some (text key)

-- The item has under the names of the indexes what the document has as their keys.
abbrev pub Agrees : Item → List (String × String) → List (String × String) → Type 0
Agrees item [] [] = Unit
Agrees item ((pk, sk) ∷ names) ((pk_key, sk_key) ∷ keys) =
    (lookup pk item ≡ attribute_of pk_key)
    × (lookup sk item ≡ attribute_of sk_key)
    × Agrees item names keys
Agrees item _ _ = ⊥

attribute_of-is_present : (v : String) → is_present v ≡ true → attribute_of v ≡ some (text v)
unfolding is_present
attribute_of-is_present v there = ground arith

attribute_of-sort :
    (v : String)
    → attribute_of (if str_eq v "" then "NA" else v) ≡ some (text (if str_eq v "" then "NA" else v))
attribute_of-sort v = elim (Bool-cases (str_eq v "")) [
  | inl empty ↦ rw empty refl
  | inr filled ↦ rw (filled, filled) refl
]

slot_keys-IsWritten :
    (item : Item) (g : GsiPair)
    → IsWritten item g
    → (lookup g.pk_attr item ≡ attribute_of (slot_keys g).0)
      × (lookup g.sk_attr item ≡ attribute_of (slot_keys g).1)
unfolding slot_keys
slot_keys-IsWritten item g w = elim (Bool-cases (is_present g.pk_val)) [
  | inl there ↦
      rw (there, slot_keys)
        (
          w.partition ∙ rw there (sym (attribute_of-is_present g.pk_val there)),
          w.sort ∙ rw there (sym (attribute_of-sort g.sk_val)),
        )
  | inr missing ↦ elim (Bool-cases (is_present g.sk_val)) [
    | inl alone ↦
        rw (missing, slot_keys, alone)
          (
            w.partition ∙ rw missing refl,
            w.sort ∙ rw (missing, alone) (sym (attribute_of-is_present g.sk_val alone)),
          )
    | inr neither ↦
        rw (missing, slot_keys, neither)
          (w.partition ∙ rw missing refl, w.sort ∙ rw (missing, neither) refl)
  ]
]

Agrees-pairs_of :
    (item : Item) (names keys : List (String × String))
    → All (IsWritten item) (pairs_of names keys)
    → Agrees item names (map slot_keys (pairs_of names keys))
unfolding pairs_of
Agrees-pairs_of item [] keys h = tt
Agrees-pairs_of item ((pk, sk) ∷ names) keys (w, others) =
    let here = slot_keys-IsWritten item _ w in
    (here.0, here.1, Agrees-pairs_of item names (other_keys keys) others)

-- The two stores write the same keys for the indexes of the same opaque data.
pub document_of-Agrees :
    (strconv : Strconv) (now : ℕ) (od : OpaqueData)
    → Agrees (get_item strconv od) gsi_names (document_of now od).gsi
unfolding document_of gsi_pairs
document_of-Agrees strconv now od =
    Agrees-pairs_of (get_item strconv od) gsi_names od.gsi (get_item-IsWritten strconv od)

-- The keys of an index as a store keeps them: no sort key stands without being set, and none is empty
-- beside a partition key.
abbrev pub IsKept : String × String → Type 0
IsKept keys = ((keys.0 ≡ "") × (keys.1 ≢ "NA")) ⊎ ((keys.0 ≢ "") × (keys.0 ≢ "NA") × (keys.1 ≢ ""))

slot_keys-IsKept : (g : GsiPair) → IsKept (g.pk_val, g.sk_val) → slot_keys g ≡ (g.pk_val, g.sk_val)
unfolding slot_keys is_present
slot_keys-IsKept g (inl k) =
    ground (arith, eq_iff g.sk_val "", eq_iff g.sk_val "NA", eq_iff g.pk_val "", k.0)
slot_keys-IsKept g (inr k) =
    ground (arith, eq_iff g.sk_val "", eq_iff g.pk_val "NA", eq_iff g.pk_val "")

-- Twenty pairs of keys are what the indexes write, if each is kept.
slot_keys-pairs_of :
    (names keys : List (String × String))
    → length keys ≡ length names
    → All IsKept keys
    → map slot_keys (pairs_of names keys) ≡ keys
unfolding pairs_of
slot_keys-pairs_of [] [] same kept = refl
slot_keys-pairs_of [] (k ∷ keys) same kept = absurd (omega arith)
slot_keys-pairs_of (n ∷ names) [] same kept = absurd (omega arith)
slot_keys-pairs_of ((pk, sk) ∷ names) ((p, s) ∷ keys) same (here, kept) =
    ap₂ ◌∷◌ (slot_keys-IsKept (record { pk_attr = pk; sk_attr = sk; pk_val = p; sk_val = s }) here)
      (slot_keys-pairs_of names keys (omega arith) kept)

-- `unmarshalItem` undoes `marshalItem`, but for the time to live of the document.
opaque_of-document_of :
    (now : ℕ) (od : OpaqueData)
    → length od.gsi ≡ 20
    → All IsKept od.gsi
    → opaque_of (document_of now od) ≡ od
unfolding opaque_of document_of gsi_pairs
opaque_of-document_of now od twenty kept =
    ap (λ keys. record od { gsi = keys }) (slot_keys-pairs_of gsi_names od.gsi twenty kept)

module _ (json : DocumentJson) (status_of : Error → Option ℕ) {S : Type 0}
    (client : ContainerClient S) where
  -- A document that a write stored is read again under its partition and its id; the database adds
  -- properties of its own, which the decoding skips.
  abbrev pub ReadsBack : OpaqueDocument → S → S → Type 0
  ReadsBack doc s s' =
      (raw : Bytes)
      → json.marshal doc ≡ ok raw
      → client.upsert_item doc.pk raw s ≡ (ok tt, s')
      → (found : Bytes) × (client.read_item doc.pk doc.id s' ≡ ok found)
        × (json.unmarshal found ≡ ok doc)

  put-eq-ok :
      (now : ℕ) (od : OpaqueData) (s s' : S)
      → put json status_of client now od s ≡ (ok tt, s')
      → (raw : Bytes) × (json.marshal (document_of now od) ≡ ok raw)
        × (client.upsert_item od.pk raw s ≡ (ok tt, s'))
  unfolding put
  put-eq-ok now od s s' h = elim (Result-cases (json.marshal (document_of now od))) [
    | inr (e, failed) ↦ absurd (let bad = rw (failed, put) at h in cc (ap (λ p. p.0) bad))
    | inl (raw, coded) ↦ let sent = rw (coded, put) at h in (raw, coded, ground (arith, sent))
  ]

  -- With a database that reads back what it wrote: what Put stored, Get returns, if the keys of the
  -- twenty indexes are such as a store keeps.
  pub get-put :
      (now : ℕ) (od : OpaqueData) (s s' : S)
      → ReadsBack (document_of now od) s s'
      → length od.gsi ≡ 20
      → All IsKept od.gsi
      → put json status_of client now od s ≡ (ok tt, s')
      → get json status_of client od.pk od.sk s' ≡ ok od
  unfolding get unmarshal_item document_of
  get-put now od s s' reads twenty kept stored =
      let (raw, coded, kept') = put-eq-ok now od s s' stored in
      let (found, read, decoded) = reads raw coded kept' in
      let read' : client.read_item od.pk od.sk s' ≡ ok found = read in
      rw (read', get, decoded) (ap ok (opaque_of-document_of now od twenty kept))
