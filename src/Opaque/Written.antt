-- ===== src/Opaque/Written.antt =====
-- `GetItem` of gen/opaquedata/dynamo: what an item has under the attributes of the indexes.
use protosource.Prelude.{
  String, ◌≡◌, refl, ◌∙◌, inl, inr, Bool, true, false, not, ◌&&◌, none, some, List, [], ◌∷◌, length,
  ltb, ◌==◌, str_eq, eq_iff, eq_refl, arith, if◌then◌else◌, Bool-cases, All,
}
use protosource.Prelude.Dict.{lookup, insert, lookup-insert}
use protosource.Dynamo.{Attribute, text, Item, Strconv}
use protosource.Opaque.{OpaqueData}
use protosource.Opaque.Table.{
  GsiPair, gsi_names, first_keys, other_keys, pairs_of, gsi_pairs, is_present, add_pair, add_pairs,
  plain_item, get_item,
}

-- The attributes that an index writes: the partition key where it is present, and then always the
-- sort key, as "NA" where it is empty; without a partition key, the sort key where it is present.
pub record IsWritten (item : Item) (g : GsiPair) : Type 0 where
  pub partition :
      lookup g.pk_attr item ≡ (if is_present g.pk_val then some (text g.pk_val) else none)
  pub sort : lookup g.sk_attr item ≡ (
      if is_present g.pk_val
      then some (text (if str_eq g.sk_val "" then "NA" else g.sk_val))
      else if is_present g.sk_val
      then some (text g.sk_val)
      else none)

is_name : String → List String → Bool
is_name k [] = false
is_name k (n ∷ names) = let rest = is_name k names in if str_eq n k then true else rest

flat : List (String × String) → List String
flat [] = []
flat ((pk, sk) ∷ names) = pk ∷ sk ∷ flat names

are_distinct : List String → Bool
unfolding is_name
are_distinct [] = true
are_distinct (n ∷ names) = not (is_name n names) && are_distinct names

lookup-add_pair :
    (g : GsiPair) (item : Item) (k : String)
    → str_eq g.pk_attr k ≡ false
    → str_eq g.sk_attr k ≡ false
    → lookup k (add_pair g item) ≡ lookup k item
unfolding add_pair
lookup-add_pair g item k p q = elim (Bool-cases (is_present g.pk_val)) [
  | inl there ↦
      rw (there, add_pair)
        (lookup-insert g.sk_attr k _ _ ∙ rw q (lookup-insert g.pk_attr k _ _ ∙ rw p refl))
  | inr missing ↦ elim (Bool-cases (is_present g.sk_val)) [
    | inl sort ↦ rw (missing, sort, add_pair) (lookup-insert g.sk_attr k _ _ ∙ rw q refl)
    | inr neither ↦ rw (missing, neither, add_pair) refl
  ]
]

-- Other attributes stay as they are.
lookup-add_pairs :
    (names keys : List (String × String)) (item : Item) (k : String)
    → is_name k (flat names) ≡ false
    → lookup k (add_pairs (pairs_of names keys) item) ≡ lookup k item
unfolding add_pairs pairs_of is_name flat
lookup-add_pairs [] keys item k h = refl
lookup-add_pairs ((pk, sk) ∷ names) keys item k h =
    let g : GsiPair = record {
      pk_attr = pk;
      sk_attr = sk;
      pk_val = (first_keys keys).0;
      sk_val = (first_keys keys).1;
    } in
    lookup-add_pairs names (other_keys keys) (add_pair g item) k (ground arith)
    ∙ lookup-add_pair g item k (ground arith) (ground arith)

add_pair-IsWritten :
    (g : GsiPair) (item : Item)
    → str_eq g.sk_attr g.pk_attr ≡ false
    → lookup g.pk_attr item ≡ none
    → lookup g.sk_attr item ≡ none
    → IsWritten (add_pair g item) g
unfolding add_pair
add_pair-IsWritten g item apart p q = elim (Bool-cases (is_present g.pk_val)) [
  | inl there ↦ record {
    partition =
        rw (there, add_pair)
          (lookup-insert g.sk_attr g.pk_attr _ _
            ∙ rw apart (lookup-insert g.pk_attr g.pk_attr _ _ ∙ rw (eq_refl g.pk_attr) refl));
    sort =
        rw (there, add_pair) (lookup-insert g.sk_attr g.sk_attr _ _ ∙ rw (eq_refl g.sk_attr) refl);
  }
  | inr missing ↦ elim (Bool-cases (is_present g.sk_val)) [
    | inl single ↦ record {
      partition =
          rw (missing, single, add_pair) (lookup-insert g.sk_attr g.pk_attr _ _ ∙ rw apart p);
      sort =
          rw (missing, single, add_pair)
            (lookup-insert g.sk_attr g.sk_attr _ _ ∙ rw (eq_refl g.sk_attr) refl);
    }
    | inr neither ↦ record {
      partition = rw (missing, neither, add_pair) p;
      sort = rw (missing, neither, add_pair) q;
    }
  ]
]

kept-IsWritten :
    (g : GsiPair) (names keys : List (String × String)) (item : Item)
    → is_name g.pk_attr (flat names) ≡ false
    → is_name g.sk_attr (flat names) ≡ false
    → IsWritten item g
    → IsWritten (add_pairs (pairs_of names keys) item) g
kept-IsWritten g names keys item p q h = record {
  partition = lookup-add_pairs names keys item g.pk_attr p ∙ h.partition;
  sort = lookup-add_pairs names keys item g.sk_attr q ∙ h.sort;
}

-- Attributes that neither key of an index names are free after it if they were.
free_after :
    (g : GsiPair) (item : Item) (attrs : List String)
    → is_name g.pk_attr attrs ≡ false
    → is_name g.sk_attr attrs ≡ false
    → All (λ k. lookup k item ≡ none) attrs
    → All (λ k. lookup k (add_pair g item) ≡ none) attrs
unfolding is_name
free_after g item [] p q free = tt
free_after g item (k ∷ attrs) p q (h, free) = (
  lookup-add_pair g item k (ground (arith, eq_iff k g.pk_attr, eq_iff g.pk_attr k))
        (ground (arith, eq_iff k g.sk_attr, eq_iff g.sk_attr k))
      ∙ h,
  free_after g item attrs (ground arith) (ground arith) free,
)

pairs_of-IsWritten :
    (names keys : List (String × String)) (item : Item)
    → are_distinct (flat names) ≡ true
    → All (λ k. lookup k item ≡ none) (flat names)
    → All (IsWritten (add_pairs (pairs_of names keys) item)) (pairs_of names keys)
unfolding add_pairs pairs_of are_distinct is_name flat
pairs_of-IsWritten [] keys item h free = tt
pairs_of-IsWritten ((pk, sk) ∷ names) keys item h (p, (q, free)) =
    let g : GsiPair = record {
      pk_attr = pk;
      sk_attr = sk;
      pk_val = (first_keys keys).0;
      sk_val = (first_keys keys).1;
    } in
    let apart : str_eq sk pk ≡ false = ground arith in
    let p_free : is_name pk (flat names) ≡ false = ground arith in
    let q_free : is_name sk (flat names) ≡ false = ground arith in
    let others : are_distinct (flat names) ≡ true = ground arith in
    (
      kept-IsWritten g names (other_keys keys) (add_pair g item) p_free q_free
          (add_pair-IsWritten g item apart p q),
      pairs_of-IsWritten names (other_keys keys) (add_pair g item) others
          (free_after g item (flat names) p_free q_free free),
    )

plain_names : List String
plain_names = "pk" ∷ "sk" ∷ "body" ∷ "t" ∷ "version" ∷ []

none_plain : List String → Bool
unfolding is_name plain_names
none_plain [] = true
none_plain (k ∷ attrs) = not (is_name k plain_names) && none_plain attrs

lookup-if_insert :
    (b : Bool) (name k : String) (v : Attribute) (item : Item)
    → str_eq name k ≡ false
    → lookup k (if b then insert name v item else item) ≡ lookup k item
lookup-if_insert true name k v item h = lookup-insert name k v item ∙ rw h refl
lookup-if_insert false name k v item h = refl

lookup-if_keep :
    (b : Bool) (name k : String) (v : Attribute) (item : Item)
    → str_eq name k ≡ false
    → lookup k (if b then item else insert name v item) ≡ lookup k item
lookup-if_keep true name k v item h = refl
lookup-if_keep false name k v item h = lookup-insert name k v item ∙ rw h refl

module _ (strconv : Strconv) where
  lookup-plain_item :
      (od : OpaqueData) (k : String)
      → is_name k plain_names ≡ false
      → lookup k (plain_item strconv od) ≡ none
  unfolding plain_item is_name plain_names lookup
  lookup-plain_item od k h =
      lookup-if_keep (od.version == 0) "version" k _ _ (ground arith)
      ∙ lookup-if_keep (od.t == 0) "t" k _ _ (ground arith)
      ∙ lookup-if_insert (ltb 0 (length od.body)) "body" k _ _ (ground arith)
      ∙ ground arith

  plain_free :
      (od : OpaqueData) (attrs : List String)
      → none_plain attrs ≡ true
      → All (λ k. lookup k (plain_item strconv od) ≡ none) attrs
  unfolding none_plain
  plain_free od [] h = tt
  plain_free od (k ∷ attrs) h =
      (lookup-plain_item od k (ground arith), plain_free od attrs (ground arith))

  -- The item of opaque data has, under the attributes of each of the twenty indexes, what `IsWritten`
  -- says: the partition key exactly where it is neither empty nor "NA", and then the sort key too,
  -- never as the empty text.
  pub get_item-IsWritten : (od : OpaqueData) → All (IsWritten (get_item strconv od)) (gsi_pairs od)
  unfolding get_item gsi_pairs are_distinct is_name flat none_plain plain_names
  get_item-IsWritten od =
      pairs_of-IsWritten gsi_names od.gsi (plain_item strconv od) refl
        (plain_free od (flat gsi_names) refl)
