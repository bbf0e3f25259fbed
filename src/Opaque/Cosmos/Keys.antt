-- ===== src/Opaque/Cosmos/Keys.antt =====
-- gen/opaquedata/cosmos: where the sort key of an index stands, and that `skValueExtractor` finds it.
use protosource.Prelude.{
  ℕ, zero, suc, String, ◌≡◌, refl, ◌∙◌, sym, fun_ext, inl, inr, Bool, true, false, not, ◌&&◌,
  Option, none, some, List, [], ◌∷◌, map, arith, str_eq, eq_iff, Bool-cases,
}
use protosource.Generator.Indexes.{was_seen}
use protosource.Opaque.{OpaqueData}
use protosource.Opaque.Table.{gsi_names, first_keys, other_keys, pairs_of, gsi_pairs}
use protosource.Opaque.Cosmos.{sk_of, sk_value_extractor}

-- The names of the sort keys of the schema, of the indexes 1 to 20.
abbrev pub sort_names : List String
sort_names =
    "gsi1sk" ∷ "gsi2sk" ∷ "gsi3sk" ∷ "gsi4sk" ∷ "gsi5sk" ∷ "gsi6sk" ∷ "gsi7sk" ∷ "gsi8sk" ∷ "gsi9sk"
    ∷ "gsi10sk" ∷ "gsi11sk" ∷ "gsi12sk" ∷ "gsi13sk" ∷ "gsi14sk" ∷ "gsi15sk" ∷ "gsi16sk" ∷ "gsi17sk"
    ∷ "gsi18sk" ∷ "gsi19sk" ∷ "gsi20sk" ∷ []

-- The name at a place, counted from 0.
abbrev pub name_at : ℕ → List String → Option String
name_at i [] = none
name_at zero (name ∷ names) = some name
name_at (suc i) (name ∷ names) = name_at i names

-- The sort key at a place among the keys of the indexes, empty where there is none.
abbrev pub key_at : ℕ → List (String × String) → String
key_at i [] = ""
key_at zero ((pk, sk) ∷ keys) = sk
key_at (suc i) (k ∷ keys) = key_at i keys

abbrev pub index_key : ℕ → OpaqueData → String
index_key i od = key_at i od.gsi

abbrev are_apart : List String → Bool
are_apart [] = true
are_apart (name ∷ names) = not (was_seen name names) && are_apart names

was_seen-name_at :
    (i : ℕ) (names : List String) (name : String)
    → name_at i names ≡ some name
    → was_seen name names ≡ true
unfolding was_seen
was_seen-name_at i [] name h = cc
was_seen-name_at zero (n ∷ names) name h = ground (arith, eq_iff n name)
was_seen-name_at (suc i) (n ∷ names) name h = ground (arith, was_seen-name_at i names name h)

key_at-zero : (keys : List (String × String)) → (first_keys keys).1 ≡ key_at 0 keys
key_at-zero [] = refl
key_at-zero ((pk, sk) ∷ keys) = refl

key_at-suc :
    (i : ℕ) (keys : List (String × String)) → key_at i (other_keys keys) ≡ key_at (suc i) keys
key_at-suc i [] = refl
key_at-suc i (k ∷ keys) = refl

apart_first :
    (name : String) (names : List String)
    → are_apart (name ∷ names) ≡ true
    → (was_seen name names ≡ false) × (are_apart names ≡ true)
apart_first name names h = ground arith

sk_of-pairs_of :
    (names keys : List (String × String)) (i : ℕ) (name : String)
    → are_apart (map (λ n. n.1) names) ≡ true
    → name_at i (map (λ n. n.1) names) ≡ some name
    → sk_of name (pairs_of names keys) ≡ key_at i keys
unfolding sk_of pairs_of
sk_of-pairs_of [] keys i name apart h = cc
sk_of-pairs_of ((pk, sk) ∷ names) keys zero name apart h =
    let same : sk ≡ name = cc in rw ((eq_iff sk name).1 same) (key_at-zero keys)
sk_of-pairs_of ((pk, sk) ∷ names) keys (suc i) name apart h =
    let (fresh, rest) = apart_first sk (map (λ n. n.1) names) apart in
    let seen = was_seen-name_at i (map (λ n. n.1) names) name h in
    elim (Bool-cases (str_eq sk name)) [
      | inl same ↦
          let twice : was_seen sk (map (λ n. n.1) names) ≡ true =
            rw ((eq_iff sk name).0 same) seen in
          let bad : true ≡ false = sym twice ∙ fresh in cc
      | inr other ↦
          rw other (sk_of-pairs_of names (other_keys keys) i name rest h ∙ key_at-suc i keys)
    ]

no_main_key : was_seen "sk" sort_names ≡ false
unfolding was_seen
no_main_key = refl

names_apart : are_apart sort_names ≡ true
unfolding was_seen
names_apart = refl

-- For a sort key of the schema, `skValueExtractor` reads the key of that index.
pub sk_value_extractor-index_key :
    (i : ℕ) (name : String)
    → name_at i sort_names ≡ some name
    → sk_value_extractor name ≡ index_key i
unfolding sk_value_extractor gsi_pairs
sk_value_extractor-index_key i name h = fun_ext (λ od. elim (Bool-cases (str_eq name "sk")) [
  | inl main ↦
      let seen : was_seen "sk" sort_names ≡ true =
        rw (← (eq_iff name "sk").0 main) (was_seen-name_at i sort_names name h) in
      let bad : true ≡ false = sym seen ∙ no_main_key in cc
  | inr index ↦ rw index (sk_of-pairs_of gsi_names od.gsi i name names_apart h)
])
