-- ===== src/Generator/Enums/Labels.antt =====
-- cmd/protoc-gen-protosource: which values of an enum `buildEnumDisplay` gives a label.
use protosource.Prelude.{
  ℕ, String, ◌≡◌, refl, ap, inl, inr, Bool, true, false, Option, none, some, List, [], ◌∷◌, map,
  ◌==◌, ==_iff, arith, if◌then◌else◌, Bool-cases,
}
use protosource.Generator.Enums.{
  EnumValue, EnumDisplayValue, ProtoEnum, Letters, was_number, display_values, build_enum_display,
}

abbrev pub numbers : List EnumValue → List ℕ
numbers values = map (λ v. v.number) values

abbrev pub AreDistinct : List ℕ → Type 0
AreDistinct [] = Unit
AreDistinct (n ∷ ns) = (was_number n ns ≡ false) × AreDistinct ns

-- The first value with a number.
abbrev pub value_of : ℕ → List EnumValue → Option EnumValue
value_of n [] = none
value_of n (v ∷ values) = let rest = value_of n values in if v.number == n then some v else rest

-- The values that get a label: the display has their Go names in their order, no two of them have the
-- same number, and for each number it is the first value of the enum that has it.
pub record IsLabelled (values : List EnumValue) (display : List EnumDisplayValue) : Type 0 where
  pub labelled : List EnumValue
  pub names : map (λ d. d.go_name) display ≡ map (λ v. v.go_name) labelled
  pub distinct : AreDistinct (numbers labelled)
  pub first : (n : ℕ) → value_of n labelled ≡ value_of n values

-- The values of a list that `display_values` keeps after the numbers `seen`.
kept : List ℕ → List EnumValue → List EnumValue
kept seen [] = []
kept seen (v ∷ values) =
    let rest = kept (v.number ∷ seen) values in
    let rest_seen = kept seen values in if was_number v.number seen then rest_seen else v ∷ rest

names-kept :
    (letters : Letters) (strip : Bool) (prefix : String) (seen : List ℕ) (values : List EnumValue)
    → map (λ d. d.go_name) (display_values letters strip prefix seen values)
      ≡ map (λ v. v.go_name) (kept seen values)
unfolding display_values kept
names-kept letters strip prefix seen [] = refl
names-kept letters strip prefix seen (v ∷ values) = elim (Bool-cases (was_number v.number seen)) [
  | inl old ↦ rw old (names-kept letters strip prefix seen values)
  | inr new ↦ rw new (ap (◌∷◌ v.go_name) (names-kept letters strip prefix (v.number ∷ seen) values))
]

-- A number that was seen has no value left.
kept-seen :
    (n : ℕ) (seen : List ℕ) (values : List EnumValue)
    → was_number n seen ≡ true
    → was_number n (numbers (kept seen values)) ≡ false
unfolding kept was_number
kept-seen n seen [] h = refl
kept-seen n seen (v ∷ values) h = elim (Bool-cases (was_number v.number seen)) [
  | inl old ↦ rw old (kept-seen n seen values h)
  | inr new ↦
      let rest = kept-seen n (v.number ∷ seen) values (ground arith) in
      rw new (ground (arith, rest, new, h))
]

kept-AreDistinct :
    (seen : List ℕ) (values : List EnumValue) → AreDistinct (numbers (kept seen values))
unfolding kept was_number
kept-AreDistinct seen [] = tt
kept-AreDistinct seen (v ∷ values) = elim (Bool-cases (was_number v.number seen)) [
  | inl old ↦ rw old (kept-AreDistinct seen values)
  | inr new ↦ rw new (
    kept-seen v.number (v.number ∷ seen) values (ground arith),
    kept-AreDistinct (v.number ∷ seen) values,
  )
]

value_of-kept :
    (n : ℕ) (seen : List ℕ) (values : List EnumValue)
    → was_number n seen ≡ false
    → value_of n (kept seen values) ≡ value_of n values
unfolding kept was_number
value_of-kept n seen [] h = refl
value_of-kept n seen (v ∷ values) h = elim (Bool-cases (v.number == n)) [
  | inl here ↦
      let new : was_number v.number seen ≡ false = rw ((==_iff v.number n).0 here) h in
      rw (new, here) refl
  | inr later ↦ elim (Bool-cases (was_number v.number seen)) [
    | inl old ↦ rw (old, later) (value_of-kept n seen values h)
    | inr new ↦ rw (new, later) (value_of-kept n (v.number ∷ seen) values (ground arith))
  ]
]

-- `buildEnumDisplay` labels the first value of each number.
pub build_enum_display-IsLabelled :
    (letters : Letters) (e : ProtoEnum) → IsLabelled e.values (build_enum_display letters e).values
unfolding build_enum_display was_number
build_enum_display-IsLabelled letters e = record {
  labelled = kept [] e.values;
  names = names-kept letters _ _ [] e.values;
  distinct = kept-AreDistinct [] e.values;
  first = λ n. value_of-kept n [] e.values refl;
}
