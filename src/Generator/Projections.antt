-- ===== src/Generator/Projections.antt =====
-- cmd/protoc-gen-protosource: `validateProjectionFields`. Of an error only its kind is kept.
use protosource.Prelude.{
  ◌≡◌, refl, inl, inr, String, Bool, true, false, not, ◌&&◌, Option, none, some, List, [], ◌∷◌,
  ◌++◌, ◌==◌, str_eq, eq_iff, arith, if◌then◌else◌, Option-cases, All, map, ap,
}
use protosource.Error.{Result, ok, err, other}
use protosource.Generator.Descriptor.{Element, ProtoField, ProtoMessage}

-- The map of the aggregate's fields: the last one with the name.
unfoldable pub last_by_name : String → List ProtoField → Option ProtoField
last_by_name name [] = none
last_by_name name (f ∷ fields) = elim (last_by_name name fields) [
  | some later ↦ some later
  | none ↦ if str_eq f.name name then some f else none
]

abbrev pub same_flag : Bool → Bool → Bool
same_flag true b = b
same_flag false b = not b

unfoldable pub value_errors : Element → Element → List String
value_errors p a =
    if not (p.ptype == a.ptype)
    then "map value type mismatch" ∷ []
    else if p.is_embed && a.is_embed && not (str_eq p.fqn a.fqn)
    then "map value message mismatch" ∷ []
    else []

unfoldable pub map_errors : ProtoField → ProtoField → List String
map_errors p a =
    (if p.key_ptype == a.key_ptype then [] else "map key type mismatch" ∷ [])
    ++ value_errors p.element a.element

unfoldable pub name_errors : ProtoField → ProtoField → List String
name_errors p a =
    (if p.is_embed && a.is_embed && not (str_eq p.fqn a.fqn)
      then "message type mismatch" ∷ []
      else [])
    ++ (if p.is_enum && a.is_enum && not (str_eq p.fqn a.fqn)
        then "enum type mismatch" ∷ []
        else [])

-- One round of the loop, for a field that the aggregate has.
unfoldable pub field_errors : ProtoField → ProtoField → List String
unfolding map_errors value_errors name_errors
field_errors p a =
    if not (p.ptype == a.ptype)
    then "type mismatch" ∷ []
    else if not (same_flag p.is_repeated a.is_repeated)
    then "repeated mismatch" ∷ []
    else if not (same_flag p.is_map a.is_map)
    then "map mismatch" ∷ []
    else if p.is_map && a.is_map
    then map_errors p a
    else name_errors p a

unfoldable pub projection_errors : List ProtoField → List ProtoField → List String
unfolding field_errors last_by_name
projection_errors agg_fields [] = []
projection_errors agg_fields (p ∷ fields) =
    let rest = projection_errors agg_fields fields in
    elim (last_by_name p.name agg_fields) [
      | none ↦ "not found on aggregate" ∷ rest
      | some a ↦ field_errors p a ++ rest
    ]

-- `validateProjectionFields`
unfoldable pub validate_projection_fields : ProtoMessage → ProtoMessage → Result (Unit {0})
unfolding projection_errors
validate_projection_fields proj agg = elim (projection_errors agg.fields proj.fields) [
  | [] ↦ ok tt
  | msg ∷ msgs ↦ err (other msg)
]

-- `projectionMatchingFields`
unfoldable pub projection_matching_fields :
    List ProtoField → List ProtoField → List (ProtoField × ProtoField)
unfolding last_by_name
projection_matching_fields agg_fields [] = []
projection_matching_fields agg_fields (p ∷ fields) =
    let rest = projection_matching_fields agg_fields fields in
    elim (last_by_name p.name agg_fields) [ none ↦ rest | some a ↦ (p, a) ∷ rest ]

-- What the generator compares of a field of the projection and the field of the aggregate that is
-- copied to it. It does not compare the elements of repeated fields.
pub record IsAssignable (p a : ProtoField) : Type 0 where
  pub name : a.name ≡ p.name
  pub ptype : p.ptype ≡ a.ptype
  pub repeated : p.is_repeated ≡ a.is_repeated
  pub map : p.is_map ≡ a.is_map
  pub key : p.is_map ≡ true → p.key_ptype ≡ a.key_ptype
  pub value : p.is_map ≡ true → p.element.ptype ≡ a.element.ptype
  pub value_message :
      p.is_map ≡ true
      → p.element.is_embed ≡ true
      → a.element.is_embed ≡ true
      → p.element.fqn ≡ a.element.fqn
  pub message : p.is_map ≡ false → p.is_embed ≡ true → a.is_embed ≡ true → p.fqn ≡ a.fqn
  pub enum : p.is_map ≡ false → p.is_enum ≡ true → a.is_enum ≡ true → p.fqn ≡ a.fqn

last_by_name-name :
    (name : String) (fields : List ProtoField) (f : ProtoField)
    → last_by_name name fields ≡ some f
    → f.name ≡ name
unfolding last_by_name
last_by_name-name name [] f h = cc
last_by_name-name name (g ∷ fields) f h =
    ground (arith, last_by_name-name name fields f, eq_iff g.name name)

field_errors-IsAssignable :
    (p a : ProtoField) → a.name ≡ p.name → field_errors p a ≡ [] → IsAssignable p a
unfolding field_errors
field_errors-IsAssignable p a named h = record {
  name = named;
  ptype = ground arith;
  repeated = ground arith;
  map = ground arith;
  key = λ m. ground arith;
  value = λ m. ground arith;
  value_message = λ m x y. ground (arith, eq_iff p.element.fqn a.element.fqn);
  message = λ m x y. ground (arith, eq_iff p.fqn a.fqn);
  enum = λ m x y. ground (arith, eq_iff p.fqn a.fqn);
}

errors-append : (msgs others : List String) → msgs ++ others ≡ [] → (msgs ≡ []) × (others ≡ [])
errors-append [] others h = (refl, h)
errors-append (msg ∷ msgs) others h = cc

projection_errors-IsAssignable :
    (agg_fields fields : List ProtoField)
    → projection_errors agg_fields fields ≡ []
    → (map (λ pair. pair.0) (projection_matching_fields agg_fields fields) ≡ fields)
      × All (λ pair. IsAssignable pair.0 pair.1) (projection_matching_fields agg_fields fields)
unfolding projection_errors projection_matching_fields
projection_errors-IsAssignable agg_fields [] h = (refl, tt)
projection_errors-IsAssignable agg_fields (p ∷ fields) h =
    elim (Option-cases (last_by_name p.name agg_fields)) [
      | inl missing ↦ absurd (let bad = rw (missing, projection_errors) at h in cc)
      | inr (a, found) ↦
          let (clean, rest_clean) =
            errors-append (field_errors p a) _ (rw (found, projection_errors) at h) in
          let (copied, assignable) = projection_errors-IsAssignable agg_fields fields rest_clean in
          let named = last_by_name-name p.name agg_fields a found in
          rw (found, projection_matching_fields)
            (ap (◌∷◌ p) copied, (field_errors-IsAssignable p a named clean, assignable))
    ]

-- For a projection that passed the check, the generated Project copies every field, each from one of
-- the aggregate that has its name and type.
pub validate_projection_fields-IsAssignable :
    (proj agg : ProtoMessage)
    → validate_projection_fields proj agg ≡ ok tt
    → (map (λ pair. pair.0) (projection_matching_fields agg.fields proj.fields) ≡ proj.fields)
      × All (λ pair. IsAssignable pair.0 pair.1) (projection_matching_fields agg.fields proj.fields)
unfolding validate_projection_fields
validate_projection_fields-IsAssignable proj agg h =
    projection_errors-IsAssignable agg.fields proj.fields (ground (arith, h))
