-- ===== src/Generator/Descriptor.antt =====
-- cmd/protoc-gen-protosource: descriptors, as the generator reads them. A field holds what the methods
-- of its pgs.FieldType return; a message holds the results of the generator's own tests on its options.
use Prim.Native.String.{◌++◌ as ◌concat◌}
use protosource.Prelude.{
  ◌≡◌, refl, ℕ, String, ◌==◌, ◌||◌, Bool, true, false, Option, none, some, List, [], ◌∷◌, str_eq,
  if◌then◌else◌,
}
use protosource.Error.{Result, ok, err, ◌>>◌, other}
use protosource.Generator.{Message}

-- A field of the message that a map has as its values.
pub record ElementField : Type 0 where
  pub name : String
  pub go_name : String
  pub is_repeated : Bool
  pub is_map : Bool
  pub ptype : ℕ

-- `Element()` of a map or a repeated field, with the message of `Embed()` where it is one.
pub record Element : Type 0 where
  pub ptype : ℕ
  pub is_embed : Bool
  pub fqn : String
  pub fields : List ElementField

pub record ProtoField : Type 0 where
  pub name : String
  pub go_name : String
  pub number : ℕ
  pub ptype : ℕ
  pub is_repeated : Bool
  pub is_map : Bool
  pub is_embed : Bool
  pub is_enum : Bool
  -- The full name of its message or enum.
  pub fqn : String
  -- `Key().ProtoType()` of a map.
  pub key_ptype : ℕ
  pub element : Element

pub data CollectionAction : Type 0 where
  unspecified : CollectionAction
  add : CollectionAction
  remove : CollectionAction
  -- Any other number.
  unknown : ℕ → CollectionAction

pub record CollectionMapping : Type 0 where
  pub target : String
  pub action : CollectionAction
  pub key_field : String

-- `eventSetsState`, `commandAllowedStates` and `eventCollectionMapping`, with the fields.
pub record ProtoMessage : Type 0 where
  pub base : Message
  pub fqn : String
  pub fields : List ProtoField
  pub sets_state : String
  pub allowed_states : List String
  pub collection : Option CollectionMapping

abbrev pub string_t : ℕ
string_t = 9

abbrev pub bytes_t : ℕ
bytes_t = 12

-- The loops that look a field up by its name: the first one with the name.
unfoldable pub field_by_name : String → List ProtoField → Option ProtoField
field_by_name name [] = none
field_by_name name (f ∷ fields) =
    let rest = field_by_name name fields in if str_eq f.name name then some f else rest

unfoldable pub element_field_by_name : String → List ElementField → Option ElementField
element_field_by_name name [] = none
element_field_by_name name (f ∷ fields) =
    let rest = element_field_by_name name fields in if str_eq f.name name then some f else rest

-- `aggregateFieldGoName` and `eventFieldGoName`
unfoldable pub field_go_name : String → ProtoMessage → String
unfolding field_by_name
field_go_name name m = elim (field_by_name name m.fields) [ none ↦ "" | some f ↦ f.go_name ]

-- `commandEventArg`
unfoldable pub command_event_arg : ProtoField → ProtoMessage → String
unfolding field_by_name
command_event_arg event_field cmd = elim (field_by_name event_field.name cmd.fields) [
  | some f ↦ "m.Get" concat (f.go_name concat "()")
  | none ↦
      if event_field.is_repeated
        || event_field.is_map
        || event_field.is_embed
        || event_field.ptype == bytes_t
      then "nil"
      else "m.Get" concat (event_field.go_name concat "()")
]

-- `if !b { return fmt.Errorf(msg) }`
abbrev pub guard : Bool → String → Result (Unit {0})
guard true msg = ok tt
guard false msg = err (other msg)

pub >>-eq-ok :
    (checked next : Result (Unit {0}))
    → (checked >> next) ≡ ok tt
    → (checked ≡ ok tt) × (next ≡ ok tt)
>>-eq-ok (ok _) next h = (refl, h)
>>-eq-ok (err e) next h = cc
