-- ===== src/Generator.antt =====
-- cmd/protoc-gen-protosource: the checks of the generator on the structure of a proto file. A message
-- is given by its descriptor and by what its options say.
pub mod Structure
pub mod Indexes
pub mod Descriptor
pub mod Collections
pub mod Embeds
pub mod Projections
pub mod OpaqueKeys
pub mod Run
pub mod Exprs
pub mod Enums
use protosource.Prelude.{
  ℕ, suc, String, Bool, true, false, not, ◌&&◌, Option, none, some, List, [], ◌∷◌, ltb, ◌==◌,
  str_eq, if◌then◌else◌,
}
use protosource.Error.{Result, ok, err, ◌>>=◌, ◌>>◌, other}

pub record Field : Type 0 where
  pub name : String
  pub number : ℕ
  -- The number of its pgs.ProtoType.
  pub ptype : ℕ

-- `isAggregate`, `isCommand`, `isEvent`, `isProjection`, `isSnapshot`, `commandLifecycle` and
-- `commandEvents`, with the fields.
pub record Message : Type 0 where
  pub name : String
  pub is_aggregate : Bool
  pub is_command : Bool
  pub is_event : Bool
  pub is_projection : Bool
  pub is_snapshot : Bool
  pub lifecycle : String
  pub produces : List String
  pub fields : List Field

abbrev string_type : ℕ
string_type = 9

abbrev int64_type : ℕ
int64_type = 3

abbrev pub command_fields : List Field
command_fields =
    record { name = "id"; number = 1; ptype = string_type }
    ∷ record { name = "actor"; number = 2; ptype = string_type }
    ∷ []

abbrev pub event_fields : List Field
event_fields =
    record { name = "id"; number = 1; ptype = string_type }
    ∷ record { name = "version"; number = 2; ptype = int64_type }
    ∷ record { name = "at"; number = 3; ptype = int64_type }
    ∷ record { name = "actor"; number = 4; ptype = string_type }
    ∷ []

-- The map of the fields by name: the last one with the name.
unfoldable pub field_named : String → List Field → Option Field
field_named name [] = none
field_named name (f ∷ fields) = elim (field_named name fields) [
  | some later ↦ some later
  | none ↦ if str_eq f.name name then some f else none
]

unfoldable pub check_field : Message → Field → Result (Unit {0})
check_field m required = elim (field_named required.name m.fields) [
  | none ↦ err (other "missing required field")
  | some f ↦
      if not (f.number == required.number)
      then err (other "field has another number")
      else if not (f.ptype == required.ptype)
      then err (other "field has another type")
      else ok tt
]

-- `validateFields`
unfoldable pub validate_fields : Message → List Field → Result (Unit {0})
unfolding check_field
validate_fields m [] = ok tt
validate_fields m (required ∷ others) = check_field m required >> validate_fields m others

-- `eventMessage`
unfoldable pub message_named : String → List Message → Option Message
message_named name [] = none
message_named name (m ∷ messages) =
    let rest = message_named name messages in if str_eq m.name name then some m else rest

unfoldable pub check_event : List Message → String → Result (Unit {0})
unfolding message_named
check_event messages name = elim (message_named name messages) [
  | none ↦ err (other "produces_events references no message")
  | some m ↦
      if m.is_event
      then ok tt
      else err (other "produces_events references a message that is no event")
]

unfoldable pub check_events : List Message → List String → Result (Unit {0})
unfolding check_event
check_events messages [] = ok tt
check_events messages (name ∷ names) = check_event messages name >> check_events messages names

-- `validateProducesEvents`
unfoldable pub validate_produces_events : Message → List Message → Result (Unit {0})
unfolding check_events
validate_produces_events cmd messages = elim cmd.produces [
  | [] ↦ err (other "produces_events must list at least one event")
  | name ∷ names ↦ check_events messages (name ∷ names)
]

-- The counting loops of `validateFileStructure`.
unfoldable pub count : (Message → Bool) → List Message → ℕ
count test [] = 0
count test (m ∷ messages) = let rest = count test messages in if test m then suc rest else rest

abbrev pub aggregate : Message → Bool
aggregate m = m.is_aggregate

abbrev pub creates : Message → Bool
creates m = m.is_command && str_eq m.lifecycle "CREATION"

abbrev pub mutates : Message → Bool
mutates m = m.is_command && not (str_eq m.lifecycle "CREATION")

abbrev pub first_is_aggregate : List Message → Bool
first_is_aggregate [] = false
first_is_aggregate (m ∷ messages) = m.is_aggregate

unfoldable pub is_listed : String → List String → Bool
is_listed name [] = false
is_listed name (n ∷ names) = let rest = is_listed name names in if str_eq n name then true else rest

unfoldable pub is_mutation_event : String → List Message → Bool
unfolding is_listed
is_mutation_event name [] = false
is_mutation_event name (m ∷ messages) =
    let rest = is_mutation_event name messages in
    if mutates m then (if is_listed name m.produces then true else rest) else rest

-- The last command that creates; the loop keeps the latest one.
unfoldable pub creation_command : List Message → Option Message
creation_command [] = none
creation_command (m ∷ messages) = elim (creation_command messages) [
  | some later ↦ some later
  | none ↦ if creates m then some m else none
]

abbrev pub others_of : List String → List String
others_of [] = []
others_of (name ∷ names) = names

unfoldable pub all_mutation_events : List String → List Message → Bool
unfolding is_mutation_event
all_mutation_events [] messages = true
all_mutation_events (name ∷ names) messages =
    let rest = all_mutation_events names messages in
    if is_mutation_event name messages then rest else false

abbrev pub creation_events : Option Message → List String
creation_events none = []
creation_events (some cmd) = others_of cmd.produces

unfoldable pub has_id : List Field → Bool
has_id [] = false
has_id (f ∷ fields) = let rest = has_id fields in if str_eq f.name "id" then true else rest

unfoldable pub projections_have_id : List Message → Bool
unfolding has_id
projections_have_id [] = true
projections_have_id (m ∷ messages) =
    let rest = projections_have_id messages in
    if m.is_projection then (if has_id m.fields then rest else false) else rest

-- `validateFileStructure`
unfoldable pub validate_file_structure : List Message → Result (Unit {0})
unfolding count creation_command all_mutation_events projections_have_id
validate_file_structure messages =
    if count aggregate messages == 0
    then err (other "no aggregate message defined")
    else if ltb 1 (count aggregate messages)
    then err (other "exactly one aggregate per file")
    else if not (first_is_aggregate messages)
    then err (other "aggregate must be the first message")
    else if not (count creates messages == 1)
    then err (other "exactly one CREATION command required")
    else if not (all_mutation_events (creation_events (creation_command messages)) messages)
    then err (other "CREATION command produces an event which no MUTATION command produces")
    else if ltb 1 (count (λ m. m.is_snapshot) messages)
    then err (other "at most one snapshot per file")
    else if not (projections_have_id messages)
    then err (other "projection must have an id field")
    else ok tt
