-- ===== src/TsGenerator.antt =====
-- cmd/protoc-gen-protosource-ts: the names and types that the TypeScript client's template asks for.
-- A file, a message and a field hold what the methods of pgs and the options say of them.
pub mod Fields
pub mod Indexes
pub mod Routes
pub mod Imports
use Prim.Native.String.{◌++◌ as ◌concat◌}
use protosource.Prelude.{
  ℕ, String, Bool, true, false, ◌||◌, Option, none, some, List, [], ◌∷◌, ◌++◌, str_eq,
  if◌then◌else◌,
}
use protosource.Generator.Indexes.{was_seen}
use protosource.TsGenerator.Fields.{TsField, client_command_fields}
use protosource.TsGenerator.Indexes.{TsMapping, TsGsi, key_mappings, opaque_used_gsis}

-- `messageOptions`, by what it is asked for.
pub record TsMessage : Type 0 where
  pub name : String
  pub is_aggregate : Bool
  pub is_command : Bool
  pub is_projection : Bool
  pub fields : List TsField

-- `Messages()`, and those that are nested in them; `AllMessages()` has both.
pub record TsFile : Type 0 where
  pub base : String
  pub package_name : String
  pub messages : List TsMessage
  pub nested : List TsMessage

abbrev pub all_messages : TsFile → List TsMessage
all_messages f = f.messages ++ f.nested

unfoldable pub first_aggregate : List TsMessage → Option TsMessage
first_aggregate [] = none
first_aggregate (m ∷ messages) =
    let rest = first_aggregate messages in if m.is_aggregate then some m else rest

-- `aggregateForFile`
unfoldable pub aggregate_for_file : TsFile → Option TsMessage
unfolding first_aggregate
aggregate_for_file f = first_aggregate f.messages

-- `add` of `clientEnumTypes`, the `seen` of the other loops with what they append.
unfoldable pub add_name : String → List String → List String
unfolding was_seen
add_name name result = if was_seen name result then result else result ++ name ∷ []

-- The inner loops over fields, with the test that they make of a field's type.
unfoldable pub add_types : (TsField → Bool) → List TsField → List String → List String
unfolding add_name
add_types test [] result = result
add_types test (f ∷ fields) result =
    add_types test fields (if test f then add_name f.type_name result else result)

-- The loops over the commands of a file.
unfoldable pub command_types : (TsField → Bool) → List TsMessage → List String → List String
unfolding add_types client_command_fields
command_types test [] result = result
command_types test (m ∷ messages) result =
    command_types test messages
      (if m.is_command then add_types test (client_command_fields m.fields) result else result)

-- `commandEmbeddedTypes`
unfoldable pub command_embedded_types : TsFile → List String
unfolding command_types
command_embedded_types f = command_types (λ field. field.is_embed) f.messages []

abbrev pub fields_of : List TsMapping → List TsField
fields_of [] = []
fields_of (mapping ∷ mappings) = mapping.field ∷ fields_of mappings

unfoldable pub gsi_enums : List TsGsi → List String → List String
unfolding add_types
gsi_enums [] result = result
gsi_enums (g ∷ gsis) result =
    let is_enum = λ (field : TsField). field.is_enum in
    gsi_enums gsis
      (add_types is_enum (fields_of g.sk_fields) (add_types is_enum (fields_of g.pk_fields) result))

unfoldable pub add_names : List String → List String → List String
unfolding add_name
add_names [] result = result
add_names (name ∷ names) result = add_names names (add_name name result)

unfoldable pub id_mapping : List TsField → List TsMapping
id_mapping [] = []
id_mapping (f ∷ fields) =
    let rest = id_mapping fields in
    if str_eq f.name "id" then record { field = f; order = 1 } ∷ [] else rest

-- `opaquePKFields`
unfoldable pub opaque_pk_fields : (List TsMapping → List TsMapping) → TsMessage → List TsMapping
unfolding id_mapping key_mappings
opaque_pk_fields sort m =
    if m.is_aggregate || m.is_projection then id_mapping m.fields else key_mappings sort m.fields 1

-- `sort` is `sort.Slice` by the order of a mapping, `sort_strings` is `sort.Strings`.
module _ (sort : List TsMapping → List TsMapping) (sort_strings : List String → List String) where
  -- `gsiEnumTypes`
  unfoldable pub gsi_enum_types : TsFile → List String
  unfolding aggregate_for_file gsi_enums
  gsi_enum_types f = elim (aggregate_for_file f) [
    | none ↦ []
    | some m ↦ gsi_enums (opaque_used_gsis (key_mappings sort m.fields)) []
  ]

  -- `clientEnumTypes`
  unfoldable pub client_enum_types : TsFile → List String
  unfolding command_types gsi_enum_types add_names
  client_enum_types f =
      sort_strings
        (add_names (gsi_enum_types f) (command_types (λ field. field.is_enum) (all_messages f) []))

-- `protoFileNameFromBase`; `stem` is `strings.TrimSuffix(s, ".proto")`.
unfoldable pub proto_file_name : (String → String) → TsFile → String
proto_file_name stem f = "./" concat (stem f.base concat "_pb.js")

-- `routePrefix`; `slashed` is `strings.ReplaceAll(s, ".", "/")`.
unfoldable pub route_prefix : (String → String) → TsFile → String
route_prefix slashed f = slashed f.package_name

-- `outputPath`, by the name of the template.
unfoldable pub output_path : (String → String) → (String → String) → TsFile → String → String
output_path stem slashed f tpl =
    let suffix =
      if str_eq tpl "enums.tstext" then ".protosource.enums.ts" else ".protosource.client.ts" in
    let base = stem f.base concat suffix in
    if str_eq f.package_name "" then base else slashed f.package_name concat ("/" concat base)
