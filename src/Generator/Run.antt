-- ===== src/Generator/Run.antt =====
-- cmd/protoc-gen-protosource: `generate` and `Execute`, with the paths of the files that they write.
-- What pgs computes of a file, its paths and the parameters, is given.
pub mod Sound
use Prim.Native.String.{[] as no_text, ◌∷◌ as ◌then◌, ◌++◌ as ◌concat◌}
use protosource.Prelude.{
  ℕ, String, Bool, true, false, ◌||◌, Option, none, some, List, [], ◌∷◌, ◌++◌, map, str_eq,
  if◌then◌else◌,
}
use protosource.Prelude.Dict.{Dict}
use protosource.Error.{Result, ok, err, ◌>>=◌, ◌>>◌}
use protosource.Generator.{
  Message, command_fields, event_fields, validate_fields, validate_produces_events,
  validate_file_structure,
}
use protosource.Generator.Indexes.{FieldMapping}
use protosource.Generator.Descriptor.{ProtoMessage}
use protosource.Generator.Collections.{validate_collection_mapping}
use protosource.Generator.Embeds.{validate_singular_embed, validate_aggregate_list}
use protosource.Generator.Projections.{validate_projection_fields}
use protosource.Generator.Enums.{
  ProtoEnum, build_enum_value_index, validate_allowed_states, validate_sets_state, strip_prefix,
  trim_prefix,
}
use protosource.Generator.OpaqueKeys.{
  AnnotatedField, has_opaque_annotations, validate_opaque_annotations, validate_message_names,
}

-- A file: whether its option enables the generator, its messages with the annotations of their fields,
-- all messages with the nested ones, and its enums.
pub record ProtoFile : Type 0 where
  pub enabled : Bool
  pub messages : List ProtoMessage
  pub annotations : ProtoMessage → List AnnotatedField
  pub all_messages : List ProtoMessage
  pub enums : List ProtoEnum
  -- `ImportPath`, `InputPath().Base()` and `OutputPath`, and the directory of the last.
  pub import_path : String
  pub base : String
  pub output_path : String
  pub output_dir : String

-- What comes before the suffix, where the text has it.
unfoldable pub strip_suffix : String → String → Option String
strip_suffix suffix no_text = if str_eq suffix no_text then some no_text else none
strip_suffix suffix (◌then◌ c s) =
    let rest = strip_suffix suffix s in
    if str_eq suffix (◌then◌ c s)
    then some no_text
    else elim rest [ none ↦ none | some front ↦ some (◌then◌ c front) ]

-- `strings.TrimSuffix`
unfoldable pub trim_suffix : String → String → String
unfolding strip_suffix
trim_suffix s suffix = elim (strip_suffix suffix s) [ none ↦ s | some front ↦ front ]

-- The path of a package under the module, without the slash in front.
unfoldable pub relative : String → String → String
unfolding trim_prefix
relative import_path mod' = trim_prefix (trim_prefix import_path mod') "/"

-- `aggregateForFile`
unfoldable pub aggregate_for_file : List ProtoMessage → Option ProtoMessage
aggregate_for_file [] = none
aggregate_for_file (m ∷ messages) =
    let rest = aggregate_for_file messages in if m.base.is_aggregate then some m else rest

-- `filepath.Join` with a directory that `filepath.Dir` gives.
abbrev join_path : String → String → String
join_path dir path =
    if str_eq dir "."
    then path
    else if str_eq dir "/"
    then "/" concat path
    else dir concat ("/" concat path)

module _ (lower : String → String) (mod' : String) where
  abbrev name_of : Option ProtoMessage → String
  name_of none = ""
  name_of (some m) = lower m.base.name

  -- `cliOutputPath`
  unfoldable pub cli_output_path : ProtoFile → String
  unfolding aggregate_for_file relative
  cli_output_path f =
      let name = name_of (aggregate_for_file f.messages) in
      let dir = (if str_eq name "" then "cli" else name) concat "mgr" in
      if str_eq mod' ""
      then join_path f.output_dir (dir concat "/main.go")
      else relative f.import_path mod' concat ("/" concat (dir concat "/main.go"))

  abbrev pub suffix_of : String → String
  suffix_of template =
      if str_eq template "protosource.gotext"
      then ".protosource.pb.go"
      else ".protosource." concat (trim_suffix template ".gotext" concat ".pb.go")

  -- `outputPathForTemplate`
  unfoldable pub output_path_for_template : ProtoFile → String → String
  unfolding cli_output_path trim_suffix relative
  output_path_for_template f template =
      if str_eq template "cli.gotext"
      then cli_output_path f
      else if str_eq mod' ""
      then trim_suffix f.output_path ".pb.go" concat suffix_of template
      else relative f.import_path mod'
        concat ("/" concat (trim_suffix f.base ".proto" concat suffix_of template))

unfoldable pub check_command_message : Dict String → List Message → ProtoMessage → Result (Unit {0})
check_command_message index messages m = do
  validate_fields m.base command_fields
  validate_produces_events m.base messages
  validate_allowed_states index m.allowed_states

unfoldable pub check_with_aggregate :
    List ProtoMessage → Option ProtoMessage → ProtoMessage → Result (Unit {0})
check_with_aggregate all none m = ok tt
check_with_aggregate all (some agg) m =
    validate_collection_mapping m agg all >> validate_singular_embed m agg

unfoldable pub check_event_message :
    Dict String → List ProtoMessage → Option ProtoMessage → ProtoMessage → Result (Unit {0})
check_event_message index all agg m = do
  validate_fields m.base event_fields
  validate_sets_state index m.sets_state
  check_with_aggregate all agg m

abbrev pub when : Bool → Result (Unit {0}) → Result (Unit {0})
when true check = check
when false check = ok tt

-- The first loop over the messages.
unfoldable pub check_messages :
    Dict String
    → List Message
    → List ProtoMessage
    → Option ProtoMessage
    → List ProtoMessage
    → Result (Unit {0})
check_messages index bases all agg [] = ok tt
check_messages index bases all agg (m ∷ messages) = do
  when m.base.is_command (check_command_message index bases m)
  when m.base.is_event (check_event_message index all agg m)
  check_messages index bases all agg messages

unfoldable pub check_projections : ProtoMessage → List ProtoMessage → Result (Unit {0})
check_projections agg [] = ok tt
check_projections agg (m ∷ messages) = do
  when m.base.is_projection (validate_projection_fields m agg)
  check_projections agg messages

unfoldable pub check_aggregate : List ProtoMessage → Option ProtoMessage → Result (Unit {0})
check_aggregate messages none = ok tt
check_aggregate messages (some agg) =
    check_projections agg messages >> validate_aggregate_list messages agg

abbrev pub has_opaque : (ProtoMessage → List AnnotatedField) → List ProtoMessage → Bool
has_opaque annotations [] = false
has_opaque annotations (m ∷ messages) =
    has_opaque_annotations m.base (annotations m) || has_opaque annotations messages

module _ (sort : List FieldMapping → List FieldMapping) (reserved : List String) where
  -- The second loop over the messages.
  unfoldable pub check_opaque :
      (ProtoMessage → List AnnotatedField) → List ProtoMessage → Result (Unit {0})
  check_opaque annotations [] = ok tt
  check_opaque annotations (m ∷ messages) = do
    when (has_opaque_annotations m.base (annotations m))
        (validate_opaque_annotations sort m.base (annotations m))
    check_opaque annotations messages

  -- The checks of `generate`, in their order.
  unfoldable pub check_file : ProtoFile → Result (Unit {0})
  check_file f = do
    let bases = map (λ m. m.base) f.messages
    let agg = aggregate_for_file f.messages
    validate_file_structure bases
    check_messages (build_enum_value_index f.enums) bases f.all_messages agg f.messages
    check_opaque f.annotations f.messages
    check_aggregate f.messages agg
    when (has_opaque f.annotations f.messages) (validate_message_names reserved bases)

  -- `generate`: the paths of the files that it writes; a file that is not enabled is passed over.
  unfoldable pub generate :
      (ProtoFile → String → String) → List String → ProtoFile → Result (List String)
  generate path_of templates f = elim f.messages [
    | [] ↦ ok []
    | m ∷ messages ↦
        if f.enabled then (check_file f >>= λ checked. ok (map (path_of f) templates)) else ok []
  ]

  -- `Execute`; a failure ends the program.
  unfoldable pub execute_targets :
      (ProtoFile → String → String) → List String → List ProtoFile → Result (List String)
  unfolding generate
  execute_targets path_of templates [] = ok []
  execute_targets path_of templates (f ∷ files) = do
    paths ← generate path_of templates f
    others ← execute_targets path_of templates files
    ok (paths ++ others)
