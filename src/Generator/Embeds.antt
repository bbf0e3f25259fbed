-- ===== src/Generator/Embeds.antt =====
-- cmd/protoc-gen-protosource: `validateSingularEmbed` and `validateAggregateList`.
pub mod Copied
use Prim.Native.String.{◌++◌ as ◌concat◌}
use protosource.Prelude.{
  ◌≡◌, ◌↔◌, ◌⊎◌, refl, inl, inr, String, Bool, true, false, not, ◌&&◌, ◌||◌, Option, none, some,
  List, [], ◌∷◌, ◌==◌, length, str_eq, eq_iff, arith, if◌then◌else◌, is_some, Bool-cases, All,
}
use protosource.Error.{Result, ok, err, ◌>>=◌, ◌>>◌, other}
use protosource.Generator.Descriptor.{ProtoField, ProtoMessage, guard}

-- `isSingularEmbedField`
abbrev pub is_singular_embed : ProtoField → Bool
is_singular_embed f = f.is_embed && not f.is_map && not f.is_repeated

-- The maps aggEmbedNames and aggByFQN: whether they have an entry.
unfoldable pub has_embed_named : String → List ProtoField → Bool
has_embed_named name [] = false
has_embed_named name (f ∷ fields) =
    let rest = has_embed_named name fields in
    if is_singular_embed f && str_eq f.name name then true else rest

unfoldable pub has_embed_of : String → List ProtoField → Bool
has_embed_of fqn [] = false
has_embed_of fqn (f ∷ fields) =
    let rest = has_embed_of fqn fields in
    if is_singular_embed f && str_eq f.fqn fqn then true else rest

-- The loop over the fields of the event.
unfoldable pub check_embeds : List ProtoField → List ProtoField → Result (Unit {0})
unfolding has_embed_named has_embed_of
check_embeds agg_fields [] = ok tt
check_embeds agg_fields (f ∷ fields) =
    let rest = check_embeds agg_fields fields in
    if not (is_singular_embed f) || has_embed_named f.name agg_fields
    then rest
    else if has_embed_of f.fqn agg_fields
    then err (other "embedded field will not be applied to aggregate")
    else rest

-- `validateSingularEmbed`
unfoldable pub validate_singular_embed : ProtoMessage → ProtoMessage → Result (Unit {0})
unfolding check_embeds
validate_singular_embed evt agg = elim evt.collection [
  | some cm ↦ ok tt
  | none ↦ check_embeds agg.fields evt.fields
]

-- The loop of `validateAggregateList` over the messages.
unfoldable pub message_by_name : String → List ProtoMessage → Option ProtoMessage
message_by_name name [] = none
message_by_name name (m ∷ messages) =
    let rest = message_by_name name messages in if str_eq m.base.name name then some m else rest

unfoldable pub check_items : ProtoMessage → List ProtoField → Result (Unit {0})
check_items agg fields = elim fields [
  | f ∷ [] ↦ do
    guard (str_eq f.name "items") "the field of the list must be named items"
    guard f.is_repeated "items must be repeated"
    guard (f.number == 1) "items must be field number 1"
    guard f.element.is_embed "items must be a message type"
    guard (str_eq f.element.fqn agg.fqn) "items must be of the aggregate"
  | _ ↦ err (other "the list must have exactly 1 field")
]

-- `validateAggregateList`
unfoldable pub validate_aggregate_list : List ProtoMessage → ProtoMessage → Result (Unit {0})
unfolding message_by_name check_items
validate_aggregate_list messages agg =
    elim (message_by_name (agg.base.name concat "List") messages) [
      | none ↦ err (other "missing required list message")
      | some m ↦ check_items agg m.fields
    ]
