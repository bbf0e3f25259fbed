-- ===== src/Generator/Run/Sound.antt =====
-- cmd/protoc-gen-protosource: what holds of a file for which the generator writes code.
use protosource.Prelude.{ℕ, ◌≡◌, true, Option, none, some, List, map, All}
use protosource.Prelude.Dict.{Dict}
use protosource.Generator.Indexes.{FieldMapping}
use protosource.Generator.Descriptor.{ProtoMessage, CollectionMapping}
use protosource.Generator.Collections.Lookups.{IsResolved}
use protosource.Generator.Projections.{IsAssignable, projection_matching_fields}
use protosource.Generator.OpaqueKeys.{AnnotatedField, has_opaque_annotations, opaque_key_mappings}
use protosource.Generator.Run.{ProtoFile, aggregate_for_file}

-- The lookups of the templates for an event find what they look for.
abbrev pub EventIsResolved : Option ProtoMessage → ProtoMessage → Type 0
EventIsResolved none m = Unit
EventIsResolved (some agg) m =
    m.base.is_event ≡ true → (cm : CollectionMapping) → m.collection ≡ some cm → IsResolved m agg cm

-- The generated Project copies every field, each from one with its name and type.
abbrev pub ProjectionIsCopied : Option ProtoMessage → ProtoMessage → Type 0
ProjectionIsCopied none m = Unit
ProjectionIsCopied (some agg) m =
    m.base.is_projection ≡ true
    → (map (λ pair. pair.0) (projection_matching_fields agg.fields m.fields) ≡ m.fields)
      × All (λ pair. IsAssignable pair.0 pair.1) (projection_matching_fields agg.fields m.fields)

-- The fields of every key stand in one order, whatever the sort does with equal elements.
abbrev pub KeysAreFixed :
    (List FieldMapping → List FieldMapping)
    → (List FieldMapping → List FieldMapping)
    → (ProtoMessage → List AnnotatedField)
    → ProtoMessage
    → Type 0
KeysAreFixed sort sort' annotations m =
    has_opaque_annotations m.base (annotations m) ≡ true
    → (kt : ℕ)
    → opaque_key_mappings sort (annotations m) kt ≡ opaque_key_mappings sort' (annotations m) kt

pub record IsSound (sort sort' : List FieldMapping → List FieldMapping) (f : ProtoFile)
    : Type 0 where
  pub events : All (EventIsResolved (aggregate_for_file f.messages)) f.messages
  pub copies : All (ProjectionIsCopied (aggregate_for_file f.messages)) f.messages
  pub keys : All (KeysAreFixed sort sort' f.annotations) f.messages
