-- ===== src/Generator/Embeds/Copied.antt =====
-- cmd/protoc-gen-protosource: which events `validateSingularEmbed` accepts.
use protosource.Prelude.{
  ◌≡◌, ◌↔◌, ◌⊎◌, refl, inl, inr, String, Bool, true, not, ◌&&◌, ◌||◌, none, List, [], ◌∷◌, str_eq,
  eq_iff, arith, Bool-cases, All,
}
use protosource.Error.{ok}
use protosource.Generator.Descriptor.{ProtoField, ProtoMessage}
use protosource.Generator.Embeds.{
  is_singular_embed, has_embed_named, has_embed_of, check_embeds, validate_singular_embed,
}

-- A field of the list that the predicate holds of.
abbrev pub Any : (ProtoField → Type 0) → List ProtoField → Type 0
Any P [] = ⊥
Any P (f ∷ fields) = P f ⊎ Any P fields

abbrev pub IsEmbedNamed : String → ProtoField → Type 0
IsEmbedNamed name f = (is_singular_embed f ≡ true) × (f.name ≡ name)

abbrev pub IsEmbedOf : String → ProtoField → Type 0
IsEmbedOf fqn f = (is_singular_embed f ≡ true) × (f.fqn ≡ fqn)

-- A singular message of the event whose type the aggregate has too has the name of a singular message
-- of the aggregate, so that the copy by name applies it.
abbrev pub IsCopied : List ProtoField → ProtoField → Type 0
IsCopied agg_fields f =
    is_singular_embed f ≡ true
    → Any (IsEmbedOf f.fqn) agg_fields
    → Any (IsEmbedNamed f.name) agg_fields

has_embed_named_iff :
    (name : String) (fields : List ProtoField)
    → (has_embed_named name fields ≡ true) ↔ Any (IsEmbedNamed name) fields
unfolding has_embed_named
has_embed_named_iff name [] = (λ h. cc, λ h. elim h [ ])
has_embed_named_iff name (f ∷ fields) =
    elim (Bool-cases (is_singular_embed f && str_eq f.name name)) [
      | inl here ↦
          (λ h. inl (ground arith, (eq_iff f.name name).0 (ground arith)), λ h. rw here refl)
      | inr later ↦ rw later (
        λ h. inr ((has_embed_named_iff name fields).0 h),
        λ h. elim h [
          | inl this ↦ ground (arith, this, eq_iff f.name name)
          | inr rest ↦ (has_embed_named_iff name fields).1 rest
        ],
      )
    ]

has_embed_of_iff :
    (fqn : String) (fields : List ProtoField)
    → (has_embed_of fqn fields ≡ true) ↔ Any (IsEmbedOf fqn) fields
unfolding has_embed_of
has_embed_of_iff fqn [] = (λ h. cc, λ h. elim h [ ])
has_embed_of_iff fqn (f ∷ fields) = elim (Bool-cases (is_singular_embed f && str_eq f.fqn fqn)) [
  | inl here ↦ (λ h. inl (ground arith, (eq_iff f.fqn fqn).0 (ground arith)), λ h. rw here refl)
  | inr later ↦ rw later (
    λ h. inr ((has_embed_of_iff fqn fields).0 h),
    λ h. elim h [
      | inl this ↦ ground (arith, this, eq_iff f.fqn fqn)
      | inr rest ↦ (has_embed_of_iff fqn fields).1 rest
    ],
  )
]

-- One round of the loop.
unfoldable round : List ProtoField → ProtoField → Bool
round agg_fields f =
    not (is_singular_embed f)
    || has_embed_named f.name agg_fields
    || not (has_embed_of f.fqn agg_fields)

round_iff :
    (agg_fields : List ProtoField) (f : ProtoField)
    → (round agg_fields f ≡ true) ↔ IsCopied agg_fields f
unfolding round
round_iff agg_fields f = (sound, complete)
  where
    sound : round agg_fields f ≡ true → IsCopied agg_fields f
    sound h singular typed =
        let there = (has_embed_of_iff f.fqn agg_fields).1 typed in
        (has_embed_named_iff f.name agg_fields).0 (ground arith)

    complete : IsCopied agg_fields f → round agg_fields f ≡ true
    complete copied = elim (Bool-cases (is_singular_embed f)) [
      | inr apart ↦ ground arith
      | inl singular ↦ elim (Bool-cases (has_embed_of f.fqn agg_fields)) [
        | inr free ↦ ground arith
        | inl typed ↦
            let named =
              (has_embed_named_iff f.name agg_fields).1
                (copied singular ((has_embed_of_iff f.fqn agg_fields).0 typed)) in
            ground arith
      ]
    ]

check_embeds_iff :
    (agg_fields fields : List ProtoField)
    → (check_embeds agg_fields fields ≡ ok tt) ↔ All (IsCopied agg_fields) fields
unfolding check_embeds round
check_embeds_iff agg_fields [] = (λ h. tt, λ h. refl)
check_embeds_iff agg_fields (f ∷ fields) = elim (Bool-cases (round agg_fields f)) [
  | inl good ↦ (
    λ h. ((round_iff agg_fields f).0 good, (check_embeds_iff agg_fields fields).0 (ground arith)),
    λ h. (let rest = (check_embeds_iff agg_fields fields).1 h.1 in ground arith),
  )
  | inr bad ↦
      (λ h. absurd (ground arith), λ h. absurd (let good = (round_iff agg_fields f).1 h.0 in cc))
]

-- `validateSingularEmbed` accepts an event without a collection exactly when each of its singular
-- messages whose type the aggregate has is copied by name.
pub validate_singular_embed_iff :
    (evt agg : ProtoMessage)
    → evt.collection ≡ none
    → (validate_singular_embed evt agg ≡ ok tt) ↔ All (IsCopied agg.fields) evt.fields
unfolding validate_singular_embed
validate_singular_embed_iff evt agg plain = rw plain (check_embeds_iff agg.fields evt.fields)
