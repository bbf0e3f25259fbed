-- ===== src/TsGenerator/Imports.antt =====
-- cmd/protoc-gen-protosource-ts: the types in the signatures of the client's methods for top-level
-- commands, and the names of its parameters.
use Prim.Native.Char.{Char}
use Prim.Native.String.{◌++◌ as ◌concat◌}
use protosource.Prelude.{
  ◌≡◌, refl, ◌∙◌, ◌⊎◌, inl, inr, String, Bool, true, false, not, ◌&&◌, ◌||◌, List, [], ◌∷◌, ◌++◌,
  ◌==◌, arith, append_assoc, str_eq, eq_iff, Bool-cases,
}
use protosource.Generator.Indexes.{was_seen}
use protosource.TsGenerator.{
  TsMessage, TsFile, all_messages, add_name, add_types, command_types, command_embedded_types,
  add_names, gsi_enum_types, client_enum_types,
}
use protosource.TsGenerator.Fields.{
  TsField, client_command_fields, is_one_of, number_types, bigint_types, ts_scalar_type, ts_type,
  reserved_words, ts_field_name, ts_param_name,
}
use protosource.TsGenerator.Indexes.{TsMapping}

abbrev pub built_ins : List String
built_ins =
    "string" ∷ "boolean" ∷ "number" ∷ "bigint" ∷ "Uint8Array" ∷ "unknown" ∷ "string[]" ∷ "boolean[]"
    ∷ "number[]" ∷ "bigint[]" ∷ "Uint8Array[]" ∷ "unknown[]" ∷ []

-- The type is TypeScript's own, or the client imports it.
abbrev pub IsImported :
    (List TsMapping → List TsMapping) → (List String → List String) → TsFile → String → Type 0
IsImported sort sort_strings file t =
    (was_seen t built_ins ≡ true)
    ⊎ ((was_seen t (command_embedded_types file) ≡ true)
        ⊎ (was_seen t (client_enum_types sort sort_strings file) ≡ true))

was_seen-append :
    (k : String) (xs ys : List String) → was_seen k (xs ++ ys) ≡ (was_seen k xs || was_seen k ys)
unfolding was_seen
was_seen-append k [] ys = refl
was_seen-append k (x ∷ xs) ys = ground (arith, was_seen-append k xs ys)

add_name-keeps :
    (k name : String) (result : List String)
    → was_seen k result ≡ true
    → was_seen k (add_name name result) ≡ true
unfolding add_name
add_name-keeps k name result h = elim (Bool-cases (was_seen name result)) [
  | inl old ↦ rw old h
  | inr new ↦ rw (new, was_seen-append k result (name ∷ []), h) refl
]

add_name-adds : (name : String) (result : List String) → was_seen name (add_name name result) ≡ true
unfolding add_name was_seen
add_name-adds name result = elim (Bool-cases (was_seen name result)) [
  | inl old ↦ rw old old
  | inr new ↦ rw (new, was_seen-append name result (name ∷ []), new, (eq_iff name name).1 refl) refl
]

module _ (test : TsField → Bool) where
  add_types-keeps :
      (k : String) (fields : List TsField) (result : List String)
      → was_seen k result ≡ true
      → was_seen k (add_types test fields result) ≡ true
  unfolding add_types
  add_types-keeps k [] result h = h
  add_types-keeps k (f ∷ fields) result h = elim (Bool-cases (test f)) [
    | inl taken ↦ rw taken (
        add_types-keeps k fields (add_name f.type_name result)
          (add_name-keeps k f.type_name result h))
    | inr passed ↦ rw passed (add_types-keeps k fields result h)
  ]

  add_types-adds :
      (f : TsField) (before after : List TsField) (result : List String)
      → test f ≡ true
      → was_seen f.type_name (add_types test (before ++ f ∷ after) result) ≡ true
  unfolding add_types
  add_types-adds f [] after result h =
      let step : add_types test (f ∷ after) result
          ≡ add_types test after (add_name f.type_name result) =
        rw (h, add_types) refl in
      rw step (
        add_types-keeps f.type_name after (add_name f.type_name result)
          (add_name-adds f.type_name result))
  add_types-adds f (g ∷ before) after result h = add_types-adds f before after _ h

  command_types-keeps :
      (k : String) (messages : List TsMessage) (result : List String)
      → was_seen k result ≡ true
      → was_seen k (command_types test messages result) ≡ true
  unfolding command_types
  command_types-keeps k [] result h = h
  command_types-keeps k (m ∷ messages) result h = elim (Bool-cases m.is_command) [
    | inl taken ↦ rw taken (
        command_types-keeps k messages _
          (add_types-keeps k (client_command_fields m.fields) result h))
    | inr passed ↦ rw passed (command_types-keeps k messages result h)
  ]

  command_types-adds :
      (m : TsMessage) (others more : List TsMessage) (f : TsField) (before after : List TsField)
      (result : List String)
      → m.is_command ≡ true
      → client_command_fields m.fields ≡ before ++ f ∷ after
      → test f ≡ true
      → was_seen f.type_name (command_types test (others ++ m ∷ more) result) ≡ true
  unfolding command_types
  command_types-adds m [] more f before after result command fields h =
      rw (command, fields)
        (command_types-keeps f.type_name more _ (add_types-adds f before after result h))
  command_types-adds m (n ∷ others) more f before after result command fields h =
      command_types-adds m others more f before after _ command fields h

add_names-keeps :
    (k : String) (names result : List String)
    → was_seen k result ≡ true
    → was_seen k (add_names names result) ≡ true
unfolding add_names
add_names-keeps k [] result h = h
add_names-keeps k (name ∷ names) result h =
    add_names-keeps k names (add_name name result) (add_name-keeps k name result h)

scalar-IsBuiltIn :
    (f : TsField)
    → (was_seen (ts_scalar_type f) built_ins ≡ true)
      × (was_seen (ts_scalar_type f concat "[]") built_ins ≡ true)
unfolding ts_scalar_type was_seen
scalar-IsBuiltIn f = elim (Bool-cases (f.ptype == 9)) [
  | inl text ↦ rw text (refl, refl)
  | inr n9 ↦ elim (Bool-cases (f.ptype == 8)) [
    | inl bool ↦ rw (n9, bool) (refl, refl)
    | inr n8 ↦ elim (Bool-cases (is_one_of f.ptype number_types)) [
      | inl number ↦ rw (n9, n8, number) (refl, refl)
      | inr nn ↦ elim (Bool-cases (is_one_of f.ptype bigint_types)) [
        | inl bigint ↦ rw (n9, n8, nn, bigint) (refl, refl)
        | inr nb ↦ elim (Bool-cases (f.ptype == 12)) [
          | inl bytes ↦ rw (n9, n8, nn, nb, bytes) (refl, refl)
          | inr n12 ↦ rw (n9, n8, nn, nb, n12) (refl, refl)
        ]
      ]
    ]
  ]
]

ts_type-cases :
    (f : TsField)
    → (was_seen (ts_type f) built_ins ≡ true)
      ⊎ (((f.is_embed ≡ true) × (ts_type f ≡ f.type_name))
          ⊎ ((f.is_enum ≡ true) × (ts_type f ≡ f.type_name)))
unfolding ts_type was_seen
ts_type-cases f = elim (Bool-cases f.is_map) [
  | inl is_map ↦ rw is_map (inl refl)
  | inr not_map ↦ elim (Bool-cases f.is_repeated) [
    | inl repeated ↦ rw (not_map, repeated) (inl (scalar-IsBuiltIn f).1)
    | inr single ↦ elim (Bool-cases f.is_embed) [
      | inl embed ↦ rw (not_map, single, embed) (inr (inl (refl, refl)))
      | inr not_embed ↦ elim (Bool-cases f.is_enum) [
        | inl enum ↦ rw (not_map, single, not_embed, enum) (inr (inr (refl, refl)))
        | inr scalar ↦ rw (not_map, single, not_embed, scalar) (inl (scalar-IsBuiltIn f).0)
      ]
    ]
  ]
]

-- A type in the signature of a command's method, for a command that is no nested message: it is
-- TypeScript's own, or the client imports it. `sort.Strings` is taken to keep the names.
pub ts_type-IsImported :
    (sort : List TsMapping → List TsMapping) (sort_strings : List String → List String)
    (file : TsFile) (m : TsMessage) (others more : List TsMessage) (f : TsField)
    (before after : List TsField)
    → ((k : String) (names : List String) → was_seen k (sort_strings names) ≡ was_seen k names)
    → file.messages ≡ others ++ m ∷ more
    → m.is_command ≡ true
    → client_command_fields m.fields ≡ before ++ f ∷ after
    → IsImported sort sort_strings file (ts_type f)
unfolding command_embedded_types client_enum_types
ts_type-IsImported sort sort_strings file m others more f before after keeps messages command
      fields =
    elim (ts_type-cases f) [
      | inl own ↦ inl own
      | inr (inl (embed, e)) ↦
          rw (e, messages)
            (inr (
              inl (
                command_types-adds (λ field. field.is_embed) m others more f before after [] command
                  fields embed)))
      | inr (inr (enum, e)) ↦
          let listed : was_seen f.type_name
                (command_types (λ field. field.is_enum) (all_messages file) [])
              ≡ true =
            rw (messages, append_assoc others (m ∷ more) file.nested)
              (command_types-adds (λ field. field.is_enum) m others (more ++ file.nested) f before
                after [] command fields enum) in
          rw e (
            inr (
              inr (
                keeps f.type_name _
                ∙ add_names-keeps f.type_name (gsi_enum_types sort sort_strings file) _ listed)))
    ]

abbrev is_unreserved_with_suffix : List String → Bool
is_unreserved_with_suffix [] = true
is_unreserved_with_suffix (w ∷ ws) =
    not (was_seen (w concat "_") reserved_words) && is_unreserved_with_suffix ws

neither_of : (b c : Bool) → (not b && c) ≡ true → (b ≡ false) × (c ≡ true)
neither_of true c h = cc
neither_of false c h = (refl, h)

suffix-is_unreserved :
    (name : String) (ws : List String)
    → is_unreserved_with_suffix ws ≡ true
    → was_seen name ws ≡ true
    → was_seen (name concat "_") reserved_words ≡ false
unfolding was_seen
suffix-is_unreserved name [] checked h = cc
suffix-is_unreserved name (w ∷ ws) checked h = elim (Bool-cases (str_eq w name)) [
  | inl same ↦ rw (← (eq_iff w name).0 same) (neither_of _ _ checked).0
  | inr other ↦ suffix-is_unreserved name ws (neither_of _ _ checked).1 (rw other at h)
]

reserved_words-suffix : is_unreserved_with_suffix reserved_words ≡ true
unfolding was_seen
reserved_words-suffix = refl

-- The name of a parameter is no reserved word of the list.
ts_param_name-is_unreserved :
    (upper : Char → Char) (f : TsField) → was_seen (ts_param_name upper f) reserved_words ≡ false
unfolding ts_param_name
ts_param_name-is_unreserved upper f =
    let name = ts_field_name upper f in
    elim (Bool-cases (was_seen name reserved_words)) [
      | inl reserved ↦
          rw reserved (suffix-is_unreserved name reserved_words reserved_words-suffix reserved)
      | inr free ↦ rw free free
    ]
