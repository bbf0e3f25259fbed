-- ===== src/Tests/TsClient.antt =====
-- The TypeScript client of a file with one command that has an address and a status, and an aggregate
-- with two indexes.
use protosource.Prelude.{ℕ, ◌≡◌, refl, String, true, false, [], ◌∷◌, map}
use protosource.Generator.Indexes.{was_seen, used_gsis, gsi_query_route_path}
use protosource.Generator.OpaqueKeys.{opaque_key_mappings}
use protosource.TsGenerator.{TsMessage, TsFile, command_embedded_types}
use protosource.TsGenerator.Fields.{TsField, client_command_fields, ts_type}
use protosource.TsGenerator.Indexes.{
  key_mappings, opaque_used_gsis, fields_key, ts_gsi_query_route_path,
}
use protosource.TsGenerator.Routes.{annotated, same_gsi, opaque_used_gsis-routes}
use protosource.TsGenerator.Imports.{IsImported, ts_type-IsImported}

abbrev plain : String → ℕ → TsField
plain name ptype = record {
  name = name;
  go_name = name;
  ptype = ptype;
  is_map = false;
  is_repeated = false;
  is_embed = false;
  is_enum = false;
  type_name = "";
  attributes = [];
}

abbrev id : TsField
id = plain "id" 9

abbrev address : TsField
address = record (plain "address" 11) { is_embed = true; type_name = "Address" }

abbrev status : TsField
status = record (plain "status" 14) {
  is_enum = true;
  type_name = "Status";
  attributes = (3, 1) ∷ (5, 1) ∷ [];
}

abbrev created : TsField
created = record (plain "created" 3) { attributes = (6, 1) ∷ [] }

abbrev place : TsMessage
place = record {
  name = "Place";
  is_aggregate = false;
  is_command = true;
  is_projection = false;
  fields = id ∷ address ∷ status ∷ [];
}

abbrev shop : TsFile
shop = record {
  base = "shop_v1.proto";
  package_name = "shop.v1";
  messages = place ∷ [];
  nested = [];
}

-- Two indexes with the same partition key: the second has a route of its own.
opaque_used_gsis-routes_example :
    (map same_gsi (opaque_used_gsis (key_mappings (λ ms. ms) (status ∷ created ∷ [])))
      ≡ used_gsis (opaque_key_mappings (λ ms. ms) (map annotated (status ∷ created ∷ []))))
    × (map
          (ts_gsi_query_route_path (λ s. s))
          (opaque_used_gsis (key_mappings (λ ms. ms) (status ∷ created ∷ [])))
        ≡ map
            (gsi_query_route_path (λ s. s))
            (used_gsis (opaque_key_mappings (λ ms. ms) (map annotated (status ∷ created ∷ [])))))
opaque_used_gsis-routes_example =
    opaque_used_gsis-routes (λ s. s) (λ ms. ms) (λ ms. ms) (status ∷ created ∷ []) (λ ms. refl)

routes :
    map
      (ts_gsi_query_route_path (λ s. s))
      (opaque_used_gsis (key_mappings (λ ms. ms) (status ∷ created ∷ [])))
    ≡ "by-status" ∷ "by-status-with-created" ∷ []
unfolding opaque_used_gsis key_mappings ts_gsi_query_route_path fields_key
routes = refl

ts_type-IsImported_example : IsImported (λ ms. ms) (λ names. names) shop (ts_type address)
unfolding client_command_fields
ts_type-IsImported_example =
    ts_type-IsImported (λ ms. ms) (λ names. names) shop place [] [] address [] (status ∷ [])
      (λ k names. refl) refl refl refl

-- The message types of the fields of a nested command are not imported.
abbrev nested_command : TsFile
nested_command = record shop { messages = []; nested = place ∷ [] }

nested_not_imported : was_seen "Address" (command_embedded_types nested_command) ≡ false
unfolding command_embedded_types
nested_not_imported = refl
