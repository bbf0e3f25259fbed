-- ===== src/Tests/Structure.antt =====
-- A file with an aggregate, two commands, their events and a projection.
use protosource.Prelude.{String, true, false, ◌≡◌, ◌↔◌, refl, List, [], ◌∷◌}
use protosource.Error.{ok}
use protosource.Generator.{
  Message, validate_file_structure, validate_fields, event_fields, check_field, field_named,
}
use protosource.Generator.Structure.{IsStructured, validate_file_structure_iff}

abbrev plain : String → Message
plain name = record {
  name = name;
  is_aggregate = false;
  is_command = false;
  is_event = false;
  is_projection = false;
  is_snapshot = false;
  lifecycle = "UNSPECIFIED";
  produces = [];
  fields = event_fields;
}

abbrev order_file : List Message
order_file =
    record (plain "Order") { is_aggregate = true }
    ∷ record (plain "Create") {
      is_command = true;
      lifecycle = "CREATION";
      produces = "Created" ∷ "Renamed" ∷ [];
    }
    ∷ record (plain "Rename") {
      is_command = true;
      lifecycle = "MUTATION";
      produces = "Renamed" ∷ [];
    }
    ∷ record (plain "Created") { is_event = true }
    ∷ record (plain "Renamed") { is_event = true }
    ∷ record (plain "Summary") { is_projection = true }
    ∷ []

events_have_fields : validate_fields (plain "Created") event_fields ≡ ok tt
unfolding validate_fields check_field field_named
events_have_fields = refl

validate_file_structure_iff_example :
    (validate_file_structure order_file ≡ ok tt) ↔ IsStructured order_file
validate_file_structure_iff_example = validate_file_structure_iff order_file

order_file_accepted : validate_file_structure order_file ≡ ok tt
unfolding validate_file_structure
order_file_accepted = refl
