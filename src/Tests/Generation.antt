-- ===== src/Tests/Generation.antt =====
-- A file for the generator: a cart, the event that adds a line to it, its list and a projection.
use protosource.Prelude.{
  ℕ, String, ◌≡◌, refl, true, false, Option, none, some, List, [], ◌∷◌, if◌then◌else◌,
}
use protosource.Error.{err, other}
use protosource.Generator.{Message, Field, event_fields, command_fields}
use protosource.Generator.Descriptor.{Element, ProtoField, CollectionMapping, add, ProtoMessage}
use protosource.Generator.OpaqueKeys.{AnnotatedField}
use protosource.Generator.Embeds.{validate_singular_embed}
use protosource.Generator.Run.{ProtoFile}

abbrev no_element : Element
no_element = record { ptype = 9; is_embed = false; fqn = ""; fields = [] }

abbrev scalar : String → String → ℕ → ℕ → ProtoField
scalar name go_name number ptype = record {
  name = name;
  go_name = go_name;
  number = number;
  ptype = ptype;
  is_repeated = false;
  is_map = false;
  is_embed = false;
  is_enum = false;
  fqn = "";
  key_ptype = 0;
  element = no_element;
}

abbrev line : Element
line = record {
  ptype = 11;
  is_embed = true;
  fqn = ".shop.Line";
  fields =
      record {
        name = "item_id";
        go_name = "ItemId";
        is_repeated = false;
        is_map = false;
        ptype = 9;
      }
      ∷ [];
}

abbrev plain : String → List Field → Message
plain name fields = record {
  name = name;
  is_aggregate = false;
  is_command = false;
  is_event = false;
  is_projection = false;
  is_snapshot = false;
  lifecycle = "UNSPECIFIED";
  produces = [];
  fields = fields;
}

abbrev message : Message → String → List ProtoField → Option CollectionMapping → ProtoMessage
message base fqn fields collection = record {
  base = base;
  fqn = fqn;
  fields = fields;
  sets_state = "";
  allowed_states = [];
  collection = collection;
}

abbrev id_field : ProtoField
id_field = scalar "id" "Id" 1 9

abbrev lines : ProtoField
lines = record (scalar "lines" "Lines" 2 11) { is_map = true; key_ptype = 9; element = line }

abbrev cart : ProtoMessage
cart =
    message (record (plain "Cart" event_fields) { is_aggregate = true }) ".shop.Cart"
      (id_field ∷ lines ∷ []) none

abbrev adding : CollectionMapping
adding = record { target = "lines"; action = add; key_field = "item_id" }

abbrev line_added : ProtoMessage
line_added =
    message (record (plain "LineAdded" event_fields) { is_event = true }) ".shop.LineAdded"
      (id_field ∷ record (scalar "line" "Line" 5 11) { is_embed = true; fqn = ".shop.Line" } ∷ [])
      (some adding)

abbrev shop_messages : List ProtoMessage
shop_messages =
    cart
    ∷ message
        (record (plain "Open" command_fields) {
          is_command = true;
          lifecycle = "CREATION";
          produces = "LineAdded" ∷ [];
        })
        ".shop.Open" (id_field ∷ []) none
    ∷ line_added
    ∷ message (plain "CartList" []) ".shop.CartList"
        (record (scalar "items" "Items" 1 11) {
          is_repeated = true;
          element = record line { fqn = ".shop.Cart" };
        }
          ∷ [])
        none
    ∷ message (record (plain "CartView" event_fields) { is_projection = true }) ".shop.CartView"
        (id_field ∷ lines ∷ []) none
    ∷ []

-- The cart has a composite key for its first index.
abbrev annotations_of : ProtoMessage → List AnnotatedField
annotations_of m =
    if m.base.is_aggregate
    then record { proto_name = "region"; go_name = "Region"; attributes = (3, 2) ∷ [] }
      ∷ record { proto_name = "owner"; go_name = "Owner"; attributes = (3, 1) ∷ (4, 0) ∷ [] }
      ∷ []
    else []

abbrev shop : ProtoFile
shop = record {
  enabled = true;
  messages = shop_messages;
  annotations = annotations_of;
  all_messages = shop_messages;
  enums = [];
  import_path = "shop/v1";
  base = "shop.proto";
  output_path = "shop/v1/shop.pb.go";
  output_dir = "shop/v1";
}

abbrev path_of : ProtoFile → String → String
path_of f template = template

abbrev cleared : ProtoMessage
cleared =
    message (record (plain "LineCleared" event_fields) { is_event = true }) ".shop.LineCleared"
      (id_field
        ∷ record (scalar "last_line" "LastLine" 5 11) { is_embed = true; fqn = ".shop.Line" }
        ∷ [])
      none

abbrev till : ProtoMessage
till =
    message (plain "Till" event_fields) ".shop.Till"
      (id_field ∷ record (scalar "line" "Line" 2 11) { is_embed = true; fqn = ".shop.Line" } ∷ [])
      none

-- The message under another name is refused.
cleared_refused :
    validate_singular_embed cleared till
    ≡ err (other "embedded field will not be applied to aggregate")
unfolding validate_singular_embed
cleared_refused = refl
