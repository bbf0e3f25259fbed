-- ===== src/Order/Types.antt =====
-- The messages of the order aggregate: proto/example/app/order/v1 and its Go types.
-- Numbers are bit patterns: int64 below 2 ^ 64, int32 below 2 ^ 32. A pointer is an `Option`.
use protosource.Prelude.{ℕ, String, Option, none, []}
use protosource.Prelude.Dict.{Dict}

pub data State : Type 0 where
  unspecified : State
  draft : State
  placed : State
  paid : State
  shipped : State
  delivered : State
  cancelled : State

pub record LineItem : Type 0 where
  pub item_id : String
  pub description : String
  pub price_cents : ℕ
  pub quantity : ℕ

pub record Tag : Type 0 where
  pub key : String
  pub value : String

pub record Billing : Type 0 where
  pub method : String
  pub reference : String

pub record Order : Type 0 where
  pub id : String
  pub version : ℕ
  pub state : State
  pub customer_id : String
  pub customer_name : String
  pub create_at : ℕ
  pub create_by : String
  pub modify_at : ℕ
  pub modify_by : String
  pub total_cents : ℕ
  pub item_count : ℕ
  pub shipping_address : String
  pub placed_at : ℕ
  pub items : Dict LineItem
  pub tags : Dict Tag
  pub billing : Option Billing

-- `&Order{}`, and what the getters read through a nil pointer.
abbrev pub zero_order : Order
zero_order = record {
  id = "";
  version = 0;
  state = unspecified;
  customer_id = "";
  customer_name = "";
  create_at = 0;
  create_by = "";
  modify_at = 0;
  modify_by = "";
  total_cents = 0;
  item_count = 0;
  shipping_address = "";
  placed_at = 0;
  items = [];
  tags = [];
  billing = none;
}

-- The event messages, less the fields that all of them have. `foreign` is an event of another
-- package, which `On` does not handle.
pub data EventBody : Type 0 where
  created : (customer_id customer_name : String) → EventBody
  item_added : Option LineItem → EventBody
  item_removed : (item_id : String) → EventBody
  tag_added : Option Tag → EventBody
  tag_removed : (key : String) → EventBody
  shipping_set : (shipping_address : String) → EventBody
  billing_set : Option Billing → EventBody
  billing_cleared : Option Billing → EventBody
  order_placed : (placed_at : ℕ) → EventBody
  order_cancelled : (reason : String) → EventBody
  snapshot : Option Order → EventBody
  foreign : EventBody

pub record Event : Type 0 where
  pub id : String
  pub version : ℕ
  pub at : ℕ
  pub actor : String
  pub body : EventBody

pub data CommandBody : Type 0 where
  create : (customer_id customer_name : String) → CommandBody
  add_item : Option LineItem → CommandBody
  remove_item : (item_id : String) → CommandBody
  add_tag : Option Tag → CommandBody
  remove_tag : (key : String) → CommandBody
  set_shipping : (shipping_address : String) → CommandBody
  set_billing : Option Billing → CommandBody
  clear_billing : CommandBody
  place : (placed_at : ℕ) → CommandBody
  cancel : (reason : String) → CommandBody

pub record Command : Type 0 where
  pub id : String
  pub actor : String
  pub body : CommandBody

pub record OrderSummary : Type 0 where
  pub id : String
  pub state : State
  pub customer_id : String
  pub customer_name : String
  pub total_cents : ℕ
  pub item_count : ℕ
  pub placed_at : ℕ
  pub create_at : ℕ

-- What is materialized: the aggregate itself and its projection.
pub data Document : Type 0 where
  order_document : Order → Document
  summary_document : OrderSummary → Document
