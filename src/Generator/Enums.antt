-- ===== src/Generator/Enums.antt =====
-- cmd/protoc-gen-protosource: enum_display.go, the index of enum values, and the states that commands
-- and events name. Letters are given by the functions of package unicode, a parameter.
pub mod Labels
use Prim.Native.Char.{Char, code}
use Prim.Native.String.{[] as no_text, ◌∷◌ as ◌then◌, ◌++◌ as ◌concat◌}
use protosource.Prelude.{
  ℕ, String, Bool, true, false, not, ◌&&◌, ◌||◌, Option, none, some, List, [], ◌∷◌, map, ◌==◌,
  str_eq, if◌then◌else◌, is_some,
}
use protosource.Prelude.Dict.{Dict, lookup, insert}
use protosource.Error.{Result, ok, err, other}
use protosource.Router.Path.{prepend}
use protosource.Generator.Indexes.{join}
use protosource.Generator.Descriptor.{guard}

pub record EnumValue : Type 0 where
  pub name : String
  pub go_name : String
  pub number : ℕ

-- `displayNamesDisabled` is false where the enum has no options.
pub record ProtoEnum : Type 0 where
  pub name : String
  pub go_name : String
  pub display_names_disabled : Bool
  pub values : List EnumValue

unfoldable pub index_values : String → List EnumValue → Dict String → Dict String
index_values enum [] index = index
index_values enum (v ∷ values) index =
    index_values enum values (insert v.name (enum concat ("_" concat v.name)) index)

unfoldable pub index_enums : List ProtoEnum → Dict String → Dict String
unfolding index_values
index_enums [] index = index
index_enums (e ∷ enums) index = index_enums enums (index_values e.name e.values index)

-- `buildEnumValueIndex`
unfoldable pub build_enum_value_index : List ProtoEnum → Dict String
unfolding index_enums
build_enum_value_index enums = index_enums enums []

-- `stateEnumName`
unfoldable pub state_enum_name : Dict String → String → String
state_enum_name index name = elim (lookup name index) [ none ↦ "" | some go_name ↦ go_name ]

-- `validateAllowedStates`
unfoldable pub validate_allowed_states : Dict String → List String → Result (Unit {0})
validate_allowed_states index [] = ok tt
validate_allowed_states index (s ∷ states) =
    let rest = validate_allowed_states index states in
    if is_some (lookup s index)
    then rest
    else err (other "allowed_states references no enum value of the file")

-- `validateSetsState`
unfoldable pub validate_sets_state : Dict String → String → Result (Unit {0})
validate_sets_state index state =
    if str_eq state ""
    then ok tt
    else guard (is_some (lookup state index)) "sets_state references no enum value of the file"

-- `EnumDisplayValue` and `EnumDisplay`
pub record EnumDisplayValue : Type 0 where
  pub go_name : String
  pub display : String

pub record EnumDisplay : Type 0 where
  pub go_type_name : String
  pub values : List EnumDisplayValue

pub record Letters : Type 0 where
  pub is_upper : Char → Bool
  pub is_lower : Char → Bool
  pub is_digit : Char → Bool
  pub to_upper : Char → Char
  pub to_lower : Char → Char

-- What follows the prefix, where the text has it.
unfoldable pub strip_prefix : String → String → Option String
strip_prefix no_text s = some s
strip_prefix (◌then◌ c prefix) no_text = none
strip_prefix (◌then◌ c prefix) (◌then◌ d s) =
    let rest = strip_prefix prefix s in if code c == code d then rest else none

-- `strings.TrimPrefix`
unfoldable pub trim_prefix : String → String → String
unfolding strip_prefix
trim_prefix s prefix = elim (strip_prefix prefix s) [ none ↦ s | some rest ↦ rest ]

unfoldable pub all_have_prefix : String → List EnumValue → Bool
unfolding strip_prefix
all_have_prefix prefix [] = true
all_have_prefix prefix (v ∷ values) =
    let rest = all_have_prefix prefix values in
    if is_some (strip_prefix prefix v.name) then rest else false

-- `strings.Split(s, "_")`
unfoldable pub split_underscore : String → List String
unfolding prepend
split_underscore no_text = "" ∷ []
split_underscore (◌then◌ c s) =
    if code c == b'_' then "" ∷ split_underscore s else prepend c (split_underscore s)

unfoldable pub was_number : ℕ → List ℕ → Bool
was_number n [] = false
was_number n (k ∷ seen) = let rest = was_number n seen in if k == n then true else rest

module _ (letters : Letters) where
  abbrev starts_lower : String → Bool
  starts_lower no_text = false
  starts_lower (◌then◌ c s) = letters.is_lower c

  -- Whether an underscore stands before r, with what comes before it and after it.
  unfoldable pub is_boundary : Option Char → Char → String → Bool
  is_boundary none r s = false
  is_boundary (some prev) r s =
      letters.is_upper r
      && (letters.is_lower prev || letters.is_digit prev || letters.is_upper prev && starts_lower s)

  -- The loop of `screamingSnake`.
  unfoldable pub snake_from : Option Char → String → String
  unfolding is_boundary
  snake_from prev no_text = ""
  snake_from prev (◌then◌ r s) =
      let rest = ◌then◌ (letters.to_upper r) (snake_from (some r) s) in
      if is_boundary prev r s then ◌then◌ "_" rest else rest

  -- `screamingSnake`
  unfoldable pub screaming_snake : String → String
  unfolding snake_from
  screaming_snake s = snake_from none s

  unfoldable pub lower_all : String → String
  lower_all no_text = ""
  lower_all (◌then◌ c s) = ◌then◌ (letters.to_lower c) (lower_all s)

  -- The first letter of a part in upper case, the others in lower case.
  unfoldable pub title : String → String
  unfolding lower_all
  title no_text = ""
  title (◌then◌ c s) = ◌then◌ (letters.to_upper (letters.to_lower c)) (lower_all s)

  -- `enumDisplayLabel`; the names are ASCII, so that the first byte is the first character.
  unfoldable pub enum_display_label : String → String
  unfolding split_underscore title join
  enum_display_label s = join " " (map title (split_underscore s))

  -- The second loop of `buildEnumDisplay`; `seen` are the numbers of the values before.
  unfoldable pub display_values : Bool → String → List ℕ → List EnumValue → List EnumDisplayValue
  unfolding enum_display_label trim_prefix was_number
  display_values strip prefix seen [] = []
  display_values strip prefix seen (v ∷ values) =
      let raw = if strip then trim_prefix v.name prefix else v.name in
      let rest = display_values strip prefix (v.number ∷ seen) values in
      let rest_seen = display_values strip prefix seen values in
      if was_number v.number seen
      then rest_seen
      else record { go_name = v.go_name; display = enum_display_label raw } ∷ rest

  -- `buildEnumDisplay`
  unfoldable pub build_enum_display : ProtoEnum → EnumDisplay
  unfolding screaming_snake all_have_prefix display_values
  build_enum_display e =
      let prefix = screaming_snake e.name concat "_" in
      record {
        go_type_name = e.go_name;
        values = display_values (all_have_prefix prefix e.values) prefix [] e.values;
      }

  -- `enumDisplays`
  unfoldable pub enum_displays : List ProtoEnum → List EnumDisplay
  unfolding build_enum_display
  enum_displays [] = []
  enum_displays (e ∷ enums) =
      let rest = enum_displays enums in
      if e.display_names_disabled then rest else build_enum_display e ∷ rest
