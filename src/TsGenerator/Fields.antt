-- ===== src/TsGenerator/Fields.antt =====
-- cmd/protoc-gen-protosource-ts: the types, names and expressions of a field in TypeScript.
-- `upper` is `unicode.ToUpper`.
use Prim.Native.Char.{Char, code}
use Prim.Native.String.{[] as no_text, ◌∷◌ as ◌then◌, ◌++◌ as ◌concat◌}
use protosource.Prelude.{ℕ, String, Bool, ◌||◌, List, [], ◌∷◌, map, ◌==◌, str_eq, if◌then◌else◌}
use protosource.Router.Path.{prepend}
use protosource.Generator.Indexes.{join, was_seen}

-- A field with what its pgs.FieldType returns; `type_name` is the name of its message or enum, and
-- `attributes` its OpaqueFieldOptions: for each attribute the number of its key type and its order.
pub record TsField : Type 0 where
  pub name : String
  pub go_name : String
  pub ptype : ℕ
  pub is_map : Bool
  pub is_repeated : Bool
  pub is_embed : Bool
  pub is_enum : Bool
  pub type_name : String
  pub attributes : List (ℕ × ℕ)

abbrev pub is_id_or_actor : String → Bool
is_id_or_actor name = str_eq name "id" || str_eq name "actor"

-- `clientCommandFields`
unfoldable pub client_command_fields : List TsField → List TsField
client_command_fields [] = []
client_command_fields (f ∷ fields) =
    let rest = client_command_fields fields in if is_id_or_actor f.name then rest else f ∷ rest

abbrev pub is_one_of : ℕ → List ℕ → Bool
is_one_of n [] = Bool.false
is_one_of n (k ∷ ks) = n == k || is_one_of n ks

-- pgs.Int32T, SInt32, SFixed32, UInt32T, Fixed32T, FloatT and DoubleT; and the 64-bit types.
abbrev pub number_types : List ℕ
number_types = 5 ∷ 17 ∷ 15 ∷ 13 ∷ 7 ∷ 2 ∷ 1 ∷ []

abbrev pub bigint_types : List ℕ
bigint_types = 3 ∷ 18 ∷ 16 ∷ 4 ∷ 6 ∷ []

-- `tsScalarType`; 9 is pgs.StringT, 8 BoolT and 12 BytesT.
unfoldable pub ts_scalar_type : TsField → String
ts_scalar_type f =
    if f.ptype == 9
    then "string"
    else if f.ptype == 8
    then "boolean"
    else if is_one_of f.ptype number_types
    then "number"
    else if is_one_of f.ptype bigint_types
    then "bigint"
    else if f.ptype == 12
    then "Uint8Array"
    else "unknown"

-- `tsType`
unfoldable pub ts_type : TsField → String
unfolding ts_scalar_type
ts_type f =
    if f.is_map
    then "unknown"
    else if f.is_repeated
    then ts_scalar_type f concat "[]"
    else if f.is_embed
    then f.type_name
    else if f.is_enum
    then f.type_name
    else ts_scalar_type f

-- `strings.Split(s, "_")`
unfoldable pub split_snake : String → List String
unfolding prepend
split_snake no_text = "" ∷ []
split_snake (c then s) = if code c == b'_' then "" ∷ split_snake s else prepend c (split_snake s)

-- `tsReservedWords`
abbrev pub reserved_words : List String
reserved_words =
    "break" ∷ "case" ∷ "catch" ∷ "class" ∷ "const" ∷ "continue" ∷ "debugger" ∷ "default" ∷ "delete"
    ∷ "do" ∷ "else" ∷ "enum" ∷ "export" ∷ "extends" ∷ "false" ∷ "finally" ∷ "for" ∷ "function"
    ∷ "if" ∷ "import" ∷ "in" ∷ "instanceof" ∷ "new" ∷ "null" ∷ "return" ∷ "super" ∷ "switch"
    ∷ "this" ∷ "throw" ∷ "true" ∷ "try" ∷ "typeof" ∷ "var" ∷ "void" ∷ "while" ∷ "with" ∷ "yield"
    ∷ "implements" ∷ "interface" ∷ "let" ∷ "package" ∷ "private" ∷ "protected" ∷ "public" ∷ "static"
    ∷ "as" ∷ "async" ∷ "await" ∷ "from" ∷ "any" ∷ "boolean" ∷ "never" ∷ "number" ∷ "object"
    ∷ "string" ∷ "symbol" ∷ "undefined" ∷ "unknown" ∷ []

module _ (upper : Char → Char) where
  abbrev pub capitalize : String → String
  capitalize no_text = ""
  capitalize (c then s) = upper c then s

  abbrev pub camel_parts : List String → List String
  camel_parts [] = []
  camel_parts (part ∷ parts) = part ∷ map capitalize parts

  -- `snakeToCamel`
  unfoldable pub snake_to_camel : String → String
  unfolding split_snake join
  snake_to_camel s = join "" (camel_parts (split_snake s))

  -- `tsFieldName`
  unfoldable pub ts_field_name : TsField → String
  unfolding snake_to_camel
  ts_field_name f = snake_to_camel f.name

  -- `tsParamName`
  unfoldable pub ts_param_name : TsField → String
  unfolding ts_field_name was_seen
  ts_param_name f =
      let name = ts_field_name f in if was_seen name reserved_words then name concat "_" else name

-- `tsQueryFormatExpr`
unfoldable pub ts_query_format_expr : TsField → String → String
ts_query_format_expr f var_name =
    if f.ptype == 9 then var_name else "String(" concat (var_name concat ")")

-- `opaqueFieldNameLower` and `unexport`; `lower` is `strings.ToLower`, `lower_char` `unicode.ToLower`.
unfoldable pub opaque_field_name_lower : (String → String) → TsField → String
opaque_field_name_lower lower f = lower f.name

unfoldable pub unexport : (Char → Char) → String → String
unexport lower_char no_text = ""
unexport lower_char (c then s) = lower_char c then s
