-- ===== src/Generator/Exprs.antt =====
-- cmd/protoc-gen-protosource: the Go expressions that read and write the values of fields as texts.
-- `quote` is `%q`, `lower` is `strings.ToLower`, `digits` the decimal form of a number; the names of Go
-- types are those of the pgsgo context.
use Prim.Native.String.{◌++◌ as ◌concat◌}
use protosource.Prelude.{
  ℕ, String, ◌≡◌, refl, inl, inr, Bool, true, false, ◌||◌, List, [], ◌∷◌, ◌==◌, str_eq,
  if◌then◌else◌, Bool-cases,
}
use protosource.Error.{Result, ok, err, other}
use protosource.Generator.Descriptor.{ProtoField}

pub record GoNames : Type 0 where
  pub quote : String → String
  pub lower : String → String
  pub digits : ℕ → String
  pub type_of : ProtoField → String
  pub embed_of : ProtoField → String

-- The cases of the switches over pgs.ProtoType.
pub data Kind : Type 0 where
  text : Kind
  int32 : Kind
  int64 : Kind
  uint32 : Kind
  uint64 : Kind
  float : Kind
  double : Kind
  bool : Kind
  bytes : Kind
  other_kind : Kind

abbrev pub kind_of : ℕ → Kind
kind_of n =
    if n == 9
    then text
    else if n == 5 || n == 17 || n == 15
    then int32
    else if n == 3 || n == 18 || n == 16
    then int64
    else if n == 13 || n == 7
    then uint32
    else if n == 4 || n == 6
    then uint64
    else if n == 2
    then float
    else if n == 1
    then double
    else if n == 8
    then bool
    else if n == 12
    then bytes
    else other_kind

abbrev pub call : String → String → String → String
call function' arg label =
    function' concat ("(" concat (arg concat (", " concat (label concat ")"))))

module _ (go : GoNames) where
  abbrev pub number_call : Kind → String → String → String
  number_call text arg label = arg
  number_call int32 arg label = call "mustParseInt32" arg label
  number_call int64 arg label = call "mustParseInt64" arg label
  number_call uint32 arg label = call "mustParseUint32" arg label
  number_call uint64 arg label = call "mustParseUint64" arg label
  number_call float arg label =
      "float32(mustParseFloat(" concat (arg concat (", 32, " concat (label concat "))")))
  number_call double arg label =
      "mustParseFloat(" concat (arg concat (", 64, " concat (label concat ")")))
  number_call bool arg label = call "mustParseBool" arg label
  number_call bytes arg label = arg
  number_call other_kind arg label = arg

  abbrev pub arg_of : ℕ → String
  arg_of i = "os.Args[" concat (go.digits i concat "]")

  -- `cliParseExpr`
  unfoldable pub cli_parse_expr : ProtoField → ℕ → String
  cli_parse_expr f i =
      let label = go.quote (go.lower f.name) in
      elim (kind_of f.ptype) [
        | bytes ↦ call "mustReadFile" (arg_of i) label
        | k ↦ number_call k (arg_of i) label
      ]

  -- `cliParseExprFull`
  unfoldable pub cli_parse_expr_full : ProtoField → ℕ → String
  unfolding cli_parse_expr
  cli_parse_expr_full f i =
      let label = go.quote (go.lower f.name) in
      if f.is_enum
      then "pkg."
        concat (go.type_of f
            concat ("(" concat (call "mustParseInt32" (arg_of i) label concat ")")))
      else if f.is_embed
      then "mustParseJSON[*pkg." concat (go.embed_of f concat call "]" (arg_of i) label)
      else cli_parse_expr f i

  -- `cliQueryParseExpr`
  unfoldable pub cli_query_parse_expr : ProtoField → String → String → String
  cli_query_parse_expr f var label =
      if f.is_enum
      then "pkg."
        concat (go.type_of f
            concat ("(" concat (call "mustParseInt32" var (go.quote label) concat ")")))
      else number_call (kind_of f.ptype) var (go.quote label)

  abbrev pub parse_call : Kind → Result String
  parse_call text = ok "parseQueryParamString"
  parse_call int32 = ok "parseQueryParamInt32"
  parse_call int64 = ok "parseQueryParamInt64"
  parse_call uint32 = ok "parseQueryParamUint32"
  parse_call uint64 = ok "parseQueryParamUint64"
  parse_call float = ok "parseQueryParamFloat32"
  parse_call double = ok "parseQueryParamFloat64"
  parse_call bool = ok "parseQueryParamBool"
  parse_call bytes = err (other "queryParseExpr: unsupported field type")
  parse_call other_kind = err (other "queryParseExpr: unsupported field type")

  -- `queryParseExpr`; the panic is the error.
  unfoldable pub query_parse_expr : ProtoField → String → Result String
  query_parse_expr f var =
      if f.is_enum
      then ok ("parseQueryParamEnum[" concat (go.type_of f concat ("](" concat (var concat ")"))))
      else elim (parse_call (kind_of f.ptype)) [
        | err e ↦ err e
        | ok function' ↦ ok (function' concat ("(" concat (var concat ")")))
      ]

  abbrev pub format_call : Kind → String → Result String
  format_call text var = ok var
  format_call int32 var = ok ("strconv.FormatInt(int64(" concat (var concat "), 10)"))
  format_call int64 var = ok ("strconv.FormatInt(" concat (var concat ", 10)"))
  format_call uint32 var = ok ("strconv.FormatUint(uint64(" concat (var concat "), 10)"))
  format_call uint64 var = ok ("strconv.FormatUint(" concat (var concat ", 10)"))
  format_call float var = ok ("strconv.FormatFloat(float64(" concat (var concat "), 'f', -1, 32)"))
  format_call double var = ok ("strconv.FormatFloat(" concat (var concat ", 'f', -1, 64)"))
  format_call bool var = ok ("strconv.FormatBool(" concat (var concat ")"))
  format_call bytes var = err (other "queryFormatExpr: unsupported field type")
  format_call other_kind var = err (other "queryFormatExpr: unsupported field type")

  -- `queryFormatExpr`
  unfoldable pub query_format_expr : ProtoField → String → Result String
  query_format_expr f var =
      if f.is_enum
      then ok ("strconv.FormatInt(int64(" concat (var concat "), 10)"))
      else format_call (kind_of f.ptype) var

  -- `cliFieldUsageHint`
  unfoldable pub cli_field_usage_hint : ProtoField → String
  cli_field_usage_hint f =
      let name = go.lower f.name in
      if f.is_embed
      then "<" concat (name concat ":json>")
      else if f.is_enum
      then "<" concat (name concat ":num>")
      else "<" concat (name concat ">")

-- The fields whose names are not among those given, `ExcludeCommandInternal`, `CLICommandFields` and
-- `ExcludeInternal`.
unfoldable pub excluding : (String → Bool) → List ProtoField → List ProtoField
excluding internal [] = []
excluding internal (f ∷ fields) =
    let rest = excluding internal fields in if internal f.name then rest else f ∷ rest

abbrev pub exclude_command_internal : List ProtoField → List ProtoField
exclude_command_internal = excluding (λ n. str_eq n "id")

abbrev pub cli_command_fields : List ProtoField → List ProtoField
cli_command_fields = excluding (λ n. str_eq n "id" || str_eq n "actor")

abbrev pub exclude_internal : List ProtoField → List ProtoField
exclude_internal = excluding (λ n. str_eq n "id" || str_eq n "version" || str_eq n "at")

-- `commandSupportsCLI`, after `CLICommandFields`.
unfoldable pub supports_cli : List ProtoField → Bool
supports_cli [] = true
supports_cli (f ∷ fields) =
    let rest = supports_cli fields in if f.is_repeated || f.is_map then false else rest

unfoldable pub command_supports_cli : List ProtoField → Bool
unfolding supports_cli excluding
command_supports_cli fields = supports_cli (cli_command_fields fields)

abbrev pub is_ok : Result String → Bool
is_ok (ok expr) = true
is_ok (err e) = false

-- A query handler can parse a key field exactly when the client can format it: the generator panics
-- on both or on neither.
pub query_parse_expr-query_format_expr :
    (go : GoNames) (f : ProtoField) (var : String)
    → is_ok (query_parse_expr go f var) ≡ is_ok (query_format_expr go f var)
unfolding query_parse_expr query_format_expr
query_parse_expr-query_format_expr go f var = elim (Bool-cases f.is_enum) [
  | inl enum ↦ rw enum refl
  | inr plain ↦ rw plain (kinds (kind_of f.ptype))
]
  where
    kinds :
        (k : Kind)
        → is_ok (elim (parse_call go k) [
          | err e ↦ err e
          | ok function' ↦ ok (function' concat ("(" concat (var concat ")")))
        ])
          ≡ is_ok (format_call go k var)
    kinds text = refl
    kinds bytes = refl
    kinds other_kind = refl
    kinds _ = refl
