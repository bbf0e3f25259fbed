-- ===== src/Router/Path.antt =====
-- router.go: `splitPath` and `matchSegments`. Texts are walked by characters: a slash and a brace
-- are single bytes in UTF-8, and no byte of another character equals them.
use Prim.Native.Char.{Char, code}
use protosource.Prelude.{
  String, true, false, Option, none, some, List, [], ◌∷◌, length, ◌==◌, str_eq, if◌then◌else◌, not,
}
use protosource.Prelude.Dict.{Dict, insert}

-- One more character at the front of the first part.
unfoldable pub prepend : Char → List String → List String
prepend c [] = String.◌∷◌ c "" ∷ []
prepend c (part ∷ parts) = String.◌∷◌ c part ∷ parts

-- `strings.Split(path, "/")`
unfoldable pub split_slash : String → List String
unfolding prepend
split_slash String.[] = "" ∷ []
split_slash (String.◌∷◌ c s) =
    if code c == b'/' then "" ∷ split_slash s else prepend c (split_slash s)

unfoldable pub non_empty : List String → List String
non_empty [] = []
non_empty (part ∷ parts) =
    let rest = non_empty parts in if str_eq part "" then rest else part ∷ rest

-- `splitPath`
unfoldable pub split_path : String → List String
unfolding split_slash non_empty
split_path path = non_empty (split_slash path)

-- `s[:len(s)-1]`, if s is not empty and ends in a closing brace.
unfoldable pub before_brace : String → Option String
before_brace String.[] = none
before_brace (String.◌∷◌ c String.[]) = if code c == b'}' then some "" else none
before_brace (String.◌∷◌ c (String.◌∷◌ d s)) = elim (before_brace (String.◌∷◌ d s)) [
  | none ↦ none
  | some t ↦ some (String.◌∷◌ c t)
]

abbrev pub proper_name : Option String → Option String
proper_name none = none
proper_name (some name) = if str_eq name "" then none else some name

-- The name of a `{name}` segment: longer than two bytes, with a brace at each end.
unfoldable pub param_name : String → Option String
unfolding before_brace
param_name String.[] = none
param_name (String.◌∷◌ c s) = if code c == b'{' then proper_name (before_brace s) else none

-- The loop of `matchSegments`, on the parameters found so far.
unfoldable pub match_from : List String → List String → Dict String → Option (Dict String)
unfolding param_name
match_from [] path params = some params
match_from (seg ∷ pattern') [] params = none
match_from (seg ∷ pattern') (part ∷ path) params = elim (param_name seg) [
  | some name ↦ match_from pattern' path (insert name part params)
  | none ↦ elim (str_eq seg part) [ true ↦ match_from pattern' path params | false ↦ none ]
]

-- `matchSegments`
unfoldable pub match_segments : List String → List String → Option (Dict String)
unfolding match_from
match_segments pattern' path =
    if not (length pattern' == length path) then none else match_from pattern' path []
