-- ===== src/Router/Matching.antt =====
-- What `matchSegments` accepts, and the parameters that it returns.
use Prim.Native.Char.{Char, code}
use Prim.Native.String.{◌++◌ as ◌concat◌}
use text.Mathlib.TextEquality.{Char-path}
use text.Mathlib.TextLemmas.{nil-append, cons-append}
use protosource.Prelude.{
  String, sym, ap, true, ◌==◌, ==_iff, Bool-cases, ◌≡◌, ◌≢◌, ◌↔◌, ◌⊎◌, inl, inr, refl, ◌∙◌, Option,
  none, some, List, [], ◌∷◌, arith, length, str_eq, eq_iff, if◌then◌else◌, Option-cases,
}
use protosource.Prelude.Dict.{Dict, lookup, insert, lookup-insert}
use protosource.Router.Path.{before_brace, param_name, match_from, match_segments}

-- A segment `{name}` with a name that is not empty; the name may hold any characters.
abbrev pub IsParam : String → Type 0
IsParam seg = (name : String) × (name ≢ "") × (seg ≡ "{" concat (name concat "}"))

-- A pattern fits a path of the same length: each segment is a parameter or the same text.
abbrev pub Fits : List String → List String → Type 0
Fits [] [] = Unit
Fits (seg ∷ pattern') (part ∷ path) = (IsParam seg ⊎ (seg ≡ part)) × Fits pattern' path
Fits _ _ = ⊥

abbrev open_brace : Char
open_brace = "{"

abbrev close_brace : Char
close_brace = "}"

char_of : (c d : Char) → (code c == code d) ≡ true → c ≡ d
char_of c d h = Char-path c d ((==_iff (code c) (code d)).0 h)

before_brace_sound : (s t : String) → before_brace s ≡ some t → s ≡ t concat "}"
unfolding before_brace
before_brace_sound String.[] t h = cc
before_brace_sound (String.◌∷◌ c String.[]) t h = elim (Bool-cases (code c == code close_brace)) [
  | inl brace ↦
      let found : some "" ≡ some t = rw brace at h in
      let is : "" ≡ t = cc in rw (← is, char_of c close_brace brace) (sym (nil-append "}"))
  | inr other ↦ let bad : none ≡ some t = rw other at h in cc
]
before_brace_sound (String.◌∷◌ c (String.◌∷◌ d s)) t h =
    elim (Option-cases (before_brace (String.◌∷◌ d s))) [
      | inl missing ↦ let bad : none ≡ some t = rw missing at h in cc
      | inr (u, found) ↦
          let same : some (String.◌∷◌ c u) ≡ some t = rw found at h in
          let is : String.◌∷◌ c u ≡ t = cc in
          ap (String.◌∷◌ c) (before_brace_sound (String.◌∷◌ d s) u found)
          ∙ sym (cons-append c u "}")
          ∙ ap (λ v. v concat "}") is
    ]

before_brace_complete : (t : String) → before_brace (t concat "}") ≡ some t
unfolding before_brace
before_brace_complete String.[] = ap before_brace (nil-append "}")
before_brace_complete (String.◌∷◌ c String.[]) =
    ap before_brace (cons-append c "" "}" ∙ ap (String.◌∷◌ c) (nil-append "}"))
before_brace_complete (String.◌∷◌ c (String.◌∷◌ d t)) =
    let rest =
      ap before_brace (sym (cons-append d t "}")) ∙ before_brace_complete (String.◌∷◌ d t) in
    ap before_brace (cons-append c (String.◌∷◌ d t) "}" ∙ ap (String.◌∷◌ c) (cons-append d t "}"))
    ∙ rw (rest, before_brace) refl

param_name_sound : (seg : String) → param_name seg ≢ none → IsParam seg
unfolding param_name
param_name_sound String.[] h = absurd (h refl)
param_name_sound (String.◌∷◌ c s) h = elim (Bool-cases (code c == code open_brace)) [
  | inr other ↦ absurd (h (rw other refl))
  | inl brace ↦ elim (Option-cases (before_brace s)) [
    | inl missing ↦ absurd (h (rw (brace, missing) refl))
    | inr (name, found) ↦ elim (Bool-cases (str_eq name "")) [
      | inl empty ↦ absurd (h (rw (brace, found, empty) refl))
      | inr given ↦ (
        name,
        λ e. ground (arith, eq_iff name ""),
        ap (λ x. String.◌∷◌ x s) (char_of c open_brace brace)
            ∙ ap (String.◌∷◌ open_brace) (before_brace_sound s name found)
            ∙ sym (
                cons-append open_brace "" (name concat "}")
                ∙ ap (String.◌∷◌ open_brace) (nil-append (name concat "}"))),
      )
    ]
  ]
]

param_name_complete :
    (name : String) → name ≢ "" → param_name ("{" concat (name concat "}")) ≡ some name
unfolding param_name
param_name_complete name given =
    ap param_name (
      cons-append open_brace "" (name concat "}")
      ∙ ap (String.◌∷◌ open_brace) (nil-append (name concat "}")))
    ∙ rw (before_brace_complete name) (ground (arith, eq_iff name ""))

-- The code takes a segment for a parameter exactly where it is one.
param_name_iff : (seg : String) → (param_name seg ≢ none) ↔ IsParam seg
param_name_iff seg = (
  param_name_sound seg,
  λ (name, given, e) missing.
      let found : param_name seg ≡ some name = rw e (param_name_complete name given) in
      let bad : none ≡ some name = sym missing ∙ found in cc,
)

-- The part that stands at the last segment with a given name.
abbrev pub named : String → Option String → String → Option String
named n none part = none
named n (some m) part = if str_eq m n then some part else none

abbrev pub or_else : Option String → Option String → Option String
or_else none o = o
or_else (some v) o = some v

pub or_else-none : (o : Option String) → or_else o none ≡ o
or_else-none none = refl
or_else-none (some v) = refl

abbrev pub captured : String → List String → List String → Option String
captured n (seg ∷ pattern') (part ∷ path) =
    or_else (captured n pattern' path) (named n (param_name seg) part)
captured n _ _ = none

length-Fits : (pattern' path : List String) → Fits pattern' path → length pattern' ≡ length path
length-Fits [] [] h = refl
length-Fits [] (part ∷ path) h = absurd h
length-Fits (seg ∷ pattern') [] h = absurd h
length-Fits (seg ∷ pattern') (part ∷ path) (_, h) = omega (arith, length-Fits pattern' path h)

match_from_iff :
    (pattern' path : List String) (params : Dict String)
    → length pattern' ≡ length path
    → (match_from pattern' path params ≢ none) ↔ Fits pattern' path
unfolding match_from
match_from_iff [] [] params e = ground arith
match_from_iff [] (part ∷ path) params e = absurd (omega arith)
match_from_iff (seg ∷ pattern') [] params e = absurd (omega arith)
match_from_iff (seg ∷ pattern') (part ∷ path) params e = elim (Option-cases (param_name seg)) [
  | inl literal ↦
      rw (literal, match_from)
        (ground (
          arith,
          match_from_iff pattern' path params (omega arith),
          eq_iff seg part,
          param_name_iff seg,
          literal,
        ))
  | inr (name, found) ↦
      rw (found, match_from)
        (ground (
          arith,
          match_from_iff pattern' path (insert name part params) (omega arith),
          param_name_sound seg (λ e. cc found),
        ))
]

-- A path matches a pattern exactly when the pattern fits it: it has as many segments, each the same
-- text or a name of at least one character in braces.
pub match_segments_iff :
    (pattern' path : List String) → (match_segments pattern' path ≢ none) ↔ Fits pattern' path
unfolding match_segments
match_segments_iff pattern' path =
    ground (arith, match_from_iff pattern' path [], length-Fits pattern' path)

lookup-match_from :
    (n : String) (pattern' path : List String) (params found : Dict String)
    → match_from pattern' path params ≡ some found
    → lookup n found ≡ or_else (captured n pattern' path) (lookup n params)
unfolding match_from
lookup-match_from n [] path params found e = ground arith
lookup-match_from n (seg ∷ pattern') [] params found e = cc
lookup-match_from n (seg ∷ pattern') (part ∷ path) params found e =
    elim (Option-cases (param_name seg)) [
      | inl literal ↦
          let rest = rw (literal, match_from) at e in
          rw literal (ground (arith, lookup-match_from n pattern' path params found))
      | inr (name, is) ↦
          let rest = rw (is, match_from) at e in
          rw is (
            ground (
              arith,
              lookup-match_from n pattern' path (insert name part params) found rest,
              lookup-insert name n part params,
            ))
    ]

-- A parameter of a matched path is the part at the last segment with its name, and no other name
-- has a value.
pub lookup-match_segments :
    (n : String) (pattern' path : List String) (found : Dict String)
    → match_segments pattern' path ≡ some found
    → lookup n found ≡ captured n pattern' path
unfolding match_segments lookup
lookup-match_segments n pattern' path found e =
    lookup-match_from n pattern' path [] found (ground arith)
    ∙ or_else-none (captured n pattern' path)
