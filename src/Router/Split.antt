-- ===== src/Router/Split.antt =====
-- `splitPath` inverts the joining of parts by slashes, and yields nothing else.
use Prim.Native.Char.{Char, code}
use Prim.Native.String
use text.Mathlib.TextLemmas.{nil-append, cons-append}
use protosource.Prelude.{
  String, ◌≡◌, ◌≢◌, inl, inr, refl, ap, ◌∙◌, false, List, [], ◌∷◌, arith, ◌==◌, eq_iff, Bool-cases,
  All,
}
use protosource.Router.Path.{prepend, split_slash, non_empty, split_path}

abbrev pub NoSlash : String → Type 0
NoSlash String.[] = Unit
NoSlash (String.◌∷◌ c s) = (code c ≢ b'/') × NoSlash s

-- What one segment of a path is.
abbrev pub IsSegment : String → Type 0
IsSegment part = (part ≢ "") × NoSlash part

test_false : (c : Char) → code c ≢ b'/' → (code c == b'/') ≡ false
test_false c h = ground arith

NoSlash-prepend :
    (c : Char) (parts : List String)
    → code c ≢ b'/'
    → All NoSlash parts
    → All NoSlash (prepend c parts)
unfolding prepend
NoSlash-prepend c [] h k = ((h, tt), tt)
NoSlash-prepend c (part ∷ parts) h (p, k) = ((h, p), k)

split_slash-NoSlash : (s : String) → All NoSlash (split_slash s)
unfolding split_slash
split_slash-NoSlash String.[] = (tt, tt)
split_slash-NoSlash (String.◌∷◌ c s) = elim (Bool-cases (code c == b'/')) [
  | inl slash ↦ rw slash (tt, split_slash-NoSlash s)
  | inr other ↦ rw other (NoSlash-prepend c (split_slash s) (ground arith) (split_slash-NoSlash s))
]

non_empty-IsSegment : (parts : List String) → All NoSlash parts → All IsSegment (non_empty parts)
unfolding non_empty
non_empty-IsSegment [] h = tt
non_empty-IsSegment (part ∷ parts) (p, h) =
    ground (arith, non_empty-IsSegment parts h, eq_iff part "")

-- Every part of a split path is a segment: not empty, and without a slash.
pub split_path-IsSegment : (path : String) → All IsSegment (split_path path)
unfolding split_path
split_path-IsSegment path = non_empty-IsSegment (split_slash path) (split_slash-NoSlash path)

-- The parts, each behind a slash.
abbrev pub join : List String → String
join [] = ""
join (part ∷ parts) = String.◌∷◌ "/" (String.◌++◌ part (join parts))

-- Splitting gives back a part and the parts joined behind it.
split_slash-append :
    (parts : List String) (part : String)
    → All NoSlash parts
    → NoSlash part
    → split_slash (String.◌++◌ part (join parts)) ≡ part ∷ parts
unfolding split_slash
split_slash-append [] String.[] h k = refl
split_slash-append (p ∷ parts) String.[] (hp, h) k =
    rw nil-append (ap (◌∷◌ "") (split_slash-append parts p h hp))
split_slash-append [] (String.◌∷◌ c s) h (k, ks) =
    rw (cons-append, split_slash)
      (rw (test_false c k) (ap (prepend c) (split_slash-append [] s h ks)))
split_slash-append (p ∷ parts) (String.◌∷◌ c s) h (k, ks) =
    rw (cons-append, split_slash)
      (rw (test_false c k) (ap (prepend c) (split_slash-append (p ∷ parts) s h ks)))

non_empty_lem : (parts : List String) → All IsSegment parts → non_empty parts ≡ parts
unfolding non_empty
non_empty_lem [] h = refl
non_empty_lem (part ∷ parts) ((p, _), h) = ground (arith, non_empty_lem parts h, eq_iff part "")

IsSegment-NoSlash : (parts : List String) → All IsSegment parts → All NoSlash parts
IsSegment-NoSlash [] h = tt
IsSegment-NoSlash (part ∷ parts) ((_, p), h) = (p, IsSegment-NoSlash parts h)

-- Splitting segments that were joined by slashes gives the segments back.
pub split_path-join : (parts : List String) → All IsSegment parts → split_path (join parts) ≡ parts
unfolding split_path
split_path-join [] h = refl
split_path-join (part ∷ parts) (p, h) =
    ap non_empty (ap (◌∷◌ "") (split_slash-append parts part (IsSegment-NoSlash parts h) p.1))
    ∙ non_empty_lem (part ∷ parts) (p, h)
