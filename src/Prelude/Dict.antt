-- ===== src/Prelude/Dict.antt =====
-- Go's maps with string keys, as association lists: `m[k]`, `m[k] = v`, `delete(m, k)`.
use Prim.Native.String.{String}
use mathlib.Core.Path.{◌≡◌, refl}
use mathlib.Core.Option.{Option, none, some}
use mathlib.Core.List.{List, [], ◌∷◌}
use native.Mathlib.Omega.{arith}
use text.Mathlib.Text.{◌==◌ as str_eq}
use text.Mathlib.TextEquality.{eq_iff}
use protosource.Prelude.Tests.{if◌then◌else◌}

abbrev pub Dict {ℓ} : Type ℓ → Type ℓ
Dict V = List (String × V)

module _ {ℓ} {V : Type ℓ} where
  unfoldable pub lookup : String → Dict V → Option V
  lookup wanted [] = none
  lookup wanted ((key, value) ∷ rest) = if str_eq key wanted then some value else lookup wanted rest

  unfoldable pub insert : String → V → Dict V → Dict V
  insert at_key new [] = (at_key, new) ∷ []
  insert at_key new ((key, value) ∷ rest) =
      if str_eq key at_key then (at_key, new) ∷ rest else (key, value) ∷ insert at_key new rest

  unfoldable pub erase : String → Dict V → Dict V
  erase gone [] = []
  erase gone ((key, value) ∷ rest) =
      let kept = erase gone rest in if str_eq key gone then kept else (key, value) ∷ kept

  -- What a key holds after an assignment to another key, or to itself.
  pub lookup-insert :
      (at_key wanted : String) (new : V) (dict : Dict V)
      → lookup wanted (insert at_key new dict)
        ≡ (if str_eq at_key wanted then some new else lookup wanted dict)
  unfolding insert lookup
  lookup-insert at_key wanted new [] = refl
  lookup-insert at_key wanted new ((key, value) ∷ rest) = ground (
    arith,
    lookup-insert at_key wanted new rest,
    eq_iff key wanted,
    eq_iff key at_key,
    eq_iff at_key wanted,
  )

  pub lookup-erase :
      (gone wanted : String) (dict : Dict V)
      → lookup wanted (erase gone dict) ≡ (if str_eq gone wanted then none else lookup wanted dict)
  unfolding erase lookup
  lookup-erase gone wanted [] = ground arith
  lookup-erase gone wanted ((key, value) ∷ rest) =
      ground (
        arith,
        lookup-erase gone wanted rest,
        eq_iff key wanted,
        eq_iff key gone,
        eq_iff gone wanted,
      )
