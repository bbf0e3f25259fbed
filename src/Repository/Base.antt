-- ===== src/Repository/Base.antt =====
-- The parts of protosource.go's `Repository` that need no store: the keys, the checks of a command
-- and the replay of events.
use Prim.Native.Char.{code}
use Prim.Native.String
use protosource.Prelude.{ℕ, String, Option, none, some, List, [], ◌∷◌, ◌==◌, if◌then◌else◌}
use protosource.Error.{sentinel, wrap, Result, ok, err, ◌>>=◌, ◌>>◌, unhandled_command}
use protosource.Repository.Types.{Domain}

-- `strings.ReplaceAll(pkg, ".", "_")`
unfoldable pub replace_dots : String → String
replace_dots String.[] = ""
replace_dots (String.◌∷◌ c s) =
    if code c == b'.' then String.◌++◌ "_" (replace_dots s) else String.◌∷◌ c (replace_dots s)

-- The prefix that `New` derives from the name of the proto package.
unfoldable pub key_prefix : String → String
unfolding replace_dots
key_prefix pkg = String.◌++◌ (replace_dots pkg) "#"

unfoldable pub qualified_id : String → String → String
unfolding key_prefix
qualified_id pkg id = String.◌++◌ (key_prefix pkg) id

-- The run of an optional check: a value that lacks the interface passes.
abbrev pub run_check {ℓ} : {X : Type ℓ} → Option (X → Result (Unit {0})) → X → Result (Unit {0})
run_check none x = ok tt
run_check (some f) x = f x

abbrev pub passed : Option (Result (Unit {0})) → Result (Unit {0})
passed none = ok tt
passed (some r) = r

abbrev pub run_hook {ℓ} : {A : Type ℓ} → Option (A → A) → A → A
run_hook none a = a
run_hook (some f) a = f a

-- `if err := store.SaveAggregate(...); err != nil { logger.Warn(msg) }`
abbrev pub warning : String → Result (Unit {0}) → List String
warning msg (ok _) = []
warning msg (err _) = msg ∷ []

module _ {A E C M : Type 0} (d : Domain A E C M) where
  -- `On` for each event in turn, up to the first failure.
  unfoldable pub fold_on : List E → A → Result A
  fold_on [] a = ok a
  fold_on (e ∷ es) a = d.on e a >>= fold_on es

  -- The checks 1 to 4 of `Apply`, in their order; they end with the command's emitter.
  unfoldable pub check_command : C → A → Result ((ℕ → ℕ) → A → List E)
  check_command c a = do
    run_check (d.validate_version c) (d.get_version a)
    passed (d.proto_validate c)
    run_check (d.guard_state c) a
    elim (d.emit_events c) [ none ↦ err (wrap "%T" (sentinel unhandled_command)) | some f ↦ ok f ]

  -- The version of the last event, or the version loaded if there is none.
  unfoldable pub last_version : List E → ℕ → ℕ
  last_version [] v = v
  last_version (e ∷ es) v = last_version es (d.event_version e)
