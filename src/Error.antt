-- ===== src/Error.antt =====
-- Go's error values as protosource.go uses them: the sentinels that it declares, errors of code
-- outside the repository, the batch errors of azure/cosmosclient, and the wrappers of `fmt.Errorf` with one `%w` and with two. A function
-- that returns `(value, error)` returns a `Result`.
use protosource.Prelude.{ℕ, String, Bool, false, ◌||◌, ◌==◌}

pub data Sentinel : Type 0 where
  aggregate_not_found : Sentinel
  unhandled_command : Sentinel
  unhandled_event : Sentinel
  already_created : Sentinel
  not_created_yet : Sentinel
  nil_command : Sentinel
  empty_aggregate_id : Sentinel
  validation_failed : Sentinel
  state_not_allowed : Sentinel
  skip : Sentinel

pub data Error : Type 0 where
  sentinel : Sentinel → Error
  -- `errors.New` of another package, or an error of the environment.
  other : String → Error
  -- `cosmosclient.BatchError`: the status and the message of a batch that did not commit.
  batch_error : ℕ → String → Error
  wrap : String → Error → Error
  wrap_two : String → Error → Error → Error

pub data Result {ℓ} (A : Type ℓ) : Type ℓ where
  ok : A → Result A
  err : Error → Result A

-- `v, err := m; if err != nil { return err }`, and the same where the value is not used.
infixl 5 ◌>>=◌ ◌>>◌
abbrev pub ◌>>=◌ {ℓ κ} : {X : Type ℓ} {Y : Type κ} → Result X → (X → Result Y) → Result Y
ok value >>= next = next value
err failure >>= next = err failure

abbrev pub ◌>>◌ {ℓ} : {Y : Type ℓ} → Result (Unit {0}) → Result Y → Result Y
checked >> next = checked >>= λ done. next

-- `if err != nil { return fmt.Errorf(msg + ": %w", err) }`
abbrev pub wrap_err {ℓ} : {A : Type ℓ} → String → Result A → Result A
wrap_err msg (ok a) = ok a
wrap_err msg (err e) = err (wrap msg e)

rank : Sentinel → ℕ
rank aggregate_not_found = 0
rank unhandled_command = 1
rank unhandled_event = 2
rank already_created = 3
rank not_created_yet = 4
rank nil_command = 5
rank empty_aggregate_id = 6
rank validation_failed = 7
rank state_not_allowed = 8
rank skip = 9

-- `errors.Is(e, s)` walks the tree of wrapped errors.
unfoldable pub is_error : Error → Sentinel → Bool
unfolding rank
is_error (sentinel t) s = rank t == rank s
is_error (other _) s = false
is_error (batch_error _ _) s = false
is_error (wrap _ e) s = is_error e s
is_error (wrap_two _ e f) s = is_error e s || is_error f s
