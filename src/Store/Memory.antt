-- ===== src/Store/Memory.antt =====
-- stores/memorystore: histories in a map, behind a mutex that every operation holds whole.
-- `Load` hands out the store's own history, so what its reader changes in place is changed here.
pub mod Laws
use protosource.Prelude.{ℕ, String, Option, none, some, [], ◌++◌}
use protosource.Prelude.Dict.{Dict, lookup, insert}
use protosource.Error.{Error, Result, ok, err, wrap}
use protosource.Repository.Types.{History, Record, Context, Store}
use mathlib.Core.List.{List}

pub record MemoryStore : Type 0 where
  pub events : Dict History
  pub snapshot_interval : ℕ

-- `New`
abbrev pub new : ℕ → MemoryStore
new interval = record { events = []; snapshot_interval = interval }

validate_context : Context → Result (Unit {0})
validate_context none = ok tt
validate_context (some e) = err (wrap "context error" e)

abbrev pub history_or_new : Option History → History
history_or_new none = []
history_or_new (some h) = h

unfoldable pub save : Context → String → List Record → MemoryStore → Result (Unit {0}) × MemoryStore
unfolding validate_context
save ctx id records m = elim (validate_context ctx) [
  | err e ↦ (err (wrap "save failed" e), m)
  | ok _ ↦ (
    ok tt,
    record m { events = insert id (history_or_new (lookup id m.events) ++ records) m.events },
  )
]

unfoldable pub load : Context → String → MemoryStore → Result History × MemoryStore
unfolding validate_context
load ctx id m = elim (validate_context ctx) [
  | err e ↦ (err (wrap "load failed" e), m)
  | ok _ ↦ (ok (history_or_new (lookup id m.events)), m)
]

-- The records of a loaded history, changed in place. A history that `Load` made anew for a missing
-- key is not the store's.
unfoldable pub write_through : String → History → MemoryStore → MemoryStore
write_through id records m = elim (lookup id m.events) [
  | none ↦ m
  | some _ ↦ record m { events = insert id records m.events }
]

-- The store as the repository uses it: it has no LoadTail and keeps no aggregates.
abbrev pub memory_store : {M : Type 0} → Store MemoryStore M
memory_store = record {
  save = save;
  load = load;
  load_tail = none;
  save_aggregate = none;
  write_through = write_through;
}
