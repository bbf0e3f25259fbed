-- ===== src/Repository/Types.antt =====
-- The interfaces of protosource.go: records and the stores that keep them, the serializer, and
-- what the repository asks of an aggregate, its events and its commands. A type assertion to an
-- optional interface is a field that is an `Option`.
use protosource.Prelude.{ℕ, String, Option, List}
use protosource.Error.{Error, Result}
use protosource.Compress.{Bytes}

-- recordv1.Record, a message that all stores share.
pub record Record : Type 0 where
  pub version : ℕ
  pub payload : Bytes
  pub ttl : ℕ

abbrev pub History : Type 0
History = List Record

-- `ctx.Err()`: none while the context is live. It does not change during one call.
abbrev pub Context : Type 0
Context = Option Error

-- A store with state S, whose materialized view takes messages of type M.
pub record Store (S M : Type 0) : Type 0 where
  pub save : Context → String → List Record → S → Result (Unit {0}) × S
  pub load : Context → String → S → Result History × S
  -- SnapshotTailStore
  pub load_tail : Option (Context → String → ℕ → S → Result History × S)
  -- AggregateStore
  pub save_aggregate : Option (Context → M → S → Result (Unit {0}) × S)
  -- What the store holds after the records of a loaded history were changed in place: a store that
  -- hands out copies is unchanged, one that hands out its own pointers is not.
  pub write_through : String → History → S → S

pub record Serializer (E : Type 0) : Type 0 where
  pub marshal_event : E → Result Record
  pub unmarshal_event : Record → Result E

-- An aggregate of type A with its events E, its commands C and its documents M.
pub record Domain (A E C M : Type 0) : Type 0 where
  -- the name of the proto package of the aggregate
  pub proto_package : String
  -- Aggregate: `reflect.New` of the prototype, `On`, `GetVersion`
  pub fresh : A
  pub on : E → A → Result A
  pub get_version : A → ℕ
  pub message : A → M
  -- PostApplyHook, Snapshoter, EventTTLer, Projector
  pub after_on : Option (A → A)
  pub snapshot_interval : Option ℕ
  pub event_ttl_seconds : Option ℕ
  pub projections : Option (A → List M)
  -- Event
  pub event_id : E → String
  pub event_version : E → ℕ
  -- Commander, VersionValidator, ProtoValidater, StateGuard, CommandEvaluator, EventEmitter
  pub command_id : C → String
  pub validate_version : C → Option (ℕ → Result (Unit {0}))
  pub proto_validate : C → Option (Result (Unit {0}))
  pub guard_state : C → Option (A → Result (Unit {0}))
  pub evaluate : C → Option (A → Result (Unit {0}))
  -- The first argument is the clock: its reading at each event that is built.
  pub emit_events : C → Option ((ℕ → ℕ) → A → List E)
