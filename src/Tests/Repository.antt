-- ===== src/Tests/Repository.antt =====
-- The repository over the memory store, at concrete inputs.
use protosource.Prelude.{
  ℕ, ◌+◌, All, String, ◌≡◌, ◌↔◌, refl, inl, none, some, List, [], ◌∷◌, arith, sym,
}
use protosource.Prelude.Dict.{lookup, insert}
use protosource.Error.{ok, err, wrap, sentinel, already_created, skip, is_error}
use protosource.Compress.{is_gzipped, maybe_compress, maybe_decompress}
use protosource.Compress.RoundTrip.{decompress-compress}
use protosource.Repository.Types.{Domain, History}
use protosource.Repository.Base.{replace_dots, qualified_id, fold_on, last_version, check_command}
use protosource.Repository.Run.{history, replay, load, apply, write_records, write_record, pack}
use protosource.Repository.Stored.{Stored, Stores, replay-Stores, ok-injective}
use protosource.Repository.Log.{IsLog, Holds, window}
use protosource.Repository.Commit.{
  state_of, apply_rejected, apply_declined, apply_commits, load_lem,
}
use protosource.Repository.Browse.{Decodes, history_lem}
use protosource.Repository.Isolation.{apply_isolated}
use protosource.Repository.Keys.{qualified_id_iff}
use protosource.Store.Memory.{MemoryStore, memory_store, save}
use protosource.Store.Memory.Laws.{view, memory_store-IsLog}
use protosource.Tests.Tailed.{tailed, tailed-IsLog}
use protosource.Tests.Counter.{
  counter, record_of, counter_serializer, counter_serializer-IsSerializer, marker, marker-IsCodec,
}

-- A store that holds one event of the counter "a".
abbrev shelf : MemoryStore
shelf = record { events = ("app_counter_v1#a", record_of 1 ∷ []) ∷ []; snapshot_interval = 0 }

abbrev strict : Domain ℕ ℕ String ℕ
strict = record counter { validate_version = λ c. some (λ v. err (sentinel already_created)) }

abbrev idle : Domain ℕ ℕ String ℕ
idle = record counter { evaluate = λ c. some (λ a. err (wrap "idle" (sentinel skip))) }

-- With this line the repository runs on the shelf.
unfoldable running : Unit {0}
unfolding qualified_id replace_dots lookup insert is_gzipped maybe_decompress maybe_compress view
    window
running = tt

one-Stored :
    (d : Domain ℕ ℕ String ℕ)
    → d.event_version 1 ≡ 1
    → Stored marker d counter_serializer (record_of 1) 1
unfolding running
one-Stored d h = record {
  bytes = 1 ∷ [];
  unpacked = refl;
  plain = refl;
  decoded = refl;
  versioned = sym h;
}

shelf-Holds :
    Holds marker counter counter_serializer memory_store 300 view memory_store-IsLog shelf "a"
      (1 ∷ [])
unfolding running
shelf-Holds = (one-Stored counter refl, tt)

decompress-compress_example : maybe_decompress marker (0x1f ∷ 0x8b ∷ 7 ∷ []) ≡ ok (7 ∷ [])
unfolding running
decompress-compress_example =
    decompress-compress marker marker-IsCodec (7 ∷ []) 1 (0x1f ∷ 0x8b ∷ 7 ∷ []) refl
      (inl (refl, omega arith))

replay-Stores_example :
    ((replay marker counter counter_serializer memory_store 300 (record_of 1 ∷ []) 0 0).0
      ≡ ok (1, 1))
    × Stores marker counter counter_serializer
        (replay marker counter counter_serializer memory_store 300 (record_of 1 ∷ []) 0 0).1
        (1 ∷ [])
unfolding last_version fold_on
replay-Stores_example =
    replay-Stores marker counter counter_serializer memory_store 300 (record_of 1 ∷ []) (1 ∷ []) 0 0
      (one-Stored counter refl, tt) refl

memory_store-IsLog_example : IsLog {M = ℕ} memory_store view
memory_store-IsLog_example = memory_store-IsLog {M = ℕ}

abbrev tick : ℕ → ℕ
tick n = n

-- A store with two events of the counter, of which a load reads the last.
abbrev shelf_of_two : MemoryStore
shelf_of_two = record {
  events = ("app_counter_v1#a", record_of 1 ∷ record_of 2 ∷ []) ∷ [];
  snapshot_interval = 0;
}

two-Stored : Stored marker counter counter_serializer (record_of 2) 2
unfolding running
two-Stored = record {
  bytes = 2 ∷ [];
  unpacked = refl;
  plain = refl;
  decoded = refl;
  versioned = refl;
}

two-Holds :
    Holds marker counter counter_serializer tailed 300 view tailed-IsLog shelf_of_two "a"
      (1 ∷ 2 ∷ [])
unfolding running
two-Holds = (one-Stored counter refl, (two-Stored, tt))

history_lem_example :
    (found : History) × ((history marker counter counter_serializer tailed 300 none "a"
        shelf_of_two).0
      ≡ ok found)
    × Decodes counter counter_serializer found (1 ∷ 2 ∷ [])
    × Holds marker counter counter_serializer tailed 300 view tailed-IsLog
        (history marker counter counter_serializer tailed 300 none "a" shelf_of_two).1
        "a"
        (1 ∷ 2 ∷ [])
history_lem_example =
    history_lem marker counter counter_serializer tailed 300 view tailed-IsLog "a" (1 ∷ 2 ∷ [])
      shelf_of_two refl two-Holds

load_lem_example :
    (load marker counter counter_serializer tailed 300 none "a" shelf_of_two).0 ≡ ok 2
unfolding state_of fold_on last_version running
load_lem_example =
    load_lem marker counter counter_serializer tailed 300 view tailed-IsLog "a" (1 ∷ []) 2 []
      shelf_of_two 2 2 two-Holds refl refl

apply_rejected_example :
    ((apply marker strict counter_serializer memory_store 300 none 0 tick (some "a") shelf).result
      ≡ err (sentinel already_created))
    × Holds marker strict counter_serializer memory_store 300 view memory_store-IsLog
        (apply marker strict counter_serializer memory_store 300 none 0 tick (some "a") shelf).store
        "a"
        (1 ∷ [])
unfolding state_of fold_on last_version check_command running
apply_rejected_example =
    apply_rejected marker strict counter_serializer memory_store 300 view memory_store-IsLog
      (1 ∷ []) 1 1 0 tick "a" shelf refl (one-Stored strict refl, tt) refl refl
      (sentinel already_created) refl

apply_declined_example :
    ((apply marker idle counter_serializer memory_store 300 none 0 tick (some "a") shelf).result
      ≡ ok 1)
    × Holds marker idle counter_serializer memory_store 300 view memory_store-IsLog
        (apply marker idle counter_serializer memory_store 300 none 0 tick (some "a") shelf).store
        "a"
        (1 ∷ [])
unfolding state_of fold_on last_version check_command running is_error
apply_declined_example =
    apply_declined marker idle counter_serializer memory_store 300 view memory_store-IsLog (1 ∷ [])
      1 1 0 tick "a" shelf refl (one-Stored idle refl, tt) refl refl (λ clock a. (a + 1) ∷ [])
      (wrap "idle" (sentinel skip)) refl refl

apply_commits_example :
    ((apply marker counter counter_serializer tailed 300 none 0 tick (some "a") shelf_of_two).result
      ≡ ok 3)
    × Holds marker counter counter_serializer tailed 300 view tailed-IsLog
        (apply marker counter counter_serializer tailed 300 none 0 tick
          (some "a")
          shelf_of_two).store
        "a"
        (1 ∷ 2 ∷ 3 ∷ [])
unfolding state_of fold_on last_version check_command running write_records write_record pack save
apply_commits_example =
    apply_commits marker counter counter_serializer tailed 300 view tailed-IsLog
      counter_serializer-IsSerializer marker-IsCodec (1 ∷ 2 ∷ []) 2 2 0 tick "a" shelf_of_two refl
      two-Holds refl refl (λ clock a. (a + 1) ∷ []) 3 [] (record_of 3 ∷ []) refl refl refl refl refl
      (λ t. refl)

abbrev second : Domain ℕ ℕ String ℕ
second = record counter { event_id = λ e. "b" }

second-own :
    (a : ℕ) (emit : (ℕ → ℕ) → ℕ → List ℕ)
    → check_command second "b" a ≡ ok emit
    → All (λ e. second.event_id e ≡ "b") (emit tick a)
unfolding check_command
second-own a emit h = rw (← ok-injective h) (refl, tt)

apply_isolated_example :
    view
      (apply marker second counter_serializer tailed 300 none 0 tick (some "b") shelf).store
      "app_counter_v1#a"
    ≡ view shelf "app_counter_v1#a"
unfolding qualified_id replace_dots
apply_isolated_example =
    apply_isolated marker second counter_serializer tailed 300 view tailed-IsLog "b"
      "app_counter_v1#a" refl 0 tick "b" second-own none shelf refl

qualified_id_iff_example :
    (qualified_id "app.counter.v1" "a" ≡ qualified_id "app.order.v1" "a")
    ↔ ((replace_dots "app.counter.v1" ≡ replace_dots "app.order.v1") × (◌≡◌ {A = String} "a" "a"))
qualified_id_iff_example =
    qualified_id_iff "app.counter.v1" "app.order.v1" "a" "a" (omega arith) (omega arith)
