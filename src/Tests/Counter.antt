-- ===== src/Tests/Counter.antt =====
-- A small aggregate for the tests of the repository: a counter whose events are its versions, with
-- a serializer and a codec that meet their laws.
use protosource.Prelude.{ℕ, ◌+◌, String, none, some, [], ◌∷◌, ap}
use protosource.Error.{Result, ok, err, other}
use protosource.Compress.{Bytes, Gzip, IsCodec, is_gzipped}
use protosource.Repository.Types.{Record, Serializer, Domain}
use protosource.Repository.Stored.{IsSerializer, ok-injective}

abbrev pub counter : Domain ℕ ℕ String ℕ
counter = record {
  proto_package = "app.counter.v1";
  fresh = 0;
  on = λ e a. ok e;
  get_version = λ a. a;
  message = λ a. a;
  after_on = none;
  snapshot_interval = some 1;
  event_ttl_seconds = some 60;
  projections = none;
  event_id = λ e. "a";
  event_version = λ e. e;
  command_id = λ c. c;
  validate_version = λ c. none;
  proto_validate = λ c. none;
  guard_state = λ c. none;
  evaluate = λ c. none;
  emit_events = λ c. some (λ clock a. (a + 1) ∷ []);
}

abbrev pub read_payload : Bytes → Result ℕ
read_payload (v ∷ []) = ok v
read_payload _ = err (other "bad payload")

abbrev pub record_of : ℕ → Record
record_of v = record { version = v; payload = v ∷ []; ttl = 0 }

abbrev pub counter_serializer : Serializer ℕ
counter_serializer = record {
  marshal_event = λ v. ok (record_of v);
  unmarshal_event = λ r. read_payload r.payload;
}

pub counter_serializer-IsSerializer : IsSerializer counter counter_serializer
unfolding is_gzipped
counter_serializer-IsSerializer = record {
  round_trip = λ v r h. rw (← ok-injective h);
  versioned = λ v r h. rw (← ok-injective h);
  plain = λ v r h. rw (← ok-injective h);
  by_payload = λ r t h. ap read_payload h;
}

abbrev pub after_magic : Bytes → Result Bytes
after_magic (a ∷ b ∷ rest) = ok rest
after_magic _ = err (other "unexpected EOF")

-- A codec that marks its output and compresses nothing.
abbrev pub marker : Gzip
marker = record { deflate = λ bytes. ok (0x1f ∷ 0x8b ∷ bytes); inflate = after_magic }

pub marker-IsCodec : IsCodec marker
unfolding is_gzipped
marker-IsCodec = record {
  magic = λ bytes out h. rw (← ok-injective h);
  restores = λ bytes out h. rw (← ok-injective h);
}
