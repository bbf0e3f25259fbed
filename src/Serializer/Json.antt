-- ===== src/Serializer/Json.antt =====
-- serializers/protojsonserializer: events as `Any` messages in JSON. protojson is the parameter.
use protosource.Prelude.{ℕ, false, ◌≡◌, refl, ap, inl, inr, arith}
use protosource.Error.{Result, ok, ◌>>=◌, wrap_err}
use protosource.Compress.{Bytes, is_gzipped}
use protosource.Repository.Types.{Serializer, Domain}
use protosource.Repository.Stored.{IsSerializer, Result-cases, >>=-eq-ok, ok-injective}
use protosource.Serializer.{Proto, asserted}
use protosource.Serializer.Frames.{IsProto}

module _ {E Wrapped Message : Type 0} (p : Proto E Wrapped Message) where
  unfoldable pub marshal_json : E → Result Bytes
  marshal_json e = do
    a ← wrap_err "failed anypb.New(event)" (p.wrap_any e)
    wrap_err "failed protojson.Marshal" (p.marshal a)

  unfoldable pub unmarshal_json : Bytes → Result E
  unmarshal_json bytes = do
    a ← wrap_err "failed protojson.Unmarshal" (p.unmarshal bytes)
    m ← wrap_err "failed anypb.UnmarshalNew" (p.unwrap_any a)
    asserted (p.as_event m)

  -- `Serializer`
  abbrev pub json_serializer : (E → ℕ) → Serializer E
  json_serializer get_version = record {
    marshal_event = λ e. marshal_json e >>= λ bytes.
        ok (record { version = get_version e; payload = bytes; ttl = 0 });
    unmarshal_event = λ r. unmarshal_json r.payload;
  }

  marshal_json-inv :
      (e : E) (bytes : Bytes)
      → marshal_json e ≡ ok bytes
      → (a : Wrapped) × (p.wrap_any e ≡ ok a) × (p.marshal a ≡ ok bytes)
  unfolding marshal_json
  marshal_json-inv e bytes h = elim (Result-cases (p.wrap_any e)) [
    | inr (x, failed) ↦ ground arith
    | inl (a, wrapped) ↦ elim (Result-cases (p.marshal a)) [
      | inr (x, failed) ↦ ground arith
      | inl (out, done) ↦ (a, wrapped, ground arith)
    ]
  ]

  unmarshal-marshal_json :
      IsProto p → (e : E) (bytes : Bytes) → marshal_json e ≡ ok bytes → unmarshal_json bytes ≡ ok e
  unfolding unmarshal_json
  unmarshal-marshal_json proto e bytes h =
      let (a, wrapped, encoded) = marshal_json-inv e bytes h in
      let (m, message, event) = proto.restores_event e a wrapped in
      rw (proto.restores_any a bytes encoded, message, event) refl

  -- The JSON serializer meets what the repository asks of a serializer, if protojson decodes what it
  -- encoded and nothing that it encodes begins with gzip's magic bytes (it begins with a brace).
  pub json_serializer-IsSerializer :
      {A C M : Type 0} (d : Domain A E C M)
      → IsProto p
      → ((a : Wrapped) (bytes : Bytes) → p.marshal a ≡ ok bytes → is_gzipped bytes ≡ false)
      → IsSerializer d (json_serializer d.event_version)
  json_serializer-IsSerializer d proto plain = record {
    round_trip = λ e r h.
        let (bytes, encoded, made) = >>=-eq-ok (marshal_json e) _ h in
        rw (← ok-injective made) (unmarshal-marshal_json proto e bytes encoded);
    versioned = λ e r h.
        let (bytes, encoded, made) = >>=-eq-ok (marshal_json e) _ h in rw (← ok-injective made);
    plain = λ e r h.
        let (bytes, encoded, made) = >>=-eq-ok (marshal_json e) _ h in
        let (a, wrapped, done) = marshal_json-inv e bytes encoded in
        rw (← ok-injective made) (plain a bytes done);
    by_payload = λ r t h. ap unmarshal_json h;
  }
