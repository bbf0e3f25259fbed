-- ===== src/Serializer/Laws.antt =====
-- The binary serializer as the repository's `Serializer`.
use protosource.Prelude.{false, ◌≡◌, ap}
use protosource.Error.{ok}
use protosource.Compress.{Bytes, is_gzipped}
use protosource.Repository.Types.{Domain}
use protosource.Repository.Stored.{IsSerializer, >>=-eq-ok, ok-injective}
use protosource.Serializer.{Proto, marshal_event, unmarshal_event, binary_serializer}
use protosource.Serializer.Frames.{IsProto, unmarshal-marshal_event, marshal_event-inv}

-- The binary serializer meets what the repository asks of a serializer, if protobuf decodes what
-- it encoded and no encoded `Any` begins with gzip's magic bytes (it begins with a field's tag).
pub binary_serializer-IsSerializer :
    {E Wrapped Message A C M : Type 0} (p : Proto E Wrapped Message) (d : Domain A E C M)
    → IsProto p
    → ((a : Wrapped) (bytes : Bytes) → p.marshal a ≡ ok bytes → is_gzipped bytes ≡ false)
    → IsSerializer d (binary_serializer p d.event_version)
binary_serializer-IsSerializer p d proto plain = record {
  round_trip = λ e r h.
      let (bytes, marshalled, made) = >>=-eq-ok (marshal_event p e) _ h in
      rw (← ok-injective made) (unmarshal-marshal_event p proto e bytes marshalled);
  versioned = λ e r h.
      let (bytes, marshalled, made) = >>=-eq-ok (marshal_event p e) _ h in rw (← ok-injective made);
  plain = λ e r h.
      let (bytes, marshalled, made) = >>=-eq-ok (marshal_event p e) _ h in
      let (a, wrapped, encoded) = marshal_event-inv p e bytes marshalled in
      rw (← ok-injective made) (plain a bytes encoded);
  by_payload = λ r t h. ap (unmarshal_event p) h;
}
