-- ===== src/Serializer.antt =====
-- serializers/protobinaryserializer: events as protobuf `Any` messages, and streams of them with
-- lengths before them. Protobuf, the writer and the reader are parameters.
pub mod Frames
pub mod Json
pub mod Laws
use protosource.Prelude.{
  ℕ, zero, suc, ◌+◌, ◌*◌, ◌/◌, ◌%◌, Option, none, some, List, [], ◌∷◌, length, two64,
}
use protosource.Error.{Error, Result, ok, err, ◌>>=◌, wrap_err, other}
use protosource.Compress.{Bytes}
use protosource.Repository.Types.{Record, Serializer}

-- anypb and proto: `anypb.New`, `proto.Marshal`, `proto.Unmarshal`, `anypb.UnmarshalNew`, and the
-- assertion that a message is an event.
pub record Proto (E Wrapped Message : Type 0) : Type 0 where
  pub wrap_any : E → Result Wrapped
  pub marshal : Wrapped → Result Bytes
  pub unmarshal : Bytes → Result Wrapped
  pub unwrap_any : Wrapped → Result Message
  pub as_event : Message → Option E

-- `io.Writer` and the `ReadByte` of `bufio.Reader`.
pub record Writer (W : Type 0) : Type 0 where
  pub write : Bytes → W → Result ℕ × W

pub record Reader (R : Type 0) : Type 0 where
  pub read_byte : R → Result ℕ × R

-- The n lowest bytes of a number, the lowest first: `binary.LittleEndian.PutUint64` for n = 8.
unfoldable pub put_bytes : ℕ → ℕ → Bytes
put_bytes zero x = []
put_bytes (suc n) x = x % 256 ∷ put_bytes n (x / 256)

-- `binary.LittleEndian.Uint64`
unfoldable pub get_bytes : Bytes → ℕ
get_bytes [] = 0
get_bytes (b ∷ bytes) = b + 256 * get_bytes bytes

abbrev pub cons_ok : ℕ → Result Bytes → Result Bytes
cons_ok b (ok bytes) = ok (b ∷ bytes)
cons_ok b (err e) = err e

abbrev pub asserted {ℓ} : {E : Type ℓ} → Option E → Result E
asserted none = err (other "message does not implement protosource.Event")
asserted (some e) = ok e

module _ {E Wrapped Message : Type 0} (p : Proto E Wrapped Message) where
  unfoldable pub marshal_event : E → Result Bytes
  marshal_event e = do
    a ← wrap_err "failed anypb.New(event)" (p.wrap_any e)
    wrap_err "failed proto.Marshal" (p.marshal a)

  unfoldable pub unmarshal_event : Bytes → Result E
  unmarshal_event bytes = do
    a ← wrap_err "failed proto.Unmarshal" (p.unmarshal bytes)
    m ← wrap_err "failed anypb.UnmarshalNew" (p.unwrap_any a)
    asserted (p.as_event m)

  -- `Serializer`
  abbrev pub binary_serializer : (E → ℕ) → Serializer E
  binary_serializer get_version = record {
    marshal_event = λ e. marshal_event e >>= λ bytes.
        ok (record { version = get_version e; payload = bytes; ttl = 0 });
    unmarshal_event = λ r. unmarshal_event r.payload;
  }

  module _ {W : Type 0} (writer : Writer W) where
    -- The length, then the bytes.
    unfoldable pub write_frame : Bytes → W → Result ℕ × W
    write_frame bytes w =
        let (headed, w1) = writer.write (put_bytes 8 (length bytes % two64)) w in
        elim headed [
          | err e ↦ (err e, w1)
          | ok _ ↦ let (written, w2) = writer.write bytes w1 in (written >>= λ n. ok (n + 8), w2)
        ]

    -- `Encoder.WriteEvent`
    unfoldable pub write_event : E → W → Result ℕ × W
    unfolding write_frame
    write_event e w = elim (marshal_event e) [ err x ↦ (err x, w) | ok bytes ↦ write_frame bytes w ]

    -- `Encoder.WriteBase64`, with base64's decoder.
    unfoldable pub write_base64 : (Bytes → Result Bytes) → Bytes → W → Result ℕ × W
    unfolding write_frame
    write_base64 decode text w =
        elim (wrap_err "failed base64.StdEncoding.DecodeString" (decode text)) [
          | err x ↦ (err x, w)
          | ok bytes ↦ write_frame bytes w
        ]

  module _ {R : Type 0} (reader : Reader R) where
    -- `readN`; a write to the scratch buffer never fails.
    unfoldable pub read_n : ℕ → R → Result Bytes × R
    read_n zero r = (ok [], r)
    read_n (suc n) r =
        let (read, r1) = reader.read_byte r in
        elim read [
          | err e ↦ (err e, r1)
          | ok b ↦ (let (rest, r2) = read_n n r1 in (cons_ok b rest, r2))
        ]

    -- `Decoder.ReadEvent`
    unfoldable pub read_event : R → Result E × R
    unfolding read_n
    read_event r =
        let (head, r1) = read_n 8 r in
        elim head [
          | err e ↦ (err e, r1)
          | ok bytes ↦
              let (body, r2) = read_n (get_bytes bytes) r1 in (body >>= unmarshal_event, r2)
        ]
