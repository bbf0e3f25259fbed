-- ===== src/Serializer/Frames.antt =====
-- What `Encoder` writes, `Decoder` reads.
use native.Mathlib.Numerals.{unary_clauses}
use protosource.Prelude.{
  ℕ, zero, suc, ◌≡◌, refl, ap, subst, ◌∙◌, inl, inr, ◌*◌, ◌/◌, ◌%◌, ◌<◌, ◌^◌, some, [], ◌∷◌, ◌++◌,
  length, two64, arith, append_assoc, length-append,
}
use protosource.Error.{ok}
use protosource.Compress.{Bytes}
use protosource.Repository.Stored.{Result-cases, ok-injective}
use protosource.Serializer.{
  Proto, Writer, Reader, put_bytes, get_bytes, marshal_event, unmarshal_event, read_n, write_frame,
  write_event, read_event,
}

quotient_lt : (x m : ℕ) → x < m * 256 → x / 256 < m
quotient_lt x m h = omega arith

-- A number below 256 ^ n is what its n bytes say.
get-put_bytes : (n x : ℕ) → x < 256 ^ n → get_bytes (put_bytes n x) ≡ x
unfolding get_bytes put_bytes
get-put_bytes zero x h = omega arith
get-put_bytes (suc n) x h =
    let below = get-put_bytes n (x / 256) (quotient_lt x (256 ^ n) (simp unary_clauses at h)) in
    omega arith

length-put_bytes : (n x : ℕ) → length (put_bytes n x) ≡ n
unfolding put_bytes
length-put_bytes zero x = refl
length-put_bytes (suc n) x = ap suc (length-put_bytes n (x / 256))

-- What the decoder relies on in protobuf: an encoded event decodes to itself.
pub record IsProto {E Wrapped Message : Type 0} (p : Proto E Wrapped Message) : Type 0 where
  pub restores_any :
      (a : Wrapped) (bytes : Bytes) → p.marshal a ≡ ok bytes → p.unmarshal bytes ≡ ok a
  pub restores_event :
      (e : E) (a : Wrapped)
      → p.wrap_any e ≡ ok a
      → (m : Message) × (p.unwrap_any a ≡ ok m) × (p.as_event m ≡ some e)

-- `io.Writer`: a write that reports no error wrote all its bytes after the bytes before.
pub record IsWriter {W : Type 0} (writer : Writer W) (written : W → Bytes) : Type 0 where
  pub appends :
      (bytes : Bytes) (w : W) (n : ℕ)
      → (writer.write bytes w).0 ≡ ok n
      → (n ≡ length bytes) × (written (writer.write bytes w).1 ≡ written w ++ bytes)

-- `ReadByte` takes the next byte that is left.
pub record IsReader {R : Type 0} (reader : Reader R) (left : R → Bytes) : Type 0 where
  pub takes :
      (r : R) (b : ℕ) (bytes : Bytes)
      → left r ≡ b ∷ bytes
      → ((reader.read_byte r).0 ≡ ok b) × (left (reader.read_byte r).1 ≡ bytes)

abbrev pub frame : Bytes → Bytes
frame bytes = put_bytes 8 (length bytes % two64) ++ bytes

size_of_head :
    (bytes : Bytes)
    → length bytes < two64
    → get_bytes (put_bytes 8 (length bytes % two64)) ≡ length bytes
size_of_head bytes short = get-put_bytes 8 (length bytes % two64) (omega arith) ∙ omega arith

module _ {E Wrapped Message : Type 0} (p : Proto E Wrapped Message) where
  pub marshal_event-inv :
      (e : E) (bytes : Bytes)
      → marshal_event p e ≡ ok bytes
      → (a : Wrapped) × (p.wrap_any e ≡ ok a) × (p.marshal a ≡ ok bytes)
  unfolding marshal_event
  marshal_event-inv e bytes h = elim (Result-cases (p.wrap_any e)) [
    | inl (a, wrapped) ↦ elim (Result-cases (p.marshal a)) [
      | inl (out, done) ↦ (a, wrapped, ground arith)
      | inr (x, failed) ↦ ground arith
    ]
    | inr (x, failed) ↦ ground arith
  ]

  pub unmarshal-marshal_event :
      (ax : IsProto p) (e : E) (bytes : Bytes)
      → marshal_event p e ≡ ok bytes
      → unmarshal_event p bytes ≡ ok e
  unfolding unmarshal_event
  unmarshal-marshal_event ax e bytes h =
      let (a, wrapped, marshalled) = marshal_event-inv e bytes h in
      let (m, unwrapped, is_event) = ax.restores_event e a wrapped in
      rw (ax.restores_any a bytes marshalled, unwrapped, is_event) refl

  module _ {R : Type 0} (reader : Reader R) (left : R → Bytes) (ax : IsReader reader left) where
    read_n-lem :
        (bytes rest : Bytes) (r : R)
        → left r ≡ bytes ++ rest
        → ((read_n p reader (length bytes) r).0 ≡ ok bytes)
          × (left (read_n p reader (length bytes) r).1 ≡ rest)
    unfolding read_n
    read_n-lem [] rest r h = (refl, h)
    read_n-lem (b ∷ bytes) rest r h =
        let (read, less) = ax.takes r b (bytes ++ rest) h in
        let (body, after) = read_n-lem bytes rest (reader.read_byte r).1 less in
        rw (read, body) (refl, after)

    read_n_of_length :
        (n : ℕ) (bytes rest : Bytes) (r : R)
        → length bytes ≡ n
        → left r ≡ bytes ++ rest
        → ((read_n p reader n r).0 ≡ ok bytes) × (left (read_n p reader n r).1 ≡ rest)
    read_n_of_length n bytes rest r l h =
        subst (λ k. ((read_n p reader k r).0 ≡ ok bytes) × (left (read_n p reader k r).1 ≡ rest)) l
          (read_n-lem bytes rest r h)

    -- A frame is read as its event, up to its end.
    read_event-frame :
        (proto : IsProto p) (e : E) (bytes rest : Bytes) (r : R)
        → marshal_event p e ≡ ok bytes
        → length bytes < two64
        → left r ≡ frame bytes ++ rest
        → ((read_event p reader r).0 ≡ ok e) × (left (read_event p reader r).1 ≡ rest)
    unfolding read_event
    read_event-frame proto e bytes rest r h short l =
        let head = put_bytes 8 (length bytes % two64) in
        let (read, less) =
          read_n_of_length 8 head (bytes ++ rest) r (length-put_bytes 8 _)
            (l ∙ append_assoc head bytes rest) in
        let (body, after) = read_n-lem bytes rest (read_n p reader 8 r).1 less in
        rw
          (
            read,
            size_of_head bytes short,
            body,
            unmarshal-marshal_event proto e bytes h,
            read_event,
          )
          (refl, after)

  module _ {W : Type 0} (writer : Writer W) (written : W → Bytes)
      (ax : IsWriter writer written) where
    write_frame-lem :
        (bytes : Bytes) (w : W) (n : ℕ)
        → (write_frame p writer bytes w).0 ≡ ok n
        → (n ≡ length (frame bytes))
          × (written (write_frame p writer bytes w).1 ≡ written w ++ frame bytes)
    unfolding write_frame
    write_frame-lem bytes w n h =
        let head = put_bytes 8 (length bytes % two64) in
        elim (Result-cases (writer.write head w).0) [
          | inr (x, failed) ↦ ground arith
          | inl (k, headed) ↦ elim (Result-cases (writer.write bytes (writer.write head w).1).0) [
            | inr (x, failed) ↦ ground arith
            | inl (m, wrote) ↦
                let (_, first) = ax.appends head w k headed in
                let (all, second) = ax.appends bytes (writer.write head w).1 m wrote in
                let sized = ok-injective (rw (headed, wrote, write_frame) at h) in
                let total = length-append head bytes in
                let eight = length-put_bytes 8 (length bytes % two64) in
                (
                  omega arith,
                  rw (headed, write_frame)
                      (second ∙ ap (λ l. l ++ bytes) first ∙ append_assoc (written w) head bytes),
                )
          ]
        ]

    -- With a protobuf, a writer and a reader that meet their laws, for an event whose encoding is
    -- shorter than 2 ^ 64 bytes: if `WriteEvent` succeeds, it has appended as many bytes as it
    -- reports, and where these stand at the front of what is left to read, `ReadEvent` returns the
    -- event and leaves what follows them.
    pub read_event-write_event :
        {R : Type 0} (reader : Reader R) (left : R → Bytes)
        → IsReader reader left
        → IsProto p
        → (e : E) (w : W) (n : ℕ)
        → ((bytes : Bytes) → marshal_event p e ≡ ok bytes → length bytes < two64)
        → (write_event p writer e w).0 ≡ ok n
        → (sent : Bytes) × (written (write_event p writer e w).1 ≡ written w ++ sent)
          × (n ≡ length sent)
          × ((rest : Bytes) (r : R)
              → left r ≡ sent ++ rest
              → ((read_event p reader r).0 ≡ ok e) × (left (read_event p reader r).1 ≡ rest))
    unfolding write_event
    read_event-write_event reader left reads proto e w n short h =
        elim (Result-cases (marshal_event p e)) [
          | inr (x, failed) ↦ ground arith
          | inl (bytes, marshalled) ↦
              let (size, wrote) = write_frame-lem bytes w n (rw (marshalled, write_event) at h) in
              (
                frame bytes,
                rw (marshalled, write_event) wrote,
                size,
                λ rest r l.
                    read_event-frame reader left reads proto e bytes rest r marshalled
                      (short bytes marshalled) l,
              )
        ]
