-- ===== src/Tests/Serializer.antt =====
-- The framing of events, with a protobuf, a writer and a reader that are lists of bytes.
use protosource.Prelude.{ℕ, ◌≡◌, refl, subst, some, [], ◌∷◌, ◌++◌, length, two64, ◌<◌, arith}
use protosource.Error.{Result, ok, err, other}
use protosource.Compress.{Bytes}
use protosource.Repository.Stored.{ok-injective}
use protosource.Serializer.{
  Proto, Writer, Reader, marshal_event, write_event, read_event, write_frame, put_bytes,
}
use protosource.Serializer.Frames.{IsProto, IsWriter, IsReader, read_event-write_event}

only_byte : Bytes → Result ℕ
only_byte (a ∷ []) = ok a
only_byte _ = err (other "not one byte")

abbrev one_byte : Proto ℕ ℕ ℕ
one_byte = record {
  wrap_any = λ e. ok e;
  marshal = λ a. ok (a ∷ []);
  unmarshal = only_byte;
  unwrap_any = λ a. ok a;
  as_event = λ m. some m;
}

unmarshal-marshal : (a : ℕ) (bytes : Bytes) → ok (a ∷ []) ≡ ok bytes → only_byte bytes ≡ ok a
unfolding only_byte
unmarshal-marshal a bytes h = rw (← ok-injective h)

one_byte-IsProto : IsProto one_byte
one_byte-IsProto = record {
  restores_any = unmarshal-marshal;
  restores_event = λ e a h. (a, refl, ground arith);
}

abbrev buffer : Writer Bytes
buffer = record { write = λ bytes w. (ok (length bytes), w ++ bytes) }

buffer-IsWriter : IsWriter buffer (λ w. w)
buffer-IsWriter = record { appends = λ bytes w n h. (ground arith, refl) }

next_byte : Bytes → Result ℕ × Bytes
next_byte [] = (err (other "EOF"), [])
next_byte (b ∷ bytes) = (ok b, bytes)

abbrev source : Reader Bytes
source = record { read_byte = next_byte }

takes_next :
    (r : Bytes) (b : ℕ) (bytes : Bytes)
    → r ≡ b ∷ bytes
    → ((next_byte r).0 ≡ ok b) × ((next_byte r).1 ≡ bytes)
unfolding next_byte
takes_next r b bytes h = rw h (refl, refl)

source-IsReader : IsReader source (λ r. r)
source-IsReader = record { takes = takes_next }

read_event-write_event_example :
    (sent : Bytes) × ((write_event one_byte buffer 7 (1 ∷ [])).1 ≡ (1 ∷ []) ++ sent)
    × (9 ≡ length sent)
    × ((rest : Bytes) (r : Bytes)
        → r ≡ sent ++ rest
        → ((read_event one_byte source r).0 ≡ ok 7) × ((read_event one_byte source r).1 ≡ rest))
unfolding write_event marshal_event write_frame put_bytes
read_event-write_event_example =
    read_event-write_event one_byte buffer (λ w. w) buffer-IsWriter source (λ r. r) source-IsReader
      one_byte-IsProto 7 (1 ∷ []) 9
      (λ bytes h. subst (λ l. length l < two64) (ok-injective h) (omega arith)) refl
