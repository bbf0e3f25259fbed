-- ===== src/Repository/Stored.antt =====
-- Which events the records of a store stand for, and the two loops between them: `Save` writes the
-- records of events, `loadAggregateVersion` replays records.
use protosource.Prelude.{
  ℕ, zero, suc, drop, length, ◌≡◌, refl, false, ◌⊎◌, inl, inr, some, none, List, [], ◌∷◌, ◌++◌,
  arith, is_positive64, Bool-cases, map, ◌∙◌, ap, subst, add64, Option,
}
use protosource.Error.{Error, Result, ok, err, ◌>>=◌}
use protosource.Compress.{Bytes, Gzip, IsCodec, is_gzipped, maybe_compress, maybe_decompress}
use protosource.Compress.RoundTrip.{decompress-compress, maybe_decompress_of_plain}
use protosource.Repository.Types.{Record, History, Store, Serializer, Domain}
use protosource.Repository.Base.{fold_on, last_version}
use protosource.Repository.Run.{
  with_ttl, read_record, replay, write_record, write_records, pack, stamp, stamp_by,
}

-- What a serializer does: an event comes back from its record, which carries the event's version;
-- only the payload is read; and no payload begins with the magic bytes of gzip (a protobuf message
-- begins with a field's tag, of which 0x1f is none, and a JSON one with a brace).
pub record IsSerializer {A E C M : Type 0} (d : Domain A E C M) (serializer : Serializer E)
    : Type 0 where
  pub round_trip :
      (e : E) (r : Record) → serializer.marshal_event e ≡ ok r → serializer.unmarshal_event r ≡ ok e
  pub versioned :
      (e : E) (r : Record) → serializer.marshal_event e ≡ ok r → r.version ≡ d.event_version e
  pub plain :
      (e : E) (r : Record) → serializer.marshal_event e ≡ ok r → is_gzipped r.payload ≡ false
  pub by_payload :
      (r t : Record)
      → r.payload ≡ t.payload
      → serializer.unmarshal_event r ≡ serializer.unmarshal_event t

module _ (z : Gzip) {A E C M : Type 0} (d : Domain A E C M) (serializer : Serializer E) where
  -- The record decodes to the event, and would do so again after it was decompressed in place.
  pub record Stored (r : Record) (e : E) : Type 0 where
    pub bytes : Bytes
    pub unpacked : maybe_decompress z r.payload ≡ ok bytes
    pub plain : is_gzipped bytes ≡ false
    pub decoded : serializer.unmarshal_event (record r { payload = bytes }) ≡ ok e
    pub versioned : r.version ≡ d.event_version e

  abbrev pub Stores : History → List E → Type 0
  Stores [] [] = Unit
  Stores (r ∷ rs) (e ∷ es) = Stored r e × Stores rs es
  Stores _ _ = ⊥

  pub Stores-append :
      (rs ts : History) (es fs : List E)
      → Stores rs es
      → Stores ts fs
      → Stores (rs ++ ts) (es ++ fs)
  Stores-append [] ts [] fs h k = k
  Stores-append (r ∷ rs) ts (e ∷ es) fs (p, h) k = (p, Stores-append rs ts es fs h k)
  Stores-append [] ts (e ∷ es) fs h k = absurd h
  Stores-append (r ∷ rs) ts [] fs h k = absurd h

  pub length-Stores : (rs : History) (es : List E) → Stores rs es → length rs ≡ length es
  length-Stores [] [] h = refl
  length-Stores (r ∷ rs) (e ∷ es) (p, h) = omega (arith, length-Stores rs es h)
  length-Stores [] (e ∷ es) h = absurd h
  length-Stores (r ∷ rs) [] h = absurd h

  pub Stores-drop :
      (n : ℕ) (rs : History) (es : List E) → Stores rs es → Stores (drop n rs) (drop n es)
  Stores-drop zero rs es h = h
  Stores-drop (suc n) [] [] h = tt
  Stores-drop (suc n) (r ∷ rs) (e ∷ es) (p, h) = Stores-drop n rs es h
  Stores-drop (suc n) [] (e ∷ es) h = absurd h
  Stores-drop (suc n) (r ∷ rs) [] h = absurd h

pub >>=-eq-ok {ℓ} :
    {X Y : Type ℓ} (m : Result X) (f : X → Result Y) {y : Y}
    → (m >>= f) ≡ ok y
    → (x : X) × (m ≡ ok x) × (f x ≡ ok y)
>>=-eq-ok (ok x) f h = (x, refl, h)
>>=-eq-ok (err e) f h = cc

pub ok-injective {ℓ} : {X : Type ℓ} {x y : X} → ok x ≡ ok y → x ≡ y
ok-injective h = cc

pub Result-cases {ℓ} :
    {X : Type ℓ} (m : Result X) → ((x : X) × (m ≡ ok x)) ⊎ ((e : Error) × (m ≡ err e))
Result-cases (ok x) = inl (x, refl)
Result-cases (err e) = inr (e, refl)

module _ (z : Gzip) {A E C M S : Type 0} (d : Domain A E C M) (serializer : Serializer E)
    (store : Store S M) (threshold : ℕ) where
  -- The record after it was read stands for the same event.
  read_record_lem :
      (r : Record) (e : E) (a b : A)
      → Stored z d serializer r e
      → d.on e a ≡ ok b
      → ((read_record z d serializer store threshold r a).0 ≡ ok b)
        × Stored z d serializer (read_record z d serializer store threshold r a).1 e
  unfolding read_record
  read_record_lem r e a b h on =
      rw (h.unpacked, read_record)
        (rw h.decoded (
          rw on (
            refl,
            record {
              bytes = h.bytes;
              unpacked = maybe_decompress_of_plain z h.bytes h.plain;
              plain = h.plain;
              decoded = h.decoded;
              versioned = h.versioned;
            },
          )))

  -- Where the fold over the events succeeds, replaying their records gives the same aggregate with
  -- the last event's version, and leaves records of the same events.
  pub replay-Stores :
      (rs : History) (es : List E) (a : A) (v : ℕ) {b : A}
      → Stores z d serializer rs es
      → fold_on d es a ≡ ok b
      → ((replay z d serializer store threshold rs a v).0 ≡ ok (b, last_version d es v))
        × Stores z d serializer (replay z d serializer store threshold rs a v).1 es
  unfolding replay fold_on last_version
  replay-Stores [] [] a v h f = (ground arith, tt)
  replay-Stores [] (e ∷ es) a v h f = absurd h
  replay-Stores (r ∷ rs) [] a v h f = absurd h
  replay-Stores (r ∷ rs) (e ∷ es) a v {b} (p, h) f =
      let (a', on, f') = >>=-eq-ok (d.on e a) (fold_on d es) f in
      let (read, kept) = read_record_lem r e a a' p on in
      let (rest, kept') = replay-Stores rs es a' r.version h f' in
      rw (read, replay) (rest ∙ ap (λ w. ok (b, last_version d es w)) p.versioned, (kept, kept'))

module _ {A E C M : Type 0} (d : Domain A E C M) (serializer : Serializer E)
    (laws : IsSerializer d serializer) (z : Gzip) (codec : IsCodec z) where
  -- A record whose payload is that of a marshalled event, packed or not, stands for the event.
  packed-Stored :
      (e : E) (r : Record) (out : Bytes) (t : ℕ)
      → serializer.marshal_event e ≡ ok r
      → maybe_decompress z out ≡ ok r.payload
      → Stored z d serializer (record r { payload = out; ttl = t }) e
  packed-Stored e r out t m u = record {
    bytes = r.payload;
    unpacked = u;
    plain = laws.plain e r m;
    decoded = laws.by_payload _ r refl ∙ laws.round_trip e r m;
    versioned = laws.versioned e r m;
  }

  module _ {S : Type 0} (store : Store S M) (threshold : ℕ) where
    -- What packing leaves of a record with a plain payload.
    pack_lem :
        (m r : Record)
        → is_gzipped m.payload ≡ false
        → pack z d serializer store threshold m ≡ ok r
        → (out : Bytes) × (record m { payload = out } ≡ r) × (maybe_decompress z out ≡ ok m.payload)
    unfolding pack
    pack_lem m r plain h = elim (Bool-cases (is_positive64 threshold)) [
      | inl on ↦ elim (Result-cases (maybe_compress z m.payload threshold)) [
        | inl (out, done) ↦ (
          out,
          ground arith,
          decompress-compress z codec m.payload threshold out done (inr plain),
        )
        | inr (e, failed) ↦ ground arith
      ]
      | inr off ↦ (m.payload, ground arith, maybe_decompress_of_plain z m.payload plain)
    ]

    write_record_lem :
        (e : E) (r : Record) (t : ℕ)
        → write_record z d serializer store threshold e ≡ ok r
        → Stored z d serializer r e × Stored z d serializer (with_ttl t r) e
    unfolding write_record
    write_record_lem e r t w =
        let (m, marshalled, rest) = >>=-eq-ok (serializer.marshal_event e) _ w in
        let (out, same, u) = pack_lem m r (laws.plain e m marshalled) rest in
        rw (← same) (packed-Stored e m out m.ttl marshalled u, packed-Stored e m out t marshalled u)

    write_records_lem :
        (es : List E) (rs : History) (t : ℕ)
        → write_records z d serializer store threshold es ≡ ok rs
        → Stores z d serializer rs es × Stores z d serializer (map (with_ttl t) rs) es
    unfolding write_records
    write_records_lem [] [] t w = (tt, tt)
    write_records_lem [] (r ∷ rs) t w = cc
    write_records_lem (e ∷ es) rs t w =
        let (r, one, rest) = >>=-eq-ok (write_record z d serializer store threshold e) _ w in
        let (rs', more, same) =
          >>=-eq-ok (write_records z d serializer store threshold es) _ rest in
        let (p, q) = write_record_lem e r t one in
        let (ps, qs) = write_records_lem es rs' t more in
        subst
          (λ x.
            Stores z d serializer x (e ∷ es) × Stores z d serializer (map (with_ttl t) x) (e ∷ es))
          (ok-injective same) ((p, ps), (q, qs))

    stamp_by-Stores :
        (ttl : Option ℕ) (es : List E) (rs : History) (now : ℕ)
        → write_records z d serializer store threshold es ≡ ok rs
        → Stores z d serializer (stamp_by ttl now rs) es
    unfolding stamp_by
    stamp_by-Stores none es rs now w = (write_records_lem es rs 0 w).0
    stamp_by-Stores (some seconds) es rs now w = elim (Bool-cases (is_positive64 seconds)) [
      | inl on ↦ rw on (write_records_lem es rs (add64 now seconds) w).1
      | inr off ↦ rw off (write_records_lem es rs 0 w).0
    ]

    -- The records that `Save` hands to the store stand for the events, stamped or not.
    pub stamp-Stores :
        (es : List E) (rs : History) (now : ℕ)
        → write_records z d serializer store threshold es ≡ ok rs
        → Stores z d serializer (stamp z d serializer store threshold now rs) es
    unfolding stamp
    stamp-Stores es rs now w = stamp_by-Stores d.event_ttl_seconds es rs now w
