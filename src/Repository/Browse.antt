-- ===== src/Repository/Browse.antt =====
-- `Repository.History`, which hands out the records of an aggregate decompressed.
use protosource.Prelude.{ℕ, String, ◌≡◌, refl, false, none, List, [], ◌∷◌, str_eq, inl, inr}
use protosource.Error.{ok}
use protosource.Compress.{Gzip}
use protosource.Compress.RoundTrip.{maybe_decompress_of_plain}
use protosource.Repository.Types.{History, Store, Serializer, Domain}
use protosource.Repository.Base.{qualified_id}
use protosource.Repository.Run.{decompress_all, decompressed, history}
use protosource.Repository.Stored.{Stores}
use protosource.Repository.Log.{IsLog, Holds}

-- Records that the serializer reads as they are, of these events.
abbrev pub Decodes : {A E C M : Type 0} → Domain A E C M → Serializer E → History → List E → Type 0
Decodes d serializer [] [] = Unit
Decodes d serializer (r ∷ rs) (e ∷ es) =
    (serializer.unmarshal_event r ≡ ok e)
    × (r.version ≡ d.event_version e)
    × Decodes d serializer rs es
Decodes d serializer _ _ = ⊥

module _ (z : Gzip) {A E C M S : Type 0} (d : Domain A E C M) (serializer : Serializer E)
    (store : Store S M) (threshold : ℕ) where
  decompress_all-Stores :
      (rs : History) (es : List E)
      → Stores z d serializer rs es
      → ((decompress_all z d serializer store threshold rs).0 ≡ ok tt)
        × Decodes d serializer (decompress_all z d serializer store threshold rs).1 es
        × Stores z d serializer (decompress_all z d serializer store threshold rs).1 es
  unfolding decompress_all
  decompress_all-Stores [] [] h = (refl, tt, tt)
  decompress_all-Stores [] (e ∷ es) h = absurd h
  decompress_all-Stores (r ∷ rs) [] h = absurd h
  decompress_all-Stores (r ∷ rs) (e ∷ es) (p, h) =
      let (done, decoded, kept) = decompress_all-Stores rs es h in
      rw (p.unpacked, decompress_all)
        (
          done,
          (p.decoded, p.versioned, decoded),
          (
            record {
              bytes = p.bytes;
              unpacked = maybe_decompress_of_plain z p.bytes p.plain;
              plain = p.plain;
              decoded = p.decoded;
              versioned = p.versioned;
            },
            kept,
          ),
        )

  module _ (view : S → String → History) (log : IsLog store view) where
    decompressed_lem :
        (id : String) (rs : History) (es : List E) (s : S)
        → Stores z d serializer rs es
        → view s (qualified_id d.proto_package id) ≡ rs
        → (found : History) × ((decompressed z d serializer store threshold id (ok rs) s).0
            ≡ ok found)
          × Decodes d serializer found es
          × Holds z d serializer store threshold view log
              (decompressed z d serializer store threshold id (ok rs) s).1
              id
              es
    decompressed_lem id rs es s h v =
        let (done, decoded, kept) = decompress_all-Stores rs es h in
        let after = (decompress_all z d serializer store threshold rs).1 in
        (
          after,
          rw (done, decompressed) refl,
          decoded,
          rw (done, decompressed)
              (elim (log.through_self (qualified_id d.proto_package id) after s) [
                | inl own ↦ rw own kept
                | inr copy ↦ rw copy (rw v h)
              ]),
        )

    -- In a live context and a store that is a log, with or without `LoadTail`, for an id that is not empty: `History` gives one
    -- record for each event that the store holds, in their order, which the serializer reads as it
    -- is; and the store still holds the events.
    pub history_lem :
        (id : String) (es : List E) (s : S)
        → str_eq id "" ≡ false
        → Holds z d serializer store threshold view log s id es
        → (found : History) × ((history z d serializer store threshold none id s).0 ≡ ok found)
          × Decodes d serializer found es
          × Holds z d serializer store threshold view log
              (history z d serializer store threshold none id s).1
              id
              es
    unfolding history
    history_lem id es s given h =
        let key = qualified_id d.proto_package id in
        rw given (
          rw (log.load_result key s) (
            decompressed_lem id (view s key) es (store.load none key s).1 h
              (log.load_view key key s)))
