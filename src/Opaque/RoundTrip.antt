-- ===== src/Opaque/RoundTrip.antt =====
-- `NewOpaqueDataFromProto` followed by `ReHydrate`.
use protosource.Prelude.{ℕ, ◌≡◌, ◌⊎◌, false, List, inl, inr, refl}
use protosource.Error.{Result, ok}
use protosource.Compress.{Bytes, Gzip, IsCodec, is_gzipped, maybe_compress}
use protosource.Compress.RoundTrip.{IsLarge, decompress-compress}
use protosource.Repository.Stored.{Result-cases, ok-injective}
use protosource.Opaque.{
  OpaqueData, AutoPksk, OpaqueOption, build_options, new_opaque_data, new_opaque_key, rehydrate,
}

module _ (z : Gzip) (codec : IsCodec z) (expiry : ℕ → ℕ) {M N : Type 0} where
  -- What opaque data was made from, `ReHydrate` makes the target from: the marshalled bytes, if they
  -- are large enough to be compressed or do not begin with the magic bytes of gzip. The keys of the
  -- data are those of `NewOpaqueKeyFromProto`.
  pub rehydrate-new_opaque_data :
      (auto : AutoPksk M) (msg : M) (opts : List OpaqueOption) (od : OpaqueData) (bytes : Bytes)
      → (hydrate : Bytes → Result N) → auto.marshal msg ≡ ok bytes
      → IsLarge bytes (build_options opts).compress_threshold ⊎ (is_gzipped bytes ≡ false)
      → new_opaque_data z expiry auto msg opts ≡ ok od
      → (rehydrate z hydrate od ≡ hydrate bytes)
        × (od.pk ≡ (new_opaque_key auto msg).pk)
        × (od.sk ≡ (new_opaque_key auto msg).sk)
  unfolding rehydrate new_opaque_data new_opaque_key
  rehydrate-new_opaque_data auto msg opts od bytes hydrate marshalled fits made =
      elim (Result-cases (maybe_compress z bytes (build_options opts).compress_threshold)) [
        | inl (out, packed) ↦
            let result = ok-injective (rw (marshalled, packed, new_opaque_data) at made) in
            let body = decompress-compress z codec bytes _ out packed fits in
            rw (← result) (rw (body, rehydrate) refl, refl, refl)
        | inr (e, failed) ↦
            absurd (let bad = rw (marshalled, failed, new_opaque_data) at made in cc)
      ]
