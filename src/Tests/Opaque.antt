-- ===== src/Tests/Opaque.antt =====
-- Opaque data of a message that is its own bytes.
use protosource.Prelude.{◌≡◌, refl, inl, arith, length, [], ◌∷◌}
use protosource.Error.{ok}
use protosource.Compress.{Bytes, maybe_compress}
use protosource.Opaque.{
  OpaqueData, AutoPksk, build_options, new_opaque_data, new_opaque_key, rehydrate,
  with_compress_threshold,
}
use protosource.Opaque.RoundTrip.{rehydrate-new_opaque_data}
use protosource.Tests.Counter.{marker, marker-IsCodec}
use protosource.Tests.Dynamo.{clock}

abbrev auto : AutoPksk Bytes
auto = record {
  marshal = λ m. ok m;
  pk = λ m. "order";
  sk = λ m. "7";
  gsi = λ m. ("open", "") ∷ ("NA", "may") ∷ ("", "NA") ∷ [];
}

abbrev packed : OpaqueData
packed = record {
  pk = "order";
  sk = "7";
  body = 0x1f ∷ 0x8b ∷ 7 ∷ [];
  t = 0;
  version = 0;
  gsi = ("open", "") ∷ ("NA", "may") ∷ ("", "NA") ∷ [];
}

rehydrate-new_opaque_data_example :
    (rehydrate marker (λ m. ok (length m)) packed ≡ ok 1)
    × ("order" ≡ (new_opaque_key auto (7 ∷ [])).pk)
    × ("7" ≡ (new_opaque_key auto (7 ∷ [])).sk)
unfolding build_options new_opaque_data maybe_compress
rehydrate-new_opaque_data_example =
    rehydrate-new_opaque_data marker marker-IsCodec clock auto (7 ∷ [])
      (with_compress_threshold 1 ∷ []) packed (7 ∷ []) (λ m. ok (length m)) refl
      (inl (refl, omega arith)) refl
