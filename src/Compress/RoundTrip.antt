-- ===== src/Compress/RoundTrip.antt =====
-- `MaybeCompress` followed by `MaybeDecompress`, as `Repository.Save` and the readers use them.
use protosource.Prelude.{ℕ, ◌≤◌, true, false, ◌≡◌, ◌⊎◌, inl, inr, arith, length, is_positive64}
use protosource.Error.{ok}
use protosource.Compress.{Bytes, Gzip, IsCodec, is_gzipped, maybe_compress, maybe_decompress}

-- The test by which `MaybeCompress` compresses.
abbrev pub IsLarge : Bytes → ℕ → Type 0
IsLarge bytes threshold = (is_positive64 threshold ≡ true) × (threshold ≤ length bytes)

pub maybe_decompress_of_plain :
    (z : Gzip) (bytes : Bytes) → is_gzipped bytes ≡ false → maybe_decompress z bytes ≡ ok bytes
unfolding maybe_decompress
maybe_decompress_of_plain z bytes h = ground arith

module _ (z : Gzip) (codec : IsCodec z) (bytes : Bytes) (threshold : ℕ) (out : Bytes) where
  maybe_decompress_of_deflate : z.deflate bytes ≡ ok out → maybe_decompress z out ≡ ok bytes
  unfolding maybe_decompress
  maybe_decompress_of_deflate h =
      ground (arith, codec.magic bytes out h, codec.restores bytes out h)

  -- With a gzip that meets its laws: what `MaybeCompress` returns for large data comes back whatever
  -- its bytes are, and what it returns for other data if that does not begin with the magic bytes.
  pub decompress-compress :
      maybe_compress z bytes threshold ≡ ok out
      → IsLarge bytes threshold ⊎ (is_gzipped bytes ≡ false)
      → maybe_decompress z out ≡ ok bytes
  unfolding maybe_compress
  decompress-compress h (inl large) = maybe_decompress_of_deflate (ground arith)
  decompress-compress h (inr plain) =
      ground (arith, maybe_decompress_of_deflate, maybe_decompress_of_plain z bytes plain)
