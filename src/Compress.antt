-- ===== src/Compress.antt =====
-- compress.go: gzip compression of record data, with detection by the magic bytes on the way back.
-- The gzip codec is Go's standard library's: a parameter with the laws that the code relies on.
pub mod RoundTrip
use protosource.Prelude.{
  ℕ, Bool, true, false, not, ◌&&◌, ◌||◌, ◌≡◌, List, [], ◌∷◌, length, ltb, ◌==◌, is_positive64,
  if◌then◌else◌,
}
use protosource.Error.{Result, ok, wrap_err}

-- A byte string, by its bytes.
abbrev pub Bytes : Type 0
Bytes = List ℕ

abbrev pub default_compress_threshold : ℕ
default_compress_threshold = 300

unfoldable pub is_gzipped : Bytes → Bool
is_gzipped (a ∷ b ∷ rest) = (a == 0x1f) && (b == 0x8b)
is_gzipped _ = false

-- compress/gzip: a writer that is given the data and closed, and a reader that is read to its end.
pub record Gzip : Type 0 where
  pub deflate : Bytes → Result Bytes
  pub inflate : Bytes → Result Bytes

-- RFC 1952: a gzip stream begins with its magic bytes, and reading gives back what was written.
pub record IsCodec (z : Gzip) : Type 0 where
  pub magic : (bytes out : Bytes) → z.deflate bytes ≡ ok out → is_gzipped out ≡ true
  pub restores : (bytes out : Bytes) → z.deflate bytes ≡ ok out → z.inflate out ≡ ok bytes

module _ (z : Gzip) where
  unfoldable pub maybe_compress : Bytes → ℕ → Result Bytes
  maybe_compress bytes threshold =
      if not (is_positive64 threshold) || ltb (length bytes) threshold
      then ok bytes
      else wrap_err "compress: gzip write" (z.deflate bytes)

  unfoldable pub maybe_decompress : Bytes → Result Bytes
  unfolding is_gzipped
  maybe_decompress bytes =
      if not (is_gzipped bytes)
      then ok bytes
      else wrap_err "compress: gzip reader" (z.inflate bytes)
