-- ===== src/Opaque.antt =====
-- gen/opaquedata: aggregates as records of a key-value store, with keys for its indexes. The clock is
-- the argument `expiry`, `time.Now().Add(ttl).Unix()` for a time to live.
pub mod Table
pub mod Cosmos
pub mod Written
pub mod RoundTrip
use protosource.Prelude.{Option, ℕ, String, List, [], ◌∷◌, is_positive64, if◌then◌else◌}
use protosource.Error.{Error, Result, ok, ◌>>=◌, other, wrap_err}
use protosource.Compress.{Bytes, Gzip, default_compress_threshold, maybe_compress, maybe_decompress}

-- opaquedatav1.OpaqueData, with the keys of the indexes 1 to 20 in their order.
pub record OpaqueData : Type 0 where
  pub pk : String
  pub sk : String
  pub body : Bytes
  pub t : ℕ
  pub version : ℕ
  pub gsi : List (String × String)

-- AutoPKSK: `proto.Marshal` of a message, and its keys.
pub record AutoPksk (M : Type 0) : Type 0 where
  pub marshal : M → Result Bytes
  pub pk : M → String
  pub sk : M → String
  pub gsi : M → List (String × String)

pub record OpaqueOptions : Type 0 where
  pub ttl : ℕ
  pub compress_threshold : ℕ

abbrev pub OpaqueOption : Type 0
OpaqueOption = OpaqueOptions → OpaqueOptions

abbrev pub with_ttl : ℕ → OpaqueOption
with_ttl ttl o = record o { ttl = ttl }

abbrev pub with_compress_threshold : ℕ → OpaqueOption
with_compress_threshold threshold o = record o { compress_threshold = threshold }

abbrev apply_options : List OpaqueOption → OpaqueOptions → OpaqueOptions
apply_options [] o = o
apply_options (option ∷ opts) o = apply_options opts (option o)

unfoldable pub build_options : List OpaqueOption → OpaqueOptions
build_options opts =
    apply_options opts (record { ttl = 0; compress_threshold = default_compress_threshold })

unfoldable pub get_ttl : (ℕ → ℕ) → ℕ → ℕ
get_ttl expiry ttl = if is_positive64 ttl then expiry ttl else 0

module _ (z : Gzip) (expiry : ℕ → ℕ) where
  -- `NewOpaqueDataFromProto`
  unfoldable pub new_opaque_data :
      {M : Type 0} → AutoPksk M → M → List OpaqueOption → Result OpaqueData
  unfolding build_options get_ttl
  new_opaque_data auto msg opts = do
    marshalled ← wrap_err "opaquedata: marshal" (auto.marshal msg)
    body ←
        wrap_err "opaquedata: compress"
          (maybe_compress z marshalled (build_options opts).compress_threshold)
    ok (record {
      pk = auto.pk msg;
      sk = auto.sk msg;
      body = body;
      t = get_ttl expiry (build_options opts).ttl;
      version = 0;
      gsi = auto.gsi msg;
    })

-- `NewOpaqueKeyFromProto`
unfoldable pub new_opaque_key : {M : Type 0} → AutoPksk M → M → OpaqueData
new_opaque_key auto msg = record {
  pk = auto.pk msg;
  sk = auto.sk msg;
  body = [];
  t = 0;
  version = 0;
  gsi = [];
}

-- `ReHydrate` into a message that makes itself from the bytes.
unfoldable pub rehydrate : {M : Type 0} → Gzip → (Bytes → Result M) → OpaqueData → Result M
rehydrate z hydrate od = do
  body ← wrap_err "opaquedata: decompress" (maybe_decompress z od.body)
  hydrate body

pub data SortOperator : Type 0 where
  equal : SortOperator
  lt : SortOperator
  le : SortOperator
  gt : SortOperator
  ge : SortOperator
  between : SortOperator
  begins_with : SortOperator
  -- Any other int.
  unknown : ℕ → SortOperator

pub record SortCondition : Type 0 where
  pub operator : SortOperator
  pub value : String
  pub value2 : String

-- `QueryOptions`: the index, 0 for the main table.
pub record QueryOptions : Type 0 where
  pub gsi_index : ℕ

-- `ErrNotFound`
abbrev pub err_not_found : Error
err_not_found = other "opaquedata: not found"

-- OpaqueStore, over a database in state S. A query reads pages; one that runs on fuel is `none` where
-- the fuel does not last.
pub record OpaqueStore (S : Type 0) : Type 0 where
  pub put : OpaqueData → S → Result (Unit {0}) × S
  pub get : String → String → S → Result OpaqueData
  pub delete : String → String → S → Result (Unit {0}) × S
  pub query :
      String
      → String
      → String
      → Option SortCondition
      → QueryOptions
      → S
      → Option (Result (List OpaqueData))
