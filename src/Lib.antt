-- ===== src/Lib.antt =====
-- A verification library for protosource.go and the code around it: event sourcing over protobuf
-- messages.
--
-- The program. A `Repository` (protosource.go) keeps, for every aggregate, the history of its
-- events in a `Store`. `Apply` loads the aggregate by replaying the history, passes the command
-- through its checks, lets the command emit events, saves them, and materializes the aggregate and
-- its projections where the store can keep them. `Load` and `History` only read. Records are
-- compressed on the way to the store (compress.go) and encoded by a serializer (serializers/).
-- Generated code (gen/example/app/order/v1 is the example here) gives an aggregate its `On`, its
-- commands and their checks, and emits a snapshot at every fiftieth version. The `Router`
-- (router.go) finds the handler of a request.
--
-- The files.
-- - Prelude: the names that all files share; Prelude/Words has Go's int64 and int32 as bit patterns,
--   numbers below 2 ^ 64 and 2 ^ 32 with the wrap-around written out; Prelude/Dict has Go's maps as
--   association lists with one entry for a key.
-- - Error: Go's error values, `errors.Is`, and results.
-- - Compress: `IsGzipped`, `MaybeCompress`, `MaybeDecompress`. Gzip is the parameter `Gzip`, with
--   the laws `IsCodec`.
-- - Repository: Types has the interfaces of protosource.go, the optional ones as fields that are
--   options. Base and Run have `qualifiedID`, `loadAggregateVersion`, `loadHistory`, `Load`,
--   `History`, `Save` and `Apply`, step by step. Stored, Log and Views relate records to the events
--   that they stand for; `IsLog` and `IsSerializer` are the interfaces to stores and serializers;
--   `loaded_part` is what a load reads of a history, the last events in a store with `LoadTail`.
--   Commit and Isolation are about `Apply` as a whole, Browse about `History`, and Keys
--   about the keys of histories.
-- - Store/Memory: stores/memorystore, as a `Store` and as an `IsLog`.
-- - Store/Sql: stores/mysqlstore, `Save` and `Load`. database/sql and the server are a parameter, and
--   a statement is given by what its text says.
-- - Store/Bolt: stores/boltdbstore. go.etcd.io/bbolt is the parameter `Bbolt`, a database of pairs of
--   byte strings in nested buckets, with the laws `IsBbolt`; `bbolt.Open` of a shard is the parameter
--   `open_file`. Keys has the big-endian keys and their order, Index the index of the shards with
--   `New` and `Close`, Run `Save`, `Load` and `LoadTail`. Capacity, Start and Assigned are about the
--   index, Written, Saved, History and Log about the histories, Tail about `LoadTail`.
-- - Dynamo: what the stores use of the AWS client for DynamoDB, the parameter `Client`, with the laws
--   `IsPaged` of queries, and the loop over pages. Opaque: gen/opaquedata, aggregates as opaque data;
--   Opaque/Table is the store of gen/opaquedata/dynamo, Written its items, RoundTrip `ReHydrate`.
--   Opaque/Cosmos is the store of gen/opaquedata/cosmos: Attributes its guard on names, Accepted the
--   names it accepts, Sorting the sort of its answers, Keys where the sort keys stand, Documents its
--   documents, Answers its queries.
-- - Store/Dynamo: stores/dynamodbstore/dynamodbstore.go. Save is about the batches and `IsTransactional`,
--   Tail and Read about `Load` and `LoadTail`. strconv and the clock are parameters.
-- - Store/Cosmos: stores/cosmosdbstore/cosmosdbstore.go. The container client, with a pager as the list of its pages,
--   and encoding/json are parameters. Tail is about `LoadTail` and the times to live. Client is
--   azure/cosmosclient, which fills the parameter, with `IsConflict`; Batches and Pages are about the
--   store over it. Convert: the loops that make records of rows.
-- - Authz: authz and authz/allowall. HttpClient: httpclient, with net/http, net/url, strings and
--   protobuf as parameters; Negotiation is about its reads.
-- - Generator: cmd/protoc-gen-protosource but for the templates. Generator itself has the checks of
--   fields, produced events and the structure of a file, over what the descriptors and options say;
--   Descriptor has the descriptors with their types, Collections `validateCollectionMapping` and the
--   lookups of the templates, Embeds `validateSingularEmbed` and `validateAggregateList`, Projections
--   `validateProjectionFields`, Enums the states and enum_display.go, OpaqueKeys the annotations of
--   opaque keys, Indexes the indexes of a message with the routes of their queries, Exprs the Go
--   expressions for arguments, and Run `generate`, which makes all the checks, with the paths of the
--   files. `sort.Slice`, package unicode, the decimal form of numbers and the names of pgsgo are
--   parameters.
-- - TsGenerator: cmd/protoc-gen-protosource-ts/protosourceify.go but for the templates. Fields has the types and names
--   of fields in TypeScript, Indexes the copy of the Go generator's indexes, TsGenerator itself the
--   imports and paths; Routes and Imports are about them.
-- - Serializer: serializers/protobinaryserializer, with the framing of event streams, as a
--   `Serializer` and as an `IsSerializer`; Serializer/Json is serializers/protojsonserializer.
--   Protobuf, base64, `io.Writer` and the reader are parameters.
-- - Order: gen/example/app/order/v1, the aggregate with its events, commands, builder, snapshots,
--   guards, evaluators, totals and projection, and `order_domain`, the aggregate as the repository
--   uses it. Tail and TailLoad are about loading from snapshots, Machine about the states, Totals
--   about the derived fields. Protovalidate is a parameter.
-- - Router: `splitPath` and `matchSegments` in Path, `Dispatch` and CORS in Dispatch.
-- - Adapter: adapters/awslambda, requests and responses of API Gateway around a handler or a router.
--   Base64, `strings.ToLower` and the text of a cookie are parameters.
-- - HttpAdapter: adapters/httpstandard, requests and responses of net/http, with the calls on the
--   response writer as a list.
-- - Tests: concrete inputs for all of them.
--
-- How state is modelled. A store is a value that an operation takes and returns. Go changes the
-- records of a loaded history in place; `replay` and `decompress_all` return them, and the store's
-- `write_through` says what the store then holds. Maps are iterated in the order of the association
-- list. The clock and the time of a save are arguments.
--
-- Bounds and fuel. Loops are recursion on a list, a text or a number, but for those over the pages
-- of a DynamoDB query, which have fuel: it is to be more than the number of items left to read. The
-- batches of a save have the number of its records as fuel, since each takes one at least. The
-- interval of snapshots is the generated constant 50; the length of a frame is 8 bytes. Versions and
-- totals wrap around at 2 ^ 64, the number of items at 2 ^ 32. Lists and texts have no bound; a
-- theorem that needs one has it as a hypothesis.
--
-- What is not modelled. Calls are steps in sequence: the mutex of the memory store is not, and the
-- context does not change during a call. Handlers and hooks are functions of their arguments. The
-- formatted values in error texts are left out. Not modelled are the generated
-- handlers, the templates of the code generators, enum_display.go of the TypeScript generator, the
-- tables and containers in stores/dynamodbstore/tables.go and stores/cosmosdbstore/containers.go, the
-- wiring of stores in the files providers.go, the programs under cmd and the other example
-- aggregates: they are separate from the path of a command through the repository, or only call
-- third-party services.
pub mod Prelude
pub mod Error
pub mod Compress
pub mod Repository
pub mod Router
pub mod Dynamo
pub mod Opaque
pub mod Authz
pub mod Generator
pub mod HttpClient
pub mod Convert
pub mod Serializer
pub mod Store
pub mod Adapter
pub mod HttpAdapter
pub mod Order
pub mod Tests
pub mod TsGenerator
