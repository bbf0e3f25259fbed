-- ===== src/Store/Cosmos/Client.antt =====
-- azure/cosmosclient: the wrapper around azcosmos that the Cosmos DB store takes as its container,
-- and the tests on its errors, with `IsConflict` of stores/cosmosdbstore.
use protosource.Prelude.{
  ℕ, String, Bool, true, false, Option, none, some, List, [], ◌∷◌, ◌++◌, map, length, ltb, ◌==◌,
  if◌then◌else◌,
}
use protosource.Error.{Error, Result, ok, err, ◌>>=◌, other, batch_error, wrap, wrap_two, wrap_err}
use protosource.Compress.{Bytes}
use protosource.Store.Cosmos.{Container}

-- An operation of the response to a batch, with its body as a text, and the response.
pub record BatchResult : Type 0 where
  pub status : ℕ
  pub message : String

pub record BatchResponse : Type 0 where
  pub success : Bool
  pub results : List BatchResult

-- azcosmos.ContainerClient, over a container in state S. A query that gives no page size hint has the
-- hint 0; its pager is the list of what `NextPage` returns, as long as `More` says that there is more.
pub record AzContainer (S : Type 0) : Type 0 where
  pub execute_transactional_batch : String → List Bytes → S → Result BatchResponse × S
  pub query_pages : String → String → ℕ → S → List (Result (List Bytes))

-- http.StatusConflict and http.StatusFailedDependency
abbrev pub status_conflict : ℕ
status_conflict = 409

abbrev pub status_failed_dependency : ℕ
status_failed_dependency = 424

abbrev pub max_batch_operations : ℕ
max_batch_operations = 100

-- `errors.As(err, &b)` with a *BatchError, and what it finds there.
unfoldable pub batch_status : Error → Option ℕ
batch_status (batch_error status _) = some status
batch_status (wrap _ e) = batch_status e
batch_status (wrap_two _ e f) = elim (batch_status e) [
  | none ↦ batch_status f
  | some status ↦ some status
]
batch_status _ = none

unfoldable pub is_batch_conflict : Error → Bool
unfolding batch_status
is_batch_conflict e = elim (batch_status e) [
  | none ↦ false
  | some status ↦ status == status_conflict
]

-- `IsConflict`; `response_status` is `errors.As` with a *azcore.ResponseError and its status code.
unfoldable pub is_conflict : (Error → Option ℕ) → Error → Bool
unfolding is_batch_conflict
is_conflict response_status e =
    if is_batch_conflict e
    then true
    else elim (response_status e) [ none ↦ false | some status ↦ status == status_conflict ]

-- The loop over the results of a batch that failed.
unfoldable pub cause_of : List BatchResult → Error
cause_of [] = batch_error 0 "transactional batch failed without a cause status"
cause_of (r ∷ results) =
    if r.status == status_failed_dependency
    then cause_of results
    else batch_error r.status r.message

unfoldable pub batch_answer : BatchResponse → Result (Unit {0})
unfolding cause_of
batch_answer resp = if resp.success then ok tt else err (cause_of resp.results)

-- The loop of `QueryItems` over the pages.
unfoldable pub drain : List (Result (List Bytes)) → Result (List Bytes)
drain [] = ok []
drain (answer ∷ pages) = do
  page ← wrap_err "cosmosclient: query page" answer
  rest ← drain pages
  ok (page ++ rest)

module _ {S : Type 0} (c : AzContainer S) where
  -- `ExecuteCreateBatch` from the transactional batch on.
  unfoldable pub send_batch : String → List Bytes → S → Result (Unit {0}) × S
  unfolding batch_answer
  send_batch pk items s =
      let (answer, s') = c.execute_transactional_batch pk items s in
      ((wrap_err "cosmosclient: execute batch" answer >>= batch_answer), s')

  unfoldable pub execute_create_batch : String → List Bytes → S → Result (Unit {0}) × S
  unfolding send_batch
  execute_create_batch pk items s =
      if length items == 0
      then (ok tt, s)
      else if ltb max_batch_operations (length items)
      then (err (other "cosmosclient: batch exceeds Cosmos cap"), s)
      else send_batch pk items s

  -- `Wrap`
  unfoldable pub wrapper : Container S
  unfolding execute_create_batch drain
  wrapper = record {
    execute_create_batch = execute_create_batch;
    query_items = λ query pk s. drain (c.query_pages query pk 0 s);
    query_pager = λ query pk hint s.
        map (wrap_err "cosmosclient: query page") (c.query_pages query pk hint s);
  }
