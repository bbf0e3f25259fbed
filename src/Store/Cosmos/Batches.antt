-- ===== src/Store/Cosmos/Batches.antt =====
-- `Save` of the Cosmos DB store over the wrapper of azure/cosmosclient.
use protosource.Prelude.{
  ℕ, zero, suc, ◌≤◌, ◌≡◌, ◌↔◌, refl, ap, ◌∙◌, inl, inr, String, true, false, Option, none, some,
  List, [], ◌∷◌, ◌++◌, All, arith, length, take, take_all, drop, Bool-cases, ◌==◌, ltb,
}
use protosource.Error.{Error, ok, err, batch_error, wrap}
use protosource.Compress.{Bytes}
use protosource.Repository.Types.{Record, Context}
use protosource.Repository.Stored.{Result-cases}
use protosource.Convert.{convert_all, length-convert_all}
use protosource.Store.Cosmos.{
  Container, Json, CosmosStore, max_batch_items, expiry_of, relative_ttl, doc_of, marshal_record,
  save_batches, save,
}
use protosource.Store.Cosmos.Client.{
  BatchResult, BatchResponse, AzContainer, status_conflict, status_failed_dependency,
  max_batch_operations, is_batch_conflict, is_conflict, batch_status, cause_of, batch_answer,
  send_batch, execute_create_batch, wrapper,
}

-- The container that sends every batch, however long.
abbrev pub unchecked : {S : Type 0} → AzContainer S → Container S
unchecked c = record (wrapper c) { execute_create_batch = send_batch c }

length-take_le : {A : Type 0} (n : ℕ) (xs : List A) → length (take n xs) ≤ n
length-take_le zero xs = omega arith
length-take_le (suc n) [] = omega arith
length-take_le (suc n) (x ∷ xs) = omega (arith, length-take_le n xs)

module _ (json : Json) (clock : ℕ → ℕ) {S : Type 0} (e f : Container S) where
  marshal_record-same : marshal_record json clock e ≡ marshal_record json clock f
  unfolding marshal_record doc_of expiry_of relative_ttl
  marshal_record-same = refl

  -- Containers that treat batches of 1 to 100 documents alike are alike to the loop of `Save`.
  save_batches-same :
      ((pk : String) (items : List Bytes) (s : S)
        → (length items == 0) ≡ false
        → length items ≤ max_batch_items
        → e.execute_create_batch pk items s ≡ f.execute_create_batch pk items s)
      → (cfg : CosmosStore S) (id : String) (fuel k : ℕ) (records : List Record) (s : S)
      → save_batches json clock e cfg id fuel k records s
        ≡ save_batches json clock f cfg id fuel k records s
  unfolding save_batches
  save_batches-same same cfg id zero k records s = refl
  save_batches-same same cfg id (suc fuel) k [] s = refl
  save_batches-same same cfg id (suc fuel) k (r ∷ rs) s =
      let batch = r ∷ take 99 rs in
      let same_items =
        ap (λ marshal. convert_all (marshal cfg id (clock k)) batch) marshal_record-same in
      elim (Result-cases (convert_all (marshal_record json clock f cfg id (clock k)) batch)) [
        | inr (failure, h) ↦ rw (same_items, save_batches) (rw h refl)
        | inl (items, h) ↦
            let size =
              length-convert_all (marshal_record json clock f cfg id (clock k)) batch items h in
            let sent = same id items s (ground arith) (omega (arith, size, length-take_le 99 rs)) in
            rw (same_items, save_batches)
              (rw h (
                rw sent (elim (Result-cases (f.execute_create_batch id items s).0) [
                  | inr (failure, k1) ↦
                      rw k1 (ap (λ o. (err (wrap "cosmosdbstore.Save" failure), o.1)) sent)
                  | inl (done, k1) ↦
                      let others = drop max_batch_items (r ∷ rs) in
                      rw k1 (
                        ap (λ o. save_batches json clock e cfg id fuel (suc k) others o.1) sent
                        ∙ save_batches-same same cfg id fuel (suc k) others
                            (f.execute_create_batch id items s).1)
                ])))
      ]

-- The store never meets the bound of the client: `Save` over the client is `Save` over the container
-- that sends every batch.
pub save-unchecked :
    (json : Json) (clock : ℕ → ℕ) {S : Type 0} (c : AzContainer S) (cfg : CosmosStore S)
    (ctx : Context) (id : String) (records : List Record) (s : S)
    → save json clock (wrapper c) cfg ctx id records s
      ≡ save json clock (unchecked c) cfg ctx id records s
unfolding save wrapper execute_create_batch
save-unchecked json clock c cfg (some e) id records s = refl
save-unchecked json clock c cfg none id records s =
    save_batches-same json clock (wrapper c) (unchecked c)
      (λ pk items s some_items fits. ground arith) cfg id (length records) 0 records s

-- The status of the first operation that failed for its own sake, not for that of another.
abbrev pub IsCause : List BatchResult → ℕ → Type 0
IsCause results status =
    (before : List BatchResult) × (after : List BatchResult) × (cause : BatchResult) × (results
      ≡ before ++ cause ∷ after)
    × All (λ r. r.status ≡ status_failed_dependency) before
    × (cause.status ≡ status)

skip_dependency :
    (r : BatchResult) (results : List BatchResult) (status : ℕ)
    → r.status ≡ status_failed_dependency
    → IsCause results status
    → IsCause (r ∷ results) status
skip_dependency r results status skipped (before, after, cause, e, h, k) =
    (r ∷ before, after, cause, ap (◌∷◌ r) e, (skipped, h), k)

-- The loop over the results ends with a conflict exactly where the cause is one.
cause_of_sound :
    (results : List BatchResult)
    → is_batch_conflict (cause_of results) ≡ true
    → IsCause results status_conflict
unfolding cause_of is_batch_conflict batch_status
cause_of_sound [] h = cc
cause_of_sound (r ∷ results) h = elim (Bool-cases (r.status == status_failed_dependency)) [
  | inl skipped ↦
      skip_dependency r results status_conflict (ground arith)
        (cause_of_sound results (rw skipped at h))
  | inr fails ↦
      let found : (r.status == status_conflict) ≡ true = rw fails at h in
      ([], results, r, refl, tt, ground arith)
]

cause_of_complete :
    (before : List BatchResult) (cause : BatchResult) (after : List BatchResult)
    → All (λ r. r.status ≡ status_failed_dependency) before
    → cause.status ≡ status_conflict
    → is_batch_conflict (cause_of (before ++ cause ∷ after)) ≡ true
unfolding cause_of is_batch_conflict batch_status
cause_of_complete [] cause after h k = rw k refl
cause_of_complete (r ∷ before) cause after (skipped, h) k =
    rw skipped (cause_of_complete before cause after h k)

cause_of-batch_error :
    (results : List BatchResult)
    → (status : ℕ) × (message : String) × (cause_of results ≡ batch_error status message)
unfolding cause_of
cause_of-batch_error [] = (0, "transactional batch failed without a cause status", refl)
cause_of-batch_error (r ∷ results) = elim (Bool-cases (r.status == status_failed_dependency)) [
  | inl skipped ↦
      let (status, message, e) = cause_of-batch_error results in (status, message, rw skipped e)
  | inr fails ↦ (r.status, r.message, rw fails refl)
]

within_cap : (n : ℕ) → n ≤ max_batch_items → ltb max_batch_operations n ≡ false
within_cap n h = ground arith

execute_create_batch-failed :
    {S : Type 0} (c : AzContainer S) (pk : String) (items : List Bytes) (s s' : S)
    (resp : BatchResponse)
    → (length items == 0) ≡ false
    → length items ≤ max_batch_items
    → c.execute_transactional_batch pk items s ≡ (ok resp, s')
    → resp.success ≡ false
    → execute_create_batch c pk items s ≡ (err (cause_of resp.results), s')
unfolding execute_create_batch send_batch batch_answer
execute_create_batch-failed c pk items s s' resp nonempty fits answered failed =
    rw (nonempty, within_cap (length items) fits, answered, failed) refl

save_batches-failed :
    (json : Json) (clock : ℕ → ℕ) {S : Type 0} (f : Container S) (cfg : CosmosStore S) (id : String)
    (fuel k : ℕ) (r : Record) (rs : List Record) (s s' : S) (items : List Bytes) (e : Error)
    → convert_all (marshal_record json clock f cfg id (clock k)) (r ∷ take 99 rs) ≡ ok items
    → f.execute_create_batch id items s ≡ (err e, s')
    → save_batches json clock f cfg id (suc fuel) k (r ∷ rs) s
      ≡ (err (wrap "cosmosdbstore.Save" e), s')
unfolding save_batches
save_batches-failed json clock f cfg id fuel k r rs s s' items e marshalled refused =
    rw (marshalled, save_batches)
      (rw refused (ap (λ o. (err (wrap "cosmosdbstore.Save" e), o.1)) refused))

is_conflict-cause_of :
    (response_status : Error → Option ℕ) (msg : String) (results : List BatchResult)
    → ((status : ℕ) (body : String) → response_status (wrap msg (batch_error status body)) ≡ none)
    → is_conflict response_status (wrap msg (cause_of results))
      ≡ is_batch_conflict (cause_of results)
unfolding is_conflict is_batch_conflict batch_status
is_conflict-cause_of response_status msg results other_type =
    let (status, message, shape) = cause_of-batch_error results in
    rw shape (
      rw (other_type status message) (elim (Bool-cases (status == status_conflict)) [
        | inl same ↦ rw same refl
        | inr apart ↦ rw apart refl
      ]))

cause_of-conflict_iff :
    (results : List BatchResult)
    → (is_batch_conflict (cause_of results) ≡ true) ↔ IsCause results status_conflict
cause_of-conflict_iff results = (
  cause_of_sound results,
  λ (before, after, cause, e, h, k). rw e (cause_of_complete before cause after h k),
)

-- For up to 100 records that marshal, where azcosmos answers the one batch without success: `Save`
-- returns an error, of which `IsConflict` says whether the cause is a conflict.
pub save-conflict_iff :
    (json : Json) (clock : ℕ → ℕ) {S : Type 0} (c : AzContainer S)
    (response_status : Error → Option ℕ) (cfg : CosmosStore S) (id : String) (records : List Record)
    (s s' : S) (items : List Bytes) (resp : BatchResponse)
    → ((msg : String) (status : ℕ) (body : String)
        → response_status (wrap msg (batch_error status body)) ≡ none)
    → (length records == 0) ≡ false
    → length records ≤ max_batch_items
    → convert_all (marshal_record json clock (wrapper c) cfg id (clock 0)) records ≡ ok items
    → c.execute_transactional_batch id items s ≡ (ok resp, s')
    → resp.success ≡ false
    → (e : Error) × (save json clock (wrapper c) cfg none id records s ≡ (err e, s'))
      × ((is_conflict response_status e ≡ true) ↔ IsCause resp.results status_conflict)
unfolding save wrapper
save-conflict_iff json clock c rs_of cfg id [] s s' items resp others nonempty fits h k l =
    absurd (ground arith)
save-conflict_iff json clock c rs_of cfg id (r ∷ rs) s s' items resp others nonempty fits h k l =
    let marshal = marshal_record json clock (wrapper c) cfg id (clock 0) in
    let size = length-convert_all marshal (r ∷ rs) items h in
    let first = ap (λ l. convert_all marshal (r ∷ l)) (take_all 99 rs (omega arith)) ∙ h in
    let refused =
      execute_create_batch-failed c id items s s' resp (ap (λ n. n == 0) size ∙ nonempty)
        (omega (arith, size)) k l in
    let same =
      is_conflict-cause_of rs_of "cosmosdbstore.Save" resp.results (others "cosmosdbstore.Save") in
    (
      wrap "cosmosdbstore.Save" (cause_of resp.results),
      save_batches-failed json clock (wrapper c) cfg id (length rs) 0 r rs s s' items
          (cause_of resp.results) first refused,
      rw same (cause_of-conflict_iff resp.results),
    )
