-- ===== src/Tests/Cosmos.antt =====
-- The Cosmos DB store over the client of a container of two documents, read in one page upwards and
-- in two downwards.
use protosource.Prelude.{
  ℕ, ◌≡◌, ◌↔◌, refl, true, false, Option, none, List, [], ◌∷◌, map, arith, take_last, ◌==◌,
  if◌then◌else◌,
}
use protosource.Error.{Error, Result, ok, err, other}
use protosource.Compress.{Bytes}
use protosource.Convert.{convert_all}
use protosource.Repository.Types.{Record}
use protosource.Store.Cosmos.{
  Json, EventDoc, CosmosStore, doc_of, marshal_record, save, doc_to_record, load, load_tail,
}
use protosource.Store.Cosmos.Client.{
  BatchResponse, AzContainer, status_conflict, is_conflict, drain, wrapper,
}
use protosource.Store.Cosmos.Batches.{unchecked, IsCause, save-unchecked, save-conflict_iff}
use protosource.Store.Cosmos.Pages.{load_tail-wrapper}

-- A document is written as its version.
abbrev read_doc : Bytes → Result EventDoc
read_doc (v ∷ []) = ok (record { id = "v"; a = "a"; v = v; d = 5 ∷ []; t = 0; ttl = 0 })
read_doc _ = err (other "no document")

abbrev versions : Json
versions = record { marshal = λ doc. ok (doc.v ∷ []); unmarshal = read_doc; format_int = λ n. "v" }

abbrev two_docs : List Bytes
two_docs = (1 ∷ []) ∷ (2 ∷ []) ∷ []

abbrev up : List (List Bytes)
up = ((1 ∷ []) ∷ (2 ∷ []) ∷ []) ∷ []

abbrev down : List (List Bytes)
down = ((2 ∷ []) ∷ []) ∷ ((1 ∷ []) ∷ []) ∷ []

-- What azcosmos answers where the second document of a batch is there already.
abbrev refused : BatchResponse
refused = record {
  success = false;
  results =
      record { status = 424; message = "" } ∷ record { status = 409; message = "exists" } ∷ [];
}

-- A partition that accepts one batch.
abbrev partition : AzContainer (List Bytes)
partition = record {
  execute_transactional_batch = λ pk items s. elim s [
    | [] ↦ (ok (record { success = true; results = [] }), items)
    | stored ↦ (ok refused, stored)
  ];
  query_pages = λ query pk hint s. map ok (if hint == 0 then up else down);
}

-- No error of the model is a *azcore.ResponseError.
abbrev response_status : Error → Option ℕ
response_status e = none

abbrev noon : ℕ → ℕ
noon k = 5000000000

abbrev short_lived : CosmosStore (List Bytes)
short_lived = record { opaque_store = none; ttl = 2500000000 }

abbrev stored : ℕ → Record
stored v = record { version = v; payload = 5 ∷ []; ttl = 0 }

load_tail-wrapper_example :
    load_tail versions noon (wrapper partition) none "a" 1 two_docs
    ≡ ok (take_last 1 (stored 1 ∷ stored 2 ∷ []))
unfolding load convert_all doc_to_record wrapper drain
load_tail-wrapper_example =
    load_tail-wrapper versions noon partition "a" 1 two_docs up down (stored 1 ∷ stored 2 ∷ []) refl
      refl refl refl refl

save-unchecked_example :
    save versions noon (wrapper partition) short_lived none "a" (stored 1 ∷ stored 2 ∷ []) []
    ≡ save versions noon (unchecked partition) short_lived none "a" (stored 1 ∷ stored 2 ∷ []) []
save-unchecked_example =
    save-unchecked versions noon partition short_lived none "a" (stored 1 ∷ stored 2 ∷ []) []

save-conflict_iff_example :
    (e : Error) × (save versions noon
        (wrapper partition)
        short_lived
        none
        "a"
        (stored 1 ∷ stored 2 ∷ [])
        two_docs
      ≡ (err e, two_docs))
    × ((is_conflict response_status e ≡ true) ↔ IsCause refused.results status_conflict)
unfolding convert_all marshal_record doc_of
save-conflict_iff_example =
    save-conflict_iff versions noon partition response_status short_lived "a"
      (stored 1 ∷ stored 2 ∷ []) two_docs two_docs two_docs refused (λ msg status body. refl) refl
      (omega arith) refl refl refl
