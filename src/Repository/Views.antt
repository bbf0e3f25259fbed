-- ===== src/Repository/Views.antt =====
-- Materializing an aggregate and its projections leaves the histories alone.
use protosource.Prelude.{
  Option-cases, inl, inr, String, ◌≡◌, refl, ◌∙◌, Option, none, some, List, [], ◌∷◌,
}
use protosource.Error.{Result}
use protosource.Compress.{Gzip}
use protosource.Prelude.{ℕ}
use protosource.Repository.Types.{History, Context, Store, Serializer, Domain}
use protosource.Repository.Base.{fold_on, run_hook}
use protosource.Repository.Run.{save_projections, run_projections, save_views, materialize}
use protosource.Repository.Stored.{Result-cases}
use protosource.Repository.Log.{IsLog}

module _ (z : Gzip) {A E C M S : Type 0} (d : Domain A E C M) (serializer : Serializer E)
    (store : Store S M) (threshold : ℕ) (view : S → String → History) (log : IsLog store view) where
  module _ (put : Context → M → S → Result (Unit {0}) × S) (has : store.save_aggregate ≡ some put)
      (k : String) where
    view-save_projections :
        (ms : List M) (s : S)
        → view (save_projections z d serializer store threshold none put ms s).0 k ≡ view s k
    unfolding save_projections
    view-save_projections [] s = refl
    view-save_projections (m ∷ ms) s =
        view-save_projections ms (put none m s).1 ∙ log.put_view put m s k has

    view-run_projections :
        (views : Option (A → List M)) (a : A) (s : S)
        → view (run_projections z d serializer store threshold none put views a s).0 k ≡ view s k
    view-run_projections none a s = refl
    view-run_projections (some views) a s = view-save_projections (views a) s

    view-save_views :
        (a : A) (s : S)
        → view (save_views z d serializer store threshold none put a s).0 k ≡ view s k
    unfolding save_views
    view-save_views a s =
        view-run_projections d.projections a (put none (d.message a) s).1
        ∙ log.put_view put (d.message a) s k has

  pub view-materialize :
      (events : List E) (a : A) (s : S) (k : String)
      → view (materialize z d serializer store threshold none events a s).0 k ≡ view s k
  unfolding materialize
  view-materialize events a s k = elim (Option-cases store.save_aggregate) [
    | inl absent ↦ rw (absent, materialize)
    | inr (put, has) ↦ elim (Result-cases (fold_on d events a)) [
      | inl (a', done) ↦
          rw (has, materialize) (rw done (view-save_views put has k (run_hook d.after_on a') s))
      | inr (e, failed) ↦ rw (has, materialize) (rw failed)
    ]
  ]
