-- ===== src/Store/Sql/Laws.antt =====
-- What `Save` of the MySQL store can do.
use protosource.Prelude.{String, ◌≡◌, ◌≢◌, refl, List, [], ◌∷◌, inl, inr, arith, length}
use protosource.Error.{Error, err, other, wrap}
use protosource.Repository.Types.{Record, Context}
use protosource.Repository.Stored.{Result-cases}
use protosource.Store.Sql.{Database, Insertion, insertion, save}

-- On a server that does not prepare an insertion whose columns and placeholders differ in number:
-- every call of `Save` fails, and none changes the tables.
pub save-err :
    {T : Type 0} (db : Database T)
    → ((ctx : Context) (i : Insertion) (t : T)
        → length i.columns ≢ i.placeholders
        → (e : Error) × (db.prepare ctx i t ≡ err e))
    → (ctx : Context) (id : String) (rs : List Record) (t : T)
    → (e : Error) × (save db ctx id rs t ≡ (err e, t))
unfolding save
save-err db counted ctx id [] t = (other "mysqlstore.Save: no records to save", refl)
save-err db counted ctx id (r ∷ rs) t = elim (Result-cases (db.begin_tx ctx t)) [
  | inr (e, failed) ↦
      (wrap "mysqlstore.Save: failed to begin transaction" e, rw (failed, save) refl)
  | inl (u, begun) ↦
      let (e, refused) = counted ctx insertion t (omega arith) in
      (
        wrap "mysqlstore.Save: failed to prepare statement" e,
        rw (begun, save) (rw (refused, save) refl),
      )
]
