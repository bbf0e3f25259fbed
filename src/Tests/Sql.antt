-- ===== src/Tests/Sql.antt =====
-- The MySQL store over a table that is a list of rows.
use protosource.Prelude.{◌≡◌, ◌≢◌, none, List, [], ◌∷◌, ◌++◌, ◌==◌, arith, length, if◌then◌else◌}
use protosource.Error.{Error, ok, err, other}
use protosource.Repository.Types.{Context}
use protosource.Store.Sql.{Database, Insertion, Row, save}
use protosource.Store.Sql.Laws.{save-err}

abbrev table : Database (List Row)
table = record {
  begin_tx = λ ctx t. ok tt;
  prepare = λ ctx i t. if length i.columns == i.placeholders then ok tt else err (other "1136");
  exec = λ ctx row t. (ok tt, t ++ row ∷ []);
  commit = λ t t'. (ok tt, t');
  query = λ ctx id t. ok (record { scans = []; failure = none });
}

table_refuses :
    (ctx : Context) (i : Insertion) (t : List Row)
    → length i.columns ≢ i.placeholders
    → (e : Error) × (table.prepare ctx i t ≡ err e)
table_refuses ctx i t h = (other "1136", ground arith)

save-err_example :
    (e : Error) × (save table none "a" (record { version = 1; payload = []; ttl = 0 } ∷ []) []
      ≡ (err e, []))
save-err_example =
    save-err table table_refuses none "a" (record { version = 1; payload = []; ttl = 0 } ∷ []) []
