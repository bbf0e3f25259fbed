-- ===== src/Store/Sql.antt =====
-- stores/mysqlstore: histories in one table of a database. database/sql and the server are a
-- parameter; a statement is given by what its text says.
pub mod Laws
use protosource.Prelude.{ℕ, String, List, [], ◌∷◌, Option, none, some}
use protosource.Error.{Error, Result, ok, err, ◌>>=◌, wrap_err, other, wrap}
use protosource.Compress.{Bytes}
use protosource.Repository.Types.{History, Record, Context}

-- An insertion: the columns that it names, and the number of its placeholders.
pub record Insertion : Type 0 where
  pub table : String
  pub columns : List String
  pub placeholders : ℕ

pub record Row : Type 0 where
  pub aggregate_id : String
  pub version : ℕ
  pub payload : Bytes

-- The rows of a query: what each `Scan` gives, and what `Err` says after the last one.
pub record Rows : Type 0 where
  pub scans : List (Result Row)
  pub failure : Option Error

-- A database with tables T. `exec` works on the tables of a transaction, which `commit` is given
-- after the tables without it; a transaction that is rolled back leaves the latter.
pub record Database (T : Type 0) : Type 0 where
  pub begin_tx : Context → T → Result (Unit {0})
  pub prepare : Context → Insertion → T → Result (Unit {0})
  pub exec : Context → Row → T → Result (Unit {0}) × T
  pub commit : T → T → Result (Unit {0}) × T
  pub query : Context → String → T → Result Rows

-- INSERT INTO records (aggregate_id, version, payload, timestamp) VALUES (?, ?, ?)
abbrev pub insertion : Insertion
insertion = record {
  table = "records";
  columns = "aggregate_id" ∷ "version" ∷ "payload" ∷ "timestamp" ∷ [];
  placeholders = 3;
}

module _ {T : Type 0} (db : Database T) where
  -- The loop of `Save`, in its transaction.
  unfoldable pub insert_all : Context → String → List Record → T → Result (Unit {0}) × T
  insert_all ctx id [] t = (ok tt, t)
  insert_all ctx id (r ∷ rs) t =
      let (inserted, t') =
        db.exec ctx (record { aggregate_id = id; version = r.version; payload = r.payload }) t in
      elim inserted [
        | err e ↦ (err (wrap "mysqlstore.Save: failed to insert record" e), t')
        | ok _ ↦ insert_all ctx id rs t'
      ]

  abbrev pub finish_save : T → Result (Unit {0}) × T → Result (Unit {0}) × T
  finish_save t (err e, t') = (err e, t)
  finish_save t (ok _, t') =
      let (done, t'') = db.commit t t' in
      (wrap_err "mysqlstore.Save: failed to commit transaction" done, t'')

  -- `Save`
  unfoldable pub save : Context → String → List Record → T → Result (Unit {0}) × T
  unfolding insert_all
  save ctx id [] t = (err (other "mysqlstore.Save: no records to save"), t)
  save ctx id (r ∷ rs) t = elim (db.begin_tx ctx t) [
    | err e ↦ (err (wrap "mysqlstore.Save: failed to begin transaction" e), t)
    | ok _ ↦ elim (db.prepare ctx insertion t) [
      | err e ↦ (err (wrap "mysqlstore.Save: failed to prepare statement" e), t)
      | ok _ ↦ finish_save t (insert_all ctx id (r ∷ rs) t)
    ]
  ]

  abbrev pub record_of_row : Row → Record
  record_of_row row = record { version = row.version; payload = row.payload; ttl = 0 }

  -- The loop of `Load`.
  unfoldable pub scan_rows : List (Result Row) → Result History
  scan_rows [] = ok []
  scan_rows (scan ∷ scans) = do
    row ← wrap_err "mysqlstore.Load: failed to scan record" scan
    rest ← scan_rows scans
    ok (record_of_row row ∷ rest)

  abbrev pub check_rows : Option Error → History → Result History
  check_rows none h = ok h
  check_rows (some e) h = err (wrap "mysqlstore.Load: row iteration error" e)

  -- `Load`
  unfoldable pub load : Context → String → T → Result History
  unfolding scan_rows
  load ctx id t = do
    rows ← wrap_err "mysqlstore.Load: failed to query records" (db.query ctx id t)
    h ← scan_rows rows.scans
    check_rows rows.failure h
