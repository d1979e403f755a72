-- ===== src/Storage/Repository.antt =====
-- internal/storage/repository/generic_object_repository.go: the methods of the repository, and the
-- database that they call.
--
-- A `Db` is the server as this process sees it: the table, the two sequences, what a transaction that
-- is under way has to restore, and the number of calls so far. Any call may fail (`Server.fails`), and
-- a call that fails has done nothing. What other clients do between two calls is not modelled.
use sbombastic.Common.{
  ℕ, zero, suc, String, Bool, Option, none, some, List, Error, Result, ok, err, length, filter,
  if◌then◌else◌,
}
use sbombastic.Effects.{Run, Eff, pure, fail, read, ◌>>=◌}
use sbombastic.Storage.Rows.{
  Kind, Row, is_at, select_object, insert_row, delete_rows, update_rows, count_rows,
}

pub record Db (Json : Type 0) : Type 0 where
  pub table : List (Row Json)
  pub next_id : ℕ
  pub last_version : ℕ
  pub is_called : Bool
  pub saved : Option (List (Row Json))
  pub calls : ℕ

-- watch.Event
pub data EventType : Type 0 where
  added modified deleted : EventType

pub record Event (Object : Type 0) : Type 0 where
  pub event_type : EventType
  pub object : Object

-- Whether the call with that number fails, to the database and to NATS.
pub record Server (Object : Type 0) : Type 0 where
  pub fails : ℕ → Bool
  pub publish_fails : ℕ → Object → Bool

abbrev pub StoreRun : Kind → Type 0
StoreRun K = Run (Db K.Json) (Event K.Object)

abbrev pub Storing : Kind → Type 0 → Type 0
Storing K = Eff (Db K.Json) (Event K.Object)

module _ (K : Kind) (S : Server K.Object) where
  unfoldable pub ask : {A : Type 0} → (Db K.Json → A × Db K.Json) → Db K.Json → Result A × Db K.Json
  ask op db =
      let (a, after) = op db in
      if S.fails db.calls
      then (err Error.other, record db { calls = suc db.calls })
      else (ok a, record after { calls = suc db.calls })

  -- db.Begin, tx.Commit, and the deferred tx.Rollback: where that fails, the server rolls back when
  -- the connection closes. After a commit it does nothing (pgx.ErrTxClosed).
  abbrev pub opened : Db K.Json → Unit {0} × Db K.Json
  opened db = (tt, record db { saved = some db.table })

  abbrev pub closed : Db K.Json → Unit {0} × Db K.Json
  closed db = (tt, record db { saved = none })

  unfoldable pub begin : Storing K (Unit {0})
  unfolding ask
  begin = read (ask opened)

  unfoldable pub commit : Storing K (Unit {0})
  unfolding ask
  commit = read (ask closed)

  abbrev pub restored : Db K.Json → Db K.Json
  restored db = elim db.saved [ none ↦ db | some rows ↦ record db { table = rows; saved = none } ]

  unfoldable pub deferring_rollback : {A : Type 0} → Storing K A → Storing K A
  deferring_rollback body s =
      let (r, after) = body s in (r, record after { world = restored after.world })

  abbrev pub or_error : {A : Type 0} → Option A → Error → Storing K A
  or_error none e = fail e
  or_error (some a) e = pure a

  -- INSERT: the sequence of id moves on also where the row is not inserted.
  abbrev inserted : String → String → K.Json → Db K.Json → ℕ × Db K.Json
  inserted name namespace bytes db =
      let (affected, rows) = insert_row db.next_id name namespace bytes db.table in
      (affected, record db { table = rows; next_id = suc db.next_id })

  abbrev check_inserted : ℕ → Storing K (Unit {0})
  check_inserted zero = fail Error.already_exists
  check_inserted (suc n) = pure tt

  unfoldable pub create_object : K.Object → Storing K (Unit {0})
  unfolding ask insert_row
  create_object obj = or_error (K.marshal obj) Error.other >>= λ bytes.
      read (ask (inserted (K.name obj) (K.namespace obj) bytes)) >>= λ affected.
      check_inserted affected

  abbrev decode : Option K.Json → Storing K K.Object
  decode none = fail Error.not_found
  decode (some bytes) = or_error (K.unmarshal bytes) Error.other

  abbrev deleted_at : String → String → Db K.Json → Option K.Json × Db K.Json
  deleted_at name namespace db = (
    select_object db.table name namespace,
    record db { table = delete_rows name namespace db.table },
  )

  unfoldable pub delete_object : String → String → Storing K K.Object
  unfolding ask select_object delete_rows
  delete_object name namespace = read (ask (deleted_at name namespace)) >>= λ bytes. decode bytes

  unfoldable pub get_object : String → String → Storing K K.Object
  unfolding ask select_object
  get_object name namespace =
      read (ask (λ db. (select_object db.table name namespace, db))) >>= λ bytes. decode bytes

  abbrev check_updated : ℕ → Storing K (Unit {0})
  check_updated zero = fail Error.not_found
  check_updated (suc n) = pure tt

  abbrev updated_at : String → String → K.Json → Db K.Json → ℕ × Db K.Json
  updated_at name namespace bytes db =
      let affected = length (filter (is_at name namespace) db.table) in
      (affected, record db { table = update_rows name namespace bytes db.table })

  unfoldable pub update_object : String → String → K.Object → Storing K (Unit {0})
  unfolding ask is_at update_rows
  update_object name namespace obj = or_error (K.marshal obj) Error.other >>= λ bytes.
      read (ask (updated_at name namespace bytes)) >>= λ affected. check_updated affected

  unfoldable pub count_objects : String → Storing K ℕ
  unfolding ask count_rows
  count_objects namespace = read (ask (λ db. (count_rows namespace db.table, db)))
