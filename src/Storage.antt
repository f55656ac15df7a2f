-- ===== src/Storage.antt =====
-- The start of the database (src/lifeman/db.py): `get_db` opens the file, runs the baseline schema, and then
-- every migration that is not recorded. An exception leaves what was done before it.
pub mod Sqlite
pub mod Schema
pub mod Migrations
pub mod Startup
pub mod Examples
use life_man.Base.{
  Bool, List, Result, [], elem, false, if◌then◌else◌, nat_eq, ok, raised, string_eq, true, ℕ, ◌++◌,
  ◌∷◌,
}
use life_man.Storage.Sqlite.{Disk, Statement, column_eq, duplicate, execute, failed, ran}
use life_man.Storage.Schema.{schema}
use life_man.Storage.Migrations.{migrations}

-- `INSERT OR IGNORE INTO schema_migrations`
abbrev pub record_id : ℕ → Disk → Disk
record_id mid d =
    if elem mid d.schema_migrations
    then d
    else record d { schema_migrations = d.schema_migrations ++ mid ∷ [] }

-- `_apply_migration`; a column that is there already counts as done.
unfoldable pub apply_migration : ℕ → Statement → Disk → Result Disk
apply_migration mid sql d = elim (execute sql d) [
  | ran d' ↦ ok (record_id mid d')
  | duplicate ↦ ok (record_id mid d)
  | failed e ↦ raised e
]

-- `executescript`
unfoldable pub execute_script : List Statement → Disk → Result (Unit {0}) × Disk
execute_script [] d = (ok tt, d)
execute_script (sql ∷ script) d = elim (execute sql d) [
  | ran d' ↦ execute_script script d'
  | duplicate ↦ (raised "duplicate column name", d)
  | failed e ↦ (raised e, d)
]

-- The loop of `get_db`, `applied` being the ids that were recorded before it.
unfoldable pub migrate : List ℕ → List (ℕ × Statement) → Disk → Result (Unit {0}) × Disk
unfolding apply_migration
migrate applied [] d = (ok tt, d)
migrate applied ((mid, sql) ∷ ms) d =
    let skipped = migrate applied ms d in
    if elem mid applied then skipped else elim (apply_migration mid sql d) [
      | raised e ↦ (raised e, d)
      | ok d' ↦ migrate applied ms d'
    ]

-- `_db`, and the file behind it.
pub record Database : Type 0 where
  pub is_open : Bool
  pub disk : Disk

-- The part of `get_db` after `connect`.
unfoldable pub initialise : Disk → Result (Unit {0}) × Disk
unfolding execute_script migrate
initialise d =
    let (answered, d') = execute_script schema d in
    elim answered [ raised e ↦ (raised e, d') | ok _ ↦ migrate d'.schema_migrations migrations d' ]

-- `_db` is set before the schema runs.
unfoldable pub get_db : Database → Result (Unit {0}) × Database
unfolding initialise
get_db b =
    if b.is_open
    then (ok tt, b)
    else ((initialise b.disk).0, record { is_open = true; disk = (initialise b.disk).1 })

unfoldable pub close_db : Database → Database
close_db b = record b { is_open = false }
