-- ===== src/Storage/Examples.antt =====
-- A first start on an empty file, and one on a file whose record of migrations was lost.
use life_man.Base.{
  All, Result, [], elem, false, nat_eq, ok, raised, refl, string_eq, true, ◌∷◌, ◌≡◌,
}
use life_man.Storage.Sqlite.{column_eq, execute}
use life_man.Storage.Schema.{schema}
use life_man.Storage.Migrations.{migrations}
use life_man.Storage.{
  Database, apply_migration, close_db, execute_script, get_db, initialise, migrate,
}
use life_man.Storage.Startup.{AllMade, Applied, restart_changes_nothing, start_complete}

abbrev empty_file : Database
empty_file = record {
  is_open = false;
  disk = record { tables = []; columns = []; indexes = []; schema_migrations = [] };
}

first_start : get_db empty_file ≡ (ok tt, (get_db empty_file).1)
unfolding get_db initialise schema migrations execute_script migrate apply_migration execute
first_start = refl

-- The table `invocations` has a column before the baseline schema runs, and nothing is recorded.
abbrev half_made : Database
half_made = record {
  is_open = false;
  disk = record {
    tables = "user_settings" ∷ [];
    columns = ("sessions", "title") ∷ [];
    indexes = [];
    schema_migrations = 3 ∷ [];
  };
}

second_start : get_db half_made ≡ (ok tt, (get_db half_made).1)
unfolding get_db initialise schema migrations execute_script migrate apply_migration execute
second_start = refl

-- Without the table that an unrecorded migration alters, the start fails; the call after it answers from
-- the open connection.
no_devices : Database → Result (Unit {0}) × Result (Unit {0})
no_devices b = ((get_db b).0, (get_db (get_db b).1).0)

failed_start_forgotten :
    no_devices (record empty_file { disk = record empty_file.disk { schema_migrations = 13 ∷ [] } })
    ≡ (raised "no such table: device_tokens", ok tt)
unfolding no_devices get_db initialise schema migrations execute_script migrate apply_migration
    execute
failed_start_forgotten = refl

start_complete_example :
    let b' = (get_db half_made).1 in
    AllMade schema b'.disk
    × All (λ m. elem m.0 b'.disk.schema_migrations ≡ true) migrations
    × All (Applied half_made.disk.schema_migrations b'.disk) migrations
start_complete_example = start_complete half_made (get_db half_made).1 refl second_start

restart_changes_nothing_example :
    get_db (close_db (get_db empty_file).1) ≡ (ok tt, (get_db empty_file).1)
restart_changes_nothing_example =
    restart_changes_nothing empty_file (get_db empty_file).1 refl first_start
