-- ===== src/Storage/Startup.antt =====
-- What a start of the database leaves behind, and what the next start finds.
use life_man.Base.{
  All, All-mono, Bool, Bool-cases, List, Result, Result-cases, [], ap, arith, elem, false, inl, inr,
  nat_eq, ok, refl, string_eq, subst, true, ℕ, ◌∙◌, ◌∷◌, ◌≡◌, ◌⊎◌,
}
use life_man.Storage.Sqlite.{
  Disk, Statement, add_column, column_eq, create_index, create_table, execute, ran,
}
use life_man.Storage.Sqlite.Growth.{
  Executed-cases, Grows, Grows-refl, Grows-trans, elem-append_last, elem-append_left, execute-Grows,
  execute-made, made, made-Grows,
}
use life_man.Storage.Schema.{schema}
use life_man.Storage.Migrations.{migrations}
use life_man.Storage.{
  Database, apply_migration, close_db, execute_script, get_db, initialise, migrate, record_id,
}

-- Statements with `IF NOT EXISTS`.
abbrev pub all_if_not_exists : List Statement → Bool
all_if_not_exists [] = true
all_if_not_exists (create_table t cs ∷ script) = all_if_not_exists script
all_if_not_exists (create_index n t cs ∷ script) = all_if_not_exists script
all_if_not_exists (add_column t c ∷ script) = false

abbrev pub AllMade : List Statement → Disk → Type 0
AllMade script d = All (λ sql. made sql d ≡ true) script

AllMade-Grows :
    (script : List Statement) (d d' : Disk) → Grows d d' → AllMade script d → AllMade script d'
AllMade-Grows script d d' g h =
    All-mono (λ sql. made sql d ≡ true) (λ sql. made sql d' ≡ true) script
      (λ sql k. made-Grows sql d d' g k) h

script_made :
    (script : List Statement) (d d' : Disk)
    → execute_script script d ≡ (ok tt, d')
    → Grows d d' × AllMade script d'
unfolding execute_script
script_made [] d d' h =
    let same : d ≡ d' = ap (λ (p : Result (Unit {0}) × Disk). p.1) h in
    (subst (Grows d) same (Grows-refl d), tt)
script_made (sql ∷ script) d d' h = elim (Executed-cases (execute sql d)) [
  | inl (d2, e) ↦
      let (g, rest) = script_made script d2 d' (ground arith) in
      let grown : Grows d d2 = rw e at (execute-Grows sql d) in
      let there : made sql d2 ≡ true = rw e at (execute-made sql d (λ t k. ground arith)) in
      (Grows-trans d d2 d' grown g, (made-Grows sql d2 d' g there, rest))
  | inr (inl e) ↦ absurd (ground arith)
  | inr (inr (t, e)) ↦ absurd (ground arith)
]

execute_ids :
    (sql : Statement) (d d' : Disk)
    → execute sql d ≡ ran d'
    → d'.schema_migrations ≡ d.schema_migrations
unfolding execute
execute_ids (create_table table columns) d d' h = ground arith
execute_ids (create_index name table columns) d d' h = ground arith
execute_ids (add_column table column) d d' h = ground arith

script_ids :
    (script : List Statement) (d d' : Disk)
    → execute_script script d ≡ (ok tt, d')
    → d'.schema_migrations ≡ d.schema_migrations
unfolding execute_script
script_ids [] d d' h = ground arith
script_ids (sql ∷ script) d d' h = elim (Executed-cases (execute sql d)) [
  | inl (d2, e) ↦ script_ids script d2 d' (ground arith) ∙ execute_ids sql d d2 e
  | inr (inl e) ↦ absurd (ground arith)
  | inr (inr (t, e)) ↦ absurd (ground arith)
]

-- A script whose every statement is `IF NOT EXISTS` does nothing where everything is made.
script_again :
    (script : List Statement) (d : Disk)
    → all_if_not_exists script ≡ true
    → AllMade script d
    → execute_script script d ≡ (ok tt, d)
unfolding execute_script execute
script_again [] d k h = refl
script_again (create_table t cs ∷ script) d k h = ground (arith, h.0, script_again script d k h.1)
script_again (create_index n t cs ∷ script) d k h = ground (arith, h.0, script_again script d k h.1)
script_again (add_column t c ∷ script) d k h = cc

-- The migration was recorded before, or it is made.
abbrev pub Applied : List ℕ → Disk → ℕ × Statement → Type 0
Applied applied d m =
    (elem m.0 applied ≡ true) ⊎ ((elem m.0 d.schema_migrations ≡ true) × (made m.1 d ≡ true))

record_id_there :
    (mid : ℕ) (d : Disk)
    → Grows d (record_id mid d) × (elem mid (record_id mid d).schema_migrations ≡ true)
record_id_there mid d = elim (Bool-cases (elem mid d.schema_migrations)) [
  | inl e ↦ rw e (Grows-refl d, e)
  | inr e ↦ rw e (
    record {
      tables = λ x h. h;
      columns = λ x h. h;
      indexes = λ x h. h;
      ids = λ x h. elem-append_left x d.schema_migrations _ h;
    },
    elem-append_last mid d.schema_migrations,
  )
]

recorded_made :
    (applied : List ℕ) (mid : ℕ) (sql : Statement) (ms : List (ℕ × Statement)) (d d2 d' : Disk)
    → Grows d d2
    → made sql d2 ≡ true
    → Grows (record_id mid d2) d' × All (Applied applied d') ms
    → Grows d d' × All (Applied applied d') ((mid, sql) ∷ ms)
recorded_made applied mid sql ms d d2 d' g there (g', rest) =
    let (kept, recorded) = record_id_there mid d2 in
    let grown = Grows-trans d2 (record_id mid d2) d' kept g' in
    (
      Grows-trans d d2 d' g grown,
      (inr (g'.ids mid recorded, made-Grows sql d2 d' grown there), rest),
    )

migrate-Applied :
    (applied : List ℕ) (ms : List (ℕ × Statement)) (d d' : Disk)
    → migrate applied ms d ≡ (ok tt, d')
    → Grows d d' × All (Applied applied d') ms
unfolding migrate apply_migration
migrate-Applied applied [] d d' h =
    let same : d ≡ d' = ap (λ (p : Result (Unit {0}) × Disk). p.1) h in
    (subst (Grows d) same (Grows-refl d), tt)
migrate-Applied applied ((mid, sql) ∷ ms) d d' h = elim (Bool-cases (elem mid applied)) [
  | inl e ↦ let (g, rest) = migrate-Applied applied ms d d' (ground arith) in (g, (inl e, rest))
  | inr e ↦ elim (Executed-cases (execute sql d)) [
    | inl (d2, k) ↦
        recorded_made applied mid sql ms d d2 d' (rw k at (execute-Grows sql d))
          (rw k at (execute-made sql d (λ t m. ground arith)))
          (migrate-Applied applied ms (record_id mid d2) d' (ground arith))
    | inr (inl k) ↦
        recorded_made applied mid sql ms d d d' (Grows-refl d)
          (rw k at (execute-made sql d (λ t m. ground arith)))
          (migrate-Applied applied ms (record_id mid d) d' (ground arith))
    | inr (inr (t, k)) ↦ absurd (ground arith)
  ]
]

migrate_again :
    (applied : List ℕ) (ms : List (ℕ × Statement)) (d : Disk)
    → All (λ m. elem m.0 applied ≡ true) ms
    → migrate applied ms d ≡ (ok tt, d)
unfolding migrate
migrate_again applied [] d h = refl
migrate_again applied ((mid, sql) ∷ ms) d h = rw h.0 (migrate_again applied ms d h.1)

schema_if_not_exists : all_if_not_exists schema ≡ true
unfolding schema
schema_if_not_exists = refl

started :
    (d d' : Disk)
    → initialise d ≡ (ok tt, d')
    → (d2 : Disk) × (execute_script schema d ≡ (ok tt, d2))
      × (migrate d2.schema_migrations migrations d2 ≡ (ok tt, d'))
unfolding initialise
started d d' h = elim (Result-cases (execute_script schema d).0) [
  | inl (u, e) ↦ ((execute_script schema d).1, ground arith, ground arith)
  | inr (t, e) ↦ absurd (ground arith)
]

All-recorded :
    (applied : List ℕ) (d d' : Disk) (ms : List (ℕ × Statement))
    → ((x : ℕ) → elem x applied ≡ true → elem x d'.schema_migrations ≡ true)
    → All (Applied applied d') ms
    → All (λ m. elem m.0 d'.schema_migrations ≡ true) ms
All-recorded applied d d' ms kept h =
    All-mono (Applied applied d') (λ m. elem m.0 d'.schema_migrations ≡ true) ms
      (λ m k. elim k [ inl e ↦ kept m.0 e | inr (e, _) ↦ e ]) h

-- A start of the database that succeeds, from whatever file, leaves every table and index of the
-- baseline schema in place, every migration recorded, and what each migration that was not recorded
-- makes in place, also where a part of it was there before.
pub start_complete :
    (b b' : Database)
    → b.is_open ≡ false
    → get_db b ≡ (ok tt, b')
    → AllMade schema b'.disk
      × All (λ m. elem m.0 b'.disk.schema_migrations ≡ true) migrations
      × All (Applied b.disk.schema_migrations b'.disk) migrations
unfolding get_db
start_complete b b' shut h =
    let (d2, scripted, migrated) = started b.disk b'.disk (ground arith) in
    let (g, there) = script_made schema b.disk d2 scripted in
    let (g', applied) = migrate-Applied d2.schema_migrations migrations d2 b'.disk migrated in
    (
      AllMade-Grows schema d2 b'.disk g' there,
      All-recorded d2.schema_migrations d2 b'.disk migrations g'.ids applied,
      subst (λ (ids : List ℕ). All (Applied ids b'.disk) migrations)
          (script_ids schema b.disk d2 scripted) applied,
    )

initialised_again :
    (d : Disk)
    → AllMade schema d
    → All (λ m. elem m.0 d.schema_migrations ≡ true) migrations
    → initialise d ≡ (ok tt, d)
unfolding initialise
initialised_again d there recorded = ground (
  arith,
  script_again schema d schema_if_not_exists there,
  migrate_again d.schema_migrations migrations d recorded,
)

-- The start after a start that succeeded and a stop succeeds too, and changes nothing.
pub restart_changes_nothing :
    (b b' : Database)
    → b.is_open ≡ false
    → get_db b ≡ (ok tt, b')
    → get_db (close_db b') ≡ (ok tt, b')
unfolding get_db close_db
restart_changes_nothing b b' shut h =
    let (there, recorded, _) = start_complete b b' shut h in
    ground (arith, initialised_again b'.disk there recorded)
