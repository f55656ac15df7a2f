-- ===== src/Storage/Sqlite.antt =====
-- The statements that define the schema, and what SQLite does with one. Of a schema, the model keeps the
-- names of tables, columns and indexes; the rows of the program's tables are not here, so a unique index that
-- they would violate does not fail.
pub mod Growth
use life_man.Base.{
  Bool, Eq, List, String, [], arith, elem, eq_iff, if◌then◌else◌, nat_eq, string_eq, true, ℕ, ◌&&◌,
  ◌++◌, ◌<>◌, ◌==◌, ◌↔◌, ◌∷◌, ◌≡◌,
}

-- All but `add_column` have `IF NOT EXISTS`.
pub data Statement : Type 0 where
  create_table : String → List String → Statement
  create_index : String → String → List String → Statement
  add_column : String → String → Statement

pub record Disk : Type 0 where
  pub tables : List String
  pub columns : List (String × String)
  pub indexes : List String
  pub schema_migrations : List ℕ

-- A statement runs, fails since the column is there already, or fails otherwise.
pub data Executed : Type 0 where
  ran : Disk → Executed
  duplicate : Executed
  failed : String → Executed

abbrev pub column_beq : String × String → String × String → Bool
column_beq (t, c) (t', c') = (t == t') && (c == c')

pub column_beq_iff : (a b : String × String) → (column_beq a b ≡ true) ↔ (a ≡ b)
column_beq_iff (t, c) (t', c') =
    (λ h. ground (arith, eq_iff t t', eq_iff c c'), λ h. ground (arith, eq_iff t t', eq_iff c c'))

instance abbrev pub column_eq : Eq (String × String)
column_eq = record { beq = column_beq; beq_iff = column_beq_iff }

abbrev pub columns_of : String → List String → List (String × String)
columns_of table [] = []
columns_of table (c ∷ cs) = (table, c) ∷ columns_of table cs

-- Every one of the columns is there.
abbrev pub has_columns : String → List String → Disk → Bool
has_columns table [] d = true
has_columns table (c ∷ cs) d = elem (table, c) d.columns && has_columns table cs d

unfoldable pub execute : Statement → Disk → Executed
execute (create_table table columns) d =
    if elem table d.tables
    then ran d
    else ran (record d {
      tables = d.tables ++ table ∷ [];
      columns = d.columns ++ columns_of table columns;
    })
execute (create_index name table columns) d =
    if elem name d.indexes
    then ran d
    else if elem table d.tables && has_columns table columns d
    then ran (record d { indexes = d.indexes ++ name ∷ [] })
    else failed ("no such table or column: " <> table)
execute (add_column table column) d =
    if elem table d.tables
    then if elem (table, column) d.columns
      then duplicate
      else ran (record d { columns = d.columns ++ (table, column) ∷ [] })
    else failed ("no such table: " <> table)
