-- ===== src/Storage/Sqlite/Growth.antt =====
-- A statement takes nothing away, and what it is for is there when it has not failed.
use life_man.Base.{
  Bool, Bool-cases, Eq, List, String, [], arith, elem, inl, inr, nat_eq, refl, string_eq, true, ℕ,
  ◌&&◌, ◌++◌, ◌<>◌, ◌==◌, ◌∷◌, ◌≡◌, ◌≢◌, ◌⊎◌,
}
use life_man.Storage.Sqlite.{
  Disk, Executed, Statement, add_column, column_eq, columns_of, create_index, create_table,
  duplicate, execute, failed, has_columns, ran,
}

module _ {A : Type 0} ⦃e : Eq A⦄ where
  pub elem-append_left : (x : A) (xs ys : List A) → elem x xs ≡ true → elem x (xs ++ ys) ≡ true
  elem-append_left x [] ys h = cc
  elem-append_left x (y ∷ xs) ys h = elim (Bool-cases (y == x)) [
    | inl k ↦ rw k refl
    | inr k ↦ rw k (elem-append_left x xs ys (rw k at h))
  ]

  pub elem-append_last : (x : A) (xs : List A) → elem x (xs ++ x ∷ []) ≡ true
  elem-append_last x [] = rw ((e.beq_iff x x).1 refl) refl
  elem-append_last x (y ∷ xs) = elim (Bool-cases (y == x)) [
    | inl k ↦ rw k refl
    | inr k ↦ rw k (elem-append_last x xs)
  ]

-- Everything that the one disk has, the other has.
pub record Grows (d d' : Disk) : Type 0 where
  pub tables : (x : String) → elem x d.tables ≡ true → elem x d'.tables ≡ true
  pub columns : (x : String × String) → elem x d.columns ≡ true → elem x d'.columns ≡ true
  pub indexes : (x : String) → elem x d.indexes ≡ true → elem x d'.indexes ≡ true
  pub ids : (x : ℕ) → elem x d.schema_migrations ≡ true → elem x d'.schema_migrations ≡ true

pub Grows-refl : (d : Disk) → Grows d d
Grows-refl d = record { tables = λ x h. h; columns = λ x h. h; indexes = λ x h. h; ids = λ x h. h }

pub Grows-trans : (a b c : Disk) → Grows a b → Grows b c → Grows a c
Grows-trans a b c g h = record {
  tables = λ x k. h.tables x (g.tables x k);
  columns = λ x k. h.columns x (g.columns x k);
  indexes = λ x k. h.indexes x (g.indexes x k);
  ids = λ x k. h.ids x (g.ids x k);
}

-- What the statement makes is there.
abbrev pub made : Statement → Disk → Bool
made (create_table table columns) d = elem table d.tables
made (create_index name table columns) d = elem name d.indexes
made (add_column table column) d = elem (table, column) d.columns

pub made-Grows :
    (sql : Statement) (d d' : Disk) → Grows d d' → made sql d ≡ true → made sql d' ≡ true
made-Grows (create_table table columns) d d' g h = g.tables table h
made-Grows (create_index name table columns) d d' g h = g.indexes name h
made-Grows (add_column table column) d d' g h = g.columns (table, column) h

pub Executed-cases :
    (x : Executed) → ((d : Disk) × (x ≡ ran d)) ⊎ (x ≡ duplicate) ⊎ ((e : String) × (x ≡ failed e))
Executed-cases (ran d) = inl (d, refl)
Executed-cases duplicate = inr (inl refl)
Executed-cases (failed e) = inr (inr (e, refl))

-- The disk that a statement leaves.
abbrev pub after : Disk → Executed → Disk
after d (ran d') = d'
after d duplicate = d
after d (failed e) = d

add_table :
    (table : String) (columns : List String) (d : Disk)
    → Grows d (record d {
      tables = d.tables ++ table ∷ [];
      columns = d.columns ++ columns_of table columns;
    })
add_table table columns d = record {
  tables = λ x h. elem-append_left x d.tables _ h;
  columns = λ x h. elem-append_left x d.columns _ h;
  indexes = λ x h. h;
  ids = λ x h. h;
}

pub execute-Grows : (sql : Statement) (d : Disk) → Grows d (after d (execute sql d))
unfolding execute
execute-Grows (create_table table columns) d = elim (Bool-cases (elem table d.tables)) [
  | inl e ↦ rw e (Grows-refl d)
  | inr e ↦ rw e (add_table table columns d)
]
execute-Grows (create_index name table columns) d = elim (Bool-cases (elem name d.indexes)) [
  | inl e ↦ rw e (Grows-refl d)
  | inr e ↦ rw e (elim (Bool-cases (elem table d.tables && has_columns table columns d)) [
    | inl k ↦ rw k (record {
      tables = λ x h. h;
      columns = λ x h. h;
      indexes = λ x h. elem-append_left x d.indexes _ h;
      ids = λ x h. h;
    })
    | inr k ↦ rw k (Grows-refl d)
  ])
]
execute-Grows (add_column table column) d = elim (Bool-cases (elem table d.tables)) [
  | inr e ↦ rw e (Grows-refl d)
  | inl e ↦ rw e (elim (Bool-cases (elem (table, column) d.columns)) [
    | inl k ↦ rw k (Grows-refl d)
    | inr k ↦ rw k (record {
      tables = λ x h. h;
      columns = λ x h. elem-append_left x d.columns _ h;
      indexes = λ x h. h;
      ids = λ x h. h;
    })
  ])
]

-- A statement that does not fail, makes what it is for.
pub execute-made :
    (sql : Statement) (d : Disk)
    → ((e : String) → execute sql d ≢ failed e)
    → made sql (after d (execute sql d)) ≡ true
unfolding execute
execute-made (create_table table columns) d h = elim (Bool-cases (elem table d.tables)) [
  | inl e ↦ ground arith
  | inr e ↦ ground (arith, elem-append_last table d.tables)
]
execute-made (create_index name table columns) d h = elim (Bool-cases (elem name d.indexes)) [
  | inl e ↦ ground arith
  | inr e ↦ elim (Bool-cases (elem table d.tables && has_columns table columns d)) [
    | inl k ↦ ground (arith, elem-append_last name d.indexes)
    | inr k ↦ absurd (h ("no such table or column: " <> table) (ground arith))
  ]
]
execute-made (add_column table column) d h = elim (Bool-cases (elem table d.tables)) [
  | inr e ↦ absurd (h ("no such table: " <> table) (ground arith))
  | inl e ↦ elim (Bool-cases (elem (table, column) d.columns)) [
    | inl k ↦ ground arith
    | inr k ↦ ground (arith, elem-append_last (table, column) d.columns)
  ]
]
