-- ===== src/Migrations.antt =====
-- db/migrations/versions: the statements of the Alembic revisions over the schema of a PostgreSQL database, as
-- far as the revisions use them. One `alembic` run is one transaction: a statement that raises undoes all.
pub mod JobTables
pub mod CatalogTables
pub mod Baseline
pub mod ScheduledJobs
pub mod LineageTables
pub mod Frame
pub mod Downgrade
pub mod Growth
pub mod Repeat
mod Tests
use dhp.Prelude.{
  String, Bool, true, false, not, ◌&&◌, ◌||◌, Option, none, some, List, [], ◌∷◌, ◌++◌, map, keep,
  str_eq, if◌then◌else◌,
}

-- What follows the type of a column; every reference is ON DELETE CASCADE.
pub data Constraint : Type 0 where
  primary_key not_null unique : Constraint
  default_to : String → Constraint
  one_of : List String → Constraint
  references : String → String → Constraint

pub record Column : Type 0 where
  pub name : String
  pub sql_type : String
  pub constraints : List Constraint

abbrev pub column : String → String → List Constraint → Column
column n t cs = record { name = n; sql_type = t; constraints = cs }

-- A table with its UNIQUE constraints over several columns.
pub record Table : Type 0 where
  pub name : String
  pub columns : List Column
  pub uniques : List (List String)

-- An index, partial where it has a condition.
pub record Index : Type 0 where
  pub name : String
  pub table : String
  pub columns : List String
  pub condition : Option String

-- A BEFORE UPDATE trigger for each row.
pub record Trigger : Type 0 where
  pub name : String
  pub table : String
  pub function : String

pub record Function : Type 0 where
  pub name : String
  pub body : String

pub record Schema : Type 0 where
  pub extensions : List String
  pub tables : List Table
  pub indexes : List Index
  pub functions : List Function
  pub triggers : List Trigger

-- CREATE … IF NOT EXISTS, CREATE OR REPLACE FUNCTION, the block that creates a trigger unless `pg_trigger` has
-- its name, and DROP … IF EXISTS, for a table with or without CASCADE.
pub data Statement : Type 0 where
  create_extension drop_function drop_index : String → Statement
  create_function : Function → Statement
  create_table : Table → Statement
  create_index : Index → Statement
  create_trigger : Trigger → Statement
  drop_trigger : String → String → Statement
  drop_table : String → Bool → Statement

module _ {ℓ} {A : Type ℓ} where
  abbrev pub any : (A → Bool) → List A → Bool
  any p [] = false
  any p (x ∷ xs) = p x || any p xs

abbrev pub has : String → List String → Bool
has n = any (λ s. str_eq s n)

abbrev pub has_table : String → List Table → Bool
has_table n = any (λ t. str_eq t.name n)

abbrev pub has_function : String → List Function → Bool
has_function n = any (λ f. str_eq f.name n)

-- CREATE OR REPLACE FUNCTION: a function of the name gets the new body.
abbrev pub put : Function → List Function → List Function
put f [] = f ∷ []
put f (g ∷ gs) = if str_eq g.name f.name then f ∷ gs else g ∷ put f gs

abbrev pub foreign : List Constraint → List String
foreign [] = []
foreign (references t c ∷ ks) = t ∷ foreign ks
foreign (_ ∷ ks) = foreign ks

abbrev pub foreign_of : List Column → List String
foreign_of [] = []
foreign_of (c ∷ cs) = foreign c.constraints ++ foreign_of cs

-- The tables to which a table has foreign keys.
abbrev pub targets : Table → List String
targets t = foreign_of t.columns

-- Whether every table that a foreign key names is there.
abbrev pub resolves : List Table → Table → Bool
resolves ts t = not (any (λ n. not (has_table n ts)) (targets t))

abbrev pub is_foreign : String → Constraint → Bool
is_foreign n (references t c) = str_eq t n
is_foreign n _ = false

abbrev pub detach_column : String → Column → Column
detach_column n c = record c { constraints = keep (λ k. not (is_foreign n k)) c.constraints }

-- The table without its foreign keys to `n`.
abbrev pub detach : String → Table → Table
detach n t = record t { columns = map (detach_column n) t.columns }

-- Whether the table is the one of the index, with its columns.
abbrev pub is_indexable : Index → Table → Bool
is_indexable i t =
    str_eq t.name i.table && not (any (λ n. not (any (λ c. str_eq c.name n) t.columns)) i.columns)

-- A table goes with its indexes and triggers, and with the foreign keys to it.
abbrev pub without_table : String → Schema → Schema
without_table n d = record d {
  tables = map (detach n) (keep (λ t. not (str_eq t.name n)) d.tables);
  indexes = keep (λ i. not (str_eq i.table n)) d.indexes;
  triggers = keep (λ t. not (str_eq t.table n)) d.triggers;
}

-- One statement; `none` where it raises. Of a foreign key, the table is looked for and not its column.
unfoldable pub run : Statement → Schema → Option Schema
run (create_extension e) d =
    if has e d.extensions then some d else some (record d { extensions = d.extensions ++ e ∷ [] })
run (create_function f) d = some (record d { functions = put f d.functions })
run (drop_function f) d =
    if any (λ t. str_eq t.function f) d.triggers
    then none
    else some (record d { functions = keep (λ g. not (str_eq g.name f)) d.functions })
run (drop_index n) d = some (record d { indexes = keep (λ i. not (str_eq i.name n)) d.indexes })
run (create_table t) d =
    if has_table t.name d.tables
    then some d
    else if resolves d.tables t
    then some (record d { tables = d.tables ++ t ∷ [] })
    else none
run (create_index i) d =
    if any (λ j. str_eq j.name i.name) d.indexes
    then some d
    else if any (is_indexable i) d.tables
    then some (record d { indexes = d.indexes ++ i ∷ [] })
    else none
run (create_trigger t) d =
    if any (λ u. str_eq u.name t.name) d.triggers
    then some d
    else if has_table t.table d.tables && has_function t.function d.functions
    then some (record d { triggers = d.triggers ++ t ∷ [] })
    else none
run (drop_trigger n t) d =
    some (record d { triggers = keep (λ u. not (str_eq u.name n && str_eq u.table t)) d.triggers })
run (drop_table n cascade) d =
    if has_table n d.tables
    then (if cascade
          || not (any (λ t. has n (targets t)) (keep (λ t. not (str_eq t.name n)) d.tables))
        then some (without_table n d)
        else none)
    else some d

abbrev allows : String → Constraint → Bool
allows v (one_of vs) = has v vs
allows v _ = true

-- Whether the CHECK of a column lets a text pass.
abbrev pub passes : Table → String → String → Bool
passes t n v =
    not (any (λ c. str_eq c.name n && any (λ k. not (allows v k)) c.constraints) t.columns)

unfoldable pub run_all : List Statement → Schema → Option Schema
run_all [] d = some d
run_all (s ∷ ss) d = elim (run s d) [ none ↦ none | some e ↦ run_all ss e ]

pub record Migration : Type 0 where
  pub revision : String
  pub down_revision : Option String
  pub upgrade : List Statement
  pub downgrade : List Statement

-- `alembic upgrade` over revisions, the oldest first.
unfoldable pub upgrades : List Migration → List Statement
upgrades [] = []
upgrades (m ∷ ms) = m.upgrade ++ upgrades ms

-- `alembic downgrade` over the same revisions: the newest first.
unfoldable pub downgrades : List Migration → List Statement
downgrades [] = []
downgrades (m ∷ ms) = downgrades ms ++ m.downgrade
