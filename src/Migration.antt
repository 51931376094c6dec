-- ===== src/Migration.antt =====
-- The tables of the database as they are declared and as they are created: the migration of
-- src/alembic/versions and src/versarr/infrastructure/persistence/schema.py. What a statement does to
-- the database is an interface.
pub mod Declared
pub mod Revision
pub mod Undo
pub mod Upgrade
mod Tests
use versarr.Base.{
  Bool, List, Option, String, [], false, if◌then◌else◌, is_some, nat_eq, none, not, path_eq, some,
  string_eq, true, ℕ, ◌==◌, ◌||◌, ◌∷◌,
}

pub data ColumnType : Type 0 where
  text integer boolean timestamp : ColumnType
  string : ℕ → ColumnType

pub record Column : Type 0 where
  pub name : String
  pub kind : ColumnType
  pub primary_key : Bool
  pub nullable : Bool
  pub autoincrement : Bool

abbrev pub key : String → ColumnType → Column
key name kind = record {
  name = name;
  kind = kind;
  primary_key = true;
  nullable = false;
  autoincrement = false;
}

-- An integer key that the database counts up.
abbrev pub counter : String → Column
counter name = record (key name ColumnType.integer) { autoincrement = true }

abbrev pub required : String → ColumnType → Column
required name kind = record {
  name = name;
  kind = kind;
  primary_key = false;
  nullable = false;
  autoincrement = false;
}

abbrev pub nullable : String → ColumnType → Column
nullable name kind = record (required name kind) { nullable = true }

pub record TableDef : Type 0 where
  pub name : String
  pub columns : List Column

pub record IndexDef : Type 0 where
  pub name : String
  pub table : String
  pub columns : List String

-- `op.create_table` and `op.create_index`.
pub data Creation : Type 0 where
  table : TableDef → Creation
  index : IndexDef → Creation

-- `op.drop_table` and `op.drop_index`, by name.
pub data Removal : Type 0 where
  table index : String → Removal

-- What a database has under each name.
pub record Catalog : Type 0 where
  pub tables : String → Option (List Column)
  pub indexes : String → Option (String × List String)

abbrev pub set_name : {A : Type 0} → String → Option A → (String → Option A) → String → Option A
set_name name v f n = if n == name then v else f n

-- What the statements are documented to do to the names, none where they raise: a name that is taken
-- cannot be created, an index needs its table, and a table is dropped with its indexes.
unfoldable pub create : Creation → Catalog → Option Catalog
create (Creation.table t) c =
    if is_some (c.tables t.name)
    then none
    else some (record c { tables = set_name t.name (some t.columns) c.tables })
create (Creation.index i) c =
    if is_some (c.indexes i.name) || not (is_some (c.tables i.table))
    then none
    else some (record c { indexes = set_name i.name (some (i.table, i.columns)) c.indexes })

abbrev pub of_table : String → Option (String × List String) → Bool
of_table name none = false
of_table name (some (t, columns)) = t == name

abbrev pub without : String → Option (String × List String) → Option (String × List String)
without name o = if of_table name o then none else o

unfoldable pub remove : Removal → Catalog → Option Catalog
remove (Removal.table name) c =
    if is_some (c.tables name)
    then some
        (record { tables = set_name name none c.tables; indexes = λ n. without name (c.indexes n) })
    else none
remove (Removal.index name) c =
    if is_some (c.indexes name)
    then some (record c { indexes = set_name name none c.indexes })
    else none

abbrev pub then_do : {A B : Type 0} → Option A → (A → Option B) → Option B
then_do none f = none
then_do (some a) f = f a

unfoldable pub create_all : List Creation → Catalog → Option Catalog
create_all [] c = some c
create_all (o ∷ t) c = then_do (create o c) (create_all t)

unfoldable pub remove_all : List Removal → Catalog → Option Catalog
remove_all [] c = some c
remove_all (o ∷ t) c = then_do (remove o c) (remove_all t)
