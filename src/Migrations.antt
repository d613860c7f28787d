-- ===== src/Migrations.antt =====
-- backend/migrations: the revisions of the schema and the run of Alembic, over an interface of its operations.
pub mod Versions
pub mod RoundTrip
pub mod Head
mod Tests
use drift_triage_co_pilot.Prelude.{
  ℕ, ◌≡◌, ◌≢◌, Bool, true, String, Option, none, List, Result, ok, raised, Exception,
}

-- The types that `sa.Column` is given.
pub data ColumnType : Type 0 where
  text small_integer integer double jsonb timestamp : ColumnType

-- `sa.Column(name, type, server_default=…, nullable=…)`
pub record Column : Type 0 where
  pub name : String
  pub type : ColumnType
  pub server_default : Option String
  pub nullable : Bool

pub data TableConstraint : Type 0 where
  primary_key : List String → TableConstraint
  foreign_key : List String → List String → TableConstraint

-- `alembic.op` on schemas of type `S`; a refused statement raises.
pub record Operations (S : Type 0) : Type 0 where
  pub create_extension : String → S → Result S
  pub create_table : String → List Column → List TableConstraint → S → Result S
  pub drop_table : String → S → Result S
  pub create_index : String → String → List String → S → Result S
  pub drop_index : String → String → S → Result S
  pub add_column : String → Column → S → Result S
  pub drop_column : String → String → S → Result S
  pub create_unique_constraint : String → String → List String → S → Result S
  pub drop_constraint : String → String → S → Result S
  -- whether a table has a column of the name
  pub has_column : String → String → S → Bool

-- What PostgreSQL documents of these statements: each is undone by its opposite, and a column is added once.
pub record IsPostgres {S : Type 0} (op : Operations S) : Type 0 where
  pub drop-create_table :
      (t : String) (cs : List Column) (ks : List TableConstraint) (s s' : S)
      → op.create_table t cs ks s ≡ ok s'
      → op.drop_table t s' ≡ ok s
  pub drop-create_index :
      (i t : String) (cs : List String) (s s' : S)
      → op.create_index i t cs s ≡ ok s'
      → op.drop_index i t s' ≡ ok s
  pub drop-add_column :
      (t : String) (c : Column) (s s' : S)
      → op.add_column t c s ≡ ok s'
      → op.drop_column t c.name s' ≡ ok s
  pub drop-create_unique :
      (k t : String) (cs : List String) (s s' : S)
      → op.create_unique_constraint k t cs s ≡ ok s'
      → op.drop_constraint k t s' ≡ ok s
  pub added :
      (t : String) (c : Column) (s s' : S)
      → op.add_column t c s ≡ ok s'
      → op.has_column t c.name s' ≡ true
  pub added_again :
      (t : String) (c : Column) (s : S)
      → op.has_column t c.name s ≡ true
      → (e : Exception) × (op.add_column t c s ≡ raised e)
  pub kept_by_column :
      (t : String) (c : Column) (name : String) (s s' : S)
      → op.has_column t name s ≡ true
      → op.add_column t c s ≡ ok s'
      → op.has_column t name s' ≡ true
  pub kept_by_unique :
      (k t : String) (cs : List String) (name : String) (s s' : S)
      → op.has_column t name s ≡ true
      → op.create_unique_constraint k t cs s ≡ ok s'
      → op.has_column t name s' ≡ true
