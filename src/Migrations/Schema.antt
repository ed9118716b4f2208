-- ===== src/Migrations/Schema.antt =====
-- The database as the migrations see it: tables with their columns, constraints and rows, and the
-- enumeration types. A row lists its cells under the names of their columns.
use library_api.Prelude.{
  ℕ, String, Bool, true, false, ◌||◌, Option, none, some, List, [], ◌∷◌, ◌==◌, if◌then◌else◌, map,
}
use library_api.Datetime.{Datetime}

pub data Cell : Type 0 where
  null : Cell
  string : String → Cell
  boolean : Bool → Cell
  numeric : ℕ → Cell
  moment : Datetime → Cell

-- The types of columns: `sa.String(length)`, `sa.Enum(..., name)` and the others. The labels of an
-- enumeration stand in the database.
pub data SqlType : Type 0 where
  varchar : Option ℕ → SqlType
  text : SqlType
  boolean : SqlType
  date_time : SqlType
  integer : SqlType
  decimal : ℕ → ℕ → SqlType
  enum : String → SqlType

pub record Column : Type 0 where
  pub name : String
  pub type : SqlType
  pub nullable : Bool
  pub server_default : Option Cell

pub record ForeignKey : Type 0 where
  pub constraint : Option String
  pub column : String
  pub table : String
  pub target : String

pub record Table : Type 0 where
  pub name : String
  pub columns : List Column
  pub primary_key : String
  pub unique : List String
  pub foreign_keys : List ForeignKey
  pub rows : List (List (String × Cell))

pub record EnumType : Type 0 where
  pub name : String
  pub labels : List String

pub record Database : Type 0 where
  pub tables : List Table
  pub enums : List EnumType

-- The refusals of PostgreSQL.
pub data SqlError : Type 0 where
  duplicate_table : SqlError
  undefined_table : SqlError
  duplicate_column : SqlError
  undefined_column : SqlError
  duplicate_object : SqlError
  undefined_object : SqlError
  dependent_objects : SqlError
  not_null_violation : SqlError
  unique_violation : SqlError
  foreign_key_violation : SqlError
  string_data_right_truncation : SqlError

pub data Sql (A : Type 0) : Type 0 where
  ok : A → Sql A
  err : SqlError → Sql A

abbrev pub bind : {A B : Type 0} → Sql A → (A → Sql B) → Sql B
bind (ok a) f = f a
bind (err e) f = err e

-- A migration runs in a transaction: an error leaves no state behind.
abbrev pub Migration : Type 0
Migration = Database → Sql Database

infixl 5 ◌>>◌
abbrev pub ◌>>◌ : Migration → Migration → Migration
◌>>◌ m k d = bind (m d) k

abbrev pub Record : Type 0
Record = List (String × Cell)

-- What stands in a column, `NULL` where a row has no such cell.
unfoldable pub read : String → Record → Cell
read c [] = null
read c ((k, v) ∷ r) = if k == c then v else read c r

abbrev pub is_null : Cell → Bool
is_null null = true
is_null _ = false

abbrev pub is_string : String → Cell → Bool
is_string s (string t) = t == s
is_string s _ = false

abbrev pub any {ℓ} : {A : Type ℓ} → (A → Bool) → List A → Bool
any p [] = false
any p (x ∷ l) = p x || any p l

unfoldable pub find_table : String → List Table → Option Table
find_table n [] = none
find_table n (t ∷ l) = if t.name == n then some t else find_table n l

abbrev pub rows_of : Option Table → List Record
rows_of none = []
rows_of (some t) = t.rows

-- `SELECT c FROM n`, no row at all for a table that is not there.
abbrev pub values : String → String → Database → List Cell
values n c d = map (read c) (rows_of (find_table n d.tables))
