-- ===== src/Migrations/Operations.antt =====
-- The statements that the migrations are made of, translated as Table translates queries: what
-- PostgreSQL does for the data definition statement that an operation of Alembic stands for, and for
-- the statements that the migrations execute. Only an `INSERT` brings texts from outside, whose
-- lengths it compares with those of the columns; an `UPDATE` brings constants that fit.
use Prim.Native.String.{count}
use library_api.Prelude.{
  String, Bool, true, false, not, ◌&&◌, Option, none, some, List, [], ◌∷◌, ◌++◌, map, ◌==◌,
  if◌then◌else◌, select, is_some, ltb,
}
use library_api.Migrations.Schema.{
  Cell, null, string, SqlType, Column, ForeignKey, Table, EnumType, Record, read, SqlError, Sql, ok,
  err, bind, Migration, duplicate_table, undefined_table, duplicate_column, undefined_column,
  duplicate_object, undefined_object, dependent_objects, not_null_violation, unique_violation,
  foreign_key_violation, string_data_right_truncation, varchar, any, is_null, is_string, find_table,
}

-- `sa.Column(name, type, nullable=...)`
abbrev pub column : String → SqlType → Bool → Column
column n ty b = record { name = n; type = ty; nullable = b; server_default = none }

-- `sa.ForeignKeyConstraint([c], [n.target])`
abbrev pub foreign_key : String → String → String → ForeignKey
foreign_key c n target = record { constraint = none; column = c; table = n; target = target }

abbrev pub named : String → Table → Bool
named n t = t.name == n

abbrev pub has_column : String → Table → Bool
has_column c t = any (λ k. k.name == c) t.columns

abbrev pub refuse : {A : Type 0} → Bool → SqlError → Sql A → Sql A
refuse true e m = err e
refuse false e m = m

-- A change of the one table of a name.
unfoldable pub alter : String → (Table → Sql Table) → List Table → Sql (List Table)
alter n f [] = err undefined_table
alter n f (t ∷ l) =
    let rest = bind (alter n f l) (λ l'. ok (t ∷ l')) in
    if t.name == n then bind (f t) (λ t'. ok (t' ∷ l)) else rest

unfoldable pub alter_table : String → (Table → Sql Table) → Migration
alter_table n f d = bind (alter n f d.tables) (λ l. ok (record d { tables = l }))

abbrev pub default_or_null : Option Cell → Cell
default_or_null none = null
default_or_null (some v) = v

abbrev is_empty : List Record → Bool
is_empty [] = true
is_empty (r ∷ l) = false

abbrev pub lacks_value : Column → Table → Bool
lacks_value k t = (not k.nullable && not (is_some k.server_default)) && not (is_empty t.rows)

abbrev pub widened : Column → Table → Table
widened k t = record t {
  columns = t.columns ++ k ∷ [];
  rows = map (λ r. r ++ (k.name, default_or_null k.server_default) ∷ []) t.rows;
}

-- `op.add_column`: the rows that are there get the server's default, or `NULL`.
unfoldable pub add_column : Column → Table → Sql Table
add_column k t =
    refuse (has_column k.name t) duplicate_column
      (refuse (lacks_value k t) not_null_violation (ok (widened k t)))

-- `op.drop_column`: the constraints on the column go with it.
unfoldable pub drop_column : String → Table → Sql Table
drop_column c t = refuse (not (has_column c t)) undefined_column (
    ok (record t {
      columns = select (λ k. not (k.name == c)) t.columns;
      unique = select (λ u. not (u == c)) t.unique;
      foreign_keys = select (λ f. not (f.column == c)) t.foreign_keys;
      rows = map (select (λ e. not (e.0 == c))) t.rows;
    }))

abbrev pub change_column : String → (Column → Column) → List Column → List Column
change_column c f l = map (λ k. if k.name == c then f k else k) l

-- `op.alter_column(..., nullable=False)`
unfoldable pub set_not_null : String → Table → Sql Table
set_not_null c t = refuse (not (has_column c t)) undefined_column (
    refuse (any (λ r. is_null (read c r)) t.rows) not_null_violation
      (ok (record t { columns = change_column c (λ k. record k { nullable = false }) t.columns })))

-- `op.alter_column(..., server_default=None)`
unfoldable pub drop_default : String → Table → Sql Table
drop_default c t = refuse (not (has_column c t)) undefined_column (
    ok (record t { columns = change_column c (λ k. record k { server_default = none }) t.columns }))

unfoldable pub assign : String → Cell → Record → Record
assign c v [] = (c, v) ∷ []
assign c v ((k, w) ∷ r) = if k == c then (k, v) ∷ r else (k, w) ∷ assign c v r

-- `UPDATE n SET c = v WHERE p`
unfoldable pub update_where : (Record → Bool) → String → Cell → Table → Sql Table
update_where p c v t =
    refuse (not (has_column c t)) undefined_column
      (ok (record t { rows = map (λ r. if p r then assign c v r else r) t.rows }))

abbrev pub every : Record → Bool
every r = true

unfoldable pub find_enum : String → List EnumType → Bool
find_enum n l = any (λ e. e.name == n) l

-- `CREATE TYPE name AS ENUM (labels)`
unfoldable pub create_type : String → List String → Migration
create_type n labels d =
    refuse (find_enum n d.enums) duplicate_object
      (ok (record d { enums = d.enums ++ (record { name = n; labels = labels }) ∷ [] }))

abbrev lists : String → List String → Bool
lists s l = any (λ t. t == s) l

-- `ALTER TYPE name ADD VALUE IF NOT EXISTS label`
unfoldable pub add_value : String → String → Migration
add_value n label d = refuse (not (find_enum n d.enums)) undefined_object (
    ok (record d {
      enums =
          map
            (λ e.
              if e.name == n && not (lists label e.labels)
              then record e { labels = e.labels ++ label ∷ [] }
              else e)
            d.enums;
    }))

-- `op.create_table`, without the types of its columns, for which SQLAlchemy sends `CREATE TYPE`
-- first, whether they exist or not.
unfoldable pub create_table : Table → Migration
create_table t d = refuse (any (named t.name) d.tables) duplicate_table (
    refuse (any (λ f. not (any (named f.table) d.tables)) t.foreign_keys) undefined_table
      (ok (record d { tables = d.tables ++ t ∷ [] })))

abbrev pub refers : String → Table → Bool
refers n t = not (t.name == n) && any (λ f. f.table == n) t.foreign_keys

-- `op.drop_table`: it names no columns, so that the types of its columns stay.
unfoldable pub drop_table : String → Migration
drop_table n d = refuse (not (any (named n) d.tables)) undefined_table (
    refuse (any (refers n) d.tables) dependent_objects
      (ok (record d { tables = select (λ t. not (t.name == n)) d.tables })))

abbrev matches : String → List Record → Cell → Bool
matches c rows null = true
matches c rows (string s) = any (λ r. is_string s (read c r)) rows
matches c rows _ = false

abbrev pub is_named : String → Option String → Bool
is_named s none = false
is_named s (some t) = t == s

abbrev pub name_taken : Option String → List ForeignKey → Bool
name_taken none l = false
name_taken (some s) l = any (λ f. is_named s f.constraint) l

abbrev pub constrain : ForeignKey → Option Table → Table → Sql Table
constrain f none t = err undefined_table
constrain f (some u) t = refuse (name_taken f.constraint t.foreign_keys) duplicate_object (
    refuse (any (λ r. not (matches f.target u.rows (read f.column r))) t.rows) foreign_key_violation
      (ok (record t { foreign_keys = t.foreign_keys ++ f ∷ [] })))

-- `op.create_foreign_key`
unfoldable pub create_foreign_key : ForeignKey → String → Migration
create_foreign_key f n d = alter_table n (constrain f (find_table f.table d.tables)) d

-- `op.drop_constraint(..., type_="foreignkey")`
unfoldable pub drop_foreign_key : String → Table → Sql Table
drop_foreign_key s t =
    refuse (not (any (λ f. is_named s f.constraint) t.foreign_keys)) undefined_object
      (ok (record t { foreign_keys = select (λ f. not (is_named s f.constraint)) t.foreign_keys }))

abbrev pub clashes : Cell → String → List Record → Bool
clashes (string s) c rows = any (λ r. is_string s (read c r)) rows
clashes _ c rows = false

abbrev pub overlong : SqlType → Cell → Bool
overlong (varchar (some n)) (string s) = ltb n (count s)
overlong _ _ = false

-- `INSERT INTO n`, of a row with a cell for each column of the table.
unfoldable pub insert : Record → Table → Sql Table
insert r t =
    refuse (any (λ k. overlong k.type (read k.name r)) t.columns) string_data_right_truncation (
      refuse (any (λ k. not k.nullable && is_null (read k.name r)) t.columns) not_null_violation (
        refuse (any (λ c. clashes (read c r) c t.rows) (t.primary_key ∷ t.unique)) unique_violation
          (ok (record t { rows = t.rows ++ r ∷ [] }))))
