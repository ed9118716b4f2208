-- ===== src/Migrations/Undo.antt =====
-- alembic/versions: the changes of one table undone, in the order that the downgrades have.
use library_api.Prelude.{String, ◌≡◌, ◌∙◌, Option, none, some, arith, eq_iff, Bool}
use library_api.Migrations.Schema.{
  Column, ForeignKey, Table, Database, Sql, ok, Migration, find_table, Cell, Record,
}
use library_api.Migrations.Operations.{
  alter_table, add_column, drop_column, set_not_null, drop_default, update_where, constrain,
  drop_foreign_key,
}
use library_api.Migrations.RoundTrip.{IsTidy, drop_column-add_column}
use library_api.Migrations.Changes.{Altered, KeepsName, alter_table-Altered, alter_table_returns}

-- Every name finds the same table, or none.
abbrev pub SameTables : Database → Database → Type 0
SameTables d d' = (m : String) → find_table m d.tables ≡ find_table m d'.tables

-- Every table of a database is tidy.
abbrev pub AllTidy : Database → Type 0
AllTidy d = (n : String) (t : Table) → find_table n d.tables ≡ some t → IsTidy t

-- A migration gives the tables of `d` back.
abbrev pub Restores : Migration → Database → Database → Type 0
Restores k d' d = (d'' : Database) × (k d' ≡ ok d'') × SameTables d'' d × (d''.enums ≡ d'.enums)

pub add_column-KeepsName : (k : Column) → KeepsName (add_column k)
unfolding add_column
add_column-KeepsName k t t' e = ground arith

pub drop_column-KeepsName : (c : String) → KeepsName (drop_column c)
unfolding drop_column
drop_column-KeepsName c t t' e = ground arith

pub set_not_null-KeepsName : (c : String) → KeepsName (set_not_null c)
unfolding set_not_null
set_not_null-KeepsName c t t' e = ground arith

pub drop_default-KeepsName : (c : String) → KeepsName (drop_default c)
unfolding drop_default
drop_default-KeepsName c t t' e = ground arith

pub update_where-KeepsName :
    (p : Record → Bool) (c : String) (v : Cell) → KeepsName (update_where p c v)
unfolding update_where
update_where-KeepsName p c v t t' e = ground arith

pub constrain-KeepsName : (f : ForeignKey) (u : Option Table) → KeepsName (constrain f u)
constrain-KeepsName f none t t' e = ground arith
constrain-KeepsName f (some u) t t' e = ground arith

drop_foreign_key-KeepsName : (s : String) → KeepsName (drop_foreign_key s)
unfolding drop_foreign_key
drop_foreign_key-KeepsName s t t' e = ground arith

module _ (n : String) where
  -- What the name finds after a change.
  pub Altered-found :
      {t' : Table} {d d' : Database} → Altered n t' d d' → find_table n d'.tables ≡ some t'
  Altered-found a = ground (arith, a.others n, eq_iff n n)

  pub Altered-trans :
      {t t' : Table} {c d e : Database} → Altered n t c d → Altered n t' d e → Altered n t' c e
  Altered-trans a b = record {
    others = λ m. ground (arith, a.others m, b.others m);
    types = b.types ∙ a.types;
  }

  -- A change undone by another.
  pub restored :
      (g : Table → Sql Table) (t t' : Table) (d d' : Database)
      → KeepsName g
      → find_table n d.tables ≡ some t
      → Altered n t' d d'
      → g t' ≡ ok t
      → Restores (alter_table n g) d' d
  restored g t t' d d' keeps found a back =
      let (d'', made, b) =
        alter_table_returns n g d' t' t (Altered-found a) back (keeps t' t back) in
      (d'', made, λ m. ground (arith, a.others m, b.others m, eq_iff n m), b.types)

  pub column_restored :
      (k : Column) (d d' : Database)
      → AllTidy d
      → alter_table n (add_column k) d ≡ ok d'
      → Restores (alter_table n (drop_column k.name)) d' d
  column_restored k d d' tidy e =
      let (t, t', found, made, a) =
        alter_table-Altered n (add_column k) d (add_column-KeepsName k) d' e in
      restored (drop_column k.name) t t' d d' (drop_column-KeepsName k.name) found a
        (drop_column-add_column k t t' (tidy n t found) made)
