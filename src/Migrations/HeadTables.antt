-- ===== src/Migrations/HeadTables.antt =====
-- alembic/versions: the tables at the head, and what it means that they agree with the models.
use mathlib.Core.List.{Perm}
use library_api.Prelude.{String, ◌≡◌, Bool, true, false, some, List, [], ◌∷◌, ◌++◌, map}
use library_api.Migrations.Schema.{
  SqlType, Column, ForeignKey, Table, Database, Record, Cell, date_time, decimal,
}
use library_api.Migrations.Operations.{column}
use library_api.Migrations.Tables.{
  string, identifier, users, authors, books, loans, notifications, reservations, reservation_key,
}
use library_api.Migrations.Metadata.{
  user_model, author_model, book_model, loan_model, notification_model, reservation_model,
  loan_status, notification_type, notification_status, reservation_status,
}
use library_api.Migrations.Versions.{
  Revision, create_users_table, add_is_active_to_users, create_authors_and_books,
  add_is_active_to_authors_and_books, create_loans_table, create_notifications_table,
  add_fine_paid_at_to_loans, add_fine_paid_amount_to_loans, create_reservations_table,
  add_reservation_notifications, add_role_and_seed_admin,
}

-- The revisions from the base to the head.
abbrev pub history : List Revision
history =
    create_users_table ∷ add_is_active_to_users ∷ create_authors_and_books
    ∷ add_is_active_to_authors_and_books ∷ create_loans_table ∷ create_notifications_table
    ∷ add_fine_paid_at_to_loans ∷ add_fine_paid_amount_to_loans ∷ create_reservations_table
    ∷ add_reservation_notifications ∷ add_role_and_seed_admin ∷ []

abbrev pub empty : Database
empty = record { tables = []; enums = [] }

abbrev pub shape : Column → String × SqlType × Bool
shape k = (k.name, k.type, k.nullable)

abbrev pub link : ForeignKey → String × String × String
link f = (f.column, f.table, f.target)

-- Two tables with the same columns and constraints, in whatever order and under whatever names of
-- constraints. The defaults of the server are left aside.
pub record Agrees (t u : Table) : Type 0 where
  pub names : t.name ≡ u.name
  pub columns : Perm (map shape t.columns) (map shape u.columns)
  pub primary_keys : t.primary_key ≡ u.primary_key
  pub uniques : t.unique ≡ u.unique
  pub keys : Perm (map link t.foreign_keys) (map link u.foreign_keys)

abbrev pub AllAgree : List Table → List Table → Type 0
AllAgree [] [] = Unit {0}
AllAgree (t ∷ l) (u ∷ k) = Agrees t u × AllAgree l k
AllAgree _ _ = ⊥

abbrev pub with_columns : Table → List Column → Table
with_columns t l = record t { columns = t.columns ++ l }

abbrev pub flag : Column
flag = column "is_active" SqlType.boolean false

abbrev pub role : Column
role = record (column "role" (string 20) false) { server_default = some (Cell.string "USER") }

abbrev pub users_at_head : List Record → Table
users_at_head rows = record (with_columns users (flag ∷ role ∷ [])) { rows = rows }

abbrev pub loans_at_head : Table
loans_at_head =
    with_columns loans
      (column "fine_paid_at" date_time true ∷ column "fine_paid_amount" (decimal 10 2) false ∷ [])

abbrev pub notifications_at_head : Table
notifications_at_head =
    record (with_columns notifications (column "reservation_id" identifier true ∷ [])) {
      foreign_keys = notifications.foreign_keys ++ reservation_key ∷ [];
    }

abbrev pub at_head : List Record → Database
at_head rows = record {
  tables =
      users_at_head rows
      ∷ with_columns authors (flag ∷ [])
      ∷ with_columns books (flag ∷ [])
      ∷ loans_at_head
      ∷ notifications_at_head
      ∷ reservations
      ∷ [];
  enums = loan_status ∷ notification_type ∷ notification_status ∷ reservation_status ∷ [];
}

abbrev pub metadata : List Table
metadata =
    user_model ∷ author_model ∷ book_model ∷ loan_model ∷ notification_model ∷ reservation_model
    ∷ []
