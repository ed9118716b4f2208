-- ===== src/Migrations/Versions.antt =====
-- alembic/versions: `upgrade` and `downgrade` of each revision.
use library_api.Prelude.{Bool, true, false, Option, none, some, List, [], ◌∷◌}
use library_api.External.{External}
use library_api.Migrations.Schema.{
  Cell, SqlType, date_time, decimal, Column, Table, Sql, ok, bind, Migration, ◌>>◌,
}
use library_api.Migrations.Operations.{
  column, alter_table, add_column, drop_column, set_not_null, drop_default, every, update_where,
  create_type, add_value, create_table, drop_table, create_foreign_key, drop_foreign_key,
}
use library_api.Migrations.Tables.{
  identifier, users, authors, books, loans, notifications, reservations, reservation_key,
}
use library_api.Migrations.Seed.{Environment, add_role, drop_role}

-- The revisions, by what their files are named after.
pub data Revision : Type 0 where
  create_users_table : Revision
  add_is_active_to_users : Revision
  create_authors_and_books : Revision
  add_is_active_to_authors_and_books : Revision
  create_loans_table : Revision
  create_notifications_table : Revision
  add_fine_paid_at_to_loans : Revision
  add_fine_paid_amount_to_loans : Revision
  create_reservations_table : Revision
  add_reservation_notifications : Revision
  add_role_and_seed_admin : Revision

abbrev pub is_active : Bool → Column
is_active nullable = column "is_active" SqlType.boolean nullable

abbrev pub set_active : Table → Sql Table
set_active = update_where every "is_active" (Cell.boolean true)

unfoldable pub upgrade_users : Migration
upgrade_users = create_table users

unfoldable pub upgrade_users_activity : Migration
upgrade_users_activity = alter_table "users" (add_column (is_active false))

unfoldable pub upgrade_catalogue : Migration
upgrade_catalogue = create_table authors >> create_table books

unfoldable pub upgrade_catalogue_activity : Migration
upgrade_catalogue_activity =
    alter_table "authors" (add_column (is_active true))
    >> alter_table "books" (add_column (is_active true))
    >> alter_table "authors" set_active
    >> alter_table "books" set_active
    >> alter_table "authors" (set_not_null "is_active")
    >> alter_table "books" (set_not_null "is_active")

unfoldable pub upgrade_loans : Migration
upgrade_loans =
    create_type "loanstatus" ("ACTIVE" ∷ "RETURNED" ∷ "CANCELLED" ∷ []) >> create_table loans

unfoldable pub upgrade_notifications : Migration
upgrade_notifications =
    create_type "notificationtype" (
      "LOAN_CREATED" ∷ "LOAN_RETURNED" ∷ "LOAN_CANCELLED" ∷ "LOAN_DUE_SOON" ∷ "LOAN_DUE_TODAY"
      ∷ "LOAN_OVERDUE" ∷ [])
    >> create_type "notificationstatus" ("SENT" ∷ "FAILED" ∷ [])
    >> create_table notifications

unfoldable pub upgrade_fine_paid_at : Migration
upgrade_fine_paid_at = alter_table "loans" (add_column (column "fine_paid_at" date_time true))

unfoldable pub upgrade_fine_paid_amount : Migration
upgrade_fine_paid_amount =
    alter_table "loans" (
      add_column (record (column "fine_paid_amount" (decimal 10 2) false) {
        server_default = some (Cell.numeric 0);
      }))
    >> alter_table "loans" (drop_default "fine_paid_amount")

unfoldable pub upgrade_reservations : Migration
upgrade_reservations =
    create_type "reservationstatus" ("ACTIVE" ∷ "CANCELLED" ∷ "FULFILLED" ∷ [])
    >> create_table reservations

unfoldable pub upgrade_reservation_notices : Migration
upgrade_reservation_notices =
    add_value "notificationtype" "RESERVATION_CREATED"
    >> add_value "notificationtype" "RESERVATION_CANCELLED"
    >> alter_table "notifications" (add_column (column "reservation_id" identifier true))
    >> create_foreign_key reservation_key "notifications"

abbrev pub downgrade_users : Migration
downgrade_users = drop_table "users"

abbrev pub downgrade_users_activity : Migration
downgrade_users_activity = alter_table "users" (drop_column "is_active")

abbrev pub downgrade_catalogue : Migration
downgrade_catalogue = drop_table "books" >> drop_table "authors"

abbrev pub downgrade_catalogue_activity : Migration
downgrade_catalogue_activity =
    alter_table "books" (drop_column "is_active") >> alter_table "authors" (drop_column "is_active")

abbrev pub downgrade_loans : Migration
downgrade_loans = drop_table "loans"

abbrev pub downgrade_notifications : Migration
downgrade_notifications = drop_table "notifications"

abbrev pub downgrade_fine_paid_at : Migration
downgrade_fine_paid_at = alter_table "loans" (drop_column "fine_paid_at")

abbrev pub downgrade_fine_paid_amount : Migration
downgrade_fine_paid_amount = alter_table "loans" (drop_column "fine_paid_amount")

abbrev pub downgrade_reservations : Migration
downgrade_reservations = drop_table "reservations"

abbrev pub downgrade_reservation_notices : Migration
downgrade_reservation_notices =
    alter_table "notifications" (drop_foreign_key "fk_notifications_reservation_id_reservations")
    >> alter_table "notifications" (drop_column "reservation_id")

unfoldable pub downgrade : Revision → Migration
downgrade create_users_table = downgrade_users
downgrade add_is_active_to_users = downgrade_users_activity
downgrade create_authors_and_books = downgrade_catalogue
downgrade add_is_active_to_authors_and_books = downgrade_catalogue_activity
downgrade create_loans_table = downgrade_loans
downgrade create_notifications_table = downgrade_notifications
downgrade add_fine_paid_at_to_loans = downgrade_fine_paid_at
downgrade add_fine_paid_amount_to_loans = downgrade_fine_paid_amount
downgrade create_reservations_table = downgrade_reservations
downgrade add_reservation_notifications = downgrade_reservation_notices
downgrade add_role_and_seed_admin = drop_role

-- The links `down_revision`.
unfoldable pub down_revision : Revision → Option Revision
down_revision create_users_table = none
down_revision add_is_active_to_users = some create_users_table
down_revision create_authors_and_books = some add_is_active_to_users
down_revision add_is_active_to_authors_and_books = some create_authors_and_books
down_revision create_loans_table = some add_is_active_to_authors_and_books
down_revision create_notifications_table = some create_loans_table
down_revision add_fine_paid_at_to_loans = some create_notifications_table
down_revision add_fine_paid_amount_to_loans = some add_fine_paid_at_to_loans
down_revision create_reservations_table = some add_fine_paid_amount_to_loans
down_revision add_reservation_notifications = some create_reservations_table
down_revision add_role_and_seed_admin = some add_reservation_notifications

module _ ⦃ext : External⦄ where
  unfoldable pub upgrade : Environment → Revision → Migration
  unfolding upgrade_users upgrade_users_activity upgrade_catalogue upgrade_catalogue_activity
      upgrade_loans upgrade_notifications upgrade_fine_paid_at upgrade_fine_paid_amount
      upgrade_reservations upgrade_reservation_notices
  upgrade env create_users_table = upgrade_users
  upgrade env add_is_active_to_users = upgrade_users_activity
  upgrade env create_authors_and_books = upgrade_catalogue
  upgrade env add_is_active_to_authors_and_books = upgrade_catalogue_activity
  upgrade env create_loans_table = upgrade_loans
  upgrade env create_notifications_table = upgrade_notifications
  upgrade env add_fine_paid_at_to_loans = upgrade_fine_paid_at
  upgrade env add_fine_paid_amount_to_loans = upgrade_fine_paid_amount
  upgrade env create_reservations_table = upgrade_reservations
  upgrade env add_reservation_notifications = upgrade_reservation_notices
  upgrade env add_role_and_seed_admin = add_role env

  -- `alembic upgrade` over the revisions of a list.
  unfoldable pub upgrade_all : Environment → List Revision → Migration
  upgrade_all env [] d = ok d
  upgrade_all env (r ∷ rs) d = bind (upgrade env r d) (upgrade_all env rs)
