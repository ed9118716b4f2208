-- ===== src/Migrations/Downgrades.antt =====
-- alembic/versions: each downgrade gives back the tables that its upgrade started from, but not
-- the enumeration types.
use library_api.Migrations.Restored.{
  IsClosed, created_dropped, catalogue_restored, typed_restored, notifications_restored,
  fine_paid_amount_restored, reservation_notices_restored,
}
use library_api.Migrations.Activity.{activity_restored}
use library_api.Migrations.Seed.{
  Environment, get_admin_seed_values, add_role, drop_role, seed_admin,
}
use library_api.Migrations.RoundTrip.{drop_column-add_column}
use library_api.Migrations.Operations.{alter_table, drop_column, column}
use library_api.Prelude.{◌≡◌, refl, sym, true, false, none, ap}
use library_api.External.{External}
use library_api.Migrations.Schema.{Table, Database, ok, date_time}
use library_api.Migrations.Tables.{loans, reservations, users}
use library_api.Migrations.Versions.{
  Revision, create_users_table, add_is_active_to_users, create_authors_and_books,
  add_is_active_to_authors_and_books, create_loans_table, create_notifications_table,
  add_fine_paid_at_to_loans, add_fine_paid_amount_to_loans, create_reservations_table,
  add_reservation_notifications, add_role_and_seed_admin, upgrade, downgrade, upgrade_users,
  upgrade_users_activity, upgrade_fine_paid_at, upgrade_loans, upgrade_notifications,
  upgrade_reservations, is_active,
}
use library_api.Migrations.Kept.{bind-eq-ok, ok-injective}
use library_api.Migrations.Changes.{alter_table-Altered, alter_table-Altered_at}
use library_api.Migrations.Undo.{
  SameTables, AllTidy, Restores, add_column-KeepsName, Altered-found, restored,
  drop_column-KeepsName, Altered-trans, column_restored,
}

module _ ⦃ext : External⦄ (env : Environment) (unseeded : get_admin_seed_values env ≡ none) where
  role_restored : (d d' : Database) → AllTidy d → add_role env d ≡ ok d' → Restores drop_role d' d
  unfolding add_role seed_admin
  role_restored d d' tidy e =
      let (d1, s1, s2) =
        bind-eq-ok _ (alter_table "users" (seed_admin env none)) (rw unseeded at e) in
      let (t0, t1, f0, m1, o1) = alter_table-Altered "users" _ d (add_column-KeepsName _) d1 s1 in
      let (t2, m2, o2) =
        alter_table-Altered_at "users" _ d1 (λ t t' h. ap Table.name (sym (ok-injective t t' h))) d'
          t1 (Altered-found "users" o1) s2 in
      restored "users" (drop_column "role") t0 t2 d d' (drop_column-KeepsName _) f0
        (Altered-trans "users" o1 o2)
        (rw (← ok-injective t1 t2 m2) (drop_column-add_column _ t0 t1 (tidy "users" t0 f0) m1))

  -- Where the environment names no administrator, and of a database in which no row and no
  -- constraint is about a column that its table does not have, and no foreign key refers to a table
  -- that is not there: after a successful upgrade by any revision its downgrade succeeds, every name
  -- finds the table again, with its rows, that it found before the upgrade, and the enumeration
  -- types stay as the upgrade left them.
  pub downgrade-upgrade :
      (r : Revision) (d d' : Database)
      → AllTidy d
      → IsClosed d
      → upgrade env r d ≡ ok d'
      → (d'' : Database) × (downgrade r d' ≡ ok d'') × SameTables d'' d × (d''.enums ≡ d'.enums)
  unfolding upgrade upgrade_users upgrade_users_activity upgrade_fine_paid_at upgrade_loans
      upgrade_notifications upgrade_reservations downgrade
  downgrade-upgrade create_users_table d d' tidy closed e =
      created_dropped users d d d' closed refl e
  downgrade-upgrade add_is_active_to_users d d' tidy closed e =
      column_restored "users" (is_active false) d d' tidy e
  downgrade-upgrade create_authors_and_books d d' tidy closed e = catalogue_restored d d' closed e
  downgrade-upgrade add_is_active_to_authors_and_books d d' tidy closed e =
      activity_restored d d' tidy e
  downgrade-upgrade create_loans_table d d' tidy closed e = typed_restored _ _ loans d d' closed e
  downgrade-upgrade create_notifications_table d d' tidy closed e =
      notifications_restored d d' closed e
  downgrade-upgrade add_fine_paid_at_to_loans d d' tidy closed e =
      column_restored "loans" (column "fine_paid_at" date_time true) d d' tidy e
  downgrade-upgrade add_fine_paid_amount_to_loans d d' tidy closed e =
      fine_paid_amount_restored d d' tidy e
  downgrade-upgrade create_reservations_table d d' tidy closed e =
      typed_restored _ _ reservations d d' closed e
  downgrade-upgrade add_reservation_notifications d d' tidy closed e =
      reservation_notices_restored d d' tidy e
  downgrade-upgrade add_role_and_seed_admin d d' tidy closed e = role_restored d d' tidy e
