-- ===== src/Migrations/Head.antt =====
-- alembic/versions: upgrading an empty database to the head makes the tables that the models
-- declare.
use mathlib.Core.List.{perm_append_comm}
use mathlib.Core.List.Perm
use library_api.Prelude.{◌≡◌, refl, Option, none, some, List, [], ◌∷◌, map, take, drop}
use library_api.External.{External}
use library_api.Migrations.Schema.{Table, Database, Record, ok, read, find_table}
use library_api.Migrations.Operations.{
  insert, create_table, create_type, add_value, alter, alter_table, add_column, update_where,
  set_not_null, drop_default, create_foreign_key, find_enum,
}
use library_api.Migrations.Tables.{authors, books, loans, notifications, reservations}
use library_api.Migrations.Seed.{
  Environment, AdminSeed, admin_row, get_admin_seed_values, seed_admin, add_role,
}
use library_api.Migrations.Metadata.{
  user_model, author_model, book_model, loan_model, notification_model, reservation_model,
  loan_status, notification_type, notification_status, reservation_status,
}
use library_api.Migrations.Versions.{
  upgrade, upgrade_all, upgrade_users, upgrade_users_activity, upgrade_catalogue,
  upgrade_catalogue_activity, upgrade_loans, upgrade_notifications, upgrade_fine_paid_at,
  upgrade_fine_paid_amount, upgrade_reservations, upgrade_reservation_notices,
}
use library_api.Migrations.Seeding.{Fits, fitting}
use library_api.Migrations.HeadTables.{
  history, empty, shape, link, Agrees, AllAgree, with_columns, flag, users_at_head, loans_at_head,
  notifications_at_head, at_head, metadata,
}

module _ ⦃ext : External⦄ (env : Environment) where
  abbrev seeded : Option AdminSeed → List Record
  seeded none = []
  seeded (some a) = admin_row env a ∷ []

  -- The administrator to seed, if there is one, fits.
  abbrev SeedFits : Option AdminSeed → Type 0
  SeedFits o = (a : AdminSeed) → o ≡ some a → Fits env a

  seeds_empty :
      (a : Option AdminSeed)
      → SeedFits a
      → seed_admin env a (users_at_head []) ≡ ok (users_at_head (seeded a))
  unfolding seed_admin insert read
  seeds_empty none fits = refl
  seeds_empty (some a) fits =
      let (name, email, password) = fitting env a (fits a refl) in rw (name, email, password) refl

  reaches_head :
      SeedFits (get_admin_seed_values env)
      → upgrade_all env history empty ≡ ok (at_head (seeded (get_admin_seed_values env)))
  unfolding upgrade_all upgrade upgrade_users upgrade_users_activity upgrade_catalogue
      upgrade_catalogue_activity upgrade_loans upgrade_notifications upgrade_fine_paid_at
      upgrade_fine_paid_amount upgrade_reservations upgrade_reservation_notices add_role
      create_table create_type add_value alter alter_table add_column update_where set_not_null
      drop_default create_foreign_key find_table find_enum loan_status notification_type
      notification_status reservation_status
  reaches_head fits = rw (seeds_empty (get_admin_seed_values env) fits) refl

  loans_agree : Agrees loans_at_head loan_model
  unfolding loan_model
  loans_agree = record {
    names = refl;
    columns = Perm.append_left (map shape (take 9 loans.columns)) (
        perm_append_comm (map shape (drop 9 loans.columns))
          (map shape (drop 11 loans_at_head.columns)));
    primary_keys = refl;
    uniques = refl;
    keys = Perm.swap _ _ _;
  }

  notifications_agree : Agrees notifications_at_head notification_model
  unfolding notification_model
  notifications_agree = record {
    names = refl;
    columns = Perm.append_left (map shape (take 3 notifications.columns)) (
        perm_append_comm (map shape (drop 3 notifications.columns))
          (map shape (drop 9 notifications_at_head.columns)));
    primary_keys = refl;
    uniques = refl;
    keys = Perm.swap _ _ _;
  }

  reservations_agree : Agrees reservations reservation_model
  unfolding reservation_model
  reservations_agree = record {
    names = refl;
    columns = Perm.refl _;
    primary_keys = refl;
    uniques = refl;
    keys = Perm.swap _ _ _;
  }

  same_columns :
      (t u : Table)
      → t.name ≡ u.name
      → map shape t.columns ≡ map shape u.columns
      → t.primary_key ≡ u.primary_key
      → t.unique ≡ u.unique
      → map link t.foreign_keys ≡ map link u.foreign_keys
      → Agrees t u
  same_columns t u n c p q k = record {
    names = n;
    columns = rw c (Perm.refl _);
    primary_keys = p;
    uniques = q;
    keys = rw k (Perm.refl _);
  }

  pub all_agree : (rows : List Record) → AllAgree (at_head rows).tables metadata
  unfolding user_model author_model book_model
  all_agree rows =
      let users_agree = same_columns (users_at_head rows) user_model refl refl refl refl refl in
      let authors_agree =
        same_columns (with_columns authors (flag ∷ [])) author_model refl refl refl refl refl in
      let books_agree =
        same_columns (with_columns books (flag ∷ [])) book_model refl refl refl refl refl in
      (
        users_agree,
        (
          authors_agree,
          (books_agree, (loans_agree, (notifications_agree, (reservations_agree, tt)))),
        ),
      )

  -- Upgrading an empty database through all revisions succeeds if the administrator of the
  -- environment, where it names one, has a name, an address and a hashed password of no more than
  -- 255 characters each, and makes exactly the tables of the models, each with the columns, types,
  -- nullability, primary key, unique columns and foreign keys that its model declares, and the
  -- enumeration types with their labels in order.
  pub upgrade_all-AllAgree :
      SeedFits (get_admin_seed_values env)
      → (d : Database) × (upgrade_all env history empty ≡ ok d)
        × AllAgree d.tables metadata
        × (d.enums
            ≡ loan_status ∷ notification_type ∷ notification_status ∷ reservation_status ∷ [])
  upgrade_all-AllAgree fits =
      let rows = seeded (get_admin_seed_values env) in
      (at_head rows, reaches_head fits, all_agree rows, refl)
