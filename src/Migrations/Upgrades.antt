-- ===== src/Migrations/Upgrades.antt =====
-- alembic/versions: no upgrade changes what stood in the database, but in the columns it is for.
use library_api.Prelude.{
  none, some, String, ◌≡◌, refl, ◌∙◌, Bool, true, false, ◌&&◌, ◌||◌, List, [], ◌∷◌, arith, ◌==◌,
  not, Option, some,
}
use library_api.External.{External}
use library_api.Migrations.Schema.{Cell, ◌>>◌, Table, Column, SqlType}
use library_api.Migrations.Operations.{
  alter_table, add_column, every, update_where, create_type, create_table, column, insert,
  create_foreign_key, add_value,
}
use library_api.Migrations.Seed.{
  Environment, add_role, seed_admin, get_admin_seed_values, AdminSeed,
}
use library_api.Migrations.Tables.{
  authors, books, loans, notifications, reservations, users, reservation_key, identifier,
}
use library_api.Migrations.Versions.{
  Revision, create_users_table, add_is_active_to_users, create_authors_and_books,
  add_is_active_to_authors_and_books, create_loans_table, create_notifications_table,
  add_fine_paid_at_to_loans, add_fine_paid_amount_to_loans, create_reservations_table,
  add_reservation_notifications, add_role_and_seed_admin, upgrade, upgrade_all,
  upgrade_users_activity, upgrade_catalogue, upgrade_catalogue_activity, upgrade_reservations,
  upgrade_notifications, upgrade_loans, upgrade_reservation_notices, upgrade_fine_paid_amount,
  upgrade_users, upgrade_fine_paid_at,
}
use library_api.Migrations.Kept.{
  Preserves, Spares, bind-eq-ok, >>-Preserves, alter_table-Preserves, add_column-Spares,
  update_where-Spares, set_not_null-Spares, drop_default-Spares, create_type-Preserves,
  add_value-Preserves, create_table-Preserves, create_foreign_key-Preserves,
}

-- Is a revision for a column of a table? The last one is for all of `users`.
abbrev pub touches : Revision → String → String → Bool
touches add_is_active_to_users m c = ("users" == m) && ("is_active" == c)
touches add_is_active_to_authors_and_books m c =
    (("authors" == m) && ("is_active" == c)) || (("books" == m) && ("is_active" == c))
touches add_fine_paid_at_to_loans m c = ("loans" == m) && ("fine_paid_at" == c)
touches add_fine_paid_amount_to_loans m c = ("loans" == m) && ("fine_paid_amount" == c)
touches add_reservation_notifications m c = ("notifications" == m) && ("reservation_id" == c)
touches add_role_and_seed_admin m c = "users" == m
touches _ m c = false

abbrev pub untouched : List Revision → String → String → Bool
untouched [] m c = true
untouched (r ∷ rs) m c = not (touches r m c) && untouched rs m c

module _ (m c : String) where
  new_column :
      (n : String) (k : Column)
      → ((n == m) && (k.name == c)) ≡ false
      → Preserves m c (alter_table n (add_column k))
  new_column n k h = alter_table-Preserves m c n _ (add_column-Spares m c n k h)

  two_tables :
      (t u : Table) → t.rows ≡ [] → u.rows ≡ [] → Preserves m c (create_table t >> create_table u)
  two_tables t u p q =
      >>-Preserves m c (create_table t) (create_table u) (create_table-Preserves m c t p)
        (create_table-Preserves m c u q)

  type_and_table :
      (n : String) (labels : List String) (t : Table)
      → t.rows ≡ []
      → Preserves m c (create_type n labels >> create_table t)
  type_and_table n labels t p =
      >>-Preserves m c (create_type n labels) (create_table t) (create_type-Preserves m c n labels)
        (create_table-Preserves m c t p)

  loans_kept : Preserves m c upgrade_loans
  unfolding upgrade_loans
  loans_kept = type_and_table _ _ loans refl

  catalogue_kept : Preserves m c upgrade_catalogue
  unfolding upgrade_catalogue
  catalogue_kept = two_tables authors books refl refl

  reservations_kept : Preserves m c upgrade_reservations
  unfolding upgrade_reservations
  reservations_kept = type_and_table _ _ reservations refl

  notifications_kept : Preserves m c upgrade_notifications
  unfolding upgrade_notifications
  notifications_kept =
      >>-Preserves m c _ (create_table notifications)
        (>>-Preserves m c (create_type _ _) (create_type _ _) (create_type-Preserves m c _ _)
          (create_type-Preserves m c _ _))
        (create_table-Preserves m c notifications refl)

  activity_kept :
      touches add_is_active_to_authors_and_books m c ≡ false
      → Preserves m c upgrade_catalogue_activity
  unfolding upgrade_catalogue_activity
  activity_kept h =
      let author_column =
        new_column "authors" (column "is_active" SqlType.boolean true) (ground arith) in
      let book_column =
        new_column "books" (column "is_active" SqlType.boolean true) (ground arith) in
      >>-Preserves m c _ _
        (>>-Preserves m c _ _
          (>>-Preserves m c _ _
            (>>-Preserves m c _ _ (>>-Preserves m c _ _ author_column book_column) (
              alter_table-Preserves m c "authors" _ (
                update_where-Spares m c "authors" every "is_active" (Cell.boolean true)
                  (ground arith))))
            (alter_table-Preserves m c "books" _ (
              update_where-Spares m c "books" every "is_active" (Cell.boolean true)
                (ground arith))))
          (alter_table-Preserves m c "authors" _ (set_not_null-Spares m c "authors" "is_active")))
        (alter_table-Preserves m c "books" _ (set_not_null-Spares m c "books" "is_active"))

  fine_paid_amount_kept :
      touches add_fine_paid_amount_to_loans m c ≡ false → Preserves m c upgrade_fine_paid_amount
  unfolding upgrade_fine_paid_amount
  fine_paid_amount_kept h =
      >>-Preserves m c _ _ (new_column "loans" _ (ground arith))
        (alter_table-Preserves m c "loans" _ (drop_default-Spares m c "loans" "fine_paid_amount"))

  reservation_notices_kept :
      touches add_reservation_notifications m c ≡ false → Preserves m c upgrade_reservation_notices
  unfolding upgrade_reservation_notices
  reservation_notices_kept h =
      >>-Preserves m c _ (create_foreign_key reservation_key "notifications")
        (>>-Preserves m c _ _
          (>>-Preserves m c (add_value _ _) (add_value _ _) (add_value-Preserves m c _ _)
            (add_value-Preserves m c _ _))
          (new_column "notifications" (column "reservation_id" identifier true) (ground arith)))
        (create_foreign_key-Preserves m c reservation_key "notifications")

module _ ⦃ext : External⦄ (env : Environment) (m c : String) where
  seed_admin-Spares :
      (a : Option AdminSeed) → ("users" == m) ≡ false → Spares m c "users" (seed_admin env a)
  unfolding seed_admin update_where insert
  seed_admin-Spares none h t t' e = ground arith
  seed_admin-Spares (some a) h t t' e = ground arith

  role_kept : ("users" == m) ≡ false → Preserves m c (add_role env)
  unfolding add_role
  role_kept h =
      >>-Preserves m c _ _ (new_column m c "users" _ (ground arith))
        (alter_table-Preserves m c "users" _ (seed_admin-Spares (get_admin_seed_values env) h))

  upgrade-Preserves : (r : Revision) → touches r m c ≡ false → Preserves m c (upgrade env r)
  unfolding upgrade upgrade_users upgrade_users_activity upgrade_fine_paid_at
  upgrade-Preserves create_users_table h = create_table-Preserves m c users refl
  upgrade-Preserves add_is_active_to_users h = new_column m c "users" _ h
  upgrade-Preserves create_authors_and_books h = catalogue_kept m c
  upgrade-Preserves add_is_active_to_authors_and_books h = activity_kept m c h
  upgrade-Preserves create_loans_table h = loans_kept m c
  upgrade-Preserves create_notifications_table h = notifications_kept m c
  upgrade-Preserves add_fine_paid_at_to_loans h = new_column m c "loans" _ h
  upgrade-Preserves add_fine_paid_amount_to_loans h = fine_paid_amount_kept m c h
  upgrade-Preserves create_reservations_table h = reservations_kept m c
  upgrade-Preserves add_reservation_notifications h = reservation_notices_kept m c h
  upgrade-Preserves add_role_and_seed_admin h = role_kept h

  -- A successful upgrade through any revisions, from any database, leaves what stands in a column of
  -- a table as it is, row by row, unless one of the revisions adds that column, or one is the last,
  -- which seeds the administrator, and the table is `users`.
  pub upgrade_all-Preserves :
      (rs : List Revision) → untouched rs m c ≡ true → Preserves m c (upgrade_all env rs)
  unfolding upgrade_all
  upgrade_all-Preserves [] h d d' e = ground arith
  upgrade_all-Preserves (r ∷ rs) h d d' e =
      let (mid, first, rest) = bind-eq-ok (upgrade env r d) (upgrade_all env rs) e in
      upgrade_all-Preserves rs (ground arith) mid d' rest
      ∙ upgrade-Preserves r (ground arith) d mid first
