-- ===== src/Migrations/Installed.antt =====
-- alembic/versions: a database that is upgraded step by step while the application stores data in
-- between.
use library_api.Migrations.Seeding.{role_column}
use library_api.Migrations.Tables.{
  reservation_key, identifier, users, authors, books, loans, notifications, reservations,
}
use library_api.Migrations.Operations.{
  create_foreign_key, add_value, column, every, create_table, create_type, alter, alter_table,
  update_where, add_column, insert,
}
use library_api.Migrations.Kept.{bind-eq-ok, ok-injective}
use library_api.Migrations.HeadTables.{empty}
use library_api.Prelude.{
  String, ◌≡◌, refl, ◌∙◌, ap, Bool, true, false, Option, none, some, List, [], ◌∷◌, ◌++◌, map,
  arith, Bool-cases, ◌==◌, inl, inr,
}
use library_api.External.{External}
use library_api.Migrations.Schema.{Table, Database, Sql, ok, err, bind, Cell, date_time}
use library_api.Migrations.Versions.{
  Revision, create_users_table, add_is_active_to_users, create_authors_and_books,
  add_is_active_to_authors_and_books, create_loans_table, create_notifications_table,
  add_fine_paid_at_to_loans, add_fine_paid_amount_to_loans, create_reservations_table,
  add_reservation_notifications, add_role_and_seed_admin, upgrade, upgrade_all, upgrade_users,
  upgrade_catalogue_activity, upgrade_reservation_notices, upgrade_users_activity,
  upgrade_catalogue, upgrade_loans, upgrade_notifications, is_active, upgrade_fine_paid_at,
  upgrade_fine_paid_amount, upgrade_reservations,
}
use library_api.Migrations.Seed.{
  Environment, seed_admin, add_role, get_admin_seed_values, AdminSeed,
}
use library_api.Migrations.Erase.{
  IsUniform, erase, >>-IsUniform, alter_table-IsUniform, add_column-IsUniformOn,
  add_value-IsUniform, update_where-IsUniformOn, create_table-IsUniform, set_not_null-IsUniformOn,
  create_foreign_key-IsUniform, create_type-IsUniform, drop_default-IsUniformOn, erase_table,
}

activity-IsUniform : IsUniform upgrade_catalogue_activity
unfolding upgrade_catalogue_activity
activity-IsUniform =
    >>-IsUniform _ _
      (>>-IsUniform _ _
        (>>-IsUniform _ _
          (>>-IsUniform _ _
            (>>-IsUniform _ _
              (alter_table-IsUniform "authors" _ (add_column-IsUniformOn (is_active true)))
              (alter_table-IsUniform "books" _ (add_column-IsUniformOn (is_active true))))
            (alter_table-IsUniform "authors" _
              (update_where-IsUniformOn every "is_active" (Cell.boolean true))))
          (alter_table-IsUniform "books" _
            (update_where-IsUniformOn every "is_active" (Cell.boolean true))))
        (alter_table-IsUniform "authors" _ (set_not_null-IsUniformOn "is_active")))
      (alter_table-IsUniform "books" _ (set_not_null-IsUniformOn "is_active"))

notices-IsUniform : IsUniform upgrade_reservation_notices
unfolding upgrade_reservation_notices
notices-IsUniform =
    >>-IsUniform _ (create_foreign_key reservation_key "notifications")
      (>>-IsUniform _ _
        (>>-IsUniform (add_value _ _) (add_value _ _) (add_value-IsUniform _ _)
          (add_value-IsUniform _ _))
        (alter_table-IsUniform "notifications" _
          (add_column-IsUniformOn (column "reservation_id" identifier true))))
      (create_foreign_key-IsUniform reservation_key "notifications")

bind_ok : (m : Sql Database) → bind m (λ x. ok x) ≡ m
bind_ok (ok d) = refl
bind_ok (err e) = refl

-- An operation that changes rows only.
rows_only :
    (n : String) (f : Table → Sql Table)
    → ((t t' : Table) → f t ≡ ok t' → erase_table t' ≡ erase_table t)
    → (l l' : List Table) → alter n f l ≡ ok l'
    → map erase_table l' ≡ map erase_table l
unfolding alter
rows_only n f h [] l' e = ground arith
rows_only n f h (t ∷ l) l' e = elim (Bool-cases (t.name == n)) [
  | inl here ↦
      let (t', made, same) = bind-eq-ok (f t) (λ t'. ok (t' ∷ l)) (rw here at e) in
      ground (arith, h t t' made, ok-injective (t' ∷ l) l' same)
  | inr there ↦
      let (k, made, same) = bind-eq-ok (alter n f l) (λ k. ok (t ∷ k)) (rw there at e) in
      ground (arith, rows_only n f h l k made, ok-injective (t ∷ k) l' same)
]

abbrev pub is_last : Revision → Bool
is_last add_role_and_seed_admin = true
is_last _ = false

module _ ⦃ext : External⦄ (env : Environment) where
  upgrade-IsUniform : (r : Revision) → is_last r ≡ false → IsUniform (upgrade env r)
  unfolding upgrade upgrade_users upgrade_users_activity upgrade_catalogue upgrade_loans
      upgrade_notifications upgrade_fine_paid_at upgrade_fine_paid_amount upgrade_reservations
  upgrade-IsUniform create_users_table h = create_table-IsUniform users refl
  upgrade-IsUniform add_is_active_to_users h =
      alter_table-IsUniform "users" _ (add_column-IsUniformOn (is_active false))
  upgrade-IsUniform create_authors_and_books h =
      >>-IsUniform (create_table authors) (create_table books) (create_table-IsUniform authors refl)
        (create_table-IsUniform books refl)
  upgrade-IsUniform add_is_active_to_authors_and_books h = activity-IsUniform
  upgrade-IsUniform create_loans_table h =
      >>-IsUniform (create_type _ _) (create_table loans) (create_type-IsUniform _ _)
        (create_table-IsUniform loans refl)
  upgrade-IsUniform create_notifications_table h =
      >>-IsUniform _ (create_table notifications)
        (>>-IsUniform (create_type _ _) (create_type _ _) (create_type-IsUniform _ _)
          (create_type-IsUniform _ _))
        (create_table-IsUniform notifications refl)
  upgrade-IsUniform add_fine_paid_at_to_loans h =
      alter_table-IsUniform "loans" _
        (add_column-IsUniformOn (column "fine_paid_at" date_time true))
  upgrade-IsUniform add_fine_paid_amount_to_loans h =
      >>-IsUniform _ _ (alter_table-IsUniform "loans" _ (add_column-IsUniformOn _))
        (alter_table-IsUniform "loans" _ (drop_default-IsUniformOn "fine_paid_amount"))
  upgrade-IsUniform create_reservations_table h =
      >>-IsUniform (create_type _ _) (create_table reservations) (create_type-IsUniform _ _)
        (create_table-IsUniform reservations refl)
  upgrade-IsUniform add_reservation_notifications h = notices-IsUniform
  upgrade-IsUniform add_role_and_seed_admin h = ground arith

  -- A database in use: the revisions that it has been upgraded by so far, in order. Between the
  -- upgrades the application stores what it likes, and leaves the tables themselves as they are.
  pub data Installed : List Revision → Database → Type 0 where
    created : Installed [] empty
    used :
        {rs : List Revision} {d d' : Database}
        → Installed rs d
        → erase d' ≡ erase d
        → Installed rs d'
    upgraded :
        {rs rs' : List Revision} {d d' : Database} (r : Revision)
        → Installed rs d
        → is_last r ≡ false
        → upgrade env r d ≡ ok d'
        → rs' ≡ rs ++ r ∷ []
        → Installed rs' d'

  upgrade_all-append :
      (rs : List Revision) (r : Revision) (d d' : Database)
      → upgrade_all env rs d ≡ ok d'
      → upgrade_all env (rs ++ r ∷ []) d ≡ upgrade env r d'
  unfolding upgrade_all
  upgrade_all-append [] r d d' e =
      bind_ok (upgrade env r d) ∙ ap (upgrade env r) (ok-injective d d' e)
  upgrade_all-append (q ∷ rs) r d d' e =
      let (mid, first, rest) = bind-eq-ok (upgrade env q d) (upgrade_all env rs) e in
      rw first (upgrade_all-append rs r mid d' rest)

  pub Installed-erase :
      {rs : List Revision} {d : Database} → Installed rs d → upgrade_all env rs empty ≡ ok (erase d)
  unfolding upgrade_all
  Installed-erase created = refl
  Installed-erase (used i same) = rw same (Installed-erase i)
  Installed-erase (upgraded {rs} {rs'} {d} {d'} r i h e shape) =
      rw shape
        (upgrade_all-append rs r empty (erase d) (Installed-erase i) ∙ upgrade-IsUniform r h d d' e)

  seed_admin_rows :
      (a : Option AdminSeed) (t t' : Table)
      → seed_admin env a t ≡ ok t'
      → erase_table t' ≡ erase_table t
  unfolding seed_admin update_where insert
  seed_admin_rows none t t' e = ground arith
  seed_admin_rows (some a) t t' e = ground arith

  seed_erase :
      (d d' : Database)
      → alter_table "users" (seed_admin env (get_admin_seed_values env)) d ≡ ok d'
      → erase d ≡ erase d'
  unfolding alter_table
  seed_erase d d' e =
      let seed = seed_admin env (get_admin_seed_values env) in
      let (l, made, same) =
        bind-eq-ok (alter "users" seed d.tables) (λ l. ok (record d { tables = l })) e in
      ground (
        arith,
        rows_only "users" seed (seed_admin_rows (get_admin_seed_values env)) d.tables l made,
        ok-injective (record d { tables = l }) d' same,
      )

  pub add_role-erase :
      (d d' e : Database)
      → add_role env d ≡ ok d'
      → erase d ≡ e
      → alter_table "users" (add_column role_column) e ≡ ok (erase d')
  unfolding add_role
  add_role-erase d d' e done same =
      let seed = seed_admin env (get_admin_seed_values env) in
      let (d1, s1, s2) =
        bind-eq-ok (alter_table "users" (add_column role_column) d) (alter_table "users" seed)
          done in
      let first = alter_table-IsUniform "users" _ (add_column-IsUniformOn role_column) d d1 s1 in
      rw (← same) (first ∙ ap ok (seed_erase d1 d' s2))
