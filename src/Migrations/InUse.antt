-- ===== src/Migrations/InUse.antt =====
-- alembic/versions and app/domain/*/models: the tables of a database that was in use all along.
use library_api.Migrations.Kept.{ok-injective, bind-eq-ok}
use library_api.Migrations.Seeding.{role_column}
use library_api.Migrations.Metadata.{
  loan_status, notification_type, notification_status, reservation_status,
}
use library_api.Migrations.Operations.{
  alter_table, alter, add_column, create_table, create_type, add_value, update_where, set_not_null,
  drop_default, create_foreign_key, find_enum,
}
use library_api.Migrations.Erase.{erase_table, erase}
use library_api.Migrations.Versions.{
  upgrade_all, upgrade, upgrade_users, upgrade_users_activity, upgrade_catalogue,
  upgrade_catalogue_activity, upgrade_loans, upgrade_notifications, upgrade_fine_paid_at,
  upgrade_fine_paid_amount, upgrade_reservations, upgrade_reservation_notices, Revision,
}
use mathlib.Core.Path.{subst}
use mathlib.Core.List.{append-nil, append_assoc}
use library_api.Prelude.{
  ◌≡◌, refl, sym, ◌∙◌, ap, List, [], ◌∷◌, ◌++◌, map, drop, take, false, arith,
}
use library_api.External.{External}
use library_api.Migrations.Schema.{Table, Database, ok, find_table, any}
use library_api.Migrations.Tables.{users}
use library_api.Migrations.Seed.{Environment, add_role}
use library_api.Migrations.HeadTables.{
  history, empty, at_head, with_columns, flag, AllAgree, metadata,
}
use library_api.Migrations.Head.{all_agree}
use library_api.Migrations.Installed.{Installed, upgraded, is_last, Installed-erase, add_role-erase}

abbrev pub before_last : Database
before_last = record (at_head []) {
  tables = with_columns users (flag ∷ []) ∷ drop 1 (at_head []).tables;
}

AllAgree-erase : (ts us : List Table) → AllAgree (map erase_table ts) us → AllAgree ts us
AllAgree-erase [] [] h = tt
AllAgree-erase [] (u ∷ us) h = h
AllAgree-erase (t ∷ ts) [] h = h
AllAgree-erase (t ∷ ts) (u ∷ us) h = (
  record {
    names = h.0.names;
    columns = h.0.columns;
    primary_keys = h.0.primary_keys;
    uniques = h.0.uniques;
    keys = h.0.keys;
  },
  AllAgree-erase ts us h.1,
)

module _ ⦃ext : External⦄ (env : Environment) where
  pub reaches_last : upgrade_all env (take 10 history) empty ≡ ok before_last
  unfolding upgrade_all upgrade upgrade_users upgrade_users_activity upgrade_catalogue
      upgrade_catalogue_activity upgrade_loans upgrade_notifications upgrade_fine_paid_at
      upgrade_fine_paid_amount upgrade_reservations upgrade_reservation_notices create_table
      create_type add_value alter alter_table add_column update_where set_not_null drop_default
      create_foreign_key find_table find_enum loan_status notification_type notification_status
      reservation_status
  reaches_last = refl

  last_column : alter_table "users" (add_column role_column) before_last ≡ ok (at_head [])
  unfolding alter_table alter add_column
  last_column = refl

  -- A database that was created empty and upgraded by the first ten revisions in order, while the
  -- application stored whatever data in between: if the last revision succeeds on it, its tables
  -- are exactly those of the models, as to columns, types, nullability, primary keys, unique
  -- columns and foreign keys, and so are the enumeration types.
  pub Installed-AllAgree :
      (d d' : Database)
      → Installed env (take 10 history) d
      → add_role env d ≡ ok d'
      → AllAgree d'.tables metadata
        × (d'.enums
            ≡ loan_status ∷ notification_type ∷ notification_status ∷ reservation_status ∷ [])
  Installed-AllAgree d d' i done =
      let before : erase d ≡ before_last =
        ok-injective (erase d) before_last (sym (Installed-erase env i) ∙ reaches_last) in
      let after : at_head [] ≡ erase d' =
        ok-injective (at_head []) (erase d')
          (sym last_column ∙ add_role-erase env d d' before_last done before) in
      (
        AllAgree-erase d'.tables metadata
            (subst (λ (x : Database). AllAgree x.tables metadata) after (all_agree env [])),
        sym (ap Database.enums after),
      )

  -- A run of upgrades without the last one, on a database in use.
  pub Installed-upgrade_all :
      (rs done total : List Revision) (d d' : Database)
      → Installed env done d
      → any is_last rs ≡ false
      → upgrade_all env rs d ≡ ok d'
      → total ≡ done ++ rs
      → Installed env total d'
  unfolding upgrade_all
  Installed-upgrade_all [] done total d d' i h e shape =
      rw (← ok-injective d d' e) (rw (shape ∙ append-nil done) i)
  Installed-upgrade_all (r ∷ rs) done total d d' i h e shape =
      let (mid, first, rest) = bind-eq-ok (upgrade env r d) (upgrade_all env rs) e in
      let next = upgraded r i (ground (arith, h)) first refl in
      Installed-upgrade_all rs (done ++ r ∷ []) total mid d' next (ground (arith, h)) rest
        (shape ∙ sym (append_assoc done (r ∷ []) rs))
