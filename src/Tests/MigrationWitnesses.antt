-- ===== src/Tests/MigrationWitnesses.antt =====
-- The theorems on the migrations at concrete databases.
use library_api.Migrations.SignIn.{row_of, session, some-injective, get_current_admin-add_role}
use library_api.Migrations.Downgrades.{downgrade-upgrade}
use library_api.Migrations.Upgrades.{upgrade_all-Preserves}
use library_api.Migrations.Restored.{IsClosed}
use library_api.Migrations.Undo.{AllTidy, SameTables}
use library_api.Migrations.RoundTrip.{IsTidy}
use library_api.Migrations.Metadata.{
  loan_status, notification_type, notification_status, reservation_status,
}
use library_api.Migrations.Again.{upgrade-downgrade}
use library_api.Migrations.Admin.{IsSeeded}
use library_api.Migrations.HeadTables.{history, empty, AllAgree, metadata}
use library_api.Migrations.Head.{upgrade_all-AllAgree}
use library_api.Migrations.Operations.{
  drop_table, create_type, create_table, find_enum, alter_table, alter, add_column, update_where,
  set_not_null, assign, insert,
}
use library_api.Migrations.Seeding.{IsUsers, Fits, identified, add_role-IsSeeded}
use library_api.Migrations.Versions.{
  upgrade_all, down_revision, downgrade, upgrade, create_loans_table, upgrade_loans,
  upgrade_catalogue_activity, add_role_and_seed_admin, add_is_active_to_authors_and_books,
}
use mathlib.Core.Path.{subst}
use library_api.Prelude.{String, ◌≡◌, refl, false, none, some, [], ◌∷◌, arith, take, map}
use library_api.Migrations.Schema.{
  Table, Database, ok, find_table, read, err, duplicate_object, values, any,
}
use library_api.Migrations.Seed.{
  add_role, get_admin_seed_values, seed_admin, admin_row, has_email, AdminSeed,
}
use library_api.Models.User.{User}
use library_api.Exec.{Result}
use library_api.Migrations.Installed.{Installed, used, created}
use library_api.Migrations.InUse.{
  before_last, reaches_last, Installed-upgrade_all, Installed-AllAgree,
}
use library_api.Tests.Fixture.{local}
use library_api.Tests.MigrationDatabases.{
  bare, with_admin, root, one_user, one_active_user, first, second, catalogue, loans_there,
  active_catalogue, with_roles, users_with_root, with_root, served, in_use, last_database,
}

root-Fits : Fits with_admin root
root-Fits = record { name = omega arith; email = omega arith; password = omega arith }

root_fits : (a : AdminSeed) → get_admin_seed_values with_admin ≡ some a → Fits with_admin a
unfolding get_admin_seed_values
root_fits a h = subst (Fits with_admin) (some-injective root a h) root-Fits

upgrade_all-AllAgree_example :
    (d : Database) × (upgrade_all with_admin history empty ≡ ok d)
    × AllAgree d.tables metadata
    × (d.enums ≡ loan_status ∷ notification_type ∷ notification_status ∷ reservation_status ∷ [])
upgrade_all-AllAgree_example = upgrade_all-AllAgree with_admin root_fits

-- The list of the revisions follows their links.
history_links : map down_revision history ≡ none ∷ map some (take 10 history)
unfolding down_revision
history_links = refl

loans_upgrade : upgrade bare create_loans_table catalogue ≡ ok loans_there
unfolding upgrade upgrade_loans create_type create_table find_enum
loans_upgrade = refl

loans_downgrade :
    downgrade create_loans_table loans_there ≡ ok (record catalogue { enums = loans_there.enums })
unfolding downgrade drop_table
loans_downgrade = refl

upgrade-downgrade_example :
    upgrade bare create_loans_table (record catalogue { enums = loans_there.enums })
    ≡ err duplicate_object
upgrade-downgrade_example =
    upgrade-downgrade bare create_loans_table catalogue loans_there
      (record catalogue { enums = loans_there.enums }) refl loans_upgrade loans_downgrade

found_user : find_table "users" first.tables ≡ some one_user
unfolding find_table
found_user = refl

found_active : find_table "users" second.tables ≡ some one_active_user
unfolding find_table
found_active = refl

is_users : IsUsers one_active_user
is_users = record { columns = refl; primary_key = refl; unique = refl }

fresh_root : any (identified "root") one_active_user.rows ≡ false
unfolding read
fresh_root = refl

seeds_root : get_admin_seed_values with_admin ≡ some root
unfolding get_admin_seed_values
seeds_root = refl

add_role-IsSeeded_example :
    (d' : Database) × (t' : Table) × (add_role with_admin second ≡ ok d')
    × (find_table "users" d'.tables ≡ some t')
    × IsSeeded "root@example.com" (admin_row with_admin root) one_active_user.rows t'.rows
add_role-IsSeeded_example =
    add_role-IsSeeded with_admin root second one_active_user seeds_root found_active is_users
      root-Fits fresh_root

activity_upgrade :
    upgrade_all bare (add_is_active_to_authors_and_books ∷ []) catalogue ≡ ok active_catalogue
unfolding upgrade_all upgrade upgrade_catalogue_activity alter_table alter add_column update_where
    set_not_null assign read
activity_upgrade = refl

upgrade_all-Preserves_example :
    values "authors" "name" active_catalogue ≡ values "authors" "name" catalogue
upgrade_all-Preserves_example =
    upgrade_all-Preserves bare "authors" "name" (add_is_active_to_authors_and_books ∷ []) refl
      catalogue active_catalogue activity_upgrade

only_table : (n : String) (t : Table) → find_table n second.tables ≡ some t → one_active_user ≡ t
unfolding find_table
only_table n t h = ground arith

one_active_user-IsTidy : IsTidy one_active_user
one_active_user-IsTidy c h = ground arith

second-AllTidy : AllTidy second
second-AllTidy n t h = subst IsTidy (only_table n t h) one_active_user-IsTidy

second-IsClosed : IsClosed second
second-IsClosed n h = ground arith

role_upgrade : upgrade bare add_role_and_seed_admin second ≡ ok with_roles
unfolding upgrade add_role seed_admin get_admin_seed_values alter_table alter add_column
role_upgrade = refl

unseeded : get_admin_seed_values bare ≡ none
unfolding get_admin_seed_values
unseeded = refl

downgrade-upgrade_example :
    (d'' : Database) × (downgrade add_role_and_seed_admin with_roles ≡ ok d'')
    × SameTables d'' second
    × (d''.enums ≡ with_roles.enums)
downgrade-upgrade_example =
    downgrade-upgrade bare unseeded add_role_and_seed_admin second with_roles second-AllTidy
      second-IsClosed role_upgrade

root_upgrade : add_role with_admin second ≡ ok with_root
unfolding add_role seed_admin get_admin_seed_values alter_table alter add_column insert read
root_upgrade = refl

found_root : find_table "users" with_root.tables ≡ some users_with_root
unfolding find_table
found_root = refl

no_root_yet : any (has_email "root@example.com") one_active_user.rows ≡ false
unfolding read
no_root_yet = refl

get_current_admin-add_role_example :
    (u : User) × (row_of u ≡ admin_row with_admin root)
    × ((session with_admin root served).0 ≡ Result.ok u)
get_current_admin-add_role_example =
    get_current_admin-add_role with_admin root second with_root one_active_user users_with_root
      served seeds_root root-Fits refl found_active is_users no_root_yet fresh_root root_upgrade
      found_root refl (omega arith)

in_use-Installed : Installed with_admin (take 10 history) in_use
in_use-Installed =
    used
      (Installed-upgrade_all with_admin (take 10 history) [] (take 10 history) empty before_last
        created refl (reaches_last with_admin) refl)
      refl

last_upgrade : add_role with_admin in_use ≡ ok last_database
unfolding add_role seed_admin get_admin_seed_values alter_table alter add_column insert read
last_upgrade = refl

Installed-AllAgree_example :
    AllAgree last_database.tables metadata
    × (last_database.enums
        ≡ loan_status ∷ notification_type ∷ notification_status ∷ reservation_status ∷ [])
Installed-AllAgree_example =
    Installed-AllAgree with_admin in_use last_database in_use-Installed last_upgrade
