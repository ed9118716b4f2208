-- ===== src/Migrations/Seed.antt =====
-- alembic/versions/8f2a9c1d4b71_add_role_and_seed_admin.py: the column `role`, and the first
-- administrator that the environment names.
use library_api.Prelude.{
  ℕ, String, Bool, true, false, ◌==◌, ◌||◌, Option, none, some, [], ◌∷◌, if◌then◌else◌,
}
use library_api.Datetime.{Datetime}
use library_api.External.{External}
use library_api.Migrations.Schema.{
  Cell, string, moment, SqlType, Record, read, Table, Sql, ok, bind, Migration, ◌>>◌, any,
  is_string,
}
use library_api.Migrations.Operations.{
  column, alter_table, add_column, drop_column, update_where, insert,
}

-- What the revision reads of its process: the environment, `uuid6()`, `utcnow()` and the salt of
-- the hash.
pub record Environment : Type 0 where
  pub initial_admin_email : Option String
  pub initial_admin_name : Option String
  pub initial_admin_password : Option String
  pub uuid6 : String
  pub utcnow : Datetime
  pub salt : ℕ

pub record AdminSeed : Type 0 where
  pub email : String
  pub name : String
  pub password : String

unfoldable pub seed_values : Option String → Option String → Option String → Option AdminSeed
seed_values (some e) (some n) (some p) =
    if (e == "" || n == "") || p == ""
    then none
    else some (record { email = e; name = n; password = p })
seed_values _ _ _ = none

unfoldable pub get_admin_seed_values : Environment → Option AdminSeed
unfolding seed_values
get_admin_seed_values env =
    seed_values env.initial_admin_email env.initial_admin_name env.initial_admin_password

abbrev pub has_email : String → Record → Bool
has_email e r = is_string e (read "email" r)

module _ ⦃ext : External⦄ where
  abbrev pub admin_row : Environment → AdminSeed → Record
  admin_row env a =
      ("id", string env.uuid6)
      ∷ ("name", string a.name)
      ∷ ("email", string a.email)
      ∷ ("password", string (ext.hash env.salt a.password))
      ∷ ("created_at", moment env.utcnow)
      ∷ ("is_active", Cell.boolean true)
      ∷ ("role", string "ADMIN")
      ∷ []

  -- Whoever has the address becomes an active administrator; else a new row does.
  unfoldable pub seed_admin : Environment → Option AdminSeed → Table → Sql Table
  seed_admin env none t = ok t
  seed_admin env (some a) t =
      if any (has_email a.email) t.rows
      then bind (update_where (has_email a.email) "role" (string "ADMIN") t)
          (update_where (has_email a.email) "is_active" (Cell.boolean true))
      else insert (admin_row env a) t

  unfoldable pub add_role : Environment → Migration
  add_role env =
      alter_table "users" (
        add_column (record (column "role" (SqlType.varchar (some 20)) false) {
          server_default = some (string "USER");
        }))
      >> alter_table "users" (seed_admin env (get_admin_seed_values env))

abbrev pub drop_role : Migration
drop_role = alter_table "users" (drop_column "role")
