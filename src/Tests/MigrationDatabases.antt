-- ===== src/Tests/MigrationDatabases.antt =====
-- Databases before and after the migrations.
use library_api.Migrations.Operations.{column}
use library_api.Migrations.Tables.{users, loans, books, authors}
use library_api.Migrations.Versions.{is_active}
use library_api.Prelude.{true, false, none, some, [], ◌∷◌, ◌++◌, drop}
use library_api.Migrations.Schema.{Cell, string, Record, Table, Database, SqlType}
use library_api.Migrations.Seed.{Environment, AdminSeed, admin_row}
use library_api.Models.User.{User, UserRole}
use library_api.World.{World}
use library_api.Migrations.InUse.{before_last}
use library_api.Tests.Redis.{Store}
use library_api.Tests.Fixture.{ana, world, tables, local}

abbrev pub bare : Environment
bare = record {
  initial_admin_email = none;
  initial_admin_name = some "Root";
  initial_admin_password = none;
  uuid6 = "root";
  utcnow = 0;
  salt = 0;
}

abbrev pub with_admin : Environment
with_admin = record bare {
  initial_admin_email = some "root@example.com";
  initial_admin_password = some "secret";
}

abbrev pub root : AdminSeed
root = record { email = "root@example.com"; name = "Root"; password = "secret" }

abbrev pub ana_row : Record
ana_row =
    ("id", string "ana")
    ∷ ("name", string "Ana")
    ∷ ("email", string "ana@example.com")
    ∷ ("password", string "hash")
    ∷ ("created_at", Cell.moment 0)
    ∷ []

abbrev pub active_ana : Record
active_ana = ana_row ++ ("is_active", Cell.boolean true) ∷ []

abbrev pub machado_row : Record
machado_row =
    ("id", string "machado")
    ∷ ("name", string "Machado de Assis")
    ∷ ("biography", Cell.null)
    ∷ ("created_at", Cell.moment 0)
    ∷ []

abbrev pub one_user : Table
one_user = record users { rows = ana_row ∷ [] }

abbrev pub one_active_user : Table
one_active_user = record users {
  columns = users.columns ++ is_active false ∷ [];
  rows = active_ana ∷ [];
}

abbrev pub one_author : Table
one_author = record authors { rows = machado_row ∷ [] }

abbrev pub first : Database
first = record { tables = one_user ∷ []; enums = [] }

abbrev pub second : Database
second = record { tables = one_active_user ∷ []; enums = [] }

abbrev pub catalogue : Database
catalogue = record { tables = one_active_user ∷ one_author ∷ books ∷ []; enums = [] }

abbrev pub loans_there : Database
loans_there = record catalogue {
  tables = catalogue.tables ++ loans ∷ [];
  enums = (record { name = "loanstatus"; labels = "ACTIVE" ∷ "RETURNED" ∷ "CANCELLED" ∷ [] }) ∷ [];
}

abbrev pub active_catalogue : Database
active_catalogue = record catalogue {
  tables =
      one_active_user
      ∷ record one_author {
        columns = authors.columns ++ is_active false ∷ [];
        rows = (machado_row ++ ("is_active", Cell.boolean true) ∷ []) ∷ [];
      }
      ∷ record books { columns = books.columns ++ is_active false ∷ [] }
      ∷ [];
}

abbrev pub with_roles : Database
with_roles = record second {
  tables =
      record one_active_user {
        columns =
            one_active_user.columns
            ++ record (column "role" (SqlType.varchar (some 20)) false) {
              server_default = some (string "USER");
            }
              ∷ [];
        rows = (active_ana ++ ("role", string "USER") ∷ []) ∷ [];
      }
      ∷ [];
}

abbrev pub users_with_root : Table
users_with_root = record one_active_user {
  columns =
      one_active_user.columns
      ++ record (column "role" (SqlType.varchar (some 20)) false) {
        server_default = some (string "USER");
      }
        ∷ [];
  rows = (active_ana ++ ("role", string "USER") ∷ []) ∷ admin_row with_admin root ∷ [];
}

abbrev pub with_root : Database
with_root = record second { tables = users_with_root ∷ [] }

abbrev pub root_user : User
root_user = record ana {
  id = "root";
  name = "Root";
  email = "root@example.com";
  password = "secret";
  role = UserRole.admin;
}

abbrev pub served : World Store
served = record world { db = record tables { users = ana ∷ root_user ∷ [] } }

-- Ana registers before the last upgrade.
abbrev pub in_use : Database
in_use = record before_last {
  tables = record one_active_user { rows = active_ana ∷ [] } ∷ drop 1 before_last.tables;
}

abbrev pub last_database : Database
last_database = record in_use { tables = users_with_root ∷ drop 1 before_last.tables }
