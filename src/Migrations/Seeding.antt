-- ===== src/Migrations/Seeding.antt =====
-- alembic/versions/8f2a9c1d4b71_add_role_and_seed_admin.py: the last revision succeeds and seeds
-- the administrator.
use Prim.Native.String.{count as characters}
use library_api.Migrations.Undo.{Altered-found}
use library_api.Migrations.Changes.{alter_table_returns}
use library_api.Migrations.Versions.{is_active}
use library_api.Migrations.RoundTrip.{any-append_one}
use library_api.Migrations.Operations.{
  column, widened, insert, has_column, update_where, clashes, add_column, overlong,
}
use library_api.Migrations.Kept.{read-append}
use library_api.Prelude.{
  String, ◌≡◌, refl, ◌∙◌, true, false, List, [], ◌∷◌, ◌++◌, map, arith, not, ◌==◌, Bool, some,
  Bool-cases, inl, inr, ◌&&◌, ◌≤◌, ltb,
}
use library_api.External.{External}
use library_api.Migrations.Schema.{
  string, Database, Table, Record, ok, read, any, is_string, Column, SqlType, is_null, find_table,
}
use library_api.Migrations.Tables.{users}
use library_api.Migrations.Seed.{
  Environment, AdminSeed, has_email, admin_row, seed_admin, add_role, get_admin_seed_values,
}
use library_api.Migrations.Admin.{IsSeeded, with_role, after_update}
use library_api.Migrations.Entered.{after_insert, insert-IsSeeded, update-IsSeeded}

abbrev pub identified : String → Record → Bool
identified i r = is_string i (read "id" r)

-- `users` as the revision before leaves it.
pub record IsUsers (t : Table) : Type 0 where
  pub columns : t.columns ≡ users.columns ++ is_active false ∷ []
  pub primary_key : t.primary_key ≡ "id"
  pub unique : t.unique ≡ "email" ∷ []

abbrev pub role_column : Column
role_column = record (column "role" (SqlType.varchar (some 20)) false) {
  server_default = some (string "USER");
}

pub any-with_role :
    (c s : String) (l : List Record)
    → ("role" == c) ≡ false
    → any (λ r. is_string s (read c r)) (map with_role l) ≡ any (λ r. is_string s (read c r)) l
any-with_role c s [] h = refl
any-with_role c s (r ∷ l) h =
    rw (read-append c "role" (string "USER") r h, any-with_role c s l h) refl

module _ ⦃ext : External⦄ (env : Environment) (a : AdminSeed) where
  -- The texts that the environment and the hash bring fit the columns of `users`.
  pub record Fits : Type 0 where
    pub name : characters a.name ≤ 255
    pub email : characters a.email ≤ 255
    pub password : characters (ext.hash env.salt a.password) ≤ 255

  has_flag_column : (t : Table) → IsUsers t → has_column "is_active" (widened role_column t) ≡ true
  has_flag_column t u = rw u.columns refl

  id_cell : read "id" (admin_row env a) ≡ string env.uuid6
  unfolding read
  id_cell = refl

  email_cell : read "email" (admin_row env a) ≡ string a.email
  unfolding read
  email_cell = refl

  no_nulls :
      (t : Table)
      → IsUsers t
      → any
          (λ k. not k.nullable && is_null (read k.name (admin_row env a)))
          (widened role_column t).columns
        ≡ false
  unfolding read
  no_nulls t u = rw u.columns refl

  no_clash :
      (t : Table)
      → IsUsers t
      → any (identified env.uuid6) (map with_role t.rows) ≡ false
      → any (has_email a.email) (map with_role t.rows) ≡ false
      → any
          (λ c. clashes (read c (admin_row env a)) c (map with_role t.rows))
          (t.primary_key ∷ t.unique)
        ≡ false
  no_clash t u identifiers missing =
      rw (u.primary_key, u.unique) (ground (arith, id_cell, email_cell, identifiers, missing))

  pub fitting :
      Fits
      → (ltb 255 (characters a.name) ≡ false)
        × (ltb 255 (characters a.email) ≡ false)
        × (ltb 255 (characters (ext.hash env.salt a.password)) ≡ false)
  fitting fits =
      (ground (arith, fits.name), ground (arith, fits.email), ground (arith, fits.password))

  no_overlong :
      (t : Table)
      → Fits
      → t.columns ≡ users.columns ++ is_active false ∷ []
      → any (λ k. overlong k.type (read k.name (admin_row env a))) (widened role_column t).columns
        ≡ false
  unfolding read
  no_overlong t fits same =
      let (name, email, password) = fitting fits in rw (same, name, email, password) refl

  insert_accepts :
      (t : Table)
      → IsUsers t
      → Fits
      → any (identified env.uuid6) t.rows ≡ false
      → any (has_email a.email) (map with_role t.rows) ≡ false
      → insert (admin_row env a) (widened role_column t)
        ≡ ok (record (widened role_column t) { rows = after_insert env a t.rows })
  unfolding insert
  insert_accepts t u fits fresh missing =
      let identifiers = any-with_role "id" env.uuid6 t.rows refl ∙ fresh in
      rw (no_overlong t fits u.columns, no_nulls t u, no_clash t u identifiers missing) refl

  seed_admin-IsSeeded :
      (t : Table)
      → IsUsers t
      → Fits
      → any (identified env.uuid6) t.rows ≡ false
      → (t' : Table) × (seed_admin env (some a) (widened role_column t) ≡ ok t')
        × IsSeeded a.email (admin_row env a) t.rows t'.rows
        × (t'.name ≡ t.name)
  unfolding seed_admin
  seed_admin-IsSeeded t u fits fresh = elim (Bool-cases (any (has_email a.email) t.rows)) [
    | inl there ↦
        let found = any-with_role "email" a.email t.rows refl ∙ there in
        let has_role =
          any-append_one (λ (k : Column). k.name == "role") t.columns role_column refl in
        let has_flag = has_flag_column t u in
        (
          record (widened role_column t) { rows = after_update a.email t.rows },
          unfold update_where in rw (found, has_role, has_flag) refl,
          update-IsSeeded env a t.rows there,
          refl,
        )
    | inr new ↦
        let missing = any-with_role "email" a.email t.rows refl ∙ new in
        (
          record (widened role_column t) { rows = after_insert env a t.rows },
          rw missing (insert_accepts t u fits fresh missing),
          insert-IsSeeded env a t.rows new,
          refl,
        )
  ]

  -- The last revision, upon a table `users` as the revision before leaves it, and with an
  -- administrator to seed whose name, address and hashed password have no more than 255 characters
  -- each and whose identifier no row has, succeeds: everyone without the
  -- administrator's address stays as he was, with the role `USER`; whoever has the address is an
  -- active administrator; and someone has it, those who had it, or one more row,
  -- the administrator's with the hash of his password.
  pub add_role-IsSeeded :
      (d : Database) (t : Table)
      → get_admin_seed_values env ≡ some a
      → find_table "users" d.tables ≡ some t
      → IsUsers t
      → Fits
      → any (identified env.uuid6) t.rows ≡ false
      → (d' : Database) × (t' : Table) × (add_role env d ≡ ok d')
        × (find_table "users" d'.tables ≡ some t')
        × IsSeeded a.email (admin_row env a) t.rows t'.rows
  unfolding add_role
  add_role-IsSeeded d t seed found u fits fresh =
      let added : add_column role_column t ≡ ok (widened role_column t) =
        unfold add_column in rw u.columns refl in
      let (d1, e1, o1) =
        alter_table_returns "users" (add_column role_column) d t (widened role_column t) found added
          refl in
      let (t', done, seeded, named) = seed_admin-IsSeeded t u fits fresh in
      let (d2, e2, o2) =
        alter_table_returns "users" (seed_admin env (some a)) d1 (widened role_column t) t'
          (Altered-found "users" o1) done named in
      (d2, t', rw (seed, e1) e2, Altered-found "users" o2, seeded)
