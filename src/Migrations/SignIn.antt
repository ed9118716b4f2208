-- ===== src/Migrations/SignIn.antt =====
-- alembic/versions/8f2a9c1d4b71_add_role_and_seed_admin.py and app/domain/users: the administrator
-- that the migration seeds signs in to the application.
use library_api.Migrations.Kept.{ok-injective}
use library_api.Migrations.Seeding.{identified, IsUsers, Fits, add_role-IsSeeded, any-with_role}
use library_api.Prelude.{
  String, ◌≡◌, refl, sym, ◌∙◌, ap, Bool, true, false, List, [], ◌∷◌, ◌++◌, map, arith, select, ◌+◌,
  ◌<◌, some, eq_iff, ◌==◌,
}
use library_api.Models.User.{User, UserRole, user_row}
use library_api.Table.{find_by_key}
use library_api.Exec.{Result, ok, ◌>>=◌}
use library_api.External.{External}
use library_api.World.{State}
use library_api.Users.Repository as Users
use library_api.Users.Repository.{is_active_with}
use library_api.Tokens.{whole_seconds, minutes}
use library_api.Users.Service.{login, login_schema, role_text}
use library_api.Users.Controller.{body}
use library_api.Users.Accounts.{login_lem, accepted, token_for, get_current_user_lem}
use library_api.Security.{get_current_admin}
use library_api.Migrations.Schema.{
  Cell, string, moment, Record, read, any, Database, Table, find_table, Sql,
}
use library_api.Migrations.Seed.{
  Environment, AdminSeed, has_email, admin_row, get_admin_seed_values, add_role,
}
use library_api.Migrations.Admin.{with_role}

-- A row of `users` at the head, as `UserModel` reads it.
abbrev pub row_of : User → Record
row_of u =
    ("id", string u.id)
    ∷ ("name", string u.name)
    ∷ ("email", string u.email)
    ∷ ("password", string u.password)
    ∷ ("created_at", moment u.created_at)
    ∷ ("is_active", Cell.boolean u.is_active)
    ∷ ("role", string (role_text u.role))
    ∷ []

is_admin_role : (r : UserRole) → role_text r ≡ "ADMIN" → r ≡ UserRole.admin
is_admin_role UserRole.user h = ground (arith, eq_iff "USER" "ADMIN")
is_admin_role UserRole.admin h = refl

cons-injective : {A : Type 0} (x y : A) (xs ys : List A) → x ∷ xs ≡ y ∷ ys → (x ≡ y) × (xs ≡ ys)
cons-injective x y xs ys h = ground arith

nil-ne-append : {A : Type 0} (l : List A) (x : A) → [] ≡ l ++ x ∷ [] → ⊥
nil-ne-append [] x h = ground arith
nil-ne-append (y ∷ l) x h = ground arith

map-eq-nil : {A B : Type 0} (f : A → B) (l : List A) → map f l ≡ [] → l ≡ []
map-eq-nil f [] h = refl
map-eq-nil f (x ∷ l) h = ground arith

email_cell : (e : String) (u : User) → has_email e (row_of u) ≡ (u.email == e)
unfolding read
email_cell e u = refl

id_cell : (i : String) (u : User) → identified i (row_of u) ≡ (u.id == i)
unfolding read
id_cell i u = refl

-- The user behind the last row, where no row before has his address or his identifier.
last_user :
    (e i : String) (us : List User) (rs : List Record) (r : Record)
    → map row_of us ≡ rs ++ r ∷ []
    → any (has_email e) rs ≡ false
    → any (identified i) rs ≡ false
    → (u : User) × (row_of u ≡ r)
      × (u.email ≡ e → u.is_active ≡ true → select (is_active_with e) us ≡ u ∷ [])
      × (u.id ≡ i → find_by_key i us ≡ some u)
unfolding find_by_key
last_user e i [] rs r h p q = absurd (nil-ne-append rs r h)
last_user e i (v ∷ us) [] r h p q =
    let (same, rest) = cons-injective (row_of v) r (map row_of us) [] h in
    let no_more = map-eq-nil row_of us rest in
    (
      v,
      same,
      λ is_mine active. rw no_more (ground (arith, is_mine, active, eq_iff v.email e)),
      λ is_mine. ground (arith, is_mine, eq_iff v.id i),
    )
last_user e i (v ∷ us) (x ∷ rs) r h p q =
    let (same, rest) = cons-injective (row_of v) x (map row_of us) (rs ++ r ∷ []) h in
    let (u, row, selected, found) =
      last_user e i us rs r rest (ground (arith, p)) (ground (arith, q)) in
    let not_mine : (v.email == e) ≡ false =
      sym (email_cell e v) ∙ ap (has_email e) same ∙ ground (arith, p) in
    let not_his : (v.id == i) ≡ false =
      sym (id_cell i v) ∙ ap (identified i) same ∙ ground (arith, q) in
    (
      u,
      row,
      λ is_mine active. rw not_mine (selected is_mine active),
      λ is_mine. rw not_his (found is_mine),
    )

pub some-injective : {A : Type 0} (x y : A) → some x ≡ some y → x ≡ y
some-injective x y h = ground arith

string-injective : (s t : String) → string s ≡ string t → s ≡ t
string-injective s t h = cc

boolean-injective : (a b : Bool) → Cell.boolean a ≡ Cell.boolean b → a ≡ b
boolean-injective a b h = cc

module _ ⦃ext : External⦄ (env : Environment) (a : AdminSeed) where
  -- What the application reads of the administrator's row.
  abbrev IsRoot : User → Type 0
  IsRoot u =
      (u.id ≡ env.uuid6)
      × (u.email ≡ a.email)
      × (u.password ≡ ext.hash env.salt a.password)
      × (u.is_active ≡ true)
      × (u.role ≡ UserRole.admin)

  row_of-IsRoot : (u : User) → row_of u ≡ admin_row env a → IsRoot u
  unfolding read
  row_of-IsRoot u h = (
    string-injective u.id env.uuid6 (ap (read "id") h),
    string-injective u.email a.email (ap (read "email") h),
    string-injective u.password (ext.hash env.salt a.password) (ap (read "password") h),
    boolean-injective u.is_active true (ap (read "is_active") h),
    is_admin_role u.role (string-injective (role_text u.role) "ADMIN" (ap (read "role") h)),
  )

  abbrev pub session : State → Result User × State
  session = do
    input ← body (login_schema a.email a.password)
    answer ← login input
    get_current_admin answer.access_token

  root_session :
      (u : User) (w : State)
      → ext.email_str a.email ≡ some a.email
      → IsRoot u
      → select (is_active_with a.email) w.users ≡ u ∷ []
      → find_by_key env.uuid6 w.users ≡ some u
      → ext.clock (w.readings + 1)
        < whole_seconds (ext.clock w.readings + minutes ext.jwt_expire_minutes)
      → (session w).0 ≡ ok u
  unfolding get_current_admin
  root_session u w address root selected found in_time =
      let (same_id, _, hashed, active, admin) = root in
      let w₁ : State = record w { readings = w.readings + 1 } in
      let right : ext.verify a.password u.password ≡ true =
        rw hashed (ext.verify-hash env.salt a.password) in
      let signed = login_lem a.email a.password w u selected right in
      let key : find_by_key u.id w.users ≡ some u =
        ap (λ k. find_by_key k w.users) same_id ∙ found in
      let there : Users.find_by_id u.id w₁ ≡ some u = ground (arith, key, active) in
      let known =
        get_current_user_lem (token_for u w) u.id w₁ u
          (accepted u w (ext.clock w₁.readings) in_time) there in
      ground (arith, address, signed, known, admin)

  -- Where nobody has the administrator's address or the new identifier, and the application reads
  -- the users as the last revision leaves them, it lets the administrator of the environment sign
  -- in with his email and password, and takes the token that it answers for an administrator's. His
  -- texts have to fit the columns, `EmailStr` has to take his address as it is written, and the
  -- second in which the token expires must not be reached.
  pub get_current_admin-add_role :
      (d d' : Database) (t t' : Table) (w : State)
      → get_admin_seed_values env ≡ some a
      → Fits env a
      → ext.email_str a.email ≡ some a.email
      → find_table "users" d.tables ≡ some t
      → IsUsers t
      → any (has_email a.email) t.rows ≡ false
      → any (identified env.uuid6) t.rows ≡ false
      → add_role env d ≡ Sql.ok d'
      → find_table "users" d'.tables ≡ some t'
      → map row_of w.users ≡ t'.rows
      → ext.clock (w.readings + 1)
        < whole_seconds (ext.clock w.readings + minutes ext.jwt_expire_minutes)
      → (u : User) × (row_of u ≡ admin_row env a) × ((session w).0 ≡ ok u)
  get_current_admin-add_role d d' t t' w seed fits address found u unused fresh done found' reads
        in_time =
      let (d1, t1, done1, found1, seeded) = add_role-IsSeeded env a d t seed found u fits fresh in
      let same : d1 ≡ d' = ok-injective d1 d' (sym done1 ∙ done) in
      let same_table : t1 ≡ t' = some-injective t1 t' (sym (rw same at found1) ∙ found') in
      let rows : map row_of w.users ≡ map with_role t.rows ++ admin_row env a ∷ [] =
        reads ∙ sym (ap Table.rows same_table) ∙ seeded.entered unused in
      let (v, row, selected, keyed) =
        last_user a.email env.uuid6 w.users (map with_role t.rows) (admin_row env a) rows
          (any-with_role "email" a.email t.rows refl ∙ unused)
          (any-with_role "id" env.uuid6 t.rows refl ∙ fresh) in
      let root = row_of-IsRoot v row in
      (v, row, root_session v w address root (selected root.1 root.3) (keyed root.0) in_time)
