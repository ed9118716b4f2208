-- ===== src/Users/Service.antt =====
-- app/domain/users: `UserService`, its schemas, and the functions of app/config/security that it
-- calls.
use library_api.Prelude.{
  ℕ, ◌+◌, String, Bool, true, false, Option, none, some, List, is_some, ◌==◌, if◌then◌else◌,
}
use library_api.Errors.{business_rule, not_found}
use library_api.Datetime.{Datetime}
use library_api.Tokens.{minutes}
use library_api.Models.User.{User, UserRole}
use library_api.Responses.{Page}
use library_api.Exec.{Exec, pure, raise_if, run, gets, modify, or_raise, ◌>>=◌, ◌>>◌}
use library_api.External.{External}
use library_api.World.{State, utcnow, new_id}
use library_api.Users.Repository

-- A body that has passed `CreateUserSchema`: the address is the one that `EmailStr` made.
pub record CreateUser : Type 0 where
  pub name : String
  pub email : String
  pub password : String

pub record UpdateUser : Type 0 where
  pub name : Option String

pub record UpdateUserRole : Type 0 where
  pub role : UserRole

-- A body that has passed `LoginSchema`: the address is the one that `EmailStr` made.
pub record Login : Type 0 where
  pub email : String
  pub password : String

pub record UserResponse : Type 0 where
  pub id : String
  pub name : String
  pub email : String
  pub created_at : Datetime

pub record TokenResponse (Token : Type 0) : Type 0 where
  pub access_token : Token

-- `UserRole.value`
abbrev pub role_text : UserRole → String
role_text UserRole.user = "USER"
role_text UserRole.admin = "ADMIN"

-- What the response model keeps of a user.
abbrev pub user_response : User → UserResponse
user_response u = record { id = u.id; name = u.name; email = u.email; created_at = u.created_at }

-- `if data.name: user.name = data.name`
abbrev pub renamed : Option String → User → User
renamed none user = user
renamed (some name) user = if name == "" then user else record user { name = name }

abbrev login_of : Option String → String → Option Login
login_of none password = none
login_of (some email) password = some (record { email = email; password = password })

module _ ⦃ext : External⦄ where
  -- `LoginSchema`, on the texts of a body.
  abbrev pub login_schema : String → String → Option Login
  login_schema email password = login_of (ext.email_str email) password

  -- `hash_password`, with a new salt.
  abbrev pub hash_password : String → State → String × State
  hash_password password w =
      (ext.hash w.identifiers password, record w { identifiers = w.identifiers + 1 })

  unfoldable pub create_access_token : String → UserRole → State → ext.Token × State
  create_access_token user_id role w =
      let (now, w') = utcnow w in
      (
        ext.encode (record {
          sub = user_id;
          exp = now + minutes ext.jwt_expire_minutes;
          role = role_text role;
        }),
        w',
      )

  unfoldable pub create_user : CreateUser → Exec State User
  create_user input = do
    existing_user ← Repository.find_by_email input.email
    raise_if (is_some existing_user) (business_rule "E-mail já cadastrado")
    password ← run (hash_password input.password)
    id ← run new_id
    created_at ← run utcnow
    let user : User = record {
      id = id;
      name = input.name;
      email = input.email;
      password = password;
      created_at = created_at;
      is_active = Bool.true;
      role = UserRole.user;
    }
    Repository.create user
    pure user

  -- `get_user` and `get_by_id`
  abbrev pub get_by_id : String → Exec State User
  get_by_id user_id = do
    found ← gets (Repository.find_by_id user_id)
    or_raise found (not_found "Usuário não encontrado")

  unfoldable pub login : Login → Exec State (TokenResponse ext.Token)
  unfolding create_access_token
  login input = do
    found ← Repository.find_by_email input.email
    user ← or_raise found (business_rule "Credenciais inválidas")
    raise_if (if ext.verify input.password user.password then false else true)
        (business_rule "Credenciais inválidas")
    token ← run (create_access_token user.id user.role)
    pure (record { access_token = token })

  unfoldable pub update_user : String → UpdateUser → Exec State User
  update_user user_id input = do
    user ← get_by_id user_id
    modify (Repository.update (renamed input.name user))
    pure (renamed input.name user)

  unfoldable pub update_role : String → UpdateUserRole → Exec State User
  update_role user_id input = do
    user ← get_by_id user_id
    let updated : User = record user { role = input.role }
    modify (Repository.update updated)
    pure updated

  unfoldable pub delete_user : String → Exec State (Unit {0})
  delete_user user_id = do
    user ← get_by_id user_id
    modify (Repository.update (record user { is_active = Bool.false }))

  abbrev pub list_users : State → List User
  list_users = Repository.list_users

  unfoldable pub list_users_paginated : ℕ → ℕ → State → Page User
  unfolding Repository.list_users_paginated
  list_users_paginated page size w =
      let (users, total) = Repository.list_users_paginated page size w in
      record { items = users; total = total; page = page; size = size }
