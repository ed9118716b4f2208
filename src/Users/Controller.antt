-- ===== src/Users/Controller.antt =====
-- app/domain/users/controllers/user_controller.py.
use library_api.Prelude.{String, Option, none, some}
use library_api.Errors.{request_validation_error}
use library_api.Prelude.Int.{ℤ}
use library_api.Models.User.{User}
use library_api.Responses.{Page}
use library_api.Exec.{Exec, pure, raise, gets, ◌>>=◌, ◌>>◌}
use library_api.External.{External}
use library_api.World.{State}
use library_api.Security.{get_current_user, get_current_admin}
use library_api.Pagination.{page_query}
use library_api.Users.Service.{CreateUser, UpdateUser, UpdateUserRole, Login, TokenResponse}
use library_api.Users.Service as Users

-- A body that its schema refuses is answered by FastAPI, before the controller runs.
abbrev pub body : {S A : Type 0} → Option A → Exec S A
body none = raise request_validation_error
body (some input) = pure input

module _ ⦃ext : External⦄ where
  abbrev pub create_user : CreateUser → Exec State User
  create_user input = Users.create_user input

  unfoldable pub list_users : ext.Token → ℤ → ℤ → Exec State (Page User)
  unfolding Users.list_users_paginated
  list_users token page size = do
    get_current_admin token
    query ← page_query page size
    gets (Users.list_users_paginated query.0 query.1)

  abbrev pub login : Login → Exec State (TokenResponse ext.Token)
  login input = Users.login input

  abbrev pub me : ext.Token → Exec State User
  me token = get_current_user token

  abbrev pub get_user : ext.Token → String → Exec State User
  get_user token user_id = get_current_admin token >> Users.get_by_id user_id

  abbrev pub update_user : ext.Token → String → UpdateUser → Exec State User
  update_user token user_id input = get_current_admin token >> Users.update_user user_id input

  abbrev pub delete_user : ext.Token → String → Exec State (Unit {0})
  delete_user token user_id = get_current_admin token >> Users.delete_user user_id

  abbrev pub update_user_role : ext.Token → String → UpdateUserRole → Exec State User
  update_user_role token user_id input = get_current_admin token >> Users.update_role user_id input
