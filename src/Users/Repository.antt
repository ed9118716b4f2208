-- ===== src/Users/Repository.antt =====
-- app/domain/users/repositories: `UserRepository`.
use library_api.Prelude.{
  ℕ, ◌*◌, ◌-◌, String, Bool, true, false, ◌&&◌, Option, List, ◌==◌, leb, select, count, take, drop,
}
use library_api.Errors.{integrity_error}
use library_api.Models.User.{User, user_row}
use library_api.Table.{insert, find_where, save, scalar_one_or_none}
use library_api.Exec.{Exec, raise, gets, modify, scalar, ◌>>=◌}
use library_api.External.{External}
use library_api.World.{State, with_users}

abbrev pub has_email : String → User → Bool
has_email email u = u.email == email

abbrev pub is_active : User → Bool
is_active u = u.is_active

-- The conditions of `find_by_email`.
abbrev pub is_active_with : String → User → Bool
is_active_with email u = has_email email u && is_active u

-- A flush that the unique column `email` lets pass, or not.
abbrev insert_unless : Bool → {A : Type 0} → Exec A (Unit {0}) → Exec A (Unit {0})
insert_unless true m = raise integrity_error
insert_unless false m = m

module _ ⦃ext : External⦄ where
  -- `repository.create`: the column `email` is unique, whether a user is active or not.
  abbrev pub create : User → Exec State (Unit {0})
  create user = do
    taken ← gets (λ w. leb 1 (count (has_email user.email) w.users))
    insert_unless taken (modify (λ w. with_users w (insert user w.users)))

  abbrev pub find_by_email : String → Exec State (Option User)
  find_by_email email = do
    rows ← gets (λ w. select (is_active_with email) w.users)
    scalar (scalar_one_or_none rows)

  abbrev pub find_by_id : String → State → Option User
  find_by_id user_id w = find_where user_id is_active w.users

  abbrev pub list_users : State → List User
  list_users w = select is_active w.users

  -- Without ORDER BY, in the order of the table.
  unfoldable pub list_users_paginated : ℕ → ℕ → State → List User × ℕ
  list_users_paginated page size w =
      (take size (drop ((page - 1) * size) (list_users w)), count is_active w.users)

  abbrev pub update : User → State → State
  update user w = with_users w (save user w.users)
