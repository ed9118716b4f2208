-- ===== src/Users/Effects.antt =====
-- How the methods of the user service that write end.
use library_api.Prelude.{
  ◌+◌, ◌≤◌, String, ◌≡◌, refl, true, false, some, List, [], ◌∷◌, arith, Bool-cases, Option-cases,
  inl, inr, leb, count, select,
}
use library_api.Models.User.{User, UserRole, user_row}
use library_api.Table.{insert, save}
use library_api.External.{External}
use library_api.World.{State, with_users}
use library_api.Exec.{ok}
use library_api.Effects.{Ends, Unchanged}
use library_api.Users.Repository
use library_api.Users.Repository.{has_email, is_active_with}
use library_api.Users.Service.{
  CreateUser, UpdateUser, UpdateUserRole, create_user, update_user, update_role, delete_user,
  renamed,
}

module _ ⦃ext : External⦄ where
  -- What the user service leaves alone.
  pub record Untouched (w w' : State) : Type 0 where
    pub authors : w'.authors ≡ w.authors
    pub books : w'.books ≡ w.books
    pub loans : w'.loans ≡ w.loans
    pub reservations : w'.reservations ≡ w.reservations
    pub cache : w'.cache ≡ w.cache
    pub later : w.identifiers ≤ w'.identifiers

  -- The salt takes the first number that is drawn, the identifier the second.
  abbrev pub new_user : CreateUser → State → User
  new_user input w = record {
    id = ext.uuid (w.identifiers + 1);
    name = input.name;
    email = input.email;
    password = ext.hash w.identifiers input.password;
    created_at = ext.clock w.readings;
    is_active = true;
    role = UserRole.user;
  }

  pub record Registered (input : CreateUser) (w : State) (r : User) (w' : State) : Type 0 where
    pub unused : count (has_email input.email) w.users ≡ 0
    pub answer : r ≡ new_user input w
    pub readings : w'.readings ≡ w.readings + 1
    pub users : w'.users ≡ insert (new_user input w) w.users
    pub rest : Untouched w w'

  pub create_user-Ends :
      (input : CreateUser) (w : State)
      → Ends (Registered input w) (Unchanged w) (create_user input w)
  unfolding create_user
  create_user-Ends input w = go (select (is_active_with input.email) w.users) refl
    where
      go :
          (rows : List User)
          → select (is_active_with input.email) w.users ≡ rows
          → Ends (Registered input w) (Unchanged w) (create_user input w)
      go (u ∷ []) e = ground (arith, e)
      go (u ∷ v ∷ l) e = ground (arith, e)
      go [] e = elim (Bool-cases (leb 1 (count (has_email input.email) w.users))) [
        | inl taken ↦ ground (arith, e, taken)
        | inr free ↦
            let done : create_user input w ≡ (
              ok (new_user input w),
              record w {
                db = record w.db { users = insert (new_user input w) w.users };
                readings = w.readings + 1;
                identifiers = w.identifiers + 1 + 1;
              },
            ) =
              ground (arith, e, free) in
            rw done (record {
              unused = ground arith;
              answer = refl;
              readings = refl;
              users = refl;
              rest = ground arith;
            })
      ]

  -- A write back of one active user.
  pub record Edited (user_id : String) (f : User → User) (w w' : State) : Type 0 where
    pub user : User
    pub found : Repository.find_by_id user_id w ≡ some user
    pub users : w'.users ≡ save (f user) w.users
    pub rest : Untouched w w'

  pub update_user-Ends :
      (user_id : String) (input : UpdateUser) (w : State)
      → Ends
          (λ r. Edited user_id (renamed input.name) w)
          (Unchanged w)
          (update_user user_id input w)
  unfolding update_user
  update_user-Ends user_id input w = elim (Option-cases (Repository.find_by_id user_id w)) [
    | inl no_user ↦ ground arith
    | inr (user, found) ↦
        let done : update_user user_id input w ≡ (
          ok (renamed input.name user),
          with_users w (save (renamed input.name user) w.users),
        ) =
          ground (arith, found) in
        rw done (record { user = user; found = found; users = refl; rest = ground arith })
  ]

  pub update_role-Ends :
      (user_id : String) (input : UpdateUserRole) (w : State)
      → Ends
          (λ r. Edited user_id (λ u. record u { role = input.role }) w)
          (Unchanged w)
          (update_role user_id input w)
  unfolding update_role
  update_role-Ends user_id input w = elim (Option-cases (Repository.find_by_id user_id w)) [
    | inl no_user ↦ ground arith
    | inr (user, found) ↦
        let done : update_role user_id input w ≡ (
          ok (record user { role = input.role }),
          with_users w (save (record user { role = input.role }) w.users),
        ) =
          ground (arith, found) in
        rw done (record { user = user; found = found; users = refl; rest = ground arith })
  ]

  pub delete_user-Ends :
      (user_id : String) (w : State)
      → Ends
          (λ r. Edited user_id (λ u. record u { is_active = false }) w)
          (Unchanged w)
          (delete_user user_id w)
  unfolding delete_user
  delete_user-Ends user_id w = elim (Option-cases (Repository.find_by_id user_id w)) [
    | inl no_user ↦ ground arith
    | inr (user, found) ↦
        let done : delete_user user_id w
            ≡ (ok tt, with_users w (save (record user { is_active = false }) w.users)) =
          ground (arith, found) in
        rw done (record { user = user; found = found; users = refl; rest = ground arith })
  ]
