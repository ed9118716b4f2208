-- ===== src/Users/Accounts.antt =====
-- The life of an account: registration, login, a change of role, deletion, and a second
-- registration.
use library_api.Prelude.{
  ℕ, ◌+◌, ◌<◌, String, ◌≡◌, refl, Bool, true, false, none, some, List, [], ◌∷◌, arith, select,
  count, eq_iff, eq_refl, if◌then◌else◌,
}
use library_api.Errors.{domain, not_found, unauthorized}
use library_api.Tokens.{payload, whole_seconds, minutes}
use library_api.Models.User.{User, UserRole, user_row, role_eq}
use library_api.Table.{find_by_key, find_by_key-insert, find_by_key-save, find_where_self, insert}
use library_api.Exec.{Result, ok, err, ◌>>=◌}
use library_api.External.{External}
use library_api.World.{State}
use library_api.Effects.{Ends-ok, Ends-returned, Unchanged}
use library_api.Users.Repository
use library_api.Users.Repository.{has_email, is_active_with}
use library_api.Users.Service.{
  CreateUser, UpdateUserRole, create_user, login, update_role, delete_user, create_access_token,
  role_text,
}
use library_api.Users.Effects.{
  Registered, new_user, Edited, create_user-Ends, update_role-Ends, delete_user-Ends,
}
use library_api.Security.{get_current_user, get_current_admin}

select_none :
    (email : String) (l : List User)
    → count (has_email email) l ≡ 0
    → select (is_active_with email) l ≡ []
select_none email [] h = refl
select_none email (u ∷ l) h = ground (arith, select_none email l)

select-insert :
    (p : User → Bool) (u : User) (l : List User)
    → select p l ≡ []
    → p u ≡ true
    → select p (insert u l) ≡ u ∷ []
select-insert p u [] h k = ground arith
select-insert p u (v ∷ l) h k = ground (arith, select-insert p u l)

module _ ⦃ext : External⦄ where
  abbrev pub token_for : User → State → ext.Token
  token_for user w = ext.encode (record {
    sub = user.id;
    exp = ext.clock w.readings + minutes ext.jwt_expire_minutes;
    role = role_text user.role;
  })

  pub login_lem :
      (email password : String) (w : State) (user : User)
      → select (is_active_with email) w.users ≡ user ∷ []
      → ext.verify password user.password ≡ true
      → login (record { email = email; password = password }) w
        ≡ (ok (record { access_token = token_for user w }), record w { readings = w.readings + 1 })
  unfolding login create_access_token
  login_lem email password w user found right = ground (arith, found, right)

  pub get_current_user_lem :
      (token : ext.Token) (user_id : String) (w : State) (user : User)
      → ext.decode (ext.clock w.readings) token ≡ payload (some user_id)
      → Repository.find_by_id user_id w ≡ some user
      → get_current_user token w ≡ (ok user, record w { readings = w.readings + 1 })
  unfolding get_current_user
  get_current_user_lem token user_id w user decoded found = ground (arith, decoded, found)

  pub accepted :
      (user : User) (w : State) (now : ℕ)
      → now < whole_seconds (ext.clock w.readings + minutes ext.jwt_expire_minutes)
      → ext.decode now (token_for user w) ≡ payload (some user.id)
  accepted user w now in_time = rw ext.decode-encode (ground arith)

  -- Once `create_user` has returned, logging in with the same email and password, and then
  -- presenting the token that was answered, gives the new user, if its identifier was new and the
  -- second in which the token expires is not reached.
  pub get_current_user-login :
      (input : CreateUser) (w : State) (r : User)
      → (create_user input w).0 ≡ ok r
      → find_by_key (ext.uuid (w.identifiers + 1)) w.users ≡ none
      → ext.clock (w.readings + 2)
        < whole_seconds (ext.clock (w.readings + 1) + minutes ext.jwt_expire_minutes)
      → let session : State → Result User × State = (do
        answer ← login (record { email = input.email; password = input.password })
        get_current_user answer.access_token) in
        (session (create_user input w).1).0 ≡ ok r
  get_current_user-login input w r created fresh in_time =
      let w₁ = (create_user input w).1 in
      let w₂ : State = record w₁ { readings = w₁.readings + 1 } in
      let p =
        Ends-returned (Registered input w) (Unchanged w) (create_user input w)
          (create_user-Ends input w) created in
      let u = new_user input w in
      let alone : select (is_active_with input.email) w₁.users ≡ u ∷ [] = rw p.users (
        select-insert (is_active_with input.email) u w.users
          (select_none input.email w.users p.unused) (ground (arith, eq_refl input.email))) in
      let there : Repository.find_by_id u.id w₂ ≡ some u =
        rw (p.users, find_by_key-insert, fresh, eq_refl) refl in
      let right : ext.verify input.password u.password ≡ true =
        ext.verify-hash w.identifiers input.password in
      let signed = login_lem input.email input.password w₁ u alone right in
      let valid : ext.decode (ext.clock w₂.readings) (token_for u w₁) ≡ payload (some u.id) =
        accepted u w₁ (ext.clock w₂.readings) (ground (arith, p.readings, in_time)) in
      let known = get_current_user_lem (token_for u w₁) u.id w₂ u valid there in
      ground (arith, signed, known, created, p.answer)

  -- Once `delete_user` has returned, every token of the user is answered with "not found".
  pub get_current_user-delete_user :
      (user_id : String) (token : ext.Token) (w : State)
      → (delete_user user_id w).0 ≡ ok tt
      → ext.decode (ext.clock (delete_user user_id w).1.readings) token ≡ payload (some user_id)
      → (get_current_user token (delete_user user_id w).1).0
        ≡ err (domain (not_found "Usuário não encontrado"))
  unfolding get_current_user
  get_current_user-delete_user user_id token w deleted decoded =
      let (_, p) =
        Ends-ok (λ r. Edited user_id (λ u. record u { is_active = false }) w) (Unchanged w)
          (delete_user user_id w) (delete_user-Ends user_id w) deleted in
      let (found, _, key) = find_where_self user_id Repository.is_active w.users p.found in
      let gone : Repository.find_by_id user_id (delete_user user_id w).1 ≡ none =
        rw
          (
            p.users,
            find_by_key-save user_id (record p.user { is_active = false }) p.user w.users found,
          )
          (ground (arith, eq_iff p.user.id user_id)) in
      ground (arith, decoded, gone)

  update_role_answer :
      (user_id : String) (input : UpdateUserRole) (w : State) (user : User)
      → Repository.find_by_id user_id w ≡ some user
      → (update_role user_id input w).0 ≡ ok (record user { role = input.role })
  unfolding update_role
  update_role_answer user_id input w user found = ground (arith, found)

  -- A change of role counts at once, also for the tokens given out before it: whether a token of the
  -- user passes as an administrator's is decided by the new role.
  pub get_current_admin-update_role :
      (user_id : String) (input : UpdateUserRole) (token : ext.Token) (w : State) (r : User)
      → (update_role user_id input w).0 ≡ ok r
      → ext.decode (ext.clock (update_role user_id input w).1.readings) token
        ≡ payload (some user_id)
      → (get_current_admin token (update_role user_id input w).1).0 ≡ (
          if role_eq input.role UserRole.admin
          then ok r
          else err (domain (unauthorized "Acesso de administrador obrigatório")))
  unfolding get_current_admin
  get_current_admin-update_role user_id input token w r updated decoded =
      let w' = (update_role user_id input w).1 in
      let (_, p) =
        Ends-ok (λ r. Edited user_id (λ u. record u { role = input.role }) w) (Unchanged w)
          (update_role user_id input w) (update_role-Ends user_id input w) updated in
      let u : User = record p.user { role = input.role } in
      let (found, active, key) = find_where_self user_id Repository.is_active w.users p.found in
      let there : Repository.find_by_id user_id w' ≡ some u =
        rw (p.users, find_by_key-save user_id u p.user w.users found)
          (ground (arith, eq_iff p.user.id user_id)) in
      let known = get_current_user_lem token user_id w' u decoded there in
      ground (arith, known, update_role_answer user_id input w p.user p.found, updated)
