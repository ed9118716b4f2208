-- ===== src/Users/Deletion.antt =====
-- The email of an account before and after its deletion, app/domain/users.
use library_api.Prelude.{
  ◌≤◌, ◌≡◌, ap, ◌∙◌, Bool, true, false, some, List, [], ◌∷◌, arith, select, count, leb, eq_iff,
  eq_refl, ◌==◌, Bool-cases, inl, inr,
}
use library_api.Errors.{domain, business_rule, integrity_error}
use library_api.Models.User.{User, user_row}
use library_api.Table.{find_by_key, find_by_key-save, id_of-find_by_key, save}
use library_api.Exec.{ok, err}
use library_api.External.{External}
use library_api.World.{State, with_users}
use library_api.Users.Repository.{has_email, is_active_with}
use library_api.Users.Service.{CreateUser, create_user, delete_user}

not_both : {b : Bool} → b ≡ true → b ≡ false → ⊥
not_both h k = cc

some-injective : (u v : User) → some u ≡ some v → u ≡ v
some-injective u v h = ground arith

tail_nil : (u v : User) (l : List User) → u ∷ l ≡ v ∷ [] → (u ≡ v) × (l ≡ [])
tail_nil u v l h = ground arith

-- The one row of a selection no longer passes once it is written back changed.
select-save :
    (p : User → Bool) (old new : User) (l : List User)
    → find_by_key new.id l ≡ some old
    → p new ≡ false
    → p old ≡ true
    → select p l ≡ old ∷ []
    → select p (save new l) ≡ []
unfolding find_by_key save
select-save p old new [] h q k e = ground arith
select-save p old new (y ∷ l) h q k e = elim (Bool-cases (y.id == new.id)) [
  | inl here ↦
      let same : y ≡ old = some-injective y old (rw here at h) in
      let passes : p y ≡ true = ap p same ∙ k in
      rw (here, q) (tail_nil y old (select p l) (rw passes at e)).1
  | inr other ↦
      let later : find_by_key new.id l ≡ some old = rw other at h in
      elim (Bool-cases (p y)) [
        | inr fails ↦ rw (other, fails) (select-save p old new l later q k (rw fails at e))
        | inl passes ↦
            let (first, _) = tail_nil y old (select p l) (rw passes at e) in
            let key : y.id ≡ new.id =
              ap (λ (u : User). u.id) first ∙ id_of-find_by_key new.id l {x = old} later in
            absurd (not_both ((eq_iff y.id new.id).1 key) other)
      ]
]

select_passes : (p : User → Bool) (u : User) (l m : List User) → select p l ≡ u ∷ m → p u ≡ true
select_passes p u [] m h = ground arith
select_passes p u (v ∷ l) m h = ground (arith, select_passes p u l m)

count_found :
    (p : User → Bool) (u : User) (l : List User)
    → find_by_key u.id l ≡ some u
    → p u ≡ true
    → 1 ≤ count p l
unfolding find_by_key
count_found p u [] h q = ground arith
count_found p u (v ∷ l) h q = ground (arith, count_found p u l)

module _ ⦃ext : External⦄ where
  create_user_active :
      (input : CreateUser) (w : State) (u : User)
      → select (is_active_with input.email) w.users ≡ u ∷ []
      → (create_user input w).0 ≡ err (domain (business_rule "E-mail já cadastrado"))
  unfolding create_user
  create_user_active input w u there = ground (arith, there)

  create_user_inactive :
      (input : CreateUser) (w : State)
      → select (is_active_with input.email) w.users ≡ []
      → 1 ≤ count (has_email input.email) w.users
      → (create_user input w).0 ≡ err integrity_error
  unfolding create_user
  create_user_inactive input w inactive taken =
      let stopped : leb 1 (count (has_email input.email) w.users) ≡ true = ground arith in
      ground (arith, inactive, stopped)

  delete_user_done :
      (u : User) (w : State)
      → find_by_key u.id w.users ≡ some u
      → u.is_active ≡ true
      → delete_user u.id w ≡ (ok tt, with_users w (save (record u { is_active = false }) w.users))
  unfolding delete_user
  delete_user_done u w found active = ground (arith, found, active)

  -- While an account is active, registering its email is answered with the business rule. Deleting
  -- the account succeeds, and after that the email cannot be registered either: the test of
  -- `create_user` does not see the row, and the insertion violates the unique column.
  pub create_user-delete_user :
      (input : CreateUser) (w : State) (u : User)
      → select (is_active_with input.email) w.users ≡ u ∷ []
      → find_by_key u.id w.users ≡ some u
      → ((create_user input w).0 ≡ err (domain (business_rule "E-mail já cadastrado")))
        × ((delete_user u.id w).0 ≡ ok tt)
        × ((create_user input (delete_user u.id w).1).0 ≡ err integrity_error)
  create_user-delete_user input w u there found =
      let passes = select_passes (is_active_with input.email) u w.users [] there in
      let gone : User = record u { is_active = false } in
      let done = delete_user_done u w found (ground (arith, passes)) in
      let w' : State = with_users w (save gone w.users) in
      let unseen : select (is_active_with input.email) w'.users ≡ [] =
        select-save (is_active_with input.email) u gone w.users found (ground arith) passes there in
      let kept : find_by_key gone.id w'.users ≡ some gone =
        find_by_key-save gone.id gone u w.users found ∙ ground (arith, eq_refl gone.id) in
      let taken = count_found (has_email input.email) gone w'.users kept (ground (arith, passes)) in
      (
        create_user_active input w u there,
        ap (λ x. x.0) done,
        ap (λ x. (create_user input x.1).0) done ∙ create_user_inactive input w' unseen taken,
      )
