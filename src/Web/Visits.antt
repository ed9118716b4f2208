-- ===== src/Web/Visits.antt =====
-- The tables along any run of requests over HTTP, whoever sends them.
use library_api.Prelude.{◌≡◌, refl, some, ◌≤◌, String, ap, List, [], ◌∷◌, count}
use library_api.External.{External}
use library_api.World.{State, Db}
use mathlib.Core.Path.{subst, sym}
use library_api.Models.User.{User, user_row}
use library_api.Table.{find_by_key}
use library_api.Reservations.Repository.{is_active_of}
use library_api.Api.{Request, serve}
use library_api.Inventory.Accounts.{Keeps, serve-Keeps}
use library_api.Inventory.Queues.{serve-single}
use library_api.Web.{Endpoint, Orders, answer}
use library_api.Web.Access.{reads, serves}
use library_api.Web.Answers.{answer-Course}

module _ ⦃ext : External⦄ (orders : Orders) where
  -- One request after the other, each with its token; an exception ends only its own request.
  unfoldable pub answer_all : List (ext.Token × Endpoint) → State → State
  unfolding answer
  answer_all [] w = w
  answer_all ((token, e) ∷ visits) w = answer_all visits (answer orders token e w).1

  -- What the requests that write keep, the application keeps.
  visit_induction :
      (P : Db → Type 0)
      → ((r : Request) (s : State) → P s.db → P (serve r s).db)
      → (visits : List (ext.Token × Endpoint)) (w : State) → P w.db
      → P (answer_all visits w).db
  unfolding answer_all
  visit_induction P keep [] w h = h
  visit_induction P keep ((token, e) ∷ visits) w h =
      visit_induction P keep visits (answer orders token e w).1
        (elim (answer-Course orders token e w) [
          | reads same ↦ subst P (sym same.db) h
          | serves s r asked before done allowed ↦
              subst P (sym (ap (λ (v : State). v.db) done)) (keep r s (subst P (sym before.db) h))
        ])

  -- However many people send whatever requests over HTTP, with whatever tokens: the row of an account
  -- stays under its identifier, with its address, hashed password and date of creation, and as it is
  -- altogether once the account is deleted.
  pub answer_all-Keeps :
      (visits : List (ext.Token × Endpoint)) (w : State) (u : User)
      → find_by_key u.id w.users ≡ some u
      → Keeps u (answer_all visits w).users
  answer_all-Keeps visits w u there =
      visit_induction (λ d. Keeps u d.users) (λ r s. serve-Keeps u r s) visits w
        (record { row = u; found = there; kept = record { same = refl; deleted = λ gone. refl } })

  -- However many people send whatever requests over HTTP, with whatever tokens: if a user has at most
  -- one active reservation of a book, then so it is afterwards.
  pub answer_all-single :
      (visits : List (ext.Token × Endpoint)) (w : State) (user_id book_id : String)
      → count (is_active_of user_id book_id) w.reservations ≤ 1
      → count (is_active_of user_id book_id) (answer_all visits w).reservations ≤ 1
  answer_all-single visits w user_id book_id h =
      visit_induction (λ d. count (is_active_of user_id book_id) d.reservations ≤ 1)
        (λ r s. serve-single r s user_id book_id) visits w h
