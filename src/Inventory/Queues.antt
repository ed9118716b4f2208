-- ===== src/Inventory/Queues.antt =====
-- The table of reservations along any run of requests.
use library_api.Prelude.{
  ◌∙◌, refl, ◌≤◌, String, ◌≡◌, Bool, true, some, List, [], ◌∷◌, arith, count, select, eq_iff,
}
use library_api.Models.Reservation.{Reservation, ReservationStatus, status_eq, reservation_row}
use library_api.Table.{find_by_key, insert, save, count-save, count-insert, find_by_key_self}
use library_api.External.{External}
use library_api.World.{State}
use library_api.Effects.{Ends-state}
use library_api.EventBus.{service_bus}
use library_api.Users.Service as Users
use library_api.Users.Effects.{
  create_user-Ends, update_user-Ends, update_role-Ends, delete_user-Ends,
}
use library_api.Authors.Service as Authors
use library_api.Authors.Effects.{create_author-Ends, update_author-Ends, delete_author-Ends}
use library_api.Books.Service as Books
use library_api.Loans.Service as Loans
use library_api.Reservations.Service as Reservations
use library_api.Reservations.Repository.{is_active, is_active_of}
use library_api.Books.Effects.{create_book-Ends, update_book-Ends, delete_book-Ends}
use library_api.Loans.Effects.Create.{create_loan-Ends}
use library_api.Loans.Effects.Return.{return_loan-Ends}
use library_api.Loans.Effects.Pay.{pay_fine-Ends}
use library_api.Loans.Effects.Update.{update_loan-Ends}
use library_api.Loans.Effects.Cancel.{cancel_loan-Ends}
use library_api.Loans.Effects.Renew.{renew_loan-Ends}
use library_api.Reservations.Effects.{
  new_reservation, create_reservation-Ends, cancel_reservation-Ends,
}
use library_api.Notifications.Once.{execute-Delivered}
use library_api.Api.{
  Request, create_user, update_user, update_role, delete_user, create_author, update_author,
  delete_author, create_book, update_book, delete_book, create_loan, return_loan, pay_fine,
  update_loan, cancel_loan, renew_loan, create_reservation, cancel_reservation, run_due_loans_job,
  serve, serve_all,
}

abbrev pub is_fulfilled : Reservation → Bool
is_fulfilled r = status_eq r.status ReservationStatus.fulfilled

-- What a request may do to the table of reservations.
pub data Move (rs ts : List Reservation) : Type 0 where
  stay : ts ≡ rs → Move rs ts
  reserve :
      (r : Reservation)
      → r.status ≡ ReservationStatus.active
      → count (is_active_of r.user_id r.book_id) rs ≡ 0
      → ts ≡ insert r rs
      → Move rs ts
  withdraw :
      (old new : Reservation)
      → find_by_key new.id rs ≡ some old
      → is_active old ≡ true
      → new.status ≡ ReservationStatus.cancelled
      → ts ≡ save new rs
      → Move rs ts

none_counted : (p : Reservation → Bool) (rs : List Reservation) → select p rs ≡ [] → count p rs ≡ 0
none_counted p [] h = ground arith
none_counted p (r ∷ rs) h = ground (arith, none_counted p rs)

module _ ⦃ext : External⦄ where
  pub serve-Move : (r : Request) (w : State) → Move w.reservations (serve r w).reservations
  unfolding serve
  serve-Move (create_user input) w =
      Ends-state (Users.create_user input w) (create_user-Ends input w)
        (λ _ _ p. stay p.rest.reservations) (λ _ u. stay (rw u.db refl))
  serve-Move (update_user user_id input) w =
      Ends-state (Users.update_user user_id input w) (update_user-Ends user_id input w)
        (λ _ _ p. stay p.rest.reservations) (λ _ u. stay (rw u.db refl))
  serve-Move (update_role user_id input) w =
      Ends-state (Users.update_role user_id input w) (update_role-Ends user_id input w)
        (λ _ _ p. stay p.rest.reservations) (λ _ u. stay (rw u.db refl))
  serve-Move (delete_user user_id) w =
      Ends-state (Users.delete_user user_id w) (delete_user-Ends user_id w)
        (λ _ _ p. stay p.rest.reservations) (λ _ u. stay (rw u.db refl))
  serve-Move (create_author input) w =
      Ends-state (Authors.create_author input w) (create_author-Ends input w)
        (λ _ _ p. stay p.rest.reservations) (λ _ u. stay (rw u.db refl))
  serve-Move (update_author author_id input) w =
      Ends-state (Authors.update_author author_id input w) (update_author-Ends author_id input w)
        (λ _ _ p. stay p.rest.reservations) (λ _ u. stay (rw u.db refl))
  serve-Move (delete_author author_id) w =
      Ends-state (Authors.delete_author author_id w) (delete_author-Ends author_id w)
        (λ _ _ p. stay p.rest.reservations) (λ _ u. stay (rw u.db refl))
  serve-Move (create_book input) w =
      Ends-state (Books.create_book input w) (create_book-Ends input w)
        (λ _ _ p. stay p.rest.reservations) (λ _ u. stay (rw u.db refl))
  serve-Move (update_book book_id input) w =
      Ends-state (Books.update_book book_id input w) (update_book-Ends book_id input w)
        (λ _ _ p. stay p.rest.reservations) (λ _ u. stay (rw u.db refl))
  serve-Move (delete_book book_id) w =
      Ends-state (Books.delete_book book_id w) (delete_book-Ends book_id w)
        (λ _ _ p. stay p.rest.reservations) (λ _ u. stay (rw u.db refl))
  serve-Move (create_loan input) w =
      Ends-state (Loans.create_loan service_bus input w) (create_loan-Ends input w)
        (λ _ _ p. stay p.reservations) (λ _ u. stay (rw u.db refl))
  serve-Move (return_loan loan_id) w =
      Ends-state (Loans.return_loan service_bus loan_id w) (return_loan-Ends loan_id w)
        (λ _ _ p. stay p.reservations) (λ _ u. stay (rw u.db refl))
  serve-Move (pay_fine loan_id) w =
      Ends-state (Loans.pay_fine loan_id w) (pay_fine-Ends loan_id w) (λ _ _ p. stay p.reservations)
        (λ _ u. stay (rw u.db refl))
  serve-Move (update_loan loan_id input) w =
      Ends-state (Loans.update_loan loan_id input w) (update_loan-Ends loan_id input w)
        (λ _ _ p. stay p.reservations) (λ _ u. stay (rw u.db refl))
  serve-Move (cancel_loan loan_id) w =
      Ends-state (Loans.cancel_loan service_bus loan_id w) (cancel_loan-Ends loan_id w)
        (λ _ _ p. stay p.reservations) (λ _ u. stay (rw u.db refl))
  serve-Move (renew_loan loan_id) w =
      Ends-state (Loans.renew_loan loan_id w) (renew_loan-Ends loan_id w)
        (λ _ _ p. stay p.reservations) (λ _ u. stay (rw u.db refl))
  serve-Move (create_reservation input user_id) w =
      Ends-state (Reservations.create_reservation service_bus input user_id w)
        (create_reservation-Ends input user_id w)
        (λ _ _ p.
          reserve (new_reservation user_id input.book_id w) refl
            (none_counted _ w.reservations p.first) p.reservations)
        (λ _ u. stay (rw u.db refl))
  serve-Move (cancel_reservation reservation_id) w =
      Ends-state (Reservations.cancel_reservation service_bus reservation_id w)
        (cancel_reservation-Ends reservation_id w)
        (λ _ _ p.
          withdraw p.reservation _ (find_by_key_self reservation_id w.reservations p.found)
            (rw p.active refl) refl p.reservations)
        (λ _ u. stay (rw u.db refl))
  serve-Move run_due_loans_job w = stay (execute-Delivered w).reservations

Move-single :
    {rs ts : List Reservation} (user_id book_id : String)
    → Move rs ts
    → count (is_active_of user_id book_id) rs ≤ 1
    → count (is_active_of user_id book_id) ts ≤ 1
Move-single u b (stay same) h = rw same h
Move-single {rs} u b (reserve r live first ts) h =
    rw (ts, count-insert) (ground (arith, first, live, eq_iff r.user_id u, eq_iff r.book_id b))
Move-single {rs} u b (withdraw old new had live closed ts) h =
    rw ts (ground (arith, count-save (is_active_of u b) new old rs had))

Move-unfulfilled :
    {rs ts : List Reservation} → Move rs ts → count is_fulfilled ts ≡ count is_fulfilled rs
Move-unfulfilled (stay same) = rw same refl
Move-unfulfilled {rs} (reserve r live first ts) = rw (ts, count-insert) (ground (arith, live))
Move-unfulfilled {rs} (withdraw old new had live closed ts) =
    rw ts (ground (arith, closed, count-save is_fulfilled new old rs had))

module _ ⦃ext : External⦄ where
  pub serve-single :
      (r : Request) (w : State) (user_id book_id : String)
      → count (is_active_of user_id book_id) w.reservations ≤ 1
      → count (is_active_of user_id book_id) (serve r w).reservations ≤ 1
  serve-single r w u b h = Move-single u b (serve-Move r w) h

  -- If a user has at most one active reservation of a book, then so it is after any run of requests.
  pub serve_all-single :
      (rs : List Request) (w : State) (user_id book_id : String)
      → count (is_active_of user_id book_id) w.reservations ≤ 1
      → count (is_active_of user_id book_id) (serve_all rs w).reservations ≤ 1
  unfolding serve_all
  serve_all-single [] w u b h = h
  serve_all-single (r ∷ rs) w u b h = serve_all-single rs (serve r w) u b (serve-single r w u b h)

  -- No run of requests changes the number of fulfilled reservations: nothing fulfils one.
  pub serve_all-fulfilled :
      (rs : List Request) (w : State)
      → count is_fulfilled (serve_all rs w).reservations ≡ count is_fulfilled w.reservations
  unfolding serve_all
  serve_all-fulfilled [] w = refl
  serve_all-fulfilled (r ∷ rs) w =
      serve_all-fulfilled rs (serve r w) ∙ Move-unfulfilled (serve-Move r w)
