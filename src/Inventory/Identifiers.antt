-- ===== src/Inventory/Identifiers.antt =====
-- The generator of identifiers along any run of requests.
use library_api.Prelude.{◌≤◌}
use library_api.External.{External}
use library_api.World.{State}
use library_api.Effects.{Ends-state}
use library_api.EventBus.{service_bus}
use library_api.Users.Service as Users
use library_api.Users.Service.{renamed}
use library_api.Users.Effects.{
  create_user-Ends, update_user-Ends, update_role-Ends, delete_user-Ends,
}
use library_api.Authors.Service as Authors
use library_api.Authors.Effects.{create_author-Ends, update_author-Ends, delete_author-Ends}
use library_api.Books.Service as Books
use library_api.Loans.Service as Loans
use library_api.Reservations.Service as Reservations
use library_api.Books.Effects.{create_book-Ends, update_book-Ends, delete_book-Ends}
use library_api.Loans.Effects.Create.{create_loan-Ends}
use library_api.Loans.Effects.Return.{return_loan-Ends}
use library_api.Loans.Effects.Pay.{pay_fine-Ends}
use library_api.Loans.Effects.Update.{update_loan-Ends}
use library_api.Loans.Effects.Cancel.{cancel_loan-Ends}
use library_api.Loans.Effects.Renew.{renew_loan-Ends}
use library_api.Reservations.Effects.{create_reservation-Ends, cancel_reservation-Ends}
use library_api.Notifications.Once.{execute-Delivered}
use library_api.Api.{
  Request, create_user, update_user, update_role, delete_user, create_author, update_author,
  delete_author, create_book, update_book, delete_book, create_loan, return_loan, pay_fine,
  update_loan, cancel_loan, renew_loan, create_reservation, cancel_reservation, run_due_loans_job,
  serve,
}

module _ ⦃ext : External⦄ where
  -- No identifier is given out again.
  pub serve_later : (r : Request) (w : State) → w.identifiers ≤ (serve r w).identifiers
  unfolding serve
  serve_later (create_user input) w =
      Ends-state (Users.create_user input w) (create_user-Ends input w) (λ _ _ p. p.rest.later)
        (λ _ u. u.later)
  serve_later (update_user user_id input) w =
      Ends-state (Users.update_user user_id input w) (update_user-Ends user_id input w)
        (λ _ _ p. p.rest.later) (λ _ u. u.later)
  serve_later (update_role user_id input) w =
      Ends-state (Users.update_role user_id input w) (update_role-Ends user_id input w)
        (λ _ _ p. p.rest.later) (λ _ u. u.later)
  serve_later (delete_user user_id) w =
      Ends-state (Users.delete_user user_id w) (delete_user-Ends user_id w) (λ _ _ p. p.rest.later)
        (λ _ u. u.later)
  serve_later (create_book input) w =
      Ends-state (Books.create_book input w) (create_book-Ends input w) (λ _ _ p. p.rest.later)
        (λ _ u. u.later)
  serve_later (update_book book_id input) w =
      Ends-state (Books.update_book book_id input w) (update_book-Ends book_id input w)
        (λ _ _ p. p.rest.later) (λ _ u. u.later)
  serve_later (delete_book book_id) w =
      Ends-state (Books.delete_book book_id w) (delete_book-Ends book_id w) (λ _ _ p. p.rest.later)
        (λ _ u. u.later)
  serve_later (create_author input) w =
      Ends-state (Authors.create_author input w) (create_author-Ends input w)
        (λ _ _ p. p.rest.later) (λ _ u. u.later)
  serve_later (update_author author_id input) w =
      Ends-state (Authors.update_author author_id input w) (update_author-Ends author_id input w)
        (λ _ _ p. p.rest.later) (λ _ u. u.later)
  serve_later (delete_author author_id) w =
      Ends-state (Authors.delete_author author_id w) (delete_author-Ends author_id w)
        (λ _ _ p. p.rest.later) (λ _ u. u.later)
  serve_later (create_loan input) w =
      Ends-state (Loans.create_loan service_bus input w) (create_loan-Ends input w)
        (λ _ _ p. p.later) (λ _ u. u.later)
  serve_later (return_loan loan_id) w =
      Ends-state (Loans.return_loan service_bus loan_id w) (return_loan-Ends loan_id w)
        (λ _ _ p. p.later) (λ _ u. u.later)
  serve_later (pay_fine loan_id) w =
      Ends-state (Loans.pay_fine loan_id w) (pay_fine-Ends loan_id w) (λ _ _ p. p.later)
        (λ _ u. u.later)
  serve_later (update_loan loan_id input) w =
      Ends-state (Loans.update_loan loan_id input w) (update_loan-Ends loan_id input w)
        (λ _ _ p. p.later) (λ _ u. u.later)
  serve_later (cancel_loan loan_id) w =
      Ends-state (Loans.cancel_loan service_bus loan_id w) (cancel_loan-Ends loan_id w)
        (λ _ _ p. p.later) (λ _ u. u.later)
  serve_later (renew_loan loan_id) w =
      Ends-state (Loans.renew_loan loan_id w) (renew_loan-Ends loan_id w) (λ _ _ p. p.later)
        (λ _ u. u.later)
  serve_later (create_reservation input user_id) w =
      Ends-state (Reservations.create_reservation service_bus input user_id w)
        (create_reservation-Ends input user_id w) (λ _ _ p. p.rest.later) (λ _ u. u.later)
  serve_later (cancel_reservation reservation_id) w =
      Ends-state (Reservations.cancel_reservation service_bus reservation_id w)
        (cancel_reservation-Ends reservation_id w) (λ _ _ p. p.rest.later) (λ _ u. u.later)
  serve_later run_due_loans_job w = (execute-Delivered w).later
