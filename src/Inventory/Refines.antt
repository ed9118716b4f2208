-- ===== src/Inventory/Refines.antt =====
-- The requests of the API as steps of the abstract machine.
use library_api.Models.Book.{book_row}
use library_api.Models.Loan.{loan_row}
use library_api.External.{External}
use library_api.World.{State}
use library_api.Effects.{Ends-state}
use library_api.EventBus.{service_bus}
use library_api.Users.Service as Users
use library_api.Users.Effects.{
  create_user-Ends, update_user-Ends, update_role-Ends, delete_user-Ends,
}
use library_api.Authors.Service as Authors
use library_api.Authors.Effects.{create_author-Ends, update_author-Ends, delete_author-Ends}
use library_api.Books.Service as Books
use library_api.Loans.Service as Loans
use library_api.Reservations.Service as Reservations
use library_api.Books.Service.{CreateBook, UpdateBook, edited, below_borrowed, borrowed_books}
use library_api.Books.Effects.{create_book-Ends, update_book-Ends, delete_book-Ends}
use library_api.Loans.Service.{CreateLoan, UpdateLoan}
use library_api.Loans.Effects.Create.{create_loan-Ends}
use library_api.Loans.Effects.Return.{return_loan-Ends}
use library_api.Loans.Effects.Pay.{pay_fine-Ends}
use library_api.Loans.Effects.Update.{update_loan-Ends}
use library_api.Loans.Effects.Cancel.{cancel_loan-Ends}
use library_api.Loans.Effects.Renew.{renew_loan-Ends}
use library_api.Reservations.Effects.{create_reservation-Ends, cancel_reservation-Ends}
use library_api.Notifications.Once.{execute-Delivered}
use library_api.Inventory.LoanSteps.{
  Unchanged-Step, Lent-Step, Returned-Step, Cancelled-Step, Paid-Step, Renewed-Step, Updated-Step,
}
use library_api.Inventory.BookSteps.{IsNew, BookCreated-Step, BookUpdated-Step, BookDeleted-Step}
use library_api.Api.{
  Request, create_user, update_user, update_role, delete_user, create_author, update_author,
  delete_author, create_book, update_book, delete_book, create_loan, return_loan, pay_fine,
  update_loan, cancel_loan, renew_loan, create_reservation, cancel_reservation, run_due_loans_job,
  serve,
}
use library_api.Inventory.{hide, shelf, Step, idle}

module _ ⦃ext : External⦄ where
  -- What a request may be: a new book is new.
  abbrev pub Admissible : Request → State → Type 0
  Admissible (create_book input) w = IsNew input w
  Admissible _ w = Unit

  -- Serving any request takes the tables of books and loans by one step of the abstract machine,
  -- if a book that it creates gets an identifier that no book has and no fewer than zero copies.
  pub serve-Step : (r : Request) (w : State) → Admissible r w → Step (shelf w) (shelf (serve r w))
  unfolding serve
  serve-Step (create_user input) w a =
      Ends-state (Users.create_user input w) (create_user-Ends input w)
        (λ _ _ p. idle p.rest.books p.rest.loans) (λ _. Unchanged-Step)
  serve-Step (update_user user_id input) w a =
      Ends-state (Users.update_user user_id input w) (update_user-Ends user_id input w)
        (λ _ _ p. idle p.rest.books p.rest.loans) (λ _. Unchanged-Step)
  serve-Step (update_role user_id input) w a =
      Ends-state (Users.update_role user_id input w) (update_role-Ends user_id input w)
        (λ _ _ p. idle p.rest.books p.rest.loans) (λ _. Unchanged-Step)
  serve-Step (delete_user user_id) w a =
      Ends-state (Users.delete_user user_id w) (delete_user-Ends user_id w)
        (λ _ _ p. idle p.rest.books p.rest.loans) (λ _. Unchanged-Step)
  serve-Step (create_author input) w a =
      Ends-state (Authors.create_author input w) (create_author-Ends input w)
        (λ _ _ p. idle p.books p.rest.loans) (λ _. Unchanged-Step)
  serve-Step (update_author author_id input) w a =
      Ends-state (Authors.update_author author_id input w) (update_author-Ends author_id input w)
        (λ _ _ p. idle p.books p.rest.loans) (λ _. Unchanged-Step)
  serve-Step (delete_author author_id) w a =
      Ends-state (Authors.delete_author author_id w) (delete_author-Ends author_id w)
        (λ _ _ p. hide p.author.id p.books p.rest.loans) (λ _. Unchanged-Step)
  serve-Step (create_book input) w a =
      Ends-state (Books.create_book input w) (create_book-Ends input w) (λ _ _. BookCreated-Step a)
        (λ _. Unchanged-Step)
  serve-Step (update_book book_id input) w a =
      Ends-state (Books.update_book book_id input w) (update_book-Ends book_id input w)
        (λ _ _. BookUpdated-Step) (λ _. Unchanged-Step)
  serve-Step (delete_book book_id) w a =
      Ends-state (Books.delete_book book_id w) (delete_book-Ends book_id w)
        (λ _ _. BookDeleted-Step) (λ _. Unchanged-Step)
  serve-Step (create_loan input) w a =
      Ends-state (Loans.create_loan service_bus input w) (create_loan-Ends input w)
        (λ _ _. Lent-Step) (λ _. Unchanged-Step)
  serve-Step (return_loan loan_id) w a =
      Ends-state (Loans.return_loan service_bus loan_id w) (return_loan-Ends loan_id w)
        (λ _ _. Returned-Step) (λ _. Unchanged-Step)
  serve-Step (pay_fine loan_id) w a =
      Ends-state (Loans.pay_fine loan_id w) (pay_fine-Ends loan_id w) (λ _ _. Paid-Step)
        (λ _. Unchanged-Step)
  serve-Step (update_loan loan_id input) w a =
      Ends-state (Loans.update_loan loan_id input w) (update_loan-Ends loan_id input w)
        (λ _ _. Updated-Step) (λ _. Unchanged-Step)
  serve-Step (cancel_loan loan_id) w a =
      Ends-state (Loans.cancel_loan service_bus loan_id w) (cancel_loan-Ends loan_id w)
        (λ _ _. Cancelled-Step) (λ _. Unchanged-Step)
  serve-Step (renew_loan loan_id) w a =
      Ends-state (Loans.renew_loan loan_id w) (renew_loan-Ends loan_id w) (λ _ _. Renewed-Step)
        (λ _. Unchanged-Step)
  serve-Step (create_reservation input user_id) w a =
      Ends-state (Reservations.create_reservation service_bus input user_id w)
        (create_reservation-Ends input user_id w) (λ _ _ p. idle p.rest.books p.rest.loans)
        (λ _. Unchanged-Step)
  serve-Step (cancel_reservation reservation_id) w a =
      Ends-state (Reservations.cancel_reservation service_bus reservation_id w)
        (cancel_reservation-Ends reservation_id w) (λ _ _ p. idle p.rest.books p.rest.loans)
        (λ _. Unchanged-Step)
  serve-Step run_due_loans_job w a = let d = execute-Delivered w in idle d.books d.loans
