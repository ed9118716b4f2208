-- ===== src/Web.antt =====
-- The routers that app/main.py includes: one constructor for each endpoint, with the parameters
-- that its controller gets, and what the application answers.
pub mod Reads
pub mod Callers
pub mod Access
pub mod Owners
pub mod Courses
pub mod Gate
pub mod Answers
pub mod Views
pub mod Visits
pub mod Shelves
pub mod Privileges
use library_api.Prelude.{ℕ, String, Bool, Option, List, map}
use library_api.Prelude.Int.{ℤ}
use library_api.Datetime.{GivenDatetime}
use library_api.Errors.{Error, domain, exception_handler, request_validation_error}
use library_api.Models.Author.{Author}
use library_api.Models.Book.{Book}
use library_api.Models.Loan.{LoanStatus, Cents}
use library_api.Models.Reservation.{Reservation, ReservationStatus}
use library_api.Models.Notification.{Notification}
use library_api.Responses.{
  Page, Document, BookResponse, LoanResponse, ReturnLoanResponse, CancelLoanResponse,
  PayLoanFineResponse, RenewLoanResponse, CancelReservationResponse,
}
use library_api.Exec.{Exec, pure, ◌>>=◌}
use library_api.External.{External}
use library_api.World.{State}
use library_api.Users.Service.{
  CreateUser, UpdateUser, UpdateUserRole, Login, TokenResponse, UserResponse, user_response,
}
use library_api.Users.Controller as Users
use library_api.Authors.Service.{CreateAuthor, UpdateAuthor, AuthorResponse, author_response}
use library_api.Authors.Controller as Authors
use library_api.Books.Service.{CreateBook, UpdateBook}
use library_api.Books.Controller as Books
use library_api.Loans.Service.{CreateLoan, UpdateLoan}
use library_api.Loans.Controller as Loans
use library_api.Reservations.Service.{CreateReservation}
use library_api.Reservations.Controller as Reservations
use library_api.Notifications.Controller as Notifications
use library_api.Reports.Text.{Text}
use library_api.Reports.Service.{Stats, Flowable}
use library_api.Reports.Controller as Reports

pub data Endpoint : Type 0 where
  create_user : CreateUser → Endpoint
  list_users : ℤ → ℤ → Endpoint
  login : Login → Endpoint
  me : Endpoint
  get_user : String → Endpoint
  update_user : String → UpdateUser → Endpoint
  delete_user : String → Endpoint
  update_user_role : String → UpdateUserRole → Endpoint
  create_author : CreateAuthor → Endpoint
  list_authors : ℤ → ℤ → Endpoint
  get_author : String → Endpoint
  update_author : String → UpdateAuthor → Endpoint
  delete_author : String → Endpoint
  create_book : CreateBook → Endpoint
  list_books : ℤ → ℤ → Option String → Option String → Option String → Option Bool → Endpoint
  get_book : String → Endpoint
  update_book : String → UpdateBook → Endpoint
  delete_book : String → Endpoint
  list_loans : ℤ → ℤ → Option String → Option String → Option LoanStatus → Option Bool → Endpoint
  list_loans_by_user : String → ℤ → ℤ → Option LoanStatus → Endpoint
  update_loan : String → UpdateLoan → Endpoint
  cancel_loan : String → Endpoint
  pay_loan_fine : String → Endpoint
  create_loan : CreateLoan → Endpoint
  list_active_loans : ℤ → ℤ → Endpoint
  list_overdue_loans : ℤ → ℤ → Endpoint
  get_loan : String → Endpoint
  return_loan : String → Endpoint
  renew_loan : String → Endpoint
  list_notifications : ℤ → ℤ → Option String → Endpoint
  run_due_loans_job : Endpoint
  create_reservation : CreateReservation → Endpoint
  list_reservations : ℤ → ℤ → Option String → Option String → Option ReservationStatus → Endpoint
  get_reservation : String → Endpoint
  cancel_reservation : String → Endpoint
  get_stats : Option GivenDatetime → Option GivenDatetime → Endpoint
  export_loans_csv :
      Option LoanStatus
      → Option String
      → Option String
      → Option GivenDatetime
      → Option GivenDatetime
      → Endpoint
  export_fines_pdf :
      Option String
      → Option String
      → Option Cents
      → Option GivenDatetime
      → Option GivenDatetime
      → Endpoint

-- What a controller returns, of users and authors what the response models keep.
pub data Reply (Token : Type 0) : Type 0 where
  no_content : Reply Token
  one_user : UserResponse → Reply Token
  user_page : Page UserResponse → Reply Token
  logged_in : TokenResponse Token → Reply Token
  one_author : AuthorResponse → Reply Token
  author_page : Page AuthorResponse → Reply Token
  one_book : Book → Reply Token
  created_book : BookResponse → Reply Token
  document : Document → Reply Token
  one_loan : LoanResponse → Reply Token
  returned : ReturnLoanResponse → Reply Token
  cancelled : CancelLoanResponse → Reply Token
  paid : PayLoanFineResponse → Reply Token
  renewed : RenewLoanResponse → Reply Token
  one_reservation : Reservation → Reply Token
  reservation_page : Page Reservation → Reply Token
  cancelled_reservation : CancelReservationResponse → Reply Token
  notification_page : Page Notification → Reply Token
  stats : Stats → Reply Token
  csv : Text → Reply Token
  pdf : List Flowable → Reply Token

-- The rows in the orders in which the database puts them: `ORDER BY created_at`.
pub record Orders : Type 0 where
  pub authors : List Author → List Author
  pub reservations : List Reservation → List Reservation
  pub notifications : List Notification → List Notification

abbrev pub page_with : {A B : Type 0} → (A → B) → Page A → Page B
page_with f p = record { items = map f p.items; total = p.total; page = p.page; size = p.size }

abbrev pub reply_with : {S A B : Type 0} → Exec S A → (A → B) → Exec S B
reply_with m f = do a ← m; pure (f a)

-- The status of an answer that is not a success.
unfoldable pub error_status : Error → ℕ
unfolding exception_handler
error_status (domain e) = (exception_handler e).status_code
error_status request_validation_error = 422
error_status _ = 500

module _ ⦃ext : External⦄ (orders : Orders) where
  -- A request with a bearer token; the endpoints that everyone may use do not read it.
  unfoldable pub answer : ext.Token → Endpoint → Exec State (Reply ext.Token)
  answer t (create_user input) =
      reply_with (Users.create_user input) (λ u. one_user (user_response u))
  answer t (list_users page size) =
      reply_with (Users.list_users t page size) (λ p. user_page (page_with user_response p))
  answer t (login input) = reply_with (Users.login input) logged_in
  answer t me = reply_with (Users.me t) (λ u. one_user (user_response u))
  answer t (get_user user_id) =
      reply_with (Users.get_user t user_id) (λ u. one_user (user_response u))
  answer t (update_user user_id input) =
      reply_with (Users.update_user t user_id input) (λ u. one_user (user_response u))
  answer t (delete_user user_id) = reply_with (Users.delete_user t user_id) (λ _. no_content)
  answer t (update_user_role user_id input) =
      reply_with (Users.update_user_role t user_id input) (λ _. no_content)
  answer t (create_author input) =
      reply_with (Authors.create_author t input) (λ a. one_author (author_response a))
  answer t (list_authors page size) =
      reply_with (Authors.list_authors orders.authors page size)
        (λ p. author_page (page_with author_response p))
  answer t (get_author author_id) =
      reply_with (Authors.get_author author_id) (λ a. one_author (author_response a))
  answer t (update_author author_id input) =
      reply_with (Authors.update_author t author_id input) (λ a. one_author (author_response a))
  answer t (delete_author author_id) =
      reply_with (Authors.delete_author t author_id) (λ _. no_content)
  answer t (create_book input) = reply_with (Books.create_book t input) created_book
  answer t (list_books page size title category author available) =
      reply_with (Books.list_books page size title category author available) document
  answer t (get_book book_id) = reply_with (Books.get_book book_id) document
  answer t (update_book book_id input) = reply_with (Books.update_book t book_id input) one_book
  answer t (delete_book book_id) = reply_with (Books.delete_book t book_id) (λ _. no_content)
  answer t (list_loans page size user_id book_id status overdue) =
      reply_with (Loans.list_loans t page size user_id book_id status overdue) document
  answer t (list_loans_by_user user_id page size status) =
      reply_with (Loans.list_loans_by_user t user_id page size status) document
  answer t (update_loan loan_id input) = reply_with (Loans.update_loan t loan_id input) one_loan
  answer t (cancel_loan loan_id) = reply_with (Loans.cancel_loan t loan_id) cancelled
  answer t (pay_loan_fine loan_id) = reply_with (Loans.pay_loan_fine t loan_id) paid
  answer t (create_loan input) = reply_with (Loans.create_loan t input) one_loan
  answer t (list_active_loans page size) = reply_with (Loans.list_active_loans t page size) document
  answer t (list_overdue_loans page size) =
      reply_with (Loans.list_overdue_loans t page size) document
  answer t (get_loan loan_id) = reply_with (Loans.get_loan t loan_id) document
  answer t (return_loan loan_id) = reply_with (Loans.return_loan t loan_id) returned
  answer t (renew_loan loan_id) = reply_with (Loans.renew_loan t loan_id) renewed
  answer t (list_notifications page size user_id) =
      reply_with (Notifications.list_notifications orders.notifications t page size user_id)
        notification_page
  answer t run_due_loans_job = reply_with (Notifications.run_due_loans_job t) (λ _. no_content)
  answer t (create_reservation input) =
      reply_with (Reservations.create_reservation t input) one_reservation
  answer t (list_reservations page size user_id book_id status) =
      reply_with
        (Reservations.list_reservations orders.reservations t page size user_id book_id status)
        reservation_page
  answer t (get_reservation reservation_id) =
      reply_with (Reservations.get_reservation t reservation_id) one_reservation
  answer t (cancel_reservation reservation_id) =
      reply_with (Reservations.cancel_reservation t reservation_id) cancelled_reservation
  answer t (get_stats start_date end_date) =
      reply_with (Reports.get_stats t start_date end_date) stats
  answer t (export_loans_csv status user_id book_id start_date end_date) =
      reply_with (Reports.export_loans_csv t status user_id book_id start_date end_date) csv
  answer t (export_fines_pdf user_id book_id min_amount start_date end_date) =
      reply_with (Reports.export_fines_pdf t user_id book_id min_amount start_date end_date) pdf
